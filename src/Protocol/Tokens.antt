-- ===== src/Protocol/Tokens.antt =====
-- What decoding makes of the tokens of a header.
use tenclaw.Base.{
  ℕ, ◌^◌, ◌<◌, ◌≡◌, refl, sym, ap, ap₂, ◌∙◌, ◌≢◌, Bool, true, none, some, List, [], ◌∷◌, ◌++◌,
  arith, All,
}
use tenclaw.Protocol.{
  Bytes, codes, Message, empty_message, protocol_version, escape, unescape, unescape_from, find_sep,
  pair, channel_to_string, kind_to_string, parse_u64, decode_token, decode_tokens, assign, Channel,
  Kind,
}
use tenclaw.Protocol.Text.{++-assoc, ++-nil, find_sep-append, escape-no_sep, unescape-escape}
use tenclaw.Protocol.Header.{token, tokens, IsDigit, escape_digits}
use tenclaw.Protocol.Fields.{
  same_ne, channel_round, kind_round, emplace_new, reserved, IsField, Fresh, Decimal,
}

module _ (strtoull : Bytes → ℕ × Bool) where
  parse_some : (s : Bytes) (n : ℕ) → s ≢ [] → strtoull s ≡ (n, true) → parse_u64 strtoull s ≡ some n
  unfolding parse_u64
  parse_some [] n h e = absurd (h refl)
  parse_some (b ∷ s) n h e = rw e refl

  token_assign :
      (t k v : Bytes) (m : Message)
      → find_sep t ≡ some (k, v)
      → decode_token strtoull t m ≡ assign strtoull (unescape k) (unescape v) m
  unfolding decode_token
  token_assign t k v m e =
      ap
        (λ o. elim o [
          | none ↦ some m
          | some kv ↦ assign strtoull (unescape kv.0) (unescape kv.1) m
        ])
        e

  -- A token `key=value` with the value escaped, for a field of the header's own.
  own_token :
      (key v : Bytes) (m : Message)
      → All (λ ch. ch ≢ 61) key
      → unescape key ≡ key
      → decode_token strtoull (key ++ (61 ∷ escape v)) m ≡ assign strtoull key v m
  own_token key v m h e =
      token_assign (key ++ (61 ∷ escape v)) key (escape v) m (find_sep-append key (escape v) h)
      ∙ ap₂ (λ x y. assign strtoull x y m) e (unescape-escape v)

  assign_field :
      (f : Bytes × Bytes) (m : Message)
      → All (λ r. f.0 ≢ r) reserved
      → All (λ g. f.0 ≢ g.0) m.fields
      → assign strtoull f.0 f.1 m ≡ some (record m { fields = m.fields ++ (f ∷ []) })
  unfolding assign
  assign_field f m (h1, (h2, (h3, (h4, (h5, (h6, _)))))) fresh =
      rw
        (
          same_ne f.0 (codes "version") h1,
          same_ne f.0 (codes "channel") h2,
          same_ne f.0 (codes "kind") h3,
        )
        (rw
          (
            same_ne f.0 (codes "type") h4,
            same_ne f.0 (codes "vm_id") h5,
            same_ne f.0 (codes "request_id") h6,
          )
          (ap (λ l. some (record m { fields = l })) (emplace_new f.0 f.1 m.fields fresh)))

  field_token :
      (f : Bytes × Bytes) (m : Message)
      → IsField f
      → All (λ g. f.0 ≢ g.0) m.fields
      → decode_token strtoull (token f) m ≡ some (record m { fields = m.fields ++ (f ∷ []) })
  field_token f m v fresh =
      token_assign (token f) (escape f.0) (escape f.1) m
        (find_sep-append (escape f.0) (escape f.1) (escape-no_sep f.0 v.no_sep))
      ∙ ap₂ (λ x y. assign strtoull x y m) (unescape-escape f.0) (unescape-escape f.1)
      ∙ assign_field f m v.not_reserved fresh

  next_token :
      (t : Bytes) (ts : List Bytes) (m n : Message)
      → decode_token strtoull t m ≡ some n
      → decode_tokens strtoull (t ∷ ts) m ≡ decode_tokens strtoull ts n
  unfolding decode_tokens
  next_token t ts m n e = ap (λ o. elim o [ none ↦ none | some k ↦ decode_tokens strtoull ts k ]) e

  pub field_tokens :
      (fs : List (Bytes × Bytes)) (m : Message)
      → All IsField fs
      → Fresh m.fields fs
      → decode_tokens strtoull (tokens fs) m ≡ some (record m { fields = m.fields ++ fs })
  unfolding decode_tokens
  field_tokens [] m h fresh = ap (λ l. some (record m { fields = l })) (sym (++-nil m.fields))
  field_tokens (f ∷ fs) m h fresh =
      let n : Message = record m { fields = m.fields ++ (f ∷ []) } in
      next_token (token f) (tokens fs) m n (field_token f m h.0 fresh.0)
      ∙ field_tokens fs n h.1 fresh.1
      ∙ ap (λ l. some (record m { fields = l })) (++-assoc m.fields (f ∷ []) fs)

  number_token :
      (to_text : ℕ → Bytes) (key : Bytes) (n : ℕ) (m : Message)
      → All IsDigit (to_text n)
      → All (λ ch. ch ≢ 61) key
      → unescape key ≡ key
      → decode_token strtoull (key ++ (61 ∷ to_text n)) m ≡ assign strtoull key (to_text n) m
  number_token to_text key n m d h e =
      ap (λ v. decode_token strtoull (key ++ (61 ∷ v)) m) (sym (escape_digits (to_text n) d))
      ∙ own_token key (to_text n) m h e

  assign_version :
      (s : Bytes) (n : ℕ) (m : Message)
      → n < 2 ^ 32
      → parse_u64 strtoull s ≡ some n
      → assign strtoull (codes "version") s m ≡ some (record m { version = n })
  unfolding assign
  assign_version s n m h e = rw e (ap (λ x. some (record m { version = x })) (omega arith))

  assign_channel :
      (c : Channel) (m : Message)
      → assign strtoull (codes "channel") (channel_to_string c) m ≡ some (record m { channel = c })
  unfolding assign
  assign_channel c m = rw (channel_round c) refl

  assign_kind :
      (k : Kind) (m : Message)
      → assign strtoull (codes "kind") (kind_to_string k) m ≡ some (record m { kind = k })
  unfolding assign
  assign_kind k m = rw (kind_round k) refl

  assign_id :
      (s : Bytes) (n : ℕ) (m : Message)
      → parse_u64 strtoull s ≡ some n
      → assign strtoull (codes "request_id") s m ≡ some (record m { request_id = n })
  unfolding assign
  assign_id s n m e = rw e refl

  -- The six tokens that every header starts with.
  pub own_fields :
      (to_text : ℕ → Bytes) (m : Message) (ts : List Bytes)
      → Decimal to_text strtoull
      → m.version ≡ protocol_version
      → m.request_id < 2 ^ 64
      → decode_tokens strtoull
          (pair "version" (to_text m.version)
            ∷ pair "channel" (escape (channel_to_string m.channel))
            ∷ pair "kind" (escape (kind_to_string m.kind))
            ∷ pair "type" (escape m.type)
            ∷ pair "vm_id" (escape m.vm_id)
            ∷ pair "request_id" (to_text m.request_id)
            ∷ ts)
          empty_message
        ≡ decode_tokens strtoull ts (record m { fields = []; payload = [] })
  unfolding assign unescape_from
  own_fields to_text m ts dec v fits =
      let m1 : Message = record empty_message { version = m.version } in
      let m2 : Message = record m1 { channel = m.channel } in
      let m3 : Message = record m2 { kind = m.kind } in
      let m4 : Message = record m3 { type = m.type } in
      let m5 : Message = record m4 { vm_id = m.vm_id } in
      let number : (n : ℕ) → n < 2 ^ 64 → parse_u64 strtoull (to_text n) ≡ some n =
        λ n h. parse_some (to_text n) n (dec.some_digit n h) (dec.parses n h) in
      let small : m.version < 2 ^ 32 = omega arith in
      next_token _ _ empty_message m1 (
        number_token to_text (codes "version") m.version empty_message
          (dec.digits m.version (omega arith)) (ground arith) refl
        ∙ assign_version (to_text m.version) m.version empty_message small
            (number m.version (omega arith)))
      ∙ next_token _ _ m1 m2 (
          own_token (codes "channel") (channel_to_string m.channel) m1 (ground arith) refl
          ∙ assign_channel m.channel m1)
      ∙ next_token _ _ m2 m3 (
          own_token (codes "kind") (kind_to_string m.kind) m2 (ground arith) refl
          ∙ assign_kind m.kind m2)
      ∙ next_token _ _ m3 m4 (own_token (codes "type") m.type m3 (ground arith) refl)
      ∙ next_token _ _ m4 m5 (own_token (codes "vm_id") m.vm_id m4 (ground arith) refl)
      ∙ next_token _ _ m5 (record m { fields = []; payload = [] })
          (number_token to_text (codes "request_id") m.request_id m5 (dec.digits m.request_id fits)
              (ground arith) refl
            ∙ assign_id (to_text m.request_id) m.request_id m5 (number m.request_id fits))
