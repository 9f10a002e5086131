-- ===== src/Protocol/Decode.antt =====
-- A header line, decoded.
use tenclaw.Base.{
  ℕ, ◌^◌, ◌≤◌, ◌<◌, ◌≡◌, refl, ap, subst, ◌∙◌, ◌≢◌, Bool, none, some, List, [], ◌∷◌, ◌++◌, arith,
  length, All,
}
use tenclaw.Protocol.{
  Bytes, codes, Message, empty_message, protocol_version, escape, split_tabs, strip, pair,
  encode_header, channel_to_string, kind_to_string, decode_tokens, decode, accept,
}
use tenclaw.Protocol.Text.{
  tabbed, IsFlat, IsPlain, plain-IsFlat, append-IsFlat, escape-IsFlat, split_tabs-tabbed,
}
use tenclaw.Protocol.Header.{
  tokens, escape_digits, all_fields, size_field, own_tokens, encode_header-tokens,
}
use tenclaw.Protocol.Ends.{EndsKept, digits-IsKept, tokens-IsKept, skip-IsKept, strip_lem}
use tenclaw.Protocol.Fields.{IsField, Fresh, Decimal}
use tenclaw.Protocol.Tokens.{own_fields, field_tokens}

some_type : (t : Bytes) (m : Message) → t ≢ [] → elim t [ [] ↦ none | ch ∷ rest ↦ some m ] ≡ some m
some_type [] m h = absurd (h refl)
some_type (b ∷ t) m h = refl

accept_known :
    (strtoull : Bytes → ℕ × Bool) (ts : List Bytes) (n : Message)
    → 6 ≤ length ts
    → decode_tokens strtoull ts empty_message ≡ some n
    → n.version ≡ protocol_version
    → n.type ≢ []
    → accept strtoull ts ≡ some n
unfolding accept
accept_known strtoull ts n h e v t = rw e (ground (arith, some_type n.type n t))

-- A message of the version that `Decode` accepts, with a type, with fields of distinct names that
-- leave the header's own alone, and with numbers that fit.
pub record IsMessage (to_text : ℕ → Bytes) (m : Message) : Type 0 where
  pub version_known : m.version ≡ protocol_version
  pub has_type : m.type ≢ []
  pub id_fits : m.request_id < 2 ^ 64
  pub payload_fits : length m.payload < 2 ^ 64
  pub fields_fine : All IsField m.fields
  pub fields_fresh : Fresh [] (all_fields to_text m)

module _ (to_text : ℕ → Bytes) (strtoull : Bytes → ℕ × Bool) (dec : Decimal to_text strtoull) where
  pair-IsFlat : (key v : Bytes) → All IsPlain key → IsFlat v → IsFlat (key ++ (61 ∷ v))
  pair-IsFlat key v h k =
      append-IsFlat key (61 ∷ v) (plain-IsFlat key h)
        (append-IsFlat (61 ∷ []) v (plain-IsFlat (61 ∷ []) (ground arith)) k)

  text-IsFlat : (n : ℕ) → n < 2 ^ 64 → IsFlat (to_text n)
  text-IsFlat n h =
      subst IsFlat (escape_digits (to_text n) (dec.digits n h)) (escape-IsFlat (to_text n))

  tokens-IsFlat : (fs : List (Bytes × Bytes)) → All IsFlat (tokens fs)
  tokens-IsFlat [] = tt
  tokens-IsFlat (f ∷ fs) = (
    append-IsFlat (escape f.0) (61 ∷ escape f.1) (escape-IsFlat f.0) (
        append-IsFlat (61 ∷ []) (escape f.1) (plain-IsFlat (61 ∷ []) (ground arith))
          (escape-IsFlat f.1)),
    tokens-IsFlat fs,
  )

  size_field-All :
      (payload : Bytes) → length payload < 2 ^ 64 → All IsField (size_field to_text payload)
  size_field-All [] h = tt
  size_field-All (b ∷ bs) h = (
    record {
      no_sep = ground arith;
      not_reserved = ground arith;
      ends_kept =
          digits-IsKept 61 (to_text (length (b ∷ bs))) (ground arith)
            (dec.digits (length (b ∷ bs)) h);
    },
    tt,
  )

  All-append :
      (fs gs : List (Bytes × Bytes)) → All IsField fs → All IsField gs → All IsField (fs ++ gs)
  All-append [] gs h k = k
  All-append (f ∷ fs) gs h k = (h.0, All-append fs gs h.1 k)

  All-EndsKept : (fs : List (Bytes × Bytes)) → All IsField fs → All (λ f. EndsKept f.1) fs
  All-EndsKept [] h = tt
  All-EndsKept (f ∷ fs) h = (h.0.ends_kept, All-EndsKept fs h.1)

  line-EndsKept :
      (m : Message)
      → IsMessage to_text m
      → All IsField (all_fields to_text m)
      → EndsKept (pair "version" (to_text m.version) ++ tabbed (own_tokens to_text m))
  line-EndsKept m v h =
      skip-IsKept 61 (pair "version" (to_text m.version))
        (pair "channel" (escape (channel_to_string m.channel))
          ∷ pair "kind" (escape (kind_to_string m.kind))
          ∷ pair "type" (escape m.type)
          ∷ pair "vm_id" (escape m.vm_id)
          ∷ [])
        (pair "request_id" (to_text m.request_id)) (tokens (all_fields to_text m))
        (tokens-IsKept 9 (pair "request_id" (to_text m.request_id)) (all_fields to_text m)
          (digits-IsKept 61 (to_text m.request_id) (ground arith)
            (dec.digits m.request_id v.id_fits))
          (All-EndsKept (all_fields to_text m) h))

  line_splits :
      (m : Message)
      → IsMessage to_text m
      → split_tabs (pair "version" (to_text m.version) ++ tabbed (own_tokens to_text m))
        ≡ pair "version" (to_text m.version) ∷ own_tokens to_text m
  line_splits m v =
      split_tabs-tabbed (pair "version" (to_text m.version)) (own_tokens to_text m)
        (pair-IsFlat (codes "version") (to_text m.version) (ground arith)
          (text-IsFlat m.version (omega (arith, v.version_known))))
        (
          pair-IsFlat (codes "channel") (escape (channel_to_string m.channel)) (ground arith)
              (escape-IsFlat (channel_to_string m.channel)),
          (
            pair-IsFlat (codes "kind") (escape (kind_to_string m.kind)) (ground arith)
                (escape-IsFlat (kind_to_string m.kind)),
            (
              pair-IsFlat (codes "type") (escape m.type) (ground arith) (escape-IsFlat m.type),
              (
                pair-IsFlat (codes "vm_id") (escape m.vm_id) (ground arith) (escape-IsFlat m.vm_id),
                (
                  pair-IsFlat (codes "request_id") (to_text m.request_id) (ground arith)
                      (text-IsFlat m.request_id v.id_fits),
                  (tokens-IsFlat (all_fields to_text m)),
                ),
              ),
            ),
          ),
        )

  -- The header line of a message of this protocol version, with a type and with distinct field
  -- names without an equals sign, none of them one of the header's own and no value ending in a
  -- newline or a carriage return, decodes to the message itself, without its payload but with the
  -- payload's size among the fields. The request id and the payload's size fit 64 bits, and `strtoull`
  -- reads the decimal digits that `to_text` writes.
  pub decode-encode_header :
      (m : Message)
      → IsMessage to_text m
      → decode strtoull (encode_header to_text m)
        ≡ some (record m { fields = all_fields to_text m; payload = [] })
  unfolding decode
  decode-encode_header m v =
      let ts = pair "version" (to_text m.version) ∷ own_tokens to_text m in
      let n : Message = record m { fields = all_fields to_text m; payload = [] } in
      let fine : All IsField (all_fields to_text m) =
        All-append m.fields (size_field to_text m.payload) v.fields_fine
          (size_field-All m.payload v.payload_fits) in
      let line : split_tabs (strip (encode_header to_text m)) ≡ ts =
        ap (λ s. split_tabs (strip s))
          (encode_header-tokens to_text m (dec.digits (length m.payload) v.payload_fits))
        ∙ ap split_tabs (strip_lem _ (line-EndsKept m v fine))
        ∙ line_splits m v in
      ap (accept strtoull) line
      ∙ accept_known strtoull ts n (omega arith)
          (own_fields strtoull to_text m (tokens (all_fields to_text m)) dec v.version_known
              v.id_fits
            ∙ field_tokens strtoull (all_fields to_text m) (record m { fields = []; payload = [] })
                fine v.fields_fresh)
          v.version_known v.has_type
