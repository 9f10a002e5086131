-- ===== src/Protocol/Header.antt =====
-- The header line as a list of tokens, each a key, an equals sign and a value, one tab between
-- each two.
use tenclaw.Base.{
  ℕ, ◌≤◌, ◌<◌, ◌≡◌, refl, sym, ap, ap₂, ◌∙◌, List, [], ◌∷◌, ◌++◌, arith, length, All,
}
use tenclaw.Protocol.{
  Bytes, codes, Message, escape, pair, encode_fields, encode_header, encode_size, channel_to_string,
  kind_to_string,
}
use tenclaw.Protocol.Text.{++-assoc, ++-nil, tabbed}

abbrev pub token : Bytes × Bytes → Bytes
token f = escape f.0 ++ (61 ∷ escape f.1)

abbrev pub tokens : List (Bytes × Bytes) → List Bytes
tokens [] = []
tokens (f ∷ fs) = token f ∷ tokens fs

tokens-append : (fs gs : List (Bytes × Bytes)) → tokens (fs ++ gs) ≡ tokens fs ++ tokens gs
tokens-append [] gs = refl
tokens-append (f ∷ fs) gs = ap (λ r. token f ∷ r) (tokens-append fs gs)

-- A decimal digit.
abbrev pub IsDigit : ℕ → Type 0
IsDigit d = (48 ≤ d) × (d < 58)

pub escape_digits : (s : Bytes) → All IsDigit s → escape s ≡ s
unfolding escape
escape_digits [] h = refl
escape_digits (d ∷ s) h = let ih = escape_digits s h.1 in ground (arith, ih)

tabbed-append : (ps qs : List Bytes) → tabbed (ps ++ qs) ≡ tabbed ps ++ tabbed qs
tabbed-append [] qs = refl
tabbed-append (p ∷ ps) qs =
    ap (λ r. 9 ∷ r)
      (ap (λ r. p ++ r) (tabbed-append ps qs) ∙ sym (++-assoc p (tabbed ps) (tabbed qs)))

encode_fields-tokens : (fs : List (Bytes × Bytes)) → encode_fields fs ≡ tabbed (tokens fs)
unfolding encode_fields
encode_fields-tokens [] = refl
encode_fields-tokens (f ∷ fs) = ap (λ r. 9 ∷ (token f ++ r)) (encode_fields-tokens fs)

chain_lem :
    (a b c d e f g h : Bytes)
    → ((((((a ++ b) ++ c) ++ d) ++ e) ++ f) ++ g) ++ h
      ≡ a ++ (b ++ (c ++ (d ++ (e ++ (f ++ (g ++ h))))))
chain_lem a b c d e f g h = simp ++-assoc refl

module _ (to_text : ℕ → Bytes) where
  -- The field that a payload adds to the header.
  abbrev pub size_field : Bytes → List (Bytes × Bytes)
  size_field [] = []
  size_field (b ∷ bs) = (codes "payload_size", to_text (length (b ∷ bs))) ∷ []

  abbrev pub all_fields : Message → List (Bytes × Bytes)
  all_fields m = m.fields ++ size_field m.payload

  -- The tokens after the first one.
  abbrev pub own_tokens : Message → List Bytes
  own_tokens m =
      pair "channel" (escape (channel_to_string m.channel))
      ∷ pair "kind" (escape (kind_to_string m.kind))
      ∷ pair "type" (escape m.type)
      ∷ pair "vm_id" (escape m.vm_id)
      ∷ pair "request_id" (to_text m.request_id)
      ∷ tokens (all_fields m)

  encode_size-tokens :
      (payload : Bytes)
      → All IsDigit (to_text (length payload))
      → encode_size to_text payload ≡ tabbed (tokens (size_field payload))
  unfolding encode_size escape
  encode_size-tokens [] h = refl
  encode_size-tokens (b ∷ bs) h =
      let text = to_text (length (b ∷ bs)) in
      ap (λ t. 9 ∷ pair "payload_size" t) (sym (escape_digits text h))
      ∙ ap (λ r. 9 ∷ r) (sym (++-nil (pair "payload_size" (escape text))))

  fields-tokens :
      (m : Message)
      → All IsDigit (to_text (length m.payload))
      → encode_fields m.fields ++ encode_size to_text m.payload ≡ tabbed (tokens (all_fields m))
  fields-tokens m h =
      ap₂ (λ s t. s ++ t) (encode_fields-tokens m.fields) (encode_size-tokens m.payload h)
      ∙ sym (tabbed-append (tokens m.fields) (tokens (size_field m.payload)))
      ∙ ap tabbed (sym (tokens-append m.fields (size_field m.payload)))

  pub encode_header-tokens :
      (m : Message)
      → All IsDigit (to_text (length m.payload))
      → encode_header to_text m
        ≡ (pair "version" (to_text m.version) ++ tabbed (own_tokens m)) ++ (10 ∷ [])
  unfolding encode_header
  encode_header-tokens m h =
      let h1 = 9 ∷ pair "channel" (escape (channel_to_string m.channel)) in
      let h2 = 9 ∷ pair "kind" (escape (kind_to_string m.kind)) in
      let h3 = 9 ∷ pair "type" (escape m.type) in
      let h4 = 9 ∷ pair "vm_id" (escape m.vm_id) in
      let h5 = 9 ∷ pair "request_id" (to_text m.request_id) in
      ap (λ r. r ++ (10 ∷ []))
        (chain_lem (pair "version" (to_text m.version)) h1 h2 h3 h4 h5 (encode_fields m.fields)
            (encode_size to_text m.payload)
          ∙ ap
              (λ r. pair "version" (to_text m.version) ++ (h1 ++ (h2 ++ (h3 ++ (h4 ++ (h5 ++ r))))))
              (fields-tokens m h))
