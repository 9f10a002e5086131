-- ===== src/Protocol/Fields.antt =====
-- Names, fields and numbers: what a header holds, and what reads back.
use tenclaw.Base.{
  ℕ, ◌^◌, ◌<◌, ◌≡◌, refl, ap₂, ◌≢◌, inl, inr, Bool, true, false, some, List, [], ◌∷◌, ◌++◌, arith,
  Bool-cases, All,
}
use tenclaw.Protocol.{
  Bytes, codes, channel_to_string, kind_to_string, channel_from_string, kind_from_string, same,
  emplace, Channel, control, console, input, display, audio, clipboard, Kind, request, response,
  event,
}
use tenclaw.Protocol.Header.{IsDigit}
use tenclaw.Protocol.Ends.{EndsKept}

pub same-≡ : (s t : Bytes) → same s t ≡ true → s ≡ t
same-≡ [] [] h = refl
same-≡ [] (b ∷ t) h = absurd (ground arith)
same-≡ (a ∷ s) [] h = absurd (ground arith)
same-≡ (a ∷ s) (b ∷ t) h = ap₂ (λ x xs. x ∷ xs) (ground arith) (same-≡ s t (ground arith))

pub same_ne : (s t : Bytes) → s ≢ t → same s t ≡ false
same_ne s t h = elim (Bool-cases (same s t)) [ inl e ↦ absurd (h (same-≡ s t e)) | inr e ↦ e ]

pub channel_round : (c : Channel) → channel_from_string (channel_to_string c) ≡ some c
unfolding channel_from_string channel_to_string
channel_round control = refl
channel_round console = refl
channel_round input = refl
channel_round display = refl
channel_round audio = refl
channel_round clipboard = refl

pub kind_round : (k : Kind) → kind_from_string (kind_to_string k) ≡ some k
unfolding kind_from_string kind_to_string
kind_round request = refl
kind_round response = refl
kind_round event = refl

-- A new key goes to the end.
pub emplace_new :
    (k v : Bytes) (fs : List (Bytes × Bytes))
    → All (λ g. k ≢ g.0) fs
    → emplace k v fs ≡ fs ++ ((k, v) ∷ [])
unfolding emplace
emplace_new k v [] h = refl
emplace_new k v (f ∷ fs) h = rw (same_ne k f.0 h.0, emplace_new k v fs h.1) refl

abbrev pub reserved : List Bytes
reserved =
    codes "version"
    ∷ codes "channel"
    ∷ codes "kind"
    ∷ codes "type"
    ∷ codes "vm_id"
    ∷ codes "request_id"
    ∷ []

-- A field whose name has no equals sign and is none of the header's own, and whose value does not
-- end in a newline or a carriage return.
pub record IsField (f : Bytes × Bytes) : Type 0 where
  pub no_sep : All (λ ch. ch ≢ 61) f.0
  pub not_reserved : All (λ r. f.0 ≢ r) reserved
  pub ends_kept : EndsKept f.1

-- No name comes twice, among the fields `done` and then `fs`.
abbrev pub Fresh : List (Bytes × Bytes) → List (Bytes × Bytes) → Type 0
Fresh done [] = Unit
Fresh done (f ∷ fs) = All (λ g. f.0 ≢ g.0) done × Fresh (done ++ (f ∷ [])) fs

-- What an output stream and `strtoull` agree on: numbers below 2 ^ 64 are printed in digits and
-- read back whole.
pub record Decimal (to_text : ℕ → Bytes) (strtoull : Bytes → ℕ × Bool) : Type 0 where
  pub digits : (n : ℕ) → n < 2 ^ 64 → All IsDigit (to_text n)
  pub some_digit : (n : ℕ) → n < 2 ^ 64 → to_text n ≢ []
  pub parses : (n : ℕ) → n < 2 ^ 64 → strtoull (to_text n) ≡ (n, true)
