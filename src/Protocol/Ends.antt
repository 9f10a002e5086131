-- ===== src/Protocol/Ends.antt =====
-- Which lines keep their end when the trailing newline is dropped.
use tenclaw.Base.{ℕ, ◌≡◌, refl, sym, ap, subst, ◌∙◌, ◌≢◌, List, [], ◌∷◌, ◌++◌, arith, All}
use tenclaw.Protocol.{Bytes, escape, strip}
use tenclaw.Protocol.Text.{escape_byte, escape-cons, tabbed, ++-nil}
use tenclaw.Protocol.Header.{IsDigit, token, tokens}

-- The last byte of a text, or `d` for an empty one.
abbrev pub last_or : ℕ → Bytes → ℕ
last_or d [] = d
last_or d (b ∷ s) = last_or b s

-- Neither a newline nor a carriage return.
abbrev pub IsKept : ℕ → Type 0
IsKept b = (b ≢ 10) × (b ≢ 13)

-- The last byte of the text, if it has one, is kept.
abbrev pub EndsKept : Bytes → Type 0
EndsKept s = IsKept (last_or 61 s)

last_or-append : (d : ℕ) (s t : Bytes) → last_or d (s ++ t) ≡ last_or (last_or d s) t
last_or-append d [] t = refl
last_or-append d (b ∷ s) t = last_or-append b s t

last_or-escape : (d : ℕ) (s : Bytes) → last_or d (escape s) ≡ last_or d s
unfolding escape
last_or-escape d [] = refl
last_or-escape d (ch ∷ s) =
    ap (last_or d) (escape-cons ch s)
    ∙ last_or-append d (escape_byte ch) (escape s)
    ∙ ap (λ b. last_or b (escape s)) (ground arith)
    ∙ last_or-escape ch s

last_or-token : (d : ℕ) (f : Bytes × Bytes) → last_or d (token f) ≡ last_or 61 f.1
last_or-token d f = last_or-append d (escape f.0) (61 ∷ escape f.1) ∙ last_or-escape 61 f.1

pub digits-IsKept : (d : ℕ) (s : Bytes) → IsKept d → All IsDigit s → IsKept (last_or d s)
digits-IsKept d [] k h = k
digits-IsKept d (b ∷ s) k h = digits-IsKept b s (ground arith) h.1

-- The tokens after the first one leave the end of the line at the last of them.
pub tokens-IsKept :
    (d : ℕ) (p : Bytes) (fs : List (Bytes × Bytes))
    → IsKept (last_or d p)
    → All (λ f. EndsKept f.1) fs
    → IsKept (last_or d (p ++ tabbed (tokens fs)))
tokens-IsKept d p [] k h = subst (λ s. IsKept (last_or d s)) (sym (++-nil p)) k
tokens-IsKept d p (f ∷ fs) k h =
    subst IsKept (sym (last_or-append d p (9 ∷ (token f ++ tabbed (tokens fs)))))
      (tokens-IsKept 9 (token f) fs (subst IsKept (sym (last_or-token 9 f)) h.0) h.1)

-- Any tokens before the last ones make no difference.
pub skip-IsKept :
    (d : ℕ) (p : Bytes) (qs : List Bytes) (q : Bytes) (ps : List Bytes)
    → IsKept (last_or 9 (q ++ tabbed ps))
    → IsKept (last_or d (p ++ tabbed (qs ++ (q ∷ ps))))
skip-IsKept d p [] q ps k = subst IsKept (sym (last_or-append d p (9 ∷ (q ++ tabbed ps)))) k
skip-IsKept d p (r ∷ qs) q ps k =
    subst IsKept (sym (last_or-append d p (9 ∷ (r ++ tabbed (qs ++ (q ∷ ps))))))
      (skip-IsKept 9 r qs q ps k)

strip-cons : (b : ℕ) (s : Bytes) → IsKept (last_or b s) → strip (b ∷ (s ++ (10 ∷ []))) ≡ b ∷ s
unfolding strip
strip-cons b [] k = ground arith
strip-cons b (c ∷ s) k = rw (strip-cons c s k) refl

-- Dropping what trails takes the newline away and nothing else.
pub strip_lem : (s : Bytes) → EndsKept s → strip (s ++ (10 ∷ [])) ≡ s
unfolding strip
strip_lem [] k = refl
strip_lem (b ∷ s) k = strip-cons b s k
