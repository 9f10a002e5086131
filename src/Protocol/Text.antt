-- ===== src/Protocol/Text.antt =====
-- Escaped text: what it splits into and what it reads back as.
use tenclaw.Base.{
  ℕ, ◌≡◌, refl, sym, ap, subst, ◌∙◌, ◌≢◌, inl, inr, false, some, List, [], ◌∷◌, ◌++◌, arith,
  if◌then◌else◌, Bool-cases, All,
}
use tenclaw.Protocol.{
  Bytes, is_special, escape, unescape, unescape_from, split_from, split_tabs, find_sep,
}

pub ++-assoc {ℓ} : {A : Type ℓ} (s t u : List A) → (s ++ t) ++ u ≡ s ++ (t ++ u)
++-assoc [] t u = refl
++-assoc (b ∷ s) t u = ap (λ r. b ∷ r) (++-assoc s t u)

pub ++-nil {ℓ} : {A : Type ℓ} (s : List A) → s ++ [] ≡ s
++-nil [] = refl
++-nil (b ∷ s) = ap (λ r. b ∷ r) (++-nil s)

-- Reading an escaped text back gives the text, and then goes on with what follows it.
pub unescape-escape_append : (s t : Bytes) → unescape (escape s ++ t) ≡ s ++ unescape t
unfolding escape unescape_from
unescape-escape_append [] t = refl
unescape-escape_append (ch ∷ s) t = let ih = unescape-escape_append s t in ground (arith, ih)

pub unescape-escape : (s : Bytes) → unescape (escape s) ≡ s
unfolding unescape_from
unescape-escape s = ap unescape (sym (++-nil (escape s))) ∙ unescape-escape_append s [] ∙ ++-nil s

-- A text at which the splitter neither stops nor is left after a backslash.
abbrev pub IsFlat : Bytes → Type 0
IsFlat p = (acc rest : Bytes) → split_from acc false (p ++ rest) ≡ split_from (acc ++ p) false rest

pub append-IsFlat : (p q : Bytes) → IsFlat p → IsFlat q → IsFlat (p ++ q)
append-IsFlat p q h k acc rest =
    ap (split_from acc false) (++-assoc p q rest)
    ∙ h acc (q ++ rest)
    ∙ k (acc ++ p) rest
    ∙ ap (λ a. split_from a false rest) (++-assoc acc p q)

-- Neither a backslash nor a tab.
abbrev pub IsPlain : ℕ → Type 0
IsPlain ch = (ch ≢ 92) × (ch ≢ 9)

split-plain :
    (ch : ℕ) (acc rest : Bytes)
    → IsPlain ch
    → split_from acc false (ch ∷ rest) ≡ split_from (acc ++ ch ∷ []) false rest
unfolding split_from
split-plain ch acc rest h = ground arith

split-escaped :
    (ch : ℕ) (acc rest : Bytes)
    → split_from acc false (92 ∷ ch ∷ rest) ≡ split_from (acc ++ 92 ∷ ch ∷ []) false rest
unfolding split_from
split-escaped ch acc rest = refl

-- What the escape makes of one byte.
abbrev pub escape_byte : ℕ → Bytes
escape_byte ch = if is_special ch then 92 ∷ ch ∷ [] else ch ∷ []

pub escape-cons : (ch : ℕ) (s : Bytes) → escape (ch ∷ s) ≡ escape_byte ch ++ escape s
unfolding escape
escape-cons ch s = ground arith

escape_byte-IsFlat : (ch : ℕ) → IsFlat (escape_byte ch)
escape_byte-IsFlat ch acc rest = elim (Bool-cases (is_special ch)) [
  | inl e ↦ rw e (split-escaped ch acc rest)
  | inr e ↦ rw e (split-plain ch acc rest (ground arith))
]

pub escape-IsFlat : (s : Bytes) → IsFlat (escape s)
unfolding escape
escape-IsFlat [] acc rest = ap (λ a. split_from a false rest) (sym (++-nil acc))
escape-IsFlat (ch ∷ s) acc rest =
    (subst IsFlat (sym (escape-cons ch s))
        (append-IsFlat (escape_byte ch) (escape s) (escape_byte-IsFlat ch) (escape-IsFlat s)))
      acc rest

pub plain-IsFlat : (p : Bytes) → All IsPlain p → IsFlat p
plain-IsFlat [] h acc rest = ap (λ a. split_from a false rest) (sym (++-nil acc))
plain-IsFlat (ch ∷ p) h acc rest =
    split-plain ch acc (p ++ rest) h.0
    ∙ plain-IsFlat p h.1 (acc ++ ch ∷ []) rest
    ∙ ap (λ a. split_from a false rest) (++-assoc acc (ch ∷ []) p)

-- Each text after a tab.
abbrev pub tabbed : List Bytes → Bytes
tabbed [] = []
tabbed (q ∷ qs) = 9 ∷ (q ++ tabbed qs)

pub split_tabs-tabbed :
    (p : Bytes) (ps : List Bytes) → IsFlat p → All IsFlat ps → split_tabs (p ++ tabbed ps) ≡ p ∷ ps
unfolding split_from
split_tabs-tabbed p [] h hs = h [] []
split_tabs-tabbed p (q ∷ qs) h hs =
    h [] (9 ∷ (q ++ tabbed qs)) ∙ ap (λ ts. p ∷ ts) (split_tabs-tabbed q qs hs.0 hs.1)

-- The text before the first equals sign ends at it.
pub find_sep-append : (k v : Bytes) → All (λ ch. ch ≢ 61) k → find_sep (k ++ 61 ∷ v) ≡ some (k, v)
unfolding find_sep
find_sep-append [] v h = refl
find_sep-append (ch ∷ k) v h = rw (find_sep-append k v h.1) (ground arith)

escape_byte-no_sep : (ch : ℕ) → ch ≢ 61 → All (λ b. b ≢ 61) (escape_byte ch)
escape_byte-no_sep ch h = ground arith

All-append : (s t : Bytes) → All (λ b. b ≢ 61) s → All (λ b. b ≢ 61) t → All (λ b. b ≢ 61) (s ++ t)
All-append [] t h k = k
All-append (b ∷ s) t h k = (h.0, All-append s t h.1 k)

pub escape-no_sep : (s : Bytes) → All (λ ch. ch ≢ 61) s → All (λ ch. ch ≢ 61) (escape s)
unfolding escape
escape-no_sep [] h = tt
escape-no_sep (ch ∷ s) h =
    subst (All (λ b. b ≢ 61)) (sym (escape-cons ch s))
      (All-append (escape_byte ch) (escape s) (escape_byte-no_sep ch h.0) (escape-no_sep s h.1))
