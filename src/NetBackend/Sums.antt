-- ===== src/NetBackend/Sums.antt =====
-- What the checksums are good for: the sum over a header, and a sum that is kept up to date.
use tenclaw.Base.{
  ℕ, zero, suc, ◌+◌, ◌-◌, ◌*◌, ◌%◌, ◌^◌, ◌≤◌, ◌<◌, ◌≡◌, refl, sym, ap, subst, ◌∙◌, ◌≢◌, inl, inr,
  true, List, [], ◌∷◌, arith, ◌==◌, Bool-cases, u8, u16, u32, shr, shl,
}
use tenclaw.Memory.{Ram, load_bytes, IsBytes}
use tenclaw.Memory.Bytes.{load_bytes_agree}
use tenclaw.NetBackend.{
  fold_sum, checksum_fold, partial_from, checksum_partial, put_be16, recalc_ip_checksum,
  incremental_cksum_update, complement,
}

-- Folding keeps the sum up to multiples of 65535, and gives 0 for 0 alone.
fold_sum_lem :
    (s : ℕ)
    → s < 2 ^ 32
    → (q : ℕ) × (s ≡ 65535 * q + fold_sum 3 s) × (fold_sum 3 s ≤ 65535) × (0 < s → 0 < fold_sum 3 s)
unfolding fold_sum
fold_sum_lem s h = elim (Bool-cases (shr s 16 == 0)) [
  | inl y ↦ rw y (0, ground arith, ground arith, λ p. p)
  | inr n ↦
      let t = s % 2 ^ 16 + shr s 16 in
      let first : s ≡ 65535 * shr s 16 + t = omega arith in
      let pos : 0 < t = ground arith in
      elim (Bool-cases (shr t 16 == 0)) [
        | inl z ↦ rw (n, z) (shr s 16, first, ground arith, λ p. pos)
        | inr m ↦
            let u = t % 2 ^ 16 + shr t 16 in
            let last : (shr u 16 == 0) ≡ true = ground arith in
            let second : t ≡ 65535 * shr t 16 + u = omega arith in
            rw (n, m, last) (shr s 16 + shr t 16, omega arith, ground arith, λ p. ground arith)
      ]
]

-- The complement of the folded sum
checksum_fold_value : (s : ℕ) → s < 2 ^ 32 → checksum_fold s + fold_sum 3 s ≡ 65535
unfolding checksum_fold
checksum_fold_value s h =
    let (q, eq, most, some_) = fold_sum_lem s h in
    let narrow : u32 s ≡ s = omega arith in rw narrow (omega arith)

pub checksum_fold-zero : (s k : ℕ) → s < 2 ^ 32 → 0 < s → s ≡ 65535 * k → checksum_fold s ≡ 0
unfolding checksum_fold
checksum_fold-zero s k h pos e =
    let (q, eq, most, some_) = fold_sum_lem s h in
    let narrow : u32 s ≡ s = omega arith in
    let full : fold_sum 3 s ≡ 65535 = let p = some_ pos in omega arith in rw (narrow, full) refl

pub zero-checksum_fold : (s : ℕ) → s < 2 ^ 32 → checksum_fold s ≡ 0 → (k : ℕ) × (s ≡ 65535 * k)
unfolding checksum_fold
zero-checksum_fold s h e =
    let (q, eq, most, some_) = fold_sum_lem s h in
    let narrow : u32 s ≡ s = omega arith in
    let full : 2 ^ 16 - 1 - u16 (fold_sum 3 s) ≡ 0 = rw narrow at e in (q + 1, omega arith)

-- The sum of a packet that verifies, of which an address and a port change, verifies with the checksum
-- that is kept up to date, whatever the rest of the packet is, if that is not all zeros and the sums
-- stay below 2 ^ 31.
pub incremental_cksum_update_lem :
    (rest cksum old_ip new_ip old_port new_port : ℕ)
    → 0 < rest
    → rest < 2 ^ 31
    → cksum < 2 ^ 16
    → old_ip < 2 ^ 32
    → new_ip < 2 ^ 32
    → old_port < 2 ^ 16
    → new_port < 2 ^ 16
    → checksum_fold (rest + shr old_ip 16 + u16 old_ip + old_port + cksum) ≡ 0
    → checksum_fold (
        rest
        + shr new_ip 16
        + u16 new_ip
        + new_port
        + incremental_cksum_update cksum old_ip new_ip old_port new_port)
      ≡ 0
unfolding incremental_cksum_update
incremental_cksum_update_lem rest cksum old_ip new_ip old_port new_port pos small hc ho hn hp hq e =
    let s =
      complement cksum
      + complement (shr old_ip 16)
      + shr new_ip 16
      + complement (u16 old_ip)
      + u16 new_ip
      + complement old_port
      + new_port in
    let (k, was) =
      zero-checksum_fold (rest + shr old_ip 16 + u16 old_ip + old_port + cksum) (omega arith) e in
    let (q, eq, most, _) = fold_sum_lem s (omega arith) in
    let c = checksum_fold_value s (omega arith) in
    let new = rest + shr new_ip 16 + u16 new_ip + new_port + checksum_fold s in
    checksum_fold-zero new (k + q - 3) (omega arith) (omega arith) (omega arith)

-- The sum of the 16-bit words of a header, high byte first, without bound
abbrev pub words_sum : List ℕ → ℕ
words_sum [] = 0
words_sum (a ∷ []) = shl a 8
words_sum (a ∷ b ∷ bs) = shl a 8 + b + words_sum bs

partial_from_lem :
    (s : ℕ) (bs : List ℕ) → s + words_sum bs < 2 ^ 32 → partial_from s bs ≡ s + words_sum bs
unfolding partial_from
partial_from_lem s [] h = omega arith
partial_from_lem s (a ∷ []) h = omega arith
partial_from_lem s (a ∷ b ∷ bs) h =
    let e : u32 (s + (shl a 8 + b)) ≡ s + (shl a 8 + b) = omega arith in
    rw e (partial_from_lem (s + (shl a 8 + b)) bs (omega arith) ∙ omega arith)

words_sum-bound :
    (r : Ram) (at n : ℕ) → IsBytes r → words_sum (load_bytes r at (2 * n)) < 2 ^ 16 * n + 1
unfolding load_bytes
words_sum-bound r at zero b = omega arith
words_sum-bound r at (suc n) b =
    let e : 2 * suc n ≡ suc (suc (2 * n)) = omega arith in
    rw e (omega (arith, words_sum-bound r (at + 1 + 1) n b, b at, b (at + 1)))

words_sum-first :
    (r : Ram) (at n v : ℕ)
    → v < 2 ^ 16
    → r at ≡ 0
    → r (at + 1) ≡ 0
    → words_sum (load_bytes (put_be16 r at v) at (suc (suc n)))
      ≡ words_sum (load_bytes r at (suc (suc n))) + v
unfolding load_bytes
words_sum-first r at n v hv a b =
    let later = load_bytes_agree (put_be16 r at v) r (at + 1 + 1) n (λ x lo hi. ground arith) in
    let hi : put_be16 r at v at ≡ shr v 8 = ground arith in
    let lo : put_be16 r at v (at + 1) ≡ u8 v = ground arith in
    let sums : ℕ → ℕ → List ℕ → ℕ = λ x y l. shl x 8 + y + words_sum l in
    ap (λ x. sums x (put_be16 r at v (at + 1)) (load_bytes (put_be16 r at v) (at + 1 + 1) n)) hi
    ∙ ap (λ y. sums (shr v 8) y (load_bytes (put_be16 r at v) (at + 1 + 1) n)) lo
    ∙ ap (sums (shr v 8) (u8 v)) later
    ∙ (let t : shl (shr v 8) 8 + u8 v ≡ v = omega arith in omega (arith, a, b))

-- A word that was 0 adds to the sum.
words_sum-put :
    (r : Ram) (at k n v : ℕ)
    → k < n
    → v < 2 ^ 16
    → r (at + 2 * k) ≡ 0
    → r (at + 2 * k + 1) ≡ 0
    → words_sum (load_bytes (put_be16 r (at + 2 * k) v) at (2 * n))
      ≡ words_sum (load_bytes r at (2 * n)) + v
unfolding load_bytes
words_sum-put r at k zero v lt hv z z' = absurd (omega arith)
words_sum-put r at zero (suc n) v lt hv z z' =
    let e : 2 * suc n ≡ suc (suc (2 * n)) = omega arith in
    let here : at + 2 * 0 ≡ at = omega arith in
    ap (λ x. words_sum (load_bytes (put_be16 r x v) at (2 * suc n))) here
    ∙ ap (λ k. words_sum (load_bytes (put_be16 r at v) at k)) e
    ∙ words_sum-first r at (2 * n) v hv (sym (ap r here) ∙ z) (sym (ap (λ x. r (x + 1)) here) ∙ z')
    ∙ ap (λ k. words_sum (load_bytes r at k) + v) (sym e)
words_sum-put r at (suc k) (suc n) v lt hv z z' =
    let e : 2 * suc n ≡ suc (suc (2 * n)) = omega arith in
    let there : at + 2 * suc k ≡ at + 1 + 1 + 2 * k = omega arith in
    let p = put_be16 r (at + 1 + 1 + 2 * k) v in
    let later =
      words_sum-put r (at + 1 + 1) k n v (omega arith) hv (sym (ap r there) ∙ z)
        (sym (ap (λ x. r (x + 1)) there) ∙ z') in
    let a : p at ≡ r at = ground arith in
    let b : p (at + 1) ≡ r (at + 1) = ground arith in
    let sums : ℕ → ℕ → ℕ → ℕ = λ x y l. shl x 8 + y + l in
    let rest = words_sum (load_bytes r (at + 1 + 1) (2 * n)) in
    ap (λ x. words_sum (load_bytes (put_be16 r x v) at (2 * suc n))) there
    ∙ ap (λ k. words_sum (load_bytes p at k)) e
    ∙ ap (λ x. sums x (p (at + 1)) (words_sum (load_bytes p (at + 1 + 1) (2 * n)))) a
    ∙ ap (λ y. sums (r at) y (words_sum (load_bytes p (at + 1 + 1) (2 * n)))) b
    ∙ ap (sums (r at) (r (at + 1))) later
    ∙ moved (shl (r at) 8 + r (at + 1)) rest v
    ∙ ap (λ k. words_sum (load_bytes r at k) + v) (sym e)
  where
    moved : (x y v : ℕ) → x + (y + v) ≡ x + y + v
    moved x y v = omega arith

-- A header of 20 to 60 bytes verifies once its checksum is recalculated: the sum of its 16-bit words,
-- as numbers, is a positive multiple of 65535, which is all ones in one's complement; and nothing but
-- the checksum has changed. Memory holds bytes.
pub recalc_ip_checksum_lem :
    (ip : ℕ) (r : Ram)
    → IsBytes r
    → 5 ≤ r ip % 16
    → let r' = recalc_ip_checksum ip r in
      ((k : ℕ) × (words_sum (load_bytes r' ip (r ip % 16 * 4)) ≡ 65535 * suc k))
      × ((x : ℕ) → x ≢ ip + 10 → x ≢ ip + 11 → r' x ≡ r x)
unfolding recalc_ip_checksum
recalc_ip_checksum_lem ip r b long =
    let cleared = put_be16 r (ip + 10) 0 in
    let first : cleared ip ≡ r ip = ground arith in
    let n = r ip % 16 * 2 in
    let len : r ip % 16 * 4 ≡ 2 * n = omega arith in
    let s = words_sum (load_bytes cleared ip (2 * n)) in
    let bytes : IsBytes cleared = λ x. let h = b x in ground arith in
    let bound = words_sum-bound cleared ip n bytes in
    let c = checksum_fold s in
    let (q, eq, most, _) = fold_sum_lem s (omega arith) in
    let comp = checksum_fold_value s (omega arith) in
    let put =
      words_sum-put cleared ip 5 n c (omega arith) (omega arith) (ground arith) (ground arith) in
    let sum_now : checksum_partial (load_bytes cleared ip (2 * n)) ≡ s =
      partial_from_lem 0 (load_bytes cleared ip (2 * n)) (omega arith) ∙ omega arith in
    let value : checksum_fold (checksum_partial (load_bytes cleared ip (cleared ip % 16 * 4))) ≡ c =
      ap (λ z. checksum_fold (checksum_partial (load_bytes cleared ip (z % 16 * 4)))) first
      ∙ ap (λ k. checksum_fold (checksum_partial (load_bytes cleared ip k))) len
      ∙ ap checksum_fold sum_now in
    (
      (
        q,
        subst
            (λ v.
              words_sum (load_bytes (put_be16 cleared (ip + 10) v) ip (r ip % 16 * 4))
              ≡ 65535 * suc q)
            (sym value)
            (ap (λ k. words_sum (load_bytes (put_be16 cleared (ip + 10) c) ip k)) len
              ∙ put
              ∙ omega arith),
      ),
      λ x ne ne'. ground arith,
    )
