-- ===== src/Qcow2/Codec.antt =====
-- Tables in the file's byte order.
use tenclaw.Base.{
  ℕ, zero, suc, ◌*◌, ◌^◌, ◌<◌, ◌≡◌, refl, ap, ap₂, List, [], ◌∷◌, arith, length, take, drop, All,
}
use tenclaw.Qcow2.{be_value, be64_bytes, decode_table, encode_table}

be_value-be64_bytes : (v : ℕ) → v < 2 ^ 64 → be_value (be64_bytes v) ≡ v
be_value-be64_bytes v h = omega arith

pub length-be64_bytes : (v : ℕ) → length (be64_bytes v) ≡ 8
length-be64_bytes v = refl

pub length-encode_table : (t : List ℕ) → length (encode_table t) ≡ 8 * length t
unfolding encode_table
length-encode_table [] = refl
length-encode_table (v ∷ t) = omega (arith, length-encode_table t)

pub All-encode_table : (t : List ℕ) → All (λ b. b < 2 ^ 8) (encode_table t)
unfolding encode_table
All-encode_table [] = tt
All-encode_table (v ∷ t) = let ih = All-encode_table t in ground (arith, ih)

-- A table that is written to the file is read back, if its entries fit.
pub decode_table-encode_table :
    (t : List ℕ) → All (λ v. v < 2 ^ 64) t → decode_table (length t) (encode_table t) ≡ t
unfolding decode_table encode_table
decode_table-encode_table [] h = refl
decode_table-encode_table (v ∷ t) h =
    ap₂ ◌∷◌ (be_value-be64_bytes v h.0) (decode_table-encode_table t h.1)

pub length-decode_table : (n : ℕ) (bytes : List ℕ) → length (decode_table n bytes) ≡ n
unfolding decode_table
length-decode_table zero bytes = refl
length-decode_table (suc n) bytes = ap suc (length-decode_table n (drop 8 bytes))

be_value-lt : (bs : List ℕ) → All (λ b. b < 2 ^ 8) bs → be_value (take 8 bs) < 2 ^ 64
be_value-lt [] h = omega arith
be_value-lt (b0 ∷ []) h = ground arith
be_value-lt (b0 ∷ b1 ∷ []) h = ground arith
be_value-lt (b0 ∷ b1 ∷ b2 ∷ []) h = ground arith
be_value-lt (b0 ∷ b1 ∷ b2 ∷ b3 ∷ []) h = ground arith
be_value-lt (b0 ∷ b1 ∷ b2 ∷ b3 ∷ b4 ∷ []) h = ground arith
be_value-lt (b0 ∷ b1 ∷ b2 ∷ b3 ∷ b4 ∷ b5 ∷ []) h = ground arith
be_value-lt (b0 ∷ b1 ∷ b2 ∷ b3 ∷ b4 ∷ b5 ∷ b6 ∷ []) h = ground arith
be_value-lt (b0 ∷ b1 ∷ b2 ∷ b3 ∷ b4 ∷ b5 ∷ b6 ∷ b7 ∷ bs) h = ground arith

drop-bytes : (k : ℕ) (bs : List ℕ) → All (λ b. b < 2 ^ 8) bs → All (λ b. b < 2 ^ 8) (drop k bs)
drop-bytes zero bs h = h
drop-bytes (suc k) [] h = tt
drop-bytes (suc k) (b ∷ bs) h = drop-bytes k bs h.1

pub All-decode_table :
    (n : ℕ) (bs : List ℕ) → All (λ b. b < 2 ^ 8) bs → All (λ v. v < 2 ^ 64) (decode_table n bs)
unfolding decode_table
All-decode_table zero bs h = tt
All-decode_table (suc n) bs h =
    (be_value-lt bs h, All-decode_table n (drop 8 bs) (drop-bytes 8 bs h))
