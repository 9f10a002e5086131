-- ===== src/Qcow2/Opening.antt =====
-- What opening an image checks.
use tenclaw.Base.{
  ℕ, ◌+◌, ◌-◌, ◌*◌, ◌/◌, ◌%◌, ◌^◌, ◌≤◌, ◌<◌, ◌≡◌, refl, sym, ap, subst, ◌∙◌, ◌≢◌, ◌⊎◌, inl, inr,
  Bool, true, false, not, ◌&&◌, ◌||◌, Option, none, some, List, [], ◌∷◌, arith, ltb, leb, ◌==◌,
  if◌then◌else◌, Bool-cases, Option-cases, length, u64, some_inj,
}
use native.Mathlib.Nat.{
  mod-lt, mod-eq_of_lt, div-add-mod', add-mul-mod_self_right, pow-le-pow_right,
}
use tenclaw.RawImage.{FileOps}
use tenclaw.Qcow2.{Qcow2, cluster_size, decode_table}
use tenclaw.Qcow2.Codec.{length-decode_table}
use tenclaw.Qcow2.Header.{
  Header, field, qcow2_magic, read_compression_type, read_header, read_l1_table, open_qcow2,
}

pub no_answer {ℓ} : {A : Type ℓ} → (x : A) → none ≢ some x
no_answer x e = ground arith

-- A guard that did not stop the work.
passed {ℓ} :
    {A : Type ℓ}
    → (b : Bool) (x : Option A) (y : A) → (if b then none else x) ≡ some y
    → (b ≡ false) × (x ≡ some y)
passed true x y e = absurd (ground arith)
passed false x y e = (refl, e)

-- Six guards in a row.
guards {ℓ} :
    {A : Type ℓ}
    → (b1 b2 b3 b4 b5 b6 : Bool) (x : Option A) (y : A)
    → (if b1
        then none
        else if b2
        then none
        else if b3
        then none
        else if b4
        then none
        else if b5
        then none
        else if b6
        then none
        else x)
      ≡ some y
    → (b1 ≡ false)
      × (b2 ≡ false)
      × (b3 ≡ false)
      × (b4 ≡ false)
      × (b5 ≡ false)
      × (b6 ≡ false)
      × (x ≡ some y)
guards {A = A} b1 b2 b3 b4 b5 b6 x y e =
    let r6 : Option A = if b6 then none else x in
    let r5 : Option A = if b5 then none else r6 in
    let r4 : Option A = if b4 then none else r5 in
    let r3 : Option A = if b3 then none else r4 in
    let r2 : Option A = if b2 then none else r3 in
    let (c1, e1) = passed b1 r2 y e in
    let (c2, e2) = passed b2 r3 y e1 in
    let (c3, e3) = passed b3 r4 y e2 in
    let (c4, e4) = passed b4 r5 y e3 in
    let (c5, e5) = passed b5 r6 y e4 in
    let (c6, e6) = passed b6 x y e5 in (c1, c2, c3, c4, c5, c6, e6)

abbrev comp_of : List ℕ → Option ℕ
comp_of [] = some 0
comp_of (t ∷ rest) = if ltb 1 t then none else some t

comp_byte : (bytes : List ℕ) (t : ℕ) → comp_of bytes ≡ some t → t ≤ 1
comp_byte [] t e = let z = some_inj e in omega arith
comp_byte (b ∷ rest) t e =
    let (low, same) = passed (ltb 1 b) (some b) t e in let z : b ≡ t = some_inj same in ground arith

pow-pos : (n : ℕ) → 0 < 2 ^ n
pow-pos n =
    let z : 0 ≤ n = omega arith in
    let h : 2 ^ 0 ≤ 2 ^ n = pow-le-pow_right {n = 2} (omega arith) z in omega arith

-- Rounding up to a multiple of the cluster size.
round_up :
    (len cs : ℕ)
    → 0 < cs
    → len + cs < 2 ^ 64
    → (len ≤ u64 (len + cs - 1) / cs * cs) × (u64 (len + cs - 1) / cs * cs % cs ≡ 0)
round_up len cs pos fits =
    let m = len + cs - 1 in
    let e : u64 m ≡ m = omega arith in
    let d = div-add-mod' m cs in
    let low = mod-lt m {m = cs} pos in
    let zero_plus : m / cs * cs ≡ 0 + m / cs * cs = omega arith in
    rw e (
      omega arith,
      ap (λ z. z % cs) zero_plus ∙ add-mul-mod_self_right 0 (m / cs) cs ∙ mod-eq_of_lt pos,
    )

module _ {F : Type 0} (ops : FileOps F) where
  compression_checked :
      (file : F) (version : ℕ) (bytes : List ℕ) (t : ℕ)
      → read_compression_type ops file version bytes ≡ some t
      → t ≤ 1
  unfolding read_compression_type
  compression_checked file version bytes t e =
      elim (Bool-cases ((version == 3) && leb 108 (field bytes 100 4))) [
        | inl on ↦
            comp_byte (ops.fread file 104 1) t
              (sym (ap (λ b. if b then comp_of (ops.fread file 104 1) else some 0) on) ∙ e)
        | inr off ↦
            let z : 0 ≡ t =
              some_inj
                (sym (ap (λ b. if b then comp_of (ops.fread file 104 1) else some 0) off) ∙ e) in
            omega arith
      ]

  header_checked :
      (file : F) (h : Header)
      → read_header ops file ≡ some h
      → (72 ≤ length (ops.fread file 0 104))
        × (field (ops.fread file 0 104) 0 4 ≡ qcow2_magic)
        × ((h.version ≡ 2) ⊎ (h.version ≡ 3))
        × (9 ≤ h.cluster_bits)
        × (h.cluster_bits ≤ 21)
        × (h.compression_type ≤ 1)
  unfolding read_header
  header_checked file h e =
      let bytes = ops.fread file 0 104 in
      let version = field bytes 4 4 in
      let cluster_bits = field bytes 20 4 in
      let done : ℕ → Option Header = λ t. some (record {
        version = version;
        cluster_bits = cluster_bits;
        size = field bytes 24 8;
        l1_size = field bytes 36 4;
        l1_table_offset = field bytes 40 8;
        compression_type = t;
      }) in
      let run : Option ℕ → Option Header = λ o. elim o [ none ↦ none | some t ↦ done t ] in
      let (long, magic, ver, backing, crypt, bits, last) =
        guards (ltb (length bytes) 72) (not (field bytes 0 4 == qcow2_magic))
          (not (version == 2) && not (version == 3)) (not (field bytes 8 8 == 0))
          (not (field bytes 32 4 == 0)) (ltb cluster_bits 9 || ltb 21 cluster_bits)
          (run (read_compression_type ops file version bytes)) h e in
      elim (Option-cases (read_compression_type ops file version bytes)) [
        | inl z ↦ absurd (no_answer h (sym (ap run z) ∙ last))
        | inr (t, z) ↦
            let same = some_inj (sym (ap run z) ∙ last) in
            let low = compression_checked file version bytes t z in
            let v_same : version ≡ h.version = ap (λ k. k.version) same in
            let b_same : cluster_bits ≡ h.cluster_bits = ap (λ k. k.cluster_bits) same in
            let t_same : t ≡ h.compression_type = ap (λ k. k.compression_type) same in
            (ground arith, ground arith, ground arith, ground arith, ground arith, omega arith)
      ]

  l1_checked :
      (file : F) (h : Header) (l1 : List ℕ)
      → read_l1_table ops file h ≡ some l1
      → length l1 ≡ h.l1_size
  unfolding read_l1_table
  l1_checked file h l1 e =
      let bytes = ops.fread file h.l1_table_offset (h.l1_size * 8) in
      elim (Bool-cases (length bytes == h.l1_size * 8)) [
        | inl y ↦
            let same : some (decode_table h.l1_size bytes) ≡ some l1 =
              sym (ap (λ b. if b then some (decode_table h.l1_size bytes) else none) y) ∙ e in
            ap length (sym (some_inj same)) ∙ length-decode_table h.l1_size bytes
        | inr n ↦ absurd (
            no_answer l1
              (sym (ap (λ b. if b then some (decode_table h.l1_size bytes) else none) n) ∙ e))
      ]

  abbrev opened : F → Header → List ℕ → Qcow2 F
  opened file h l1 = record {
    file = file;
    virtual_size = h.size;
    cluster_bits = h.cluster_bits;
    l1_size = h.l1_size;
    l1_table_offset = h.l1_table_offset;
    version = h.version;
    l1_table = l1;
    file_end =
        u64 (ops.length_of file + 2 ^ h.cluster_bits - 1) / 2 ^ h.cluster_bits * 2 ^ h.cluster_bits;
    compression_type = h.compression_type;
    l2_lru = [];
  }

  -- An image that opens is of version 2 or 3, has clusters of 512 bytes to 2 MiB, a known way of
  -- compression, and the whole first-level table; it starts with an empty cache, and new clusters go
  -- past the end of the file, at a multiple of the cluster size.
  pub open_qcow2_lem :
      (file : F) (q : Qcow2 F)
      → open_qcow2 ops file ≡ some q
      → ops.length_of file + cluster_size q < 2 ^ 64
      → ((q.version ≡ 2) ⊎ (q.version ≡ 3))
        × (9 ≤ q.cluster_bits)
        × (q.cluster_bits ≤ 21)
        × (q.compression_type ≤ 1)
        × (length q.l1_table ≡ q.l1_size)
        × (q.l2_lru ≡ [])
        × (ops.length_of file ≤ q.file_end)
        × (q.file_end % cluster_size q ≡ 0)
  unfolding open_qcow2
  open_qcow2_lem file q e small =
      let with_l1 : Header → Option (List ℕ) → Option (Qcow2 F) =
        λ h o. elim o [ none ↦ none | some l1 ↦ some (opened file h l1) ] in
      let with_header : Option Header → Option (Qcow2 F) =
        λ o. elim o [ none ↦ none | some h ↦ with_l1 h (read_l1_table ops file h) ] in
      elim (Option-cases (read_header ops file)) [
        | inl z ↦ absurd (no_answer q (sym (ap with_header z) ∙ e))
        | inr (h, hz) ↦
            let (_, _, version, lo, hi, comp) = header_checked file h hz in
            let e1 : with_l1 h (read_l1_table ops file h) ≡ some q = sym (ap with_header hz) ∙ e in
            elim (Option-cases (read_l1_table ops file h)) [
              | inl z ↦ absurd (no_answer q (sym (ap (with_l1 h) z) ∙ e1))
              | inr (l1, lz) ↦
                  let same : opened file h l1 ≡ q = some_inj (sym (ap (with_l1 h) lz) ∙ e1) in
                  let fits =
                    subst (λ r. ops.length_of file + cluster_size r < 2 ^ 64) (sym same) small in
                  let (past, aligned) =
                    round_up (ops.length_of file) (2 ^ h.cluster_bits) (pow-pos h.cluster_bits)
                      fits in
                  subst
                    (λ r.
                      ((r.version ≡ 2) ⊎ (r.version ≡ 3))
                      × (9 ≤ r.cluster_bits)
                      × (r.cluster_bits ≤ 21)
                      × (r.compression_type ≤ 1)
                      × (length r.l1_table ≡ r.l1_size)
                      × (r.l2_lru ≡ [])
                      × (ops.length_of file ≤ r.file_end)
                      × (r.file_end % cluster_size r ≡ 0))
                    same (version, lo, hi, comp, l1_checked file h l1 lz, refl, past, aligned)
            ]
      ]
