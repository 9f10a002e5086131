-- ===== src/Qcow2/Extend.antt =====
-- The file after a cluster of zeros went to its end: the tables and clusters are as they were.
use tenclaw.Base.{
  ℕ, zero, suc, ◌+◌, ◌-◌, ◌*◌, ◌%◌, ◌^◌, ◌≤◌, ◌<◌, ◌≡◌, refl, ap, subst, ◌∙◌, ◌≢◌, ◌⊎◌, inl, inr,
  List, ◌∷◌, arith, ◌==◌, Bool-cases, length, replicate, length-replicate,
}
use native.Mathlib.Nat.{pow-suc}
use tenclaw.Memory.{Ram, store_bytes, store8}
use tenclaw.Memory.Words.{store_bytes_frame}
use tenclaw.Memory.Bytes.{load_bytes-zero}
use tenclaw.RawImage.{FileOps}
use tenclaw.Qcow2.{Qcow2, cluster_size, l2_entries, offset_of, decode_table, be64_bytes}
use tenclaw.Qcow2.Laws.{GrowLaws, l1_at, IsTable, disk_table}
use tenclaw.Qcow2.Evict.{disk_table_agree}
use tenclaw.Qcow2.Codec.{length-be64_bytes}
use tenclaw.Qcow2.Image.{Valid, entry_of, clusters, cluster_bounds}
use tenclaw.Qcow2.Room.{RoomOk, zeros, spend}

stored_zero : (r : Ram) (a n x : ℕ) → a ≤ x → x < a + n → store_bytes r a (replicate n 0) x ≡ 0
unfolding store_bytes
stored_zero r a zero x lo hi = absurd (omega arith)
stored_zero r a (suc n) x lo hi = elim (Bool-cases (x == a)) [
  | inl here ↦
      store_bytes_frame (store8 r a 0) (a + 1) (replicate n 0) x (inl (ground arith)) ∙ ground arith
  | inr later ↦ stored_zero (store8 r a 0) (a + 1) n x (ground arith) (omega arith)
]

pub decode_table-zeros : (n : ℕ) → decode_table n (replicate (8 * n) 0) ≡ replicate n 0
unfolding decode_table
decode_table-zeros zero = refl
decode_table-zeros (suc n) =
    let e : 8 * suc n ≡ suc (suc (suc (suc (suc (suc (suc (suc (8 * n)))))))) = omega arith in
    rw e (ap (λ t. 0 ∷ t) (decode_table-zeros n))

module _ {F : Type 0} (ops : FileOps F) (l : GrowLaws ops) where
  open l use {content, Sound, fwrite_lem}

  -- A file with a cluster of zeros at the end that the image keeps, and all else below that end as it
  -- was but the first-level table.
  pub record Extended (q : Qcow2 F) (g : F) : Type 0 where
    pub sound : Sound g
    pub longer : ops.length_of q.file ≤ ops.length_of g
    pub reach : q.file_end + cluster_size q ≤ ops.length_of g
    pub blank : (x : ℕ) → q.file_end ≤ x → x < q.file_end + cluster_size q → content g x ≡ 0
    pub kept :
        (x : ℕ)
        → x < q.file_end
        → (x < q.l1_table_offset) ⊎ (q.l1_table_offset + 8 * q.l1_size ≤ x)
        → content g x ≡ content q.file x

  module _ (q : Qcow2 F) (v : Valid ops l q) (r : RoomOk q (entry_of ops l q q.file q.l2_lru)) where
    -- A new cluster ends below 2 ^ 56 while something is missing.
    pub end_fits :
        0
          < zeros (entry_of ops l q q.file q.l2_lru) (q.l1_size * l2_entries q)
            + zeros (l1_at q) q.l1_size
        → q.file_end + cluster_size q ≤ 2 ^ 56
    end_fits some_ =
        let z =
          zeros (entry_of ops l q q.file q.l2_lru) (q.l1_size * l2_entries q)
          + zeros (l1_at q) q.l1_size in
        let after = spend q.file_end (cluster_size q) z (z - 1) (2 ^ 56) (omega arith) r.budget in
        let no_less : q.file_end + cluster_size q
            ≤ q.file_end + cluster_size q + (z - 1) * cluster_size q =
          omega arith in
        omega arith

    abbrev pub new_file : F
    new_file = (ops.fwrite q.file q.file_end (replicate (cluster_size q) 0)).0

    pub new_file-Extended : q.file_end + cluster_size q ≤ 2 ^ 56 → Extended q new_file
    new_file-Extended fits =
        let b = cluster_bounds ops l q v.bits_from v.bits_to in
        let zs : List ℕ = replicate (cluster_size q) 0 in
        let size : length zs ≡ cluster_size q = length-replicate {A = ℕ} (cluster_size q) 0 in
        let (s, _, longer, reach, put) =
          fwrite_lem q.file q.file_end zs v.cache.sound (omega arith) in
        record {
          sound = s;
          longer = longer;
          reach = let some_ : 0 < length zs = omega arith in let e = reach some_ in omega arith;
          blank =
              λ x lo hi. put x ∙ stored_zero (content q.file) q.file_end (cluster_size q) x lo hi;
          kept = λ x lo off. put x ∙ store_bytes_frame (content q.file) q.file_end zs x (inl lo);
        }

    abbrev pub with_first : F → ℕ → ℕ → F
    with_first g i value = (ops.fwrite g (q.l1_table_offset + i * 8) (be64_bytes value)).0

    -- An entry of the first-level table that is written afterwards.
    pub with_first-Extended :
        (g : F) (i value : ℕ)
        → i < q.l1_size
        → q.file_end + cluster_size q ≤ 2 ^ 56
        → Extended q g
        → Extended q (with_first g i value)
    with_first-Extended g i value h fits x =
        let size = length-be64_bytes value in
        let (s, _, longer, _, put) =
          fwrite_lem g (q.l1_table_offset + i * 8) (be64_bytes value) x.sound
            (omega (arith, r.l1_below)) in
        let frame = λ (y : ℕ).
          store_bytes_frame (content g) (q.l1_table_offset + i * 8) (be64_bytes value) y in
        record {
          sound = s;
          longer = omega (arith, x.longer);
          reach = omega (arith, x.reach);
          blank = λ y lo hi. put y ∙ frame y (omega (arith, r.l1_below)) ∙ x.blank y lo hi;
          kept = λ y lo off. put y ∙ frame y (omega arith) ∙ x.kept y lo off;
        }

    pub same_table :
        (g : F)
        → Extended q g
        → (o : ℕ) → IsTable q o
        → disk_table ops l q g o ≡ disk_table ops l q q.file o
    same_table g x o is =
        let b = cluster_bounds ops l q v.bits_from v.bits_to in
        let below = r.tables_below o is in
        let off = r.tables_off o is in
        disk_table_agree ops l q g q.file o (λ y lo hi. x.kept y (omega arith) (omega arith))

    pub blank_table :
        (g : F) → Extended q g → disk_table ops l q g q.file_end ≡ replicate (l2_entries q) 0
    blank_table g x =
        let b = cluster_bounds ops l q v.bits_from v.bits_to in
        ap (decode_table (l2_entries q)) (
          load_bytes-zero (content g) q.file_end (8 * l2_entries q)
            (λ i lt. x.blank (q.file_end + i) (omega arith) (omega arith)))
        ∙ decode_table-zeros (l2_entries q)

    pub same_data :
        (g : F)
        → Extended q g
        → (k : ℕ) → k < clusters ops l q
        → entry_of ops l q q.file q.l2_lru k ≢ 0
        → (y : ℕ) → y < cluster_size q
        → content g (offset_of (entry_of ops l q q.file q.l2_lru k) + y)
          ≡ content q.file (offset_of (entry_of ops l q q.file q.l2_lru k) + y)
    same_data g x k h n y lt =
        let below = r.data_below k h n in
        let off = r.data_off k h n in
        x.kept (offset_of (entry_of ops l q q.file q.l2_lru k) + y) (omega arith) (omega arith)

pow_aligned : (n : ℕ) → 2 ^ (n + 9) % 512 ≡ 0
pow_aligned zero = refl
pow_aligned (suc n) =
    let e : suc n + 9 ≡ suc (n + 9) = omega arith in
    let double : 2 ^ (suc n + 9) ≡ 2 ^ (n + 9) * 2 = ap (λ k. 2 ^ k) e ∙ pow-suc 2 (n + 9) in
    omega (arith, pow_aligned n)

pub cluster_size-aligned :
    {F : Type 0} → (q : Qcow2 F) → 9 ≤ q.cluster_bits → cluster_size q % 512 ≡ 0
cluster_size-aligned q h =
    let e : q.cluster_bits - 9 + 9 ≡ q.cluster_bits = omega arith in
    subst (λ n. 2 ^ n % 512 ≡ 0) e (pow_aligned (q.cluster_bits - 9))
