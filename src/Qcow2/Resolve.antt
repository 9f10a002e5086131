-- ===== src/Qcow2/Resolve.antt =====
-- `ResolveOffset` finds the cluster of a byte of the disk.
use tenclaw.Base.{
  ℕ, ◌*◌, ◌/◌, ◌%◌, ◌<◌, ◌≡◌, refl, sym, ap, ap₂, subst, ◌∙◌, ◌≢◌, inl, inr, false, Option, none,
  some, List, arith, leb, ◌==◌, if◌then◌else◌, Bool-cases, get_or, u32,
}
use native.Mathlib.Nat.{div-div-eq-div-mul, mod-lt, mod-eq_of_lt, mul_comm}
use tenclaw.RawImage.{FileOps}
use tenclaw.Qcow2.{
  Qcow2, L2CacheEntry, Place, nowhere, at, cluster_size, l2_entries, offset_of, is_compressed,
  place_of, look_up, resolve_offset,
}
use tenclaw.Qcow2.Laws.{GrowLaws, with_cache, l1_at, table, Alike, Alike-refl}
use tenclaw.Qcow2.Lookup.{get_l2_table_lem}
use tenclaw.Qcow2.Image.{ImageOk, entry_of, clusters, cluster_bounds, cluster_in, table_index}

-- The place that an entry says, when it is not compressed.
abbrev pub plain_place : ℕ → Place
plain_place entry = if entry == 0 then nowhere else at (offset_of entry)

module _ {F : Type 0} (ops : FileOps F) (l : GrowLaws ops) where
  place_of-plain :
      (bits entry : ℕ)
      → (entry ≢ 0 → is_compressed entry ≡ false)
      → place_of ops bits entry ≡ plain_place entry
  unfolding place_of
  place_of-plain bits entry h = elim (Bool-cases (entry == 0)) [
    | inl z ↦ rw z refl
    | inr n ↦ let p = h (ground arith) in rw (n, p) refl
  ]

  -- The two indices that `ResolveOffset` takes apart from an offset, before they are cut to 32 bits.
  pub first_index :
      (q : Qcow2 F) (f : F) (c : List L2CacheEntry) (x : ℕ)
      → ImageOk ops l q f c
      → x < q.virtual_size
      → u32 (x / (l2_entries q * cluster_size q)) ≡ x / cluster_size q / l2_entries q
  first_index q f c x v h =
      let low = table_index ops l q f c (x / cluster_size q) v (cluster_in ops l q f c x v h) in
      let e : x / (l2_entries q * cluster_size q) ≡ x / cluster_size q / l2_entries q =
        ap (λ m. x / m) (mul_comm (l2_entries q) (cluster_size q))
        ∙ sym (div-div-eq-div-mul x (cluster_size q) (l2_entries q)) in
      let fits = v.l1_fits in rw e (mod-eq_of_lt (omega arith))

  pub second_index :
      (q : Qcow2 F) (f : F) (c : List L2CacheEntry) (x : ℕ)
      → ImageOk ops l q f c
      → u32 (x / cluster_size q % l2_entries q) ≡ x / cluster_size q % l2_entries q
  second_index q f c x v =
      let b = cluster_bounds ops l q v.bits_from v.bits_to in
      let low = mod-lt (x / cluster_size q) {m = l2_entries q} (omega arith) in
      mod-eq_of_lt (omega arith)

  -- Two indices that the tables have lead to the place that the entry says.
  look_up_lem :
      (q : Qcow2 F) (k : ℕ)
      → ImageOk ops l q q.file q.l2_lru
      → k < clusters ops l q
      → (f : F) × (c : List L2CacheEntry) × (look_up ops q (k / l2_entries q) (k % l2_entries q)
          ≡ (with_cache q f c, plain_place (entry_of ops l q q.file q.l2_lru k)))
        × Alike ops l q q.file q.l2_lru f c
  unfolding look_up
  look_up_lem q k v in_map =
      let i = k / l2_entries q in
      let inside = table_index ops l q q.file q.l2_lru k v in_map in
      let low : leb q.l1_size i ≡ false = ground arith in
      elim (Bool-cases (l1_at q i == 0)) [
        | inl z ↦ (q.file, q.l2_lru, rw (low, z) refl, Alike-refl ops l q q.file q.l2_lru v.cache)
        | inr n ↦
            let (f, c, eq, alike) =
              get_l2_table_lem ops l q (offset_of (l1_at q i)) v.tabs v.cache
                (i, inside, ground arith, refl) in
            let entry =
              get_or (table ops l q q.file q.l2_lru (offset_of (l1_at q i))) (k % l2_entries q) 0 in
            let plain : entry ≢ 0 → is_compressed entry ≡ false = λ ne.
              let same : entry_of ops l q q.file q.l2_lru k ≡ entry = rw n refl in
              let d = v.data_ok k in_map (λ z. ne (sym same ∙ z)) in
              subst (λ t. is_compressed t ≡ false) same d.plain in
            let done : Qcow2 F × Option (List ℕ) → Qcow2 F × Place = λ got. elim got.1 [
              | none ↦ (got.0, nowhere)
              | some l2 ↦ (got.0, place_of ops q.cluster_bits (get_or l2 (k % l2_entries q) 0))
            ] in
            (
              f,
              c,
              rw (low, n)
                  (ap done eq
                    ∙ ap (λ t. (with_cache q f c, t)) (place_of-plain q.cluster_bits entry plain)),
              alike,
            )
      ]

  -- The place of a byte of the disk, found without a change of the disk.
  pub resolve_offset_lem :
      (q : Qcow2 F) (x : ℕ)
      → ImageOk ops l q q.file q.l2_lru
      → x < q.virtual_size
      → (f : F) × (c : List L2CacheEntry) × (resolve_offset ops q x
          ≡ (with_cache q f c, plain_place (entry_of ops l q q.file q.l2_lru (x / cluster_size q))))
        × Alike ops l q q.file q.l2_lru f c
  unfolding resolve_offset
  resolve_offset_lem q x v h =
      let (f, c, eq, alike) =
        look_up_lem q (x / cluster_size q) v (cluster_in ops l q q.file q.l2_lru x v h) in
      (
        f,
        c,
        ap₂ (look_up ops q) (first_index q q.file q.l2_lru x v h)
              (second_index q q.file q.l2_lru x v)
            ∙ eq,
        alike,
      )
