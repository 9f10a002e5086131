-- ===== src/Qcow2/Image.antt =====
-- The disk that an image stands for, and when an image is sound.
use tenclaw.Base.{
  ℕ, ◌+◌, ◌*◌, ◌/◌, ◌%◌, ◌^◌, ◌≤◌, ◌<◌, ◌≡◌, refl, sym, ap, subst, ◌∙◌, ◌≢◌, inl, inr, false, List,
  arith, ◌==◌, if◌then◌else◌, Bool-cases, get_or,
}
use native.Mathlib.Nat.{pow-le-pow_right, div-lt_iff_lt-mul, mod-lt}
use tenclaw.RawImage.{FileOps}
use tenclaw.Qcow2.{Qcow2, L2CacheEntry, l2_entries, cluster_size, offset_of, is_compressed}
use tenclaw.Qcow2.Laws.{
  GrowLaws, l1_at, IsTable, Apart, table, CacheOk, TablesOk, OffTables, Alike, TablesOk-longer,
}

module _ {F : Type 0} (ops : FileOps F) (l : GrowLaws ops) where
  open l use {content, Sound, content_bytes}

  -- The entry of the `k`-th cluster of the disk, 0 where it has none.
  abbrev pub entry_of : Qcow2 F → F → List L2CacheEntry → ℕ → ℕ
  entry_of q f c k =
      let l1 = l1_at q (k / l2_entries q) in
      if l1 == 0 then 0 else get_or (table ops l q f c (offset_of l1)) (k % l2_entries q) 0

  -- The byte of the disk at `x`.
  abbrev pub disk_byte : Qcow2 F → F → List L2CacheEntry → ℕ → ℕ
  disk_byte q f c x =
      let entry = entry_of q f c (x / cluster_size q) in
      if entry == 0 then 0 else content f (offset_of entry + x % cluster_size q)

  abbrev pub clusters : Qcow2 F → ℕ
  clusters q = q.l1_size * l2_entries q

  -- The cluster `k` has a place of its own in the file, uncompressed.
  pub record DataOk (q : Qcow2 F) (f : F) (entry : ℕ) : Type 0 where
    pub plain : is_compressed entry ≡ false
    pub placed : offset_of entry ≢ 0
    pub inside : offset_of entry + cluster_size q ≤ ops.length_of f
    pub off_tables : (o : ℕ) → IsTable q o → Apart (cluster_size q) (offset_of entry) o

  -- An image without compressed clusters whose tables and clusters lie in the file, apart.
  pub record ImageOk (q : Qcow2 F) (f : F) (c : List L2CacheEntry) : Type 0 where
    pub cache : CacheOk ops l q f c
    pub tabs : TablesOk ops l q f
    pub bits_from : 9 ≤ q.cluster_bits
    pub bits_to : q.cluster_bits ≤ 21
    pub l1_fits : q.l1_size < 2 ^ 32
    pub size_fits : q.virtual_size < 2 ^ 63
    pub covers : q.virtual_size ≤ clusters q * cluster_size q
    pub data_ok : (k : ℕ) → k < clusters q → entry_of q f c k ≢ 0 → DataOk q f (entry_of q f c k)
    pub data_apart :
        (k m : ℕ)
        → k < clusters q
        → m < clusters q
        → k ≢ m
        → entry_of q f c k ≢ 0
        → entry_of q f c m ≢ 0
        → Apart (cluster_size q) (offset_of (entry_of q f c k)) (offset_of (entry_of q f c m))

  -- The size of a cluster: between 512 bytes and 2 MiB, eight bytes an entry.
  pub cluster_bounds :
      (q : Qcow2 F)
      → 9 ≤ q.cluster_bits
      → q.cluster_bits ≤ 21
      → (512 ≤ cluster_size q)
        × (cluster_size q ≤ 2 ^ 21)
        × (64 ≤ l2_entries q)
        × (l2_entries q ≤ 2 ^ 18)
        × (8 * l2_entries q ≤ cluster_size q)
  cluster_bounds q lo hi =
      let a : 2 ^ 9 ≤ cluster_size q = pow-le-pow_right {n = 2} (omega arith) lo in
      let b : cluster_size q ≤ 2 ^ 21 = pow-le-pow_right {n = 2} (omega arith) hi in
      (omega arith, omega arith, omega arith, omega arith, omega arith)

  -- The first level of the tables knows the cluster of every byte of the disk.
  pub cluster_in :
      (q : Qcow2 F) (f : F) (c : List L2CacheEntry) (x : ℕ)
      → ImageOk q f c
      → x < q.virtual_size
      → x / cluster_size q < clusters q
  cluster_in q f c x v h =
      let b = cluster_bounds q v.bits_from v.bits_to in
      (div-lt_iff_lt-mul {x = x} {y = clusters q} (omega arith)).1 (omega (arith, v.covers))

  pub table_index :
      (q : Qcow2 F) (f : F) (c : List L2CacheEntry) (k : ℕ)
      → ImageOk q f c
      → k < clusters q
      → k / l2_entries q < q.l1_size
  table_index q f c k v h =
      let b = cluster_bounds q v.bits_from v.bits_to in
      (div-lt_iff_lt-mul {x = k} {y = q.l1_size} (omega arith)).1 h

  -- The bytes of a cluster are off the tables.
  pub data-OffTables :
      (q : Qcow2 F) (f : F) (entry x : ℕ)
      → 8 * l2_entries q ≤ cluster_size q
      → DataOk q f entry
      → offset_of entry ≤ x
      → x < offset_of entry + cluster_size q
      → OffTables q x
  data-OffTables q f entry x small d lo hi o is =
      let far = d.off_tables o is in
      elim far [ inl a ↦ inl (omega arith) | inr b ↦ inr (omega arith) ]

  pub Alike-entry :
      (q : Qcow2 F) (f f' : F) (c c' : List L2CacheEntry) (k : ℕ)
      → ImageOk q f c
      → Alike ops l q f c f' c'
      → k < clusters q
      → entry_of q f' c' k ≡ entry_of q f c k
  Alike-entry q f f' c c' k v a h =
      let i = k / l2_entries q in
      elim (Bool-cases (l1_at q i == 0)) [
        | inl z ↦ rw z refl
        | inr n ↦ rw n (
            ap (λ t. get_or t (k % l2_entries q) 0)
              (a.tables (offset_of (l1_at q i)) (i, table_index q f c k v h, ground arith, refl)))
      ]

  DataOk-longer :
      (q : Qcow2 F) (f f' : F) (entry : ℕ)
      → ops.length_of f ≤ ops.length_of f'
      → DataOk q f entry
      → DataOk q f' entry
  DataOk-longer q f f' entry h d = record {
    plain = d.plain;
    placed = d.placed;
    inside = omega (arith, d.inside);
    off_tables = d.off_tables;
  }

  -- A longer file with the entries as they were is a sound image too.
  pub same-ImageOk :
      (q : Qcow2 F) (f f' : F) (c c' : List L2CacheEntry)
      → ImageOk q f c
      → CacheOk ops l q f' c'
      → ops.length_of f ≤ ops.length_of f'
      → ((k : ℕ) → k < clusters q → entry_of q f' c' k ≡ entry_of q f c k)
      → ImageOk q f' c'
  same-ImageOk q f f' c c' v ok longer same = record {
    cache = ok;
    tabs = TablesOk-longer ops l q f f' longer v.tabs;
    bits_from = v.bits_from;
    bits_to = v.bits_to;
    l1_fits = v.l1_fits;
    size_fits = v.size_fits;
    covers = v.covers;
    data_ok = λ k h ne.
        let e = same k h in
        subst (DataOk q f') (sym e)
          (DataOk-longer q f f' (entry_of q f c k) longer (v.data_ok k h (λ z. ne (e ∙ z))));
    data_apart = λ k m hk hm ne nk nm.
        let ek = same k hk in
        let em = same m hm in
        subst (λ x. Apart (cluster_size q) (offset_of x) (offset_of (entry_of q f' c' m))) (sym ek)
          (subst (λ x. Apart (cluster_size q) (offset_of (entry_of q f c k)) (offset_of x)) (sym em)
            (v.data_apart k m hk hm ne (λ z. nk (ek ∙ z)) (λ z. nm (em ∙ z))));
  }

  -- So work on the cache alone leaves the image sound and the disk as it was.
  pub Alike-ImageOk :
      (q : Qcow2 F) (f f' : F) (c c' : List L2CacheEntry)
      → ImageOk q f c
      → Alike ops l q f c f' c'
      → ImageOk q f' c'
  Alike-ImageOk q f f' c c' v a =
      same-ImageOk q f f' c c' v a.ok a.longer (λ k h. Alike-entry q f f' c c' k v a h)

  pub Alike-disk_byte :
      (q : Qcow2 F) (f f' : F) (c c' : List L2CacheEntry) (x : ℕ)
      → ImageOk q f c
      → Alike ops l q f c f' c'
      → x < q.virtual_size
      → disk_byte q f' c' x ≡ disk_byte q f c x
  Alike-disk_byte q f f' c c' x v a h =
      let k = x / cluster_size q in
      let in_map = cluster_in q f c x v h in
      let e = Alike-entry q f f' c c' k v a in_map in
      let b = cluster_bounds q v.bits_from v.bits_to in
      elim (Bool-cases (entry_of q f c k == 0)) [
        | inl z ↦ rw (e, z) refl
        | inr n ↦
            let d = v.data_ok k in_map (ground arith) in
            let below = mod-lt x {m = cluster_size q} (omega arith) in
            rw (e, n)
              (a.outside (offset_of (entry_of q f c k) + x % cluster_size q) (
                data-OffTables q f (entry_of q f c k)
                  (offset_of (entry_of q f c k) + x % cluster_size q) b.4 d (omega arith)
                  (omega arith)))
      ]

  -- An open image that is sound as it is, and its disk.
  abbrev pub Valid : Qcow2 F → Type 0
  Valid q = ImageOk q q.file q.l2_lru

  abbrev pub disk : Qcow2 F → ℕ → ℕ
  disk q = disk_byte q q.file q.l2_lru
