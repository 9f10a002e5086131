-- ===== src/Qcow2/NewTable.antt =====
-- A new table of the second level, full of zeros: the image is sound, and the disk is as it was.
use tenclaw.Base.{
  get_or-replicate, ℕ, ◌+◌, ◌*◌, ◌/◌, ◌%◌, ◌^◌, ◌≤◌, ◌<◌, ◌≡◌, refl, sym, ap, subst, ◌∙◌, ◌≢◌, ◌⊎◌,
  inl, inr, false, List, [], ◌∷◌, arith, ◌==◌, Bool-cases, get_or, set, replicate, set_bit,
  length-set, get_or-set_self, get_or-set_ne, All,
}
use native.Mathlib.Decide.{ℕ_discrete}
use tenclaw.RawImage.{FileOps}
use tenclaw.Qcow2.{Qcow2, L2CacheEntry, cluster_size, l2_entries, offset_of, is_compressed}
use tenclaw.Qcow2.Cache.{cached}
use tenclaw.Qcow2.Laws.{
  GrowLaws, l1_at, IsTable, Apart, EntryOk, TablesOk, table, disk_table, either,
}
use tenclaw.Qcow2.Image.{
  DataOk, Valid, disk, entry_of, clusters, cluster_bounds, cluster_in, table_index,
}
use tenclaw.Qcow2.Flushing.{uncached}
use tenclaw.Qcow2.Room.{RoomOk, OffFirst, zeros, zeros_agree, zeros_fewer, zeros_some, spend}
use native.Mathlib.Nat.{mod-lt}
use tenclaw.Qcow2.Extend.{
  cluster_size-aligned, Extended, end_fits, same_table, same_data, blank_table,
}

-- The entry that names a new cluster.
abbrev pub new_entry : ℕ → ℕ
new_entry offset = set_bit offset 63

pub new_entry_lem :
    (offset : ℕ)
    → offset % 512 ≡ 0
    → offset < 2 ^ 56
    → (offset_of (new_entry offset) ≡ offset)
      × (new_entry offset ≢ 0)
      × (is_compressed (new_entry offset) ≡ false)
      × (new_entry offset < 2 ^ 64)
new_entry_lem offset a h =
    let e : new_entry offset ≡ offset + 2 ^ 63 = ground arith in
    (rw e (omega arith), omega (arith, e), rw e (ground arith), omega (arith, e))

module _ {F : Type 0} (ops : FileOps F) (l : GrowLaws ops) (q : Qcow2 F) (v : Valid ops l q)
    (r : RoomOk q (entry_of ops l q q.file q.l2_lru)) (i : ℕ) (low : i < q.l1_size)
    (empty : l1_at q i ≡ 0) (g : F) (x : Extended ops l q g) where
  open l use {content, Sound}

  abbrev pub with_table : Qcow2 F
  with_table = record q {
    file_end = q.file_end + cluster_size q;
    l1_table = set q.l1_table i (new_entry q.file_end);
    file = g;
  }

  abbrev entry : ℕ → ℕ
  entry k = entry_of ops l q q.file q.l2_lru k

  pub some_missing : 0 < zeros entry (q.l1_size * l2_entries q) + zeros (l1_at q) q.l1_size
  some_missing = let some_ = zeros_some (l1_at q) i q.l1_size low empty in omega arith

  pub fits : q.file_end + cluster_size q ≤ 2 ^ 56
  fits = end_fits ops l q v r some_missing

  pub here : l1_at with_table i ≡ new_entry q.file_end
  here = get_or-set_self q.l1_table i (new_entry q.file_end) 0 (let e = r.l1_full in omega arith)

  elsewhere : (j : ℕ) → j ≢ i → l1_at with_table j ≡ l1_at q j
  elsewhere j ne = get_or-set_ne q.l1_table i j (new_entry q.file_end) 0 (λ z. ne (sym z))

  pub new_offset : offset_of (new_entry q.file_end) ≡ q.file_end
  new_offset =
      (new_entry_lem q.file_end r.aligned
        (let f = fits in let b = cluster_bounds ops l q v.bits_from v.bits_to in omega arith)).0

  pub old-IsTable : (o : ℕ) → IsTable q o → IsTable with_table o
  old-IsTable o (j, h, ne, e) =
      let other : j ≢ i = λ z. ne (ap (l1_at q) z ∙ empty) in
      (j, h, (λ z. ne (sym (elsewhere j other) ∙ z)), e ∙ ap offset_of (sym (elsewhere j other)))

  tables_now : (o : ℕ) → IsTable with_table o → (o ≡ q.file_end) ⊎ IsTable q o
  tables_now o (j, h, ne, e) = elim (ℕ_discrete j i) [
    | yes same ↦
        inl (e ∙ ap (λ k. offset_of (l1_at with_table k)) same ∙ ap offset_of here ∙ new_offset)
    | no other ↦ inr (j, h, (λ z. ne (elsewhere j other ∙ z)), e ∙ ap offset_of (elsewhere j other))
  ]

  not_cached :
      (c : List L2CacheEntry)
      → All (EntryOk ops l q q.file) c
      → All (λ d. d.l2_offset ≢ q.file_end) c
  not_cached [] a = tt
  not_cached (e ∷ c) a = (
    (λ z.
        let b = cluster_bounds ops l q v.bits_from v.bits_to in
        let t = r.tables_below e.l2_offset a.0.is_table in absurd (omega arith)),
    not_cached c a.1,
  )

  blank_now : table ops l with_table g q.l2_lru q.file_end ≡ replicate (l2_entries q) 0
  blank_now =
      ap (λ m. either m (disk_table ops l with_table g q.file_end))
        (uncached q.file_end q.l2_lru (not_cached q.l2_lru v.cache.entries))
      ∙ blank_table ops l q v r g x

  -- The entries of the new table are 0, as the missing table's were; the others are as they were.
  pub table-entry_of :
      (k : ℕ) → k < clusters ops l q → entry_of ops l with_table g q.l2_lru k ≡ entry k
  table-entry_of k h =
      let j = k / l2_entries q in
      elim (ℕ_discrete j i) [
        | yes same ↦
            let new : l1_at with_table j ≡ new_entry q.file_end =
              ap (l1_at with_table) same ∙ here in
            let old : l1_at q j ≡ 0 = ap (l1_at q) same ∙ empty in
            let set_ : (new_entry q.file_end == 0) ≡ false =
              let n =
                (new_entry_lem q.file_end r.aligned (
                  let f = fits in
                  let b = cluster_bounds ops l q v.bits_from v.bits_to in omega arith)).1 in
              ground arith in
            let now : entry_of ops l with_table g q.l2_lru k ≡ 0 = rw new (
              rw set_ (
                ap (λ o. get_or (table ops l with_table g q.l2_lru o) (k % l2_entries q) 0)
                  new_offset
                ∙ ap (λ t. get_or t (k % l2_entries q) 0) blank_now
                ∙ get_or-replicate (l2_entries q) (k % l2_entries q) 0)) in
            let before : entry k ≡ 0 = rw old refl in now ∙ sym before
        | no other ↦
            let first : l1_at with_table j ≡ l1_at q j = elsewhere j other in
            elim (Bool-cases (l1_at q j == 0)) [
              | inl z ↦ rw (first, z) refl
              | inr n ↦
                  let is : IsTable q (offset_of (l1_at q j)) =
                    (j, table_index ops l q q.file q.l2_lru k v h, ground arith, refl) in
                  rw (first, n)
                    (ap
                      (λ t.
                        get_or (either (cached (offset_of (l1_at q j)) q.l2_lru) t)
                          (k % l2_entries q) 0)
                      (same_table ops l q v r g x (offset_of (l1_at q j)) is))
            ]
      ]

  entries_now :
      (c : List L2CacheEntry) → All (EntryOk ops l q q.file) c → All (EntryOk ops l with_table g) c
  entries_now [] a = tt
  entries_now (e ∷ c) a = (
    record {
      is_table = old-IsTable e.l2_offset a.0.is_table;
      full = a.0.full;
      fits = a.0.fits;
      clean = λ n. a.0.clean n ∙ sym (same_table ops l q v r g x e.l2_offset a.0.is_table);
    },
    entries_now c a.1,
  )

  now-TablesOk : TablesOk ops l with_table g
  now-TablesOk =
      let b = cluster_bounds ops l q v.bits_from v.bits_to in
      let f = fits in
      record {
        inside = λ o is. elim (tables_now o is) [
          | inl new ↦ (omega (arith, x.reach), omega arith)
          | inr old ↦ let t = v.tabs.inside o old in (omega (arith, x.longer), omega arith)
        ];
        apart = λ o p io ip ne. elim (tables_now o io) [
          | inl new ↦ elim (tables_now p ip) [
            | inl new' ↦ absurd (ne (new ∙ sym new'))
            | inr old' ↦ inr (omega (arith, r.tables_below p old'))
          ]
          | inr old ↦ elim (tables_now p ip) [
            | inl new' ↦ inl (omega (arith, r.tables_below o old))
            | inr old' ↦ v.tabs.apart o p old old' ne
          ]
        ];
      }

  now-DataOk : (k : ℕ) → k < clusters ops l q → entry k ≢ 0 → DataOk ops l with_table g (entry k)
  now-DataOk k h n =
      let d = v.data_ok k h n in
      record {
        plain = d.plain;
        placed = d.placed;
        inside = omega (arith, d.inside, x.longer);
        off_tables = λ o is. elim (tables_now o is) [
          | inl new ↦ inl (omega (arith, r.data_below k h n))
          | inr old ↦ d.off_tables o old
        ];
      }

  pub table-Valid : Valid ops l with_table
  table-Valid = record {
    cache = record {
      sound = x.sound;
      distinct = v.cache.distinct;
      entries = entries_now q.l2_lru v.cache.entries;
    };
    tabs = now-TablesOk;
    bits_from = v.bits_from;
    bits_to = v.bits_to;
    l1_fits = v.l1_fits;
    size_fits = v.size_fits;
    covers = v.covers;
    data_ok = λ k h n.
        let e = table-entry_of k h in
        subst (DataOk ops l with_table g) (sym e) (now-DataOk k h (λ z. n (e ∙ z)));
    data_apart = λ k m hk hm ne nk nm.
        let ek = table-entry_of k hk in
        let em = table-entry_of m hm in
        subst
          (λ z.
            Apart (cluster_size q) (offset_of z)
              (offset_of (entry_of ops l with_table g q.l2_lru m)))
          (sym ek)
          (subst (λ z. Apart (cluster_size q) (offset_of (entry k)) (offset_of z)) (sym em)
            (v.data_apart k m hk hm ne (λ z. nk (ek ∙ z)) (λ z. nm (em ∙ z))));
  }

  pub table-disk : (y : ℕ) → y < q.virtual_size → disk ops l with_table y ≡ disk ops l q y
  table-disk y lt =
      let k = y / cluster_size q in
      let h = cluster_in ops l q q.file q.l2_lru y v lt in
      let b = cluster_bounds ops l q v.bits_from v.bits_to in
      let e = table-entry_of k h in
      elim (Bool-cases (entry k == 0)) [
        | inl z ↦ rw (e, z) refl
        | inr n ↦
            rw (e, n)
              (same_data ops l q v r g x k h (ground arith) (y % cluster_size q)
                (mod-lt y {m = cluster_size q} (omega arith)))
      ]

  one_table :
      (a b : ℕ)
      → a < q.l1_size
      → b < q.l1_size
      → l1_at with_table a ≢ 0
      → l1_at with_table b ≢ 0
      → offset_of (l1_at with_table a) ≡ offset_of (l1_at with_table b)
      → a ≡ b
  one_table a b ha hb na nb same = elim (ℕ_discrete a i) [
    | yes a_new ↦ elim (ℕ_discrete b i) [
      | yes b_new ↦ a_new ∙ sym b_new
      | no b_old ↦ absurd (
          clash b hb b_old (λ z. nb (elsewhere b b_old ∙ z))
            (sym same
              ∙ ap (λ k. offset_of (l1_at with_table k)) a_new
              ∙ ap offset_of here
              ∙ new_offset))
    ]
    | no a_old ↦ elim (ℕ_discrete b i) [
      | yes b_new ↦ absurd (
          clash a ha a_old (λ z. na (elsewhere a a_old ∙ z))
            (same
              ∙ ap (λ k. offset_of (l1_at with_table k)) b_new
              ∙ ap offset_of here
              ∙ new_offset))
      | no b_old ↦
          r.one_each a b ha hb (λ z. na (elsewhere a a_old ∙ z)) (λ z. nb (elsewhere b b_old ∙ z))
            (sym (ap offset_of (elsewhere a a_old)) ∙ same ∙ ap offset_of (elsewhere b b_old))
    ]
  ]
    where
      clash :
          (j : ℕ)
          → j < q.l1_size
          → j ≢ i
          → l1_at q j ≢ 0
          → offset_of (l1_at with_table j) ≡ q.file_end
          → ⊥
      clash j h other n e =
          let below = r.tables_below (offset_of (l1_at q j)) (j, h, n, refl) in
          let at_end : offset_of (l1_at q j) ≡ q.file_end =
            sym (ap offset_of (elsewhere j other)) ∙ e in
          let b = cluster_bounds ops l q v.bits_from v.bits_to in omega arith

  pub table-RoomOk : RoomOk with_table (entry_of ops l with_table g q.l2_lru)
  table-RoomOk =
      let bounds = cluster_bounds ops l q v.bits_from v.bits_to in
      let whole = cluster_size-aligned q v.bits_from in
      let count = q.l1_size * l2_entries q in
      let fewer : zeros (l1_at with_table) q.l1_size + 1 ≡ zeros (l1_at q) q.l1_size =
        zeros_fewer (l1_at q) (l1_at with_table) i q.l1_size low empty
          (λ z. (new_entry_lem q.file_end r.aligned (let f = fits in omega arith)).1 (sym here ∙ z))
          (λ m _ ne. elsewhere m ne) in
      let same = zeros_agree entry (entry_of ops l with_table g q.l2_lru) count table-entry_of in
      record {
        l1_full = length-set q.l1_table i (new_entry q.file_end) ∙ r.l1_full;
        past_header = omega (arith, r.past_header);
        aligned = omega (arith, r.aligned);
        budget =
            spend q.file_end (cluster_size q) (zeros entry count + zeros (l1_at q) q.l1_size)
              (zeros (entry_of ops l with_table g q.l2_lru) count
                + zeros (l1_at with_table) q.l1_size)
              (2 ^ 56) (omega arith) r.budget;
        l1_below = omega (arith, r.l1_below);
        tables_below = λ o is. elim (tables_now o is) [
          | inl new ↦ omega arith
          | inr old ↦ omega (arith, r.tables_below o old)
        ];
        tables_off = λ o is. elim (tables_now o is) [
          | inl new ↦ inl (omega (arith, r.l1_below))
          | inr old ↦ r.tables_off o old
        ];
        data_below = λ k h n.
            let e = table-entry_of k h in
            let below = r.data_below k h (λ z. n (e ∙ z)) in
            subst (λ z. offset_of z + cluster_size q ≤ q.file_end + cluster_size q) (sym e)
              (omega arith);
        data_off = λ k h n.
            let e = table-entry_of k h in
            subst (λ z. OffFirst q (offset_of z)) (sym e) (r.data_off k h (λ z. n (e ∙ z)));
        one_each = one_table;
      }
