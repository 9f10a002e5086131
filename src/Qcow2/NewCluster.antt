-- ===== src/Qcow2/NewCluster.antt =====
-- A new cluster and its entry in a cached table: the disk is as it was, zeros where the cluster is.
use tenclaw.Base.{
  ℕ, ◌+◌, ◌*◌, ◌/◌, ◌%◌, ◌^◌, ◌≤◌, ◌<◌, ◌≡◌, refl, sym, ap, ap₂, subst, ◌∙◌, ◌≢◌, inl, inr, true,
  false, some, List, [], ◌∷◌, arith, ◌==◌, Bool-cases, length, get_or, set, length-set,
  get_or-set_self, get_or-set_ne, All,
}
use native.Mathlib.Decide.{ℕ_discrete}
use native.Mathlib.Nat.{mod-lt, div-add-mod}
use tenclaw.RawImage.{FileOps}
use tenclaw.Qcow2.{
  Qcow2, L2CacheEntry, cluster_size, l2_entries, offset_of, is_compressed, update_entry,
}
use tenclaw.Qcow2.Cache.{cached}
use tenclaw.Qcow2.Laws.{
  GrowLaws, l1_at, IsTable, Apart, EntryOk, CacheOk, TablesOk-longer, table, disk_table, either,
}
use tenclaw.Qcow2.Image.{
  DataOk, Valid, disk, entry_of, clusters, cluster_bounds, cluster_in, table_index,
}
use tenclaw.Qcow2.Update.{
  mark, update-Distinct, update-cached_ne, update-cached_self, update-All, cached-All, All-set,
}
use tenclaw.Qcow2.Room.{RoomOk, OffFirst, zeros, zeros_fewer, zeros_some, spend}
use tenclaw.Qcow2.Extend.{cluster_size-aligned, Extended, end_fits, same_table, same_data}
use tenclaw.Qcow2.NewTable.{new_entry, new_entry_lem}

module _ {F : Type 0} (ops : FileOps F) (l : GrowLaws ops) (q : Qcow2 F) (v : Valid ops l q)
    (r : RoomOk q (entry_of ops l q q.file q.l2_lru)) (k : ℕ) (low : k < clusters ops l q)
    (empty : entry_of ops l q q.file q.l2_lru k ≡ 0) (some_table : l1_at q (k / l2_entries q) ≢ 0)
    (t : List ℕ) (held : cached (offset_of (l1_at q (k / l2_entries q))) q.l2_lru ≡ some t) (g : F)
    (x : Extended ops l q g) where
  open l use {content, Sound}

  abbrev pub home : ℕ
  home = offset_of (l1_at q (k / l2_entries q))

  abbrev pub with_cluster : Qcow2 F
  with_cluster = record q {
    file_end = q.file_end + cluster_size q;
    file = g;
    l2_lru = update_entry home (mark (k % l2_entries q) (new_entry q.file_end)) q.l2_lru;
  }

  abbrev entry : ℕ → ℕ
  entry m = entry_of ops l q q.file q.l2_lru m

  abbrev pub entry_now : ℕ → ℕ
  entry_now m = entry_of ops l with_cluster g with_cluster.l2_lru m

  pub fits : q.file_end + cluster_size q ≤ 2 ^ 56
  fits =
      end_fits ops l q v r
        (let s = zeros_some entry k (q.l1_size * l2_entries q) low empty in omega arith)

  new_lem :
      (offset_of (new_entry q.file_end) ≡ q.file_end)
      × (new_entry q.file_end ≢ 0)
      × (is_compressed (new_entry q.file_end) ≡ false)
      × (new_entry q.file_end < 2 ^ 64)
  new_lem =
      new_entry_lem q.file_end r.aligned
        (let f = fits in let b = cluster_bounds ops l q v.bits_from v.bits_to in omega arith)

  is_home : IsTable q home
  is_home = (k / l2_entries q, table_index ops l q q.file q.l2_lru k v low, some_table, refl)

  lengths :
      (c : List L2CacheEntry)
      → All (EntryOk ops l q q.file) c
      → All (λ e. length e.data_ ≡ l2_entries q) c
  lengths [] a = tt
  lengths (e ∷ c) a = (a.0.full, lengths c a.1)

  full : length t ≡ l2_entries q
  full =
      cached-All (λ o d. length d ≡ l2_entries q) home q.l2_lru t held
        (lengths q.l2_lru v.cache.entries)

  entry_here : entry_now k ≡ new_entry q.file_end
  entry_here =
      let b = cluster_bounds ops l q v.bits_from v.bits_to in
      let set_ : (l1_at q (k / l2_entries q) == 0) ≡ false = let n = some_table in ground arith in
      let j = k % l2_entries q in
      let inside : j < length t =
        let m = mod-lt k {m = l2_entries q} (omega arith) in let f = full in omega arith in
      rw set_ (
        ap (λ m. get_or (either m (disk_table ops l q g home)) j 0)
          (update-cached_self home j (new_entry q.file_end) q.l2_lru t held)
        ∙ get_or-set_self t j (new_entry q.file_end) 0 inside)

  same_home :
      (m : ℕ) → m ≢ k → m / l2_entries q ≡ k / l2_entries q → m % l2_entries q ≢ k % l2_entries q
  same_home m ne same z =
      let a = div-add-mod m (l2_entries q) in
      let b = div-add-mod k (l2_entries q) in
      ne (sym a ∙ ap₂ (λ d e. l2_entries q * d + e) same z ∙ b)

  entry_there : (m : ℕ) → m < clusters ops l q → m ≢ k → entry_now m ≡ entry m
  entry_there m h ne =
      let i = m / l2_entries q in
      let j = m % l2_entries q in
      let o = offset_of (l1_at q i) in
      elim (Bool-cases (l1_at q i == 0)) [
        | inl z ↦ rw z refl
        | inr n ↦
            let is : IsTable q o =
              (i, table_index ops l q q.file q.l2_lru m v h, ground arith, refl) in
            let on_disk = same_table ops l q v r g x o is in
            elim (ℕ_discrete o home) [
              | yes same ↦
                  let index : i ≡ k / l2_entries q =
                    r.one_each i (k / l2_entries q) is.1
                      (table_index ops l q q.file q.l2_lru k v low) (ground arith) some_table
                      same in
                  let apart = same_home m ne index in
                  let now : table ops l with_cluster g with_cluster.l2_lru o
                      ≡ set t (k % l2_entries q) (new_entry q.file_end) =
                    ap (λ z. either (cached z with_cluster.l2_lru) (disk_table ops l q g z)) same
                    ∙ ap (λ z. either z (disk_table ops l q g home))
                        (update-cached_self home (k % l2_entries q) (new_entry q.file_end) q.l2_lru
                          t held) in
                  let before : table ops l q q.file q.l2_lru o ≡ t =
                    ap (λ z. either (cached z q.l2_lru) (disk_table ops l q q.file z)) same
                    ∙ ap (λ z. either z (disk_table ops l q q.file home)) held in
                  rw n (
                    ap (λ z. get_or z j 0) now
                    ∙ get_or-set_ne t (k % l2_entries q) j (new_entry q.file_end) 0
                        (λ z. apart (sym z))
                    ∙ sym (ap (λ z. get_or z j 0) before))
              | no other ↦ rw n (
                  ap₂ (λ a b. get_or (either a b) j 0)
                    (update-cached_ne home (k % l2_entries q) (new_entry q.file_end) o q.l2_lru
                      other)
                    on_disk)
            ]
      ]

  entries_moved :
      (c : List L2CacheEntry)
      → All (EntryOk ops l q q.file) c
      → All (EntryOk ops l with_cluster g) c
  entries_moved [] a = tt
  entries_moved (e ∷ c) a = (
    record {
      is_table = a.0.is_table;
      full = a.0.full;
      fits = a.0.fits;
      clean = λ n. a.0.clean n ∙ sym (same_table ops l q v r g x e.l2_offset a.0.is_table);
    },
    entries_moved c a.1,
  )

  entry_marked :
      (e : L2CacheEntry)
      → EntryOk ops l with_cluster g e
      → EntryOk ops l with_cluster g (mark (k % l2_entries q) (new_entry q.file_end) e)
  entry_marked e a = record {
    is_table = a.is_table;
    full = length-set e.data_ (k % l2_entries q) (new_entry q.file_end) ∙ a.full;
    fits =
        All-set (λ b. b < 2 ^ 64) e.data_ (k % l2_entries q) (new_entry q.file_end) new_lem.3
          a.fits;
    clean = λ n. absurd (ground arith);
  }

  now-CacheOk : CacheOk ops l with_cluster g with_cluster.l2_lru
  now-CacheOk = record {
    sound = x.sound;
    distinct =
        update-Distinct home (k % l2_entries q) (new_entry q.file_end) q.l2_lru v.cache.distinct;
    entries =
        update-All (EntryOk ops l with_cluster g) home (k % l2_entries q) (new_entry q.file_end)
          q.l2_lru entry_marked (entries_moved q.l2_lru v.cache.entries);
  }

  new-DataOk : DataOk ops l with_cluster g (new_entry q.file_end)
  new-DataOk = record {
    plain = new_lem.2;
    placed = λ z. let a = new_lem.0 in absurd (omega (arith, r.past_header));
    inside = omega (arith, new_lem.0, x.reach);
    off_tables = λ o is. inr (let a = new_lem.0 in omega (arith, r.tables_below o is));
  }

  old-DataOk : (m : ℕ) → m < clusters ops l q → entry m ≢ 0 → DataOk ops l with_cluster g (entry m)
  old-DataOk m h n =
      let d = v.data_ok m h n in
      record {
        plain = d.plain;
        placed = d.placed;
        inside = omega (arith, d.inside, x.longer);
        off_tables = d.off_tables;
      }

  now-DataOk :
      (m : ℕ) → m < clusters ops l q → entry_now m ≢ 0 → DataOk ops l with_cluster g (entry_now m)
  now-DataOk m h n = elim (ℕ_discrete m k) [
    | yes same ↦
        subst (DataOk ops l with_cluster g) (sym (ap entry_now same ∙ entry_here)) new-DataOk
    | no other ↦
        let e = entry_there m h other in
        subst (DataOk ops l with_cluster g) (sym e) (old-DataOk m h (λ z. n (e ∙ z)))
  ]

  pub offset_here : offset_of (entry_now k) ≡ q.file_end
  offset_here = ap offset_of entry_here ∙ new_lem.0

  -- What lies below the new cluster.
  below :
      (m : ℕ)
      → m < clusters ops l q
      → m ≢ k
      → entry_now m ≢ 0
      → offset_of (entry_now m) + cluster_size q ≤ q.file_end
  below m h other n =
      let e = entry_there m h other in
      subst (λ z. offset_of z + cluster_size q ≤ q.file_end) (sym e)
        (r.data_below m h (λ z. n (e ∙ z)))

  now-Apart :
      (a b : ℕ)
      → a < clusters ops l q
      → b < clusters ops l q
      → a ≢ b
      → entry_now a ≢ 0
      → entry_now b ≢ 0
      → Apart (cluster_size q) (offset_of (entry_now a)) (offset_of (entry_now b))
  now-Apart a b ha hb ne na nb = elim (ℕ_discrete a k) [
    | yes a_new ↦
        let other : b ≢ k = λ z. ne (a_new ∙ sym z) in
        let place : offset_of (entry_now a) ≡ q.file_end =
          ap (λ z. offset_of (entry_now z)) a_new ∙ offset_here in
        inr (
          subst (λ z. offset_of (entry_now b) + cluster_size q ≤ z) (sym place)
            (below b hb other nb))
    | no a_old ↦ elim (ℕ_discrete b k) [
      | yes b_new ↦
          let place : offset_of (entry_now b) ≡ q.file_end =
            ap (λ z. offset_of (entry_now z)) b_new ∙ offset_here in
          inl (
            subst (λ z. offset_of (entry_now a) + cluster_size q ≤ z) (sym place)
              (below a ha a_old na))
      | no b_old ↦
          let ea = entry_there a ha a_old in
          let eb = entry_there b hb b_old in
          subst (λ z. Apart (cluster_size q) (offset_of z) (offset_of (entry_now b))) (sym ea)
            (subst (λ z. Apart (cluster_size q) (offset_of (entry a)) (offset_of z)) (sym eb)
              (v.data_apart a b ha hb ne (λ z. na (ea ∙ z)) (λ z. nb (eb ∙ z))))
    ]
  ]

  pub cluster-Valid : Valid ops l with_cluster
  cluster-Valid =
      let tabs = TablesOk-longer ops l q q.file g x.longer v.tabs in
      record {
        cache = now-CacheOk;
        tabs = record { inside = tabs.inside; apart = tabs.apart };
        bits_from = v.bits_from;
        bits_to = v.bits_to;
        l1_fits = v.l1_fits;
        size_fits = v.size_fits;
        covers = v.covers;
        data_ok = now-DataOk;
        data_apart = now-Apart;
      }

  pub cluster-mapped : entry_now k ≢ 0
  cluster-mapped z = new_lem.1 (sym entry_here ∙ z)

  -- The bytes of the new cluster are 0, as those of the missing cluster were.
  pub cluster-disk : (y : ℕ) → y < q.virtual_size → disk ops l with_cluster y ≡ disk ops l q y
  cluster-disk y lt =
      let m = y / cluster_size q in
      let h = cluster_in ops l q q.file q.l2_lru y v lt in
      let b = cluster_bounds ops l q v.bits_from v.bits_to in
      let inside = mod-lt y {m = cluster_size q} (omega arith) in
      elim (ℕ_discrete m k) [
        | yes same ↦
            let old : (entry m == 0) ≡ true = let z = ap entry same ∙ empty in ground arith in
            let set_ : (entry_now m == 0) ≡ false =
              let n : entry_now m ≢ 0 = λ z. cluster-mapped (sym (ap entry_now same) ∙ z) in
              ground arith in
            let place : offset_of (entry_now m) ≡ q.file_end =
              ap (λ z. offset_of (entry_now z)) same ∙ offset_here in
            rw (set_, old)
              (ap (λ z. content g (z + y % cluster_size q)) place
                ∙ x.blank (q.file_end + y % cluster_size q) (omega arith) (omega arith))
        | no other ↦
            let e = entry_there m h other in
            elim (Bool-cases (entry m == 0)) [
              | inl z ↦ rw (e, z) refl
              | inr n ↦
                  rw (e, n)
                    (same_data ops l q v r g x m h (ground arith) (y % cluster_size q) inside)
            ]
      ]

  pub cluster-RoomOk : RoomOk with_cluster entry_now
  cluster-RoomOk =
      let whole = cluster_size-aligned q v.bits_from in
      let bounds = cluster_bounds ops l q v.bits_from v.bits_to in
      let count = q.l1_size * l2_entries q in
      let fewer : zeros entry_now count + 1 ≡ zeros entry count =
        zeros_fewer entry entry_now k count low empty cluster-mapped
          (λ m h ne. entry_there m h ne) in
      record {
        l1_full = r.l1_full;
        past_header = omega (arith, r.past_header);
        aligned = omega (arith, r.aligned);
        budget =
            spend q.file_end (cluster_size q) (zeros entry count + zeros (l1_at q) q.l1_size)
              (zeros entry_now count + zeros (l1_at q) q.l1_size) (2 ^ 56) (omega arith) r.budget;
        l1_below = omega (arith, r.l1_below);
        tables_below = λ o is. omega (arith, r.tables_below o is);
        tables_off = r.tables_off;
        data_below = λ m h n. elim (ℕ_discrete m k) [
          | yes same ↦
              let place : offset_of (entry_now m) ≡ q.file_end =
                ap (λ z. offset_of (entry_now z)) same ∙ offset_here in
              subst (λ z. z + cluster_size q ≤ q.file_end + cluster_size q) (sym place)
                (omega arith)
          | no other ↦ let b = below m h other n in omega arith
        ];
        data_off = λ m h n. elim (ℕ_discrete m k) [
          | yes same ↦
              let place : offset_of (entry_now m) ≡ q.file_end =
                ap (λ z. offset_of (entry_now z)) same ∙ offset_here in
              subst (OffFirst q) (sym place) (inl r.l1_below)
          | no other ↦
              let e = entry_there m h other in
              subst (λ z. OffFirst q (offset_of z)) (sym e) (r.data_off m h (λ z. n (e ∙ z)))
        ];
        one_each = r.one_each;
      }
