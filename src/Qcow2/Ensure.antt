-- ===== src/Qcow2/Ensure.antt =====
-- `EnsureL2Table`: the table for a cluster is there afterwards, in the cache.
use tenclaw.Base.{
  ℕ, ◌+◌, ◌*◌, ◌/◌, ◌^◌, ◌≤◌, ◌<◌, ◌≡◌, refl, sym, ap, ap₂, subst, ◌∙◌, ◌≢◌, inl, inr, Bool, true,
  false, Option, none, some, List, ◌∷◌, arith, leb, ◌==◌, if◌then◌else◌, Bool-cases, Option-cases,
  length, set, u64,
}
use native.Mathlib.Decide.{ℕ_discrete}
use tenclaw.RawImage.{FileOps}
use tenclaw.Qcow2.{
  Qcow2, L2CacheEntry, cluster_size, l2_entries, offset_of, find_entry, load_l2, get_l2_table,
  make_room, decode_table, zero_clusters, be64_bytes, allocate_clusters, ensure_l2_table,
}
use tenclaw.Qcow2.Cache.{cached, Distinct, find_some}
use tenclaw.Qcow2.Laws.{GrowLaws, with_cache, l1_at, table}
use tenclaw.Qcow2.Flushing.{cached_first}
use tenclaw.Qcow2.Lookup.{get_l2_table_lem}
use tenclaw.Qcow2.Image.{
  Valid, disk, entry_of, clusters, cluster_bounds, table_index, Alike-entry, Alike-ImageOk,
  Alike-disk_byte,
}
use tenclaw.Qcow2.Rebase.{ImageOk-rebase}
use tenclaw.Qcow2.Room.{zeros_some, RoomOk, RoomOk-same}
use tenclaw.Qcow2.Extend.{
  Extended, end_fits, new_file, with_first, new_file-Extended, with_first-Extended,
}
use tenclaw.Qcow2.NewTable.{
  new_offset, new_entry, new_entry_lem, with_table, here, table-entry_of, table-Valid, table-RoomOk,
  table-disk,
}

-- An image after work that may have grown it.
abbrev pub grown : {F : Type 0} → Qcow2 F → ℕ → List ℕ → F → List L2CacheEntry → Qcow2 F
grown q e tbl f c = record q { file_end = e; l1_table = tbl; file = f; l2_lru = c }

module _ {F : Type 0} (ops : FileOps F) where
  load_l2-cached :
      (q : Qcow2 F) (o : ℕ) (t : List ℕ)
      → (load_l2 ops q o).1 ≡ some t
      → cached o (load_l2 ops q o).0.l2_lru ≡ some t
  unfolding load_l2
  load_l2-cached q o t h =
      let bytes = ops.fread q.file o (8 * l2_entries q) in
      let read_ : List ℕ = decode_table (l2_entries q) bytes in
      let e : L2CacheEntry = record { l2_offset = o; data_ = read_; dirty = false } in
      let done : Bool → Qcow2 F × Option (List ℕ) =
        λ b. if b then (record q { l2_lru = e ∷ q.l2_lru }, some read_) else (q, none) in
      elim (Bool-cases (length bytes == 8 * l2_entries q)) [
        | inl y ↦
            ap (λ b. cached o (done b).0.l2_lru) y
            ∙ cached_first e q.l2_lru
            ∙ sym (ap (λ b. (done b).1) y)
            ∙ h
        | inr n ↦ absurd (let z : none ≡ some t = sym (ap (λ b. (done b).1) n) ∙ h in ground arith)
      ]

  -- A table that `GetL2Table` returns is in the cache.
  get_l2_table-cached :
      (q : Qcow2 F) (o : ℕ) (t : List ℕ)
      → Distinct q.l2_lru
      → (get_l2_table ops q o).1 ≡ some t
      → cached o (get_l2_table ops q o).0.l2_lru ≡ some t
  unfolding get_l2_table
  get_l2_table-cached q o t d h =
      let done : Option (L2CacheEntry × List L2CacheEntry) → Qcow2 F × Option (List ℕ) = λ m.
        elim m [
          | some found ↦ (record q { l2_lru = found.0 ∷ found.1 }, some found.0.data_)
          | none ↦ load_l2 ops (make_room ops (length q.l2_lru) q) o
        ] in
      elim (Option-cases (find_entry o q.l2_lru)) [
        | inl miss ↦
            ap (λ m. cached o (done m).0.l2_lru) miss
            ∙ load_l2-cached (make_room ops (length q.l2_lru) q) o t
                (sym (ap (λ m. (done m).1) miss) ∙ h)
        | inr (found, hit) ↦
            let key = (find_some o q.l2_lru found.0 found.1 hit d).key in
            let same : some found.0.data_ ≡ some t = sym (ap (λ m. (done m).1) hit) ∙ h in
            ap (λ m. cached o (done m).0.l2_lru) hit
            ∙ subst (λ z. cached z (found.0 ∷ found.1) ≡ some found.0.data_) key
                (cached_first found.0 found.1)
            ∙ same
      ]

module _ {F : Type 0} (ops : FileOps F) (l : GrowLaws ops) where
  -- A file end and a first level, a file and a cache, with which the image has a table for the
  -- cluster `k`, in the cache, and the same disk.
  pub record Ensured (q : Qcow2 F) (k : ℕ) (q' : Qcow2 F) (t : List ℕ) : Type 0 where
    pub result :
        ensure_l2_table ops q (k / l2_entries q)
        ≡ (q', some (offset_of (l1_at q' (k / l2_entries q)), t))
    pub valid : Valid ops l q'
    pub room : RoomOk q' (entry_of ops l q' q'.file q'.l2_lru)
    pub first : l1_at q' (k / l2_entries q) ≢ 0
    pub held : cached (offset_of (l1_at q' (k / l2_entries q))) q'.l2_lru ≡ some t
    pub entries :
        (m : ℕ)
        → m < clusters ops l q
        → entry_of ops l q' q'.file q'.l2_lru m ≡ entry_of ops l q q.file q.l2_lru m
    pub bytes : (y : ℕ) → y < q.virtual_size → disk ops l q' y ≡ disk ops l q y

  -- The table is there already.
  ensure_old :
      (q : Qcow2 F) (k : ℕ)
      → Valid ops l q
      → RoomOk q (entry_of ops l q q.file q.l2_lru)
      → k < clusters ops l q
      → l1_at q (k / l2_entries q) ≢ 0
      → (f : F) × (c : List L2CacheEntry) × (t : List ℕ) × Ensured q k
          (grown q q.file_end q.l1_table f c)
          t
  unfolding ensure_l2_table
  ensure_old q k v r h first =
      let i = k / l2_entries q in
      let o = offset_of (l1_at q i) in
      let inside = table_index ops l q q.file q.l2_lru k v h in
      let low : leb q.l1_size i ≡ false = ground arith in
      let n : (l1_at q i == 0) ≡ false = ground arith in
      let (f, c, eq, alike) = get_l2_table_lem ops l q o v.tabs v.cache (i, inside, first, refl) in
      let done : Qcow2 F × Option (List ℕ) → Qcow2 F × Option (ℕ × List ℕ) =
        λ got. (got.0, elim got.1 [ none ↦ none | some l2 ↦ some (o, l2) ]) in
      let t = table ops l q q.file q.l2_lru o in
      (
        f,
        c,
        t,
        record {
          result = rw (low, n) (ap done eq);
          valid =
              ImageOk-rebase ops l q f c f c (Alike-ImageOk ops l q q.file f q.l2_lru c v alike);
          room =
              RoomOk-same q f c (entry_of ops l q q.file q.l2_lru) (entry_of ops l q f c)
                (λ m hm. Alike-entry ops l q q.file f q.l2_lru c m v alike hm) r;
          first = first;
          held =
              sym (ap (λ z. cached o z.0.l2_lru) eq)
              ∙ get_l2_table-cached ops q o t v.cache.distinct (ap (λ z. z.1) eq);
          entries = λ m hm. Alike-entry ops l q q.file f q.l2_lru c m v alike hm;
          bytes = λ y lt. Alike-disk_byte ops l q q.file f q.l2_lru c y v alike lt;
        },
      )

  module _ (q : Qcow2 F) (k : ℕ) (v : Valid ops l q)
      (r : RoomOk q (entry_of ops l q q.file q.l2_lru)) (h : k < clusters ops l q)
      (missing : l1_at q (k / l2_entries q) ≡ 0) where
    abbrev i : ℕ
    i = k / l2_entries q

    inside : i < q.l1_size
    inside = table_index ops l q q.file q.l2_lru k v h

    room_left : q.file_end + cluster_size q ≤ 2 ^ 56
    room_left =
        end_fits ops l q v r
          (let s = zeros_some (l1_at q) i q.l1_size inside missing in omega arith)

    abbrev g : F
    g = with_first ops l q v r (new_file ops l q v r) i (new_entry q.file_end)

    extended : Extended ops l q g
    extended =
        with_first-Extended ops l q v r (new_file ops l q v r) i (new_entry q.file_end) inside
          room_left (new_file-Extended ops l q v r room_left)

    abbrev q2 : Qcow2 F
    q2 = with_table ops l q v r i inside missing g extended

    -- The code's own allocation, without the cuts to 64 bits.
    allocated : ensure_l2_table ops q i ≡ (
      (get_l2_table ops q2 q.file_end).0,
      elim (get_l2_table ops q2 q.file_end).1 [ none ↦ none | some l2 ↦ some (q.file_end, l2) ],
    )
    unfolding ensure_l2_table allocate_clusters zero_clusters
    allocated =
        let low : leb q.l1_size i ≡ false = let s = inside in ground arith in
        let z : (l1_at q i == 0) ≡ true = let m = missing in ground arith in
        let b = cluster_bounds ops l q v.bits_from v.bits_to in
        let end_ : u64 (q.file_end + 1 * cluster_size q) ≡ q.file_end + cluster_size q =
          let f = room_left in omega arith in
        let slot : u64 (q.l1_table_offset + i * 8) ≡ q.l1_table_offset + i * 8 =
          let f = room_left in let s = inside in omega (arith, r.l1_below) in
        let at_ : ℕ → ℕ → Qcow2 F = λ a b. record q {
          file_end = a;
          l1_table = set q.l1_table i (new_entry q.file_end);
          file = (ops.fwrite (new_file ops l q v r) b (be64_bytes (new_entry q.file_end))).0;
        } in
        let done : Qcow2 F → Qcow2 F × Option (ℕ × List ℕ) = λ p. (
          (get_l2_table ops p q.file_end).0,
          elim (get_l2_table ops p q.file_end).1 [ none ↦ none | some l2 ↦ some (q.file_end, l2) ],
        ) in
        rw (low, z) (ap done (ap₂ at_ end_ slot))

    ensure_new :
        (f : F) × (c : List L2CacheEntry) × (t : List ℕ) × Ensured q k
          (grown q q2.file_end q2.l1_table f c)
          t
    ensure_new =
        let v2 = table-Valid ops l q v r i inside missing g extended in
        let r2 = table-RoomOk ops l q v r i inside missing g extended in
        let new = here ops l q v r i inside missing g extended in
        let place = new_offset ops l q v r i inside missing g extended in
        let at_end : offset_of (l1_at q2 i) ≡ q.file_end = ap offset_of new ∙ place in
        let first : l1_at q2 i ≢ 0 = λ z.
          (new_entry_lem q.file_end r.aligned (
              let f = room_left in
              let b = cluster_bounds ops l q v.bits_from v.bits_to in omega arith)).1
            (sym new ∙ z) in
        let (f, c, eq, alike) =
          get_l2_table_lem ops l q2 q.file_end v2.tabs v2.cache (i, inside, first, sym at_end) in
        let t = table ops l q2 q2.file q2.l2_lru q.file_end in
        let done : Qcow2 F × Option (List ℕ) → Qcow2 F × Option (ℕ × List ℕ) =
          λ got. (got.0, elim got.1 [ none ↦ none | some l2 ↦ some (q.file_end, l2) ]) in
        (
          f,
          c,
          t,
          record {
            result =
                allocated ∙ ap done eq ∙ ap (λ o. (with_cache q2 f c, some (o, t))) (sym at_end);
            valid =
                ImageOk-rebase ops l q2 f c f c
                  (Alike-ImageOk ops l q2 q2.file f q2.l2_lru c v2 alike);
            room =
                RoomOk-same q2 f c (entry_of ops l q2 q2.file q2.l2_lru) (entry_of ops l q2 f c)
                  (λ m hm. Alike-entry ops l q2 q2.file f q2.l2_lru c m v2 alike hm) r2;
            first = first;
            held =
                subst (λ o. cached o c ≡ some t) (sym at_end)
                  (sym (ap (λ z. cached q.file_end z.0.l2_lru) eq)
                    ∙ get_l2_table-cached ops q2 q.file_end t v2.cache.distinct (ap (λ z. z.1) eq));
            entries = λ m hm.
                Alike-entry ops l q2 q2.file f q2.l2_lru c m v2 alike hm
                ∙ table-entry_of ops l q v r i inside missing g extended m hm;
            bytes = λ y lt.
                Alike-disk_byte ops l q2 q2.file f q2.l2_lru c y v2 alike lt
                ∙ table-disk ops l q v r i inside missing g extended y lt;
          },
        )

  -- Either way: what the tables say of the other clusters, and the disk, stay as they were.
  pub ensure_any :
      (q : Qcow2 F) (k : ℕ)
      → Valid ops l q
      → RoomOk q (entry_of ops l q q.file q.l2_lru)
      → k < clusters ops l q
      → (e : ℕ) × (tbl : List ℕ) × (f : F) × (c : List L2CacheEntry) × (t : List ℕ) × Ensured q k
          (grown q e tbl f c)
          t
  ensure_any q k v r h = elim (ℕ_discrete (l1_at q (k / l2_entries q)) 0) [
    | yes z ↦
        let (f, c, t, p) = ensure_new q k v r h z in
        (
          q.file_end + cluster_size q,
          set q.l1_table (k / l2_entries q) (new_entry q.file_end),
          f,
          c,
          t,
          p,
        )
    | no n ↦ let (f, c, t, p) = ensure_old q k v r h n in (q.file_end, q.l1_table, f, c, t, p)
  ]
