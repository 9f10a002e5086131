-- ===== src/Qcow2/InPlace.antt =====
-- `Write` over clusters that the image has.
use tenclaw.Base.{
  ℕ, zero, suc, ◌+◌, ◌-◌, ◌/◌, ◌%◌, ◌≤◌, ◌<◌, ◌≡◌, refl, sym, ap, ap₂, subst, ◌∙◌, ◌≢◌, inl, inr,
  Bool, true, false, not, Option, none, some, List, [], ◌∷◌, arith, ltb, leb, ◌==◌, if◌then◌else◌,
  Bool-cases, length, get_or, take, drop, u64, length-take, length-drop,
}
use tenclaw.Base.{take-append-drop}
use tenclaw.Memory.{store_bytes}
use tenclaw.Memory.Bytes.{store_bytes-append, store_bytes_agree}
use tenclaw.RawImage.{FileOps}
use tenclaw.Qcow2.{
  Qcow2, L2CacheEntry, Codecs, cluster_size, l2_entries, offset_of, is_compressed, ensure_l2_table,
  write_cluster,
}
use tenclaw.Qcow2.Transfer.{
  in_cluster, chunk_of, write_entry, write_indexed, write_chunk, write_loop, write,
}
use tenclaw.Qcow2.Laws.{GrowLaws, with_cache, l1_at, table, Alike}
use tenclaw.Qcow2.Lookup.{get_l2_table_lem}
use tenclaw.Qcow2.Image.{
  ImageOk, entry_of, disk_byte, Valid, disk, clusters, cluster_in, table_index, Alike-entry,
  Alike-ImageOk, Alike-disk_byte,
}
use tenclaw.Qcow2.Rebase.{ImageOk-rebase}
use tenclaw.Qcow2.Resolve.{first_index, second_index}
use tenclaw.Qcow2.Reading.{chunk_lem}
use tenclaw.Qcow2.Writing.{put_disk, put_image, put_entries, put_lem, after}

module _ {F : Type 0} (ops : FileOps F) (l : GrowLaws ops) (codecs : Codecs) where
  -- The entry of a cluster as the image is.
  abbrev pub entry_at : Qcow2 F → ℕ → ℕ
  entry_at q k = entry_of ops l q q.file q.l2_lru k

  -- The image has every cluster of a range of the disk.
  abbrev pub IsMapped : Qcow2 F → ℕ → ℕ → Type 0
  IsMapped q x n = (y : ℕ) → x ≤ y → y < x + n → entry_at q (y / cluster_size q) ≢ 0

  first_level : (q : Qcow2 F) (k : ℕ) → entry_at q k ≢ 0 → (l1_at q (k / l2_entries q) == 0) ≡ false
  first_level q k h = elim (Bool-cases (l1_at q (k / l2_entries q) == 0)) [
    | inl z ↦ absurd (h (rw z refl))
    | inr n ↦ n
  ]

  -- `EnsureL2Table` of a table that the image has is `GetL2Table`.
  ensure_lem :
      (q : Qcow2 F) (k : ℕ)
      → Valid ops l q
      → k < clusters ops l q
      → entry_at q k ≢ 0
      → (f : F) × (c : List L2CacheEntry) × (ensure_l2_table ops q (k / l2_entries q) ≡ (
        with_cache q f c,
        some (
          offset_of (l1_at q (k / l2_entries q)),
          table ops l q q.file q.l2_lru (offset_of (l1_at q (k / l2_entries q))),
        ),
      ))
        × Alike ops l q q.file q.l2_lru f c
  unfolding ensure_l2_table
  ensure_lem q k v h held =
      let i = k / l2_entries q in
      let inside = table_index ops l q q.file q.l2_lru k v h in
      let n = first_level q k held in
      let low : leb q.l1_size i ≡ false = ground arith in
      let (f, c, eq, alike) =
        get_l2_table_lem ops l q (offset_of (l1_at q i)) v.tabs v.cache
          (i, inside, ground arith, refl) in
      let done : Qcow2 F × Option (List ℕ) → Qcow2 F × Option (ℕ × List ℕ) =
        λ got. (got.0, elim got.1 [ none ↦ none | some l2 ↦ some (offset_of (l1_at q i), l2) ]) in
      (f, c, rw (low, n) (ap done eq), alike)

  write_entry_plain :
      (q : Qcow2 F) (x : ℕ) (bytes : List ℕ) (i off entry : ℕ)
      → entry ≢ 0
      → is_compressed entry ≡ false
      → write_entry ops codecs q x bytes i off entry
        ≡ write_cluster ops q (offset_of entry) (in_cluster q x) bytes
  unfolding write_entry
  write_entry_plain q x bytes i off entry held plain =
      let n : (entry == 0) ≡ false = ground arith in rw (n, plain) refl

  -- What a round leaves: the bytes written, every other byte of the disk and every entry as it was.
  pub record Written (q : Qcow2 F) (x : ℕ) (bytes : List ℕ) (f : F) (c : List L2CacheEntry)
      : Type 0 where
    pub image : ImageOk ops l q f c
    pub bytes_of :
        (y : ℕ)
        → y < q.virtual_size
        → disk_byte ops l q f c y ≡ store_bytes (disk ops l q) x bytes y
    pub entries_of : (k : ℕ) → k < clusters ops l q → entry_of ops l q f c k ≡ entry_at q k

  pub write_chunk_lem :
      (q : Qcow2 F) (x : ℕ) (bytes : List ℕ)
      → Valid ops l q
      → 0 < length bytes
      → x + length bytes ≤ q.virtual_size
      → in_cluster q x + length bytes ≤ cluster_size q
      → entry_at q (x / cluster_size q) ≢ 0
      → (f : F) × (c : List L2CacheEntry) × (write_chunk ops codecs q x bytes
          ≡ (with_cache q f c, true))
        × Written q x bytes f c
  unfolding write_chunk write_indexed
  write_chunk_lem q x bytes v some_ h room held =
      let k = x / cluster_size q in
      let in_map = cluster_in ops l q q.file q.l2_lru x v (omega arith) in
      let (f, c, eq, alike) = ensure_lem q k v in_map held in
      let mid = Alike-ImageOk ops l q q.file f q.l2_lru c v alike in
      let same = Alike-entry ops l q q.file f q.l2_lru c k v alike in_map in
      let held' : entry_of ops l q f c k ≢ 0 = λ z. held (sym same ∙ z) in
      let g = after ops l q f c mid x bytes in_map held' room in
      let low : ltb q.virtual_size (u64 (x + length bytes)) ≡ false =
        let s = v.size_fits in ground arith in
      let n = first_level q k held in
      let found : entry_at q k
          ≡ get_or (table ops l q q.file q.l2_lru (offset_of (l1_at q (k / l2_entries q))))
              (k % l2_entries q) 0 =
        rw n refl in
      let done : Qcow2 F × Option (ℕ × List ℕ) → Qcow2 F × Bool = λ got. elim got.1 [
        | none ↦ (got.0, false)
        | some t ↦
            write_entry ops codecs got.0 x bytes (k / l2_entries q) t.0
              (get_or t.1 (k % l2_entries q) 0)
      ] in
      (
        g,
        c,
        ap₂ (write_indexed ops codecs q x bytes)
              (first_index ops l q q.file q.l2_lru x v (omega arith))
              (second_index ops l q q.file q.l2_lru x v)
            ∙ rw low (
                ap done eq
                ∙ ap
                    (write_entry ops codecs (with_cache q f c) x bytes (k / l2_entries q)
                      (offset_of (l1_at q (k / l2_entries q))))
                    (sym found ∙ sym same)
                ∙ write_entry_plain (with_cache q f c) x bytes (k / l2_entries q)
                    (offset_of (l1_at q (k / l2_entries q))) (entry_of ops l q f c k) held'
                    (mid.data_ok k in_map held').plain
                ∙ put_lem ops l q f c mid x bytes in_map held' room),
        record {
          image = put_image ops l q f c mid x bytes in_map held' room;
          bytes_of = λ y lt.
              put_disk ops l q f c mid x bytes in_map held' room y lt
              ∙ store_bytes_agree q.virtual_size x bytes (disk_byte ops l q f c) (disk ops l q)
                  (λ z zl. Alike-disk_byte ops l q q.file f q.l2_lru c z v alike zl) y lt;
          entries_of = λ m hm.
              put_entries ops l q f c mid x bytes in_map held' room m hm
              ∙ Alike-entry ops l q q.file f q.l2_lru c m v alike hm;
        },
      )

  rest-IsMapped :
      (q : Qcow2 F) (x n : ℕ) (bytes : List ℕ) (f : F) (c : List L2CacheEntry)
      → Valid ops l q
      → Written q x bytes f c
      → x + n ≤ q.virtual_size
      → length bytes ≤ n
      → IsMapped q x n
      → IsMapped (with_cache q f c) (x + length bytes) (n - length bytes)
  rest-IsMapped q x n bytes f c v w h most mapped y lo hi z = mapped y (omega arith) (omega arith) (
      sym (w.entries_of (y / cluster_size q) (cluster_in ops l q q.file q.l2_lru y v (omega arith)))
      ∙ z)

  write_loop_lem :
      (fuel : ℕ) (q : Qcow2 F) (x : ℕ) (bytes : List ℕ)
      → Valid ops l q
      → x + length bytes ≤ q.virtual_size
      → IsMapped q x (length bytes)
      → length bytes ≤ fuel
      → (f : F) × (c : List L2CacheEntry) × (write_loop ops codecs fuel q x bytes
          ≡ (with_cache q f c, true))
        × Written q x bytes f c
  unfolding write_loop store_bytes
  write_loop_lem fuel q x [] v h mapped enough = (
    q.file,
    q.l2_lru,
    elim fuel as (λ n. write_loop ops codecs n q x [] ≡ (q, true)) [ zero ↦ refl | suc n ↦ refl ],
    record { image = v; bytes_of = λ y lt. refl; entries_of = λ k hk. refl },
  )
  write_loop_lem zero q x (b ∷ bs) v h mapped enough = absurd (ground arith)
  write_loop_lem (suc fuel) q x (b ∷ bs) v h mapped enough =
      let bytes : List ℕ = b ∷ bs in
      let n = length bytes in
      let chunk = chunk_of q x n in
      let (some_, most, room) = chunk_lem ops l codecs q x n v (omega arith) in
      let now = take chunk bytes in
      let later = drop chunk bytes in
      let size : length now ≡ chunk = length-take chunk bytes ∙ omega arith in
      let left : length later ≡ n - chunk = length-drop chunk bytes in
      let (f, c, eq, w) =
        write_chunk_lem q x now v (omega arith) (omega arith) (omega arith)
          (mapped x (omega arith) (omega arith)) in
      let next = ImageOk-rebase ops l q f c f c w.image in
      let mapped' : IsMapped (with_cache q f c) (x + chunk) (length later) =
        subst (λ m. IsMapped (with_cache q f c) (x + m) (length later)) size
          (subst (IsMapped (with_cache q f c) (x + length now)) (ap (λ m. n - m) size ∙ sym left)
            (rest-IsMapped q x n now f c v w h (omega arith) mapped)) in
      let (g, d, eq', w') =
        write_loop_lem fuel (with_cache q f c) (x + chunk) later next (omega arith) mapped'
          (omega arith) in
      let fits : u64 (x + chunk) ≡ x + chunk = let s = v.size_fits in omega arith in
      let pos : (n == 0) ≡ false = ground arith in
      let step : Qcow2 F × Bool → Qcow2 F × Bool = λ r.
        let rest = write_loop ops codecs fuel r.0 (u64 (x + chunk)) later in
        if not r.1 then (r.0, false) else rest in
      let whole : (y : ℕ)
          → store_bytes (disk ops l q) x bytes y
            ≡ store_bytes (store_bytes (disk ops l q) x now) (x + chunk) later y =
        λ y.
          ap (λ t. store_bytes (disk ops l q) x t y) (sym (take-append-drop chunk bytes))
          ∙ ap (λ r. r y) (store_bytes-append (disk ops l q) x now later)
          ∙ ap (λ m. store_bytes (store_bytes (disk ops l q) x now) (x + m) later y) size in
      (
        g,
        d,
        rw pos (
            ap step eq
            ∙ ap (λ y. write_loop ops codecs fuel (with_cache q f c) y later) fits
            ∙ eq'),
        record {
          image = ImageOk-rebase ops l (with_cache q f c) q.file q.l2_lru g d w'.image;
          bytes_of = λ y lt.
              w'.bytes_of y lt
              ∙ store_bytes_agree q.virtual_size (x + chunk) later (disk_byte ops l q f c)
                  (store_bytes (disk ops l q) x now) w.bytes_of y lt
              ∙ sym (whole y);
          entries_of = λ k hk. w'.entries_of k hk ∙ w.entries_of k hk;
        },
      )

  -- A write inside the disk of a sound image, over clusters that the image has, succeeds and changes
  -- those bytes of the disk alone; the image stays sound, and of the same size.
  pub write-IsMapped :
      (q : Qcow2 F) (offset : ℕ) (bytes : List ℕ)
      → Valid ops l q
      → offset + length bytes ≤ q.virtual_size
      → IsMapped q offset (length bytes)
      → (q' : Qcow2 F) × (write ops codecs q offset bytes ≡ (q', true))
        × Valid ops l q'
        × (q'.virtual_size ≡ q.virtual_size)
        × ((x : ℕ)
            → x < q.virtual_size
            → disk ops l q' x ≡ store_bytes (disk ops l q) offset bytes x)
  unfolding write
  write-IsMapped q offset bytes v h mapped =
      let (f, c, eq, w) = write_loop_lem (length bytes) q offset bytes v h mapped (omega arith) in
      (with_cache q f c, eq, ImageOk-rebase ops l q f c f c w.image, refl, w.bytes_of)
