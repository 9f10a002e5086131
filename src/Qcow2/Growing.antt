-- ===== src/Qcow2/Growing.antt =====
-- `Write` inside the disk, with the allocations that it makes.
use tenclaw.Base.{
  ℕ, zero, suc, ◌+◌, ◌-◌, ◌*◌, ◌/◌, ◌%◌, ◌^◌, ◌≤◌, ◌<◌, ◌≡◌, refl, sym, ap, ap₂, ◌∙◌, ◌≢◌, Bool,
  true, false, not, ◌&&◌, Option, none, some, List, [], ◌∷◌, arith, ltb, ◌==◌, if◌then◌else◌,
  length, get_or, set, take, drop, u32, u64, length-take, length-drop,
}
use tenclaw.Base.{take-append-drop}
use native.Mathlib.Decide.{ℕ_discrete}
use tenclaw.Memory.{store_bytes}
use tenclaw.Memory.Bytes.{store_bytes-append, store_bytes_agree}
use tenclaw.RawImage.{FileOps}
use tenclaw.Qcow2.{
  Qcow2, Codecs, cluster_size, l2_entries, offset_of, allocate_clusters, zero_clusters,
  write_cluster, update_entry, resolve_offset,
}
use tenclaw.Qcow2.Transfer.{
  in_cluster, chunk_of, old_data, copy_on_write, write_entry, write_indexed, write_chunk,
  write_loop, write,
}
use tenclaw.Qcow2.Cache.{cached}
use tenclaw.Qcow2.Laws.{GrowLaws, with_cache, l1_at, disk_table, either}
use tenclaw.Qcow2.Image.{Valid, disk, entry_of, clusters, cluster_bounds, cluster_in}
use tenclaw.Qcow2.Rebase.{ImageOk-rebase}
use tenclaw.Qcow2.Resolve.{first_index, second_index}
use tenclaw.Qcow2.Reading.{chunk_lem}
use tenclaw.Qcow2.Writing.{put_disk, put_image, put_entries, put_lem, after}
use tenclaw.Qcow2.InPlace.{write_chunk_lem}
use tenclaw.Qcow2.Room.{RoomOk, RoomOk-same, zeros_some}
use tenclaw.Qcow2.Extend.{end_fits, new_file, new_file-Extended}
use tenclaw.Qcow2.NewTable.{new_entry}
use tenclaw.Qcow2.Update.{update_twice}
use tenclaw.Qcow2.NewCluster.{
  with_cluster, entry_now, offset_here, cluster-Valid, cluster-RoomOk, cluster-mapped, cluster-disk,
}
use tenclaw.Qcow2.Ensure.{grown, ensure_any}

module _ {F : Type 0} (ops : FileOps F) (l : GrowLaws ops) (codecs : Codecs) where
  -- A sound image with room for every cluster that it may still need.
  pub record Roomy (q : Qcow2 F) : Type 0 where
    pub valid : Valid ops l q
    pub room : RoomOk q (entry_of ops l q q.file q.l2_lru)

  -- What a write leaves: the image as before, and the bytes written, every other byte as it was.
  pub record Stored (q : Qcow2 F) (x : ℕ) (bytes : List ℕ) (q' : Qcow2 F) : Type 0 where
    pub roomy : Roomy q'
    pub size : q'.virtual_size ≡ q.virtual_size
    pub bytes_of :
        (y : ℕ) → y < q.virtual_size → disk ops l q' y ≡ store_bytes (disk ops l q) x bytes y

  -- The code's own copy-on-write of a cluster that the image has not, without the cuts to 64 bits.
  module _ (q : Qcow2 F) (k : ℕ) (v : Valid ops l q)
      (r : RoomOk q (entry_of ops l q q.file q.l2_lru)) (low : k < clusters ops l q)
      (empty : entry_of ops l q q.file q.l2_lru k ≡ 0) (first : l1_at q (k / l2_entries q) ≢ 0)
      (t : List ℕ) (held : cached (offset_of (l1_at q (k / l2_entries q))) q.l2_lru ≡ some t) where
    room_left : q.file_end + cluster_size q ≤ 2 ^ 56
    room_left = end_fits ops l q v r (
        let s =
          zeros_some (entry_of ops l q q.file q.l2_lru) k (q.l1_size * l2_entries q) low empty in
        omega arith)

    abbrev g : F
    g = new_file ops l q v r

    abbrev q2 : Qcow2 F
    q2 =
        with_cluster ops l q v r k low empty first t held g
          (new_file-Extended ops l q v r room_left)

    copy_lem :
        (x n : ℕ)
        → x / cluster_size q ≡ k
        → copy_on_write ops codecs q x n
            (k / l2_entries q)
            (offset_of (l1_at q (k / l2_entries q)))
            0
          ≡ (q2, q.file_end)
    unfolding copy_on_write allocate_clusters zero_clusters
    copy_lem x n same =
        let b = cluster_bounds ops l q v.bits_from v.bits_to in
        let o = offset_of (l1_at q (k / l2_entries q)) in
        let end_ : u64 (q.file_end + 1 * cluster_size q) ≡ q.file_end + cluster_size q =
          let f = room_left in omega arith in
        let no_copy : (ltb n (cluster_size q) && not (◌==◌ 0 0)) ≡ false = ground arith in
        let index : u32 (x / cluster_size q % l2_entries q) ≡ k % l2_entries q =
          second_index ops l q q.file q.l2_lru x v ∙ ap (λ z. z % l2_entries q) same in
        let longer : ℕ → Qcow2 F = λ a. record q { file_end = a; file = g } in
        let copied : ℕ → Qcow2 F = λ a.
          let found = resolve_offset ops (longer a) (x / cluster_size q * cluster_size q) in
          (write_cluster ops found.0 q.file_end 0 (old_data ops codecs found.0 found.1)).0 in
        let done : Bool → ℕ → ℕ → Qcow2 F × ℕ = λ copy a j.
          let p : Qcow2 F = if copy then copied a else longer a in
          let entered =
            update_entry o (λ e. record e { data_ = set e.data_ j (new_entry q.file_end) })
              p.l2_lru in
          (
            record p {
              l2_lru =
                  update_entry (offset_of (get_or p.l1_table (k / l2_entries q) 0))
                    (λ e. record e { dirty = true }) entered;
            },
            q.file_end,
          ) in
        ap
          (λ c.
            done c (u64 (q.file_end + 1 * cluster_size q))
              (u32 (x / cluster_size q % l2_entries q)))
          no_copy
        ∙ ap₂ (done false) end_ index
        ∙ ap
            (λ c. (
              record q { file_end = q.file_end + cluster_size q; file = g; l2_lru = c },
              q.file_end,
            ))
            (update_twice o (k % l2_entries q) (new_entry q.file_end) q.l2_lru)

    -- A round into a cluster that the image has not.
    write_missing :
        (x : ℕ) (bytes : List ℕ) (in_map : x / cluster_size q < clusters ops l q)
        → x / cluster_size q ≡ k
        → in_cluster q x + length bytes ≤ cluster_size q
        → x + length bytes ≤ q.virtual_size
        → (q' : Qcow2 F) × (write_entry ops codecs q x bytes
              (k / l2_entries q)
              (offset_of (l1_at q (k / l2_entries q)))
              0
            ≡ (q', true))
          × Stored q x bytes q'
    unfolding write_entry
    write_missing x bytes in_map same room h =
        let x_new = new_file-Extended ops l q v r room_left in
        let v2 = cluster-Valid ops l q v r k low empty first t held g x_new in
        let r2 = cluster-RoomOk ops l q v r k low empty first t held g x_new in
        let place = offset_here ops l q v r k low empty first t held g x_new in
        let mapped = cluster-mapped ops l q v r k low empty first t held g x_new in
        let now = entry_now ops l q v r k low empty first t held g x_new in
        let has : now (x / cluster_size q) ≢ 0 = λ z. mapped (sym (ap now same) ∙ z) in
        let at_end : offset_of (now (x / cluster_size q)) ≡ q.file_end =
          ap (λ m. offset_of (now m)) same ∙ place in
        let f = after ops l q2 q2.file q2.l2_lru v2 x bytes in_map has room in
        let q' : Qcow2 F = with_cache q2 f q2.l2_lru in
        let image = put_image ops l q2 q2.file q2.l2_lru v2 x bytes in_map has room in
        (
          q',
          ap (λ p. write_cluster ops p.0 p.1 (in_cluster q x) bytes)
                (copy_lem x (length bytes) same)
              ∙ ap (λ o. write_cluster ops q2 o (in_cluster q x) bytes) (sym at_end)
              ∙ put_lem ops l q2 q2.file q2.l2_lru v2 x bytes in_map has room,
          record {
            roomy = record {
              valid = ImageOk-rebase ops l q2 f q2.l2_lru f q2.l2_lru image;
              room =
                  RoomOk-same q2 f q2.l2_lru now (entry_of ops l q2 f q2.l2_lru)
                    (λ m hm. put_entries ops l q2 q2.file q2.l2_lru v2 x bytes in_map has room m hm)
                    r2;
            };
            size = refl;
            bytes_of = λ y lt.
                put_disk ops l q2 q2.file q2.l2_lru v2 x bytes in_map has room y lt
                ∙ store_bytes_agree q.virtual_size x bytes (disk ops l q2) (disk ops l q)
                    (λ z zl. cluster-disk ops l q v r k low empty first t held g x_new z zl) y lt;
          },
        )

  -- The entry that a cached table has for a cluster.
  cached_entry :
      (q : Qcow2 F) (k : ℕ) (t : List ℕ)
      → l1_at q (k / l2_entries q) ≢ 0
      → cached (offset_of (l1_at q (k / l2_entries q))) q.l2_lru ≡ some t
      → get_or t (k % l2_entries q) 0 ≡ entry_of ops l q q.file q.l2_lru k
  cached_entry q k t first held =
      let n : (l1_at q (k / l2_entries q) == 0) ≡ false = ground arith in
      let o = offset_of (l1_at q (k / l2_entries q)) in
      rw n
        (sym (ap (λ m. get_or (either m (disk_table ops l q q.file o)) (k % l2_entries q) 0) held))

  write_chunk_missing :
      (q : Qcow2 F) (x : ℕ) (bytes : List ℕ)
      → Roomy q
      → x + length bytes ≤ q.virtual_size
      → in_cluster q x + length bytes ≤ cluster_size q
      → x < q.virtual_size
      → entry_of ops l q q.file q.l2_lru (x / cluster_size q) ≡ 0
      → (q' : Qcow2 F) × (write_chunk ops codecs q x bytes ≡ (q', true)) × Stored q x bytes q'
  unfolding write_chunk write_indexed
  write_chunk_missing q x bytes y h room in_disk empty =
      let v = y.valid in
      let in_map = cluster_in ops l q q.file q.l2_lru x v in_disk in
      let k = x / cluster_size q in
      let (e, tbl, f, c, t, p) = ensure_any ops l q k v y.room in_map in
      let q1 : Qcow2 F = grown q e tbl f c in
      let none_yet : entry_of ops l q1 q1.file q1.l2_lru k ≡ 0 = p.entries k in_map ∙ empty in
      let zero_ : get_or t (k % l2_entries q) 0 ≡ 0 =
        cached_entry q1 k t p.first p.held ∙ none_yet in
      let (q', eq, s) =
        write_missing q1 k p.valid p.room in_map none_yet p.first t p.held x bytes in_map refl room
          h in
      let low : ltb q.virtual_size (u64 (x + length bytes)) ≡ false =
        let a = v.size_fits in ground arith in
      let done : Qcow2 F × Option (ℕ × List ℕ) → Qcow2 F × Bool = λ got. elim got.1 [
        | none ↦ (got.0, false)
        | some tb ↦
            write_entry ops codecs got.0 x bytes (k / l2_entries q) tb.0
              (get_or tb.1 (k % l2_entries q) 0)
      ] in
      (
        q',
        ap₂ (write_indexed ops codecs q x bytes) (first_index ops l q q.file q.l2_lru x v in_disk)
              (second_index ops l q q.file q.l2_lru x v)
            ∙ rw low (
                ap done p.result
                ∙ ap
                    (write_entry ops codecs q1 x bytes (k / l2_entries q)
                      (offset_of (l1_at q1 (k / l2_entries q))))
                    zero_
                ∙ eq),
        record {
          roomy = s.roomy;
          size = s.size;
          bytes_of = λ z lt.
              s.bytes_of z lt
              ∙ store_bytes_agree q.virtual_size x bytes (disk ops l q1) (disk ops l q) p.bytes z
                  lt;
        },
      )

  pub write_any_chunk :
      (q : Qcow2 F) (x : ℕ) (bytes : List ℕ)
      → Roomy q
      → 0 < length bytes
      → x + length bytes ≤ q.virtual_size
      → in_cluster q x + length bytes ≤ cluster_size q
      → (q' : Qcow2 F) × (write_chunk ops codecs q x bytes ≡ (q', true)) × Stored q x bytes q'
  write_any_chunk q x bytes y some_ h room =
      let v = y.valid in
      elim (ℕ_discrete (entry_of ops l q q.file q.l2_lru (x / cluster_size q)) 0) [
        | yes empty ↦ write_chunk_missing q x bytes y h room (omega arith) empty
        | no held ↦
            let (f, c, eq, w) = write_chunk_lem ops l codecs q x bytes v some_ h room held in
            (
              with_cache q f c,
              eq,
              record {
                roomy = record {
                  valid = ImageOk-rebase ops l q f c f c w.image;
                  room =
                      RoomOk-same q f c (entry_of ops l q q.file q.l2_lru) (entry_of ops l q f c)
                        w.entries_of y.room;
                };
                size = refl;
                bytes_of = w.bytes_of;
              },
            )
      ]

  write_loop_any :
      (fuel : ℕ) (q : Qcow2 F) (x : ℕ) (bytes : List ℕ)
      → Roomy q
      → x + length bytes ≤ q.virtual_size
      → length bytes ≤ fuel
      → (q' : Qcow2 F) × (write_loop ops codecs fuel q x bytes ≡ (q', true)) × Stored q x bytes q'
  unfolding write_loop store_bytes
  write_loop_any fuel q x [] y h enough = (
    q,
    elim fuel as (λ n. write_loop ops codecs n q x [] ≡ (q, true)) [ zero ↦ refl | suc n ↦ refl ],
    record { roomy = y; size = refl; bytes_of = λ z lt. refl },
  )
  write_loop_any zero q x (b ∷ bs) y h enough = absurd (ground arith)
  write_loop_any (suc fuel) q x (b ∷ bs) y h enough =
      let bytes : List ℕ = b ∷ bs in
      let n = length bytes in
      let chunk = chunk_of q x n in
      let (some_, most, room) = chunk_lem ops l codecs q x n y.valid (omega arith) in
      let now = take chunk bytes in
      let later = drop chunk bytes in
      let size : length now ≡ chunk = length-take chunk bytes ∙ omega arith in
      let left : length later ≡ n - chunk = length-drop chunk bytes in
      let (q1, eq, s) = write_any_chunk q x now y (omega arith) (omega arith) (omega arith) in
      let same = s.size in
      let (q2', eq', s') =
        write_loop_any fuel q1 (x + chunk) later s.roomy (omega arith) (omega arith) in
      let limit = y.valid.size_fits in
      let fits : u64 (x + chunk) ≡ x + chunk = omega arith in
      let pos : (n == 0) ≡ false = ground arith in
      let step : Qcow2 F × Bool → Qcow2 F × Bool = λ p.
        let rest = write_loop ops codecs fuel p.0 (u64 (x + chunk)) later in
        if not p.1 then (p.0, false) else rest in
      let whole : (z : ℕ)
          → store_bytes (disk ops l q) x bytes z
            ≡ store_bytes (store_bytes (disk ops l q) x now) (x + chunk) later z =
        λ z.
          ap (λ t. store_bytes (disk ops l q) x t z) (sym (take-append-drop chunk bytes))
          ∙ ap (λ r. r z) (store_bytes-append (disk ops l q) x now later)
          ∙ ap (λ m. store_bytes (store_bytes (disk ops l q) x now) (x + m) later z) size in
      (
        q2',
        rw pos (ap step eq ∙ ap (λ z. write_loop ops codecs fuel q1 z later) fits ∙ eq'),
        record {
          roomy = s'.roomy;
          size = s'.size ∙ s.size;
          bytes_of = λ z lt.
              s'.bytes_of z (omega arith)
              ∙ store_bytes_agree q.virtual_size (x + chunk) later (disk ops l q1)
                  (store_bytes (disk ops l q) x now) s.bytes_of z lt
              ∙ sym (whole z);
        },
      )

  -- A write inside the disk of a sound image with room succeeds, whichever clusters and tables it has
  -- to allocate, and changes those bytes of the disk alone; the image stays sound, with room for all
  -- that it may still need, and of the same size.
  pub write_lem :
      (q : Qcow2 F) (offset : ℕ) (bytes : List ℕ)
      → Roomy q
      → offset + length bytes ≤ q.virtual_size
      → (q' : Qcow2 F) × (write ops codecs q offset bytes ≡ (q', true))
        × Roomy q'
        × (q'.virtual_size ≡ q.virtual_size)
        × ((x : ℕ)
            → x < q.virtual_size
            → disk ops l q' x ≡ store_bytes (disk ops l q) offset bytes x)
  unfolding write
  write_lem q offset bytes y h =
      let (q', eq, s) = write_loop_any (length bytes) q offset bytes y h (omega arith) in
      (q', eq, s.roomy, s.size, s.bytes_of)
