-- ===== src/Qcow2/Transfer.antt =====
-- `Read`, `Write` and `Flush`, cluster by cluster.
use tenclaw.Base.{
  ℕ, zero, suc, ◌+◌, ◌-◌, ◌*◌, ◌/◌, ◌%◌, min, Bool, true, false, not, ◌&&◌, ◌||◌, none, some, List,
  [], ◌∷◌, ◌++◌, ltb, ◌==◌, if◌then◌else◌, length, get_or, set, take, drop, replicate, u32, u64,
  set_bit,
}
use tenclaw.Disk.{DiskOps}
use tenclaw.RawImage.{FileOps}
use tenclaw.Qcow2.{
  Qcow2, L2CacheEntry, Codecs, Place, nowhere, packed, at, cluster_size, l2_entries, offset_of,
  is_compressed, update_entry, write_table, resolve_offset, read_cluster, write_cluster,
  read_compressed_cluster, allocate_cluster, ensure_l2_table,
}

-- `offset & (cluster_size_ - 1)`, and how much of a request lies in the cluster of its offset
abbrev pub in_cluster : {F : Type 0} → Qcow2 F → ℕ → ℕ
in_cluster q offset = offset % cluster_size q

abbrev pub chunk_of : {F : Type 0} → Qcow2 F → ℕ → ℕ → ℕ
chunk_of q offset len = min len (u32 (cluster_size q - in_cluster q offset))

module _ {F : Type 0} (ops : FileOps F) (codecs : Codecs) where
  -- The part of one round of `Read` that depends on where the cluster is.
  unfoldable pub read_place : Qcow2 F → Place → ℕ → ℕ → Bool × List ℕ
  read_place q (packed off size) in_off chunk =
      elim (read_compressed_cluster ops codecs q off size in_off chunk) [
        | none ↦ (false, [])
        | some bytes ↦ (true, bytes)
      ]
  read_place q nowhere in_off chunk = (true, replicate chunk 0)
  read_place q (at host_off) in_off chunk =
      if host_off == 0 then (true, replicate chunk 0) else read_cluster ops q host_off in_off chunk

  -- One round of the loop of `Read`: whether it went well, and the bytes that it put into the buffer.
  unfoldable pub read_chunk : Qcow2 F → ℕ → ℕ → Qcow2 F × Bool × List ℕ
  read_chunk q offset chunk =
      let (q', place) = resolve_offset ops q offset in
      if ltb q.virtual_size (u64 (offset + chunk))
      then (q, false, [])
      else (let (good, bytes) = read_place q' place (in_cluster q offset) chunk in
          (q', good, bytes))

  -- The loop, on fuel.
  unfoldable pub read_loop : ℕ → Qcow2 F → ℕ → ℕ → Qcow2 F × Bool × List ℕ
  read_loop zero q offset len = (q, len == 0, [])
  read_loop (suc fuel) q offset len =
      let chunk = chunk_of q offset len in
      let (q', good, bytes) = read_chunk q offset chunk in
      let (q'', good', rest) = read_loop fuel q' (u64 (offset + chunk)) (len - chunk) in
      if len == 0
      then (q, true, [])
      else if not good
      then (q', false, bytes)
      else (q'', good', bytes ++ rest)

  -- Every round but the last ends at a cluster's end, so there are at most as many as bytes.
  unfoldable pub read : Qcow2 F → ℕ → ℕ → Qcow2 F × Bool × List ℕ
  read q offset len = read_loop len q offset len

  -- The old contents of a cluster that is about to be replaced, zeros where it cannot be read.
  unfoldable pub old_data : Qcow2 F → Place → List ℕ
  old_data q (packed off size) =
      elim (read_compressed_cluster ops codecs q off size 0 (cluster_size q)) [
        | none ↦ replicate (cluster_size q) 0
        | some bytes ↦ bytes
      ]
  old_data q nowhere = replicate (cluster_size q) 0
  old_data q (at host_off) =
      let (good, bytes) = read_cluster ops q host_off 0 (cluster_size q) in
      if host_off == 0
      then replicate (cluster_size q) 0
      else bytes ++ drop (length bytes) (replicate (cluster_size q) 0)

  -- `if (need_cow)`: a new cluster, with the old contents if some of them stay, and its entry.
  unfoldable pub copy_on_write : Qcow2 F → ℕ → ℕ → ℕ → ℕ → ℕ → Qcow2 F × ℕ
  copy_on_write q offset chunk l1_idx l2_off entry =
      let (q1, data_off) = allocate_cluster ops q in
      let (r, place) = resolve_offset ops q1 (offset / cluster_size q * cluster_size q) in
      let q2 : Qcow2 F =
        if ltb chunk (cluster_size q) && not (entry == 0)
        then (write_cluster ops r data_off 0 (old_data r place)).0
        else q1 in
      let l2_idx = u32 (offset / cluster_size q % l2_entries q) in
      let entered =
        update_entry l2_off (λ e. record e { data_ = set e.data_ l2_idx (set_bit data_off 63) })
          q2.l2_lru in
      let l2_table_off = offset_of (get_or q2.l1_table l1_idx 0) in
      (
        record q2 { l2_lru = update_entry l2_table_off (λ e. record e { dirty = true }) entered },
        data_off,
      )

  -- A round of `Write` once it has the entry: in place, or into a new cluster.
  unfoldable pub write_entry : Qcow2 F → ℕ → List ℕ → ℕ → ℕ → ℕ → Qcow2 F × Bool
  write_entry q offset bytes l1_idx l2_off entry =
      let fresh = copy_on_write q offset (length bytes) l1_idx l2_off entry in
      if (entry == 0) || is_compressed entry
      then write_cluster ops fresh.0 fresh.1 (in_cluster q offset) bytes
      else write_cluster ops q (offset_of entry) (in_cluster q offset) bytes

  -- And once it has the indices into the two levels.
  unfoldable pub write_indexed : Qcow2 F → ℕ → List ℕ → ℕ → ℕ → Qcow2 F × Bool
  write_indexed q offset bytes l1_idx l2_idx =
      let got = ensure_l2_table ops q l1_idx in
      if ltb q.virtual_size (u64 (offset + length bytes)) then (q, false) else elim got.1 [
        | none ↦ (got.0, false)
        | some table ↦ write_entry got.0 offset bytes l1_idx table.0 (get_or table.1 l2_idx 0)
      ]

  -- One round of the loop of `Write`.
  unfoldable pub write_chunk : Qcow2 F → ℕ → List ℕ → Qcow2 F × Bool
  write_chunk q offset bytes =
      write_indexed q offset bytes (u32 (offset / (l2_entries q * cluster_size q)))
        (u32 (offset / cluster_size q % l2_entries q))

  unfoldable pub write_loop : ℕ → Qcow2 F → ℕ → List ℕ → Qcow2 F × Bool
  write_loop zero q offset bytes = (q, length bytes == 0)
  write_loop (suc fuel) q offset bytes =
      let chunk = chunk_of q offset (length bytes) in
      let (q', good) = write_chunk q offset (take chunk bytes) in
      let rest = write_loop fuel q' (u64 (offset + chunk)) (drop chunk bytes) in
      if length bytes == 0 then (q, true) else if not good then (q', false) else rest

  unfoldable pub write : Qcow2 F → ℕ → List ℕ → Qcow2 F × Bool
  write q offset bytes = write_loop (length bytes) q offset bytes

-- The loop of `Flush`: the file and the cache after it.
unfoldable pub flush_entries :
    {F : Type 0} → FileOps F → List L2CacheEntry → F → F × List L2CacheEntry
flush_entries ops [] file = (file, [])
flush_entries ops (e ∷ es) file =
    let written = if e.dirty then write_table ops e file else file in
    let (file', es') = flush_entries ops es written in (file', record e { dirty = false } ∷ es')

-- `Flush` of an open image, which ignores what `fwrite` and `fflush` return.
unfoldable pub flush : {F : Type 0} → FileOps F → Qcow2 F → Qcow2 F × Bool
flush ops q =
    let (file, lru) = flush_entries ops q.l2_lru q.file in
    (record q { file = (ops.fflush file).0; l2_lru = lru }, true)

abbrev pub qcow2_disk : {F : Type 0} → FileOps F → Codecs → DiskOps (Qcow2 F)
qcow2_disk ops codecs = record {
  get_size = λ q. q.virtual_size;
  read = read ops codecs;
  write = write ops codecs;
  flush = flush ops;
}
