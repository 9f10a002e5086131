-- ===== src/Qcow2.antt =====
-- core/device/virtio/qcow2.h and qcow2.cpp: a disk image of clusters behind two levels of tables.
-- The C library's file is the parameter of the raw image; zlib and zstd are the functions of
-- `Codecs`. A read or write of the file here is a seek and the transfer: the source ignores the
-- result of the seek. The hash map of the cache only finds a table in the list, so the list is all of it.
pub mod SampleRoom
pub mod Contract
pub mod Header
pub mod Transfer
pub mod Opening
pub mod Codec
pub mod Cache
pub mod Laws
pub mod Evict
pub mod Lookup
pub mod Image
pub mod Rebase
pub mod Resolve
pub mod Reading
pub mod Writing
pub mod InPlace
pub mod NewTable
pub mod Update
pub mod NewCluster
pub mod Ensure
pub mod Growing
pub mod Room
pub mod Extend
pub mod Flushing
pub mod Sample
mod Tests
use tenclaw.Base.{
  ℕ, zero, suc, ◌+◌, ◌-◌, ◌*◌, ◌/◌, ◌%◌, ◌^◌, ◌≤◌, ◌<◌, min, ◌≡◌, refl, sym, ap, ap₂, subst, ◌∙◌,
  ◌≢◌, ◌↔◌, ◌⊎◌, inl, inr, Bool, true, false, not, ◌&&◌, ◌||◌, Option, none, some, List, [], ◌∷◌,
  ◌++◌, arith, ltb, leb, ◌==◌, if◌then◌else◌, Bool-cases, Option-cases, length, get_or, set, take,
  drop, replicate, u8, u16, u32, u64, shr, shl, test_bit, set_bit, clear_bit, with_low32,
  with_high32, get_elem?, ==_iff, length-append, length-set, get_or-set_self, get_or-set_ne,
  length-take, length-drop, some_inj, cons_inj, All, modify, length-replicate, length-modify,
  get_or-modify_self, get_or-modify_ne,
}
use tenclaw.RawImage.{FileOps}

pub record L2CacheEntry : Type 0 where
  pub l2_offset : ℕ
  pub data_ : List ℕ
  pub dirty : Bool

pub record Qcow2 (F : Type 0) : Type 0 where
  pub file : F
  pub virtual_size : ℕ
  pub cluster_bits : ℕ
  pub l1_size : ℕ
  pub l1_table_offset : ℕ
  pub version : ℕ
  pub l1_table : List ℕ
  pub file_end : ℕ
  pub compression_type : ℕ
  -- most recently used first
  pub l2_lru : List L2CacheEntry

-- Decompression into a buffer of that many bytes: `none` is an error, `some` the buffer.
pub record Codecs : Type 0 where
  pub zstd_stream : ℕ → List ℕ → Option (List ℕ)
  pub uncompress : ℕ → List ℕ → Option (List ℕ)
  pub inflate_raw : ℕ → List ℕ → Option (List ℕ)

-- Where a cluster of the disk is: `nowhere` yet, compressed, or at an offset of the file.
pub data Place : Type 0 where
  nowhere : Place
  packed : ℕ → ℕ → Place
  at : ℕ → Place

abbrev pub cluster_size : {F : Type 0} → Qcow2 F → ℕ
cluster_size q = 2 ^ q.cluster_bits

abbrev pub l2_entries : {F : Type 0} → Qcow2 F → ℕ
l2_entries q = cluster_size q / 8

abbrev pub l2_cache_max : ℕ
l2_cache_max = 64

-- `entry & kOffsetMask`: bits 9 to 55.
abbrev pub offset_of : ℕ → ℕ
offset_of entry = entry % 2 ^ 56 / 2 ^ 9 * 2 ^ 9

abbrev pub is_compressed : ℕ → Bool
is_compressed entry = test_bit entry 62

-- `Be16`, `Be32` and `Be64` of a value as it lies in the file: its bytes, the highest first.
abbrev pub be_from : ℕ → List ℕ → ℕ
be_from acc [] = acc
be_from acc (b ∷ bs) = be_from (acc * 2 ^ 8 + b) bs

abbrev pub be_value : List ℕ → ℕ
be_value bs = be_from 0 bs

abbrev pub be64_bytes : ℕ → List ℕ
be64_bytes v =
    u8 (v / 2 ^ 56)
    ∷ u8 (v / 2 ^ 48)
    ∷ u8 (v / 2 ^ 40)
    ∷ u8 (v / 2 ^ 32)
    ∷ u8 (v / 2 ^ 24)
    ∷ u8 (v / 2 ^ 16)
    ∷ u8 (v / 2 ^ 8)
    ∷ u8 v
    ∷ []

-- The loops that convert a table from and to the file's byte order.
unfoldable pub decode_table : ℕ → List ℕ → List ℕ
decode_table zero bytes = []
decode_table (suc n) bytes = be_value (take 8 bytes) ∷ decode_table n (drop 8 bytes)

unfoldable pub encode_table : List ℕ → List ℕ
encode_table [] = []
encode_table (v ∷ vs) = be64_bytes v ++ encode_table vs

-- `l2_map_.find`, and `splice` to the front: the entry, and the others in their order.
unfoldable pub find_entry : ℕ → List L2CacheEntry → Option (L2CacheEntry × List L2CacheEntry)
find_entry offset [] = none
find_entry offset (e ∷ es) =
    let later = find_entry offset es in
    if e.l2_offset == offset
    then some (e, es)
    else elim later [ none ↦ none | some found ↦ some (found.0, e ∷ found.1) ]

abbrev pub last_entry : L2CacheEntry → List L2CacheEntry → L2CacheEntry
last_entry e [] = e
last_entry e (d ∷ ds) = last_entry d ds

abbrev pub but_last_entry : List L2CacheEntry → List L2CacheEntry
but_last_entry [] = []
but_last_entry (e ∷ []) = []
but_last_entry (e ∷ d ∷ ds) = e ∷ but_last_entry (d ∷ ds)

-- `EnsureL2Table` leaves a pointer into the cache; the entry that it points to is known by its offset.
abbrev pub update_entry : ℕ → (L2CacheEntry → L2CacheEntry) → List L2CacheEntry → List L2CacheEntry
update_entry offset f [] = []
update_entry offset f (e ∷ es) =
    let later = update_entry offset f es in if e.l2_offset == offset then f e ∷ es else e ∷ later

module _ {F : Type 0} (ops : FileOps F) where
  abbrev pub write_table : L2CacheEntry → F → F
  write_table e file = (ops.fwrite file e.l2_offset (encode_table e.data_)).0

  -- `EvictL2Cache`
  unfoldable pub evict : Qcow2 F → Qcow2 F
  evict q = elim q.l2_lru [
    | [] ↦ q
    | e ∷ es ↦
        let victim = last_entry e es in
        record q {
          file = if victim.dirty then write_table victim q.file else q.file;
          l2_lru = but_last_entry (e ∷ es);
        }
  ]

  -- `while (l2_lru_.size() >= kL2CacheMax)`, over as many rounds as there are entries
  unfoldable pub make_room : ℕ → Qcow2 F → Qcow2 F
  make_room zero q = q
  make_room (suc rounds) q =
      let next = make_room rounds (evict q) in
      if leb l2_cache_max (length q.l2_lru) then next else q

  unfoldable pub load_l2 : Qcow2 F → ℕ → Qcow2 F × Option (List ℕ)
  load_l2 q l2_offset =
      let bytes = ops.fread q.file l2_offset (8 * l2_entries q) in
      let table = decode_table (l2_entries q) bytes in
      if length bytes == 8 * l2_entries q
      then (
        record q {
          l2_lru = record { l2_offset = l2_offset; data_ = table; dirty = false } ∷ q.l2_lru;
        },
        some table,
      )
      else (q, none)

  unfoldable pub get_l2_table : Qcow2 F → ℕ → Qcow2 F × Option (List ℕ)
  get_l2_table q l2_offset = elim (find_entry l2_offset q.l2_lru) [
    | some found ↦ (record q { l2_lru = found.0 ∷ found.1 }, some found.0.data_)
    | none ↦ load_l2 (make_room (length q.l2_lru) q) l2_offset
  ]

  -- The end of `ResolveOffset`: what an entry says.
  unfoldable pub place_of : ℕ → ℕ → Place
  place_of cluster_bits entry =
      let csize_shift = 62 - (cluster_bits - 8) in
      let nb_csectors = u32 (shr entry csize_shift % 2 ^ (cluster_bits - 8) + 1) in
      if entry == 0
      then nowhere
      else if is_compressed entry
      then packed (entry % 2 ^ csize_shift) (u32 (nb_csectors * 512))
      else at (offset_of entry)

  -- `ResolveOffset` once it has the indices into the two levels
  unfoldable pub look_up : Qcow2 F → ℕ → ℕ → Qcow2 F × Place
  look_up q l1_idx l2_idx =
      let l1_entry = get_or q.l1_table l1_idx 0 in
      let got = get_l2_table q (offset_of l1_entry) in
      if leb q.l1_size l1_idx
      then (q, nowhere)
      else if l1_entry == 0
      then (q, nowhere)
      else elim got.1 [
        | none ↦ (got.0, nowhere)
        | some l2 ↦ (got.0, place_of q.cluster_bits (get_or l2 l2_idx 0))
      ]

  unfoldable pub resolve_offset : Qcow2 F → ℕ → Qcow2 F × Place
  resolve_offset q virt_offset =
      look_up q (u32 (virt_offset / (l2_entries q * cluster_size q)))
        (u32 (virt_offset / cluster_size q % l2_entries q))

  unfoldable pub read_cluster : Qcow2 F → ℕ → ℕ → ℕ → Bool × List ℕ
  read_cluster q host_off in_cluster_off len =
      let bytes = ops.fread q.file (u64 (host_off + in_cluster_off)) len in
      (length bytes == len, bytes)

  unfoldable pub write_cluster : Qcow2 F → ℕ → ℕ → List ℕ → Qcow2 F × Bool
  write_cluster q host_off in_cluster_off bytes =
      let put = ops.fwrite q.file (u64 (host_off + in_cluster_off)) bytes in
      (record q { file = put.0 }, put.1 == length bytes)

  unfoldable pub decompress : Codecs → Qcow2 F → List ℕ → Option (List ℕ)
  decompress codecs q comp_buf =
      let plain = codecs.uncompress (cluster_size q) comp_buf in
      if q.compression_type == 1
      then codecs.zstd_stream (cluster_size q) comp_buf
      else if q.compression_type == 0
      then elim plain [ some out ↦ some out | none ↦ codecs.inflate_raw (cluster_size q) comp_buf ]
      else none

  unfoldable pub read_compressed_cluster : Codecs → Qcow2 F → ℕ → ℕ → ℕ → ℕ → Option (List ℕ)
  read_compressed_cluster codecs q comp_host_off comp_size in_cluster_off len =
      let comp_buf = ops.fread q.file comp_host_off comp_size in
      if not (length comp_buf == comp_size) then none else elim (decompress codecs q comp_buf) [
        | none ↦ none
        | some out ↦
            if ltb (cluster_size q) (in_cluster_off + len)
            then none
            else some (take len (drop in_cluster_off out))
      ]

  -- `AllocateClusters`: the file grows by clusters of zeros, at the end that the image keeps.
  unfoldable pub zero_clusters : ℕ → ℕ → ℕ → F → F
  zero_clusters zero offset size file = file
  zero_clusters (suc count) offset size file =
      zero_clusters count (u64 (offset + size)) size (ops.fwrite file offset (replicate size 0)).0

  unfoldable pub allocate_clusters : Qcow2 F → ℕ → Qcow2 F × ℕ
  allocate_clusters q count = (
    record q {
      file_end = u64 (q.file_end + count * cluster_size q);
      file = zero_clusters count q.file_end (cluster_size q) q.file;
    },
    q.file_end,
  )

  abbrev pub allocate_cluster : Qcow2 F → Qcow2 F × ℕ
  allocate_cluster q = allocate_clusters q 1

  -- The table for an index of the first level: the image, and the offset and the entries of the table.
  unfoldable pub ensure_l2_table : Qcow2 F → ℕ → Qcow2 F × Option (ℕ × List ℕ)
  ensure_l2_table q l1_idx =
      let l1_entry = get_or q.l1_table l1_idx 0 in
      if leb q.l1_size l1_idx
      then (q, none)
      else if not (l1_entry == 0)
      then (let got = get_l2_table q (offset_of l1_entry) in
          (got.0, elim got.1 [ none ↦ none | some l2 ↦ some (offset_of l1_entry, l2) ]))
      else (let (q1, new_l2_off) = allocate_cluster q in
          let entry = set_bit new_l2_off 63 in
          let q2 : Qcow2 F = record q1 {
            l1_table = set q1.l1_table l1_idx entry;
            file =
                (ops.fwrite q1.file (u64 (q1.l1_table_offset + l1_idx * 8)) (be64_bytes entry)).0;
          } in
          let got = get_l2_table q2 new_l2_off in
          (got.0, elim got.1 [ none ↦ none | some l2 ↦ some (new_l2_off, l2) ]))
