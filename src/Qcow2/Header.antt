-- ===== src/Qcow2/Header.antt =====
-- `Open`: the header and the first-level table.
use tenclaw.Base.{
  ℕ, ◌+◌, ◌-◌, ◌*◌, ◌/◌, ◌^◌, not, ◌&&◌, ◌||◌, Option, none, some, List, [], ◌∷◌, ◌++◌, ltb, leb,
  ◌==◌, if◌then◌else◌, length, take, drop, replicate, u64,
}
use tenclaw.RawImage.{FileOps}
use tenclaw.Qcow2.{Qcow2, be_value, decode_table}

abbrev pub qcow2_magic : ℕ
qcow2_magic = 0x514649fb

-- A field of the header: so many bytes from an offset, 0 where the file is too short.
unfoldable pub field : List ℕ → ℕ → ℕ → ℕ
field bytes offset size = be_value (take size (drop offset (bytes ++ replicate 104 0)))

-- What the header says of a usable image.
pub record Header : Type 0 where
  pub version : ℕ
  pub cluster_bits : ℕ
  pub size : ℕ
  pub l1_size : ℕ
  pub l1_table_offset : ℕ
  pub compression_type : ℕ

module _ {F : Type 0} (ops : FileOps F) where
  -- The extension of version 3: the compression type, if the header reaches it.
  unfoldable pub read_compression_type : F → ℕ → List ℕ → Option ℕ
  read_compression_type file version bytes =
      let extra = ops.fread file 104 1 in
      if (version == 3) && leb 108 (field bytes 100 4)
      then (elim extra [
        | [] ↦ some 0
        | comp_type ∷ rest ↦ if ltb 1 comp_type then none else some comp_type
      ])
      else some 0

  unfoldable pub read_header : F → Option Header
  read_header file =
      let bytes = ops.fread file 0 104 in
      let version = field bytes 4 4 in
      let cluster_bits = field bytes 20 4 in
      if ltb (length bytes) 72
      then none
      else if not (field bytes 0 4 == qcow2_magic)
      then none
      else if not (version == 2) && not (version == 3)
      then none
      else if not (field bytes 8 8 == 0)
      then none
      else if not (field bytes 32 4 == 0)
      then none
      else if ltb cluster_bits 9 || ltb 21 cluster_bits
      then none
      else elim (read_compression_type file version bytes) [
        | none ↦ none
        | some compression_type ↦ some (record {
          version = version;
          cluster_bits = cluster_bits;
          size = field bytes 24 8;
          l1_size = field bytes 36 4;
          l1_table_offset = field bytes 40 8;
          compression_type = compression_type;
        })
      ]

  unfoldable pub read_l1_table : F → Header → Option (List ℕ)
  read_l1_table file h =
      let bytes = ops.fread file h.l1_table_offset (h.l1_size * 8) in
      if length bytes == h.l1_size * 8 then some (decode_table h.l1_size bytes) else none

  -- `Open`, once `fopen` has succeeded
  unfoldable pub open_qcow2 : F → Option (Qcow2 F)
  open_qcow2 file = elim (read_header file) [
    | none ↦ none
    | some h ↦ elim (read_l1_table file h) [
      | none ↦ none
      | some l1 ↦ some (record {
        file = file;
        virtual_size = h.size;
        cluster_bits = h.cluster_bits;
        l1_size = h.l1_size;
        l1_table_offset = h.l1_table_offset;
        version = h.version;
        l1_table = l1;
        file_end =
            u64 (ops.length_of file + 2 ^ h.cluster_bits - 1)
            / 2 ^ h.cluster_bits
            * 2 ^ h.cluster_bits;
        compression_type = h.compression_type;
        l2_lru = [];
      })
    ]
  ]
