-- ===== src/Qcow2/Tests.antt =====
-- Reads, writes and an opening of the sample image, and the theorems at it.
use tenclaw.Base.{All}
use tenclaw.Base.{ℕ, ◌%◌, ◌<◌, ◌≡◌, refl, true, false, some, [], ◌∷◌, arith}
use tenclaw.Memory.{load_bytes, store_bytes}
use tenclaw.Qcow2.{Qcow2, decode_table}
use tenclaw.Qcow2.Header.{open_qcow2, read_header, read_l1_table, read_compression_type, field}
use tenclaw.Qcow2.Transfer.{flush, read, write}
use tenclaw.Qcow2.Image.{disk_byte, Valid, disk}
use tenclaw.Qcow2.Reading.{read_lem}
use tenclaw.Qcow2.Opening.{open_qcow2_lem}
use tenclaw.Qcow2.Flushing.{flush_lem}
use tenclaw.Qcow2.Growing.{Roomy, write_lem}
use tenclaw.Qcow2.SampleRoom.{image-Roomy}
use tenclaw.Qcow2.Sample.{
  changed, changed-Valid, GrowFile, grow_file, grow_laws, image, image-Valid, no_codecs,
}

open_sample : open_qcow2 grow_file image.file ≡ some image
unfolding field open_qcow2 read_header read_l1_table read_compression_type decode_table load_bytes
open_sample = refl

read_lem_example :
    (q' : Qcow2 GrowFile) × (read grow_file no_codecs image 510 4
      ≡ (q', true, load_bytes (disk grow_file grow_laws image) 510 4))
    × Valid grow_file grow_laws q'
    × (q'.virtual_size ≡ 1024)
    × ((x : ℕ) → x < 1024 → disk grow_file grow_laws q' x ≡ disk grow_file grow_laws image x)
read_lem_example = read_lem grow_file grow_laws no_codecs image 510 4 image-Valid (ground arith)

-- The bytes lie on both sides of the end of the first cluster, and the second is not there yet.
write_lem_example :
    (q' : Qcow2 GrowFile) × (write grow_file no_codecs image 510 (7 ∷ 8 ∷ 9 ∷ []) ≡ (q', true))
    × Roomy grow_file grow_laws no_codecs q'
    × (q'.virtual_size ≡ 1024)
    × ((x : ℕ)
        → x < 1024
        → disk grow_file grow_laws q' x
          ≡ store_bytes (disk grow_file grow_laws image) 510 (7 ∷ 8 ∷ 9 ∷ []) x)
write_lem_example =
    write_lem grow_file grow_laws no_codecs image 510 (7 ∷ 8 ∷ 9 ∷ []) image-Roomy (ground arith)

open_qcow2_lem_example : image.file_end % 512 ≡ 0
open_qcow2_lem_example = (open_qcow2_lem grow_file image.file image open_sample (ground arith)).7

flush_lem_example :
    (q' : Qcow2 GrowFile) × (flush grow_file changed ≡ (q', true))
    × Valid grow_file grow_laws q'
    × All (λ e. e.dirty ≡ false) q'.l2_lru
    × ((x : ℕ) → x < 1024 → disk grow_file grow_laws q' x ≡ disk grow_file grow_laws changed x)
    × ((x : ℕ)
        → x < 1024
        → disk_byte grow_file grow_laws q' q'.file [] x ≡ disk grow_file grow_laws changed x)
flush_lem_example = flush_lem grow_file grow_laws changed changed-Valid
