-- ===== src/Blk/Config.antt =====
-- The configuration space: the capacity that the driver reads, and how much `ReadConfig` copies.
use tenclaw.Base.{
  ℕ, ◌+◌, ◌-◌, ◌*◌, ◌/◌, ◌^◌, ◌<◌, min, ◌≡◌, refl, arith, length, drop, length-take, length-drop,
}
use tenclaw.Blk.{config_bytes, config_copy, read_config}

-- The two 32-bit reads of the capacity field make up the disk's size in sectors.
pub capacity_lem :
    (disk_size : ℕ)
    → disk_size < 2 ^ 64
    → read_config disk_size 0 4 + 2 ^ 32 * read_config disk_size 4 4 ≡ disk_size / 512
unfolding read_config config_bytes
capacity_lem d h = omega arith

length-config_bytes : (d : ℕ) → length (config_bytes d) ≡ 24
unfolding config_bytes
length-config_bytes d = refl

-- `ReadConfig` never reads past the 24 bytes of the configuration, but it copies as many bytes as
-- the guest's access asks for: an 8-byte access before offset 20 overruns the 4-byte result.
pub config_copy_overrun :
    (disk_size offset size : ℕ)
    → (length (config_copy disk_size offset size) ≡ min size (24 - offset))
      × (4 < size → offset < 20 → 4 < length (config_copy disk_size offset size))
unfolding config_copy
config_copy_overrun d offset size = (copied, λ s o. omega (arith, copied))
  where
    copied : length (config_copy d offset size) ≡ min size (24 - offset)
    copied = ground (
      arith,
      length-take (min size (24 - offset)) (drop offset (config_bytes d)),
      length-drop offset (config_bytes d),
      length-config_bytes d,
    )
