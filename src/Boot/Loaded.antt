-- ===== src/Boot/Loaded.antt =====
-- What the kernel finds when it starts.
use tenclaw.Base.{
  ℕ, ◌+◌, ◌*◌, ◌%◌, ◌^◌, ◌≤◌, ◌<◌, ◌≡◌, ◌≢◌, true, none, some, List, arith, ltb, if◌then◌else◌,
  length, take, drop, All,
}
use tenclaw.Memory.{
  Ram, GuestMemMap, load32, load64, store_bytes, load_bytes, align_down, mmio_gap_start,
}
use tenclaw.AcpiTables.{le32_bytes}
use tenclaw.Boot.{
  BootConfig, boot_params, cmdline_max_len, kernel_base, is_bzimage, setup_size, put_header,
  put_cmdline, initrd_addr, put_initrd, e820_entries, e820_bytes, put_e820, put_acpi,
}
use tenclaw.Boot.Tables.{FindsTables}

-- The kernel behind its setup code.
abbrev pub body : List ℕ → List ℕ
body kernel = drop (setup_size kernel) kernel

-- A kernel and an initrd that fit the low memory, and a machine of at most 23 processors and
-- 67 devices.
pub record IsBootable (config : BootConfig) (initrd : List ℕ) : Type 0 where
  pub image : is_bzimage config.kernel ≡ true
  pub kernel_short : length config.kernel < 2 ^ 32
  pub kernel_long : setup_size config.kernel ≤ length config.kernel
  pub has_initrd : config.initrd ≡ some initrd
  pub initrd_some : length initrd ≢ 0
  pub initrd_fits : length initrd ≤ config.mem.low_size
  pub low : config.mem.low_size ≤ mmio_gap_start
  pub kernel_fits : kernel_base + length (body config.kernel) < initrd_addr config.mem initrd
  pub cpus : config.cpu_count ≤ 23
  pub devices : length config.virtio_devs ≤ 67
  pub kernel_bytes : All (λ b. b < 2 ^ 8) (body config.kernel)
  pub initrd_bytes : All (λ b. b < 2 ^ 8) initrd
  pub cmdline_bytes : All (λ b. b < 2 ^ 8) config.cmdline
  pub cmdline_some : length config.cmdline ≢ 0
  pub cmdline_fits : length config.cmdline < cmdline_max_len

-- An initrd larger than the low memory is not refused: its address wraps round to one far past it.
initrd_addr_past :
    (mem : GuestMemMap) (initrd : List ℕ)
    → mem.low_size < length initrd
    → length initrd < 2 ^ 62
    → mem.low_size + 2 ^ 62 < initrd_addr mem initrd
unfolding align_down
initrd_addr_past mem initrd h small = ground arith

module _ (config : BootConfig) (initrd : List ℕ) (b : IsBootable config initrd) where
  abbrev addr : ℕ
  addr = initrd_addr config.mem initrd

  abbrev placed : Ram → Ram
  placed r =
      store_bytes (store_bytes (store_bytes r addr initrd) (boot_params + 0x218) (le32_bytes addr))
        (boot_params + 0x21c) (le32_bytes (length initrd))

  abbrev ready : Ram → Ram
  ready ram =
      put_cmdline config.cmdline
        (put_header config.kernel (store_bytes ram kernel_base (body config.kernel)))

  abbrev finished : Ram → Ram
  finished ram =
      put_acpi config.cpu_count config.virtio_devs (put_e820 config.mem (placed (ready ram)))

  abbrev outcome : Ram → ℕ → Ram × ℕ
  outcome ram size =
      let loaded = store_bytes ram kernel_base (take size (body config.kernel)) in
      let then_ready = put_cmdline config.cmdline (put_header config.kernel loaded) in
      if ltb config.mem.low_size (kernel_base + size)
      then (ram, 0)
      else elim (put_initrd config.mem size (some initrd) then_ready) [
        | none ↦ (then_ready, 0)
        | some filled ↦
            (put_acpi config.cpu_count config.virtio_devs (put_e820 config.mem filled), size)
      ]

-- What the kernel finds in memory `r`, `size` bytes long: its own code, the initrd in whole pages
-- inside the low memory, the command line with a 0 behind it, the map of memory, the ACPI tables.
abbrev pub Starts : BootConfig → List ℕ → Ram → ℕ → Type 0
Starts config initrd r size =
    let at = load32 r (boot_params + 0x218) in
    let line = load32 r (boot_params + 0x228) in
    let es = e820_entries config.mem in
    (size + setup_size config.kernel ≡ length config.kernel)
    × (load_bytes r kernel_base size ≡ body config.kernel)
    × (load32 r (boot_params + 0x21c) ≡ length initrd)
    × (load_bytes r at (length initrd) ≡ initrd)
    × (at + length initrd ≤ config.mem.low_size)
    × (at % 4096 ≡ 0)
    × (load_bytes r line (length config.cmdline) ≡ config.cmdline)
    × (r (line + length config.cmdline) ≡ 0)
    × (r (boot_params + 0x1e8) ≡ length es)
    × (load_bytes r (boot_params + 0x2d0) (20 * length es) ≡ e820_bytes es)
    × FindsTables r (load64 r (boot_params + 0x70))
