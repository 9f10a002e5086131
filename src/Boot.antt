-- ===== src/Boot.antt =====
-- core/arch/x86_64/boot.h and boot.cpp: what the machine writes into guest RAM to start Linux, and the
-- registers of its first processor. `ram` is host memory from the start of guest RAM, so an address
-- is an offset in it. The contents of the kernel's and the initrd's files are parameters; a file that
-- cannot be read is empty.
pub mod Steps
mod Tests
pub mod Registers
pub mod Map
pub mod Loaded
pub mod Tables
use tenclaw.Protocol.{codes, same}
use tenclaw.Base.{
  ℕ, zero, suc, ◌+◌, ◌-◌, ◌*◌, ◌/◌, ◌%◌, ◌^◌, ◌≤◌, ◌<◌, min, ◌≡◌, refl, sym, ap, ap₂, subst, ◌∙◌,
  ◌≢◌, ◌↔◌, ◌⊎◌, inl, inr, Bool, true, false, not, ◌&&◌, ◌||◌, Option, none, some, List, [], ◌∷◌,
  ◌++◌, arith, ltb, leb, ◌==◌, if◌then◌else◌, Bool-cases, Option-cases, length, get_or, set, take,
  drop, replicate, u8, u16, u32, u64, shr, shl, test_bit, set_bit, clear_bit, with_low32,
  with_high32, get_elem?, ==_iff, length-append, length-set, get_or-set_self, get_or-set_ne,
  length-take, length-drop, some_inj, cons_inj, All, modify, length-replicate, length-modify,
  get_or-modify_self, get_or-modify_ne,
}
use tenclaw.Memory.{Ram, GuestMemMap, store8, store32, store_bytes, load_bytes, align_down}
use tenclaw.AcpiTables.{VirtioMmioAcpiInfo, clear, le32_bytes, le64_bytes, build_acpi_tables}

-- `Layout`
abbrev pub gdt_base : ℕ
gdt_base = 0x1000

abbrev pub boot_params : ℕ
boot_params = 0x7000

abbrev pub cmdline_base : ℕ
cmdline_base = 0x10000

abbrev pub cmdline_max_len : ℕ
cmdline_max_len = 0x10000

abbrev pub kernel_base : ℕ
kernel_base = 0x100000

-- `BootConfig`, with what its files hold; `none` is an empty path.
pub record BootConfig : Type 0 where
  pub kernel : List ℕ
  pub initrd : Option (List ℕ)
  pub cmdline : List ℕ
  pub mem : GuestMemMap
  pub cpu_count : ℕ
  pub virtio_devs : List VirtioMmioAcpiInfo

-- The three checks on the kernel's file.
abbrev pub is_bzimage : List ℕ → Bool
is_bzimage kernel =
    not (ltb (length kernel) 1024)
    && (same (take 4 (drop 0x202 kernel)) (codes "HdrS")
        && not (ltb (get_or kernel 0x206 0 + 2 ^ 8 * get_or kernel 0x207 0) 0x0206))

abbrev pub setup_size : List ℕ → ℕ
setup_size kernel =
    let sects = get_or kernel 0x1f1 0 in
    let setup_sects = if sects == 0 then 4 else sects in (1 + setup_sects) * 512

-- `static_cast<uint32_t>(kernel.size()) - setup_size`, in 32 bits
abbrev pub kernel_size : List ℕ → ℕ
kernel_size kernel = u32 (u32 (length kernel) + (2 ^ 32 - setup_size kernel))

-- The setup header of the kernel in the zero page, with the two fields that are patched.
unfoldable pub put_header : List ℕ → Ram → Ram
put_header kernel ram =
    let blank = clear ram boot_params 4096 in
    let header_end = min (setup_size kernel) 0x290 in
    let copied =
      if ltb 0x1f1 header_end
      then store_bytes blank (boot_params + 0x1f1) (take (header_end - 0x1f1) (drop 0x1f1 kernel))
      else blank in
    let typed = store8 copied (boot_params + 0x210) 0xff in
    store8 typed (boot_params + 0x211) (set_bit (typed (boot_params + 0x211)) 0)

unfoldable pub put_cmdline : List ℕ → Ram → Ram
put_cmdline cmdline ram =
    let len = min (length cmdline) (cmdline_max_len - 1) in
    if length cmdline == 0
    then ram
    else store_bytes
        (store8 (store_bytes ram cmdline_base (take len cmdline)) (cmdline_base + len) 0)
        (boot_params + 0x228) (le32_bytes cmdline_base)

abbrev pub initrd_addr : GuestMemMap → List ℕ → ℕ
initrd_addr mem initrd = align_down (u64 (mem.low_size + (2 ^ 64 - length initrd))) 4096

-- `none` is an error.
unfoldable pub put_initrd : GuestMemMap → ℕ → Option (List ℕ) → Ram → Option Ram
put_initrd mem size none ram = some ram
put_initrd mem size (some initrd) ram =
    let addr = initrd_addr mem initrd in
    if length initrd == 0
    then none
    else if leb addr (kernel_base + size)
    then none
    else some (
        store_bytes
          (store_bytes (store_bytes ram addr initrd) (boot_params + 0x218) (le32_bytes addr))
          (boot_params + 0x21c) (le32_bytes (length initrd)))

-- `E820Entry` of RAM
abbrev pub e820_ram : ℕ → ℕ → List ℕ
e820_ram addr size = le64_bytes addr ++ (le64_bytes size ++ le32_bytes 1)

abbrev pub e820_entries : GuestMemMap → List (ℕ × ℕ)
e820_entries mem =
    (0, 0xa0000)
    ∷ (kernel_base, u64 (mem.low_size + (2 ^ 64 - 0x100000)))
    ∷ (if not (mem.high_size == 0) then (mem.high_base, mem.high_size) ∷ [] else [])

abbrev pub e820_bytes : List (ℕ × ℕ) → List ℕ
e820_bytes [] = []
e820_bytes (e ∷ es) = e820_ram e.0 e.1 ++ e820_bytes es

unfoldable pub put_e820 : GuestMemMap → Ram → Ram
put_e820 mem ram =
    store8 (store_bytes ram (boot_params + 0x2d0) (e820_bytes (e820_entries mem)))
      (boot_params + 0x1e8) (length (e820_entries mem))

unfoldable pub put_acpi : ℕ → List VirtioMmioAcpiInfo → Ram → Ram
put_acpi cpu_count virtio_devs ram =
    let (tables, rsdp_addr) = build_acpi_tables ram cpu_count virtio_devs in
    store_bytes tables (boot_params + 0x070) (le64_bytes rsdp_addr)

-- `LoadLinuxKernel`: the memory, and the size of the kernel, 0 on an error
unfoldable pub load_linux_kernel : BootConfig → Ram → Ram × ℕ
load_linux_kernel config ram =
    let size = kernel_size config.kernel in
    let loaded =
      store_bytes ram kernel_base (take size (drop (setup_size config.kernel) config.kernel)) in
    let ready = put_cmdline config.cmdline (put_header config.kernel loaded) in
    if not (is_bzimage config.kernel)
    then (ram, 0)
    else if ltb config.mem.low_size (kernel_base + size)
    then (ram, 0)
    else elim (put_initrd config.mem size config.initrd ready) [
      | none ↦ (ready, 0)
      | some filled ↦
          (put_acpi config.cpu_count config.virtio_devs (put_e820 config.mem filled), size)
    ]
