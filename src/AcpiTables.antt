-- ===== src/AcpiTables.antt =====
-- core/arch/x86_64/acpi.h and acpi.cpp: the ACPI tables that the machine writes into guest RAM before
-- it starts. `ram` is host memory from the start of guest RAM, so an address is an offset in it. Each
-- block of constant `memcpy`s is a list of offsets with the bytes that go there.
pub mod Sums
pub mod Places
mod Tests
pub mod Scope
pub mod Found
use tenclaw.Protocol.{codes}
use tenclaw.Base.{
  ℕ, zero, suc, ◌+◌, ◌-◌, ◌*◌, ◌/◌, ◌%◌, ◌^◌, ◌≤◌, ◌<◌, min, ◌≡◌, refl, sym, ap, ap₂, subst, ◌∙◌,
  ◌≢◌, ◌↔◌, ◌⊎◌, inl, inr, Bool, true, false, not, ◌&&◌, ◌||◌, Option, none, some, List, [], ◌∷◌,
  ◌++◌, arith, ltb, leb, ◌==◌, if◌then◌else◌, Bool-cases, Option-cases, length, get_or, set, take,
  drop, replicate, u8, u16, u32, u64, shr, shl, test_bit, set_bit, clear_bit, with_low32,
  with_high32, get_elem?, ==_iff, length-append, length-set, get_or-set_self, get_or-set_ne,
  length-take, length-drop, some_inj, cons_inj, All, modify, length-replicate, length-modify,
  get_or-modify_self, get_or-modify_ne,
}
use tenclaw.Memory.{Ram, store8, store_bytes, load_bytes}

pub record VirtioMmioAcpiInfo : Type 0 where
  pub base : ℕ
  pub size : ℕ
  pub irq : ℕ

-- `AcpiLayout`
abbrev pub rsdp_at : ℕ
rsdp_at = 0x4000

abbrev pub xsdt_at : ℕ
xsdt_at = 0x4100

abbrev pub madt_at : ℕ
madt_at = 0x4200

abbrev pub fadt_at : ℕ
fadt_at = 0x4300

abbrev pub dsdt_at : ℕ
dsdt_at = 0x4500

abbrev pub sum : List ℕ → ℕ
sum [] = 0
sum (b ∷ bs) = b + sum bs

-- `AcpiChecksum`: the 8-bit negation of the 8-bit sum
abbrev pub acpi_checksum : List ℕ → ℕ
acpi_checksum bytes = u8 (2 ^ 8 - u8 (sum bytes))

abbrev pub le16_bytes : ℕ → List ℕ
le16_bytes v = u8 v ∷ u8 (shr v 8) ∷ []

abbrev pub le32_bytes : ℕ → List ℕ
le32_bytes v = u8 v ∷ u8 (shr v 8) ∷ u8 (shr v 16) ∷ u8 (shr v 24) ∷ []

abbrev pub le64_bytes : ℕ → List ℕ
le64_bytes v = le32_bytes v ++ le32_bytes (shr v 32)

-- `memset(at, 0, len)`
abbrev pub clear : Ram → ℕ → ℕ → Ram
clear ram at len = store_bytes ram at (replicate len 0)

-- Bytes that go to an offset.
abbrev pub Field : Type 0
Field = ℕ × List ℕ

abbrev pub put_fields : Ram → ℕ → List Field → Ram
put_fields ram at [] = ram
put_fields ram at (f ∷ fs) = put_fields (store_bytes ram (at + f.0) f.1) at fs

-- `FillHeader`, and where it leaves the checksum
abbrev pub fill_header : List ℕ → ℕ → ℕ → List Field
fill_header signature len revision =
    (0, signature)
    ∷ (4, le32_bytes len)
    ∷ (8, revision ∷ [])
    ∷ (10, codes "TENBOX")
    ∷ (16, codes "TENBOX  ")
    ∷ (24, le32_bytes 1)
    ∷ (28, codes "TNBX")
    ∷ (32, le32_bytes 1)
    ∷ []

abbrev pub header_size : ℕ
header_size = 36

-- `hdr->checksum = AcpiChecksum(buf, len)`
abbrev pub seal : ℕ → ℕ → ℕ → Ram → Ram
seal at field len ram = store8 ram (at + field) (acpi_checksum (load_bytes ram at len))

-- The node of one device, number `i`, in the DSDT.
abbrev pub hex_digit : ℕ → ℕ
hex_digit d = get_or (codes "0123456789ABCDEF") d 0

unfoldable pub device_node : ℕ → VirtioMmioAcpiInfo → List ℕ
device_node i d =
    (0x5b ∷ 0x82 ∷ u8 (1 + 4 + 54) ∷ 86 ∷ 82 ∷ hex_digit (i / 16) ∷ hex_digit (i % 16) ∷ [])
    ++ ((0x08 ∷ codes "_HID")
        ++ ((0x0d ∷ codes "LNRO0005") ++ (0x00 ∷ []))
        ++ ((0x08 ∷ codes "_UID") ++ (0x0a ∷ u8 i ∷ []))
        ++ ((0x08 ∷ codes "_CRS") ++ (0x11 ∷ 0x1a ∷ 0x0a ∷ 0x17 ∷ []))
        ++ ((0x86 ∷ 0x09 ∷ 0x00 ∷ 0x01 ∷ le32_bytes d.base) ++ le32_bytes d.size)
        ++ ((0x89 ∷ 0x06 ∷ 0x00 ∷ 0x01 ∷ 0x01 ∷ le32_bytes d.irq) ++ (0x79 ∷ 0x00 ∷ [])))

abbrev pub device_nodes : ℕ → List VirtioMmioAcpiInfo → List ℕ
device_nodes i [] = []
device_nodes i (d ∷ ds) = device_node i d ++ device_nodes (i + 1) ds

-- `Name(\_S5_, Package(4) { 5, 5, 0, 0 })`
abbrev pub s5_node : List ℕ
s5_node =
    (0x08 ∷ codes "_S5_")
    ++ (0x12 ∷ 0x0a ∷ 0x04 ∷ 0x0a ∷ 0x05 ∷ 0x0a ∷ 0x05 ∷ 0x0a ∷ 0x00 ∷ 0x0a ∷ 0x00 ∷ [])

-- The sizes of the scope `\_SB` that holds `n` devices; `scope_remaining + 1 <= 63`, which decides
-- whether its length takes one byte or two
abbrev pub scope_remaining : ℕ → ℕ
scope_remaining n = u32 (5 + u32 (n * 61))

abbrev pub scope_pkglen_size : ℕ → ℕ
scope_pkglen_size n = if leb (u32 (scope_remaining n + 1)) 63 then 1 else 2

abbrev pub scope_pkglen : ℕ → List ℕ
scope_pkglen n =
    let value = u32 (scope_pkglen_size n + scope_remaining n) in
    if scope_pkglen_size n == 1
    then u8 value ∷ []
    else u8 (value % 16 + 0x40) ∷ u8 (shr value 4) ∷ []

abbrev pub scope_node : List VirtioMmioAcpiInfo → List ℕ
scope_node devs = (0x10 ∷ scope_pkglen (length devs)) ++ (codes "\\_SB_" ++ device_nodes 0 devs)

abbrev pub dsdt_total : ℕ → ℕ
dsdt_total n = u32 (header_size + 16 + (1 + scope_pkglen_size n + scope_remaining n))

unfoldable pub build_dsdt : Ram → List VirtioMmioAcpiInfo → Ram
build_dsdt ram devs =
    let total = dsdt_total (length devs) in
    let filled =
      put_fields (clear ram dsdt_at total) dsdt_at (fill_header (codes "DSDT") total 2) in
    seal dsdt_at 9 total (store_bytes filled (dsdt_at + header_size) (s5_node ++ scope_node devs))

-- The fields of the FADT behind its header
abbrev pub fadt_fields : ℕ → List Field
fadt_fields dsdt_addr =
    (40, le32_bytes dsdt_addr)
    ∷ (46, le16_bytes 9)
    ∷ (56, le32_bytes 0x600)
    ∷ (64, le32_bytes 0x604)
    ∷ (88, 4 ∷ [])
    ∷ (89, 2 ∷ [])
    ∷ (112, le32_bytes (2 ^ 4 + 2 ^ 5 + 2 ^ 10))
    ∷ (116, 1 ∷ 8 ∷ 0 ∷ 1 ∷ [])
    ∷ (120, le64_bytes 0x608)
    ∷ (128, 0x01 ∷ [])
    ∷ (131, 1 ∷ [])
    ∷ (140, le64_bytes dsdt_addr)
    ∷ (148, 1 ∷ 32 ∷ 0 ∷ 3 ∷ [])
    ∷ (152, le64_bytes 0x600)
    ∷ (172, 1 ∷ 16 ∷ 0 ∷ 2 ∷ [])
    ∷ (176, le64_bytes 0x604)
    ∷ []

abbrev pub fadt_size : ℕ
fadt_size = 268

unfoldable pub build_fadt : ℕ → Ram → Ram
build_fadt dsdt_addr ram = seal fadt_at 9 fadt_size (
    put_fields
      (put_fields (clear ram fadt_at fadt_size) fadt_at (fill_header (codes "FACP") fadt_size 5))
      fadt_at (fadt_fields dsdt_addr))

-- `MadtLocalApic` of each CPU from `i` on
abbrev pub local_apics : ℕ → ℕ → List ℕ
local_apics i zero = []
local_apics i (suc n) = (0 ∷ 8 ∷ u8 i ∷ u8 i ∷ []) ++ (le32_bytes 1 ++ local_apics (i + 1) n)

-- `MadtIoApic`, and `MadtIntOverride` of the SCI
abbrev pub madt_end : ℕ → List ℕ
madt_end num_cpus =
    (1 ∷ 12 ∷ u8 num_cpus ∷ 0 ∷ [])
    ++ (le32_bytes 0xfec00000
        ++ (le32_bytes 0 ++ ((2 ∷ 10 ∷ 0 ∷ 9 ∷ []) ++ (le32_bytes 9 ++ le16_bytes 0x000f))))

abbrev pub madt_body : ℕ → List ℕ
madt_body num_cpus =
    le32_bytes 0xfee00000 ++ (le32_bytes 1 ++ (local_apics 0 num_cpus ++ madt_end num_cpus))

abbrev pub madt_length : ℕ → ℕ
madt_length num_cpus = u32 (header_size + length (madt_body num_cpus))

unfoldable pub build_madt : ℕ → Ram → Ram
build_madt num_cpus ram =
    let filled = put_fields (clear ram madt_at 256) madt_at (fill_header (codes "APIC") 0 3) in
    let whole = store_bytes filled (madt_at + header_size) (madt_body num_cpus) in
    seal madt_at 9 (madt_length num_cpus)
      (store_bytes whole (madt_at + 4) (le32_bytes (madt_length num_cpus)))

unfoldable pub build_xsdt : Ram → Ram
build_xsdt ram =
    let filled = put_fields (clear ram xsdt_at 128) xsdt_at (fill_header (codes "XSDT") 0 1) in
    seal xsdt_at 9 52 (
      put_fields filled xsdt_at
        ((36, le64_bytes fadt_at) ∷ (44, le64_bytes madt_at) ∷ (4, le32_bytes 52) ∷ []))

unfoldable pub build_rsdp : Ram → Ram
build_rsdp ram = seal rsdp_at 32 36 (
    seal rsdp_at 8 20 (
      put_fields (clear ram rsdp_at 36) rsdp_at (
        (0, codes "RSD PTR ")
        ∷ (9, codes "TENBOX")
        ∷ (15, 2 ∷ [])
        ∷ (16, le32_bytes 0)
        ∷ (20, le32_bytes 36)
        ∷ (24, le64_bytes xsdt_at)
        ∷ [])))

-- `BuildAcpiTables`: the memory, and the address of the RSDP
unfoldable pub build_acpi_tables : Ram → ℕ → List VirtioMmioAcpiInfo → Ram × ℕ
build_acpi_tables ram num_cpus virtio_devs = (
  build_rsdp (build_xsdt (build_fadt dsdt_at (build_dsdt (build_madt num_cpus ram) virtio_devs))),
  rsdp_at,
)
