-- ===== src/AcpiTables/Tests.antt =====
-- The tables of a machine with two processors and one device.
use tenclaw.Base.{◌+◌, ◌≡◌, refl, [], ◌∷◌, arith}
use tenclaw.Memory.{Ram, load_bytes, store_bytes}
use tenclaw.AcpiTables.{
  VirtioMmioAcpiInfo, build_acpi_tables, build_rsdp, build_xsdt, build_fadt, madt_at, fadt_at,
}
use tenclaw.AcpiTables.Found.{build_acpi_tables_lem, tables_from}

abbrev blank : Ram
blank = λ x. 0

abbrev device : VirtioMmioAcpiInfo
device = record { base = 0xd000_0000; size = 0x200; irq = 5 }

build_acpi_tables_lem_example :
    tables_from
      (build_acpi_tables blank 2 (device ∷ [])).0
      (build_acpi_tables blank 2 (device ∷ [])).1
    ≡ fadt_at ∷ madt_at ∷ []
build_acpi_tables_lem_example =
    (build_acpi_tables_lem blank 2 (device ∷ []) (ground arith) (ground arith)).0

-- With 24 processors the last two bytes of the MADT are the start of the FADT's signature.
overwritten : load_bytes (build_acpi_tables blank 24 []).0 (madt_at + 256) 2 ≡ 70 ∷ 65 ∷ []
unfolding build_acpi_tables build_rsdp build_xsdt build_fadt store_bytes load_bytes
overwritten = refl
