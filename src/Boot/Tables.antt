-- ===== src/Boot/Tables.antt =====
-- The ACPI tables in the memory that the kernel gets: `LoadLinuxKernel` puts their address into the boot
-- parameters after it has built them.
use tenclaw.Base.{ℕ, ◌+◌, ◌≤◌, ◌<◌, ◌≡◌, refl, sym, subst, ◌∙◌, inl, List, [], ◌∷◌, arith, length}
use tenclaw.Protocol.{codes}
use tenclaw.Memory.{Ram, load32, load64, store_bytes, load_bytes}
use tenclaw.Memory.Words.{store_bytes_frame}
use tenclaw.Memory.Bytes.{load_bytes_agree}
use tenclaw.AcpiTables.{
  VirtioMmioAcpiInfo, rsdp_at, xsdt_at, madt_at, fadt_at, fadt_size, dsdt_at, dsdt_total,
  le64_bytes, build_acpi_tables, build_xsdt, build_rsdp, build_fadt,
}
use tenclaw.AcpiTables.Sums.{IsSealed, IsSealed-agree}
use tenclaw.AcpiTables.Found.{
  tables_from, load32-same, build_acpi_tables_lem, build_acpi_tables-IsSealed, madt_size_found,
  dsdt_size_found,
}
use tenclaw.Boot.{boot_params, put_acpi}
use tenclaw.Boot.Steps.{acpi_pointer}

-- From the RSDP at this address a guest finds the five tables, each of which adds up to 0: the FADT
-- and the MADT by the XSDT and the DSDT by the FADT, with their signatures and with the lengths that
-- their headers name.
pub record FindsTables (r : Ram) (rsdp : ℕ) : Type 0 where
  pub rsdp_sum : IsSealed r rsdp 20 × IsSealed r rsdp 36
  pub xsdt_sum : IsSealed r (load64 r (rsdp + 24)) 52
  pub names : tables_from r rsdp ≡ fadt_at ∷ madt_at ∷ []
  pub facp : load_bytes r fadt_at 4 ≡ codes "FACP"
  pub fadt_sum : IsSealed r fadt_at fadt_size
  pub apic : load_bytes r madt_at 4 ≡ codes "APIC"
  pub madt_sum : IsSealed r madt_at (load32 r (madt_at + 4))
  pub dsdt : load_bytes r (load64 r (fadt_at + 140)) 4 ≡ codes "DSDT"
  pub dsdt_sum : IsSealed r (load64 r (fadt_at + 140)) (load32 r (load64 r (fadt_at + 140) + 4))

module _ (n : ℕ) (devs : List VirtioMmioAcpiInfo) (cpus : n ≤ 23) (few : length devs ≤ 67) where
  abbrev done : Ram → Ram
  done r = put_acpi n devs r

  abbrev built : Ram → Ram
  built r = (build_acpi_tables r n devs).0

  acpi_names : (r : Ram) → tables_from (done r) rsdp_at ≡ fadt_at ∷ madt_at ∷ []
  unfolding put_acpi build_acpi_tables build_rsdp build_xsdt store_bytes
  acpi_names r = refl

  acpi_xsdt : (r : Ram) → load64 (done r) (rsdp_at + 24) ≡ xsdt_at
  unfolding put_acpi build_acpi_tables build_rsdp store_bytes
  acpi_xsdt r = refl

  acpi_dsdt : (r : Ram) → load64 (done r) (fadt_at + 140) ≡ dsdt_at
  unfolding put_acpi build_acpi_tables build_rsdp build_xsdt build_fadt store_bytes
  acpi_dsdt r = refl

  acpi_low : (r : Ram) (x : ℕ) → x < boot_params → done r x ≡ built r x
  unfolding put_acpi build_acpi_tables
  acpi_low r x lo =
      store_bytes_frame (built r) (boot_params + 0x070) (le64_bytes rsdp_at) x (inl (omega arith))

  kept :
      (r : Ram) (at len : ℕ)
      → at + len ≤ boot_params
      → IsSealed (built r) at len
      → IsSealed (done r) at len
  kept r at len h = IsSealed-agree (built r) (done r) at len (λ x lo hi. acpi_low r x (omega arith))

  kept_start :
      (r : Ram) (at : ℕ)
      → at + 4 ≤ boot_params
      → load_bytes (done r) at 4 ≡ load_bytes (built r) at 4
  kept_start r at h =
      load_bytes_agree (done r) (built r) at 4 (λ x lo hi. acpi_low r x (omega arith))

  kept_len : (r : Ram) (at : ℕ) → at + 4 ≤ boot_params → load32 (done r) at ≡ load32 (built r) at
  kept_len r at h = load32-same (done r) (built r) at (λ x lo hi. acpi_low r x (omega arith))

  tables_there : (r : Ram) → FindsTables (done r) rsdp_at
  tables_there r =
      let (_, facp, _, apic, madt_sum, dsdt, dsdt_sum) = build_acpi_tables_lem r n devs cpus few in
      let (short, whole, xsdt_sum, fadt_sum, _, _) = build_acpi_tables-IsSealed r n devs cpus few in
      let madt_len = kept_len r (madt_at + 4) (omega arith) in
      let dsdt_len = kept_len r (dsdt_at + 4) (omega arith) in
      let madt_short = madt_size_found r n devs cpus in
      let dsdt_short = dsdt_size_found r n devs in
      let fits : dsdt_total (length devs) ≤ 4147 = ground arith in
      record {
        rsdp_sum = (kept r rsdp_at 20 (omega arith) short, kept r rsdp_at 36 (omega arith) whole);
        xsdt_sum =
            subst (λ a. IsSealed (done r) a 52) (sym (acpi_xsdt r))
              (kept r xsdt_at 52 (omega arith) xsdt_sum);
        names = acpi_names r;
        facp = kept_start r fadt_at (omega arith) ∙ facp;
        fadt_sum = kept r fadt_at fadt_size (omega arith) fadt_sum;
        apic = kept_start r madt_at (omega arith) ∙ apic;
        madt_sum =
            subst (IsSealed (done r) madt_at) (sym madt_len)
              (kept r madt_at (load32 (built r) (madt_at + 4)) (omega arith) madt_sum);
        dsdt =
            subst (λ a. load_bytes (done r) a 4 ≡ codes "DSDT") (sym (acpi_dsdt r))
              (kept_start r dsdt_at (omega arith) ∙ dsdt);
        dsdt_sum =
            subst (λ a. IsSealed (done r) a (load32 (done r) (a + 4))) (sym (acpi_dsdt r))
              (subst (IsSealed (done r) dsdt_at) (sym dsdt_len)
                (kept r dsdt_at (load32 (built r) (dsdt_at + 4)) (omega arith) dsdt_sum));
      }

  -- The address in the boot parameters leads to the tables.
  pub acpi_found : (r : Ram) → FindsTables (done r) (load64 (done r) (boot_params + 0x70))
  acpi_found r =
      subst (FindsTables (done r)) (sym (acpi_pointer n devs cpus few r)) (tables_there r)
