-- ===== src/AcpiTables/Found.antt =====
-- What the guest finds from the address that it is given.
use tenclaw.Base.{
  ℕ, zero, suc, ◌+◌, ◌-◌, ◌*◌, ◌/◌, ◌≤◌, ◌<◌, ◌≡◌, refl, sym, subst, ◌∙◌, inl, inr, List, [], ◌∷◌,
  ◌++◌, arith, length,
}
use tenclaw.Protocol.{codes}
use tenclaw.Memory.{Ram, load32, load64, store_bytes, load_bytes}
use tenclaw.Memory.Words.{store_bytes_frame}
use tenclaw.Memory.Bytes.{load_bytes_agree}
use tenclaw.AcpiTables.{
  VirtioMmioAcpiInfo, rsdp_at, xsdt_at, madt_at, fadt_at, dsdt_at, fadt_size, put_fields, clear,
  fill_header, header_size, le32_bytes, madt_body, madt_length, build_madt, build_dsdt, build_fadt,
  build_xsdt, build_rsdp, build_acpi_tables, s5_node, scope_node, dsdt_total,
}
use tenclaw.AcpiTables.Sums.{IsSealed, IsSealed-agree, seal_outside}
use tenclaw.AcpiTables.Places.{
  Off, fadt-IsSealed, fadt_outside, xsdt-IsSealed, xsdt_outside, rsdp-IsSealed, rsdp_outside,
  madt-IsSealed, madt-length_lem, dsdt-IsSealed, dsdt_below,
}

-- Every table after the MADT and the DSDT
pub later_outside :
    (r : Ram) (x : ℕ)
    → Off fadt_at fadt_size x
    → Off xsdt_at 128 x
    → Off rsdp_at 36 x
    → build_rsdp (build_xsdt (build_fadt dsdt_at r)) x ≡ r x
later_outside r x a b c =
    rsdp_outside (build_xsdt (build_fadt dsdt_at r)) x c
    ∙ xsdt_outside (build_fadt dsdt_at r) x b
    ∙ fadt_outside dsdt_at r x a

module _ (ram : Ram) (n : ℕ) (devs : List VirtioMmioAcpiInfo) where
  -- With at most 23 processors and 67 devices each of the five tables, as memory holds it in the end,
  -- adds up to 0 over its length, and so do the first 20 bytes of the RSDP: no table overwrites
  -- another.
  pub build_acpi_tables-IsSealed :
      n ≤ 23
      → length devs ≤ 67
      → let r = (build_acpi_tables ram n devs).0 in
        IsSealed r rsdp_at 20
        × IsSealed r rsdp_at 36
        × IsSealed r xsdt_at 52
        × IsSealed r fadt_at fadt_size
        × IsSealed r madt_at (66 + 8 * n)
        × IsSealed r dsdt_at (dsdt_total (length devs))
  unfolding build_acpi_tables
  build_acpi_tables-IsSealed cpus fits =
      let r0 = build_madt n ram in
      let r1 = build_dsdt r0 devs in
      let r2 = build_fadt dsdt_at r1 in
      let r3 = build_xsdt r2 in
      let r4 = build_rsdp r3 in
      let (short, whole) = rsdp-IsSealed r3 in
      (
        short,
        whole,
        IsSealed-agree r3 r4 xsdt_at 52 (λ x lo hi. rsdp_outside r3 x (inr (omega arith)))
            (xsdt-IsSealed r2),
        IsSealed-agree r2 r4 fadt_at fadt_size
            (λ x lo hi.
              rsdp_outside r3 x (inr (omega arith)) ∙ xsdt_outside r2 x (inr (omega arith)))
            (fadt-IsSealed dsdt_at r1),
        IsSealed-agree r0 r4 madt_at (66 + 8 * n)
            (λ x lo hi.
              later_outside r1 x (inl (omega arith)) (inr (omega arith)) (inr (omega arith))
              ∙ dsdt_below r0 devs x (omega arith))
            (madt-IsSealed n ram cpus),
        IsSealed-agree r1 r4 dsdt_at (dsdt_total (length devs))
            (λ x lo hi.
              later_outside r1 x (inr (omega arith)) (inr (omega arith)) (inr (omega arith)))
            (dsdt-IsSealed r0 devs fits),
      )

-- The tables that the XSDT names, as a guest reads them from the address of the RSDP.
abbrev words64 : Ram → ℕ → ℕ → List ℕ
words64 r at zero = []
words64 r at (suc n) = load64 r at ∷ words64 r (at + 8) n

abbrev pub tables_from : Ram → ℕ → List ℕ
tables_from r rsdp =
    let xsdt = load64 r (rsdp + 24) in words64 r (xsdt + 36) ((load32 r (xsdt + 4) - 36) / 8)

xsdt-tables : (r : Ram) → tables_from (build_rsdp (build_xsdt r)) rsdp_at ≡ fadt_at ∷ madt_at ∷ []
unfolding build_rsdp build_xsdt store_bytes
xsdt-tables r = refl

fadt-signature :
    (r : Ram) → load_bytes (build_rsdp (build_xsdt (build_fadt dsdt_at r))) fadt_at 4 ≡ codes "FACP"
unfolding build_rsdp build_xsdt build_fadt store_bytes load_bytes
fadt-signature r = refl

fadt-dsdt :
    (r : Ram) → load64 (build_rsdp (build_xsdt (build_fadt dsdt_at r))) (fadt_at + 140) ≡ dsdt_at
unfolding build_rsdp build_xsdt build_fadt store_bytes
fadt-dsdt r = refl

pub load32-same :
    (r s : Ram) (at : ℕ) → ((x : ℕ) → at ≤ x → x < at + 4 → r x ≡ s x) → load32 r at ≡ load32 s at
load32-same r s at h =
    let a = h at (omega arith) (omega arith) in
    let b = h (at + 1) (omega arith) (omega arith) in
    let c = h (at + 2) (omega arith) (omega arith) in
    let d = h (at + 2 + 1) (omega arith) (omega arith) in rw (a, b, c, d) refl

madt_start : (n : ℕ) (r : Ram) → load_bytes (build_madt n r) madt_at 4 ≡ codes "APIC"
unfolding build_madt store_bytes load_bytes
madt_start n r =
    let filled = put_fields (clear r madt_at 256) madt_at (fill_header (codes "APIC") 0 3) in
    let whole = store_bytes filled (madt_at + header_size) (madt_body n) in
    let len = store_bytes whole (madt_at + 4) (le32_bytes (madt_length n)) in
    load_bytes_agree (build_madt n r) filled madt_at 4 (λ x lo hi.
      seal_outside len madt_at 9 (madt_length n) x (inl (omega arith))
      ∙ store_bytes_frame whole (madt_at + 4) (le32_bytes (madt_length n)) x (inl (omega arith))
      ∙ store_bytes_frame filled (madt_at + header_size) (madt_body n) x (inl (omega arith)))
    ∙ refl

madt_size : (n : ℕ) (r : Ram) → n ≤ 23 → load32 (build_madt n r) (madt_at + 4) ≡ 66 + 8 * n
unfolding build_madt store_bytes
madt_size n r h = let len = madt-length_lem n h in rw len (omega (arith, h))

dsdt_start :
    (r : Ram) (devs : List VirtioMmioAcpiInfo)
    → load_bytes (build_dsdt r devs) dsdt_at 4 ≡ codes "DSDT"
unfolding build_dsdt store_bytes load_bytes
dsdt_start r devs =
    let total = dsdt_total (length devs) in
    let filled = put_fields (clear r dsdt_at total) dsdt_at (fill_header (codes "DSDT") total 2) in
    let whole = store_bytes filled (dsdt_at + header_size) (s5_node ++ scope_node devs) in
    load_bytes_agree (build_dsdt r devs) filled dsdt_at 4 (λ x lo hi.
      seal_outside whole dsdt_at 9 total x (inl (omega arith))
      ∙ store_bytes_frame filled (dsdt_at + header_size) (s5_node ++ scope_node devs) x
          (inl (omega arith)))
    ∙ refl

dsdt_size :
    (r : Ram) (devs : List VirtioMmioAcpiInfo)
    → load32 (build_dsdt r devs) (dsdt_at + 4) ≡ dsdt_total (length devs)
unfolding build_dsdt store_bytes
dsdt_size r devs =
    let total = dsdt_total (length devs) in
    let filled = put_fields (clear r dsdt_at total) dsdt_at (fill_header (codes "DSDT") total 2) in
    let whole = store_bytes filled (dsdt_at + header_size) (s5_node ++ scope_node devs) in
    let at : (x : ℕ) → x < dsdt_at + 8 → build_dsdt r devs x ≡ filled x = λ x hi.
      seal_outside whole dsdt_at 9 total x (inl (omega arith))
      ∙ store_bytes_frame filled (dsdt_at + header_size) (s5_node ++ scope_node devs) x
          (inl (omega arith)) in
    load32-same (build_dsdt r devs) filled (dsdt_at + 4) (λ x lo hi. at x (omega arith))
    ∙ omega arith

module _ (ram : Ram) (n : ℕ) (devs : List VirtioMmioAcpiInfo) where
  madt_kept :
      (x : ℕ) → madt_at ≤ x → x < fadt_at → (build_acpi_tables ram n devs).0 x ≡ build_madt n ram x
  unfolding build_acpi_tables
  madt_kept x lo hi =
      let r0 = build_madt n ram in
      later_outside (build_dsdt r0 devs) x (inl hi) (inr (omega arith)) (inr (omega arith))
      ∙ dsdt_below r0 devs x (omega arith)

  dsdt_kept :
      (x : ℕ)
      → dsdt_at ≤ x
      → (build_acpi_tables ram n devs).0 x ≡ build_dsdt (build_madt n ram) devs x
  unfolding build_acpi_tables
  dsdt_kept x lo =
      later_outside (build_dsdt (build_madt n ram) devs) x (inr (omega arith)) (inr (omega arith))
        (inr (omega arith))

  -- The lengths in the headers of the MADT and the DSDT
  pub madt_size_found : n ≤ 23 → load32 (build_acpi_tables ram n devs).0 (madt_at + 4) ≡ 66 + 8 * n
  madt_size_found cpus =
      load32-same (build_acpi_tables ram n devs).0 (build_madt n ram) (madt_at + 4)
        (λ x lo hi. madt_kept x (omega arith) (omega arith))
      ∙ madt_size n ram cpus

  pub dsdt_size_found :
      load32 (build_acpi_tables ram n devs).0 (dsdt_at + 4) ≡ dsdt_total (length devs)
  dsdt_size_found =
      load32-same (build_acpi_tables ram n devs).0 (build_dsdt (build_madt n ram) devs)
        (dsdt_at + 4) (λ x lo hi. dsdt_kept x (omega arith))
      ∙ dsdt_size (build_madt n ram) devs

  -- From the address that is returned a guest finds, with at most 23 processors and 67 devices, the
  -- FADT and the MADT by the XSDT and the DSDT by the FADT, each with its signature, and the lengths
  -- in the headers of the MADT and the DSDT are those that their bytes add up to 0 over.
  pub build_acpi_tables_lem :
      n ≤ 23
      → length devs ≤ 67
      → let r = (build_acpi_tables ram n devs).0 in
        let rsdp = (build_acpi_tables ram n devs).1 in
        (tables_from r rsdp ≡ fadt_at ∷ madt_at ∷ [])
        × (load_bytes r fadt_at 4 ≡ codes "FACP")
        × (load64 r (fadt_at + 140) ≡ dsdt_at)
        × (load_bytes r madt_at 4 ≡ codes "APIC")
        × IsSealed r madt_at (load32 r (madt_at + 4))
        × (load_bytes r dsdt_at 4 ≡ codes "DSDT")
        × IsSealed r dsdt_at (load32 r (dsdt_at + 4))
  unfolding build_acpi_tables
  build_acpi_tables_lem cpus fits =
      let r0 = build_madt n ram in
      let r1 = build_dsdt r0 devs in
      let r2 = build_fadt dsdt_at r1 in
      let r4 = build_rsdp (build_xsdt r2) in
      let sealed = build_acpi_tables-IsSealed ram n devs cpus fits in
      (
        xsdt-tables r2,
        fadt-signature r1,
        fadt-dsdt r1,
        load_bytes_agree r4 r0 madt_at 4 (λ x lo hi. madt_kept x lo (omega arith))
            ∙ madt_start n ram,
        subst (IsSealed r4 madt_at) (sym (madt_size_found cpus)) sealed.4,
        load_bytes_agree r4 r1 dsdt_at 4 (λ x lo hi. dsdt_kept x lo) ∙ dsdt_start r0 devs,
        subst (IsSealed r4 dsdt_at) (sym dsdt_size_found) sealed.5,
      )
