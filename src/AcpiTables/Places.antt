-- ===== src/AcpiTables/Places.antt =====
-- Where each table goes, and that its bytes add up to 0 once it is written.
use tenclaw.Base.{
  ℕ, zero, suc, ◌+◌, ◌*◌, ◌≤◌, ◌<◌, ◌≡◌, refl, subst, ◌∙◌, ◌⊎◌, inl, inr, List, [], ◌∷◌, ◌++◌,
  arith, length, length-append,
}
use tenclaw.Protocol.{codes}
use tenclaw.Memory.{Ram, store_bytes}
use tenclaw.Memory.Words.{store_bytes_frame}
use tenclaw.AcpiTables.{
  VirtioMmioAcpiInfo, rsdp_at, xsdt_at, madt_at, fadt_at, dsdt_at, Field, put_fields, clear, seal,
  fill_header, header_size, fadt_fields, fadt_size, le32_bytes, le64_bytes, local_apics, madt_end,
  madt_body, madt_length, build_madt, build_dsdt, build_fadt, build_xsdt, build_rsdp, s5_node,
  scope_node, dsdt_total,
}
use tenclaw.AcpiTables.Sums.{
  IsSealed, seal-IsSealed, IsSealed-agree, put_fields-avoids, put_fields-within, clear_inside,
  clear_outside, seal_outside,
}

-- Outside a range of `n` bytes
abbrev pub Off : ℕ → ℕ → ℕ → Type 0
Off at n x = (x < at) ⊎ (at + n ≤ x)

pub fadt-IsSealed : (dsdt_addr : ℕ) (r : Ram) → IsSealed (build_fadt dsdt_addr r) fadt_at fadt_size
unfolding build_fadt
fadt-IsSealed dsdt_addr r =
    let cleared = clear r fadt_at fadt_size in
    let headed = put_fields cleared fadt_at (fill_header (codes "FACP") fadt_size 5) in
    seal-IsSealed (put_fields headed fadt_at (fadt_fields dsdt_addr)) fadt_at 9 fadt_size
      (omega arith)
      (put_fields-avoids headed fadt_at 9 (fadt_fields dsdt_addr) refl
        ∙ put_fields-avoids cleared fadt_at 9 (fill_header (codes "FACP") fadt_size 5) refl
        ∙ clear_inside r fadt_at fadt_size 9 (omega arith))

pub fadt_outside :
    (dsdt_addr : ℕ) (r : Ram) (x : ℕ) → Off fadt_at fadt_size x → build_fadt dsdt_addr r x ≡ r x
unfolding build_fadt
fadt_outside dsdt_addr r x out =
    let cleared = clear r fadt_at fadt_size in
    let headed = put_fields cleared fadt_at (fill_header (codes "FACP") fadt_size 5) in
    seal_outside (put_fields headed fadt_at (fadt_fields dsdt_addr)) fadt_at 9 fadt_size x
      (elim out [ inl a ↦ inl (omega arith) | inr b ↦ inr (omega arith) ])
    ∙ put_fields-within headed fadt_at fadt_size (fadt_fields dsdt_addr) x refl out
    ∙ put_fields-within cleared fadt_at fadt_size (fill_header (codes "FACP") fadt_size 5) x refl
        out
    ∙ clear_outside r fadt_at fadt_size x out

abbrev xsdt_fields : List Field
xsdt_fields = (36, le64_bytes fadt_at) ∷ (44, le64_bytes madt_at) ∷ (4, le32_bytes 52) ∷ []

pub xsdt-IsSealed : (r : Ram) → IsSealed (build_xsdt r) xsdt_at 52
unfolding build_xsdt
xsdt-IsSealed r =
    let cleared = clear r xsdt_at 128 in
    let headed = put_fields cleared xsdt_at (fill_header (codes "XSDT") 0 1) in
    seal-IsSealed (put_fields headed xsdt_at xsdt_fields) xsdt_at 9 52 (omega arith) (
      put_fields-avoids headed xsdt_at 9 xsdt_fields refl
      ∙ put_fields-avoids cleared xsdt_at 9 (fill_header (codes "XSDT") 0 1) refl
      ∙ clear_inside r xsdt_at 128 9 (omega arith))

pub xsdt_outside : (r : Ram) (x : ℕ) → Off xsdt_at 128 x → build_xsdt r x ≡ r x
unfolding build_xsdt
xsdt_outside r x out =
    let cleared = clear r xsdt_at 128 in
    let headed = put_fields cleared xsdt_at (fill_header (codes "XSDT") 0 1) in
    seal_outside (put_fields headed xsdt_at xsdt_fields) xsdt_at 9 52 x
      (elim out [ inl a ↦ inl (omega arith) | inr b ↦ inr (omega arith) ])
    ∙ put_fields-within headed xsdt_at 128 xsdt_fields x refl out
    ∙ put_fields-within cleared xsdt_at 128 (fill_header (codes "XSDT") 0 1) x refl out
    ∙ clear_outside r xsdt_at 128 x out

abbrev rsdp_fields : List Field
rsdp_fields =
    (0, codes "RSD PTR ")
    ∷ (9, codes "TENBOX")
    ∷ (15, 2 ∷ [])
    ∷ (16, le32_bytes 0)
    ∷ (20, le32_bytes 36)
    ∷ (24, le64_bytes xsdt_at)
    ∷ []

-- The first 20 bytes and the whole
pub rsdp-IsSealed :
    (r : Ram) → IsSealed (build_rsdp r) rsdp_at 20 × IsSealed (build_rsdp r) rsdp_at 36
unfolding build_rsdp
rsdp-IsSealed r =
    let cleared = clear r rsdp_at 36 in
    let filled = put_fields cleared rsdp_at rsdp_fields in
    let first = seal rsdp_at 8 20 filled in
    (
      IsSealed-agree first (seal rsdp_at 32 36 first) rsdp_at 20
          (λ x lo hi. seal_outside first rsdp_at 32 36 x (inl (omega arith)))
          (seal-IsSealed filled rsdp_at 8 20 (omega arith) (
            put_fields-avoids cleared rsdp_at 8 rsdp_fields refl
            ∙ clear_inside r rsdp_at 36 8 (omega arith))),
      seal-IsSealed first rsdp_at 32 36 (omega arith) (
          seal_outside filled rsdp_at 8 20 (rsdp_at + 32) (inr (omega arith))
          ∙ put_fields-avoids cleared rsdp_at 32 rsdp_fields refl
          ∙ clear_inside r rsdp_at 36 32 (omega arith)),
    )

pub rsdp_outside : (r : Ram) (x : ℕ) → Off rsdp_at 36 x → build_rsdp r x ≡ r x
unfolding build_rsdp
rsdp_outside r x out =
    let cleared = clear r rsdp_at 36 in
    let filled = put_fields cleared rsdp_at rsdp_fields in
    let first = seal rsdp_at 8 20 filled in
    seal_outside first rsdp_at 32 36 x
      (elim out [ inl a ↦ inl (omega arith) | inr b ↦ inr (omega arith) ])
    ∙ seal_outside filled rsdp_at 8 20 x
        (elim out [ inl a ↦ inl (omega arith) | inr b ↦ inr (omega arith) ])
    ∙ put_fields-within cleared rsdp_at 36 rsdp_fields x refl out
    ∙ clear_outside r rsdp_at 36 x out

length-local_apics : (i n : ℕ) → length (local_apics i n) ≡ 8 * n
length-local_apics i zero = refl
length-local_apics i (suc n) = omega (arith, length-local_apics (i + 1) n)

pub length-madt_body : (n : ℕ) → length (madt_body n) ≡ 30 + 8 * n
length-madt_body n =
    let s = length-append (local_apics 0 n) (madt_end n) in omega (arith, length-local_apics 0 n)

pub madt-length_lem : (n : ℕ) → n ≤ 23 → madt_length n ≡ 66 + 8 * n
madt-length_lem n h = let s = length-madt_body n in omega arith

pub madt-IsSealed : (n : ℕ) (r : Ram) → n ≤ 23 → IsSealed (build_madt n r) madt_at (66 + 8 * n)
unfolding build_madt
madt-IsSealed n r h =
    let len = madt-length_lem n h in
    let cleared = clear r madt_at 256 in
    let filled = put_fields cleared madt_at (fill_header (codes "APIC") 0 3) in
    let whole = store_bytes filled (madt_at + header_size) (madt_body n) in
    subst (IsSealed (build_madt n r) madt_at) len (
      seal-IsSealed (store_bytes whole (madt_at + 4) (le32_bytes (madt_length n))) madt_at 9
        (madt_length n) (omega arith)
        (store_bytes_frame whole (madt_at + 4) (le32_bytes (madt_length n)) (madt_at + 9)
            (inr (omega arith))
          ∙ store_bytes_frame filled (madt_at + header_size) (madt_body n) (madt_at + 9)
              (inl (omega arith))
          ∙ put_fields-avoids cleared madt_at 9 (fill_header (codes "APIC") 0 3) refl
          ∙ clear_inside r madt_at 256 9 (omega arith)))

pub dsdt-IsSealed :
    (r : Ram) (devs : List VirtioMmioAcpiInfo)
    → length devs ≤ 67
    → IsSealed (build_dsdt r devs) dsdt_at (dsdt_total (length devs))
unfolding build_dsdt
dsdt-IsSealed r devs h =
    let total = dsdt_total (length devs) in
    let fits : 9 < total = ground arith in
    let cleared = clear r dsdt_at total in
    let filled = put_fields cleared dsdt_at (fill_header (codes "DSDT") total 2) in
    seal-IsSealed (store_bytes filled (dsdt_at + header_size) (s5_node ++ scope_node devs)) dsdt_at
      9 total fits
      (store_bytes_frame filled (dsdt_at + header_size) (s5_node ++ scope_node devs) (dsdt_at + 9)
          (inl (omega arith))
        ∙ put_fields-avoids cleared dsdt_at 9 (fill_header (codes "DSDT") total 2) refl
        ∙ clear_inside r dsdt_at total 9 fits)

pub dsdt_below :
    (r : Ram) (devs : List VirtioMmioAcpiInfo) (x : ℕ) → x < dsdt_at → build_dsdt r devs x ≡ r x
unfolding build_dsdt
dsdt_below r devs x h =
    let total = dsdt_total (length devs) in
    let cleared = clear r dsdt_at total in
    let filled = put_fields cleared dsdt_at (fill_header (codes "DSDT") total 2) in
    seal_outside (store_bytes filled (dsdt_at + header_size) (s5_node ++ scope_node devs)) dsdt_at 9
      total x (inl (omega arith))
    ∙ store_bytes_frame filled (dsdt_at + header_size) (s5_node ++ scope_node devs) x
        (inl (omega arith))
    ∙ put_fields-within cleared dsdt_at 36 (fill_header (codes "DSDT") total 2) x refl (inl h)
    ∙ clear_outside r dsdt_at total x (inl h)
