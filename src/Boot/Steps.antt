-- ===== src/Boot/Steps.antt =====
-- What each step of the loading leaves alone, and what it puts where.
use tenclaw.Base.{
  ℕ, ◌+◌, ◌-◌, ◌*◌, ◌^◌, ◌≤◌, ◌<◌, min, ◌≡◌, refl, sym, ap, ◌∙◌, ◌≢◌, inl, inr, false, List, [],
  ◌∷◌, ◌++◌, arith, ltb, ◌==◌, if◌then◌else◌, Bool-cases, length, take, drop, length-take, All,
}
use tenclaw.Protocol.{codes}
use tenclaw.Memory.{Ram, GuestMemMap, store8, load32, load64, store_bytes, load_bytes}
use tenclaw.Memory.Words.{store_bytes_frame}
use tenclaw.Memory.Bytes.{load_bytes_agree, load_bytes-store_bytes}
use tenclaw.AcpiTables.{
  VirtioMmioAcpiInfo, rsdp_at, madt_at, dsdt_at, put_fields, clear, fill_header, header_size,
  le32_bytes, le64_bytes, madt_body, madt_length, build_madt, build_dsdt, s5_node, scope_node,
  dsdt_total, build_acpi_tables,
}
use tenclaw.AcpiTables.Sums.{put_fields-within, clear_outside, seal_outside}
use tenclaw.AcpiTables.Places.{Off, length-madt_body}
use tenclaw.AcpiTables.Found.{later_outside}
use tenclaw.AcpiTables.Scope.{dsdt_lengths}
use tenclaw.Boot.{
  boot_params, cmdline_base, cmdline_max_len, setup_size, put_header, put_cmdline, e820_entries,
  e820_bytes, put_e820, put_acpi,
}

madt_above : (n : ℕ) (r : Ram) (x : ℕ) → n ≤ 128 → boot_params ≤ x → build_madt n r x ≡ r x
unfolding build_madt
madt_above n r x h hi =
    let body = length-madt_body n in
    let cleared = clear r madt_at 256 in
    let filled = put_fields cleared madt_at (fill_header (codes "APIC") 0 3) in
    let whole = store_bytes filled (madt_at + header_size) (madt_body n) in
    seal_outside (store_bytes whole (madt_at + 4) (le32_bytes (madt_length n))) madt_at 9
      (madt_length n) x (inr (omega arith))
    ∙ store_bytes_frame whole (madt_at + 4) (le32_bytes (madt_length n)) x (inr (omega arith))
    ∙ store_bytes_frame filled (madt_at + header_size) (madt_body n) x (inr (omega arith))
    ∙ put_fields-within cleared madt_at 36 (fill_header (codes "APIC") 0 3) x refl
        (inr (omega arith))
    ∙ clear_outside r madt_at 256 x (inr (omega arith))

dsdt_above :
    (r : Ram) (devs : List VirtioMmioAcpiInfo) (x : ℕ)
    → length devs ≤ 67
    → boot_params ≤ x
    → build_dsdt r devs x ≡ r x
unfolding build_dsdt
dsdt_above r devs x h hi =
    let total = dsdt_total (length devs) in
    let (_, _, len) = dsdt_lengths devs h in
    let few : total ≤ 4147 = ground arith in
    let cleared = clear r dsdt_at total in
    let filled = put_fields cleared dsdt_at (fill_header (codes "DSDT") total 2) in
    seal_outside (store_bytes filled (dsdt_at + header_size) (s5_node ++ scope_node devs)) dsdt_at 9
      total x (inr (omega arith))
    ∙ store_bytes_frame filled (dsdt_at + header_size) (s5_node ++ scope_node devs) x
        (inr (omega arith))
    ∙ put_fields-within cleared dsdt_at 36 (fill_header (codes "DSDT") total 2) x refl
        (inr (omega arith))
    ∙ clear_outside r dsdt_at total x (inr (omega arith))

module _ (n : ℕ) (devs : List VirtioMmioAcpiInfo) (cpus : n ≤ 23) (few : length devs ≤ 67) where
  pub acpi_above :
      (r : Ram) (x : ℕ) → boot_params ≤ x → Off (boot_params + 0x70) 8 x → put_acpi n devs r x ≡ r x
  unfolding put_acpi build_acpi_tables
  acpi_above r x hi out =
      let r0 = build_madt n r in
      let r1 = build_dsdt r0 devs in
      store_bytes_frame (build_acpi_tables r n devs).0 (boot_params + 0x070) (le64_bytes rsdp_at) x
        out
      ∙ later_outside r1 x (inr (omega arith)) (inr (omega arith)) (inr (omega arith))
      ∙ dsdt_above r0 devs x few hi
      ∙ madt_above n r x (omega arith) hi

  pub acpi_pointer : (r : Ram) → load64 (put_acpi n devs r) (boot_params + 0x70) ≡ rsdp_at
  unfolding put_acpi build_acpi_tables store_bytes
  acpi_pointer r = refl

length-e820_bytes : (es : List (ℕ × ℕ)) → length (e820_bytes es) ≡ 20 * length es
length-e820_bytes [] = refl
length-e820_bytes (e ∷ es) = omega (arith, length-e820_bytes es)

module _ (mem : GuestMemMap) (r : Ram) where
  length-e820_entries : length (e820_entries mem) ≤ 3
  length-e820_entries = ground arith

  pub e820_outside :
      (x : ℕ) → Off (boot_params + 0x2d0) 60 x → x ≢ boot_params + 0x1e8 → put_e820 mem r x ≡ r x
  unfolding put_e820
  e820_outside x out ne =
      let es = e820_entries mem in
      let few = length-e820_entries in
      let len = length-e820_bytes es in
      let away : (x == boot_params + 0x1e8) ≡ false = ground arith in
      rw away (
        store_bytes_frame r (boot_params + 0x2d0) (e820_bytes es) x
          (elim out [ inl a ↦ inl (omega arith) | inr b ↦ inr (omega arith) ]))

  pub e820_there :
      (put_e820 mem r (boot_params + 0x1e8) ≡ length (e820_entries mem))
      × (load_bytes (put_e820 mem r) (boot_params + 0x2d0) (20 * length (e820_entries mem))
          ≡ e820_bytes (e820_entries mem))
  unfolding put_e820
  e820_there =
      let es = e820_entries mem in
      let few = length-e820_entries in
      let len = length-e820_bytes es in
      let stored = store_bytes r (boot_params + 0x2d0) (e820_bytes es) in
      (
        omega (arith, few),
        load_bytes_agree (put_e820 mem r) stored (boot_params + 0x2d0) (20 * length es) (λ x lo hi.
              let away : (x == boot_params + 0x1e8) ≡ false = ground arith in rw away refl)
            ∙ ap (load_bytes stored (boot_params + 0x2d0)) (sym len)
            ∙ load_bytes-store_bytes r (boot_params + 0x2d0) (e820_bytes es) (e820-fits es),
      )
    where
      e820-fits : (es : List (ℕ × ℕ)) → All (λ b. b < 2 ^ 8) (e820_bytes es)
      e820-fits [] = tt
      e820-fits (e ∷ es) = let later = e820-fits es in ground (arith, later)

-- A 32-bit word that is put into memory is read back.
pub load32_back :
    (r : Ram) (at v : ℕ) → v < 2 ^ 32 → load32 (store_bytes r at (le32_bytes v)) at ≡ v
unfolding store_bytes
load32_back r at v h = ground arith

pub header_outside :
    (kernel : List ℕ) (r : Ram) (x : ℕ) → Off boot_params 4096 x → put_header kernel r x ≡ r x
unfolding put_header
header_outside kernel r x out =
    let blank = clear r boot_params 4096 in
    let header_end = min (setup_size kernel) 0x290 in
    let part = take (header_end - 0x1f1) (drop 0x1f1 kernel) in
    let len = length-take (header_end - 0x1f1) (drop 0x1f1 kernel) in
    let copied : Ram =
      if ltb 0x1f1 header_end then store_bytes blank (boot_params + 0x1f1) part else blank in
    let cleared : blank x ≡ r x = clear_outside r boot_params 4096 x out in
    let put : copied x ≡ r x = elim (Bool-cases (ltb 0x1f1 header_end)) [
      | inl y ↦ rw y (
          store_bytes_frame blank (boot_params + 0x1f1) part x
            (elim out [ inl a ↦ inl (omega arith) | inr b ↦ inr (omega arith) ])
          ∙ cleared)
      | inr n ↦ rw n cleared
    ] in
    let a : (x == boot_params + 0x211) ≡ false = ground arith in
    let b : (x == boot_params + 0x210) ≡ false = ground arith in rw (a, b) put

pub cmdline_outside :
    (cmdline : List ℕ) (r : Ram) (x : ℕ)
    → Off cmdline_base cmdline_max_len x
    → Off (boot_params + 0x228) 4 x
    → put_cmdline cmdline r x ≡ r x
unfolding put_cmdline
cmdline_outside cmdline r x out off =
    let len = min (length cmdline) (cmdline_max_len - 1) in
    let size = length-take len cmdline in
    let stored = store_bytes r cmdline_base (take len cmdline) in
    elim (Bool-cases (length cmdline == 0)) [
      | inl y ↦ rw y refl
      | inr n ↦ rw n (
          store_bytes_frame (store8 stored (cmdline_base + len) 0) (boot_params + 0x228)
            (le32_bytes cmdline_base) x off
          ∙ (let a : (x == cmdline_base + len) ≡ false = ground arith in rw a refl)
          ∙ store_bytes_frame r cmdline_base (take len cmdline) x
              (elim out [ inl a ↦ inl a | inr b ↦ inr (omega arith) ]))
    ]

-- The command line, cut off where its room ends, with a 0 behind it.
pub cmdline_there :
    (cmdline : List ℕ) (r : Ram)
    → All (λ b. b < 2 ^ 8) cmdline
    → length cmdline ≢ 0
    → length cmdline < cmdline_max_len
    → (load_bytes (put_cmdline cmdline r) cmdline_base (length cmdline) ≡ cmdline)
      × (put_cmdline cmdline r (cmdline_base + length cmdline) ≡ 0)
      × (load32 (put_cmdline cmdline r) (boot_params + 0x228) ≡ cmdline_base)
unfolding put_cmdline
cmdline_there cmdline r bytes ne fits =
    let n : (length cmdline == 0) ≡ false = ground arith in
    let len : min (length cmdline) (cmdline_max_len - 1) ≡ length cmdline = omega arith in
    let whole : take (length cmdline) cmdline ≡ cmdline = take-all cmdline in
    let stored = store_bytes r cmdline_base cmdline in
    let ended = store8 stored (cmdline_base + length cmdline) 0 in
    let done = store_bytes ended (boot_params + 0x228) (le32_bytes cmdline_base) in
    let frame : (x : ℕ) → cmdline_base ≤ x → done x ≡ ended x = λ x h.
      store_bytes_frame ended (boot_params + 0x228) (le32_bytes cmdline_base) x
        (inr (omega arith)) in
    rw (n, len, whole)
      (
        load_bytes_agree done stored cmdline_base (length cmdline) (λ x lo hi.
              frame x lo
              ∙ (let a : (x == cmdline_base + length cmdline) ≡ false = ground arith in rw a refl))
            ∙ load_bytes-store_bytes r cmdline_base cmdline bytes,
        frame (cmdline_base + length cmdline) (omega arith) ∙ ground arith,
        pointer ended,
      )
  where
    take-all : (xs : List ℕ) → take (length xs) xs ≡ xs
    take-all [] = refl
    take-all (x ∷ xs) = ap (λ t. x ∷ t) (take-all xs)

    pointer :
        (s : Ram)
        → load32
            (store_bytes s (boot_params + 0x228) (le32_bytes cmdline_base))
            (boot_params + 0x228)
          ≡ cmdline_base
    pointer s = load32_back s (boot_params + 0x228) cmdline_base (omega arith)
