-- ===== src/AcpiTables/Scope.antt =====
-- The lengths that the DSDT names are those of the bytes that are there.
use tenclaw.Base.{
  ℕ, ◌+◌, ◌*◌, ◌%◌, ◌^◌, ◌≤◌, ◌<◌, ◌≡◌, refl, inl, inr, List, [], ◌∷◌, ◌++◌, arith, leb, ◌==◌,
  if◌then◌else◌, Bool-cases, length, u32, shr,
}
use tenclaw.Protocol.{codes}
use tenclaw.AcpiTables.{
  VirtioMmioAcpiInfo, device_node, device_nodes, s5_node, scope_node, scope_remaining,
  scope_pkglen_size, scope_pkglen, dsdt_total, header_size,
}

-- The length that a package of AML says that it has: the top two bits of its first byte are the
-- number of bytes that follow, here 0 or 1.
abbrev pub package_length : List ℕ → ℕ
package_length [] = 0
package_length (b ∷ []) = b
package_length (b ∷ c ∷ bs) = if shr b 6 == 0 then b else b % 16 + 16 * c

pub length-device_nodes :
    (i : ℕ) (devs : List VirtioMmioAcpiInfo) → length (device_nodes i devs) ≡ 61 * length devs
unfolding device_node
length-device_nodes i [] = refl
length-device_nodes i (d ∷ ds) = omega (arith, length-device_nodes (i + 1) ds)

scope_size : (n : ℕ) → n ≤ 67 → scope_pkglen_size n + scope_remaining n < 2 ^ 12
scope_size n h = ground arith

-- With at most 67 devices the length of the scope `\_SB` that the DSDT names is that of the bytes from
-- it to the last device's end, and the length in the table's header is that of the whole table.
pub dsdt_lengths :
    (devs : List VirtioMmioAcpiInfo)
    → length devs ≤ 67
    → let inside = scope_pkglen (length devs) ++ (codes "\\_SB_" ++ device_nodes 0 devs) in
      (package_length inside ≡ length inside)
      × (scope_node devs ≡ 0x10 ∷ inside)
      × (header_size + length (s5_node ++ scope_node devs) ≡ dsdt_total (length devs))
dsdt_lengths devs h =
    let n = length devs in
    let nodes = length-device_nodes 0 devs in
    elim (Bool-cases (leb (u32 (scope_remaining n + 1)) 63)) [
      | inl y ↦ rw y (ground (arith, nodes), refl, ground (arith, nodes))
      | inr m ↦ rw m (ground (arith, nodes), refl, ground (arith, nodes))
    ]
