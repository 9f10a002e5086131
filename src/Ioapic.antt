-- ===== src/Ioapic.antt =====
-- core/device/irq/ioapic.h and ioapic.cpp: the I/O APIC's register window and redirection table.
-- The mutex makes each access one step.
pub mod Table
mod Tests
use mathlib.Core.List.{map}
use tenclaw.Base.{
  ℕ, zero, suc, ◌+◌, ◌-◌, ◌*◌, ◌/◌, ◌%◌, ◌^◌, ◌≤◌, ◌<◌, min, ◌≡◌, refl, sym, ap, ap₂, subst, ◌∙◌,
  ◌≢◌, ◌↔◌, ◌⊎◌, inl, inr, Bool, true, false, not, ◌&&◌, ◌||◌, Option, none, some, List, [], ◌∷◌,
  ◌++◌, arith, ltb, leb, ◌==◌, if◌then◌else◌, Bool-cases, Option-cases, length, get_or, set, take,
  drop, replicate, u8, u16, u32, u64, shr, shl, test_bit, set_bit, clear_bit, with_low32,
  with_high32, get_elem?, ==_iff, length-append, length-set, get_or-set_self, get_or-set_ne,
  length-take, length-drop, some_inj, cons_inj, All, modify, length-replicate, length-modify,
  get_or-modify_self, get_or-modify_ne,
}

pub record IoApic : Type 0 where
  pub index : ℕ
  pub id : ℕ
  pub redir_table : List ℕ

abbrev pub max_redir_entries : ℕ
max_redir_entries = 24

-- Bit 16, the mask, is set in every entry.
abbrev pub initial : IoApic
initial = record { index = 0; id = 0; redir_table = replicate 24 0x10000 }

unfoldable pub get_redir_entry : IoApic → ℕ → Option ℕ
get_redir_entry a irq =
    if leb max_redir_entries irq then none else some (get_or a.redir_table irq 0)

-- Registers 0x10 to 0x3f are the halves of the entries, the low one first.
abbrev pub entry_idx : IoApic → ℕ
entry_idx a = (a.index - 0x10) / 2

abbrev pub is_high : IoApic → Bool
is_high a = (a.index - 0x10) % 2 == 1

abbrev pub in_table : IoApic → Bool
in_table a =
    leb 0x10 a.index
    && ltb a.index (0x10 + max_redir_entries * 2)
    && ltb (entry_idx a) max_redir_entries

unfoldable pub read_register : IoApic → ℕ
read_register a =
    let entry = get_or a.redir_table (entry_idx a) 0 in
    if a.index == 0x00
    then u32 (shl a.id 24)
    else if a.index == 0x01
    then 0x0017_0020
    else if a.index == 0x02
    then 0
    else if in_table a
    then (if is_high a then u32 (shr entry 32) else u32 entry)
    else 0

unfoldable pub write_register : IoApic → ℕ → IoApic
write_register a value =
    if a.index == 0x00
    then record a { id = shr value 24 % 2 ^ 4 }
    else if in_table a
    then record a {
      redir_table =
          modify a.redir_table (entry_idx a)
            (λ e. if is_high a then with_high32 e value else with_low32 e value);
    }
    else a

-- `EOI`: clear Remote IRR, bit 14, where the vector matches.
abbrev pub end_of_interrupt : ℕ → ℕ → ℕ
end_of_interrupt vector rte = if u8 rte == vector then clear_bit rte 14 else rte

unfoldable pub mmio_read : IoApic → ℕ → ℕ
mmio_read a offset =
    if offset == 0x00 then a.index else if offset == 0x10 then read_register a else 0

unfoldable pub mmio_write : IoApic → ℕ → ℕ → IoApic
mmio_write a offset value =
    if offset == 0x00
    then record a { index = u8 (u32 value) }
    else if offset == 0x10
    then write_register a (u32 value)
    else if offset == 0x40
    then record a { redir_table = map (end_of_interrupt (u8 (u32 value))) a.redir_table }
    else a
