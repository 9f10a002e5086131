-- ===== src/Ioapic/Table.antt =====
-- The redirection table through the index and data registers.
use tenclaw.Base.{
  ℕ, zero, suc, ◌+◌, ◌-◌, ◌*◌, ◌/◌, ◌%◌, ◌^◌, ◌<◌, ◌≡◌, refl, ap, ◌∙◌, ◌≢◌, true, false, some, List,
  [], ◌∷◌, arith, ◌==◌, if◌then◌else◌, length, get_or, u8, u32, shr, test_bit, with_low32,
  with_high32, modify, length-modify, get_or-modify_self, get_or-modify_ne,
}
use mathlib.Core.List.{map}
use tenclaw.Ioapic.{
  IoApic, get_redir_entry, read_register, write_register, end_of_interrupt, mmio_read, mmio_write,
  entry_idx, is_high,
}

pub record IsValid (a : IoApic) : Type 0 where
  pub index_fits : a.index < 2 ^ 8
  pub id_fits : a.id < 2 ^ 4
  pub entries : length a.redir_table ≡ 24

length-map : (f : ℕ → ℕ) (xs : List ℕ) → length (map f xs) ≡ length xs
length-map f [] = refl
length-map f (x ∷ xs) = ap suc (length-map f xs)

get_or-map :
    (f : ℕ → ℕ) (xs : List ℕ) (i : ℕ) → i < length xs → get_or (map f xs) i 0 ≡ f (get_or xs i 0)
get_or-map f [] i h = absurd (omega arith)
get_or-map f (x ∷ xs) zero h = refl
get_or-map f (x ∷ xs) (suc i) h = get_or-map f xs i (omega arith)

write_register-IsValid :
    (a : IoApic) (value : ℕ) → value < 2 ^ 32 → IsValid a → IsValid (write_register a value)
unfolding write_register
write_register-IsValid a value h v = ground (
  arith,
  length-modify a.redir_table (entry_idx a)
      (λ e. if is_high a then with_high32 e value else with_low32 e value),
)

-- No access changes the number of entries or lets a register outgrow its field.
pub mmio_write-IsValid :
    (a : IoApic) (offset value : ℕ) → IsValid a → IsValid (mmio_write a offset value)
unfolding mmio_write
mmio_write-IsValid a offset value v = ground (
  arith,
  write_register-IsValid a (u32 value) (omega arith) v,
  length-map (end_of_interrupt (u8 (u32 value))) a.redir_table,
)

-- Select a register, then write it; select, then read it.
abbrev pub put : IoApic → ℕ → ℕ → IoApic
put a reg value = mmio_write (mmio_write a 0x00 reg) 0x10 value

abbrev pub get : IoApic → ℕ → ℕ
get a reg = mmio_read (mmio_write a 0x00 reg) 0x10

module _ (a : IoApic) (i v : ℕ) (fits : i < 24) where
  write_low :
      a.index ≡ 0x10 + 2 * i
      → write_register a v ≡ record a { redir_table = modify a.redir_table i (λ e. with_low32 e v) }
  unfolding write_register
  write_low at_low =
      let idx : (a.index - 0x10) / 2 ≡ i = omega arith in
      let low : is_high a ≡ false = ground arith in
      let not_id : (a.index == 0) ≡ false = ground arith in simp (not_id, idx, low) (ground arith)

  write_high :
      a.index ≡ 0x10 + 2 * i + 1
      → write_register a v
        ≡ record a { redir_table = modify a.redir_table i (λ e. with_high32 e v) }
  unfolding write_register
  write_high at_high =
      let idx : (a.index - 0x10) / 2 ≡ i = omega arith in
      let high : is_high a ≡ true = ground arith in
      let not_id : (a.index == 0) ≡ false = ground arith in simp (not_id, idx, high) (ground arith)

  read_low : a.index ≡ 0x10 + 2 * i → read_register a ≡ u32 (get_or a.redir_table i 0)
  unfolding read_register
  read_low at_low =
      let idx : (a.index - 0x10) / 2 ≡ i = omega arith in
      ground (arith, ap (λ k. get_or a.redir_table k 0) idx)

  read_high : a.index ≡ 0x10 + 2 * i + 1 → read_register a ≡ u32 (shr (get_or a.redir_table i 0) 32)
  unfolding read_register
  read_high at_high =
      let idx : (a.index - 0x10) / 2 ≡ i = omega arith in
      ground (arith, ap (λ k. get_or a.redir_table k 0) idx)

select : (a : IoApic) (reg : ℕ) → reg < 2 ^ 8 → mmio_write a 0x00 reg ≡ record a { index = reg }
unfolding mmio_write
select a reg h = let e : u8 (u32 reg) ≡ reg = omega arith in rw e

data_write :
    (a : IoApic) (value : ℕ) → value < 2 ^ 32 → mmio_write a 0x10 value ≡ write_register a value
unfolding mmio_write
data_write a value h = let e : u32 value ≡ value = omega arith in rw e

module _ (a : IoApic) (i v : ℕ) (fits : i < 24) where
  put_low :
      v < 2 ^ 32
      → put a (0x10 + 2 * i) v ≡ record a {
        index = 0x10 + 2 * i;
        redir_table = modify a.redir_table i (λ e. with_low32 e v);
      }
  put_low h =
      ap (λ b. mmio_write b 0x10 v) (select a (0x10 + 2 * i) (omega arith))
      ∙ data_write (record a { index = 0x10 + 2 * i }) v h
      ∙ write_low (record a { index = 0x10 + 2 * i }) i v fits refl

  put_high :
      v < 2 ^ 32
      → put a (0x10 + 2 * i + 1) v ≡ record a {
        index = 0x10 + 2 * i + 1;
        redir_table = modify a.redir_table i (λ e. with_high32 e v);
      }
  put_high h =
      ap (λ b. mmio_write b 0x10 v) (select a (0x10 + 2 * i + 1) (omega arith))
      ∙ data_write (record a { index = 0x10 + 2 * i + 1 }) v h
      ∙ write_high (record a { index = 0x10 + 2 * i + 1 }) i v fits refl

  get_low : get a (0x10 + 2 * i) ≡ u32 (get_or a.redir_table i 0)
  unfolding mmio_read
  get_low =
      ap read_register (select a (0x10 + 2 * i) (omega arith))
      ∙ read_low (record a { index = 0x10 + 2 * i }) i v fits refl

  get_high : get a (0x10 + 2 * i + 1) ≡ u32 (shr (get_or a.redir_table i 0) 32)
  unfolding mmio_read
  get_high =
      ap read_register (select a (0x10 + 2 * i + 1) (omega arith))
      ∙ read_high (record a { index = 0x10 + 2 * i + 1 }) i v fits refl

-- On a valid table both 32-bit halves of an entry `i` below 24, written through the window, in
-- this order, are read back, make up the 64-bit entry that interrupt delivery looks up, and leave
-- every other entry as it was.
pub put_entry :
    (a : IoApic) (i lo hi : ℕ)
    → IsValid a
    → i < 24
    → lo < 2 ^ 32
    → hi < 2 ^ 32
    → let b = put (put a (0x10 + 2 * i) lo) (0x10 + 2 * i + 1) hi in
      (get b (0x10 + 2 * i) ≡ lo)
      × (get b (0x10 + 2 * i + 1) ≡ hi)
      × (get_redir_entry b i ≡ some (hi * 2 ^ 32 + lo))
      × ((j : ℕ) → i ≢ j → get_redir_entry b j ≡ get_redir_entry a j)
unfolding get_redir_entry
put_entry a i lo hi v lt fits_lo fits_hi =
    let first = record a {
      index = 0x10 + 2 * i;
      redir_table = modify a.redir_table i (λ e. with_low32 e lo);
    } in
    let low_done =
      get_or-modify_self a.redir_table i (λ e. with_low32 e lo) 0 (omega (arith, v.entries)) in
    let room : i < length first.redir_table =
      omega (arith, v.entries, length-modify a.redir_table i (λ e. with_low32 e lo)) in
    let done = get_or-modify_self first.redir_table i (λ e. with_high32 e hi) 0 room in
    rw (put_low a i lo lt fits_lo, put_high first i hi lt fits_hi)
      (
        get_low _ i 0 lt ∙ omega (arith, done, low_done),
        get_high _ i 0 lt ∙ omega (arith, done, low_done),
        ground (arith, done, low_done),
        λ j ne. ground (
          arith,
          get_or-modify_ne first.redir_table i j (λ e. with_high32 e hi) 0 ne,
          get_or-modify_ne a.redir_table i j (λ e. with_low32 e lo) 0 ne,
        ),
      )

-- On a valid table `EOI` for an 8-bit vector clears Remote IRR in every entry with that vector,
-- and changes nothing else.
pub eoi_lem :
    (a : IoApic) (vector i : ℕ)
    → IsValid a
    → vector < 2 ^ 8
    → i < 24
    → let e = get_or a.redir_table i 0 in
      let e' = get_or (mmio_write a 0x40 vector).redir_table i 0 in
      ((e % 2 ^ 8 ≡ vector)
        → (test_bit e' 14 ≡ false) × (e' % 2 ^ 14 ≡ e % 2 ^ 14) × (e' / 2 ^ 15 ≡ e / 2 ^ 15))
      × ((e % 2 ^ 8 ≢ vector) → e' ≡ e)
unfolding mmio_write
eoi_lem a vector i v h lt =
    let narrow : u8 (u32 vector) ≡ vector = omega arith in
    let there = get_or-map (end_of_interrupt vector) a.redir_table i (omega (arith, v.entries)) in
    rw (narrow, there) ((λ e. (ground arith, ground arith, ground arith)), (λ ne. ground arith))
