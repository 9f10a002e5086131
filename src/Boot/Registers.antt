-- ===== src/Boot/Registers.antt =====
-- `BuildInitialRegisters`: the table of segments, and the registers of the first processor.
use tenclaw.Base.{
  ℕ, ◌+◌, ◌-◌, ◌*◌, ◌%◌, ◌^◌, ◌≤◌, ◌<◌, ◌≡◌, refl, ◌⊎◌, true, false, Option, none, some, List, [],
  ◌∷◌, ◌++◌, arith, ◌==◌, if◌then◌else◌, u8, u16, shr, test_bit,
}
use tenclaw.Memory.{Ram, load64, store_bytes}
use tenclaw.Memory.Words.{store_bytes_frame}
use tenclaw.AcpiTables.{le64_bytes}
use tenclaw.Boot.{gdt_base, boot_params, kernel_base}

-- `WHV_REGISTER_NAME`, those that are set
pub data RegisterName : Type 0 where
  gdtr : RegisterName
  idtr : RegisterName
  cs : RegisterName
  ds : RegisterName
  es : RegisterName
  ss : RegisterName
  fs : RegisterName
  gs : RegisterName
  tr : RegisterName
  ldtr : RegisterName
  rip : RegisterName
  rsi : RegisterName
  rflags : RegisterName
  cr0 : RegisterName
  rax : RegisterName
  rbx : RegisterName
  rcx : RegisterName
  rdx : RegisterName
  rdi : RegisterName
  rbp : RegisterName
  rsp : RegisterName

-- `WHV_REGISTER_VALUE`: a table's base and limit; a segment's base, limit, selector and attributes
pub data RegisterValue : Type 0 where
  table : ℕ → ℕ → RegisterValue
  segment : ℕ → ℕ → ℕ → ℕ → RegisterValue
  reg64 : ℕ → RegisterValue

-- `GdtEntry`
abbrev pub gdt_bytes : List ℕ
gdt_bytes =
    le64_bytes 0
    ++ (le64_bytes 0 ++ (le64_bytes 0x00cf9b000000ffff ++ le64_bytes 0x00cf93000000ffff))

abbrev pub data_segment : RegisterValue
data_segment = segment 0 0xffffffff 0x18 0xc093

abbrev pub null_segment : RegisterValue
null_segment = segment 0 0 0 0

abbrev pub initial_registers : List (RegisterName × RegisterValue)
initial_registers =
    (gdtr, table gdt_base (32 - 1))
    ∷ (idtr, table 0 0)
    ∷ (cs, segment 0 0xffffffff 0x10 0xc09b)
    ∷ (ds, data_segment)
    ∷ (es, data_segment)
    ∷ (ss, data_segment)
    ∷ (fs, null_segment)
    ∷ (gs, null_segment)
    ∷ (tr, segment 0 0 0 0x008b)
    ∷ (ldtr, segment 0 0 0 0x0082)
    ∷ (rip, reg64 kernel_base)
    ∷ (rsi, reg64 boot_params)
    ∷ (rflags, reg64 0x2)
    ∷ (cr0, reg64 0x11)
    ∷ (rax, reg64 0)
    ∷ (rbx, reg64 0)
    ∷ (rcx, reg64 0)
    ∷ (rdx, reg64 0)
    ∷ (rdi, reg64 0)
    ∷ (rbp, reg64 0)
    ∷ (rsp, reg64 0)
    ∷ []

unfoldable pub build_initial_registers : Ram → Ram × List (RegisterName × RegisterValue)
build_initial_registers ram = (store_bytes ram gdt_base gdt_bytes, initial_registers)

-- What the processor makes of a descriptor: the base and the 20-bit limit from their pieces, in units
-- of 4 KiB if bit 55 says so, and the attributes from the access byte and the four flags.
abbrev pub loaded_segment : ℕ → ℕ → RegisterValue
loaded_segment word selector =
    let limit = u16 word + 2 ^ 16 * (shr word 48 % 16) in
    segment (shr word 16 % 2 ^ 24 + 2 ^ 24 * shr word 56)
      (if test_bit word 55 then limit * 2 ^ 12 + (2 ^ 12 - 1) else limit) selector
      (u8 (shr word 40) + 2 ^ 12 * (shr word 52 % 16))

-- A name as its place in the enumeration, to tell names apart.
abbrev name_code : RegisterName → ℕ
name_code gdtr = 0
name_code idtr = 1
name_code cs = 2
name_code ds = 3
name_code es = 4
name_code ss = 5
name_code fs = 6
name_code gs = 7
name_code tr = 8
name_code ldtr = 9
name_code rip = 10
name_code rsi = 11
name_code rflags = 12
name_code cr0 = 13
name_code rax = 14
name_code rbx = 15
name_code rcx = 16
name_code rdx = 17
name_code rdi = 18
name_code rbp = 19
name_code rsp = 20

-- What a register is set to.
abbrev pub value_of : RegisterName → List (RegisterName × RegisterValue) → Option RegisterValue
value_of name [] = none
value_of name (v ∷ vs) = if name_code name == name_code v.0 then some v.1 else value_of name vs

-- A segment register is set to the flat segment of 4 GiB that its selector, which is not null, loads
-- from the table at `base`, inside the table's limit: present, of privilege level 0, of 32 bits, and
-- with type 0xb (code, readable) or 0x3 (data, writable).
abbrev pub IsFlat : Ram → ℕ → ℕ → ℕ → Option RegisterValue → Type 0
IsFlat r base limit kind none = ⊥
IsFlat r base limit kind (some (table b l)) = ⊥
IsFlat r base limit kind (some (reg64 v)) = ⊥
IsFlat r base limit kind (some (segment b l selector attributes)) =
    (b ≡ 0)
    × (l ≡ 2 ^ 32 - 1)
    × (0 < selector)
    × (selector + 7 ≤ limit)
    × (attributes ≡ 0xc090 + kind)
    × (loaded_segment (load64 r (base + selector)) selector ≡ segment b l selector attributes)

-- What a Linux kernel of 32 bits relies on when it is entered, with this memory and these registers:
-- protected mode without paging, interrupts off, the code and the data segments flat and in the table
-- that the processor knows, and the instruction pointer and the zero page's address in place.
pub record Enters (r : Ram) (regs : List (RegisterName × RegisterValue)) : Type 0 where
  pub base : ℕ
  pub limit : ℕ
  pub has_table : value_of gdtr regs ≡ some (table base limit)
  pub code : IsFlat r base limit 0xb (value_of cs regs)
  pub data_ds : IsFlat r base limit 0x3 (value_of ds regs)
  pub data_es : IsFlat r base limit 0x3 (value_of es regs)
  pub data_ss : IsFlat r base limit 0x3 (value_of ss regs)
  pub starts : value_of rip regs ≡ some (reg64 kernel_base)
  pub zero_page : value_of rsi regs ≡ some (reg64 boot_params)
  pub control :
      (v : ℕ) × (value_of cr0 regs ≡ some (reg64 v))
      × (test_bit v 0 ≡ true)
      × (test_bit v 31 ≡ false)
  pub flags : (v : ℕ) × (value_of rflags regs ≡ some (reg64 v)) × (test_bit v 9 ≡ false)
  pub blank :
      (value_of rbx regs ≡ some (reg64 0))
      × (value_of rbp regs ≡ some (reg64 0))
      × (value_of rdi regs ≡ some (reg64 0))

-- Whatever memory holds, the table of segments at the base and with the limit that GDTR is set to has
-- the four segments that CS, DS, ES and SS are set to, each flat over 4 GiB, with a selector that is
-- not null and lies inside the limit: code for CS, writable data for the others. The processor starts
-- at the kernel's address with the zero page's in RSI, in protected mode without paging, with
-- interrupts off and with RBX, RBP and RDI 0. Memory outside the 32 bytes of the table is as before.
pub build_initial_registers_lem :
    (ram : Ram)
    → Enters (build_initial_registers ram).0 (build_initial_registers ram).1
      × ((x : ℕ) → (x < gdt_base) ⊎ (gdt_base + 32 ≤ x) → (build_initial_registers ram).0 x ≡ ram x)
unfolding build_initial_registers store_bytes
build_initial_registers_lem ram = (
  record {
    base = 0x1000;
    limit = 31;
    has_table = refl;
    code = (refl, refl, ground arith, ground arith, refl, refl);
    data_ds = (refl, refl, ground arith, ground arith, refl, refl);
    data_es = (refl, refl, ground arith, ground arith, refl, refl);
    data_ss = (refl, refl, ground arith, ground arith, refl, refl);
    starts = refl;
    zero_page = refl;
    control = (0x11, refl, refl, refl);
    flags = (2, refl, refl);
    blank = (refl, refl, refl);
  },
  λ x out. store_bytes_frame ram gdt_base gdt_bytes x out,
)
