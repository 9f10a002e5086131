-- ===== src/Pit.antt =====
-- core/device/timer/i8254_pit.h and i8254_pit.cpp: the 8254 timer and port 0x61.
-- Time comes from the host's time-stamp counter and is scaled in floating point: `clock` is that
-- computation as a parameter, from the counter's value now and at the start to PIT ticks elapsed.
pub mod Counting
pub mod Programming
mod Tests
use tenclaw.Base.{
  ℕ, zero, suc, ◌+◌, ◌-◌, ◌*◌, ◌/◌, ◌%◌, ◌^◌, ◌≤◌, ◌<◌, min, ◌≡◌, refl, sym, ap, ap₂, subst, ◌∙◌,
  ◌≢◌, ◌↔◌, ◌⊎◌, inl, inr, Bool, true, false, not, ◌&&◌, ◌||◌, Option, none, some, List, [], ◌∷◌,
  ◌++◌, arith, ltb, leb, ◌==◌, if◌then◌else◌, Bool-cases, Option-cases, length, get_or, set, take,
  drop, replicate, u8, u16, u32, u64, shr, shl, test_bit, set_bit, clear_bit, with_low32,
  with_high32, get_elem?, ==_iff, length-append, length-set, get_or-set_self, get_or-set_ne,
  length-take, length-drop, some_inj, cons_inj, All, modify, length-replicate, length-modify,
  get_or-modify_self, get_or-modify_ne,
}

pub record Channel : Type 0 where
  pub reload : ℕ
  pub mode : ℕ
  pub access : ℕ
  pub latch_pending : Bool
  pub latched_value : ℕ
  pub write_lo_next : Bool
  pub read_lo_next : Bool
  pub armed : Bool
  pub start_tsc : ℕ

abbrev pub idle : Channel
idle = record {
  reload = 0;
  mode = 0;
  access = 0;
  latch_pending = false;
  latched_value = 0;
  write_lo_next = true;
  read_lo_next = true;
  armed = false;
  start_tsc = 0;
}

abbrev pub Pit : Type 0
Pit = List Channel

abbrev pub initial : Pit
initial = replicate 3 idle

-- A reload value of 0 stands for 65536.
abbrev pub period : Channel → ℕ
period c = if c.reload == 0 then 65536 else c.reload

module _ (clock : ℕ → ℕ → ℕ) (now : ℕ) where
  unfoldable pub elapsed_pit_ticks : Channel → ℕ
  elapsed_pit_ticks c = if c.armed then clock now c.start_tsc else 0

  unfoldable pub current_count : Channel → ℕ
  current_count c =
      let ticks = elapsed_pit_ticks c in
      if c.mode == 0
      then (if leb (period c) ticks then 0 else u16 (period c - ticks))
      else u16 (period c - ticks % period c)

  unfoldable pub output_high : Channel → Bool
  output_high c =
      let ticks = elapsed_pit_ticks c in
      if c.mode == 0
      then c.armed && leb (period c) ticks
      else if c.mode == 2
      then not (ticks % period c == period c - 1)
      else if c.mode == 3
      then ltb (ticks % period c) (period c / 2)
      else true

  -- The value that a read of the channel's port returns, and the channel after it.
  unfoldable pub read_channel : Channel → ℕ × Channel
  read_channel c =
      let count = if c.latch_pending then c.latched_value else current_count c in
      let lo = u8 count in
      let hi = shr count 8 % 2 ^ 8 in
      if c.access == 1
      then (lo, record c { latch_pending = false })
      else if c.access == 2
      then (hi, record c { latch_pending = false })
      else if c.read_lo_next
      then (lo, record c { read_lo_next = false })
      else (hi, record c { read_lo_next = true; latch_pending = false })

  unfoldable pub pio_read : Pit → ℕ → ℕ × Pit
  pio_read p offset =
      if leb 3 offset
      then (0xff, p)
      else let (value, c) = read_channel (get_or p offset idle) in (value, set p offset c)

  -- The control word for a channel: latch the count, or set the access and the mode.
  unfoldable pub control : ℕ → Channel → Channel
  control val c =
      let access = shr val 4 % 4 in
      if access == 0
      then record c { latch_pending = true; latched_value = current_count c }
      else record c {
        access = access;
        mode = shr val 1 % 8;
        armed = false;
        write_lo_next = true;
        read_lo_next = true;
      }

  -- A byte written to the channel's port: the low or the high half of the reload value.
  unfoldable pub write_channel : ℕ → Channel → Channel
  write_channel val c =
      let lo = shl (shr c.reload 8) 8 + val in
      let hi = u8 c.reload + shl val 8 in
      if c.access == 1
      then record c { reload = lo; armed = true; start_tsc = now }
      else if c.access == 2
      then record c { reload = hi; armed = true; start_tsc = now }
      else if c.write_lo_next
      then record c { reload = lo; write_lo_next = false }
      else record c { reload = hi; write_lo_next = true; armed = true; start_tsc = now }

  unfoldable pub pio_write : Pit → ℕ → ℕ → Pit
  pio_write p offset value =
      let val = u8 value in
      let number = shr val 6 % 4 in
      if offset == 3
      then (if number == 3 then p else modify p number (control val))
      else if leb 3 offset
      then p
      else modify p offset (write_channel val)

  -- `SystemControlB::PioRead`: bit 5 shows channel 2's output.
  unfoldable pub control_b_read : ℕ → Pit → ℕ
  control_b_read value p =
      if output_high (get_or p 2 idle) then set_bit value 5 else clear_bit value 5

-- `SystemControlB::PioWrite`
unfoldable pub control_b_write : ℕ → ℕ
control_b_write value = u8 value
