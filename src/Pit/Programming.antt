-- ===== src/Pit/Programming.antt =====
-- How the guest programs a channel and reads its count.
use tenclaw.Base.{
  ℕ, zero, suc, ◌+◌, ◌*◌, ◌/◌, ◌%◌, ◌^◌, ◌<◌, ◌≡◌, true, false, [], ◌∷◌, arith, u8, All, modify,
}
use tenclaw.Pit.{Channel, Pit, current_count, read_channel, control, write_channel, pio_write}

pub record IsValid (c : Channel) : Type 0 where
  pub reload_fits : c.reload < 2 ^ 16
  pub latch_fits : c.latched_value < 2 ^ 16
  pub mode_fits : c.mode < 8
  pub access_fits : c.access < 4

module _ (clock : ℕ → ℕ → ℕ) where
  -- A control word for low-then-high access in mode `m`, then the two bytes of a reload value: the
  -- channel counts from that value, in that mode, from the moment of the second byte.
  pub program_lem :
      (t0 t1 t2 m lo hi : ℕ) (c : Channel)
      → m < 8
      → lo < 2 ^ 8
      → hi < 2 ^ 8
      → let c' =
          write_channel clock t2 hi (write_channel clock t1 lo (control clock t0 (48 + 2 * m) c)) in
        (c'.reload ≡ lo + 2 ^ 8 * hi)
        × (c'.mode ≡ m)
        × (c'.armed ≡ true)
        × (c'.start_tsc ≡ t2)
        × (c'.write_lo_next ≡ true)
  unfolding control write_channel
  program_lem t0 t1 t2 m lo hi c hm hl hh = ground arith

  current_count-lt : (t : ℕ) (c : Channel) → current_count clock t c < 2 ^ 16
  unfolding current_count
  current_count-lt t c = ground arith

  -- On a channel of low-then-high access that is about to read the low byte, a latched count is
  -- read back whole, however much later the two reads come; then the channel counts on, and the
  -- next pair of reads starts with the low byte again.
  pub latch_lem :
      (t0 t1 t2 val : ℕ) (c : Channel)
      → val / 2 ^ 4 % 4 ≡ 0
      → c.access ≡ 3
      → c.read_lo_next ≡ true
      → let (lo, c1) = read_channel clock t1 (control clock t0 val c) in
        let (hi, c2) = read_channel clock t2 c1 in
        (lo + 2 ^ 8 * hi ≡ current_count clock t0 c)
        × (c2.latch_pending ≡ false)
        × (c2.read_lo_next ≡ true)
  unfolding control read_channel
  latch_lem t0 t1 t2 val c hv ha hr = ground (arith, current_count-lt t0 c)

  control-IsValid :
      (t val : ℕ) (c : Channel) → val < 2 ^ 8 → IsValid c → IsValid (control clock t val c)
  unfolding control
  control-IsValid t val c h v = ground (arith, current_count-lt t c)

  write_channel-IsValid :
      (t val : ℕ) (c : Channel) → val < 2 ^ 8 → IsValid c → IsValid (write_channel clock t val c)
  unfolding write_channel
  write_channel-IsValid t val c h v = ground arith

  All-modify :
      (p : Pit) (i : ℕ) (f : Channel → Channel)
      → ((c : Channel) → IsValid c → IsValid (f c))
      → All IsValid p
      → All IsValid (modify p i f)
  All-modify [] i f k h = tt
  All-modify (c ∷ p) zero f k h = (k c h.0, h.1)
  All-modify (c ∷ p) (suc i) f k h = (h.0, All-modify p i f k h.1)

  -- No write lets a register of any channel outgrow its width.
  pub pio_write-IsValid :
      (t : ℕ) (p : Pit) (offset value : ℕ)
      → All IsValid p
      → All IsValid (pio_write clock t p offset value)
  unfolding pio_write
  pio_write-IsValid t p offset value v =
      let val = u8 value in
      ground (
        arith,
        All-modify p (val / 2 ^ 6 % 4) (control clock t val)
            (λ c. control-IsValid t val c (omega arith)) v,
        All-modify p offset (write_channel clock t val)
            (λ c. write_channel-IsValid t val c (omega arith)) v,
      )
