-- ===== src/Pit/Counting.antt =====
-- The counter as a function of the ticks that have passed.
use tenclaw.Base.{ℕ, ◌+◌, ◌%◌, ◌^◌, ◌≤◌, ◌<◌, ◌≡◌, ◌≢◌, ◌↔◌, ◌⊎◌, true, arith}
use native.Mathlib.Nat.{mod-lt, add-mod_right}
use tenclaw.Pit.{Channel, period, elapsed_pit_ticks, current_count, output_high}

period_pos : (c : Channel) → 0 < period c
period_pos c = ground arith

module _ (clock : ℕ → ℕ → ℕ) (now : ℕ) (c : Channel) (fits : c.reload < 2 ^ 16) where
  -- In mode 0 the count and the ticks passed make up the period until the count is out, and the
  -- output goes high exactly then. (A full period of 65536 reads as 0 before the first tick.)
  pub one_shot :
      c.mode ≡ 0
      → c.armed ≡ true
      → ((elapsed_pit_ticks clock now c < period c)
          → (0 < elapsed_pit_ticks clock now c) ⊎ (c.reload ≢ 0)
          → current_count clock now c + elapsed_pit_ticks clock now c ≡ period c)
        × ((period c ≤ elapsed_pit_ticks clock now c) → current_count clock now c ≡ 0)
        × ((output_high clock now c ≡ true) ↔ (period c ≤ elapsed_pit_ticks clock now c))
  unfolding current_count output_high
  one_shot m a =
      ((λ h k. ground arith), (λ h. ground arith), ((λ h. ground arith), (λ h. ground arith)))

  -- In the periodic modes the count stays between 1 and the period (65536 reading as 0), and repeats
  -- itself when another period of ticks has passed.
  pub periodic :
      c.mode ≢ 0
      → (current_count clock now c ≤ period c)
        × ((c.reload ≢ 0) → 1 ≤ current_count clock now c)
        × ((later : ℕ)
            → elapsed_pit_ticks clock later c ≡ elapsed_pit_ticks clock now c + period c
            → current_count clock later c ≡ current_count clock now c)
  unfolding current_count
  periodic m =
      let lt = mod-lt (elapsed_pit_ticks clock now c) (period_pos c) in
      (ground (arith, lt), (λ h. ground (arith, lt)), again)
    where
      wrap : (t : ℕ) → (t + period c) % period c ≡ t % period c
      wrap t = add-mod_right t (period c)

      again :
          (later : ℕ)
          → elapsed_pit_ticks clock later c ≡ elapsed_pit_ticks clock now c + period c
          → current_count clock later c ≡ current_count clock now c
      again later e = rw (e, current_count, wrap (elapsed_pit_ticks clock now c)) (ground arith)
