-- ===== src/Input/Answers.antt =====
-- Whatever the driver selects, the device's answer is whole.
use tenclaw.Base.{
  ℕ, ◌+◌, ◌-◌, ◌≤◌, ◌≡◌, refl, inl, inr, Bool, true, false, ◌&&◌, ◌||◌, List, [], ◌∷◌, arith, ltb,
  leb, ◌==◌, if◌then◌else◌, Bool-cases, length, drop, replicate, u32,
}
use tenclaw.Input.Config.{
  SubType, keyboard, tablet, Config, new_config, set_bit_at, set_bits, count_from, name_of, copied,
  properties, axis_info, event_bits, answer, update_config_data, write_config,
}

-- The data area is whole, and the size that the driver reads covers every byte of it that is not 0.
abbrev pub Whole : List ℕ × ℕ → Type 0
Whole a = (length a.0 ≡ 128) × (a.1 ≤ 128) × (drop a.1 a.0 ≡ replicate (128 - a.1) 0)

abbrev pub IsWhole : Config → Type 0
IsWhole c = Whole (c.data_, c.size)

either_way : (b : Bool) (x y : List ℕ × ℕ) → Whole x → Whole y → Whole (if b then x else y)
either_way true x y p q = p
either_way false x y p q = q

event_bits-Whole : (t : SubType) (subsel : ℕ) → Whole (event_bits t subsel)
unfolding event_bits set_bits set_bit_at count_from
event_bits-Whole keyboard s =
    either_way (s == 1) _ _ (refl, ground arith, refl)
      (either_way (s == 0) _ _ (refl, ground arith, refl)
        (either_way (s == 20) _ _ (refl, ground arith, refl)
          (either_way (s == 4) _ _ (refl, ground arith, refl) (refl, ground arith, refl))))
event_bits-Whole tablet s =
    either_way (s == 3) _ _ (refl, ground arith, refl)
      (either_way (s == 2) _ _ (refl, ground arith, refl)
        (either_way (s == 1) _ _ (refl, ground arith, refl)
          (either_way (s == 0) _ _ (refl, ground arith, refl) (refl, ground arith, refl))))

properties-Whole : (t : SubType) → Whole (properties t)
unfolding properties set_bits set_bit_at
properties-Whole keyboard = (refl, ground arith, refl)
properties-Whole tablet = (refl, ground arith, refl)

axis_info-Whole : (t : SubType) (subsel : ℕ) → Whole (axis_info t subsel)
unfolding axis_info
axis_info-Whole keyboard s = (refl, ground arith, refl)
axis_info-Whole tablet s =
    either_way ((s == 0) || (s == 1)) _ _ (refl, ground arith, refl) (refl, ground arith, refl)

name-Whole : (t : SubType) → Whole (copied (name_of t))
name-Whole keyboard = (refl, ground arith, refl)
name-Whole tablet = (refl, ground arith, refl)

answer-Whole : (t : SubType) (select subsel : ℕ) → Whole (answer t select subsel)
unfolding answer
answer-Whole t select s = either_way (select == 1) _ _ (name-Whole t) (
    either_way (select == 2) _ _ (refl, ground arith, refl)
      (either_way (select == 3) _ _ (refl, ground arith, refl)
        (either_way (select == 16) _ _ (properties-Whole t) (
          either_way (select == 17) _ _ (event_bits-Whole t s)
            (either_way (select == 18) _ _ (axis_info-Whole t s) (refl, ground arith, refl))))))

-- A driver's writes, in order: offset, size and value.
abbrev pub run : List (ℕ × ℕ × ℕ) → Config → Config
run [] c = c
run (w ∷ ws) c = run ws (write_config c w.0 w.1 w.2)

write-IsWhole :
    (c : Config) (offset size value : ℕ) → IsWhole c → IsWhole (write_config c offset size value)
unfolding write_config update_config_data
write-IsWhole c offset size value h = elim (Bool-cases (ltb 136 (u32 (offset + size)))) [
  | inl far ↦ rw far h
  | inr near ↦ elim (Bool-cases (leb offset 1 && leb (u32 (offset + size)) 2)) [
    | inl y ↦ rw (near, y) (answer-Whole c.sub_type _ _)
    | inr n ↦ rw (near, n) h
  ]
]

run_from : (ws : List (ℕ × ℕ × ℕ)) (c : Config) → IsWhole c → IsWhole (run ws c)
run_from [] c h = h
run_from (w ∷ ws) c h = run_from ws (write_config c w.0 w.1 w.2) (write-IsWhole c w.0 w.1 w.2 h)

-- Whatever a driver writes to the configuration space of a new device, and in whatever order, the
-- data area keeps its 128 bytes, and the size that the device reports stays inside it and covers
-- every byte that is not 0.
pub run-IsWhole : (t : SubType) (ws : List (ℕ × ℕ × ℕ)) → IsWhole (run ws (new_config t))
run-IsWhole t ws = run_from ws (new_config t) (refl, ground arith, refl)
