-- ===== src/Serial/Ports.antt =====
-- Which queue serves which port.
use tenclaw.Base.{
  ℕ, ◌+◌, ◌-◌, ◌*◌, ◌/◌, ◌%◌, ◌^◌, ◌<◌, ◌≡◌, refl, sym, ap, ◌≢◌, ◌↔◌, ◌⊎◌, inl, inr, true, false,
  ◌&&◌, none, some, arith, ltb, leb, ◌==◌, Bool-cases, some_inj,
}
use native.Mathlib.Decide.{ℕ_discrete}
use tenclaw.Serial.{Serial, num_queues, port_of, rx_queue}

module _ (d : Serial) where
  there :
      (index p : ℕ)
      → port_of d index ≡ some p
      → (index ≡ rx_queue p + 1) × ((p ≡ 0) ⊎ (p < d.max_ports))
  unfolding port_of
  there index p e = elim (Bool-cases (index == 1)) [
    | inl y ↦
        let f : 0 ≡ p = some_inj (rw y at e) in
        let z : (p == 0) ≡ true = ground arith in rw z (ground arith, inl (sym f))
    | inr n ↦ elim (Bool-cases (leb 5 index && (index - 5) % 2 == 0)) [
      | inr m ↦ absurd (let f : none ≡ some p = rw (n, m) at e in ground arith)
      | inl y ↦ elim (Bool-cases (ltb (1 + (index - 5) / 2) d.max_ports)) [
        | inr m ↦ absurd (let f : none ≡ some p = rw (n, y, m) at e in ground arith)
        | inl z ↦
            let f : 1 + (index - 5) / 2 ≡ p = some_inj (rw (n, y, z) at e) in
            let pos : (p == 0) ≡ false = ground arith in rw pos (ground arith, inr (ground arith))
      ]
    ]
  ]

  back :
      (index p : ℕ)
      → index ≡ rx_queue p + 1
      → (p ≡ 0) ⊎ (p < d.max_ports)
      → port_of d index ≡ some p
  unfolding port_of
  back index p e has = elim (ℕ_discrete p 0) [
    | yes z ↦ let one : (index == 1) ≡ true = ground arith in rw one (ap some (sym z))
    | no nz ↦
        let at : index ≡ 5 + (p - 1) * 2 = ground arith in
        let n : (index == 1) ≡ false = ground arith in
        let y : (leb 5 index && (index - 5) % 2 == 0) ≡ true = ground arith in
        let same : 1 + (index - 5) / 2 ≡ p = omega arith in
        let in_range : ltb p d.max_ports ≡ true = ground arith in rw (n, y, same, in_range) refl
  ]

  -- The queues of a port are its own: with fewer than 2 ^ 30 ports, a queue carries what the guest sends
  -- on a port exactly when it follows the port's receive queue, for a port that the device has or port
  -- 0; and the device has both queues of each of its ports, apart from queues 2 and 3 for control.
  pub port_of_iff :
      (index p : ℕ)
      → d.max_ports < 2 ^ 30
      → (port_of d index ≡ some p ↔ ((index ≡ rx_queue p + 1) × ((p ≡ 0) ⊎ (p < d.max_ports))))
        × (p < d.max_ports
            → (rx_queue p + 1 < num_queues d) × (rx_queue p ≢ 2) × (rx_queue p + 1 ≢ 3))
  unfolding num_queues
  port_of_iff index p small = (
    (there index p, λ h. back index p h.0 h.1),
    λ has. (ground arith, ground arith, ground arith),
  )
