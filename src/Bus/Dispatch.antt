-- ===== src/Bus/Dispatch.antt =====
-- An access reaches the device whose window holds the address, at its offset in the window.
use tenclaw.Base.{
  ℕ, zero, suc, ◌+◌, ◌-◌, ◌^◌, ◌≤◌, ◌<◌, ◌≡◌, refl, sym, subst, ◌↔◌, ◌⊎◌, inl, inr, Bool, true,
  false, none, some, List, [], ◌∷◌, arith, Bool-cases, get_elem?, some_inj, All,
}
use tenclaw.Bus.{
  Entry, AddressSpace, Devices, covers_pio, covers_mmio, find_device, handle_port_in,
  handle_port_out, handle_mmio_read, handle_mmio_write,
}

module _ {D : Type 0} where
  -- The address lies in the window, as numbers.
  abbrev pub Holds : ℕ → Entry D → Type 0
  Holds addr e = (e.base ≤ addr) × (addr < e.base + e.size)

  abbrev pub Separate : Entry D → Entry D → Type 0
  Separate e f = (e.base + e.size ≤ f.base) ⊎ (f.base + f.size ≤ e.base)

  -- No two windows overlap.
  abbrev pub Windows : List (Entry D) → Type 0
  Windows [] = Unit {0}
  Windows (e ∷ es) = All (Separate e) es × Windows es

  abbrev pub Unclaimed : ℕ → List (Entry D) → Type 0
  Unclaimed addr es = All (λ e. Holds addr e → ⊥) es

  -- A test that decides `Holds` on the entries of a list.
  abbrev pub Decides : (Entry D → ℕ → Bool) → ℕ → List (Entry D) → Type 0
  Decides covers addr es = All (λ e. (covers e addr ≡ true) ↔ Holds addr e) es

  -- The `n`-th window holds the address.
  abbrev pub HeldAt : ℕ → ℕ → List (Entry D) → Entry D → Type 0
  HeldAt n addr es e = (get_elem? es n ≡ some e) × Holds addr e

  find-Separate :
      (covers : Entry D → ℕ → Bool) (es : List (Entry D)) (n addr : ℕ) (e f : Entry D)
      → All (Separate f) es
      → get_elem? es n ≡ some e
      → Holds addr e
      → Holds addr f
      → ⊥
  find-Separate covers [] n addr e f s g h k = absurd (cc)
  find-Separate covers (x ∷ es) zero addr e f s g h k =
      let same : x ≡ e = some_inj g in
      let apart : Separate f e = subst (Separate f) same s.0 in ground arith
  find-Separate covers (x ∷ es) (suc n) addr e f s g h k =
      find-Separate covers es n addr e f s.1 g h k

  abbrev Found : (Entry D → ℕ → Bool) → List (Entry D) → ℕ → Entry D → Type 0
  Found covers es addr e =
      (find_device covers es addr ≡ some (e.device, addr - e.base)) × (addr - e.base < e.size)

  find_skip :
      (covers : Entry D → ℕ → Bool) (x : Entry D) (es : List (Entry D)) (addr : ℕ)
      → covers x addr ≡ false
      → find_device covers (x ∷ es) addr ≡ find_device covers es addr
  unfolding find_device
  find_skip covers x es addr c = rw c

  at_head :
      (covers : Entry D → ℕ → Bool) (x : Entry D) (es : List (Entry D)) (n addr : ℕ) (e : Entry D)
      → All (Separate x) es
      → Holds addr x
      → covers x addr ≡ true
      → HeldAt n addr (x ∷ es) e
      → Found covers (x ∷ es) addr e
  unfolding find_device
  at_head covers x es zero addr e s hx c h =
      let same : x ≡ e = some_inj h.0 in
      subst (Found covers (x ∷ es) addr) same (rw c refl, omega arith)
  at_head covers x es (suc n) addr e s hx c h =
      absurd (find-Separate covers es n addr e x s h.0 h.1 hx)

  in_tail :
      (covers : Entry D → ℕ → Bool) (x : Entry D) (es : List (Entry D)) (n addr : ℕ) (e : Entry D)
      → (Holds addr x → ⊥)
      → ((n : ℕ) (e : Entry D) → HeldAt n addr es e → Found covers es addr e)
      → HeldAt n addr (x ∷ es) e
      → Found covers es addr e
  in_tail covers x es zero addr e clear found h =
      let same : x ≡ e = some_inj h.0 in absurd (clear (subst (Holds addr) (sym same) h.1))
  in_tail covers x es (suc n) addr e clear found h = found n e h

  -- Among windows that do not overlap, with a test that decides which of them holds the address, the
  -- search finds that one, wherever it was registered, and the offset in it; and it finds none exactly
  -- for an address in no window.
  find_device_lem :
      (covers : Entry D → ℕ → Bool) (es : List (Entry D)) (addr : ℕ)
      → Windows es
      → Decides covers addr es
      → ((n : ℕ) (e : Entry D)
          → HeldAt n addr es e
          → (find_device covers es addr ≡ some (e.device, addr - e.base))
            × (addr - e.base < e.size))
        × ((find_device covers es addr ≡ none) ↔ Unclaimed addr es)
  unfolding find_device
  find_device_lem covers [] addr w d = ((λ n e h. absurd (cc)), ((λ _. tt), (λ _. refl)))
  find_device_lem covers (x ∷ es) addr w d = elim (Bool-cases (covers x addr)) [
    | inl c ↦ (
      (λ n e h. at_head covers x es n addr e w.0 (d.0.0 c) c h),
      (
        (λ e. let t : some (x.device, addr - x.base) ≡ none = rw (c, find_device) at e in cc),
        (λ u. absurd (u.0 (d.0.0 c))),
      ),
    )
    | inr c ↦
        let (found, missing) = find_device_lem covers es addr w.1 d.1 in
        let skip = find_skip covers x es addr c in
        let clear : Holds addr x → ⊥ = λ h. let t = d.0.1 h in cc in
        rw skip (
          (λ n e h. in_tail covers x es n addr e clear found h),
          ((λ e. (clear, missing.0 e)), (λ u. missing.1 u.1)),
        )
  ]

  -- For windows below 2 ^ 64 the test on MMIO addresses decides membership, though its sum is taken
  -- modulo 2 ^ 64; a window that ends at 2 ^ 64 itself answers nothing.
  covers_mmio_lem :
      (e : Entry D) (addr : ℕ)
      → ((e.base + e.size < 2 ^ 64) → (covers_mmio e addr ≡ true) ↔ Holds addr e)
        × ((e.base + e.size ≡ 2 ^ 64) → covers_mmio e addr ≡ false)
  covers_mmio_lem e addr = ((λ h. ((λ c. ground arith), (λ k. ground arith))), (λ h. ground arith))

  covers_pio_lem : (e : Entry D) (port : ℕ) → (covers_pio e port ≡ true) ↔ Holds port e
  covers_pio_lem e port = ((λ c. ground arith), (λ k. ground arith))

  all_pio : (es : List (Entry D)) (port : ℕ) → Decides covers_pio port es
  all_pio [] port = tt
  all_pio (e ∷ es) port = (covers_pio_lem e port, all_pio es port)

  -- Every window ends below 2 ^ 64.
  abbrev pub Narrow : List (Entry D) → Type 0
  Narrow es = All (λ e. e.base + e.size < 2 ^ 64) es

  all_mmio : (es : List (Entry D)) (addr : ℕ) → Narrow es → Decides covers_mmio addr es
  all_mmio [] addr n = tt
  all_mmio (e ∷ es) addr n = ((covers_mmio_lem e addr).0 n.0, all_mmio es addr n.1)

  module _ {W : Type 0} (devices : Devices D W) where
    -- What an access to a port does: it is handled by the window that holds the port, at the port's
    -- offset, or refused, reads as all ones and leaves every device alone.
    abbrev pub PortAccess : AddressSpace D → ℕ → ℕ → ℕ → W → Type 0
    PortAccess s port size value w =
        ((n : ℕ) (e : Entry D)
          → HeldAt n port s.pio_devices e
          → let (v, w') = devices.pio_read e.device (port - e.base) size w in
            (handle_port_in devices s port size w ≡ (true, v, w'))
            × (handle_port_out devices s port size value w
                ≡ (true, devices.pio_write e.device (port - e.base) size value w)))
        × (Unclaimed port s.pio_devices
            → (handle_port_in devices s port size w ≡ (false, 0xffff_ffff, w))
              × (handle_port_out devices s port size value w ≡ (false, w)))

    -- The same of an access to memory, which reads as 0 where it is refused.
    abbrev pub MmioAccess : AddressSpace D → ℕ → ℕ → ℕ → W → Type 0
    MmioAccess s addr size value w =
        ((n : ℕ) (e : Entry D)
          → HeldAt n addr s.mmio_devices e
          → let (v, w') = devices.mmio_read e.device (addr - e.base) size w in
            (handle_mmio_read devices s addr size w ≡ (true, v, w'))
            × (handle_mmio_write devices s addr size value w
                ≡ (true, devices.mmio_write e.device (addr - e.base) size value w)))
        × (Unclaimed addr s.mmio_devices
            → (handle_mmio_read devices s addr size w ≡ (false, 0, w))
              × (handle_mmio_write devices s addr size value w ≡ (false, w)))

    handle_port_lem :
        (s : AddressSpace D) (port size value : ℕ) (w : W)
        → Windows s.pio_devices
        → PortAccess s port size value w
    unfolding handle_port_in handle_port_out
    handle_port_lem s port size value w ok =
        let (found, missing) =
          find_device_lem covers_pio s.pio_devices port ok (all_pio s.pio_devices port) in
        (
          (λ n e h.
              let (f, _) = found n e h in rw (f, handle_port_in, handle_port_out) (refl, refl)),
          (λ u. let f = missing.1 u in rw (f, handle_port_in, handle_port_out) (refl, refl)),
        )

    handle_mmio_lem :
        (s : AddressSpace D) (addr size value : ℕ) (w : W)
        → Windows s.mmio_devices
        → Narrow s.mmio_devices
        → MmioAccess s addr size value w
    unfolding handle_mmio_read handle_mmio_write
    handle_mmio_lem s addr size value w ok narrow =
        let (found, missing) =
          find_device_lem covers_mmio s.mmio_devices addr ok
            (all_mmio s.mmio_devices addr narrow) in
        (
          (λ n e h.
              let (f, _) = found n e h in rw (f, handle_mmio_read, handle_mmio_write) (refl, refl)),
          (λ u. let f = missing.1 u in rw (f, handle_mmio_read, handle_mmio_write) (refl, refl)),
        )

    -- If neither the port windows nor the memory windows overlap one another, and every memory window
    -- ends below 2 ^ 64, then a read or a write of a port or of an address in the `n`-th window is
    -- handled by that window's device, at the offset in the window; any other access is refused,
    -- changes no device, and reads as all ones from a port and as 0 from memory.
    pub handle_access_lem :
        (s : AddressSpace D) (at size value : ℕ) (w : W)
        → Windows s.pio_devices
        → Windows s.mmio_devices
        → Narrow s.mmio_devices
        → PortAccess s at size value w × MmioAccess s at size value w
    handle_access_lem s at size value w ports windows narrow =
        (handle_port_lem s at size value w ports, handle_mmio_lem s at size value w windows narrow)
