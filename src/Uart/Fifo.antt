-- ===== src/Uart/Fifo.antt =====
-- The receive FIFO as a queue of at most 256 bytes.
use tenclaw.Base.{
  ℕ, zero, suc, ◌+◌, ◌-◌, ◌%◌, ◌≤◌, ◌<◌, ◌≡◌, refl, ap, ap₂, ◌∙◌, List, [], ◌∷◌, ◌++◌, arith,
  length, get_or, set, length-set, get_or-set_self, get_or-set_ne, cons_inj,
}
use tenclaw.Uart.{Uart, initial, push_input, pop_rx}

-- The `n` bytes of the ring from position `h` on; positions run past the end of the buffer and are
-- brought back when they are read.
abbrev pub slots : List ℕ → ℕ → ℕ → List ℕ
slots buf h zero = []
slots buf h (suc n) = get_or buf (h % 256) 0 ∷ slots buf (h + 1) n

-- What is waiting to be read, oldest first.
abbrev pub waiting : Uart → List ℕ
waiting u = slots u.rx_buf u.rx_head u.rx_count

pub record IsValid (u : Uart) : Type 0 where
  pub buf_len : length u.rx_buf ≡ 256
  pub head_in : u.rx_head < 256
  pub count_in : u.rx_count ≤ 256
  pub tail_at : u.rx_tail ≡ (u.rx_head + u.rx_count) % 256

slots-mod : (buf : List ℕ) (n h k : ℕ) → h % 256 ≡ k % 256 → slots buf h n ≡ slots buf k n
slots-mod buf zero h k e = refl
slots-mod buf (suc n) h k e =
    ap₂ ◌∷◌ (ap (λ t. get_or buf t 0) e) (slots-mod buf n (h + 1) (k + 1) (omega arith))

-- A write at position `t` is not seen by a window that ends before it.
slots-set_after :
    (buf : List ℕ) (n h t x : ℕ)
    → h + n ≤ t
    → t < h + 256
    → slots (set buf (t % 256) x) h n ≡ slots buf h n
slots-set_after buf zero h t x a b = refl
slots-set_after buf (suc n) h t x a b =
    ap₂ ◌∷◌ (get_or-set_ne buf (t % 256) (h % 256) x 0 (omega arith))
      (slots-set_after buf n (h + 1) t x (omega arith) (omega arith))

slots_snoc :
    (buf : List ℕ) (n h : ℕ)
    → slots buf h (suc n) ≡ slots buf h n ++ (get_or buf ((h + n) % 256) 0 ∷ [])
slots_snoc buf zero h = let e : h + 0 ≡ h = omega arith in rw e
slots_snoc buf (suc n) h =
    let e : h + suc n ≡ h + 1 + n = omega arith in
    rw e (ap (λ t. get_or buf (h % 256) 0 ∷ t) (slots_snoc buf n (h + 1)))

pub length-slots : (buf : List ℕ) (n h : ℕ) → length (slots buf h n) ≡ n
length-slots buf zero h = refl
length-slots buf (suc n) h = ap suc (length-slots buf n (h + 1))

slots-push :
    (buf : List ℕ) (h n t x : ℕ)
    → length buf ≡ 256
    → n < 256
    → t ≡ (h + n) % 256
    → slots (set buf t x) h (n + 1) ≡ slots buf h n ++ (x ∷ [])
slots-push buf h n t x len room e =
    let one_more : n + 1 ≡ suc n = omega arith in
    rw (e, one_more)
      (slots_snoc (set buf ((h + n) % 256) x) n h
        ∙ ap₂ ◌++◌ (slots-set_after buf n h (h + n) x (omega arith) (omega arith))
            (ap (λ b. b ∷ []) (get_or-set_self buf ((h + n) % 256) x 0 (omega arith))))

pub slots-pop :
    (buf : List ℕ) (h n b : ℕ) (bs : List ℕ)
    → h < 256
    → slots buf h n ≡ b ∷ bs
    → (0 < n) × (get_or buf h 0 ≡ b) × (slots buf ((h + 1) % 256) (n - 1) ≡ bs)
slots-pop buf h zero b bs lt e = cc
slots-pop buf h (suc n) b bs lt e =
    let here : h % 256 ≡ h = omega arith in
    let pred_eq : suc n - 1 ≡ n = omega arith in
    let (first, rest) = cons_inj e in
    (
      omega arith,
      rw here at first,
      rw pred_eq (slots-mod buf n ((h + 1) % 256) (h + 1) (omega arith) ∙ rest),
    )

pub slots-nil : (buf : List ℕ) (h n : ℕ) → slots buf h n ≡ [] → n ≡ 0
slots-nil buf h zero e = refl
slots-nil buf h (suc n) e = cc

pub initial-IsValid : IsValid initial
initial-IsValid = record {
  buf_len = refl;
  head_in = omega arith;
  count_in = omega arith;
  tail_at = refl;
}

push_input-IsValid : (u : Uart) (byte : ℕ) → IsValid u → IsValid (push_input u byte)
unfolding push_input
push_input-IsValid u byte v = ground (arith, length-set u.rx_buf u.rx_tail byte)

pop_rx-IsValid : (u : Uart) → IsValid u → IsValid (pop_rx u).1
unfolding pop_rx
pop_rx-IsValid u v = ground arith

push_input_full : (u : Uart) (byte : ℕ) → 256 ≤ u.rx_count → push_input u byte ≡ u
unfolding push_input
push_input_full u byte h = ground arith

push_input_room :
    (u : Uart) (byte : ℕ)
    → u.rx_count < 256
    → push_input u byte ≡ record u {
      rx_buf = set u.rx_buf u.rx_tail byte;
      rx_tail = (u.rx_tail + 1) % 256;
      rx_count = u.rx_count + 1;
    }
unfolding push_input
push_input_room u byte h = ground arith

-- `PushInput` appends the byte while fewer than 256 wait, and drops it otherwise; the port stays
-- valid.
pub push_input_lem :
    (u : Uart) (byte : ℕ)
    → IsValid u
    → IsValid (push_input u byte)
      × ((u.rx_count < 256) → waiting (push_input u byte) ≡ waiting u ++ (byte ∷ []))
      × ((256 ≤ u.rx_count) → push_input u byte ≡ u)
push_input_lem u byte v = (push_input-IsValid u byte v, appended, full)
  where
    appended : (u.rx_count < 256) → waiting (push_input u byte) ≡ waiting u ++ (byte ∷ [])
    appended h =
        rw (push_input_room u byte h)
          (slots-push u.rx_buf u.rx_head u.rx_count u.rx_tail byte v.buf_len h v.tail_at)

    full : (256 ≤ u.rx_count) → push_input u byte ≡ u
    full h = push_input_full u byte h

pop_rx_some :
    (u : Uart)
    → 0 < u.rx_count
    → pop_rx u ≡ (
      get_or u.rx_buf u.rx_head 0,
      record u { rx_head = (u.rx_head + 1) % 256; rx_count = u.rx_count - 1 },
    )
unfolding pop_rx
pop_rx_some u h = ground arith

pop_rx_none : (u : Uart) → u.rx_count ≡ 0 → pop_rx u ≡ (0, u)
unfolding pop_rx
pop_rx_none u h = ground arith

-- `PopRx` takes the oldest byte that waits, or returns 0 and changes nothing if none does; the port
-- stays valid.
pub pop_rx_lem :
    (u : Uart)
    → IsValid u
    → IsValid (pop_rx u).1
      × ((waiting u ≡ []) → pop_rx u ≡ (0, u))
      × ((b : ℕ) (bs : List ℕ)
          → waiting u ≡ b ∷ bs
          → ((pop_rx u).0 ≡ b) × (waiting (pop_rx u).1 ≡ bs))
pop_rx_lem u v = (pop_rx-IsValid u v, empty, taken)
  where
    empty : (waiting u ≡ []) → pop_rx u ≡ (0, u)
    empty e = pop_rx_none u (slots-nil u.rx_buf u.rx_head u.rx_count e)

    taken :
        (b : ℕ) (bs : List ℕ)
        → waiting u ≡ b ∷ bs
        → ((pop_rx u).0 ≡ b) × (waiting (pop_rx u).1 ≡ bs)
    taken b bs e =
        let (some_left, first, rest) = slots-pop u.rx_buf u.rx_head u.rx_count b bs v.head_in e in
        rw (pop_rx_some u some_left) (first, rest)
