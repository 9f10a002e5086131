-- ===== src/Vdagent/Frames.antt =====
-- The bytes of a message, and what a handler reads of them.
use tenclaw.Base.{
  ℕ, zero, suc, ◌+◌, ◌-◌, ◌*◌, ◌/◌, ◌≤◌, ◌<◌, ◌≡◌, refl, ap, ap₂, inl, inr, true, ◌&&◌, List, [],
  ◌∷◌, ◌++◌, arith, ltb, leb, ◌==◌, Bool-cases, length,
}
use tenclaw.Memory.{Ram, load32}
use tenclaw.Memory.Bytes.{load_bytes_agree}
use tenclaw.Vdagent.{
  Vdagent, words_at, view, receive_message, process_message, handle_announce_locked,
  handle_clipboard_grab, handle_clipboard_data, handle_clipboard_request, handle_clipboard_release,
  has_capability, cap_clipboard_selection, announce_capabilities,
}

pub load32-agree :
    (m m' : Ram) (at size : ℕ)
    → at + 4 ≤ size
    → ((i : ℕ) → i < size → m i ≡ m' i)
    → load32 m at ≡ load32 m' at
load32-agree m m' at size h e =
    let a = e at (omega arith) in
    let b = e (at + 1) (omega arith) in
    let c = e (at + 2) (omega arith) in let d = e (at + 2 + 1) (omega arith) in rw (a, b, c, d) refl

pub words_at-agree :
    (m m' : Ram) (at n size : ℕ)
    → at + 4 * n ≤ size
    → ((i : ℕ) → i < size → m i ≡ m' i)
    → words_at m at n ≡ words_at m' at n
words_at-agree m m' at zero size h e = refl
words_at-agree m m' at (suc n) size h e =
    ap₂ ◌∷◌ (load32-agree m m' at size (omega arith) e)
      (words_at-agree m m' (at + 4) n size (omega arith) e)

module _ (m m' : Ram) (size : ℕ) (a : Vdagent) where
  announce-agree :
      ((i : ℕ) → i < size → m i ≡ m' i)
      → handle_announce_locked m size a ≡ handle_announce_locked m' size a
  unfolding handle_announce_locked
  announce-agree e = elim (Bool-cases (ltb size 4)) [
    | inl y ↦ rw y refl
    | inr n ↦ rw n (
        ap (λ ws. record a { guest_caps = ws; guest_caps_received = true })
          (words_at-agree m m' 4 ((size - 4) / 4) size (ground arith) e))
  ]

  grab-agree :
      ((i : ℕ) → i < size → m i ≡ m' i)
      → handle_clipboard_grab m size a ≡ handle_clipboard_grab m' size a
  unfolding handle_clipboard_grab
  grab-agree e = elim (Bool-cases (has_capability cap_clipboard_selection a && leb 4 size)) [
    | inl y ↦
        let at_0 = e 0 (ground arith) in
        let ws = words_at-agree m m' 4 ((size - 4) / 4) size (ground arith) e in
        rw (y, at_0, ws) refl
    | inr n ↦ let ws = words_at-agree m m' 0 (size / 4) size (omega arith) e in rw (n, ws) refl
  ]

  data-agree :
      ((i : ℕ) → i < size → m i ≡ m' i)
      → handle_clipboard_data m size a ≡ handle_clipboard_data m' size a
  unfolding handle_clipboard_data
  data-agree e = elim (Bool-cases (has_capability cap_clipboard_selection a && leb 8 size)) [
    | inl y ↦
        let at_0 = e 0 (ground arith) in
        let type = load32-agree m m' 4 size (ground arith) e in
        let bs = load_bytes_agree m m' 8 (size - 8) (λ x lo hi. e x (ground arith)) in
        rw (y, at_0, type, bs) refl
    | inr n ↦ elim (Bool-cases (leb 4 size)) [
      | inr z ↦ rw (n, z) refl
      | inl y ↦
          let type = load32-agree m m' 0 size (ground arith) e in
          let bs = load_bytes_agree m m' 4 (size - 4) (λ x lo hi. e x (ground arith)) in
          rw (n, y, type, bs) refl
    ]
  ]

  request-agree :
      ((i : ℕ) → i < size → m i ≡ m' i)
      → handle_clipboard_request m size a ≡ handle_clipboard_request m' size a
  unfolding handle_clipboard_request
  request-agree e = elim (Bool-cases (has_capability cap_clipboard_selection a && leb 8 size)) [
    | inl y ↦
        let at_0 = e 0 (ground arith) in
        let type = load32-agree m m' 4 size (ground arith) e in rw (y, at_0, type) refl
    | inr n ↦ elim (Bool-cases (leb 4 size)) [
      | inr z ↦ rw (n, z) refl
      | inl y ↦ let type = load32-agree m m' 0 size (ground arith) e in rw (n, y, type) refl
    ]
  ]

  release-agree :
      ((i : ℕ) → i < size → m i ≡ m' i)
      → handle_clipboard_release m size a ≡ handle_clipboard_release m' size a
  unfolding handle_clipboard_release
  release-agree e = elim (Bool-cases (has_capability cap_clipboard_selection a && leb 1 size)) [
    | inl y ↦ let at_0 = e 0 (ground arith) in rw (y, at_0) refl
    | inr n ↦ rw n refl
  ]

  -- A message is understood from its own bytes, as many as its header says.
  pub receive_message-agree :
      (type : ℕ)
      → ((i : ℕ) → i < size → m i ≡ m' i)
      → receive_message type m size a ≡ receive_message type m' size a
  unfolding receive_message process_message
  receive_message-agree type e = elim (Bool-cases (type == announce_capabilities)) [
    | inl y ↦ elim (Bool-cases (leb 4 size)) [
      | inl z ↦
          let asks = load32-agree m m' 0 size (ground arith) e in
          rw (y, z, announce-agree e, asks) refl
      | inr z ↦ rw (y, z, announce-agree e) refl
    ]
    | inr n ↦ rw (n, grab-agree e, data-agree e, request-agree e, release-agree e) refl
  ]

-- A handler neither looks at the receive buffer nor at what was sent.
abbrev pub framed : List ℕ → List (ℕ × List ℕ) → Vdagent → Vdagent
framed r z a = record a { recv_buffer = r; sent = z }

pub receive_message-framed :
    (type : ℕ) (m : Ram) (size : ℕ) (r : List ℕ) (z : List (ℕ × List ℕ)) (a : Vdagent)
    → receive_message type m size (framed r z a)
      ≡ (framed r z (receive_message type m size a).0, (receive_message type m size a).1)
unfolding receive_message process_message handle_announce_locked handle_clipboard_grab
    handle_clipboard_data handle_clipboard_request handle_clipboard_release
receive_message-framed type m size r z a = ground arith

pub view-append_left :
    (p q : Ram) (xs ys : List ℕ) (i : ℕ) → i < length xs → view p (xs ++ ys) i ≡ view q xs i
view-append_left p q [] ys i h = absurd (omega arith)
view-append_left p q (x ∷ xs) ys zero h = refl
view-append_left p q (x ∷ xs) ys (suc i) h = view-append_left p q xs ys i (omega arith)
