-- ===== src/Vdagent/Waits.antt =====
-- The loop on the receive buffer goes on until no whole chunk is left.
use tenclaw.Base.{
  ℕ, zero, suc, ◌+◌, ◌≤◌, ◌<◌, ◌≡◌, sym, ap, subst, ◌⊎◌, inl, inr, List, ◌++◌, arith, ltb,
  Bool-cases, length, drop, length-drop,
}
use tenclaw.Memory.{Ram, load32}
use tenclaw.Vdagent.{
  Vdagent, view, receive_loop, receive_chunk, receive_message, on_data_received,
  send_announce_capabilities, send_message, process_message, handle_announce_locked,
  handle_announce_capabilities, handle_clipboard_grab, handle_clipboard_data,
  handle_clipboard_request, handle_clipboard_release,
}

module _ (past : List ℕ → Ram) where
  -- Bytes of the header or of the chunk are missing.
  abbrev pub Waits : List ℕ → Type 0
  Waits buffer = (length buffer < 8) ⊎ (length buffer < 8 + load32 (view (past buffer) buffer) 4)

  chunk-buffer :
      (size : ℕ) (a : Vdagent) → (receive_chunk past size a).0.recv_buffer ≡ a.recv_buffer
  unfolding receive_chunk receive_message process_message handle_announce_locked
      handle_announce_capabilities handle_clipboard_grab handle_clipboard_data
      handle_clipboard_request handle_clipboard_release send_announce_capabilities send_message
  chunk-buffer size a = ground arith

  loop-Waits :
      (fuel : ℕ) (a : Vdagent)
      → length a.recv_buffer ≤ fuel
      → Waits (receive_loop past fuel a).0.recv_buffer
  unfolding receive_loop
  loop-Waits zero a h = inl (omega arith)
  loop-Waits (suc fuel) a h =
      let size = load32 (view (past a.recv_buffer) a.recv_buffer) 4 in
      elim (Bool-cases (ltb (length a.recv_buffer) 8)) [
        | inl y ↦ rw y (inl (ground arith))
        | inr n ↦ elim (Bool-cases (ltb (length a.recv_buffer) (8 + size))) [
          | inl y ↦ rw (n, y) (inr (ground arith))
          | inr m ↦
              let b = (receive_chunk past size a).0 in
              let same = chunk-buffer size a in
              let len = length-drop (8 + size) b.recv_buffer in
              let kept : length b.recv_buffer ≡ length a.recv_buffer = ap length same in
              rw (n, m)
                (loop-Waits fuel (record b { recv_buffer = drop (8 + size) b.recv_buffer })
                  (ground arith))
        ]
      ]

  announce-buffer : (a : Vdagent) → (send_announce_capabilities a).recv_buffer ≡ a.recv_buffer
  unfolding send_announce_capabilities send_message
  announce-buffer a = ground arith

  -- Whatever bytes came, and whatever sizes they claim, the loop ends with no whole chunk left in the
  -- buffer: what waits lacks bytes of its chunk's header or of its chunk.
  pub on_data_received-Waits :
      (bytes : List ℕ) (a : Vdagent) → Waits (on_data_received past bytes a).recv_buffer
  unfolding on_data_received
  on_data_received-Waits bytes a =
      let buffer = a.recv_buffer ++ bytes in
      let r = receive_loop past (length buffer) (record a { recv_buffer = buffer }) in
      let w = loop-Waits (length buffer) (record a { recv_buffer = buffer }) (omega arith) in
      elim (Bool-cases r.1) [
        | inl y ↦ rw y (subst Waits (sym (announce-buffer r.0)) w)
        | inr n ↦ rw n w
      ]
