-- ===== src/Agent/Handshake.antt =====
-- The guest's answer to the handshake, after whatever was in the pipe before it.
use tenclaw.Base.{
  ℕ, ◌≡◌, refl, sym, ap, subst, ◌∙◌, ◌≢◌, ◌⊎◌, inl, true, false, List, [], ◌∷◌, ◌++◌, arith, All,
}
use tenclaw.Protocol.{Bytes, codes}
use tenclaw.Protocol.Text.{++-assoc, ++-nil}
use tenclaw.Agent.{
  Agent, receive_byte, collect, send_raw, process_line, process_lines, on_data_received,
  start_sync_handshake, on_port_open, json_has_key, json_get_int,
}
use tenclaw.Agent.Stream.{on_data_received-append}

-- Neither the sentinel nor the end of a line.
abbrev pub IsInner : ℕ → Type 0
IsInner b = (b ≢ 0xff) × ((b ≢ 10) × (b ≢ 13))

collect-inner :
    (buffer s t : Bytes) → All IsInner s → collect buffer (s ++ t) ≡ collect (buffer ++ s) t
unfolding collect receive_byte
collect-inner buffer [] t h = ap (λ b. collect b t) (sym (++-nil buffer))
collect-inner buffer (ch ∷ s) t h =
    let byte : receive_byte buffer ch ≡ ([], buffer ++ (ch ∷ [])) = ground arith in
    ap (λ r. (r.0 ++ (collect r.1 (s ++ t)).0, (collect r.1 (s ++ t)).1)) byte
    ∙ collect-inner (buffer ++ (ch ∷ [])) s t h.1
    ∙ ap (λ b. collect b t) (++-assoc buffer (ch ∷ []) s)

collect_reply :
    (buffer line : Bytes)
    → All IsInner line
    → line ≢ []
    → collect buffer (0xff ∷ (line ++ (10 ∷ []))) ≡ (line ∷ [], [])
unfolding collect receive_byte
collect_reply buffer [] h k = absurd (k refl)
collect_reply buffer (b ∷ line) h k = collect-inner [] (b ∷ line) (10 ∷ []) h

module _ (strtoll : Bytes → ℕ) (to_text : ℕ → Bytes) (id : ℕ) where
  -- The handshake `id` is under way, or done.
  record Waits (a : Agent) : Type 0 where
    same_id : a.sync_id ≡ id
    pending : (a.sync_pending ≡ true) ⊎ ((a.connected ≡ true) × (a.sync_pending ≡ false))

  process_line-Waits : (l : Bytes) (a : Agent) → Waits a → Waits (process_line strtoll to_text l a)
  unfolding process_line
  process_line-Waits l a w = ground arith

  process_lines-Waits :
      (ls : List Bytes) (a : Agent) → Waits a → Waits (process_lines strtoll to_text ls a)
  unfolding process_lines
  process_lines-Waits [] a w = w
  process_lines-Waits (l ∷ ls) a w =
      process_lines-Waits ls (process_line strtoll to_text l a) (process_line-Waits l a w)

  answered :
      (line : Bytes) (a : Agent)
      → Waits a
      → a.recv_buffer ≡ []
      → json_has_key line (codes "return") ≡ true
      → json_get_int strtoll to_text line (codes "return") ≡ id
      → let b = process_line strtoll to_text line a in
        (b.connected ≡ true) × (b.sync_pending ≡ false) × (b.recv_buffer ≡ [])
  unfolding process_line
  answered line a w e k n = ground arith

  -- After the port opens with the handshake `id`, whatever the guest sent before, the sentinel
  -- and a line that returns `id` leave the agent connected, the handshake done and the buffer
  -- empty.
  pub handshake_lem :
      (noise line : Bytes) (a : Agent)
      → All IsInner line
      → line ≢ []
      → json_has_key line (codes "return") ≡ true
      → json_get_int strtoll to_text line (codes "return") ≡ id
      → let b =
          on_data_received strtoll to_text
            (noise ++ (0xff ∷ (line ++ (10 ∷ []))))
            (on_port_open strtoll to_text true id a) in
        (b.connected ≡ true) × (b.sync_pending ≡ false) × (b.recv_buffer ≡ [])
  unfolding on_data_received on_port_open start_sync_handshake send_raw process_lines
  handshake_lem noise line a h e k n =
      let start = on_port_open strtoll to_text true id a in
      let a1 = on_data_received strtoll to_text noise start in
      let reply = 0xff ∷ (line ++ (10 ∷ [])) in
      let waits : Waits a1 =
        process_lines-Waits (collect [] noise).0
          (record start { recv_buffer = (collect [] noise).1 })
          (record { same_id = refl; pending = inl refl }) in
      subst (λ b. (b.connected ≡ true) × (b.sync_pending ≡ false) × (b.recv_buffer ≡ []))
        (sym (
          on_data_received-append strtoll to_text noise reply start
          ∙ ap (λ c. process_lines strtoll to_text c.0 (record a1 { recv_buffer = c.1 }))
              (collect_reply a1.recv_buffer line h e)))
        (answered line (record a1 { recv_buffer = [] })
          (record { same_id = waits.same_id; pending = waits.pending }) refl k n)
