-- ===== src/Agent/Connection.antt =====
-- What the callback is told, and when commands go out.
use tenclaw.Base.{
  ℕ, ◌≡◌, refl, ap, subst, inl, inr, Bool, true, false, not, ◌&&◌, List, [], ◌∷◌, ◌++◌, ◌==◌,
  if◌then◌else◌, Bool-cases,
}
use tenclaw.Protocol.{Bytes, codes}
use tenclaw.Agent.{
  Agent, initial, collect, send_raw, process_line, process_lines, on_data_received,
  start_sync_handshake, on_port_open, send_command, send_command_with, shutdown, ping, json_has_key,
  json_get_int,
}

-- From the connection state `e` the notices lead to the state `c`, each telling of a change.
abbrev pub Follows : Bool → List Bool → Bool → Type 0
Follows e [] c = c ≡ e
Follows e (b ∷ bs) c = (b ≡ not e) × Follows b bs c

Follows-append :
    (e c : Bool) (bs : List Bool) → Follows e bs c → Follows e (bs ++ (not c ∷ [])) (not c)
Follows-append e c [] h = (ap not h, refl)
Follows-append e c (b ∷ bs) h = (h.0, Follows-append b c bs h.1)

pub data Event : Type 0 where
  opened : ℕ → Event
  closed : Event
  received : Bytes → Event
  asked_shutdown : Bytes → Event
  asked_ping : Event

module _ (strtoll : Bytes → ℕ) (to_text : ℕ → Bytes) where
  abbrev pub step : Event → Agent → Agent
  step (opened id) a = on_port_open strtoll to_text true id a
  step closed a = on_port_open strtoll to_text false 0 a
  step (received bytes) a = on_data_received strtoll to_text bytes a
  step (asked_shutdown mode) a = shutdown strtoll to_text mode a
  step asked_ping a = ping strtoll to_text a

  abbrev pub run : List Event → Agent → Agent
  run [] a = a
  run (e ∷ es) a = run es (step e a)

  Told : Agent → Type 0
  Told a = Follows false a.notices a.connected

  append_true :
      (a : Agent) → a.connected ≡ false → Told a → Follows false (a.notices ++ (true ∷ [])) true
  unfolding Told
  append_true a e h =
      subst (λ c. Follows false (a.notices ++ (not c ∷ [])) (not c)) e
        (Follows-append false a.connected a.notices h)

  append_false :
      (a : Agent) → a.connected ≡ true → Told a → Follows false (a.notices ++ (false ∷ [])) false
  unfolding Told
  append_false a e h =
      subst (λ c. Follows false (a.notices ++ (not c ∷ [])) (not c)) e
        (Follows-append false a.connected a.notices h)

  with_true :
      (a : Agent)
      → Told a
      → Follows false (if a.connected then a.notices else a.notices ++ (true ∷ [])) true
  unfolding Told
  with_true a h = elim (Bool-cases a.connected) [
    | inl e ↦ rw e (subst (Follows false a.notices) e h)
    | inr e ↦ rw e (append_true a e h)
  ]

  with_false :
      (a : Agent)
      → Told a
      → Follows false (if a.connected then a.notices ++ (false ∷ []) else a.notices) false
  unfolding Told
  with_false a h = elim (Bool-cases a.connected) [
    | inl e ↦ rw e (append_false a e h)
    | inr e ↦ rw e (subst (Follows false a.notices) e h)
  ]

  if-Told : (c : Bool) (x y : Agent) → Told x → Told y → Told (if c then x else y)
  if-Told true x y h k = h
  if-Told false x y h k = k

  process_line-Told : (l : Bytes) (a : Agent) → Told a → Told (process_line strtoll to_text l a)
  unfolding Told process_line
  process_line-Told l a h =
      if-Told (a.sync_pending && json_has_key l (codes "return")) _ a
        (if-Told (json_get_int strtoll to_text l (codes "return") == a.sync_id) _ a (with_true a h)
          h)
        h

  process_lines-Told :
      (ls : List Bytes) (a : Agent) → Told a → Told (process_lines strtoll to_text ls a)
  unfolding process_lines
  process_lines-Told [] a h = h
  process_lines-Told (l ∷ ls) a h =
      process_lines-Told ls (process_line strtoll to_text l a) (process_line-Told l a h)

  step-Told : (e : Event) (a : Agent) → Told a → Told (step e a)
  unfolding Told on_port_open start_sync_handshake send_raw on_data_received shutdown ping
      send_command send_command_with
  step-Told (opened id) a h = h
  step-Told closed a h = with_false a h
  step-Told (received bytes) a h =
      process_lines-Told (collect a.recv_buffer bytes).0
        (record a { recv_buffer = (collect a.recv_buffer bytes).1 }) h
  step-Told (asked_shutdown mode) a h = if-Told (not a.connected) a _ h h
  step-Told asked_ping a h = if-Told (not a.connected) a _ h h

  -- Over any history from the start the callback is told of every change of the connection and of
  -- nothing else: what it was told begins with "connected", alternates, and ends with the present
  -- state.
  pub run-Follows :
      (es : List Event) → Follows false (run es initial).notices (run es initial).connected
  unfolding Told
  run-Follows es = run-Told es initial refl
    where
      run-Told : (es : List Event) (a : Agent) → Told a → Told (run es a)
      run-Told [] a h = h
      run-Told (e ∷ es) a h = run-Told es (step e a) (step-Told e a h)
