-- ===== src/Serial/Events.antt =====
-- What the control messages of the guest do to the ports.
use tenclaw.Base.{
  ℕ, zero, suc, ◌+◌, ◌<◌, ◌≡◌, refl, sym, ap, subst, ◌∙◌, inl, inr, Bool, true, false, ◌&&◌, none,
  some, List, [], ◌∷◌, ◌++◌, arith, ltb, ◌==◌, if◌then◌else◌, Bool-cases, Option-cases, length,
  get_elem?, modify, length-modify,
}
use tenclaw.Protocol.Text.{++-assoc, ++-nil}
use tenclaw.Serial.{
  Serial, PortState, Work, Control, is_port_connected, port_open, port_ready, device_ready,
  put_control, send_control_message, send_port_name, add_ports, open_port, handle_event,
}

put_control-serial : (msg : List ℕ) (w : Work) → (put_control msg w).serial ≡ w.serial
unfolding put_control
put_control-serial msg w = ground arith

send_port_name-serial : (port_id : ℕ) (w : Work) → (send_port_name port_id w).serial ≡ w.serial
unfolding send_port_name
send_port_name-serial port_id w = elim (Option-cases (get_elem? w.serial.ports port_id)) [
  | inl e ↦ rw (send_port_name, e) refl
  | inr (port, e) ↦ elim (Bool-cases (length port.name == 0)) [
    | inl y ↦ rw (send_port_name, e, y) refl
    | inr n ↦ rw (send_port_name, e, n) (put_control-serial _ w)
  ]
]

add_ports-serial : (i n : ℕ) (w : Work) → (add_ports i n w).serial ≡ w.serial
unfolding add_ports
add_ports-serial i zero w = refl
add_ports-serial i (suc n) w =
    add_ports-serial (i + 1) n (send_control_message i 1 1 w) ∙ put_control-serial _ w

-- The control messages that were read from queue 3, in order.
abbrev pub handle_events : List Control → Work → Work
handle_events [] w = w
handle_events (c ∷ cs) w = handle_events cs (handle_event c w)

-- The message opens or closes a port that the device has.
abbrev pub concerns : ℕ → Control → Bool
concerns n c = c.event == port_open && ltb c.id n

-- Whether port `p` is open after the messages, and what the callback is to be told.
abbrev pub open_after : ℕ → ℕ → List Control → Bool → Bool
open_after n p [] b = b
open_after n p (c ∷ cs) b =
    open_after n p cs (if concerns n c && c.id == p then c.value == 1 else b)

abbrev pub told_by : ℕ → List Control → List (ℕ × Bool)
told_by n [] = []
told_by n (c ∷ cs) =
    let rest = told_by n cs in if concerns n c then (c.id, c.value == 1) ∷ rest else rest

abbrev connected_at : List PortState → ℕ → Bool
connected_at ports p = elim (get_elem? ports p) [ none ↦ false | some s ↦ s.guest_connected ]

abbrev with_open : Bool → PortState → PortState
with_open b s = record s { guest_connected = b }

connected_at-modify :
    (ports : List PortState) (id p : ℕ) (b : Bool)
    → p < length ports
    → connected_at (modify ports id (with_open b)) p ≡ (if id == p then b else connected_at ports p)
connected_at-modify [] id p b h = absurd (omega arith)
connected_at-modify (s ∷ ss) zero zero b h = refl
connected_at-modify (s ∷ ss) zero (suc p) b h =
    let e : (zero == suc p) ≡ false = ground arith in rw e refl
connected_at-modify (s ∷ ss) (suc id) zero b h =
    let e : (suc id == zero) ≡ false = ground arith in rw e refl
connected_at-modify (s ∷ ss) (suc id) (suc p) b h =
    let e : (suc id == suc p) ≡ (id == p) = elim (Bool-cases (id == p)) [
      | inl y ↦ ground arith
      | inr n ↦ ground arith
    ] in
    rw e (connected_at-modify ss id p b (omega arith))

-- A message of another kind leaves the device's own state alone.
other-serial :
    (c : Control) (w : Work)
    → concerns (length w.serial.ports) c ≡ false
    → (handle_event c w).serial ≡ w.serial
unfolding handle_event
other-serial c w h = elim (Bool-cases (c.event == device_ready)) [
  | inl y ↦ elim (Bool-cases (c.value == 1)) [
    | inl z ↦ rw (y, z) (add_ports-serial 0 w.serial.max_ports w)
    | inr z ↦ rw (y, z) refl
  ]
  | inr n ↦ elim (Bool-cases (c.event == port_ready)) [
    | inl y ↦ elim (Bool-cases (ltb c.id (length w.serial.ports) && c.value == 1)) [
      | inl z ↦
          rw (n, y, z) (put_control-serial _ (send_port_name c.id w) ∙ send_port_name-serial c.id w)
      | inr z ↦ rw (n, y, z) refl
    ]
    | inr m ↦ elim (Bool-cases (c.event == port_open)) [
      | inl y ↦
          let out : ltb c.id (length w.serial.ports) ≡ false = ground arith in
          rw (n, m, y, out) refl
      | inr y ↦ rw (n, m, y) refl
    ]
  ]
]

open-serial :
    (c : Control) (w : Work)
    → concerns (length w.serial.ports) c ≡ true
    → (handle_event c w).serial ≡ open_port c.id (c.value == 1) w.serial
unfolding handle_event
open-serial c w h =
    let a : (c.event == device_ready) ≡ false = ground arith in
    let b : (c.event == port_ready) ≡ false = ground arith in
    let d : (c.event == port_open) ≡ true = ground arith in
    let e : ltb c.id (length w.serial.ports) ≡ true = ground arith in rw (a, b, d, e) refl

-- One message, and what is left of a history.
record Stepped (n p : ℕ) (c : Control) (old new : Serial) : Type 0 where
  ports_kept : length new.ports ≡ n
  callback_kept : new.has_port_callback ≡ old.has_port_callback
  connected : is_port_connected new p ≡ open_after n p (c ∷ []) (is_port_connected old p)
  told : old.has_port_callback ≡ true → new.notices ≡ old.notices ++ told_by n (c ∷ [])

open_port-ports :
    (id : ℕ) (b : Bool) (d : Serial) → (open_port id b d).ports ≡ modify d.ports id (with_open b)
unfolding open_port
open_port-ports id b d = elim (Bool-cases d.has_port_callback) [
  | inl y ↦ rw y refl
  | inr n ↦ rw n refl
]

open_port-callback :
    (id : ℕ) (b : Bool) (d : Serial) → (open_port id b d).has_port_callback ≡ d.has_port_callback
unfolding open_port
open_port-callback id b d = elim (Bool-cases d.has_port_callback) [
  | inl y ↦ rw y refl
  | inr n ↦ rw n refl
]

open_port-Stepped :
    (p : ℕ) (c : Control) (d : Serial)
    → p < length d.ports
    → concerns (length d.ports) c ≡ true
    → Stepped (length d.ports) p c d (open_port c.id (c.value == 1) d)
unfolding open_port is_port_connected
open_port-Stepped p c d h is =
    let b = c.value == 1 in
    let same = open_port-ports c.id b d in
    record {
      ports_kept = ap length same ∙ length-modify d.ports c.id (with_open b);
      callback_kept = open_port-callback c.id b d;
      connected =
          ap (λ ps. connected_at ps p) same ∙ connected_at-modify d.ports c.id p b h ∙ rw is refl;
      told = λ e. rw (e, is) refl;
    }

Stepped-same :
    (p : ℕ) (c : Control) (d : Serial)
    → concerns (length d.ports) c ≡ false
    → Stepped (length d.ports) p c d d
Stepped-same p c d is = record {
  ports_kept = refl;
  callback_kept = refl;
  connected = rw is refl;
  told = λ e. rw is (sym (++-nil d.notices));
}

handle_event-Stepped :
    (p : ℕ) (c : Control) (w : Work)
    → p < length w.serial.ports
    → Stepped (length w.serial.ports) p c w.serial (handle_event c w).serial
handle_event-Stepped p c w h = elim (Bool-cases (concerns (length w.serial.ports) c)) [
  | inl y ↦
      subst (Stepped (length w.serial.ports) p c w.serial) (sym (open-serial c w y))
        (open_port-Stepped p c w.serial h y)
  | inr n ↦
      subst (Stepped (length w.serial.ports) p c w.serial) (sym (other-serial c w n))
        (Stepped-same p c w.serial n)
]

told-after :
    (n : ℕ) (c : Control) (cs : List Control)
    → told_by n (c ∷ cs) ≡ told_by n (c ∷ []) ++ told_by n cs
told-after n c cs = elim (Bool-cases (concerns n c)) [ inl y ↦ rw y refl | inr m ↦ rw m refl ]

-- After any control messages of the guest a port is connected exactly as the last message that opened
-- or closed it says, or as before if there was none; and the port callback was told of each of these
-- messages for a port that the device has, in order, and of nothing else.
pub handle_events_lem :
    (cs : List Control) (w : Work) (p : ℕ)
    → p < length w.serial.ports
    → w.serial.has_port_callback ≡ true
    → let n = length w.serial.ports in
      let d = (handle_events cs w).serial in
      (is_port_connected d p ≡ open_after n p cs (is_port_connected w.serial p))
      × (d.notices ≡ w.serial.notices ++ told_by n cs)
handle_events_lem [] w p h on = (refl, sym (++-nil w.serial.notices))
handle_events_lem (c ∷ cs) w p h on =
    let n = length w.serial.ports in
    let w1 = handle_event c w in
    let s = handle_event-Stepped p c w h in
    let (open_, told) =
      handle_events_lem cs w1 p (omega (arith, s.ports_kept)) (s.callback_kept ∙ on) in
    (
      open_
          ∙ ap (λ k. open_after k p cs (is_port_connected w1.serial p)) s.ports_kept
          ∙ ap (open_after n p cs) s.connected,
      told
          ∙ ap (λ k. w1.serial.notices ++ told_by k cs) s.ports_kept
          ∙ ap (λ l. l ++ told_by n cs) (s.told on)
          ∙ ++-assoc w.serial.notices (told_by n (c ∷ [])) (told_by n cs)
          ∙ ap (λ l. w.serial.notices ++ l) (sym (told-after n c cs)),
    )
