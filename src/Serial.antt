-- ===== src/Serial.antt =====
-- core/device/virtio/virtio_serial.h and virtio_serial.cpp: the virtio serial ports, with the transport
-- attached. What the data callback and the port callback are told is recorded. A notification comes
-- with its queue; the control handler works on that one, which is queue 3, and sends on queue 2 of the
-- transport.
pub mod Ports
mod Tests
pub mod Deliver
pub mod Events
use tenclaw.Base.{
  ℕ, zero, suc, ◌+◌, ◌-◌, ◌*◌, ◌/◌, ◌%◌, ◌^◌, ◌≤◌, ◌<◌, min, ◌≡◌, refl, sym, ap, ap₂, subst, ◌∙◌,
  ◌≢◌, ◌↔◌, ◌⊎◌, inl, inr, Bool, true, false, not, ◌&&◌, ◌||◌, Option, none, some, List, [], ◌∷◌,
  ◌++◌, arith, ltb, leb, ◌==◌, if◌then◌else◌, Bool-cases, Option-cases, length, get_or, set, take,
  drop, replicate, u8, u16, u32, u64, shr, shl, test_bit, set_bit, clear_bit, with_low32,
  with_high32, get_elem?, ==_iff, length-append, length-set, get_or-set_self, get_or-set_ne,
  length-take, length-drop, some_inj, cons_inj, All, modify, length-replicate, length-modify,
  get_or-modify_self, get_or-modify_ne,
}
use tenclaw.Memory.{Ram, load_bytes, store_bytes}
use tenclaw.Virtqueue.{VirtQueue, VirtqChainElem, pop_avail, walk_chain, push_used}
use tenclaw.Virtqueue.Avail.{drain}
use tenclaw.Mmio.{Mmio, notify_used_buffer}
use tenclaw.Blk.{le_bytes, le_value}

-- `PortState`
pub record PortState : Type 0 where
  pub name : List ℕ
  pub guest_connected : Bool
  pub host_connected : Bool

pub record Serial : Type 0 where
  pub max_ports : ℕ
  pub ports : List PortState
  pub driver_ready : Bool
  -- What the callbacks were told, if they are set.
  pub has_data_callback : Bool
  pub has_port_callback : Bool
  pub received : List (ℕ × List ℕ)
  pub notices : List (ℕ × Bool)

abbrev pub new_port : PortState
new_port = record { name = []; guest_connected = false; host_connected = true }

abbrev pub new_serial : ℕ → Serial
new_serial max_ports = record {
  max_ports = max_ports;
  ports = replicate max_ports new_port;
  driver_ready = false;
  has_data_callback = false;
  has_port_callback = false;
  received = [];
  notices = [];
}

abbrev pub set_data_callback : Serial → Serial
set_data_callback d = record d { has_data_callback = true }

abbrev pub set_port_open_callback : Serial → Serial
set_port_open_callback d = record d { has_port_callback = true }

-- MULTIPORT and VERSION_1
abbrev pub features : ℕ
features = 2 ^ 1 + 2 ^ 32

unfoldable pub num_queues : Serial → ℕ
num_queues d = u32 (4 + (if ltb 1 d.max_ports then u32 ((d.max_ports - 1) * 2) else 0))

unfoldable pub is_port_connected : Serial → ℕ → Bool
is_port_connected d port_id = elim (get_elem? d.ports port_id) [
  | none ↦ false
  | some p ↦ p.guest_connected
]

abbrev pub set_port_name : ℕ → List ℕ → Serial → Serial
set_port_name port_id name d = record d {
  ports = modify d.ports port_id (λ p. record p { name = name });
}

-- `VirtioConsoleConfig` as it lies in memory, and `ReadConfig` of it.
abbrev pub config_bytes : Serial → List ℕ
config_bytes d = replicate 4 0 ++ (le_bytes 4 d.max_ports ++ replicate 4 0)

unfoldable pub read_config : Serial → ℕ → ℕ → ℕ
read_config d offset size =
    if ltb 12 (u32 (offset + size))
    then 0
    else u32 (le_value (take size (drop offset (config_bytes d))))

abbrev pub write_config : ℕ → ℕ → ℕ → Serial → Serial
write_config offset size value d = d

unfoldable pub on_status_change : ℕ → Serial → Serial
on_status_change new_status d =
    if test_bit new_status 2 && not d.driver_ready then record d { driver_ready = true } else d

-- The device, its transport and the guest's memory.
pub record Work : Type 0 where
  pub serial : Serial
  pub mmio : Mmio
  pub ram : Ram

abbrev pub notify : Work → Work
notify w = record w { mmio = notify_used_buffer w.mmio }

-- `VirtioConsoleControl`
pub record Control : Type 0 where
  pub id : ℕ
  pub event : ℕ
  pub value : ℕ

abbrev pub control_bytes : Control → List ℕ
control_bytes c = le_bytes 4 c.id ++ (le_bytes 2 c.event ++ le_bytes 2 c.value)

abbrev pub control_of : List ℕ → Control
control_of bytes = record {
  id = le_value (take 4 bytes);
  event = le_value (take 2 (drop 4 bytes));
  value = le_value (take 2 (drop 6 bytes));
}

-- The loop that fills a chain with a message: how much of it is written, and memory. The source casts
-- what is left of the message to 32 bits; here it is taken as it is, for messages shorter than 2 ^ 32.
unfoldable pub fill_chain : List ℕ → List VirtqChainElem → ℕ → Ram → ℕ × Ram
fill_chain msg [] written r = (written, r)
fill_chain msg (e ∷ es) written r =
    let to_copy = min e.len (length msg - written) in
    let skipped = fill_chain msg es written r in
    let r' = store_bytes r e.addr (take to_copy (drop written msg)) in
    let filled = fill_chain msg es (written + to_copy) r' in
    if not e.writable
    then skipped
    else if leb (length msg) (written + to_copy)
    then (written + to_copy, r')
    else filled

-- `SendControlMessage` and `SendPortName`, from the queue on.
unfoldable pub put_control : List ℕ → Work → Work
put_control msg w = elim (get_elem? w.mmio.queues 2) [
  | none ↦ w
  | some q ↦ if not q.ready then w else elim (pop_avail q w.ram) [
    | none ↦ w
    | some popped ↦
        let (head, q') = popped in
        let w' : Work = record w { mmio = record w.mmio { queues = set w.mmio.queues 2 q' } } in
        elim (walk_chain q' w.ram head) [
          | none ↦ notify (record w' { ram = push_used q' w.ram head 0 })
          | some chain ↦
              let (written, r) = fill_chain msg chain 0 w.ram in
              notify (record w' { ram = push_used q' r head written })
        ]
  ]
]

abbrev pub device_ready : ℕ
device_ready = 0

abbrev pub device_add : ℕ
device_add = 1

abbrev pub port_ready : ℕ
port_ready = 3

abbrev pub port_open : ℕ
port_open = 6

abbrev pub port_name : ℕ
port_name = 7

abbrev pub send_control_message : ℕ → ℕ → ℕ → Work → Work
send_control_message port_id event value w =
    put_control (control_bytes (record { id = port_id; event = event; value = value })) w

unfoldable pub send_port_name : ℕ → Work → Work
send_port_name port_id w = elim (get_elem? w.serial.ports port_id) [
  | none ↦ w
  | some p ↦
      if length p.name == 0
      then w
      else put_control
          (control_bytes (record { id = port_id; event = port_name; value = 1 }) ++ p.name) w
]

-- `DEVICE_ADD` for each port from `i` on
unfoldable pub add_ports : ℕ → ℕ → Work → Work
add_ports i zero w = w
add_ports i (suc n) w = add_ports (i + 1) n (send_control_message i device_add 1 w)

unfoldable pub open_port : ℕ → Bool → Serial → Serial
open_port id opened d =
    let connected = record d {
      ports = modify d.ports id (λ p. record p { guest_connected = opened });
    } in
    if d.has_port_callback
    then record connected { notices = d.notices ++ ((id, opened) ∷ []) }
    else connected

-- `switch (ctrl.event)`
unfoldable pub handle_event : Control → Work → Work
handle_event c w =
    if c.event == device_ready
    then (if c.value == 1 then add_ports 0 w.serial.max_ports w else w)
    else if c.event == port_ready
    then (if ltb c.id (length w.serial.ports) && c.value == 1
        then send_control_message c.id port_open 1 (send_port_name c.id w)
        else w)
    else if c.event == port_open
    then (if ltb c.id (length w.serial.ports)
        then record w { serial = open_port c.id (c.value == 1) w.serial }
        else w)
    else w

-- The bytes of the device-readable buffers, as many as `room`
unfoldable pub read_bytes : ℕ → List VirtqChainElem → Ram → List ℕ
read_bytes room [] r = []
read_bytes room (e ∷ es) r =
    let to_copy = min e.len room in
    let rest = read_bytes (room - to_copy) es r in
    let skipped = read_bytes room es r in
    if e.writable then skipped else load_bytes r e.addr to_copy ++ rest

-- One round of the loop of `HandleControlMessage`.
unfoldable pub handle_control : VirtQueue → ℕ → Work → Work
handle_control q head w = elim (walk_chain q w.ram head) [
  | none ↦ record w { ram = push_used q w.ram head 0 }
  | some chain ↦
      let bytes = read_bytes 8 chain w.ram in
      let w' : Work = record w { ram = push_used q w.ram head 0 } in
      if ltb (length bytes) 8 then w' else handle_event (control_of bytes) w'
]

-- The bytes of all device-readable buffers
unfoldable pub collect : List VirtqChainElem → Ram → List ℕ
collect [] r = []
collect (e ∷ es) r =
    let rest = collect es r in if e.writable then rest else load_bytes r e.addr e.len ++ rest

-- One round of the loop of `HandlePortTx`.
unfoldable pub handle_port_tx : ℕ → VirtQueue → ℕ → Work → Work
handle_port_tx port_id q head w = elim (walk_chain q w.ram head) [
  | none ↦ record w { ram = push_used q w.ram head 0 }
  | some chain ↦
      let bytes = collect chain w.ram in
      let w' : Work = record w { ram = push_used q w.ram head 0 } in
      if not (length bytes == 0) && w.serial.has_data_callback
      then record w' {
        serial = record w.serial { received = w.serial.received ++ ((port_id, bytes) ∷ []) };
      }
      else w'
]

-- A loop, with the fuel of the block device, and the notification after it.
unfoldable pub serve : (VirtQueue → ℕ → Work → Work) → VirtQueue → Work → VirtQueue × Work
serve handle q w = elim (drain (λ (v : Work). v.ram) handle (2 ^ 16) q w) [
  | none ↦ (q, w)
  | some done ↦ (done.0, notify done.1)
]

-- The port whose transmit queue this is.
unfoldable pub port_of : Serial → ℕ → Option ℕ
port_of d index =
    if index == 1
    then some 0
    else if leb 5 index && (index - 5) % 2 == 0
    then (if ltb (1 + (index - 5) / 2) d.max_ports then some (1 + (index - 5) / 2) else none)
    else none

unfoldable pub on_queue_notify : ℕ → VirtQueue → Work → VirtQueue × Work
on_queue_notify index q w =
    if index == 2
    then (q, w)
    else if index == 3
    then serve handle_control q w
    else elim (port_of w.serial index) [
      | none ↦ (q, w)
      | some port_id ↦ serve (handle_port_tx port_id) q w
    ]

abbrev pub rx_queue : ℕ → ℕ
rx_queue port_id = if port_id == 0 then 0 else 4 + (port_id - 1) * 2

-- The loop of `SendData`, on fuel: the queue, memory, and how many bytes are still to go.
unfoldable pub send_loop : ℕ → List ℕ → VirtQueue → Ram → VirtQueue × Ram × List ℕ
send_loop zero bytes q r = (q, r, bytes)
send_loop (suc fuel) bytes q r = elim (pop_avail q r) [
  | none ↦ (q, r, bytes)
  | some popped ↦
      let (head, q') = popped in
      let walked = walk_chain q' r head in
      let skipped = send_loop fuel bytes q' (push_used q' r head 0) in
      let filled : ℕ × Ram = elim walked [
        | none ↦ (0, r)
        | some chain ↦ fill_chain bytes chain 0 r
      ] in
      let sent = send_loop fuel (drop filled.0 bytes) q' (push_used q' filled.1 head filled.0) in
      if length bytes == 0
      then (q, r, bytes)
      else elim walked [ none ↦ skipped | some chain ↦ sent ]
]

unfoldable pub send_data : ℕ → List ℕ → Work → Work × Bool
send_data port_id bytes w =
    if leb (length w.serial.ports) port_id || length bytes == 0
    then (w, false)
    else if not (is_port_connected w.serial port_id)
    then (w, false)
    else elim (get_elem? w.mmio.queues (rx_queue port_id)) [
      | none ↦ (w, false)
      | some q ↦
          if not q.ready
          then (w, false)
          else (let (q', r, left) = send_loop (2 ^ 16) bytes q w.ram in
              (
                notify (record w {
                  mmio = record w.mmio { queues = set w.mmio.queues (rx_queue port_id) q' };
                  ram = r;
                }),
                length left == 0,
              ))
    ]
