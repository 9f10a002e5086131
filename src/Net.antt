-- ===== src/Net.antt =====
-- core/device/virtio/virtio_net.h and virtio_net.cpp: the virtio network card, with the transport
-- attached. Frames that the guest sends go to the callback; here they are kept in `sent`.
pub mod Receive
pub mod Transmit
mod Tests
use tenclaw.Base.{
  ℕ, zero, suc, ◌+◌, ◌-◌, ◌*◌, ◌/◌, ◌%◌, ◌^◌, ◌≤◌, ◌<◌, min, ◌≡◌, refl, sym, ap, ap₂, subst, ◌∙◌,
  ◌≢◌, ◌↔◌, ◌⊎◌, inl, inr, Bool, true, false, not, ◌&&◌, ◌||◌, Option, none, some, List, [], ◌∷◌,
  ◌++◌, arith, ltb, leb, ◌==◌, if◌then◌else◌, Bool-cases, Option-cases, length, get_or, set, take,
  drop, replicate, u8, u16, u32, u64, shr, shl, test_bit, set_bit, clear_bit, with_low32,
  with_high32, get_elem?, ==_iff, length-append, length-set, get_or-set_self, get_or-set_ne,
  length-take, length-drop, some_inj, cons_inj, All, modify, length-replicate, length-modify,
  get_or-modify_self, get_or-modify_ne,
}
use tenclaw.Memory.{Ram, load_bytes, store_bytes}
use tenclaw.Virtqueue.{VirtQueue, VirtqChainElem, pop_avail, walk_chain, push_used}
use tenclaw.Virtqueue.Avail.{drain}
use tenclaw.Mmio.{Mmio, DeviceOps, Served, notify_used_buffer, notify_config_change}
use tenclaw.Blk.{le_bytes, le_value}

pub record Net : Type 0 where
  pub mac : List ℕ
  pub status : ℕ
  pub has_callback : Bool
  pub sent : List (List ℕ)

abbrev pub default_mac : List ℕ
default_mac = 0x52 ∷ 0x54 ∷ 0x00 ∷ 0x12 ∷ 0x34 ∷ 0x56 ∷ []

abbrev pub new_net : Bool → Net
new_net link_up = record {
  mac = default_mac;
  status = if link_up then 1 else 0;
  has_callback = false;
  sent = [];
}

abbrev pub set_tx_callback : Net → Net
set_tx_callback n = record n { has_callback = true }

abbrev pub is_link_up : Net → Bool
is_link_up n = n.status % 2 == 1

unfoldable pub set_link_up : Bool → Net → Mmio → Net × Mmio
set_link_up up n m =
    let new_status : ℕ = if up then 1 else 0 in
    if n.status == new_status
    then (n, m)
    else (record n { status = new_status }, notify_config_change m)

-- MAC, STATUS and VERSION_1
abbrev pub features : ℕ
features = 2 ^ 5 + 2 ^ 16 + 2 ^ 32

-- `sizeof(VirtioNetHdr)`
abbrev pub header_size : ℕ
header_size = 12

-- `total`, a 32-bit sum, and the loop that lines the buffers up.
unfoldable pub chain_total : List VirtqChainElem → ℕ → ℕ
chain_total [] total = total
chain_total (e ∷ es) total = chain_total es (u32 (total + e.len))

unfoldable pub linear : List VirtqChainElem → Ram → List ℕ
linear [] r = []
linear (e ∷ es) r = load_bytes r e.addr e.len ++ linear es r

-- The card and the guest's memory.
pub record Work : Type 0 where
  pub net : Net
  pub ram : Ram

-- A frame goes to the callback, if there is one and the frame has an Ethernet header.
unfoldable pub send : List ℕ → Net → Net
send frame n =
    if n.has_callback && leb 14 (length frame)
    then record n { sent = n.sent ++ (frame ∷ []) }
    else n

-- One round of the transmit loop. The buffer has `total` bytes: where the sum has wrapped, the copy
-- overruns it, and here what does not fit is dropped.
unfoldable pub transmit : VirtQueue → ℕ → Work → Work
transmit q head w = elim (walk_chain q w.ram head) [
  | none ↦ record w { ram = push_used q w.ram head 0 }
  | some chain ↦
      let total = chain_total chain 0 in
      let frame = drop header_size (take total (linear chain w.ram)) in
      if leb total header_size
      then record w { ram = push_used q w.ram head 0 }
      else record { net = send frame w.net; ram = push_used q w.ram head 0 }
]

-- `OnQueueNotify`, with the fuel of the block device.
unfoldable pub on_queue_notify : VirtQueue → ℕ → Work → VirtQueue × Work × Bool
on_queue_notify q index w =
    if not (index == 1)
    then (q, w, false)
    else elim (drain (λ (v : Work). v.ram) transmit (2 ^ 16) q w) [
      | none ↦ (q, w, true)
      | some done ↦ (done.0, done.1, true)
    ]

-- The loop of `InjectRx` over the chain: how much of the packet is written, and memory.
unfoldable pub copy_packet : ℕ → List ℕ → List VirtqChainElem → ℕ → Ram → ℕ × Ram
copy_packet total packet [] written r = (written, r)
copy_packet total packet (e ∷ es) written r =
    let to_copy = min e.len (total - written) in
    let skipped = copy_packet total packet es written r in
    let copied =
      copy_packet total packet es (written + to_copy)
        (store_bytes r e.addr (take to_copy (drop written packet))) in
    if not e.writable || leb total written then skipped else copied

-- A head that was popped: its chain filled and put on the used ring, and whether the frame went in.
unfoldable pub receive : VirtQueue → ℕ → List ℕ → Ram → Ram × Bool
receive q head frame r = elim (walk_chain q r head) [
  | none ↦ (push_used q r head 0, false)
  | some chain ↦
      let put =
        copy_packet (u32 (header_size + length frame)) (replicate header_size 0 ++ frame) chain 0
          r in
      (push_used q put.1 head put.0, true)
]

unfoldable pub inject_rx : List ℕ → Mmio → Ram → Mmio × Ram × Bool
inject_rx frame m r = elim (get_elem? m.queues 0) [
  | none ↦ (m, r, false)
  | some q ↦ if not q.ready then (m, r, false) else elim (pop_avail q r) [
    | none ↦ (m, r, false)
    | some popped ↦
        let m' : Mmio = record m { queues = set m.queues 0 popped.1 } in
        let got = receive popped.1 popped.0 frame r in
        (if got.1 then notify_used_buffer m' else m', got.0, got.1)
  ]
]

-- `VirtioNetConfig` as it lies in memory, and `ReadConfig` of it.
abbrev pub config_bytes : Net → List ℕ
config_bytes n = n.mac ++ le_bytes 2 n.status

unfoldable pub read_config : Net → ℕ → ℕ → ℕ
read_config n offset size =
    if leb (u32 (offset + size)) 8
    then u32 (le_value (take size (drop offset (config_bytes n))))
    else 0

-- The device behind the transport.
abbrev pub device_ops : DeviceOps Net
device_ops = record {
  device_id = λ d. 1;
  device_features = λ d. features;
  num_queues = λ d. 2;
  queue_max_size = λ d i. 256;
  on_queue_notify = λ d ram i q.
      let done = on_queue_notify q i (record { net = d; ram = ram }) in
      record { device = done.1.net; ram = done.1.ram; queue = done.0; notified = done.2 };
  read_config = read_config;
  write_config = λ d offset size value. d;
  on_status_change = λ d status. d;
}
