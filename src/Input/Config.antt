-- ===== src/Input/Config.antt =====
-- core/device/virtio/virtio_input.cpp: the configuration space, which answers the driver's selection,
-- and the status queue.
use tenclaw.Base.{
  ℕ, zero, suc, ◌+◌, ◌/◌, ◌%◌, ◌^◌, false, not, ◌&&◌, ◌||◌, none, some, List, [], ◌∷◌, ◌++◌, ltb,
  leb, ◌==◌, if◌then◌else◌, length, get_or, set, take, drop, replicate, u32, set_bit,
}
use tenclaw.Memory.{Ram}
use tenclaw.Virtqueue.{VirtQueue, push_used}
use tenclaw.Virtqueue.Avail.{drain}
use tenclaw.Mmio.{DeviceOps}
use tenclaw.Blk.{le_bytes, le_value}

pub data SubType : Type 0 where
  keyboard : SubType
  tablet : SubType

-- `VirtioInputConfig`, whose reserved bytes stay 0, and the kind of device.
pub record Config : Type 0 where
  pub sub_type : SubType
  pub select : ℕ
  pub subsel : ℕ
  pub size : ℕ
  pub data_ : List ℕ

abbrev pub new_config : SubType → Config
new_config t = record { sub_type = t; select = 0; subsel = 0; size = 0; data_ = replicate 128 0 }

-- `SetBit`, and a run of it.
unfoldable pub set_bit_at : List ℕ → ℕ → List ℕ
set_bit_at bitmap bit = set bitmap (bit / 8) (set_bit (get_or bitmap (bit / 8) 0) (bit % 8))

unfoldable pub set_bits : List ℕ → List ℕ → List ℕ
set_bits bitmap [] = bitmap
set_bits bitmap (b ∷ bs) = set_bits (set_bit_at bitmap b) bs

unfoldable pub count_from : ℕ → ℕ → List ℕ
count_from k zero = []
count_from k (suc n) = k ∷ count_from (k + 1) n

-- "virtio-keyboard", "virtio-tablet", "tenbox-0"
abbrev pub name_of : SubType → List ℕ
name_of keyboard =
    b'v' ∷ b'i' ∷ b'r' ∷ b't' ∷ b'i' ∷ b'o' ∷ b'-' ∷ b'k' ∷ b'e' ∷ b'y' ∷ b'b' ∷ b'o' ∷ b'a' ∷ b'r'
    ∷ b'd' ∷ []
name_of tablet =
    b'v' ∷ b'i' ∷ b'r' ∷ b't' ∷ b'i' ∷ b'o' ∷ b'-' ∷ b't' ∷ b'a' ∷ b'b' ∷ b'l' ∷ b'e' ∷ b't' ∷ []

abbrev pub serial : List ℕ
serial = b't' ∷ b'e' ∷ b'n' ∷ b'b' ∷ b'o' ∷ b'x' ∷ b'-' ∷ b'0' ∷ []

-- The data after a `memset` and a `memcpy` of some bytes, and its size; and after some `SetBit`.
abbrev pub copied : List ℕ → List ℕ × ℕ
copied bytes = (bytes ++ drop (length bytes) (replicate 128 0), length bytes)

abbrev pub with_bits : List ℕ → ℕ → List ℕ × ℕ
with_bits bits size = (set_bits (replicate 128 0) bits, size)

abbrev pub nothing : List ℕ × ℕ
nothing = (replicate 128 0, 0)

-- `VIRTIO_INPUT_CFG_EV_BITS`
unfoldable pub event_bits : SubType → ℕ → List ℕ × ℕ
event_bits keyboard subsel =
    if subsel == 0x01
    then with_bits (count_from 1 248) 32
    else if subsel == 0x00
    then with_bits (0 ∷ []) 1
    else if subsel == 0x14
    then with_bits (0 ∷ 1 ∷ []) 1
    else if subsel == 0x04
    then with_bits (4 ∷ []) 1
    else nothing
event_bits tablet subsel =
    if subsel == 0x03
    then with_bits (0x00 ∷ 0x01 ∷ []) 1
    else if subsel == 0x02
    then with_bits (0x08 ∷ 0x06 ∷ []) 2
    else if subsel == 0x01
    then with_bits (0x110 ∷ 0x111 ∷ 0x112 ∷ 0x14a ∷ []) 42
    else if subsel == 0x00
    then with_bits (0 ∷ []) 1
    else nothing

abbrev pub product_of : SubType → ℕ
product_of keyboard = 1
product_of tablet = 2

unfoldable pub properties : SubType → List ℕ × ℕ
properties keyboard = nothing
properties tablet = with_bits (1 ∷ []) 1

unfoldable pub axis_info : SubType → ℕ → List ℕ × ℕ
axis_info keyboard subsel = nothing
axis_info tablet subsel =
    if (subsel == 0) || (subsel == 1)
    then copied (replicate 4 0 ++ (le_bytes 4 32767 ++ replicate 12 0))
    else nothing

-- `switch (config_.select)`: the data and its size.
unfoldable pub answer : SubType → ℕ → ℕ → List ℕ × ℕ
answer t select subsel =
    if select == 0x01
    then copied (name_of t)
    else if select == 0x02
    then copied serial
    else if select == 0x03
    then copied (le_bytes 2 6 ++ (le_bytes 2 1 ++ (le_bytes 2 (product_of t) ++ le_bytes 2 1)))
    else if select == 0x10
    then properties t
    else if select == 0x11
    then event_bits t subsel
    else if select == 0x12
    then axis_info t subsel
    else nothing

unfoldable pub update_config_data : Config → Config
update_config_data c =
    let got = answer c.sub_type c.select c.subsel in record c { data_ = got.0; size = got.1 }

abbrev pub config_bytes : Config → List ℕ
config_bytes c = (c.select ∷ c.subsel ∷ c.size ∷ []) ++ (replicate 5 0 ++ c.data_)

unfoldable pub read_config : Config → ℕ → ℕ → ℕ
read_config c offset size =
    if ltb 136 (u32 (offset + size))
    then 0
    else u32 (le_value (take size (drop offset (config_bytes c))))

-- Only the first two bytes can be written.
unfoldable pub write_config : Config → ℕ → ℕ → ℕ → Config
write_config c offset size value =
    let old = c.select ∷ c.subsel ∷ [] in
    let new = (take offset old ++ le_bytes size value) ++ drop (offset + size) old in
    if ltb 136 (u32 (offset + size))
    then c
    else if leb offset 1 && leb (u32 (offset + size)) 2
    then update_config_data (record c { select = get_or new 0 0; subsel = get_or new 1 0 })
    else c

-- `OnQueueNotify`: the status queue's buffers are returned unread. The transport is not notified.
unfoldable pub discard : VirtQueue → ℕ → Ram → Ram
discard q head r = push_used q r head 0

unfoldable pub on_queue_notify : VirtQueue → ℕ → Ram → VirtQueue × Ram
on_queue_notify q index r =
    if not (index == 1)
    then (q, r)
    else elim (drain (λ (v : Ram). v) discard (2 ^ 16) q r) [ none ↦ (q, r) | some done ↦ done ]

-- The device behind the transport.
abbrev pub device_ops : DeviceOps Config
device_ops = record {
  device_id = λ d. 18;
  device_features = λ d. 2 ^ 32;
  num_queues = λ d. 2;
  queue_max_size = λ d i. 64;
  on_queue_notify = λ d ram i q.
      let done = on_queue_notify q i ram in
      record { device = d; ram = done.1; queue = done.0; notified = false };
  read_config = read_config;
  write_config = write_config;
  on_status_change = λ d status. d;
}
