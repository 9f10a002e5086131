-- ===== src/Blk.antt =====
-- core/device/virtio/virtio_blk.h and virtio_blk.cpp: the virtio block device.
pub mod Write
pub mod Open
pub mod Durable
pub mod Request
pub mod Once
pub mod Read
pub mod Transfer
pub mod Writeback
pub mod Config
pub mod Notify
mod Sample
mod WriteTests
mod Tests
use tenclaw.Base.{
  ℕ, zero, suc, ◌+◌, ◌-◌, ◌*◌, ◌/◌, ◌%◌, ◌^◌, ◌≤◌, ◌<◌, min, ◌≡◌, refl, sym, ap, ap₂, subst, ◌∙◌,
  ◌≢◌, ◌↔◌, ◌⊎◌, inl, inr, Bool, true, false, not, ◌&&◌, ◌||◌, Option, none, some, List, [], ◌∷◌,
  ◌++◌, arith, ltb, leb, ◌==◌, if◌then◌else◌, Bool-cases, Option-cases, length, get_or, set, take,
  drop, replicate, u8, u16, u32, u64, shr, shl, test_bit, set_bit, clear_bit, with_low32,
  with_high32, get_elem?, ==_iff, length-append, length-set, get_or-set_self, get_or-set_ne,
  length-take, length-drop, some_inj, All, modify, length-replicate, length-modify,
  get_or-modify_self, get_or-modify_ne,
}
use tenclaw.Disk.{DiskOps}
use tenclaw.Memory.{Ram, load32, load64, store8, store_bytes, load_bytes}
use tenclaw.Mmio.{DeviceOps, Served}
use tenclaw.Virtqueue.{VirtQueue, VirtqChainElem, walk_chain, push_used}
use tenclaw.Virtqueue.Avail.{drain}

-- `VIRTIO_BLK_T_...` and `VIRTIO_BLK_S_...`
abbrev pub type_in : ℕ
type_in = 0

abbrev pub type_out : ℕ
type_out = 1

abbrev pub type_flush : ℕ
type_flush = 4

abbrev pub type_get_id : ℕ
type_get_id = 8

abbrev pub status_ok : ℕ
status_ok = 0

abbrev pub status_ioerr : ℕ
status_ioerr = 1

abbrev pub status_unsupp : ℕ
status_unsupp = 2

-- "tenbox-vblk"
abbrev pub id_bytes : List ℕ
id_bytes = b't' ∷ b'e' ∷ b'n' ∷ b'b' ∷ b'o' ∷ b'x' ∷ b'-' ∷ b'v' ∷ b'b' ∷ b'l' ∷ b'k' ∷ []

-- What a request works on: the disk and the guest's memory.
pub record Work (S : Type 0) : Type 0 where
  pub disk : S
  pub ram : Ram

-- `status` and `total_data_len` beside the work done.
pub record Progress (S : Type 0) : Type 0 where
  pub work : Work S
  pub status : ℕ
  pub total : ℕ

-- chain[1] to chain[size - 2], and chain.back()
abbrev pub but_last : List VirtqChainElem → List VirtqChainElem
but_last [] = []
but_last (e ∷ []) = []
but_last (e ∷ f ∷ es) = e ∷ but_last (f ∷ es)

abbrev pub middle : List VirtqChainElem → List VirtqChainElem
middle [] = []
middle (e ∷ es) = but_last es

abbrev pub last_of : VirtqChainElem → List VirtqChainElem → VirtqChainElem
last_of e [] = e
last_of e (f ∷ es) = last_of f es

module _ {S : Type 0} (ops : DiskOps S) where
  -- The loop of `VIRTIO_BLK_T_IN`; a failed read breaks out of it.
  unfoldable pub read_into : List VirtqChainElem → ℕ → ℕ → Work S → Progress S
  read_into [] offset total w = record { work = w; status = status_ok; total = total }
  read_into (e ∷ es) offset total w = elim e.writable [
    | false ↦ read_into es offset total w
    | true ↦
        let (disk, good, bytes) = ops.read w.disk offset e.len in
        let w' : Work S = record { disk = disk; ram = store_bytes w.ram e.addr bytes } in
        elim good [
          | false ↦ record { work = w'; status = status_ioerr; total = total }
          | true ↦ read_into es (u64 (offset + e.len)) (u32 (total + e.len)) w'
        ]
  ]

  -- The loop of `VIRTIO_BLK_T_OUT`
  unfoldable pub write_from : List VirtqChainElem → ℕ → ℕ → Work S → Progress S
  write_from [] offset total w = record { work = w; status = status_ok; total = total }
  write_from (e ∷ es) offset total w = elim e.writable [
    | true ↦ write_from es offset total w
    | false ↦
        let (disk, good) = ops.write w.disk offset (load_bytes w.ram e.addr e.len) in
        let w' : Work S = record w { disk = disk } in
        elim good [
          | false ↦ record { work = w'; status = status_ioerr; total = total }
          | true ↦ write_from es (u64 (offset + e.len)) (u32 (total + e.len)) w'
        ]
  ]

  -- The loop of `VIRTIO_BLK_T_GET_ID`: each writable buffer is cleared, and gets as much of the name
  -- as fits.
  unfoldable pub put_id : List VirtqChainElem → ℕ → Work S → Progress S
  put_id [] total w = record { work = w; status = status_ok; total = total }
  put_id (e ∷ es) total w = elim e.writable [
    | false ↦ put_id es total w
    | true ↦
        let cleared = store_bytes w.ram e.addr (replicate e.len 0) in
        let copied = min (min e.len 20) (length id_bytes) in
        put_id es (u32 (total + e.len))
          (record w { ram = store_bytes cleared e.addr (take copied id_bytes) })
  ]

  -- `switch (hdr.type)`
  unfoldable pub execute : ℕ → ℕ → List VirtqChainElem → Work S → Progress S
  execute kind sector es w =
      if kind == type_in
      then read_into es (u64 (sector * 512)) 0 w
      else if kind == type_out
      then write_from es (u64 (sector * 512)) 0 w
      else if kind == type_flush
      then record { work = record w { disk = (ops.flush w.disk).0 }; status = status_ok; total = 0 }
      else if kind == type_get_id
      then put_id es 0 w
      else record { work = w; status = status_unsupp; total = 0 }

  -- The end of `ProcessRequest`: the status byte, then the used ring.
  unfoldable pub complete : VirtQueue → ℕ → VirtqChainElem → Progress S → Work S
  complete q head status_elem p = record p.work {
    ram = push_used q (store8 p.work.ram status_elem.addr p.status) head (u32 (p.total + 1));
  }

  unfoldable pub run_chain : VirtQueue → ℕ → List VirtqChainElem → Work S → Work S
  run_chain q head [] w = w
  run_chain q head (hdr ∷ es) w =
      let status_elem = last_of hdr es in
      if ltb (length (hdr ∷ es)) 2
      then w
      else if ltb hdr.len 16
      then w
      else if not status_elem.writable || ltb status_elem.len 1
      then w
      else complete q head status_elem
          (execute (load32 w.ram hdr.addr) (load64 w.ram (hdr.addr + 8)) (middle (hdr ∷ es)) w)

  unfoldable pub process_request : VirtQueue → ℕ → Work S → Work S
  process_request q head w = elim (walk_chain q w.ram head) [
    | none ↦ w
    | some chain ↦ run_chain q head chain w
  ]

  -- `OnQueueNotify`. The fuel is the number of heads that the 16-bit ring index can tell apart; a
  -- loop that outran it would leave things as they were found.
  unfoldable pub on_queue_notify : VirtQueue → ℕ → Work S → VirtQueue × Work S × Bool
  on_queue_notify q index w =
      if not (index == 0)
      then (q, w, false)
      else elim (drain (λ (v : Work S). v.ram) process_request (2 ^ 16) q w) [
        | none ↦ (q, w, true)
        | some (q', w') ↦ (q', w', true)
      ]

-- The little-endian bytes of an `n`-byte field, and the number that bytes stand for.
abbrev pub le_bytes : ℕ → ℕ → List ℕ
le_bytes zero x = []
le_bytes (suc n) x = u8 x ∷ le_bytes n (x / 2 ^ 8)

abbrev pub le_value : List ℕ → ℕ
le_value [] = 0
le_value (b ∷ bs) = b + 2 ^ 8 * le_value bs

-- `VirtioBlkConfig` as `Open` fills it: capacity, size_max, seg_max, geometry, blk_size.
unfoldable pub config_bytes : ℕ → List ℕ
config_bytes disk_size =
    le_bytes 8 (disk_size / 512)
    ++ (le_bytes 4 (2 ^ 20) ++ (le_bytes 4 126 ++ (replicate 4 0 ++ le_bytes 4 512)))

-- What `ReadConfig` copies over its 32-bit result, and the result.
unfoldable pub config_copy : ℕ → ℕ → ℕ → List ℕ
config_copy disk_size offset size =
    if leb 24 offset
    then []
    else take (min size (24 - offset)) (drop offset (config_bytes disk_size))

unfoldable pub read_config : ℕ → ℕ → ℕ → ℕ
unfolding config_copy
read_config disk_size offset size = u32 (le_value (config_copy disk_size offset size))

-- SIZE_MAX, SEG_MAX, BLK_SIZE, FLUSH and VERSION_1
abbrev pub features : ℕ
features = 2 ^ 1 + 2 ^ 2 + 2 ^ 6 + 2 ^ 9 + 2 ^ 32

module _ {S : Type 0} (ops : DiskOps S) where
  -- The device behind the transport.
  abbrev pub device_ops : DeviceOps S
  device_ops = record {
    device_id = λ d. 2;
    device_features = λ d. features;
    num_queues = λ d. 1;
    queue_max_size = λ d i. 128;
    on_queue_notify = λ d ram i q.
        let (q', w, notified) = on_queue_notify ops q i (record { disk = d; ram = ram }) in
        record { device = w.disk; ram = w.ram; queue = q'; notified = notified };
    read_config = λ d offset size. read_config (ops.get_size d) offset size;
    write_config = λ d offset size value. d;
    on_status_change = λ d status. d;
  }
