-- ===== src/Vdagent.antt =====
-- core/vdagent/vdagent_handler.h, vdagent_handler.cpp and vdagent_protocol.h: the channel to the SPICE
-- agent in the guest. What goes to the serial device and each call of the clipboard callback are
-- recorded; the lock makes an operation one step. The code reads messages through pointers into the
-- receive buffer and trusts the sizes in them, so what lies in memory past the buffer is a parameter.
pub mod Send
pub mod Frames
pub mod Stream
pub mod Waits
mod Tests
pub mod Peers
pub mod Pieces
use tenclaw.Base.{
  ℕ, zero, suc, ◌+◌, ◌-◌, ◌*◌, ◌/◌, ◌%◌, ◌^◌, ◌≤◌, ◌<◌, min, ◌≡◌, refl, sym, ap, ap₂, subst, ◌∙◌,
  ◌≢◌, ◌↔◌, ◌⊎◌, inl, inr, Bool, true, false, not, ◌&&◌, ◌||◌, Option, none, some, List, [], ◌∷◌,
  ◌++◌, arith, ltb, leb, ◌==◌, if◌then◌else◌, Bool-cases, Option-cases, length, get_or, set, take,
  drop, replicate, u8, u16, u32, u64, shr, shl, test_bit, set_bit, clear_bit, with_low32,
  with_high32, get_elem?, ==_iff, length-append, length-set, get_or-set_self, get_or-set_ne,
  length-take, length-drop, some_inj, cons_inj, All, modify, length-replicate, length-modify,
  get_or-modify_self, get_or-modify_ne,
}
use tenclaw.Memory.{Ram, load32, load_bytes}

pub data Kind : Type 0 where
  grab : Kind
  clip_data : Kind
  request : Kind
  release : Kind

-- `ClipboardEvent`
pub record ClipboardEvent : Type 0 where
  pub kind : Kind
  pub selection : ℕ
  pub available_types : List ℕ
  pub data_type : ℕ
  pub data_ : List ℕ

pub record Vdagent : Type 0 where
  pub has_serial : Bool
  pub port_id : ℕ
  pub has_callback : Bool
  pub recv_buffer : List ℕ
  pub guest_caps : List ℕ
  pub guest_caps_received : Bool
  pub host_caps : List ℕ
  -- What went to the serial device, with its port, and what the callback was told.
  pub sent : List (ℕ × List ℕ)
  pub events : List ClipboardEvent

-- `VDAgentMessageType`
abbrev pub clipboard : ℕ
clipboard = 4

abbrev pub announce_capabilities : ℕ
announce_capabilities = 6

abbrev pub clipboard_grab : ℕ
clipboard_grab = 7

abbrev pub clipboard_request : ℕ
clipboard_request = 8

abbrev pub clipboard_release : ℕ
clipboard_release = 9

-- `VDAgentCap`
abbrev pub cap_clipboard : ℕ
cap_clipboard = 3

abbrev pub cap_clipboard_by_demand : ℕ
cap_clipboard_by_demand = 5

abbrev pub cap_clipboard_selection : ℕ
cap_clipboard_selection = 6

abbrev pub cap_guest_lineend_crlf : ℕ
cap_guest_lineend_crlf = 9

abbrev pub set_capability : List ℕ → ℕ → List ℕ
set_capability caps cap = modify caps (cap / 32) (λ w. set_bit w (cap % 32))

unfoldable pub new_vdagent : Vdagent
new_vdagent = record {
  has_serial = false;
  port_id = 0;
  has_callback = false;
  recv_buffer = [];
  guest_caps = [];
  guest_caps_received = false;
  host_caps =
      set_capability
        (set_capability
          (set_capability (set_capability (0 ∷ []) cap_clipboard) cap_clipboard_by_demand)
          cap_clipboard_selection)
        cap_guest_lineend_crlf;
  sent = [];
  events = [];
}

abbrev pub set_serial_device : ℕ → Vdagent → Vdagent
set_serial_device port_id a = record a { has_serial = true; port_id = port_id }

abbrev pub set_clipboard_callback : Vdagent → Vdagent
set_clipboard_callback a = record a { has_callback = true }

abbrev pub has_capability : ℕ → Vdagent → Bool
has_capability cap a = elim (get_elem? a.guest_caps (cap / 32)) [
  | none ↦ false
  | some word ↦ test_bit word (cap % 32)
]

abbrev pub le32_bytes : ℕ → List ℕ
le32_bytes v = u8 v ∷ u8 (shr v 8) ∷ u8 (shr v 16) ∷ u8 (shr v 24) ∷ []

abbrev pub le32_list : List ℕ → List ℕ
le32_list [] = []
le32_list (v ∷ vs) = le32_bytes v ++ le32_list vs

-- `VDAgentChunkHeader` and `VDAgentMessage`, the latter with its `opaque` at 0
abbrev pub headers : ℕ → ℕ → List ℕ
headers type len =
    le32_bytes 1
    ++ (le32_bytes (u32 (20 + len))
        ++ (le32_bytes 1
            ++ (le32_bytes type ++ (le32_bytes 0 ++ (le32_bytes 0 ++ le32_bytes (u32 len))))))

-- `SendMessage`
unfoldable pub send_message : ℕ → List ℕ → Vdagent → Vdagent
send_message type bytes a =
    if not a.has_serial
    then a
    else record a { sent = a.sent ++ ((a.port_id, headers type (length bytes) ++ bytes) ∷ []) }

unfoldable pub send_announce_capabilities : Vdagent → Vdagent
send_announce_capabilities a =
    send_message announce_capabilities (le32_bytes 0 ++ le32_list a.host_caps) a

-- `HandleAnnounceCapabilitiesLocked`, and the other handlers, at a pointer to the message's data
abbrev pub words_at : Ram → ℕ → ℕ → List ℕ
words_at mem at zero = []
words_at mem at (suc n) = load32 mem at ∷ words_at mem (at + 4) n

unfoldable pub handle_announce_locked : Ram → ℕ → Vdagent → Vdagent
handle_announce_locked mem size a =
    if ltb size 4
    then a
    else record a { guest_caps = words_at mem 4 ((size - 4) / 4); guest_caps_received = true }

unfoldable pub handle_announce_capabilities : Ram → ℕ → Vdagent → Vdagent
handle_announce_capabilities mem size a =
    let b = handle_announce_locked mem size a in
    if ltb size 4 then a else if not (load32 mem 0 == 0) then send_announce_capabilities b else b

-- `if (clipboard_callback_) clipboard_callback_(event)`
abbrev pub notify : ClipboardEvent → Vdagent → Vdagent
notify event a = if a.has_callback then record a { events = a.events ++ (event ∷ []) } else a

unfoldable pub handle_clipboard_grab : Ram → ℕ → Vdagent → Vdagent
handle_clipboard_grab mem size a =
    if has_capability cap_clipboard_selection a && leb 4 size
    then notify
        (record {
          kind = grab;
          selection = mem 0;
          available_types = words_at mem 4 ((size - 4) / 4);
          data_type = 0;
          data_ = [];
        })
        a
    else notify
        (record {
          kind = grab;
          selection = 0;
          available_types = words_at mem 0 (size / 4);
          data_type = 0;
          data_ = [];
        })
        a

unfoldable pub handle_clipboard_data : Ram → ℕ → Vdagent → Vdagent
handle_clipboard_data mem size a =
    if has_capability cap_clipboard_selection a && leb 8 size
    then notify
        (record {
          kind = clip_data;
          selection = mem 0;
          available_types = [];
          data_type = load32 mem 4;
          data_ = load_bytes mem 8 (size - 8);
        })
        a
    else if leb 4 size
    then notify
        (record {
          kind = clip_data;
          selection = 0;
          available_types = [];
          data_type = load32 mem 0;
          data_ = load_bytes mem 4 (size - 4);
        })
        a
    else a

unfoldable pub handle_clipboard_request : Ram → ℕ → Vdagent → Vdagent
handle_clipboard_request mem size a =
    if has_capability cap_clipboard_selection a && leb 8 size
    then notify
        (record {
          kind = request;
          selection = mem 0;
          available_types = [];
          data_type = load32 mem 4;
          data_ = [];
        })
        a
    else if leb 4 size
    then notify
        (record {
          kind = request;
          selection = 0;
          available_types = [];
          data_type = load32 mem 0;
          data_ = [];
        })
        a
    else a

unfoldable pub handle_clipboard_release : Ram → ℕ → Vdagent → Vdagent
handle_clipboard_release mem size a =
    notify
      (record {
        kind = release;
        selection = if has_capability cap_clipboard_selection a && leb 1 size then mem 0 else 0;
        available_types = [];
        data_type = 0;
        data_ = [];
      })
      a

unfoldable pub process_message : ℕ → Ram → ℕ → Vdagent → Vdagent
process_message type mem size a =
    if type == announce_capabilities
    then handle_announce_capabilities mem size a
    else if type == clipboard_grab
    then handle_clipboard_grab mem size a
    else if type == clipboard
    then handle_clipboard_data mem size a
    else if type == clipboard_request
    then handle_clipboard_request mem size a
    else if type == clipboard_release
    then handle_clipboard_release mem size a
    else a

-- The branches of `OnDataReceived` on the type of a message: whether it asks for our capabilities.
unfoldable pub receive_message : ℕ → Ram → ℕ → Vdagent → Vdagent × Bool
receive_message type mem size a =
    if type == announce_capabilities
    then (handle_announce_locked mem size a, leb 4 size && not (load32 mem 0 == 0))
    else (process_message type mem size a, false)

-- The buffer with what lies past it.
abbrev pub view : Ram → List ℕ → Ram
view past [] i = past i
view past (b ∷ bs) zero = b
view past (b ∷ bs) (suc i) = view past bs i

module _ (past : List ℕ → Ram) where
  -- One chunk of `size` bytes behind its header.
  unfoldable pub receive_chunk : ℕ → Vdagent → Vdagent × Bool
  receive_chunk size a =
      let mem = view (past a.recv_buffer) a.recv_buffer in
      if leb 20 size
      then receive_message (load32 mem 12) (λ i. mem (28 + i)) (load32 mem 24) a
      else (a, false)

  -- The loop of `OnDataReceived`, on fuel.
  unfoldable pub receive_loop : ℕ → Vdagent → Vdagent × Bool
  receive_loop zero a = (a, false)
  receive_loop (suc fuel) a =
      let size = load32 (view (past a.recv_buffer) a.recv_buffer) 4 in
      let (b, asked) = receive_chunk size a in
      let rest = receive_loop fuel (record b { recv_buffer = drop (8 + size) b.recv_buffer }) in
      if ltb (length a.recv_buffer) 8
      then (a, false)
      else if ltb (length a.recv_buffer) (8 + size)
      then (a, false)
      else (rest.0, asked || rest.1)

  unfoldable pub on_data_received : List ℕ → Vdagent → Vdagent
  on_data_received bytes a =
      let buffer = a.recv_buffer ++ bytes in
      let (b, need_send_caps) = receive_loop (length buffer) (record a { recv_buffer = buffer }) in
      if need_send_caps then send_announce_capabilities b else b
