-- ===== src/Agent.antt =====
-- core/guest_agent/guest_agent_handler.h and guest_agent_handler.cpp: the channel to the agent in
-- the guest. The serial device is set and the callback registered, as the machine's assembly
-- does; what is sent and each call of the callback are recorded. The lock makes an operation one
-- step.
pub mod Stream
pub mod Connection
pub mod Handshake
mod Tests
use Prim.Native.Char.{Char}
use Prim.Native.String.{String}
use tenclaw.Protocol.{Bytes, codes}
use tenclaw.Base.{
  ℕ, zero, suc, ◌+◌, ◌-◌, ◌*◌, ◌/◌, ◌%◌, ◌^◌, ◌≤◌, ◌<◌, min, ◌≡◌, refl, sym, ap, ap₂, subst, ◌∙◌,
  ◌≢◌, ◌↔◌, ◌⊎◌, inl, inr, Bool, true, false, not, ◌&&◌, ◌||◌, Option, none, some, List, [], ◌∷◌,
  ◌++◌, arith, ltb, leb, ◌==◌, if◌then◌else◌, Bool-cases, Option-cases, length, get_or, set, take,
  drop, replicate, u8, u16, u32, u64, shr, shl, test_bit, set_bit, clear_bit, with_low32,
  with_high32, get_elem?, ==_iff, length-append, length-set, get_or-set_self, get_or-set_ne,
  length-take, length-drop, some_inj, cons_inj, All, modify, length-replicate, length-modify,
  get_or-modify_self, get_or-modify_ne,
}

pub record Agent : Type 0 where
  pub recv_buffer : Bytes
  pub connected : Bool
  pub sync_pending : Bool
  pub sync_id : ℕ
  pub next_id : ℕ
  -- What went to the guest, and the connection callback's arguments.
  pub sent : List Bytes
  pub notices : List Bool

abbrev pub initial : Agent
initial = record {
  recv_buffer = [];
  connected = false;
  sync_pending = false;
  sync_id = 0;
  next_id = 1;
  sent = [];
  notices = [];
}

abbrev pub json_escape_byte : ℕ → Bytes
json_escape_byte c =
    if c == 34
    then 92 ∷ 34 ∷ []
    else if c == 92
    then 92 ∷ 92 ∷ []
    else if c == 10
    then 92 ∷ 110 ∷ []
    else if c == 13
    then 92 ∷ 114 ∷ []
    else if c == 9
    then 92 ∷ 116 ∷ []
    else c ∷ []

unfoldable pub json_escape : Bytes → Bytes
json_escape [] = []
json_escape (c ∷ s) = json_escape_byte c ++ json_escape s

-- What follows a prefix.
unfoldable pub after_prefix : Bytes → Bytes → Option Bytes
after_prefix [] s = some s
after_prefix (p ∷ ps) [] = none
after_prefix (p ∷ ps) (b ∷ s) = let rest = after_prefix ps s in if p == b then rest else none

-- `find`: what follows the first occurrence.
unfoldable pub after_first : Bytes → Bytes → Option Bytes
after_first needle [] = after_prefix needle []
after_first needle (b ∷ s) =
    let later = after_first needle s in
    elim (after_prefix needle (b ∷ s)) [ none ↦ later | some rest ↦ some rest ]

unfoldable pub json_has_key : Bytes → Bytes → Bool
json_has_key json key = elim (after_first (34 ∷ (key ++ (34 ∷ []))) json) [
  | none ↦ false
  | some rest ↦ true
]

unfoldable pub skip_spaces : Bytes → Bytes
skip_spaces [] = []
skip_spaces (b ∷ s) = let rest = skip_spaces s in if b == 32 then rest else b ∷ s

-- One byte from the guest: the line that it completes, if any, and the buffer after it.
unfoldable pub receive_byte : Bytes → ℕ → List Bytes × Bytes
receive_byte buffer ch =
    if ch == 0xff
    then ([], [])
    else if (ch == 10) || (ch == 13)
    then (elim buffer [ [] ↦ [] | b ∷ s ↦ (b ∷ s) ∷ [] ], [])
    else ([], buffer ++ (ch ∷ []))

-- The first loop of `OnDataReceived`: the lines that the data complete, and the buffer after them.
unfoldable pub collect : Bytes → Bytes → List Bytes × Bytes
collect buffer [] = ([], buffer)
collect buffer (ch ∷ data_) =
    let (line, next) = receive_byte buffer ch in
    let (lines, rest) = collect next data_ in (line ++ lines, rest)

unfoldable pub send_raw : Agent → Bytes → Agent
send_raw a json_line = record a { sent = a.sent ++ (json_line ∷ []) }

-- `strtoll` with base 10, its result as 64 bits in two's complement; `to_text` prints a number in
-- decimal, as an output stream does.
module _ (strtoll : Bytes → ℕ) (to_text : ℕ → Bytes) where
  unfoldable pub json_get_int : Bytes → Bytes → ℕ
  json_get_int json key = elim (after_first (34 ∷ (key ++ (34 ∷ 58 ∷ []))) json) [
    | none ↦ 0
    | some rest ↦ strtoll (skip_spaces rest)
  ]

  unfoldable pub process_line : Bytes → Agent → Agent
  process_line line a =
      if a.sync_pending && json_has_key line (codes "return")
      then (if json_get_int line (codes "return") == a.sync_id
          then record a {
            sync_pending = false;
            connected = true;
            notices = if a.connected then a.notices else a.notices ++ (true ∷ []);
          }
          else a)
      else a

  unfoldable pub process_lines : List Bytes → Agent → Agent
  process_lines [] a = a
  process_lines (l ∷ ls) a = process_lines ls (process_line l a)

  unfoldable pub on_data_received : Bytes → Agent → Agent
  on_data_received data_ a =
      let (lines, rest) = collect a.recv_buffer data_ in
      process_lines lines (record a { recv_buffer = rest })

  -- `id` is what `GenerateSyncId` draws.
  unfoldable pub start_sync_handshake : ℕ → Agent → Agent
  start_sync_handshake id a =
      let a' : Agent = record a { recv_buffer = []; sync_id = id; sync_pending = true } in
      send_raw (send_raw a' (0xff ∷ [])) (
        codes "{\"execute\":\"guest-sync-delimited\",\"arguments\":{\"id\":"
        ++ (to_text id ++ codes "}}\n"))

  unfoldable pub on_port_open : Bool → ℕ → Agent → Agent
  on_port_open opened id a = if opened then start_sync_handshake id a else record a {
    recv_buffer = [];
    sync_pending = false;
    connected = false;
    notices = if a.connected then a.notices ++ (false ∷ []) else a.notices;
  }

  unfoldable pub send_command : Bytes → Agent → Agent
  send_command command a =
      if not a.connected
      then a
      else send_raw (record a { next_id = u64 (a.next_id + 1) })
          (codes "{\"execute\":\""
            ++ (json_escape command ++ (codes "\",\"id\":" ++ (to_text a.next_id ++ codes "}\n"))))

  unfoldable pub send_command_with : Bytes → Bytes → Agent → Agent
  send_command_with command arguments a =
      if not a.connected
      then a
      else send_raw (record a { next_id = u64 (a.next_id + 1) })
          (codes "{\"execute\":\""
            ++ (json_escape command
                ++ (codes "\",\"arguments\":"
                    ++ (arguments ++ (codes ",\"id\":" ++ (to_text a.next_id ++ codes "}\n"))))))

  unfoldable pub shutdown : Bytes → Agent → Agent
  shutdown mode a =
      send_command_with (codes "guest-shutdown")
        (codes "{\"mode\":\"" ++ (json_escape mode ++ codes "\"}")) a

  unfoldable pub ping : Agent → Agent
  ping a = send_command (codes "guest-ping") a
