-- ===== src/Protocol.antt =====
-- ipc/protocol_v1.h and protocol_v1.cpp: the messages between the manager and a running machine.
-- A std::string is a list of bytes. `fields` is an std::unordered_map: an association list, whose
-- order stands for the order in which the source iterates over it.
pub mod Text
pub mod Header
pub mod Ends
pub mod Fields
pub mod Tokens
pub mod Decode
mod Tests
use Prim.Native.Char.{Char, code}
use Prim.Native.String.{String}
use tenclaw.Base.{
  ℕ, zero, suc, ◌+◌, ◌-◌, ◌*◌, ◌/◌, ◌%◌, ◌^◌, ◌≤◌, ◌<◌, min, ◌≡◌, refl, sym, ap, ap₂, subst, ◌∙◌,
  ◌≢◌, ◌↔◌, ◌⊎◌, inl, inr, Bool, true, false, not, ◌&&◌, ◌||◌, Option, none, some, List, [], ◌∷◌,
  ◌++◌, arith, ltb, leb, ◌==◌, if◌then◌else◌, Bool-cases, Option-cases, length, get_or, set, take,
  drop, replicate, u8, u16, u32, u64, shr, shl, test_bit, set_bit, clear_bit, with_low32,
  with_high32, get_elem?, ==_iff, length-append, length-set, get_or-set_self, get_or-set_ne,
  length-take, length-drop, some_inj, cons_inj, All, modify, length-replicate, length-modify,
  get_or-modify_self, get_or-modify_ne,
}

abbrev pub Bytes : Type 0
Bytes = List ℕ

-- The bytes of an ASCII literal.
abbrev pub codes : String → Bytes
codes String.[] = []
codes (String.◌∷◌ c s) = code c ∷ codes s

abbrev pub same : Bytes → Bytes → Bool
same [] [] = true
same [] (b ∷ bs) = false
same (a ∷ s) [] = false
same (a ∷ s) (b ∷ t) = (a == b) && same s t

abbrev pub protocol_version : ℕ
protocol_version = 1

pub data Channel : Type 0 where
  control : Channel
  console : Channel
  input : Channel
  display : Channel
  audio : Channel
  clipboard : Channel

pub data Kind : Type 0 where
  request : Kind
  response : Kind
  event : Kind

pub record Message : Type 0 where
  pub version : ℕ
  pub channel : Channel
  pub kind : Kind
  pub type : Bytes
  pub vm_id : Bytes
  pub request_id : ℕ
  pub fields : List (Bytes × Bytes)
  pub payload : Bytes

abbrev pub empty_message : Message
empty_message = record {
  version = protocol_version;
  channel = control;
  kind = request;
  type = [];
  vm_id = [];
  request_id = 0;
  fields = [];
  payload = [];
}

-- Backslash, tab, newline and the equals sign.
abbrev pub is_special : ℕ → Bool
is_special ch = (ch == 92) || ((ch == 9) || ((ch == 10) || (ch == 61)))

unfoldable pub escape : Bytes → Bytes
escape [] = []
escape (ch ∷ value) = let rest = escape value in if is_special ch then 92 ∷ ch ∷ rest else ch ∷ rest

-- The loop, after a backslash or not.
unfoldable pub unescape_from : Bool → Bytes → Bytes
unescape_from escaped [] = []
unescape_from true (ch ∷ value) = ch ∷ unescape_from false value
unescape_from false (ch ∷ value) = elim (ch == 92) [
  | true ↦ unescape_from true value
  | false ↦ ch ∷ unescape_from false value
]

abbrev pub unescape : Bytes → Bytes
unescape value = unescape_from false value

-- The loop with the token so far and whether a backslash precedes.
unfoldable pub split_from : Bytes → Bool → Bytes → List Bytes
split_from token escaped [] = (if escaped then token ++ (92 ∷ []) else token) ∷ []
split_from token true (ch ∷ value) = split_from (token ++ (92 ∷ ch ∷ [])) false value
split_from token false (ch ∷ value) = elim (ch == 92) [
  | true ↦ split_from token true value
  | false ↦ elim (ch == 9) [
    | true ↦ token ∷ split_from [] false value
    | false ↦ split_from (token ++ (ch ∷ [])) false value
  ]
]

abbrev pub split_tabs : Bytes → List Bytes
split_tabs value = split_from [] false value

unfoldable pub channel_to_string : Channel → Bytes
channel_to_string control = codes "control"
channel_to_string console = codes "console"
channel_to_string input = codes "input"
channel_to_string display = codes "display"
channel_to_string audio = codes "audio"
channel_to_string clipboard = codes "clipboard"

unfoldable pub channel_from_string : Bytes → Option Channel
channel_from_string value =
    if same value (codes "control")
    then some control
    else if same value (codes "console")
    then some console
    else if same value (codes "input")
    then some input
    else if same value (codes "display")
    then some display
    else if same value (codes "audio")
    then some audio
    else if same value (codes "clipboard")
    then some clipboard
    else none

unfoldable pub kind_to_string : Kind → Bytes
kind_to_string request = codes "request"
kind_to_string response = codes "response"
kind_to_string event = codes "event"

unfoldable pub kind_from_string : Bytes → Option Kind
kind_from_string value =
    if same value (codes "request")
    then some request
    else if same value (codes "response")
    then some response
    else if same value (codes "event")
    then some event
    else none

-- `token.find('=')`: the parts before and after the first equals sign.
unfoldable pub find_sep : Bytes → Option (Bytes × Bytes)
find_sep [] = none
find_sep (ch ∷ token) =
    let rest = find_sep token in
    if ch == 61
    then some ([], token)
    else elim rest [ none ↦ none | some kv ↦ some (ch ∷ kv.0, kv.1) ]

-- `fields.emplace`: a key that is there keeps its value.
unfoldable pub emplace : Bytes → Bytes → List (Bytes × Bytes) → List (Bytes × Bytes)
emplace key value [] = (key, value) ∷ []
emplace key value (f ∷ fields) =
    let rest = emplace key value fields in if same key f.0 then f ∷ fields else f ∷ rest

-- The trailing newlines and carriage returns that `Decode` drops.
unfoldable pub strip : Bytes → Bytes
strip [] = []
strip (ch ∷ line) =
    let rest = strip line in
    elim rest [ [] ↦ if (ch == 10) || (ch == 13) then [] else ch ∷ [] | r ∷ rs ↦ ch ∷ r ∷ rs ]

abbrev pub pair : String → Bytes → Bytes
pair key value = codes key ++ 61 ∷ value

unfoldable pub encode_fields : List (Bytes × Bytes) → Bytes
encode_fields [] = []
encode_fields (f ∷ fields) = 9 ∷ escape f.0 ++ 61 ∷ escape f.1 ++ encode_fields fields

-- `to_text` prints a number in decimal, as an output stream does.
module _ (to_text : ℕ → Bytes) where
  -- `payload_size`, for a message with a payload.
  unfoldable pub encode_size : Bytes → Bytes
  encode_size [] = []
  encode_size (b ∷ bs) = 9 ∷ pair "payload_size" (to_text (length (b ∷ bs)))

  unfoldable pub encode_header : Message → Bytes
  encode_header m =
      pair "version" (to_text m.version)
      ++ 9 ∷ pair "channel" (escape (channel_to_string m.channel))
      ++ 9 ∷ pair "kind" (escape (kind_to_string m.kind))
      ++ 9 ∷ pair "type" (escape m.type)
      ++ 9 ∷ pair "vm_id" (escape m.vm_id)
      ++ 9 ∷ pair "request_id" (to_text m.request_id)
      ++ encode_fields m.fields
      ++ encode_size m.payload
      ++ 10 ∷ []

  unfoldable pub encode : Message → Bytes
  encode m = encode_header m ++ m.payload

-- `strtoull` with base 10: the number, and whether it took the whole text.
module _ (strtoull : Bytes → ℕ × Bool) where
  unfoldable pub parse_u64 : Bytes → Option ℕ
  parse_u64 [] = none
  parse_u64 (ch ∷ value) =
      let (number, whole) = strtoull (ch ∷ value) in if whole then some number else none

  -- The chain of comparisons in the loop of `Decode`.
  unfoldable pub assign : Bytes → Bytes → Message → Option Message
  assign key value m =
      let number = parse_u64 value in
      if same key (codes "version")
      then elim number [ none ↦ none | some n ↦ some (record m { version = u32 n }) ]
      else if same key (codes "channel")
      then elim (channel_from_string value) [
        | none ↦ none
        | some c ↦ some (record m { channel = c })
      ]
      else if same key (codes "kind")
      then elim (kind_from_string value) [ none ↦ none | some k ↦ some (record m { kind = k }) ]
      else if same key (codes "type")
      then some (record m { type = value })
      else if same key (codes "vm_id")
      then some (record m { vm_id = value })
      else if same key (codes "request_id")
      then elim number [ none ↦ none | some n ↦ some (record m { request_id = n }) ]
      else some (record m { fields = emplace key value m.fields })

  -- One token of the loop, from the message so far; one without an equals sign is skipped.
  unfoldable pub decode_token : Bytes → Message → Option Message
  decode_token token m = elim (find_sep token) [
    | none ↦ some m
    | some kv ↦ assign (unescape kv.0) (unescape kv.1) m
  ]

  unfoldable pub decode_tokens : List Bytes → Message → Option Message
  decode_tokens [] m = some m
  decode_tokens (t ∷ ts) m = elim (decode_token t m) [ none ↦ none | some n ↦ decode_tokens ts n ]

  -- What `Decode` does with the tokens of the line.
  unfoldable pub accept : List Bytes → Option Message
  accept tokens =
      let result = decode_tokens tokens empty_message in
      if ltb (length tokens) 6 then none else elim result [
        | none ↦ none
        | some m ↦
            if not (m.version == protocol_version)
            then none
            else elim m.type [ [] ↦ none | ch ∷ rest ↦ some m ]
      ]

  unfoldable pub decode : Bytes → Option Message
  decode raw = accept (split_tabs (strip raw))
