-- ===== src/Vdagent/Peers.antt =====
-- What one side sends of its clipboard, the other side, a handler of the same kind, understands.
use tenclaw.Base.{
  ℕ, ◌+◌, ◌-◌, ◌*◌, ◌/◌, ◌^◌, ◌<◌, ◌≡◌, refl, sym, ap, ap₂, ◌∙◌, Bool, true, false, List, [], ◌∷◌,
  ◌++◌, arith, leb, if◌then◌else◌, length, u8, shr, cons_inj, All,
}
use tenclaw.Memory.{Ram, load32, load_bytes}
use tenclaw.Vdagent.{
  Vdagent, ClipboardEvent, grab, clip_data, request, release, cap_clipboard_selection,
  has_capability, le32_bytes, le32_list, words_at, view, notify, send_message, clipboard,
  clipboard_grab, clipboard_request, clipboard_release, receive_message, process_message,
  handle_clipboard_grab, handle_clipboard_data, handle_clipboard_request, handle_clipboard_release,
}
use tenclaw.Vdagent.Send.{
  send_clipboard_grab, send_clipboard_data, send_clipboard_request, send_clipboard_release,
}
use tenclaw.Vdagent.Frames.{framed}
use tenclaw.Vdagent.Stream.{Message, IsMessage, encode, deliver, view-append_right}
use tenclaw.Vdagent.Pieces.{quiet, flat, run, run_lem}
use tenclaw.Protocol.Text.{++-nil}

-- The words of a list that lies in memory.
words_list :
    (ts : List ℕ) (m : Ram) (at : ℕ)
    → All (λ t. t < 2 ^ 32) ts
    → ((i : ℕ) → i < length (le32_list ts) → m (at + i) ≡ view (λ j. 0) (le32_list ts) i)
    → words_at m at (length ts) ≡ ts
words_list [] m at small h = refl
words_list (t ∷ ts) m at small h =
    let a = h 0 (omega arith) in
    let b = h 1 (omega arith) in
    let c = h 2 (omega arith) in
    let d = h 3 (omega arith) in
    let e : at + 0 ≡ at = omega arith in
    let f : at + 3 ≡ at + 2 + 1 = omega arith in
    let first : m at ≡ u8 t = sym (ap m e) ∙ a in
    let last : m (at + 2 + 1) ≡ u8 (shr t 24) = sym (ap m f) ∙ d in
    let word : load32 m at ≡ t = rw (first, b, c, last) (omega (arith, small.0)) in
    ap₂ ◌∷◌ word (
      words_list ts m (at + 4) small.1 (λ i lt.
        let s : at + 4 + i ≡ at + (4 + i) = omega arith in
        ap m s
        ∙ h (4 + i) (omega arith)
        ∙ view-append_right (λ j. 0) (le32_bytes t) (le32_list ts) i))

load_list :
    (bs : List ℕ) (m : Ram) (at : ℕ)
    → ((i : ℕ) → i < length bs → m (at + i) ≡ view (λ j. 0) bs i)
    → load_bytes m at (length bs) ≡ bs
unfolding load_bytes
load_list [] m at h = refl
load_list (b ∷ bs) m at h =
    let e : at + 0 ≡ at = omega arith in
    ap₂ ◌∷◌ (sym (ap m e) ∙ h 0 (omega arith)) (
      load_list bs m (at + 1) (λ i lt.
        let s : at + 1 + i ≡ at + (1 + i) = omega arith in
        ap m s ∙ h (1 + i) (omega arith) ∙ view-append_right (λ j. 0) (b ∷ []) bs i))

length-le32_list : (ts : List ℕ) → length (le32_list ts) ≡ 4 * length ts
length-le32_list [] = refl
length-le32_list (t ∷ ts) = omega (arith, length-le32_list ts)

-- Something to say of a clipboard, and the event that it is.
pub data Clip : Type 0 where
  grab_of : List ℕ → Clip
  data_of : ℕ → List ℕ → Clip
  request_for : ℕ → Clip
  release_it : Clip

abbrev pub send_clip : ℕ → Clip → Vdagent → Vdagent
send_clip selection (grab_of types) a = send_clipboard_grab selection types a
send_clip selection (data_of type bytes) a = send_clipboard_data selection type bytes a
send_clip selection (request_for type) a = send_clipboard_request selection type a
send_clip selection release_it a = send_clipboard_release selection a

abbrev pub event_of : ℕ → Clip → ClipboardEvent
event_of selection (grab_of types) = record {
  kind = grab;
  selection = selection;
  available_types = types;
  data_type = 0;
  data_ = [];
}
event_of selection (data_of type bytes) = record {
  kind = clip_data;
  selection = selection;
  available_types = [];
  data_type = type;
  data_ = bytes;
}
event_of selection (request_for type) = record {
  kind = request;
  selection = selection;
  available_types = [];
  data_type = type;
  data_ = [];
}
event_of selection release_it = record {
  kind = release;
  selection = selection;
  available_types = [];
  data_type = 0;
  data_ = [];
}

-- Its types are 32-bit words, and it fits a message.
abbrev pub IsClip : Clip → Type 0
IsClip (grab_of types) = All (λ t. t < 2 ^ 32) types × (28 + 4 * length types < 2 ^ 32)
IsClip (data_of type bytes) = (type < 2 ^ 32) × (28 + length bytes < 2 ^ 32)
IsClip (request_for type) = type < 2 ^ 32
IsClip release_it = Unit

abbrev message : Bool → ℕ → Clip → Message
message b selection c =
    let pre : List ℕ = if b then selection ∷ 0 ∷ 0 ∷ 0 ∷ [] else [] in
    elim c [
      | grab_of types ↦ record { type = clipboard_grab; payload = pre ++ le32_list types }
      | data_of type bytes ↦ record {
        type = clipboard;
        payload = pre ++ (le32_bytes type ++ bytes);
      }
      | request_for type ↦ record { type = clipboard_request; payload = pre ++ le32_bytes type }
      | release_it ↦ record { type = clipboard_release; payload = pre }
    ]

message-IsMessage :
    (b : Bool) (selection : ℕ) (c : Clip) → IsClip c → IsMessage (message b selection c)
message-IsMessage true selection (grab_of types) is =
    (omega arith, omega (arith, is.1, length-le32_list types))
message-IsMessage false selection (grab_of types) is =
    (omega arith, omega (arith, is.1, length-le32_list types))
message-IsMessage true selection (data_of type bytes) is = (omega arith, omega (arith, is.1))
message-IsMessage false selection (data_of type bytes) is = (omega arith, omega (arith, is.1))
message-IsMessage true selection (request_for type) is = (omega arith, omega arith)
message-IsMessage false selection (request_for type) is = (omega arith, omega arith)
message-IsMessage true selection release_it is = (omega arith, omega arith)
message-IsMessage false selection release_it is = (omega arith, omega arith)

-- How it is understood.
abbrev pub shown : Bool → ℕ → ℕ
shown b selection = if b then selection else 0

-- One message of each kind, in both forms.
understood :
    (b : Bool) (selection : ℕ) (c : Clip) (r : Vdagent)
    → IsClip c
    → has_capability cap_clipboard_selection r ≡ b
    → deliver (message b selection c) r ≡ notify (event_of (shown b selection) c) r
unfolding receive_message process_message handle_clipboard_grab handle_clipboard_data
    handle_clipboard_request handle_clipboard_release
understood true selection (grab_of types) r is knows =
    let len = length-le32_list types in
    let n : (length (selection ∷ 0 ∷ 0 ∷ 0 ∷ le32_list types) - 4) / 4 ≡ length types =
      omega arith in
    let m = view (λ j. 0) (selection ∷ 0 ∷ 0 ∷ 0 ∷ le32_list types) in
    let big : leb 4 (length (selection ∷ 0 ∷ 0 ∷ 0 ∷ le32_list types)) ≡ true = ground arith in
    let ws =
      words_list types m 4 is.0
        (λ i h. view-append_right (λ j. 0) (selection ∷ 0 ∷ 0 ∷ 0 ∷ []) (le32_list types) i) in
    rw (knows, big, n, ws) refl
understood false selection (grab_of types) r is knows =
    let len = length-le32_list types in
    let n : length (le32_list types) / 4 ≡ length types = omega arith in
    let m = view (λ j. 0) (le32_list types) in
    let ws = words_list types m 0 is.0 (λ i h. ap m (omega arith)) in rw (knows, n, ws) refl
understood true selection (data_of type bytes) r is knows =
    let m = view (λ j. 0) (selection ∷ 0 ∷ 0 ∷ 0 ∷ (le32_bytes type ++ bytes)) in
    let word : load32 m 4 ≡ type = omega (arith, is.0) in
    let big : leb 8 (length (selection ∷ 0 ∷ 0 ∷ 0 ∷ (le32_bytes type ++ bytes))) ≡ true =
      ground arith in
    let n : length (selection ∷ 0 ∷ 0 ∷ 0 ∷ (le32_bytes type ++ bytes)) - 8 ≡ length bytes =
      omega arith in
    let bs =
      load_list bytes m 8
        (λ i h. view-append_right (λ j. 0) (selection ∷ 0 ∷ 0 ∷ 0 ∷ le32_bytes type) bytes i) in
    rw (knows, big, word, n, bs) refl
understood false selection (data_of type bytes) r is knows =
    let m = view (λ j. 0) (le32_bytes type ++ bytes) in
    let word : load32 m 0 ≡ type = omega (arith, is.0) in
    let big : leb 4 (length (le32_bytes type ++ bytes)) ≡ true = ground arith in
    let n : length (le32_bytes type ++ bytes) - 4 ≡ length bytes = omega arith in
    let bs = load_list bytes m 4 (λ i h. view-append_right (λ j. 0) (le32_bytes type) bytes i) in
    rw (knows, big, word, n, bs) refl
understood true selection (request_for type) r is knows =
    let word : load32 (view (λ j. 0) (selection ∷ 0 ∷ 0 ∷ 0 ∷ le32_bytes type)) 4 ≡ type =
      omega arith in
    rw (knows, word) refl
understood false selection (request_for type) r is knows =
    let word : load32 (view (λ j. 0) (le32_bytes type)) 0 ≡ type = omega arith in
    rw (knows, word) refl
understood true selection release_it r is knows = rw knows refl
understood false selection release_it r is knows = rw knows refl

said :
    (b : Bool) (selection : ℕ) (c : Clip) (s : Vdagent)
    → s.has_serial ≡ true
    → s.guest_caps_received ≡ true
    → has_capability cap_clipboard_selection s ≡ b
    → (send_clip selection c s).sent ≡ s.sent ++ ((s.port_id, encode (message b selection c)) ∷ [])
unfolding send_message send_clipboard_grab send_clipboard_data send_clipboard_request
    send_clipboard_release
said true selection (grab_of types) s serial known knows = rw (serial, known, knows) refl
said false selection (grab_of types) s serial known knows = rw (serial, known, knows) refl
said true selection (data_of type bytes) s serial known knows = rw (serial, known, knows) refl
said false selection (data_of type bytes) s serial known knows = rw (serial, known, knows) refl
said true selection (request_for type) s serial known knows = rw (serial, known, knows) refl
said false selection (request_for type) s serial known knows = rw (serial, known, knows) refl
said true selection release_it s serial known knows = rw (serial, known, knows) refl
said false selection release_it s serial known knows = rw (serial, known, knows) refl

last_sent :
    (zs : List (ℕ × List ℕ)) (port : ℕ) (x y : List ℕ)
    → zs ++ ((port, x) ∷ []) ≡ zs ++ ((port, y) ∷ [])
    → x ≡ y
last_sent [] port x y e = ap (λ p. p.1) (cons_inj e).0
last_sent (z ∷ zs) port x y e = last_sent zs port x y (cons_inj e).1

module _ (past : List ℕ → Ram) where
  -- What a handler that knows its peer's capabilities sends of its clipboard, one message in a chunk
  -- of its own, makes a handler with the same view of selections, and in any number of pieces, tell
  -- its callback exactly that: the kind, the types, the data, and the selection if it is known to
  -- both; nothing else changes but what is sent.
  pub send_clip_lem :
      (selection : ℕ) (c : Clip) (s r : Vdagent) (ps : List (List ℕ))
      → IsClip c
      → s.has_serial ≡ true
      → s.guest_caps_received ≡ true
      → r.has_callback ≡ true
      → r.recv_buffer ≡ []
      → has_capability cap_clipboard_selection s ≡ has_capability cap_clipboard_selection r
      → (send_clip selection c s).sent ≡ s.sent ++ ((s.port_id, flat ps) ∷ [])
      → quiet (run past ps r)
        ≡ quiet (record r {
          events =
              r.events
              ++ (event_of (shown (has_capability cap_clipboard_selection r) selection) c ∷ []);
        })
  send_clip_lem selection c s r ps is serial known back empty knows out =
      let b = has_capability cap_clipboard_selection r in
      let m = message b selection c in
      let bytes : flat ps ≡ encode m ++ [] =
        last_sent s.sent s.port_id (flat ps) (encode m)
          (sym out ∙ said b selection c s serial known knows)
        ∙ sym (++-nil (encode m)) in
      let got = run_lem past ps (m ∷ []) r (message-IsMessage b selection c is, tt) empty bytes in
      let heard = understood b selection c r is refl in
      got ∙ ap (framed [] []) heard ∙ rw (back, empty) refl
