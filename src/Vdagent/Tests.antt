-- ===== src/Vdagent/Tests.antt =====
-- Two handlers that talk to each other, and a stream in pieces.
use tenclaw.Base.{ℕ, ◌≡◌, refl, true, List, [], ◌∷◌, ◌++◌, arith, take, drop}
use tenclaw.Memory.{Ram}
use tenclaw.Vdagent.{
  Vdagent, clip_data, new_vdagent, set_serial_device, set_clipboard_callback, le32_bytes,
  announce_capabilities, clipboard_request, on_data_received, send_message,
}
use tenclaw.Vdagent.Send.{send_clipboard_data}
use tenclaw.Vdagent.Stream.{Message, encode, encode_all, deliver_all}
use tenclaw.Vdagent.Frames.{framed}
use tenclaw.Vdagent.Pieces.{quiet, run, run_lem}
use tenclaw.Vdagent.Peers.{send_clip_lem, data_of}
use tenclaw.Vdagent.Waits.{Waits, on_data_received-Waits}

-- What lies past the buffer, whatever it holds.
abbrev dirt : List ℕ → Ram
dirt buffer = λ i. 255

abbrev fresh : Vdagent
fresh = set_clipboard_callback (set_serial_device 1 new_vdagent)

-- The guest announces the clipboard with selections, and asks for a text.
abbrev talk : List Message
talk =
    record { type = announce_capabilities; payload = le32_bytes 1 ++ le32_bytes 0x68 }
    ∷ record { type = clipboard_request; payload = 1 ∷ 0 ∷ 0 ∷ 0 ∷ le32_bytes 1 }
    ∷ []

abbrev pieces : List (List ℕ)
pieces =
    take 5 (encode_all talk) ∷ take 50 (drop 5 (encode_all talk)) ∷ drop 55 (encode_all talk) ∷ []

run_lem_example : quiet (run dirt pieces fresh) ≡ framed [] [] (deliver_all talk fresh)
unfolding new_vdagent
run_lem_example =
    run_lem dirt pieces talk fresh
      ((ground arith, ground arith), ((ground arith, ground arith), tt)) refl refl

-- Both sides know selections.
abbrev greeted : Vdagent
greeted = record fresh { guest_caps = 0x68 ∷ []; guest_caps_received = true }

abbrev text : List ℕ
text = 104 ∷ 105 ∷ []

abbrev sent_bytes : List ℕ
sent_bytes = encode (record { type = 4; payload = 1 ∷ 0 ∷ 0 ∷ 0 ∷ (le32_bytes 1 ++ text) })

send_clip_lem_example :
    quiet (run dirt (take 30 sent_bytes ∷ drop 30 sent_bytes ∷ []) greeted)
    ≡ quiet (record greeted {
      events =
          record {
            kind = clip_data;
            selection = 1;
            available_types = [];
            data_type = 1;
            data_ = text;
          }
          ∷ [];
    })
unfolding new_vdagent send_clipboard_data send_message
send_clip_lem_example =
    send_clip_lem dirt 1 (data_of 1 text) greeted greeted
      (take 30 sent_bytes ∷ drop 30 sent_bytes ∷ []) (ground arith, ground arith) refl refl refl
      refl refl refl

on_data_received-Waits_example :
    Waits dirt (on_data_received dirt (1 ∷ 0 ∷ 0 ∷ []) fresh).recv_buffer
on_data_received-Waits_example = on_data_received-Waits dirt (1 ∷ 0 ∷ 0 ∷ []) fresh
