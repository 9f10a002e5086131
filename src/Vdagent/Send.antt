-- ===== src/Vdagent/Send.antt =====
-- What the host sends of its clipboard: `SendClipboardGrab` and the rest.
use tenclaw.Base.{ℕ, not, List, [], ◌∷◌, ◌++◌, if◌then◌else◌}
use tenclaw.Vdagent.{
  Vdagent, cap_clipboard_selection, has_capability, le32_bytes, le32_list, send_message, clipboard,
  clipboard_grab, clipboard_request, clipboard_release,
}

-- The selection and three reserved bytes, for a guest that knows selections.
abbrev pub selection_bytes : ℕ → Vdagent → List ℕ
selection_bytes selection a =
    if has_capability cap_clipboard_selection a then selection ∷ 0 ∷ 0 ∷ 0 ∷ [] else []

unfoldable pub send_clipboard_grab : ℕ → List ℕ → Vdagent → Vdagent
send_clipboard_grab selection types a =
    if not a.guest_caps_received
    then a
    else send_message clipboard_grab (selection_bytes selection a ++ le32_list types) a

unfoldable pub send_clipboard_data : ℕ → ℕ → List ℕ → Vdagent → Vdagent
send_clipboard_data selection type bytes a =
    if not a.guest_caps_received
    then a
    else send_message clipboard (selection_bytes selection a ++ (le32_bytes type ++ bytes)) a

unfoldable pub send_clipboard_request : ℕ → ℕ → Vdagent → Vdagent
send_clipboard_request selection type a =
    if not a.guest_caps_received
    then a
    else send_message clipboard_request (selection_bytes selection a ++ le32_bytes type) a

unfoldable pub send_clipboard_release : ℕ → Vdagent → Vdagent
send_clipboard_release selection a =
    if not a.guest_caps_received
    then a
    else send_message clipboard_release (selection_bytes selection a) a
