-- ===== src/Agent/Tests.antt =====
-- A reply to a handshake, after noise, in two chunks.
use tenclaw.Base.{
  ℕ, ◌+◌, ◌-◌, ◌*◌, ◌/◌, ◌%◌, ◌≡◌, refl, true, false, ◌&&◌, List, [], ◌∷◌, ◌++◌, arith, ltb, leb,
  if◌then◌else◌,
}
use tenclaw.Protocol.{Bytes, codes}
use tenclaw.Agent.{
  initial, on_data_received, on_port_open, json_has_key, json_get_int, after_first, after_prefix,
  skip_spaces,
}
use tenclaw.Agent.Stream.{on_data_received-append}
use tenclaw.Agent.Connection.{Event, opened, closed, received, asked_ping}
use tenclaw.Agent.Handshake.{handshake_lem}

-- The leading digits of a text.
abbrev digits_from : ℕ → Bytes → ℕ
digits_from acc [] = acc
digits_from acc (d ∷ s) =
    let rest = digits_from (acc * 10 + (d - 48)) s in if leb 48 d && ltb d 58 then rest else acc

abbrev strtoll : Bytes → ℕ
strtoll s = digits_from 0 s

-- A number below 100.
abbrev to_text : ℕ → Bytes
to_text n = (48 + n / 10) ∷ (48 + n % 10) ∷ []

abbrev reply : Bytes
reply = codes "{\"return\": 42}"

on_data_received-append_example :
    on_data_received strtoll to_text (codes "{\"retu" ++ codes "rn\": 42}\n") initial
    ≡ on_data_received strtoll to_text
        (codes "rn\": 42}\n")
        (on_data_received strtoll to_text (codes "{\"retu") initial)
on_data_received-append_example =
    on_data_received-append strtoll to_text (codes "{\"retu") (codes "rn\": 42}\n") initial

abbrev history : List Event
history = opened 42 ∷ received (codes "x\n{\"return\": 42}\n") ∷ asked_ping ∷ closed ∷ []

reply_id : json_get_int strtoll to_text reply (codes "return") ≡ 42
unfolding json_get_int after_first after_prefix skip_spaces
reply_id = refl

reply_key : json_has_key reply (codes "return") ≡ true
unfolding json_has_key after_first after_prefix
reply_key = refl

handshake_lem_example :
    let b =
      on_data_received strtoll to_text
        (codes "old line\n{" ++ (0xff ∷ (reply ++ (10 ∷ []))))
        (on_port_open strtoll to_text true 42 initial) in
    (b.connected ≡ true) × (b.sync_pending ≡ false) × (b.recv_buffer ≡ [])
handshake_lem_example =
    handshake_lem strtoll to_text 42 (codes "old line\n{") reply initial (ground arith)
      (ground arith) reply_key reply_id
