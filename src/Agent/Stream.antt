-- ===== src/Agent/Stream.antt =====
-- How the guest's bytes are cut into chunks makes no difference.
use tenclaw.Base.{ℕ, ◌≡◌, refl, sym, ap, ◌∙◌, List, [], ◌∷◌, ◌++◌, arith}
use tenclaw.Protocol.{Bytes}
use tenclaw.Protocol.Text.{++-assoc}
use tenclaw.Agent.{Agent, receive_byte, collect, process_line, process_lines, on_data_received}

collect-append :
    (buffer s t : Bytes)
    → collect buffer (s ++ t) ≡ (
      (collect buffer s).0 ++ (collect (collect buffer s).1 t).0,
      (collect (collect buffer s).1 t).1,
    )
unfolding collect
collect-append buffer [] t = refl
collect-append buffer (ch ∷ s) t =
    let next = (receive_byte buffer ch).1 in
    rw (collect-append next s t) (
      ap (λ l. (l, (collect (collect next s).1 t).1))
        (sym (
          ++-assoc (receive_byte buffer ch).0 (collect next s).0 (collect (collect next s).1 t).0)))

module _ (strtoll : Bytes → ℕ) (to_text : ℕ → Bytes) where
  process_lines-append :
      (ls ks : List Bytes) (a : Agent)
      → process_lines strtoll to_text (ls ++ ks) a
        ≡ process_lines strtoll to_text ks (process_lines strtoll to_text ls a)
  unfolding process_lines
  process_lines-append [] ks a = refl
  process_lines-append (l ∷ ls) ks a = process_lines-append ls ks (process_line strtoll to_text l a)

  abbrev with_buffer : Bytes → Agent → Agent
  with_buffer b a = record a { recv_buffer = b }

  process_line-buffer :
      (l b : Bytes) (a : Agent)
      → process_line strtoll to_text l (with_buffer b a)
        ≡ with_buffer b (process_line strtoll to_text l a)
  unfolding process_line
  process_line-buffer l b a = ground arith

  process_lines-buffer :
      (ls : List Bytes) (b : Bytes) (a : Agent)
      → process_lines strtoll to_text ls (with_buffer b a)
        ≡ with_buffer b (process_lines strtoll to_text ls a)
  unfolding process_lines
  process_lines-buffer [] b a = refl
  process_lines-buffer (l ∷ ls) b a =
      ap (process_lines strtoll to_text ls) (process_line-buffer l b a)
      ∙ process_lines-buffer ls b (process_line strtoll to_text l a)

  -- Two chunks of data have the effect of one: a line may come in any number of pieces.
  pub on_data_received-append :
      (s t : Bytes) (a : Agent)
      → on_data_received strtoll to_text (s ++ t) a
        ≡ on_data_received strtoll to_text t (on_data_received strtoll to_text s a)
  unfolding on_data_received
  on_data_received-append s t a =
      let lines = process_lines strtoll to_text in
      let first = collect a.recv_buffer s in
      let second = collect first.1 t in
      ap (λ c. lines c.0 (with_buffer c.1 a)) (collect-append a.recv_buffer s t)
      ∙ process_lines-append first.0 second.0 (with_buffer second.1 a)
      ∙ ap (lines second.0) (process_lines-buffer first.0 second.1 a)
      ∙ sym (ap (on_data_received strtoll to_text t) (process_lines-buffer first.0 first.1 a))
