-- ===== src/Vdagent/Pieces.antt =====
-- The pieces in which a stream of messages arrives make no difference.
use tenclaw.Base.{
  ℕ, zero, suc, ◌+◌, ◌≤◌, ◌<◌, ◌≡◌, refl, sym, ap, ap₂, subst, ◌∙◌, inl, inr, true, List, [], ◌∷◌,
  ◌++◌, arith, ltb, Bool-cases, length, length-append, cons_inj, All,
}
use tenclaw.Protocol.Text.{++-assoc, ++-nil}
use tenclaw.Memory.{Ram, load32}
use tenclaw.Vdagent.{
  Vdagent, view, receive_loop, on_data_received, send_announce_capabilities, send_message,
}
use tenclaw.Vdagent.Frames.{load32-agree, framed, view-append_left}
use tenclaw.Vdagent.Stream.{
  Message, IsMessage, encode, encode_all, deliver, deliver_all, deliver_all-framed, take_message,
  chunk_size, length-encode, deliver_all-append,
}

-- A list that begins like another, of at most its length, begins with it.
split-prefix :
    (xs tail ys zs : List ℕ)
    → xs ++ tail ≡ ys ++ zs
    → length ys ≤ length xs
    → (rest : List ℕ) × (xs ≡ ys ++ rest) × (rest ++ tail ≡ zs)
split-prefix xs tail [] zs e h = (xs, refl, e)
split-prefix [] tail (y ∷ ys) zs e h = absurd (omega arith)
split-prefix (x ∷ xs) tail (y ∷ ys) zs e h =
    let (head, later) = cons_inj e in
    let (rest, a, b) = split-prefix xs tail ys zs later (omega arith) in (rest, ap₂ ◌∷◌ head a, b)

-- What the loop leaves of a buffer that the stream `ms` continues: some messages are delivered, and
-- the rest of them is what is left with the bytes to come.
pub record Taken (ms : List Message) (tail : List ℕ) (z : List (ℕ × List ℕ)) (a : Vdagent)
    (r : Vdagent) : Type 0 where
  pub done : List Message
  pub left : List Message
  pub buffer : List ℕ
  pub all_of : ms ≡ done ++ left
  pub result : r ≡ framed buffer z (deliver_all done a)
  pub waits : buffer ++ tail ≡ encode_all left
  pub over : tail ≡ [] → left ≡ []

module _ (past : List ℕ → Ram) where
  -- A message of which bytes are missing stops the loop.
  stop_early :
      (fuel : ℕ) (m : Message) (more buffer tail : List ℕ) (z : List (ℕ × List ℕ)) (a : Vdagent)
      → IsMessage m
      → buffer ++ tail ≡ encode m ++ more
      → length buffer < 28 + length m.payload
      → (receive_loop past fuel (framed buffer z a)).0 ≡ framed buffer z a
  unfolding receive_loop
  stop_early zero m more buffer tail z a is e short = refl
  stop_early (suc fuel) m more buffer tail z a is e short =
      elim (Bool-cases (ltb (length buffer) 8)) [
        | inl y ↦ rw y refl
        | inr n ↦
            let same : (i : ℕ)
                → i < 8
                → view (past buffer) buffer i ≡ view (past buffer) (encode m ++ more) i =
              λ i h.
                sym (view-append_left (past buffer) (past buffer) buffer tail i (ground arith))
                ∙ ap (λ l. view (past buffer) l i) e in
            let size : load32 (view (past buffer) buffer) 4 ≡ 20 + length m.payload =
              load32-agree (view (past buffer) buffer) (view (past buffer) (encode m ++ more)) 4 8
                (omega arith) same
              ∙ chunk_size (past buffer) m more is in
            let wait : ltb (length buffer) (8 + (20 + length m.payload)) ≡ true = ground arith in
            rw (size, n, wait) refl
      ]

  stop_empty :
      (fuel : ℕ) (buffer : List ℕ) (z : List (ℕ × List ℕ)) (a : Vdagent)
      → length buffer ≡ 0
      → (receive_loop past fuel (framed buffer z a)).0 ≡ framed buffer z a
  unfolding receive_loop
  stop_empty zero buffer z a h = refl
  stop_empty (suc fuel) buffer z a h =
      let y : ltb (length buffer) 8 ≡ true = ground arith in rw y refl

  waiting :
      (m : Message) (ms : List Message) (fuel : ℕ) (buffer tail : List ℕ) (z : List (ℕ × List ℕ))
      (a : Vdagent)
      → IsMessage m
      → buffer ++ tail ≡ encode m ++ encode_all ms
      → length buffer < 28 + length m.payload
      → Taken (m ∷ ms) tail z a (receive_loop past fuel (framed buffer z a)).0
  waiting m ms fuel buffer tail z a is e short = record {
    done = [];
    left = m ∷ ms;
    buffer = buffer;
    all_of = refl;
    result = stop_early fuel m (encode_all ms) buffer tail z a is e short;
    waits = e;
    over = λ t.
        let lens : length buffer + length tail ≡ length (encode m) + length (encode_all ms) =
          sym (length-append buffer tail)
          ∙ ap length e
          ∙ length-append (encode m) (encode_all ms) in
        let nil : length tail ≡ 0 = ap length t in absurd (omega (arith, length-encode m));
  }

  pub loop_lem :
      (ms : List Message) (fuel : ℕ) (buffer tail : List ℕ) (z : List (ℕ × List ℕ)) (a : Vdagent)
      → All IsMessage ms
      → buffer ++ tail ≡ encode_all ms
      → length buffer ≤ fuel
      → Taken ms tail z a (receive_loop past fuel (framed buffer z a)).0
  loop_lem [] fuel buffer tail z a all e h =
      let none_left : length buffer ≡ 0 =
        let t = ap length e in let s = length-append buffer tail in omega arith in
      record {
        done = [];
        left = [];
        buffer = buffer;
        all_of = refl;
        result = stop_empty fuel buffer z a none_left;
        waits = e;
        over = λ t. refl;
      }
  loop_lem (m ∷ ms) zero buffer tail z a all e h =
      waiting m ms zero buffer tail z a all.0 e (omega arith)
  loop_lem (m ∷ ms) (suc fuel) buffer tail z a all e h =
      elim (Bool-cases (ltb (length buffer) (28 + length m.payload))) [
        | inl y ↦ waiting m ms (suc fuel) buffer tail z a all.0 e (ground arith)
        | inr n ↦
            let (rest, start, later) =
              split-prefix buffer tail (encode m) (encode_all ms) e
                (ground (arith, length-encode m)) in
            let lens : length buffer ≡ length (encode m) + length rest =
              ap length start ∙ length-append (encode m) rest in
            let (asked, eq) = take_message past fuel m rest z a all.0 in
            let t =
              loop_lem ms fuel rest tail z (deliver m a) all.1 later
                (omega (arith, length-encode m)) in
            record {
              done = m ∷ t.done;
              left = t.left;
              buffer = t.buffer;
              all_of = ap (λ l. m ∷ l) t.all_of;
              result =
                  ap (λ b. (receive_loop past (suc fuel) (framed b z a)).0) start
                  ∙ ap (λ r. r.0) eq
                  ∙ t.result;
              waits = t.waits;
              over = t.over;
            }
      ]

-- The state but for what was sent.
abbrev pub quiet : Vdagent → Vdagent
quiet a = record a { sent = [] }

quiet-send_announce_capabilities : (a : Vdagent) → quiet (send_announce_capabilities a) ≡ quiet a
unfolding send_announce_capabilities send_message
quiet-send_announce_capabilities a = ground arith

All-right : (ms ns : List Message) → All IsMessage (ms ++ ns) → All IsMessage ns
All-right [] ns h = h
All-right (m ∷ ms) ns h = All-right ms ns h.1

abbrev pub flat : List (List ℕ) → List ℕ
flat [] = []
flat (p ∷ ps) = p ++ flat ps

nothing_encoded : (ms : List Message) → encode_all ms ≡ [] → ms ≡ []
nothing_encoded [] e = refl
nothing_encoded (m ∷ ms) e =
    let s = length-append (encode m) (encode_all ms) in
    let n : length (encode_all (m ∷ ms)) ≡ 0 = ap length e in
    absurd (omega (arith, length-encode m))

deliver_both :
    (done left : List Message) (buffer : List ℕ) (a a1 : Vdagent)
    → quiet a1 ≡ framed buffer [] (deliver_all done a)
    → framed [] [] (deliver_all left a1) ≡ framed [] [] (deliver_all (done ++ left) a)
deliver_both done left buffer a a1 e =
    sym (deliver_all-framed left [] [] a1)
    ∙ ap (λ t. deliver_all left (framed [] [] t)) e
    ∙ deliver_all-framed left [] [] (deliver_all done a)
    ∙ ap (framed [] []) (sym (deliver_all-append done left a))

module _ (past : List ℕ → Ram) where
  -- The calls of `OnDataReceived` with these pieces, one after another.
  abbrev pub run : List (List ℕ) → Vdagent → Vdagent
  run [] a = a
  run (p ∷ ps) a = run ps (on_data_received past p a)

  on_data_received_lem :
      (bytes : List ℕ) (a : Vdagent)
      → let buffer = a.recv_buffer ++ bytes in
        quiet (on_data_received past bytes a)
        ≡ quiet (receive_loop past (length buffer) (framed buffer a.sent a)).0
  unfolding on_data_received
  on_data_received_lem bytes a =
      let buffer = a.recv_buffer ++ bytes in
      let r = receive_loop past (length buffer) (framed buffer a.sent a) in
      elim (Bool-cases r.1) [
        | inl y ↦ rw y (quiet-send_announce_capabilities r.0)
        | inr n ↦ rw n refl
      ]

  run-from :
      (ps : List (List ℕ)) (ms : List Message) (a : Vdagent)
      → All IsMessage ms
      → a.recv_buffer ++ flat ps ≡ encode_all ms
      → (ps ≡ [] → ms ≡ [])
      → quiet (run ps a) ≡ framed [] [] (deliver_all ms a)
  run-from [] ms a all e last =
      let none_left = last refl in
      let empty : a.recv_buffer ≡ [] = sym (++-nil a.recv_buffer) ∙ e ∙ ap encode_all none_left in
      ap (λ r. framed r [] a) empty ∙ ap (λ l. framed [] [] (deliver_all l a)) (sym none_left)
  run-from (p ∷ ps) ms a all e last =
      let buffer = a.recv_buffer ++ p in
      let all_bytes : buffer ++ flat ps ≡ encode_all ms = ++-assoc a.recv_buffer p (flat ps) ∙ e in
      let t =
        loop_lem past ms (length buffer) buffer (flat ps) a.sent a all all_bytes (omega arith) in
      let a1 = on_data_received past p a in
      let now : quiet a1 ≡ framed t.buffer [] (deliver_all t.done a) =
        on_data_received_lem p a ∙ ap quiet t.result in
      let kept : a1.recv_buffer ≡ t.buffer = ap (λ b. b.recv_buffer) now in
      run-from ps t.left a1 (All-right t.done t.left (subst (All IsMessage) t.all_of all))
        (ap (λ b. b ++ flat ps) kept ∙ t.waits) (λ n. t.over (ap flat n))
      ∙ deliver_both t.done t.left t.buffer a a1 now
      ∙ ap (λ l. framed [] [] (deliver_all l a)) (sym t.all_of)

  -- However the bytes of a stream of messages, one message in a chunk each, are cut into pieces, from an
  -- empty buffer on, and whatever lies in memory past the buffer, each message of the stream takes
  -- effect once, in order, by its own bytes alone, and nothing stays in the buffer. (What is sent back
  -- depends on the pieces.)
  pub run_lem :
      (ps : List (List ℕ)) (ms : List Message) (a : Vdagent)
      → All IsMessage ms
      → a.recv_buffer ≡ []
      → flat ps ≡ encode_all ms
      → quiet (run ps a) ≡ framed [] [] (deliver_all ms a)
  run_lem ps ms a all empty e =
      run-from ps ms a all (ap (λ b. b ++ flat ps) empty ∙ e)
        (λ n. nothing_encoded ms (sym e ∙ ap flat n))
