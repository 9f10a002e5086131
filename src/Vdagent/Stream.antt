-- ===== src/Vdagent/Stream.antt =====
-- How the messages of a stream come in: in pieces of any size, each is understood once, in order.
use tenclaw.Base.{
  ℕ, suc, ◌+◌, ◌^◌, ◌<◌, ◌≡◌, refl, sym, ap, ◌∙◌, Bool, true, false, ◌||◌, List, [], ◌∷◌, ◌++◌,
  arith, ltb, leb, length, drop, length-append,
}
use tenclaw.Memory.{Ram, load32}
use tenclaw.Vdagent.{Vdagent, headers, view, receive_message, receive_chunk, receive_loop}
use tenclaw.Vdagent.Frames.{receive_message-agree, receive_message-framed, framed, view-append_left}

-- A message as the guest's agent sends it, in a chunk of its own.
pub record Message : Type 0 where
  pub type : ℕ
  pub payload : List ℕ

abbrev pub IsMessage : Message → Type 0
IsMessage m = (m.type < 2 ^ 32) × (20 + length m.payload < 2 ^ 32)

abbrev pub encode : Message → List ℕ
encode m = headers m.type (length m.payload) ++ m.payload

abbrev pub encode_all : List Message → List ℕ
encode_all [] = []
encode_all (m ∷ ms) = encode m ++ encode_all ms

-- What a message does, by its type and its own bytes alone.
abbrev pub deliver : Message → Vdagent → Vdagent
deliver m a = (receive_message m.type (view (λ i. 0) m.payload) (length m.payload) a).0

abbrev pub deliver_all : List Message → Vdagent → Vdagent
deliver_all [] a = a
deliver_all (m ∷ ms) a = deliver_all ms (deliver m a)

pub deliver-framed :
    (m : Message) (r : List ℕ) (z : List (ℕ × List ℕ)) (a : Vdagent)
    → deliver m (framed r z a) ≡ framed r z (deliver m a)
deliver-framed m r z a =
    ap (λ t. t.0) (receive_message-framed m.type (view (λ i. 0) m.payload) (length m.payload) r z a)

pub deliver_all-framed :
    (ms : List Message) (r : List ℕ) (z : List (ℕ × List ℕ)) (a : Vdagent)
    → deliver_all ms (framed r z a) ≡ framed r z (deliver_all ms a)
deliver_all-framed [] r z a = refl
deliver_all-framed (m ∷ ms) r z a =
    ap (deliver_all ms) (deliver-framed m r z a) ∙ deliver_all-framed ms r z (deliver m a)

pub deliver_all-append :
    (ms ns : List Message) (a : Vdagent)
    → deliver_all (ms ++ ns) a ≡ deliver_all ns (deliver_all ms a)
deliver_all-append [] ns a = refl
deliver_all-append (m ∷ ms) ns a = deliver_all-append ms ns (deliver m a)

-- The fields of an encoded message, whatever follows it.
pub length-encode : (m : Message) → length (encode m) ≡ 28 + length m.payload
length-encode m = omega arith

pub view-append_right :
    (p : Ram) (xs ys : List ℕ) (i : ℕ) → view p (xs ++ ys) (length xs + i) ≡ view p ys i
view-append_right p [] ys i = ap (view p ys) (omega arith)
view-append_right p (x ∷ xs) ys i =
    let e : suc (length xs) + i ≡ suc (length xs + i) = omega arith in
    ap (view p (x ∷ (xs ++ ys))) e ∙ view-append_right p xs ys i

drop-append : (xs ys : List ℕ) → drop (length xs) (xs ++ ys) ≡ ys
drop-append [] ys = refl
drop-append (x ∷ xs) ys = drop-append xs ys

module _ (p : Ram) (m : Message) (rest : List ℕ) where
  pub chunk_size : IsMessage m → load32 (view p (encode m ++ rest)) 4 ≡ 20 + length m.payload
  chunk_size is = omega (arith, is.1)

  message_type : IsMessage m → load32 (view p (encode m ++ rest)) 12 ≡ m.type
  message_type is = omega (arith, is.0)

  message_size : IsMessage m → load32 (view p (encode m ++ rest)) 24 ≡ length m.payload
  message_size is = omega (arith, is.1)

  message_data :
      (i : ℕ)
      → i < length m.payload
      → view p (encode m ++ rest) (28 + i) ≡ view (λ j. 0) m.payload i
  message_data i h =
      view-append_right p (headers m.type (length m.payload)) (m.payload ++ rest) i
      ∙ view-append_left p (λ j. 0) m.payload rest i h

  drop-encode : drop (28 + length m.payload) (encode m ++ rest) ≡ rest
  drop-encode =
      ap (λ n. drop n (encode m ++ rest)) (sym (length-encode m)) ∙ drop-append (encode m) rest

  whole : length (encode m ++ rest) ≡ 28 + length m.payload + length rest
  whole = length-append (encode m) rest ∙ ap (λ n. n + length rest) (length-encode m)

module _ (past : List ℕ → Ram) where
  -- A whole message at the start of the buffer is delivered, and its chunk taken off.
  pub take_message :
      (fuel : ℕ) (m : Message) (rest : List ℕ) (z : List (ℕ × List ℕ)) (a : Vdagent)
      → IsMessage m
      → (asked : Bool) × (receive_loop past (suc fuel) (framed (encode m ++ rest) z a) ≡ (
        (receive_loop past fuel (framed rest z (deliver m a))).0,
        asked || (receive_loop past fuel (framed rest z (deliver m a))).1,
      ))
  unfolding receive_loop receive_chunk
  take_message fuel m rest z a is =
      let buffer = encode m ++ rest in
      let p = past buffer in
      let n = length m.payload in
      let mem : Ram = λ i. view p buffer (28 + i) in
      let got = receive_message m.type (view (λ i. 0) m.payload) n a in
      let read : receive_message m.type mem n (framed buffer z a) ≡ (framed buffer z got.0, got.1) =
        receive_message-agree mem (view (λ i. 0) m.payload) n (framed buffer z a) m.type
          (message_data p m rest)
        ∙ receive_message-framed m.type (view (λ i. 0) m.payload) n buffer z a in
      let size = chunk_size p m rest is in
      let type = message_type p m rest is in
      let len = message_size p m rest is in
      let total = whole p m rest in
      let big : leb 20 (20 + n) ≡ true = ground arith in
      let some_ : ltb (length buffer) 8 ≡ false = ground arith in
      let enough : ltb (length buffer) (8 + (20 + n)) ≡ false = ground arith in
      let after : Vdagent × Bool → Vdagent × Bool = λ t.
        let next =
          receive_loop past fuel
            (record t.0 { recv_buffer = drop (8 + (20 + n)) t.0.recv_buffer }) in
        (next.0, t.1 || next.1) in
      let shorter : drop (8 + (20 + n)) buffer ≡ rest =
        let e : 8 + (20 + n) ≡ 28 + n = omega arith in
        ap (λ k. drop k buffer) e ∙ drop-encode p m rest in
      (
        got.1,
        rw (size, type, len, big, some_, enough)
            (ap after read
              ∙ ap (λ r. after (framed r z got.0, got.1)) refl
              ∙ ap
                  (λ (r : List ℕ).
                    let next = receive_loop past fuel (framed r z got.0) in
                    (next.0, got.1 || next.1))
                  shorter),
      )
