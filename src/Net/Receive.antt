-- ===== src/Net/Receive.antt =====
-- What arrives in the driver's buffers when a frame is injected.
use tenclaw.Base.{
  ℕ, zero, suc, ◌+◌, ◌-◌, ◌%◌, ◌^◌, ◌≤◌, ◌<◌, min, ◌≡◌, refl, sym, ap, ◌∙◌, ◌⊎◌, inl, inr, true,
  false, not, ◌||◌, none, some, List, [], ◌∷◌, ◌++◌, arith, leb, Bool-cases, Option-cases, length,
  take, drop, replicate, u32, get_elem?, length-take, length-drop, All,
}
use tenclaw.Memory.{Ram, load_bytes, store_bytes}
use tenclaw.Memory.Words.{store_bytes_frame}
use tenclaw.Memory.Bytes.{
  length-load_bytes, load_bytes_agree, load_bytes-store_bytes, load_bytes-add,
}
use tenclaw.Virtqueue.{VirtQueue, VirtqChainElem, walk_chain, push_used, pop_avail}
use tenclaw.Mmio.{Mmio, notify_used_buffer}
use tenclaw.Blk.Transfer.{total_len, gather, Disjoint, Outside, Outside-Apart}
use tenclaw.Net.{copy_packet, receive, inject_rx}

All-take : (P : ℕ → Type 0) (n : ℕ) (xs : List ℕ) → All P xs → All P (take n xs)
All-take P zero xs a = tt
All-take P (suc n) [] a = tt
All-take P (suc n) (x ∷ xs) a = (a.0, All-take P n xs a.1)

All-drop : (P : ℕ → Type 0) (n : ℕ) (xs : List ℕ) → All P xs → All P (drop n xs)
All-drop P zero xs a = a
All-drop P (suc n) [] a = tt
All-drop P (suc n) (x ∷ xs) a = All-drop P n xs a.1

-- The first part of a list and then more of it.
take-append : (n m : ℕ) (xs ys : List ℕ) → length xs ≡ n → take (n + m) (xs ++ ys) ≡ xs ++ take m ys
take-append n m [] ys h = let e : n + m ≡ m = omega arith in rw e refl
take-append zero m (x ∷ xs) ys h = absurd (ground arith)
take-append (suc n) m (x ∷ xs) ys h =
    let e : suc n + m ≡ suc (n + m) = omega arith in
    rw e (ap (λ t. x ∷ t) (take-append n m xs ys (omega arith)))

take-exact : (n : ℕ) (xs ys : List ℕ) → length xs ≡ n → take n (xs ++ ys) ≡ xs
take-exact zero [] ys h = refl
take-exact (suc n) [] ys h = absurd (ground arith)
take-exact zero (x ∷ xs) ys h = absurd (ground arith)
take-exact (suc n) (x ∷ xs) ys h = ap (λ t. x ∷ t) (take-exact n xs ys (omega arith))

take-prefix : (n : ℕ) (xs ys : List ℕ) → n ≤ length xs → take n (xs ++ ys) ≡ take n xs
take-prefix zero xs ys h = refl
take-prefix (suc n) [] ys h = absurd (ground arith)
take-prefix (suc n) (x ∷ xs) ys h = ap (λ t. x ∷ t) (take-prefix n xs ys (omega arith))

take_long : (n : ℕ) (xs : List ℕ) → length xs ≤ n → take n xs ≡ xs
take_long zero [] h = refl
take_long zero (x ∷ xs) h = absurd (ground arith)
take_long (suc n) [] h = refl
take_long (suc n) (x ∷ xs) h = ap (λ t. x ∷ t) (take_long n xs (omega arith))

drop_all : (n : ℕ) (xs : List ℕ) → length xs ≤ n → drop n xs ≡ []
drop_all zero [] h = refl
drop_all zero (x ∷ xs) h = absurd (ground arith)
drop_all (suc n) [] h = refl
drop_all (suc n) (x ∷ xs) h = drop_all n xs (omega arith)

take_none : (n : ℕ) → take {A = ℕ} n [] ≡ []
take_none zero = refl
take_none (suc n) = refl

drop_none : (n : ℕ) → drop {A = ℕ} n [] ≡ []
drop_none zero = refl
drop_none (suc n) = refl

take-split : (n m : ℕ) (xs : List ℕ) → take (n + m) xs ≡ take n xs ++ take m (drop n xs)
take-split zero m xs = let e : zero + m ≡ m = omega arith in rw e refl
take-split (suc n) m [] = take_none (suc n + m) ∙ sym (take_none m)
take-split (suc n) m (x ∷ xs) =
    let e : suc n + m ≡ suc (n + m) = omega arith in rw e (ap (λ t. x ∷ t) (take-split n m xs))

drop-drop : (n m : ℕ) (xs : List ℕ) → drop m (drop n xs) ≡ drop (n + m) xs
drop-drop zero m xs = let e : zero + m ≡ m = omega arith in rw e refl
drop-drop (suc n) m [] = drop_none m ∙ sym (drop_none (suc n + m))
drop-drop (suc n) m (x ∷ xs) =
    let e : suc n + m ≡ suc (n + m) = omega arith in rw e (drop-drop n m xs)

-- The copy never writes outside the buffers that the device may write.
pub copy_packet-Outside :
    (total : ℕ) (packet : List ℕ) (es : List VirtqChainElem) (written : ℕ) (r : Ram) (x : ℕ)
    → Outside x es
    → (copy_packet total packet es written r).1 x ≡ r x
unfolding copy_packet
copy_packet-Outside total packet [] written r x o = refl
copy_packet-Outside total packet (e ∷ es) written r x o =
    let to_copy = min e.len (total - written) in
    let bytes = take to_copy (drop written packet) in
    let skipped = copy_packet-Outside total packet es written r x o.1 in
    let copied =
      copy_packet-Outside total packet es (written + to_copy) (store_bytes r e.addr bytes) x o.1 in
    elim (Bool-cases (not e.writable || leb total written)) [
      | inl y ↦ rw y skipped
      | inr n ↦
          let w : e.writable ≡ true = ground arith in
          let size = length-take to_copy (drop written packet) in
          rw n (copied ∙ store_bytes_frame r e.addr bytes x (let far = o.0 w in omega arith))
    ]

-- However the chain is cut into buffers, as much is written as they have room for.
pub copy_packet_lem :
    (total : ℕ) (packet : List ℕ) (es : List VirtqChainElem) (written : ℕ) (r : Ram)
    → written ≤ total
    → (copy_packet total packet es written r).0 ≡ min total (written + total_len true es)
unfolding copy_packet
copy_packet_lem total packet [] written r h = omega arith
copy_packet_lem total packet (e ∷ es) written r h =
    let to_copy = min e.len (total - written) in
    let skipped = copy_packet_lem total packet es written r h in
    let copied =
      copy_packet_lem total packet es (written + to_copy)
        (store_bytes r e.addr (take to_copy (drop written packet))) (omega arith) in
    ground (arith, skipped, copied)

append_nil : (xs : List ℕ) → xs ++ [] ≡ xs
append_nil [] = refl
append_nil (x ∷ xs) = ap (λ t. x ∷ t) (append_nil xs)

-- What one buffer holds at its start after the bytes were put there: as many of them as it has room for.
buffer_holds :
    (r after : Ram) (addr len rest : ℕ) (bytes ys : List ℕ)
    → All (λ b. b < 2 ^ 8) bytes
    → length bytes ≤ len
    → ((x : ℕ) → addr ≤ x → x < addr + len → after x ≡ store_bytes r addr bytes x)
    → (len ≡ length bytes) ⊎ (rest ≡ 0)
    → take (length bytes + rest) (load_bytes after addr len ++ ys) ≡ bytes ++ take rest ys
buffer_holds r after addr len rest bytes ys small fits same room =
    let n = length bytes in
    let start : load_bytes after addr n ≡ bytes =
      load_bytes_agree after (store_bytes r addr bytes) addr n (λ x lo hi. same x lo (omega arith))
      ∙ load_bytes-store_bytes r addr bytes small in
    elim room [
      | inl full ↦
          ap (λ k. take (n + rest) (load_bytes after addr k ++ ys)) full
          ∙ ap (λ t. take (n + rest) (t ++ ys)) start
          ∙ take-append n rest bytes ys refl
      | inr done ↦
          let cut : n + rest ≡ n = omega arith in
          let size = length-load_bytes after addr len in
          let parts : len ≡ n + (len - n) = omega arith in
          let split : load_bytes after addr len
              ≡ load_bytes after addr n ++ load_bytes after (addr + n) (len - n) =
            ap (load_bytes after addr) parts ∙ load_bytes-add after addr n (len - n) in
          let left : take (n + rest) (load_bytes after addr len ++ ys) ≡ bytes =
            ap (λ k. take k (load_bytes after addr len ++ ys)) cut
            ∙ take-prefix n (load_bytes after addr len) ys (omega arith)
            ∙ ap (take n) split
            ∙ take-exact n (load_bytes after addr n) (load_bytes after (addr + n) (len - n))
                (length-load_bytes after addr n)
            ∙ start in
          left ∙ sym (ap (λ k. bytes ++ take k ys) done ∙ append_nil bytes)
    ]

-- The buffers that the device may write hold the packet, end to end, as far as they reach, if they
-- do not overlap.
pub copy_packet-gather :
    (packet : List ℕ) (es : List VirtqChainElem) (written : ℕ) (r : Ram)
    → All (λ b. b < 2 ^ 8) packet
    → Disjoint es
    → written ≤ length packet
    → take
        (length packet - written)
        (gather true es (copy_packet (length packet) packet es written r).1)
      ≡ take (total_len true es) (drop written packet)
unfolding copy_packet
copy_packet-gather packet [] written r small d h = take_none (length packet - written)
copy_packet-gather packet (e ∷ es) written r small d h =
    let total = length packet in
    let n = min e.len (total - written) in
    let bytes = take n (drop written packet) in
    let r' = store_bytes r e.addr bytes in
    let tl = total_len true es in
    let ahead = copy_packet-gather packet es written r small d.1 h in
    let later = copy_packet-gather packet es (written + n) r' small d.1 (omega arith) in
    let after = (copy_packet total packet es (written + n) r').1 in
    let left = length-drop written packet in
    let size : length bytes ≡ n = length-take n (drop written packet) ∙ omega arith in
    elim (Bool-cases e.writable) [
      | inr closed ↦ rw closed ahead
      | inl open_ ↦ elim (Bool-cases (leb total written)) [
        | inl done ↦
            let over : total - written ≡ 0 = ground arith in
            rw (open_, done, over)
              (sym (
                ap (take (e.len + tl)) (drop_all written packet (ground arith))
                ∙ take_none (e.len + tl)))
        | inr going ↦
            let holds =
              buffer_holds r after e.addr e.len (total - (written + n)) bytes (gather true es after)
                (All-take (λ b. b < 2 ^ 8) n (drop written packet)
                  (All-drop (λ b. b < 2 ^ 8) written packet small))
                (omega arith)
                (λ x lo hi.
                  copy_packet-Outside total packet es (written + n) r' x
                    (Outside-Apart e es x d.0 lo hi))
                (elim (Bool-cases (leb e.len (total - written))) [
                  | inl y ↦ inl (ground arith)
                  | inr z ↦ inr (ground arith)
                ]) in
            let counted : total - written ≡ length bytes + (total - (written + n)) = omega arith in
            let rest : bytes ++ take (total - (written + n)) (gather true es after)
                ≡ take (n + tl) (drop written packet) =
              ap (λ t. bytes ++ t) (later ∙ ap (take tl) (sym (drop-drop written n packet)))
              ∙ sym (take-split n tl (drop written packet)) in
            let reach : take (n + tl) (drop written packet)
                ≡ take (e.len + tl) (drop written packet) =
              elim (Bool-cases (leb e.len (total - written))) [
                | inl y ↦
                    let same : n + tl ≡ e.len + tl = ground arith in
                    ap (λ k. take k (drop written packet)) same
                | inr z ↦
                    take_long (n + tl) (drop written packet) (ground arith)
                    ∙ sym (take_long (e.len + tl) (drop written packet) (ground arith))
              ] in
            rw (open_, going)
              (ap (λ k. take k (load_bytes after e.addr e.len ++ gather true es after)) counted
                ∙ holds
                ∙ rest
                ∙ reach)
      ]
    ]

All-zeros :
    (n : ℕ) (xs : List ℕ) → All (λ b. b < 2 ^ 8) xs → All (λ b. b < 2 ^ 8) (replicate n 0 ++ xs)
All-zeros zero xs a = a
All-zeros (suc n) xs a = (ground arith, All-zeros n xs a)

-- A frame that reaches a chain that walks goes in behind 12 zero bytes of header: the buffers that
-- the device may write hold both, end to end, as far as they reach, nothing outside them changes
-- before the used ring gets the number of bytes written. The buffers do not overlap, and header and
-- frame stay below 2 ^ 32 bytes.
pub receive_lem :
    (q : VirtQueue) (head : ℕ) (frame : List ℕ) (r : Ram) (chain : List VirtqChainElem)
    → walk_chain q r head ≡ some chain
    → All (λ b. b < 2 ^ 8) frame
    → Disjoint chain
    → 12 + length frame < 2 ^ 32
    → (r' : Ram) × (receive q head frame r
        ≡ (push_used q r' head (min (12 + length frame) (total_len true chain)), true))
      × (take (12 + length frame) (gather true chain r')
          ≡ take (total_len true chain) (replicate 12 0 ++ frame))
      × ((x : ℕ) → Outside x chain → r' x ≡ r x)
unfolding receive
receive_lem q head frame r chain e small d fits =
    let packet : List ℕ = replicate 12 0 ++ frame in
    let size : length packet ≡ 12 + length frame = omega arith in
    let narrow : u32 (12 + length frame) ≡ length packet = omega arith in
    let bytes = All-zeros 12 frame small in
    let put = copy_packet (length packet) packet chain 0 r in
    let amount : put.0 ≡ min (12 + length frame) (total_len true chain) =
      let c = copy_packet_lem (length packet) packet chain 0 r (omega arith) in omega arith in
    let minus : 12 + length frame ≡ length packet - 0 = omega arith in
    (
      put.1,
      rw (e, narrow, receive) (ap (λ n. (push_used q put.1 head n, true)) amount),
      ap (λ n. take n (gather true chain put.1)) minus
          ∙ copy_packet-gather packet chain 0 r bytes d (omega arith),
      (λ x o. copy_packet-Outside (length packet) packet chain 0 r x o),
    )

-- An injection that fails leaves the interrupt alone; one that succeeds raises it exactly once.
-- Without a ready queue, or without a buffer in it, nothing changes at all.
pub inject_rx_lem :
    (frame : List ℕ) (m : Mmio) (q : VirtQueue) (r : Ram)
    → get_elem? m.queues 0 ≡ some q
    → let (m', r', good) = inject_rx frame m r in
      ((good ≡ true) → (m'.irqs ≡ m.irqs + 1) × (m'.interrupt_status % 2 ≡ 1))
      × ((good ≡ false) → (m'.irqs ≡ m.irqs) × (m'.interrupt_status ≡ m.interrupt_status))
      × ((q.ready ≡ false) → inject_rx frame m r ≡ (m, r, false))
      × ((pop_avail q r ≡ none) → inject_rx frame m r ≡ (m, r, false))
unfolding inject_rx notify_used_buffer
inject_rx_lem frame m q r e = elim (Bool-cases q.ready) [
  | inr idle ↦
      rw (e, idle, inject_rx)
        ((λ h. absurd (ground arith)), (λ h. (refl, refl)), (λ h. refl), λ h. refl)
  | inl live ↦ elim (Option-cases (pop_avail q r)) [
    | inl empty_ ↦
        rw (e, empty_, live, inject_rx)
          ((λ h. absurd (ground arith)), (λ h. (refl, refl)), (λ h. refl), λ h. refl)
    | inr (popped, p) ↦ elim (Bool-cases (receive popped.1 popped.0 frame r).1) [
      | inl in_ ↦
          rw (e, p, in_, live, inject_rx)
            (
              (λ h. (refl, ground arith)),
              (λ h. absurd (ground arith)),
              (λ h. absurd (ground arith)),
              λ h. absurd (ground arith),
            )
      | inr out ↦
          rw (e, p, out, live, inject_rx)
            (
              (λ h. absurd (ground arith)),
              (λ h. (refl, refl)),
              (λ h. absurd (ground arith)),
              λ h. absurd (ground arith),
            )
    ]
  ]
]
