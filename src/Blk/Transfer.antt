-- ===== src/Blk/Transfer.antt =====
-- Data transfer: a read request scatters a run of disk bytes over the driver's buffers, and a write
-- request gathers them back, against the disk's contract.
use tenclaw.Base.{
  ℕ, ◌+◌, ◌^◌, ◌≤◌, ◌<◌, ◌≡◌, refl, sym, ap, ap₂, subst, ◌∙◌, ◌⊎◌, inl, inr, Bool, true, false, not,
  List, [], ◌∷◌, ◌++◌, arith, if◌then◌else◌, Bool-cases, length, u32, u64, All,
}
use tenclaw.Disk.{DiskOps, Contract}
use tenclaw.Memory.{Ram, store_bytes, load_bytes}
use tenclaw.Memory.Words.{store_bytes_frame}
use tenclaw.Memory.Bytes.{
  length-load_bytes, load_bytes_agree, load_bytes-add, load_bytes-store_bytes, All-load_bytes,
}
use tenclaw.Virtqueue.{VirtqChainElem}
use tenclaw.Blk.{Work, Progress, read_into, status_ok}

-- Is a buffer of this direction: `true` for those that the device writes?
abbrev pub chosen : Bool → Bool → Bool
chosen true b = b
chosen false b = not b

-- The bytes that the buffers of one direction hold together.
abbrev pub total_len : Bool → List VirtqChainElem → ℕ
total_len dir [] = 0
total_len dir (e ∷ es) =
    if chosen dir e.writable then e.len + total_len dir es else total_len dir es

-- Their contents, end to end.
abbrev pub gather : Bool → List VirtqChainElem → Ram → List ℕ
gather dir [] r = []
gather dir (e ∷ es) r =
    if chosen dir e.writable then load_bytes r e.addr e.len ++ gather dir es r else gather dir es r

abbrev pub Apart : VirtqChainElem → VirtqChainElem → Type 0
Apart e f = (e.addr + e.len ≤ f.addr) ⊎ (f.addr + f.len ≤ e.addr)

-- The buffers do not overlap.
abbrev pub Disjoint : List VirtqChainElem → Type 0
Disjoint [] = Unit {0}
Disjoint (e ∷ es) = All (Apart e) es × Disjoint es

-- An address that no device-writable buffer covers.
abbrev pub Outside : ℕ → List VirtqChainElem → Type 0
Outside x es = All (λ e. (e.writable ≡ true) → (x < e.addr) ⊎ (e.addr + e.len ≤ x)) es

pub Outside-Apart :
    (e : VirtqChainElem) (es : List VirtqChainElem) (x : ℕ)
    → All (Apart e) es
    → e.addr ≤ x
    → x < e.addr + e.len
    → Outside x es
Outside-Apart e [] x a lo hi = tt
Outside-Apart e (f ∷ es) x a lo hi = ((λ _. grind (arith, a.0)), Outside-Apart e es x a.1 lo hi)

module _ {S : Type 0} (ops : DiskOps S) (k : Contract ops) where
  open k use {Valid, size, content, size_fits, content_bytes, read_lem, write_lem}

  -- What a read request has done when its loop ends.
  pub record Scattered (es : List VirtqChainElem) (offset total : ℕ) (w : Work S) (p : Progress S)
      : Type 0 where
    pub valid : Valid p.work.disk
    pub good : p.status ≡ status_ok
    pub counted : p.total ≡ u32 (total + total_len true es)
    pub kept : (x : ℕ) → content p.work.disk x ≡ content w.disk x
    pub frame : (x : ℕ) → Outside x es → p.work.ram x ≡ w.ram x
    pub delivered :
        Disjoint es
        → gather true es p.work.ram ≡ load_bytes (content w.disk) offset (total_len true es)

  abbrev after_read : VirtqChainElem → ℕ → Work S → Work S
  after_read e offset w =
      let got = ops.read w.disk offset e.len in
      record { disk = got.0; ram = store_bytes w.ram e.addr got.2 }

  skip_lem :
      (e : VirtqChainElem) (es : List VirtqChainElem) (offset total : ℕ) (w : Work S)
      (p : Progress S)
      → e.writable ≡ false
      → Scattered es offset total w p
      → Scattered (e ∷ es) offset total w p
  skip_lem e es offset total w p n s = record {
    valid = s.valid;
    good = s.good;
    counted = rw n s.counted;
    kept = s.kept;
    frame = λ x o. s.frame x o.1;
    delivered = λ d. rw n (s.delivered d.1);
  }

  got_bytes :
      (d : S) (offset len : ℕ)
      → Valid d
      → offset + len ≤ size
      → (length (ops.read d offset len).2 ≡ len) × All (λ b. b < 2 ^ 8) (ops.read d offset len).2
  got_bytes d offset len v h =
      let (_, _, bytes, _) = read_lem d offset len v h in
      rw bytes (
        length-load_bytes (content d) offset len,
        All-load_bytes (content d) offset len (λ x. content_bytes d x v),
      )

  stored :
      (r : Ram) (a : ℕ) (bs : List ℕ) (n : ℕ)
      → length bs ≡ n
      → All (λ b. b < 2 ^ 8) bs
      → load_bytes (store_bytes r a bs) a n ≡ bs
  stored r a bs n len small =
      subst (λ n. load_bytes (store_bytes r a bs) a n ≡ bs) len
        (load_bytes-store_bytes r a bs small)

  take_lem :
      (e : VirtqChainElem) (es : List VirtqChainElem) (offset total : ℕ) (w : Work S)
      (p : Progress S)
      → e.writable ≡ true
      → Valid w.disk
      → offset + (e.len + total_len true es) ≤ size
      → Scattered es (u64 (offset + e.len)) (u32 (total + e.len)) (after_read e offset w) p
      → Scattered (e ∷ es) offset total w p
  take_lem e es offset total w p y v h s =
      let (_, _, bytes, same) = read_lem w.disk offset e.len v (omega arith) in
      let (len, small) = got_bytes w.disk offset e.len v (omega arith) in
      let narrow : u64 (offset + e.len) ≡ offset + e.len = omega (arith, size_fits) in
      record {
        valid = s.valid;
        good = s.good;
        counted = rw y (omega (arith, s.counted));
        kept = λ x. s.kept x ∙ same x;
        frame =
            λ x o. s.frame x o.1 ∙ store_bytes_frame w.ram e.addr _ x (ground (arith, o.0 y, len));
        delivered = λ d. rw y (
            ap₂ ◌++◌
              (load_bytes_agree p.work.ram (after_read e offset w).ram e.addr e.len
                  (λ x lo hi. s.frame x (Outside-Apart e es x d.0 lo hi))
                ∙ stored w.ram e.addr (ops.read w.disk offset e.len).2 e.len len small
                ∙ bytes)
              (s.delivered d.1
                ∙ ap (λ o. load_bytes (content (after_read e offset w).disk) o (total_len true es))
                    narrow
                ∙ load_bytes_agree _ _ (offset + e.len) (total_len true es) (λ x _ _. same x))
            ∙ sym (load_bytes-add (content w.disk) offset e.len (total_len true es)));
      }

  read_into-take :
      (e : VirtqChainElem) (es : List VirtqChainElem) (offset total : ℕ) (w : Work S)
      → e.writable ≡ true
      → (ops.read w.disk offset e.len).1 ≡ true
      → read_into ops es (u64 (offset + e.len)) (u32 (total + e.len)) (after_read e offset w)
        ≡ read_into ops (e ∷ es) offset total w
  unfolding read_into
  read_into-take e es offset total w y good = ground arith

  read_into-skip :
      (e : VirtqChainElem) (es : List VirtqChainElem) (offset total : ℕ) (w : Work S)
      → e.writable ≡ false
      → read_into ops es offset total w ≡ read_into ops (e ∷ es) offset total w
  unfolding read_into
  read_into-skip e es offset total w n = ground arith

  -- A read of disk bytes that exist succeeds, counts every byte of the device-writable buffers,
  -- changes no disk byte and no memory outside those buffers; and if the buffers do not overlap,
  -- they hold end to end the run of disk bytes that starts at the offset.
  pub read_into-Scattered :
      (es : List VirtqChainElem) (offset total : ℕ) (w : Work S)
      → Valid w.disk
      → offset + total_len true es ≤ size
      → total < 2 ^ 32
      → Scattered es offset total w (read_into ops es offset total w)
  unfolding read_into load_bytes
  read_into-Scattered [] offset total w v h t = record {
    valid = v;
    good = refl;
    counted = omega arith;
    kept = λ x. refl;
    frame = λ x o. refl;
    delivered = λ d. refl;
  }
  read_into-Scattered (e ∷ es) offset total w v h t = elim (Bool-cases e.writable) [
    | inl y ↦
        let h' : offset + (e.len + total_len true es) ≤ size = rw y at h in
        let (v', good, _, _) = read_lem w.disk offset e.len v (omega arith) in
        subst (Scattered (e ∷ es) offset total w) (read_into-take e es offset total w y good) (
          take_lem e es offset total w _ y v h' (
            read_into-Scattered es (u64 (offset + e.len)) (u32 (total + e.len))
              (after_read e offset w) v' (omega (arith, size_fits)) (omega arith)))
    | inr n ↦
        let h' : offset + total_len true es ≤ size = rw n at h in
        subst (Scattered (e ∷ es) offset total w) (read_into-skip e es offset total w n)
          (skip_lem e es offset total w _ n (read_into-Scattered es offset total w v h' t))
  ]
