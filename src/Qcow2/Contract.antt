-- ===== src/Qcow2/Contract.antt =====
-- A qcow2 image as the disk that the block device relies on.
use tenclaw.Base.{
  ℕ, ◌+◌, ◌/◌, ◌^◌, ◌≤◌, ◌<◌, ◌≡◌, refl, sym, ap, subst, ◌∙◌, inl, inr, true, arith, ltb, ◌==◌,
  if◌then◌else◌, Bool-cases, length,
}
use tenclaw.Memory.{load_bytes}
use tenclaw.Memory.Bytes.{load_bytes_agree, store_bytes_agree}
use tenclaw.Disk.{Contract}
use tenclaw.RawImage.{FileOps}
use tenclaw.Qcow2.{Qcow2, Codecs, cluster_size}
use tenclaw.Qcow2.Transfer.{read, qcow2_disk}
use tenclaw.Qcow2.Laws.{GrowLaws, with_cache}
use tenclaw.Qcow2.Image.{Valid, disk, entry_of, Alike-ImageOk, Alike-disk_byte, Alike-entry}
use tenclaw.Qcow2.Rebase.{ImageOk-rebase}
use tenclaw.Qcow2.Reading.{read_loop_lem}
use tenclaw.Qcow2.Room.{RoomOk-same}
use tenclaw.Qcow2.Growing.{Roomy, write_lem}

module _ {F : Type 0} (ops : FileOps F) (l : GrowLaws ops) (codecs : Codecs) where
  open l use {content, content_bytes}

  -- A read keeps the room to grow, as it keeps the image sound.
  pub read-Roomy :
      (q : Qcow2 F) (offset len : ℕ)
      → Roomy ops l codecs q
      → offset + len ≤ q.virtual_size
      → (q' : Qcow2 F) × (read ops codecs q offset len
          ≡ (q', true, load_bytes (disk ops l q) offset len))
        × Roomy ops l codecs q'
        × (q'.virtual_size ≡ q.virtual_size)
        × ((x : ℕ) → x < q.virtual_size → disk ops l q' x ≡ disk ops l q x)
  unfolding read
  read-Roomy q offset len y h =
      let v = y.valid in
      let (f, c, eq, alike) = read_loop_lem ops l codecs len q offset len v h (omega arith) in
      (
        with_cache q f c,
        eq,
        record {
          valid =
              ImageOk-rebase ops l q f c f c (Alike-ImageOk ops l q q.file f q.l2_lru c v alike);
          room =
              RoomOk-same q f c (entry_of ops l q q.file q.l2_lru) (entry_of ops l q f c)
                (λ k lt. Alike-entry ops l q q.file f q.l2_lru c k v alike lt) y.room;
        },
        refl,
        λ x lt. Alike-disk_byte ops l q q.file f q.l2_lru c x v alike lt,
      )

  -- The disk up to its size, zeros past it.
  abbrev pub disk_to : ℕ → Qcow2 F → ℕ → ℕ
  disk_to size q x = if ltb x size then disk ops l q x else 0

  pub disk_to_within :
      (size : ℕ) (q : Qcow2 F) (x : ℕ) → x < size → disk_to size q x ≡ disk ops l q x
  disk_to_within size q x h = let e : ltb x size ≡ true = ground arith in rw e refl

  pub disk_to-kept :
      (size : ℕ) (q q' : Qcow2 F)
      → ((x : ℕ) → x < size → disk ops l q' x ≡ disk ops l q x)
      → (x : ℕ) → disk_to size q' x ≡ disk_to size q x
  disk_to-kept size q q' h x = elim (Bool-cases (ltb x size)) [
    | inl lt ↦ rw lt (h x (ground arith))
    | inr out ↦ rw out refl
  ]

  pub disk-byte_fits : (size : ℕ) (q : Qcow2 F) (x : ℕ) → Valid ops l q → disk_to size q x < 2 ^ 8
  disk-byte_fits size q x v =
      let e = entry_of ops l q q.file q.l2_lru (x / cluster_size q) in
      elim (Bool-cases (ltb x size)) [
        | inr out ↦ rw out (ground arith)
        | inl lt ↦ elim (Bool-cases (e == 0)) [
          | inl z ↦ rw (lt, z) (ground arith)
          | inr n ↦ rw (lt, n) (content_bytes q.file _ v.cache.sound)
        ]
      ]

  -- A qcow2 image with room to grow offers the block device what it relies on.
  unfoldable pub qcow2_contract : (size : ℕ) → size < 2 ^ 63 → Contract (qcow2_disk ops codecs)
  qcow2_contract size fits = record {
    Valid = λ q. Roomy ops l codecs q × (q.virtual_size ≡ size);
    size = size;
    content = disk_to size;
    size_fits = fits;
    content_bytes = λ q x v. disk-byte_fits size q x v.0.valid;
    read_lem = λ q offset len v h.
        let ends : offset + len ≤ q.virtual_size = omega (arith, v.1) in
        let (q', eq, y, same, kept) = read-Roomy q offset len v.0 ends in
        let bytes =
          load_bytes_agree (disk_to size q) (disk ops l q) offset len
            (λ x lo hi. disk_to_within size q x (omega arith)) in
        (
          subst (λ t. Roomy ops l codecs t.0 × (t.0.virtual_size ≡ size)) (sym eq) (y, same ∙ v.1),
          ap (λ t. t.1) eq,
          ap (λ t. t.2) eq ∙ sym bytes,
          λ x.
              ap (λ t. disk_to size t.0 x) eq
              ∙ disk_to-kept size q q' (λ z lt. kept z (omega (arith, v.1))) x,
        );
    write_lem = λ q offset bytes v h.
        let ends : offset + length bytes ≤ q.virtual_size = omega (arith, v.1) in
        let (q', eq, y, same, stored) = write_lem ops l codecs q offset bytes v.0 ends in
        (
          subst (λ t. Roomy ops l codecs t.0 × (t.0.virtual_size ≡ size)) (sym eq) (y, same ∙ v.1),
          ap (λ t. t.1) eq,
          λ x lt.
              ap (λ t. disk_to size t.0 x) eq
              ∙ disk_to_within size q' x lt
              ∙ stored x (omega (arith, v.1))
              ∙ store_bytes_agree size offset bytes (disk ops l q) (disk_to size q)
                  (λ z zt. sym (disk_to_within size q z zt)) x lt,
        );
  }
