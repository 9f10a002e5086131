-- ===== src/RawImage/Laws.antt =====
-- The raw image keeps the disk's contract on any file that behaves as C documents.
use tenclaw.Base.{
  ℕ, ◌+◌, ◌^◌, ◌≤◌, ◌<◌, ◌≡◌, refl, ◌∙◌, ◌↔◌, ◌⊎◌, inl, inr, true, false, none, some, List, [],
  arith, length,
}
use native.Mathlib.Decide.{dec_le, dec_lt}
use tenclaw.Disk.{Contract}
use tenclaw.Memory.{store_bytes, load_bytes}
use tenclaw.Memory.Bytes.{length-load_bytes}
use tenclaw.RawImage.{FileOps, RawImage, open_raw, read, write, raw_disk}

-- A file of `size` bytes whose content is `content`: seeking to a negative offset fails, to one
-- from 0 succeeds; a read delivers the bytes that exist; a write inside the file changes those
-- bytes alone.
pub record FileLaws {F : Type 0} (ops : FileOps F) : Type 1 where
  pub content : F → ℕ → ℕ
  pub Sound : F → Type 0
  pub content_bytes : (f : F) (x : ℕ) → Sound f → content f x < 2 ^ 8
  pub seek_negative : (f : F) (offset : ℕ) → 2 ^ 63 ≤ offset → ops.seek f offset ≡ false
  pub seek_lem : (f : F) (offset : ℕ) → offset < 2 ^ 63 → ops.seek f offset ≡ true
  pub fread_lem :
      (f : F) (offset len : ℕ)
      → Sound f
      → offset + len ≤ ops.length_of f
      → ops.fread f offset len ≡ load_bytes (content f) offset len
  pub fwrite_lem :
      (f : F) (offset : ℕ) (bytes : List ℕ)
      → Sound f
      → offset + length bytes ≤ ops.length_of f
      → (Sound (ops.fwrite f offset bytes).0
          × ((ops.fwrite f offset bytes).1 ≡ length bytes)
          × (ops.length_of (ops.fwrite f offset bytes).0 ≡ ops.length_of f)
          × ((x : ℕ)
              → content (ops.fwrite f offset bytes).0 x ≡ store_bytes (content f) offset bytes x))

module _ {F : Type 0} (ops : FileOps F) (l : FileLaws ops) where
  open l use {content, Sound, content_bytes, seek_negative, seek_lem, fread_lem, fwrite_lem}

  -- An open image of `size` bytes.
  pub record IsOpen (size : ℕ) (img : RawImage F) : Type 0 where
    pub sound : Sound img.file
    pub sized : img.disk_size ≡ size
    pub backed : ops.length_of img.file ≡ size

  pub read_ok :
      (size : ℕ) (img : RawImage F) (offset len : ℕ)
      → size < 2 ^ 63
      → IsOpen size img
      → offset + len ≤ size
      → read ops img offset len ≡ (img, true, load_bytes (content img.file) offset len)
  unfolding read
  read_ok size img offset len small o h =
      let got = fread_lem img.file offset len o.sound (omega (arith, o.backed)) in
      ground (
        arith,
        o.sized,
        seek_lem img.file offset,
        got,
        length-load_bytes (content img.file) offset len,
      )

  pub write_ok :
      (size : ℕ) (img : RawImage F) (offset : ℕ) (bytes : List ℕ)
      → size < 2 ^ 63
      → IsOpen size img
      → offset + length bytes ≤ size
      → write ops img offset bytes
        ≡ (record img { file = (ops.fwrite img.file offset bytes).0 }, true)
  unfolding write
  write_ok size img offset bytes small o h =
      let (_, all, _, _) = fwrite_lem img.file offset bytes o.sound (omega (arith, o.backed)) in
      ground (arith, o.sized, seek_lem img.file offset, all)

  read_past :
      (size : ℕ) (img : RawImage F) (offset len : ℕ)
      → size < 2 ^ 63
      → IsOpen size img
      → len < 2 ^ 32
      → size < offset + len
      → offset < 2 ^ 64
      → read ops img offset len ≡ (img, false, [])
  unfolding read
  read_past size img offset len small o fits h wide =
      ground (arith, o.sized, seek_negative img.file offset)

  -- A read of an open image succeeds exactly inside the file, wherever the 64-bit sum of offset and
  -- length wraps; it then delivers the file's bytes, and it never changes the image.
  pub read_iff :
      (size : ℕ) (img : RawImage F) (offset len : ℕ)
      → size < 2 ^ 63
      → IsOpen size img
      → offset < 2 ^ 64
      → len < 2 ^ 32
      → let got = read ops img offset len in
        ((got.1 ≡ true) ↔ (offset + len ≤ size))
        × ((got.1 ≡ true) → got.2 ≡ load_bytes (content img.file) offset len)
        × (got.0 ≡ img)
  read_iff size img offset len small o wide fits = elim (dec_le (offset + len) size) [
    | yes h ↦ rw (read_ok size img offset len small o h) ((λ _. h, λ _. refl), (λ _. refl), refl)
    | no h ↦
        rw (read_past size img offset len small o fits (omega arith) wide)
          ((λ e. cc, λ i. absurd (h i)), (λ e. cc), refl)
  ]

  write_past :
      (size : ℕ) (img : RawImage F) (offset : ℕ) (bytes : List ℕ)
      → size < 2 ^ 63
      → IsOpen size img
      → length bytes < 2 ^ 32
      → size < offset + length bytes
      → offset < 2 ^ 64
      → write ops img offset bytes ≡ (img, false)
  unfolding write
  write_past size img offset bytes small o fits h wide =
      ground (arith, o.sized, seek_negative img.file offset)

  -- A write to an open image succeeds exactly inside the file. It then changes those bytes alone and
  -- leaves the image open at the same size; a refused write changes nothing.
  pub write_iff :
      (size : ℕ) (img : RawImage F) (offset : ℕ) (bytes : List ℕ)
      → size < 2 ^ 63
      → IsOpen size img
      → offset < 2 ^ 64
      → length bytes < 2 ^ 32
      → let put = write ops img offset bytes in
        ((put.1 ≡ true) ↔ (offset + length bytes ≤ size))
        × ((put.1 ≡ true)
            → (x : ℕ) → content put.0.file x ≡ store_bytes (content img.file) offset bytes x)
        × ((put.1 ≡ false) → put.0 ≡ img)
        × IsOpen size put.0
  write_iff size img offset bytes small o wide fits = elim (dec_le (offset + length bytes) size) [
    | yes h ↦
        let (s, _, len, x) = fwrite_lem img.file offset bytes o.sound (omega (arith, o.backed)) in
        rw (write_ok size img offset bytes small o h) (
          (λ _. h, λ _. refl),
          (λ _. x),
          (λ e. cc),
          record { sound = s; sized = o.sized; backed = len ∙ o.backed },
        )
    | no h ↦
        rw (write_past size img offset bytes small o fits (omega arith) wide)
          ((λ e. cc, λ i. absurd (h i)), (λ e. cc), (λ _. refl), o)
  ]

  -- So the image is a disk of its size for the block device.
  unfoldable pub raw_contract : (size : ℕ) → size < 2 ^ 63 → Contract (raw_disk ops)
  raw_contract size small = record {
    Valid = IsOpen size;
    size = size;
    content = λ img. content img.file;
    size_fits = small;
    content_bytes = λ img x o. content_bytes img.file x o.sound;
    read_lem = λ img offset len o h.
        rw (read_ok size img offset len small o h) (o, refl, refl, (λ x. refl));
    write_lem = λ img offset bytes o h.
        let (s, _, len, x) = fwrite_lem img.file offset bytes o.sound (omega (arith, o.backed)) in
        rw (write_ok size img offset bytes small o h)
          (record { sound = s; sized = o.sized; backed = len ∙ o.backed }, refl, (λ y _. x y));
  }

  -- An image opens exactly when the file holds a sector, and then at the file's length.
  pub open_raw_lem :
      (f : F)
      → Sound f
      → ((ops.length_of f < 512) × (open_raw ops f ≡ none))
        ⊎ ((img : RawImage F) × (open_raw ops f ≡ some img) × IsOpen (ops.length_of f) img)
  unfolding open_raw
  open_raw_lem f s = elim (dec_lt (ops.length_of f) 512) [
    | yes h ↦ inl (h, ground arith)
    | no h ↦ inr (
      record { file = f; disk_size = ops.length_of f },
      ground arith,
      record { sound = s; sized = refl; backed = refl },
    )
  ]
