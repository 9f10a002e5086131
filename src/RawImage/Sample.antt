-- ===== src/RawImage/Sample.antt =====
-- A file of 1024 bytes kept in memory, for the examples. Its flush fails.
use tenclaw.Base.{
  ℕ, ◌+◌, ◌-◌, ◌%◌, ◌^◌, ◌≤◌, min, ◌≡◌, refl, true, false, List, arith, ltb, leb, if◌then◌else◌,
  length,
}
use tenclaw.Memory.{store_bytes, load_bytes, IsBytes}
use tenclaw.Memory.Words.{store_bytes-IsBytes}
use tenclaw.RawImage.{FileOps, RawImage}
use tenclaw.RawImage.Laws.{FileLaws}

abbrev pub File : Type 0
File = ℕ → ℕ

abbrev pub memory_file : FileOps File
memory_file = record {
  length_of = λ f. 1024;
  seek = λ f offset. ltb offset (2 ^ 63);
  fread = λ f offset len. load_bytes f offset (min len (1024 - offset));
  fwrite = λ f offset bytes.
      if leb (offset + length bytes) 1024
      then (store_bytes f offset bytes, length bytes)
      else (f, 0);
  fflush = λ f. (f, false);
}

pub put_lem :
    (f : File) (offset : ℕ) (bytes : List ℕ)
    → IsBytes f
    → offset + length bytes ≤ 1024
    → (IsBytes (memory_file.fwrite f offset bytes).0
        × ((memory_file.fwrite f offset bytes).1 ≡ length bytes)
        × ◌≡◌ {A = ℕ} 1024 1024
        × ((x : ℕ) → (memory_file.fwrite f offset bytes).0 x ≡ store_bytes f offset bytes x))
put_lem f offset bytes s h =
    let fits : leb (offset + length bytes) 1024 ≡ true = ground arith in
    rw fits (store_bytes-IsBytes f offset bytes s, refl, refl, (λ x. refl))

unfoldable pub memory_laws : FileLaws memory_file
memory_laws = record {
  content = λ f. f;
  Sound = λ f. IsBytes f;
  content_bytes = λ f x s. s x;
  seek_negative = λ f offset h. ground arith;
  seek_lem = λ f offset h. ground arith;
  fread_lem = λ f offset len s h. let e : min len (1024 - offset) ≡ len = omega arith in rw e;
  fwrite_lem = put_lem;
}

-- The byte at `x` is `x % 256`.
abbrev pub numbered : File
numbered = λ x. x % 256

abbrev pub image : RawImage File
image = record { file = numbered; disk_size = 1024 }
