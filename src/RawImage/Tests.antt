-- ===== src/RawImage/Tests.antt =====
-- The laws of the raw image at the file in memory.
use tenclaw.Base.{◌+◌, ◌-◌, ◌^◌, ◌≤◌, ◌≡◌, refl, ◌↔◌, true, [], ◌∷◌, arith}
use tenclaw.Memory.{IsBytes}
use tenclaw.RawImage.{read, write}
use tenclaw.RawImage.Laws.{IsOpen, read_iff, write_iff}
use tenclaw.RawImage.Sample.{memory_file, memory_laws, numbered, image}

numbered-IsBytes : IsBytes numbered
numbered-IsBytes x = omega arith

image-IsOpen : IsOpen memory_file memory_laws 1024 image
unfolding memory_laws
image-IsOpen = record { sound = numbered-IsBytes; sized = refl; backed = refl }

-- The sum 2 ^ 64 - 2 + 4 wraps to 2, and the read is refused all the same.
read_iff_example : ((read memory_file image (2 ^ 64 - 2) 4).1 ≡ true) ↔ (2 ^ 64 - 2 + 4 ≤ 1024)
read_iff_example =
    (read_iff memory_file memory_laws 1024 image (2 ^ 64 - 2) 4 (omega arith) image-IsOpen
      (omega arith) (omega arith)).0

write_iff_example : ((write memory_file image 1020 (1 ∷ 2 ∷ [])).1 ≡ true) ↔ (1020 + 2 ≤ 1024)
write_iff_example =
    (write_iff memory_file memory_laws 1024 image 1020 (1 ∷ 2 ∷ []) (omega arith) image-IsOpen
      (omega arith) (omega arith)).0
