-- ===== src/Boot/Tests.antt =====
-- A small kernel and an initrd in two megabytes.
use tenclaw.Base.{ℕ, ◌≡◌, refl, ◌↔◌, some, List, [], ◌∷◌, ◌++◌, arith, replicate}
use tenclaw.Protocol.{codes}
use tenclaw.Memory.{Ram, GuestMemMap, gpa_to_hva}
use tenclaw.Boot.{BootConfig, e820_entries}
use tenclaw.Boot.Map.{Covers, Usable, e820_entries_iff}
use tenclaw.Boot.Registers.{Enters, build_initial_registers, build_initial_registers_lem}

abbrev blank : Ram
blank = λ x. 0

abbrev two_megabytes : GuestMemMap
two_megabytes = record {
  base = 0x10000;
  alloc_size = 0x200000;
  low_size = 0x200000;
  high_base = 0;
  high_size = 0;
}

-- One sector of setup code besides the boot sector, and six bytes of kernel.
abbrev small_kernel : List ℕ
small_kernel =
    replicate 0x1f1 0
    ++ ((1 ∷ [])
        ++ (replicate 16 0
            ++ (codes "HdrS" ++ ((0x0f ∷ 0x02 ∷ []) ++ (replicate 504 0 ++ codes "kernel")))))

abbrev tiny_initrd : List ℕ
tiny_initrd = codes "initrd"

abbrev tiny : BootConfig
tiny = record {
  kernel = small_kernel;
  initrd = some tiny_initrd;
  cmdline = codes "quiet";
  mem = two_megabytes;
  cpu_count = 2;
  virtio_devs = [];
}

e820_entries_iff_example :
    Covers (e820_entries two_megabytes) 0x100000
    ↔ (((h : ℕ) × (gpa_to_hva two_megabytes 0x100000 ≡ some h)) × Usable 0x100000)
e820_entries_iff_example =
    e820_entries_iff two_megabytes 0x100000 (ground arith) (ground arith) (λ ne. absurd (ne refl))

build_initial_registers_lem_example :
    Enters (build_initial_registers blank).0 (build_initial_registers blank).1
build_initial_registers_lem_example = (build_initial_registers_lem blank).0
