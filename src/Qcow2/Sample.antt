-- ===== src/Qcow2/Sample.antt =====
-- A file that grows, kept in memory, and an image of two clusters in it, for the examples.
use tenclaw.Base.{get_or-replicate, u8}
use tenclaw.Base.{
  ℕ, zero, suc, ◌+◌, ◌-◌, ◌/◌, ◌%◌, ◌^◌, ◌≤◌, ◌<◌, min, ◌≡◌, refl, sym, ap, subst, ◌∙◌, ◌≢◌, inr,
  true, none, List, [], ◌∷◌, arith, ltb, ◌==◌, if◌then◌else◌, length, get_or, replicate, All,
}
use native.Mathlib.Decide.{ℕ_discrete}
use tenclaw.Memory.{load_bytes, store_bytes, IsBytes}
use tenclaw.Memory.Words.{store_bytes-IsBytes}
use tenclaw.RawImage.{FileOps}
use tenclaw.Qcow2.{Qcow2, Codecs, decode_table}
use tenclaw.Qcow2.Laws.{EntryOk, GrowLaws, IsTable}
use tenclaw.Qcow2.InPlace.{IsMapped}
use tenclaw.Qcow2.Image.{DataOk, Valid, entry_of}

pub record GrowFile : Type 0 where
  pub size : ℕ
  pub bytes : ℕ → ℕ

abbrev pub put : GrowFile → ℕ → List ℕ → GrowFile × ℕ
put f offset [] = (f, 0)
put f offset (b ∷ bs) = (
  record {
    size = f.size + (offset + length (b ∷ bs) - f.size);
    bytes = store_bytes f.bytes offset (b ∷ bs);
  },
  length (b ∷ bs),
)

abbrev pub grow_file : FileOps GrowFile
grow_file = record {
  length_of = λ f. f.size;
  seek = λ f offset. ltb offset (2 ^ 63);
  fread = λ f offset len. load_bytes f.bytes offset (min len (f.size - offset));
  fwrite = put;
  fflush = λ f. (f, true);
}

pub put_lem :
    (f : GrowFile) (offset : ℕ) (bs : List ℕ)
    → IsBytes f.bytes
    → offset + length bs < 2 ^ 63
    → (IsBytes (put f offset bs).0.bytes
        × ((put f offset bs).1 ≡ length bs)
        × (f.size ≤ (put f offset bs).0.size)
        × (0 < length bs → offset + length bs ≤ (put f offset bs).0.size)
        × ((x : ℕ) → (put f offset bs).0.bytes x ≡ store_bytes f.bytes offset bs x))
unfolding store_bytes
put_lem f offset [] s h = (s, refl, omega arith, (λ p. absurd (ground arith)), λ x. refl)
put_lem f offset (b ∷ bs) s h = (
  store_bytes-IsBytes f.bytes offset (b ∷ bs) s,
  refl,
  omega arith,
  (λ p. omega arith),
  λ x. refl,
)

unfoldable pub grow_laws : GrowLaws grow_file
grow_laws = record {
  content = λ f. f.bytes;
  Sound = λ f. IsBytes f.bytes;
  content_bytes = λ f x s. s x;
  fread_lem =
      λ f offset len s h. let e : min len (f.size - offset) ≡ len = omega arith in rw e refl;
  fwrite_lem = put_lem;
  fflush_lem = λ f s. (s, omega arith, λ x. refl);
}

abbrev pub lookup : List (ℕ × ℕ) → ℕ → ℕ → ℕ
lookup [] d x = d
lookup (p ∷ ps) d x = let later = lookup ps d x in if x == p.0 then u8 p.1 else later

-- A header, the first-level table at 512 and its one table at 1024, which names one cluster, at 1536,
-- with bytes `x % 256`. Each pair is an offset and its byte; the others before 1536 are 0.
abbrev pub written : List (ℕ × ℕ)
written =
    (0, 0x51)
    ∷ (1, 0x46)
    ∷ (2, 0x49)
    ∷ (3, 0xfb)
    ∷ (7, 3)
    ∷ (23, 9)
    ∷ (30, 4)
    ∷ (39, 1)
    ∷ (46, 2)
    ∷ (103, 104)
    ∷ (512, 128)
    ∷ (518, 4)
    ∷ (1024, 128)
    ∷ (1030, 6)
    ∷ []

abbrev pub contents : ℕ → ℕ
contents x = if ltb x 1536 then lookup written 0 x else x % 256

abbrev pub image : Qcow2 GrowFile
image = record {
  file = record { size = 2048; bytes = contents };
  virtual_size = 1024;
  cluster_bits = 9;
  l1_size = 1;
  l1_table_offset = 512;
  version = 3;
  l1_table = (2 ^ 63 + 1024) ∷ [];
  file_end = 2048;
  compression_type = 0;
  l2_lru = [];
}

-- Decompression that always fails.
abbrev pub no_codecs : Codecs
no_codecs = record {
  zstd_stream = λ size bytes. none;
  uncompress = λ size bytes. none;
  inflate_raw = λ size bytes. none;
}

the_table : decode_table 64 (load_bytes contents 1024 512) ≡ (2 ^ 63 + 1536) ∷ replicate 63 0
unfolding decode_table load_bytes
the_table = refl

abbrev pub entry : ℕ → ℕ
entry k = entry_of grow_file grow_laws image image.file [] k

pub first_entry : entry 0 ≡ 2 ^ 63 + 1536
unfolding grow_laws
first_entry = ap (λ t. get_or t 0 0) the_table

pub other_entry : (k : ℕ) → k < 64 → k ≢ 0 → entry k ≡ 0
unfolding grow_laws
other_entry zero h ne = absurd (ne refl)
other_entry (suc k) h ne =
    let i : suc k / 64 ≡ 0 = omega arith in
    let j : suc k % 64 ≡ suc k = omega arith in
    rw (i, j) (ap (λ t. get_or t (suc k) 0) the_table ∙ get_or-replicate 63 k 0)

pub table_at : (o : ℕ) → IsTable image o → o ≡ 1024
table_at o (zero, _, _, e) = e
table_at o (suc i, h, _, _) = absurd (ground arith)

pub only_entry : (k : ℕ) → k < 64 → entry k ≢ 0 → entry k ≡ 2 ^ 63 + 1536
only_entry k h ne = elim (ℕ_discrete k 0) [
  | yes z ↦ ap entry z ∙ first_entry
  | no n ↦ absurd (ne (other_entry k h n))
]

data_cluster : DataOk grow_file grow_laws image image.file (2 ^ 63 + 1536)
data_cluster = record {
  plain = refl;
  placed = ground arith;
  inside = ground arith;
  off_tables = λ o is. let e = table_at o is in inr (ground arith);
}

lookup-lt : (ps : List (ℕ × ℕ)) (x : ℕ) → lookup ps 0 x < 2 ^ 8
lookup-lt [] x = ground arith
lookup-lt (p ∷ ps) x = let later = lookup-lt ps x in ground arith

contents-IsBytes : IsBytes contents
contents-IsBytes x = let low = lookup-lt written x in ground arith

pub image-Valid : Valid grow_file grow_laws image
unfolding grow_laws
image-Valid = record {
  cache = record { sound = contents-IsBytes; distinct = tt; entries = tt };
  tabs = record {
    inside = λ o is. let e = table_at o is in (ground arith, ground arith);
    apart = λ o p io ip ne. absurd (ne (table_at o io ∙ sym (table_at p ip)));
  };
  bits_from = ground arith;
  bits_to = ground arith;
  l1_fits = ground arith;
  size_fits = ground arith;
  covers = ground arith;
  data_ok = λ k h ne.
      subst (DataOk grow_file grow_laws image image.file) (sym (only_entry k h ne)) data_cluster;
  data_apart = λ k m hk hm ne nk nm. elim (ℕ_discrete k 0) [
    | no n ↦ absurd (nk (other_entry k hk n))
    | yes z ↦ elim (ℕ_discrete m 0) [
      | no n ↦ absurd (nm (other_entry m hm n))
      | yes z' ↦ absurd (ne (z ∙ sym z'))
    ]
  ];
}

-- The first cluster of the disk is in the file.
pub image-IsMapped : (x n : ℕ) → x + n ≤ 512 → IsMapped grow_file grow_laws no_codecs image x n
image-IsMapped x n h y lo hi z =
    let first : y / 512 ≡ 0 = omega arith in
    let e : 2 ^ 63 + 1536 ≡ 0 = sym first_entry ∙ sym (ap entry first) ∙ z in ground arith

-- The image after its table changed in the cache: the cluster is the second of the disk now.
abbrev new_table : List ℕ
new_table = 0 ∷ (2 ^ 63 + 1536) ∷ replicate 62 0

abbrev pub changed : Qcow2 GrowFile
changed = record image {
  l2_lru = record { l2_offset = 1024; data_ = new_table; dirty = true } ∷ [];
}

abbrev new_entry : ℕ → ℕ
new_entry k = entry_of grow_file grow_laws changed changed.file changed.l2_lru k

other_new_entry : (k : ℕ) → k < 64 → k ≢ 1 → new_entry k ≡ 0
unfolding grow_laws
other_new_entry zero h ne = refl
other_new_entry (suc zero) h ne = absurd (ne refl)
other_new_entry (suc (suc k)) h ne =
    let i : suc (suc k) / 64 ≡ 0 = omega arith in
    let j : suc (suc k) % 64 ≡ suc (suc k) = omega arith in rw (i, j) (get_or-replicate 62 k 0)

second_new_entry : new_entry 1 ≡ 2 ^ 63 + 1536
unfolding grow_laws
second_new_entry = refl

only_new_entry : (k : ℕ) → k < 64 → new_entry k ≢ 0 → new_entry k ≡ 2 ^ 63 + 1536
only_new_entry k h ne = elim (ℕ_discrete k 1) [
  | yes z ↦ ap new_entry z ∙ second_new_entry
  | no n ↦ absurd (ne (other_new_entry k h n))
]

new_data_cluster : DataOk grow_file grow_laws changed changed.file (2 ^ 63 + 1536)
new_data_cluster = record {
  plain = data_cluster.plain;
  placed = data_cluster.placed;
  inside = data_cluster.inside;
  off_tables = data_cluster.off_tables;
}

All-replicate : (n : ℕ) → All (λ v. v < 2 ^ 64) (replicate n 0)
All-replicate zero = tt
All-replicate (suc n) = (ground arith, All-replicate n)

new_table-EntryOk :
    EntryOk grow_file grow_laws changed changed.file
      (record { l2_offset = 1024; data_ = new_table; dirty = true })
new_table-EntryOk = record {
  is_table = (0, ground arith, ground arith, refl);
  full = refl;
  fits = (ground arith, (ground arith, All-replicate 62));
  clean = λ e. absurd (ground arith);
}

pub changed-Valid : Valid grow_file grow_laws changed
unfolding grow_laws
changed-Valid = record {
  cache = record {
    sound = contents-IsBytes;
    distinct = (tt, tt);
    entries = (new_table-EntryOk, tt);
  };
  tabs = record { inside = image-Valid.tabs.inside; apart = image-Valid.tabs.apart };
  bits_from = ground arith;
  bits_to = ground arith;
  l1_fits = ground arith;
  size_fits = ground arith;
  covers = ground arith;
  data_ok = λ k h ne.
      subst (DataOk grow_file grow_laws changed changed.file) (sym (only_new_entry k h ne))
        new_data_cluster;
  data_apart = λ k m hk hm ne nk nm. elim (ℕ_discrete k 1) [
    | no n ↦ absurd (nk (other_new_entry k hk n))
    | yes z ↦ elim (ℕ_discrete m 1) [
      | no n ↦ absurd (nm (other_new_entry m hm n))
      | yes z' ↦ absurd (ne (z ∙ sym z'))
    ]
  ];
}
