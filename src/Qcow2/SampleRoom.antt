-- ===== src/Qcow2/SampleRoom.antt =====
-- The sample image has room for every cluster of its disk.
use tenclaw.Base.{
  ℕ, ◌+◌, ◌^◌, ◌<◌, ◌≡◌, refl, ap, ◌∙◌, inl, true, false, arith, ◌==◌, if◌then◌else◌,
}
use native.Mathlib.Decide.{ℕ_discrete}
use tenclaw.Qcow2.Room.{zeros, zeros_agree}
use tenclaw.Qcow2.Growing.{Roomy}
use tenclaw.Qcow2.Sample.{
  grow_file, grow_laws, no_codecs, image, image-Valid, entry, first_entry, other_entry, only_entry,
  table_at,
}

plain_entry : ℕ → ℕ
plain_entry k = if k == 0 then 2 ^ 63 + 1536 else 0

entry_plain : (k : ℕ) → k < 64 → entry k ≡ plain_entry k
unfolding plain_entry
entry_plain k h = elim (ℕ_discrete k 0) [
  | yes z ↦ let e : (k == 0) ≡ true = ground arith in rw e (ap entry z ∙ first_entry)
  | no n ↦ let e : (k == 0) ≡ false = ground arith in rw e (other_entry k h n)
]

few : zeros plain_entry 64 ≡ 63
unfolding plain_entry
few = refl

missing : zeros entry 64 ≡ 63
missing = zeros_agree plain_entry entry 64 entry_plain ∙ few

pub image-Roomy : Roomy grow_file grow_laws no_codecs image
image-Roomy = record {
  valid = image-Valid;
  room = record {
    l1_full = refl;
    past_header = ground arith;
    aligned = ground arith;
    budget = omega (arith, missing);
    l1_below = ground arith;
    tables_below = λ o is. let e = table_at o is in ground arith;
    tables_off = λ o is. let e = table_at o is in inl (ground arith);
    data_below = λ k h ne. let e = only_entry k h ne in rw e (ground arith);
    data_off = λ k h ne. let e = only_entry k h ne in rw e (inl (ground arith));
    one_each = λ i j hi hj ni nj e. omega arith;
  };
}
