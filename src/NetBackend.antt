-- ===== src/NetBackend.antt =====
-- core/net/net_backend.cpp: the checksums of the network backend, which rewrites the addresses of the
-- guest's packets. A packet lies in memory; a 16-bit field is taken in the host's order, as `ntohs`
-- gives it, and lies with its high byte first.
pub mod Sums
mod Tests
use tenclaw.Base.{
  ℕ, zero, suc, ◌+◌, ◌-◌, ◌*◌, ◌/◌, ◌%◌, ◌^◌, ◌≤◌, ◌<◌, min, ◌≡◌, refl, sym, ap, ap₂, subst, ◌∙◌,
  ◌≢◌, ◌↔◌, ◌⊎◌, inl, inr, Bool, true, false, not, ◌&&◌, ◌||◌, Option, none, some, List, [], ◌∷◌,
  ◌++◌, arith, ltb, leb, ◌==◌, if◌then◌else◌, Bool-cases, Option-cases, length, get_or, set, take,
  drop, replicate, u8, u16, u32, u64, shr, shl, test_bit, set_bit, clear_bit, with_low32,
  with_high32, get_elem?, ==_iff, length-append, length-set, get_or-set_self, get_or-set_ne,
  length-take, length-drop, some_inj, cons_inj, All, modify, length-replicate, length-modify,
  get_or-modify_self, get_or-modify_ne,
}
use tenclaw.Memory.{Ram, store8, load_bytes}

-- The loop of `ChecksumFold`, on fuel; a 32-bit sum needs two rounds.
unfoldable pub fold_sum : ℕ → ℕ → ℕ
fold_sum zero sum = sum
fold_sum (suc fuel) sum =
    let next = fold_sum fuel (sum % 2 ^ 16 + shr sum 16) in if shr sum 16 == 0 then sum else next

-- `ChecksumFold`: the 16-bit complement
unfoldable pub checksum_fold : ℕ → ℕ
checksum_fold sum = 2 ^ 16 - 1 - u16 (fold_sum 3 (u32 sum))

-- `ChecksumPartial`, from a sum on
unfoldable pub partial_from : ℕ → List ℕ → ℕ
partial_from sum [] = sum
partial_from sum (a ∷ []) = u32 (sum + shl a 8)
partial_from sum (a ∷ b ∷ bs) = partial_from (u32 (sum + (shl a 8 + b))) bs

abbrev pub checksum_partial : List ℕ → ℕ
checksum_partial bytes = partial_from 0 bytes

-- A 16-bit field, with its high byte first
abbrev pub put_be16 : Ram → ℕ → ℕ → Ram
put_be16 r at v = store8 (store8 r at (shr v 8)) (at + 1) v

-- `RecalcIpChecksum`, of the header at `ip`
unfoldable pub recalc_ip_checksum : ℕ → Ram → Ram
recalc_ip_checksum ip r =
    let cleared = put_be16 r (ip + 10) 0 in
    let hdr_len = cleared ip % 16 * 4 in
    put_be16 cleared (ip + 10) (checksum_fold (checksum_partial (load_bytes cleared ip hdr_len)))

-- `static_cast<uint16_t>(~v)` of a 16-bit value
abbrev pub complement : ℕ → ℕ
complement v = 2 ^ 16 - 1 - v

-- `IncrementalCksumUpdate`: the new checksum
unfoldable pub incremental_cksum_update : ℕ → ℕ → ℕ → ℕ → ℕ → ℕ
incremental_cksum_update cksum old_ip new_ip old_port new_port = checksum_fold (
    complement cksum
    + complement (shr old_ip 16)
    + shr new_ip 16
    + complement (u16 old_ip)
    + u16 new_ip
    + complement old_port
    + new_port)
