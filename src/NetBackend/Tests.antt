-- ===== src/NetBackend/Tests.antt =====
-- A header of 20 bytes, and a checksum that follows a new address and port.
use tenclaw.Base.{ℕ, suc, ◌+◌, ◌-◌, ◌*◌, ◌≡◌, refl, arith}
use tenclaw.Memory.{Ram, load_bytes, store8}
use tenclaw.NetBackend.{checksum_fold, recalc_ip_checksum, incremental_cksum_update, fold_sum}
use tenclaw.NetBackend.Sums.{words_sum, recalc_ip_checksum_lem, incremental_cksum_update_lem}

abbrev header : Ram
header = store8 (store8 (λ x. 0) 14 0x45) 22 64

recalc_ip_checksum_lem_example :
    (k : ℕ) × (words_sum (load_bytes (recalc_ip_checksum 14 header) 14 20) ≡ 65535 * suc k)
recalc_ip_checksum_lem_example =
    (recalc_ip_checksum_lem 14 header (λ x. ground arith) (ground arith)).0

verified : checksum_fold (6 + 0x0a00 + 2 + 80 + (65535 - (6 + 0x0a00 + 2 + 80))) ≡ 0
unfolding checksum_fold fold_sum
verified = refl

incremental_cksum_update_lem_example :
    checksum_fold (
      6
      + 0x0a00
      + 3
      + 8080
      + incremental_cksum_update (65535 - (6 + 0x0a00 + 2 + 80)) 0x0a000002 0x0a000003 80 8080)
    ≡ 0
incremental_cksum_update_lem_example =
    incremental_cksum_update_lem 6 (65535 - (6 + 0x0a00 + 2 + 80)) 0x0a000002 0x0a000003 80 8080
      (ground arith) (ground arith) (ground arith) (ground arith) (ground arith) (ground arith)
      (ground arith) verified
