-- ===== src/Qcow2/Writing.antt =====
-- Bytes put into a cluster that the image has change those bytes of the disk alone.
use tenclaw.Base.{
  ℕ, ◌+◌, ◌-◌, ◌*◌, ◌/◌, ◌%◌, ◌^◌, ◌≤◌, ◌<◌, ◌≡◌, refl, sym, ap, subst, ◌∙◌, ◌≢◌, ◌⊎◌, inl, inr,
  true, false, List, [], ◌∷◌, arith, ltb, ◌==◌, Bool-cases, length, get_or, u64, All,
}
use native.Mathlib.Nat.{mod-lt, div-add-mod}
use native.Mathlib.Decide.{ℕ_discrete}
use tenclaw.Memory.{store_bytes}
use tenclaw.Memory.Words.{store_bytes_frame}
use tenclaw.Memory.Bytes.{store_bytes_shift}
use tenclaw.RawImage.{FileOps}
use tenclaw.Qcow2.{Qcow2, L2CacheEntry, cluster_size, l2_entries, offset_of, write_cluster}
use tenclaw.Qcow2.Cache.{cached}
use tenclaw.Qcow2.Laws.{GrowLaws, with_cache, l1_at, IsTable, EntryOk, CacheOk, disk_table, either}
use tenclaw.Qcow2.Evict.{disk_table_agree}
use tenclaw.Qcow2.Image.{
  ImageOk, DataOk, entry_of, disk_byte, clusters, cluster_bounds, cluster_in, table_index,
  same-ImageOk,
}
use tenclaw.Qcow2.Reading.{same_cluster}

-- An offset no farther from `x` than its cluster reaches is in the cluster of `x`.
cluster_of_range : (m x y n : ℕ) → x % m + n ≤ m → x ≤ y → y < x + n → y / m ≡ x / m
cluster_of_range m x y n room lo hi =
    let e : x + (y - x) ≡ y = omega arith in
    subst (λ z. z / m ≡ x / m) e (same_cluster x m (y - x) (omega arith)).0

module _ {F : Type 0} (ops : FileOps F) (l : GrowLaws ops) where
  open l use {content, Sound, fwrite_lem}

  -- A file that differs from `f` only inside the cluster of an entry.
  record Inside (q : Qcow2 F) (f : F) (entry : ℕ) (g : F) : Type 0 where
    sound : Sound g
    longer : ops.length_of f ≤ ops.length_of g
    frame :
        (x : ℕ)
        → (x < offset_of entry) ⊎ (offset_of entry + cluster_size q ≤ x)
        → content g x ≡ content f x

  module _ (q : Qcow2 F) (f : F) (c : List L2CacheEntry) (v : ImageOk ops l q f c) where
    same_disk_table :
        (g : F) (e : ℕ)
        → DataOk ops l q f e
        → Inside q f e g
        → (o : ℕ) → IsTable q o
        → disk_table ops l q g o ≡ disk_table ops l q f o
    same_disk_table g e d w o is =
        let b = cluster_bounds ops l q v.bits_from v.bits_to in
        let far = d.off_tables o is in
        disk_table_agree ops l q g f o (λ x lo hi. w.frame x (omega (arith, b.4)))

    same_entries :
        (g : F) (e : ℕ) (d : List L2CacheEntry)
        → DataOk ops l q f e
        → Inside q f e g
        → All (EntryOk ops l q f) d
        → All (EntryOk ops l q g) d
    same_entries g e [] k w a = tt
    same_entries g e (t ∷ ts) k w a = (
      record {
        is_table = a.0.is_table;
        full = a.0.full;
        fits = a.0.fits;
        clean = λ n. a.0.clean n ∙ sym (same_disk_table g e k w t.l2_offset a.0.is_table);
      },
      same_entries g e ts k w a.1,
    )

    same_entry :
        (g : F) (e : ℕ)
        → DataOk ops l q f e
        → Inside q f e g
        → (k : ℕ) → k < clusters ops l q
        → entry_of ops l q g c k ≡ entry_of ops l q f c k
    same_entry g e d w k h =
        let i = k / l2_entries q in
        elim (Bool-cases (l1_at q i == 0)) [
          | inl z ↦ rw z refl
          | inr n ↦
              let is : IsTable q (offset_of (l1_at q i)) =
                (i, table_index ops l q f c k v h, ground arith, refl) in
              rw n (
                ap (λ t. get_or (either (cached (offset_of (l1_at q i)) c) t) (k % l2_entries q) 0)
                  (same_disk_table g e d w (offset_of (l1_at q i)) is))
        ]

    inside-ImageOk : (g : F) (e : ℕ) → DataOk ops l q f e → Inside q f e g → ImageOk ops l q g c
    inside-ImageOk g e d w =
        let ok : CacheOk ops l q g c = record {
          sound = w.sound;
          distinct = v.cache.distinct;
          entries = same_entries g e c d w v.cache.entries;
        } in
        same-ImageOk ops l q f g c c v ok w.longer (λ k h. same_entry g e d w k h)

    module _ (x : ℕ) (bytes : List ℕ) (in_map : x / cluster_size q < clusters ops l q)
        (held : entry_of ops l q f c (x / cluster_size q) ≢ 0)
        (room : x % cluster_size q + length bytes ≤ cluster_size q) where
      abbrev target : ℕ
      target = offset_of (entry_of ops l q f c (x / cluster_size q)) + x % cluster_size q

      abbrev pub after : F
      after = (ops.fwrite f target bytes).0

      target_fits : target + length bytes < 2 ^ 63
      target_fits =
          let b = cluster_bounds ops l q v.bits_from v.bits_to in
          let e = entry_of ops l q f c (x / cluster_size q) in
          let small : offset_of e < 2 ^ 56 = omega arith in omega arith

      put-Inside : Inside q f (entry_of ops l q f c (x / cluster_size q)) after
      put-Inside =
          let (s, _, longer, _, put) = fwrite_lem f target bytes v.cache.sound target_fits in
          record {
            sound = s;
            longer = longer;
            frame = λ y far. put y ∙ store_bytes_frame (content f) target bytes y (omega arith);
          }

      -- The disk's bytes in the cluster that is written.
      byte_here :
          (y : ℕ)
          → y / cluster_size q ≡ x / cluster_size q
          → content after
              (offset_of (entry_of ops l q f c (x / cluster_size q)) + y % cluster_size q)
            ≡ store_bytes (disk_byte ops l q f c) x bytes y
      byte_here y same =
          let e = entry_of ops l q f c (x / cluster_size q) in
          let (_, _, _, _, put) = fwrite_lem f target bytes v.cache.sound target_fits in
          let non_zero : (e == 0) ≡ false = ground arith in
          let here : disk_byte ops l q f c y ≡ content f (offset_of e + y % cluster_size q) =
            rw same (rw non_zero refl) in
          let dx = div-add-mod x (cluster_size q) in
          let dy =
            subst (λ z. cluster_size q * z + y % cluster_size q ≡ y) same
              (div-add-mod y (cluster_size q)) in
          put (offset_of e + y % cluster_size q)
          ∙ store_bytes_shift (content f) (disk_byte ops l q f c) target x bytes
              (offset_of e + y % cluster_size q) y (omega arith) (sym here)

      -- And elsewhere.
      byte_elsewhere :
          (y : ℕ)
          → y < q.virtual_size
          → y / cluster_size q ≢ x / cluster_size q
          → disk_byte ops l q after c y ≡ store_bytes (disk_byte ops l q f c) x bytes y
      byte_elsewhere y lt ne =
          let cs = cluster_size q in
          let k = x / cs in
          let m = y / cs in
          let d = v.data_ok k in_map held in
          let m_in = cluster_in ops l q f c y v lt in
          let away : (y < x) ⊎ (x + length bytes ≤ y) = elim (Bool-cases (ltb y x)) [
            | inl b ↦ inl (ground arith)
            | inr b ↦ elim (Bool-cases (ltb y (x + length bytes))) [
              | inl i ↦
                  absurd
                    (ne (cluster_of_range cs x y (length bytes) room (ground arith) (ground arith)))
              | inr o ↦ inr (ground arith)
            ]
          ] in
          let b = cluster_bounds ops l q v.bits_from v.bits_to in
          let low = mod-lt y {m = cs} (omega arith) in
          let same = same_entry after (entry_of ops l q f c k) d put-Inside m m_in in
          let frame = sym (store_bytes_frame (disk_byte ops l q f c) x bytes y away) in
          elim (Bool-cases (entry_of ops l q f c m == 0)) [
            | inl z ↦
                rw (same, z) (let e : disk_byte ops l q f c y ≡ 0 = rw z refl in sym e ∙ frame)
            | inr n ↦
                let far = v.data_apart k m in_map m_in (λ e. ne (sym e)) held (ground arith) in
                let e : disk_byte ops l q f c y
                    ≡ content f (offset_of (entry_of ops l q f c m) + y % cs) =
                  rw n refl in
                rw (same, n)
                  (put-Inside.frame (offset_of (entry_of ops l q f c m) + y % cs) (omega arith)
                    ∙ sym e
                    ∙ frame)
          ]

      pub put_disk :
          (y : ℕ)
          → y < q.virtual_size
          → disk_byte ops l q after c y ≡ store_bytes (disk_byte ops l q f c) x bytes y
      put_disk y lt = elim (ℕ_discrete (y / cluster_size q) (x / cluster_size q)) [
        | no ne ↦ byte_elsewhere y lt ne
        | yes same ↦
            let e = entry_of ops l q f c (x / cluster_size q) in
            let kept =
              same_entry after e (v.data_ok (x / cluster_size q) in_map held) put-Inside
                (x / cluster_size q) in_map in
            let non_zero : (e == 0) ≡ false = ground arith in
            let here : disk_byte ops l q after c y
                ≡ content after (offset_of e + y % cluster_size q) =
              rw same (rw kept (rw non_zero refl)) in
            here ∙ byte_here y same
      ]

      pub put_image : ImageOk ops l q after c
      put_image =
          inside-ImageOk after (entry_of ops l q f c (x / cluster_size q))
            (v.data_ok (x / cluster_size q) in_map held) put-Inside

      pub put_entries :
          (k : ℕ) → k < clusters ops l q → entry_of ops l q after c k ≡ entry_of ops l q f c k
      put_entries k h =
          same_entry after (entry_of ops l q f c (x / cluster_size q))
            (v.data_ok (x / cluster_size q) in_map held) put-Inside k h

      -- `WriteCluster` of the bytes succeeds.
      pub put_lem :
          write_cluster ops
            (with_cache q f c)
            (offset_of (entry_of ops l q f c (x / cluster_size q)))
            (x % cluster_size q)
            bytes
          ≡ (with_cache q after c, true)
      unfolding write_cluster
      put_lem =
          let fits : u64 target ≡ target = let t = target_fits in omega arith in
          let (_, count, _, _, _) = fwrite_lem f target bytes v.cache.sound target_fits in
          let full : (length bytes == length bytes) ≡ true = ground arith in
          rw (fits, count, full) refl
