-- ===== src/Qcow2/Reading.antt =====
-- `Read` delivers the bytes of the disk.
use tenclaw.Base.{
  ℕ, zero, suc, ◌+◌, ◌-◌, ◌*◌, ◌/◌, ◌%◌, ◌^◌, ◌≤◌, ◌<◌, ◌≡◌, refl, sym, ap, ◌∙◌, inl, inr, Bool,
  true, false, not, List, ◌++◌, arith, ltb, ◌==◌, if◌then◌else◌, Bool-cases, length, u32, u64,
}
use native.Mathlib.Nat.{
  mod-lt, mod-eq_of_lt, div-add-mod, div-eq_of_lt, add-mul-div_left, add-mul-mod_self_left,
}
use tenclaw.Memory.{load_bytes}
use tenclaw.Memory.Bytes.{
  length-load_bytes, load_bytes_shift, load_bytes-zero, load_bytes_agree, load_bytes-add,
}
use tenclaw.RawImage.{FileOps}
use tenclaw.Qcow2.{Qcow2, L2CacheEntry, Codecs, Place, cluster_size, offset_of, read_cluster}
use tenclaw.Qcow2.Transfer.{in_cluster, chunk_of, read_place, read_chunk, read_loop, read}
use tenclaw.Qcow2.Laws.{GrowLaws, with_cache, Alike, Alike-refl, Alike-trans}
use tenclaw.Qcow2.Image.{
  ImageOk, entry_of, Valid, disk, disk_byte, cluster_bounds, cluster_in, data-OffTables,
  Alike-ImageOk, Alike-disk_byte,
}
use tenclaw.Qcow2.Rebase.{ImageOk-rebase, Alike-rebase}
use tenclaw.Qcow2.Resolve.{plain_place, resolve_offset_lem}

-- Two offsets in one cluster have its number, and lie in it as far apart as they are.
pub same_cluster : (x m i : ℕ) → x % m + i < m → ((x + i) / m ≡ x / m) × ((x + i) % m ≡ x % m + i)
same_cluster x m i h =
    let split : x + i ≡ x % m + i + m * (x / m) = let e = div-add-mod x m in omega arith in
    let none_over : (x % m + i) / m ≡ 0 = div-eq_of_lt h in
    (
      ap (λ y. y / m) split
          ∙ add-mul-div_left (x % m + i) (x / m) (omega arith)
          ∙ ap (λ y. y + x / m) none_over
          ∙ omega arith,
      ap (λ y. y % m) split ∙ add-mul-mod_self_left (x % m + i) m (x / m) ∙ mod-eq_of_lt h,
    )

module _ {F : Type 0} (ops : FileOps F) (l : GrowLaws ops) (codecs : Codecs) where
  open l use {content, fread_lem}

  -- What is at the place of a cluster are the disk's bytes.
  read_place_lem :
      (q : Qcow2 F) (f : F) (c : List L2CacheEntry) (x n : ℕ)
      → ImageOk ops l q q.file q.l2_lru
      → Alike ops l q q.file q.l2_lru f c
      → x < q.virtual_size
      → in_cluster q x + n ≤ cluster_size q
      → read_place ops codecs
          (with_cache q f c)
          (plain_place (entry_of ops l q q.file q.l2_lru (x / cluster_size q)))
          (in_cluster q x)
          n
        ≡ (true, load_bytes (disk_byte ops l q q.file q.l2_lru) x n)
  unfolding read_place read_cluster
  read_place_lem q f c x n v a h room =
      let cs = cluster_size q in
      let b = cluster_bounds ops l q v.bits_from v.bits_to in
      let k = x / cs in
      let e = entry_of ops l q q.file q.l2_lru k in
      let in_map = cluster_in ops l q q.file q.l2_lru x v h in
      elim (Bool-cases (e == 0)) [
        | inl z ↦
            let zeros : (i : ℕ) → i < n → disk_byte ops l q q.file q.l2_lru (x + i) ≡ 0 =
              λ i lt. let s = same_cluster x cs i (omega arith) in rw (s.0, z) refl in
            rw z (
              ap (λ t. (true, t))
                (sym (load_bytes-zero (disk_byte ops l q q.file q.l2_lru) x n zeros)))
        | inr held ↦
            let d = v.data_ok k in_map (ground arith) in
            let set_ : (offset_of e == 0) ≡ false = let p = d.placed in ground arith in
            let bounds : offset_of e + cs ≤ ops.length_of f = omega (arith, d.inside, a.longer) in
            let small : offset_of e < 2 ^ 56 = omega arith in
            let fits : u64 (offset_of e + in_cluster q x) ≡ offset_of e + in_cluster q x =
              omega arith in
            let got = fread_lem f (offset_of e + in_cluster q x) n a.ok.sound (omega arith) in
            let bytes : (i : ℕ)
                → i < n
                → content f (offset_of e + in_cluster q x + i)
                  ≡ disk_byte ops l q q.file q.l2_lru (x + i) =
              λ i lt.
                let s = same_cluster x cs i (omega arith) in
                let off =
                  data-OffTables ops l q q.file e (offset_of e + in_cluster q x + i) b.4 d
                    (omega arith) (omega arith) in
                let same : offset_of e + in_cluster q x + i ≡ offset_of e + (x % cs + i) =
                  omega arith in
                a.outside (offset_of e + in_cluster q x + i) off
                ∙ ap (content q.file) same
                ∙ rw (s.0, s.1, held) refl in
            let full : (length (load_bytes (content f) (offset_of e + in_cluster q x) n) == n)
                ≡ true =
              let len = length-load_bytes (content f) (offset_of e + in_cluster q x) n in
              ground arith in
            rw (held, set_, fits, got, full)
              (ap (λ t. (true, t))
                (load_bytes_shift (content f) (disk_byte ops l q q.file q.l2_lru)
                  (offset_of e + in_cluster q x) x n bytes))
      ]

  read_chunk_lem :
      (q : Qcow2 F) (x n : ℕ)
      → ImageOk ops l q q.file q.l2_lru
      → 0 < n
      → x + n ≤ q.virtual_size
      → in_cluster q x + n ≤ cluster_size q
      → (f : F) × (c : List L2CacheEntry) × (read_chunk ops codecs q x n
          ≡ (with_cache q f c, true, load_bytes (disk_byte ops l q q.file q.l2_lru) x n))
        × Alike ops l q q.file q.l2_lru f c
  unfolding read_chunk
  read_chunk_lem q x n v some_ h room =
      let (f, c, eq, alike) = resolve_offset_lem ops l q x v (omega arith) in
      let low : ltb q.virtual_size (u64 (x + n)) ≡ false = let s = v.size_fits in ground arith in
      let done : Qcow2 F × Place → Qcow2 F × Bool × List ℕ = λ r. (
        r.0,
        (read_place ops codecs r.0 r.1 (in_cluster q x) n).0,
        (read_place ops codecs r.0 r.1 (in_cluster q x) n).1,
      ) in
      (
        f,
        c,
        rw low (
            ap done eq
            ∙ ap (λ t. (with_cache q f c, t.0, t.1))
                (read_place_lem q f c x n v alike (omega arith) room)),
        alike,
      )

  pub chunk_lem :
      (q : Qcow2 F) (x n : ℕ)
      → ImageOk ops l q q.file q.l2_lru
      → 0 < n
      → (0 < chunk_of q x n)
        × (chunk_of q x n ≤ n)
        × (in_cluster q x + chunk_of q x n ≤ cluster_size q)
  chunk_lem q x n v h =
      let b = cluster_bounds ops l q v.bits_from v.bits_to in
      let low = mod-lt x {m = cluster_size q} (omega arith) in
      let e : u32 (cluster_size q - in_cluster q x) ≡ cluster_size q - in_cluster q x =
        omega arith in
      rw e (omega arith, omega arith, omega arith)

  pub read_loop_lem :
      (fuel : ℕ) (q : Qcow2 F) (x n : ℕ)
      → ImageOk ops l q q.file q.l2_lru
      → x + n ≤ q.virtual_size
      → n ≤ fuel
      → (f : F) × (c : List L2CacheEntry) × (read_loop ops codecs fuel q x n
          ≡ (with_cache q f c, true, load_bytes (disk_byte ops l q q.file q.l2_lru) x n))
        × Alike ops l q q.file q.l2_lru f c
  unfolding read_loop load_bytes
  read_loop_lem zero q x n v h enough =
      let e : n ≡ 0 = omega arith in
      (q.file, q.l2_lru, rw e refl, Alike-refl ops l q q.file q.l2_lru v.cache)
  read_loop_lem (suc fuel) q x zero v h enough =
      (q.file, q.l2_lru, refl, Alike-refl ops l q q.file q.l2_lru v.cache)
  read_loop_lem (suc fuel) q x (suc m) v h enough =
      let n = suc m in
      let chunk = chunk_of q x n in
      let (some_, most, room) = chunk_lem q x n v (omega arith) in
      let (f, c, eq, alike) = read_chunk_lem q x chunk v some_ (omega arith) room in
      let next =
        ImageOk-rebase ops l q f c f c (Alike-ImageOk ops l q q.file f q.l2_lru c v alike) in
      let (g, d, eq', alike') =
        read_loop_lem fuel (with_cache q f c) (x + chunk) (n - chunk) next (omega arith)
          (omega arith) in
      let more = Alike-rebase ops l (with_cache q f c) q.file q.l2_lru f g c d alike' in
      let disk = disk_byte ops l q q.file q.l2_lru in
      let fits : u64 (x + chunk) ≡ x + chunk = let s = v.size_fits in omega arith in
      let same : load_bytes (disk_byte ops l q f c) (x + chunk) (n - chunk)
          ≡ load_bytes disk (x + chunk) (n - chunk) =
        load_bytes_agree (disk_byte ops l q f c) disk (x + chunk) (n - chunk)
          (λ y lo hi. Alike-disk_byte ops l q q.file f q.l2_lru c y v alike (omega arith)) in
      let whole : load_bytes disk x n
          ≡ load_bytes disk x chunk ++ load_bytes disk (x + chunk) (n - chunk) =
        let e : n ≡ chunk + (n - chunk) = omega arith in
        ap (load_bytes disk x) e ∙ load_bytes-add disk x chunk (n - chunk) in
      let pos : (n == 0) ≡ false = ground arith in
      let step : Qcow2 F × Bool × List ℕ → Qcow2 F × Bool × List ℕ = λ r.
        let rest = read_loop ops codecs fuel r.0 (u64 (x + chunk)) (n - chunk) in
        if not r.1 then (r.0, false, r.2) else (rest.0, rest.1, r.2 ++ rest.2) in
      let join : Qcow2 F × Bool × List ℕ → Qcow2 F × Bool × List ℕ =
        λ r. (r.0, r.1, load_bytes disk x chunk ++ r.2) in
      (
        g,
        d,
        rw pos (
            ap step eq
            ∙ ap (λ y. join (read_loop ops codecs fuel (with_cache q f c) y (n - chunk))) fits
            ∙ ap join eq'
            ∙ ap (λ t. (with_cache q g d, true, t))
                (ap (λ t. load_bytes disk x chunk ++ t) same ∙ sym whole)),
        Alike-trans ops l q q.file f g q.l2_lru c d alike more,
      )

  -- A read inside the disk of a sound image succeeds and delivers the bytes of the disk; the image
  -- stays sound, of the same size, and its disk stays as it was, whatever tables the read has
  -- loaded, evicted and written back.
  pub read_lem :
      (q : Qcow2 F) (offset len : ℕ)
      → Valid ops l q
      → offset + len ≤ q.virtual_size
      → (q' : Qcow2 F) × (read ops codecs q offset len
          ≡ (q', true, load_bytes (disk ops l q) offset len))
        × Valid ops l q'
        × (q'.virtual_size ≡ q.virtual_size)
        × ((x : ℕ) → x < q.virtual_size → disk ops l q' x ≡ disk ops l q x)
  unfolding read
  read_lem q offset len v h =
      let (f, c, eq, alike) = read_loop_lem len q offset len v h (omega arith) in
      (
        with_cache q f c,
        eq,
        ImageOk-rebase ops l q f c f c (Alike-ImageOk ops l q q.file f q.l2_lru c v alike),
        refl,
        λ x lt. Alike-disk_byte ops l q q.file f q.l2_lru c x v alike lt,
      )

  read_loop_past :
      (fuel : ℕ) (q : Qcow2 F) (x n : ℕ)
      → Valid ops l q
      → 0 < n
      → q.virtual_size < x + n
      → x + n < 2 ^ 64
      → n ≤ fuel
      → (read_loop ops codecs fuel q x n).1 ≡ false
  unfolding read_loop read_chunk
  read_loop_past zero q x n v some_ past fits enough = ground arith
  read_loop_past (suc fuel) q x n v some_ past fits enough =
      let chunk = chunk_of q x n in
      let (one_, most, room) = chunk_lem q x n v some_ in
      let pos : (n == 0) ≡ false = ground arith in
      elim (Bool-cases (ltb q.virtual_size (x + chunk))) [
        | inl out ↦
            let wrap : u64 (x + chunk) ≡ x + chunk = omega arith in
            let failed : (read_chunk ops codecs q x chunk).1 ≡ false = rw (wrap, out) refl in
            rw pos (rw failed refl)
        | inr within ↦
            let (f, c, eq, alike) = read_chunk_lem q x chunk v one_ (ground arith) room in
            let next =
              ImageOk-rebase ops l q f c f c (Alike-ImageOk ops l q q.file f q.l2_lru c v alike) in
            let wrap : u64 (x + chunk) ≡ x + chunk = omega arith in
            let later =
              read_loop_past fuel (with_cache q f c) (x + chunk) (n - chunk) next (ground arith)
                (ground arith) (omega arith) (omega arith) in
            let step : Qcow2 F × Bool × List ℕ → Bool = λ r.
              let rest = read_loop ops codecs fuel r.0 (u64 (x + chunk)) (n - chunk) in
              let done : Qcow2 F × Bool × List ℕ =
                if not r.1 then (r.0, false, r.2) else (rest.0, rest.1, r.2 ++ rest.2) in
              done.1 in
            rw pos (
              ap step eq
              ∙ ap (λ y. (read_loop ops codecs fuel (with_cache q f c) y (n - chunk)).1) wrap
              ∙ later)
      ]

  -- A read that reaches past the end of the disk of a sound image fails, wherever it starts.
  pub read-past_end :
      (q : Qcow2 F) (offset len : ℕ)
      → Valid ops l q
      → 0 < len
      → q.virtual_size < offset + len
      → offset + len < 2 ^ 64
      → (read ops codecs q offset len).1 ≡ false
  unfolding read
  read-past_end q offset len v some_ past fits =
      read_loop_past len q offset len v some_ past fits (omega arith)
