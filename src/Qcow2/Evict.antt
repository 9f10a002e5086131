-- ===== src/Qcow2/Evict.antt =====
-- Eviction writes the last of the cached tables back, and leaves every table as it was.
use tenclaw.Base.{
  ℕ, zero, suc, ◌+◌, ◌*◌, ◌^◌, ◌≤◌, ◌<◌, ◌≡◌, refl, sym, ap, ap₂, subst, ◌∙◌, ◌≢◌, ◌⊎◌, inl, inr,
  none, List, [], ◌∷◌, arith, leb, ◌==◌, if◌then◌else◌, Bool-cases, length, All,
}
use native.Mathlib.Decide.{ℕ_discrete}
use tenclaw.Memory.{load_bytes, store_bytes}
use tenclaw.Memory.Words.{store_bytes_frame}
use tenclaw.Memory.Bytes.{load_bytes_agree, load_bytes-store_bytes}
use tenclaw.RawImage.{FileOps}
use tenclaw.Qcow2.{
  Qcow2, L2CacheEntry, l2_entries, decode_table, encode_table, last_entry, but_last_entry,
  write_table, evict, make_room, l2_cache_max,
}
use tenclaw.Qcow2.Codec.{length-encode_table, All-encode_table, decode_table-encode_table}
use tenclaw.Qcow2.Cache.{
  cached, last_ok, but_last_ok, but_last-Distinct, cached_last, cached_rest, cached_evicted,
}
use tenclaw.Qcow2.Laws.{
  GrowLaws, with_cache, IsTable, disk_table, either, table, EntryOk, CacheOk, TablesOk, Alike,
  Alike-refl, Alike-trans, TablesOk-longer,
}

module _ {F : Type 0} (ops : FileOps F) (l : GrowLaws ops) where
  open l use {content, Sound, content_bytes, fread_lem, fwrite_lem}

  -- A table that is written back is the table on disk.
  written_table :
      (q : Qcow2 F) (f : F) (e : L2CacheEntry)
      → Sound f
      → EntryOk ops l q f e
      → e.l2_offset + 8 * l2_entries q < 2 ^ 63
      → (Sound (write_table ops e f)
          × (ops.length_of f ≤ ops.length_of (write_table ops e f))
          × (disk_table ops l q (write_table ops e f) e.l2_offset ≡ e.data_)
          × ((x : ℕ)
              → (x < e.l2_offset) ⊎ (e.l2_offset + 8 * l2_entries q ≤ x)
              → content (write_table ops e f) x ≡ content f x))
  written_table q f e s ok small =
      let o = e.l2_offset in
      let bytes = encode_table e.data_ in
      let f' = write_table ops e f in
      let size : length bytes ≡ 8 * l2_entries q =
        length-encode_table e.data_ ∙ ap (λ n. 8 * n) ok.full in
      let (s', _, longer, _, put) = fwrite_lem f o bytes s (omega arith) in
      let back : load_bytes (content f') o (8 * l2_entries q) ≡ bytes =
        ap (load_bytes (content f') o) (sym size)
        ∙ load_bytes_agree (content f') (store_bytes (content f) o bytes) o (length bytes)
            (λ x _ _. put x)
        ∙ load_bytes-store_bytes (content f) o bytes (All-encode_table e.data_) in
      (
        s',
        longer,
        ap (decode_table (l2_entries q)) back
            ∙ ap (λ n. decode_table n bytes) (sym ok.full)
            ∙ decode_table-encode_table e.data_ ok.fits,
        (λ x h. put x ∙ store_bytes_frame (content f) o bytes x (omega arith)),
      )

  -- Tables that do not meet the bytes that changed are as they were.
  pub disk_table_agree :
      (q : Qcow2 F) (f g : F) (o : ℕ)
      → ((x : ℕ) → o ≤ x → x < o + 8 * l2_entries q → content f x ≡ content g x)
      → disk_table ops l q f o ≡ disk_table ops l q g o
  disk_table_agree q f g o h =
      ap (decode_table (l2_entries q))
        (load_bytes_agree (content f) (content g) o (8 * l2_entries q) h)

  -- What eviction of the last of the cached tables leaves.
  pub record Evicted (q : Qcow2 F) (f : F) (c : List L2CacheEntry) (f' : F) (c' : List L2CacheEntry)
      : Type 0 where
    pub alike : Alike ops l q f c f' c'
    pub fewer : (o : ℕ) → cached o c ≡ none → cached o c' ≡ none

  abbrev pub victim_file : L2CacheEntry → F → F
  victim_file v f = if v.dirty then write_table ops v f else f

  -- The victim's table is on disk afterwards, every other table as it was.
  pub victim_lem :
      (q : Qcow2 F) (f : F) (v : L2CacheEntry)
      → TablesOk ops l q f
      → Sound f
      → EntryOk ops l q f v
      → (Sound (victim_file v f)
          × (ops.length_of f ≤ ops.length_of (victim_file v f))
          × (disk_table ops l q (victim_file v f) v.l2_offset ≡ v.data_)
          × ((x : ℕ)
              → (x < v.l2_offset) ⊎ (v.l2_offset + 8 * l2_entries q ≤ x)
              → content (victim_file v f) x ≡ content f x))
  victim_lem q f v t s ok = elim (Bool-cases v.dirty) [
    | inl d ↦ rw d (written_table q f v s ok (t.inside v.l2_offset ok.is_table).1)
    | inr d ↦ rw d (s, omega arith, sym (ok.clean d), (λ x h. refl))
  ]

  pub other_table :
      (q : Qcow2 F) (f : F) (v : L2CacheEntry) (o : ℕ)
      → TablesOk ops l q f
      → Sound f
      → EntryOk ops l q f v
      → IsTable q o
      → o ≢ v.l2_offset
      → disk_table ops l q (victim_file v f) o ≡ disk_table ops l q f o
  other_table q f v o t s ok is ne =
      let (_, _, _, frame) = victim_lem q f v t s ok in
      let far = t.apart o v.l2_offset is ok.is_table ne in
      disk_table_agree q (victim_file v f) f o (λ x lo hi. frame x (omega arith))

  entry_kept :
      (q : Qcow2 F) (f : F) (v e : L2CacheEntry)
      → TablesOk ops l q f
      → Sound f
      → EntryOk ops l q f v
      → EntryOk ops l q f e
      → e.l2_offset ≢ v.l2_offset
      → EntryOk ops l q (victim_file v f) e
  entry_kept q f v e t s vok ok ne = record {
    is_table = ok.is_table;
    full = ok.full;
    fits = ok.fits;
    clean = λ d. ok.clean d ∙ sym (other_table q f v e.l2_offset t s vok ok.is_table ne);
  }

  pub entries_kept :
      (q : Qcow2 F) (f : F) (v : L2CacheEntry) (c : List L2CacheEntry)
      → TablesOk ops l q f
      → Sound f
      → EntryOk ops l q f v
      → All (EntryOk ops l q f) c
      → All (λ d. d.l2_offset ≢ v.l2_offset) c
      → All (EntryOk ops l q (victim_file v f)) c
  entries_kept q f v [] t s vok a n = tt
  entries_kept q f v (e ∷ c) t s vok a n =
      (entry_kept q f v e t s vok a.0 n.0, entries_kept q f v c t s vok a.1 n.1)

  pub absent : (o : ℕ) (c : List L2CacheEntry) → cached o c ≡ none → All (λ d. d.l2_offset ≢ o) c
  absent o [] h = tt
  absent o (e ∷ c) h = elim (Bool-cases (e.l2_offset == o)) [
    | inl y ↦ absurd (ground arith)
    | inr n ↦ (ground arith, absent o c (ground arith))
  ]

  evict_tables :
      (q : Qcow2 F) (f : F) (e : L2CacheEntry) (es : List L2CacheEntry)
      → TablesOk ops l q f
      → CacheOk ops l q f (e ∷ es)
      → (o : ℕ) → IsTable q o
      → table ops l q (victim_file (last_entry e es) f) (but_last_entry (e ∷ es)) o
        ≡ table ops l q f (e ∷ es) o
  evict_tables q f e es t ok o is =
      let v = last_entry e es in
      let vok = last_ok (EntryOk ops l q f) e es ok.entries in
      elim (ℕ_discrete o v.l2_offset) [
        | yes same ↦
            subst
              (λ x.
                table ops l q (victim_file v f) (but_last_entry (e ∷ es)) x
                ≡ table ops l q f (e ∷ es) x)
              (sym same)
              (rw (cached_evicted e es ok.distinct, cached_last e es ok.distinct)
                (victim_lem q f v t ok.sound vok).2)
        | no ne ↦ ap₂ either (cached_rest o e es ne) (other_table q f v o t ok.sound vok is ne)
      ]

  evicted :
      (q : Qcow2 F) (f : F) (e : L2CacheEntry) (es : List L2CacheEntry)
      → TablesOk ops l q f
      → CacheOk ops l q f (e ∷ es)
      → Evicted q f (e ∷ es) (victim_file (last_entry e es) f) (but_last_entry (e ∷ es))
  evicted q f e es t ok =
      let v = last_entry e es in
      let vok = last_ok (EntryOk ops l q f) e es ok.entries in
      let (s, longer, _, frame) = victim_lem q f v t ok.sound vok in
      let rest = but_last_ok (EntryOk ops l q f) (e ∷ es) ok.entries in
      record {
        alike = record {
          ok = record {
            sound = s;
            distinct = but_last-Distinct (e ∷ es) ok.distinct;
            entries =
                entries_kept q f v (but_last_entry (e ∷ es)) t ok.sound vok rest
                  (absent v.l2_offset (but_last_entry (e ∷ es)) (cached_evicted e es ok.distinct));
          };
          longer = longer;
          tables = evict_tables q f e es t ok;
          outside = λ x off. frame x (off v.l2_offset vok.is_table);
        };
        fewer = λ o n. elim (ℕ_discrete o v.l2_offset) [
          | yes same ↦
              subst (λ x. cached x (but_last_entry (e ∷ es)) ≡ none) (sym same)
                (cached_evicted e es ok.distinct)
          | no ne ↦ cached_rest o e es ne ∙ n
        ];
      }

  Evicted-refl :
      (q : Qcow2 F) (f : F) (c : List L2CacheEntry) → CacheOk ops l q f c → Evicted q f c f c
  Evicted-refl q f c ok = record { alike = Alike-refl ops l q f c ok; fewer = λ o n. n }

  Evicted-trans :
      (q : Qcow2 F) (f g h : F) (c d e : List L2CacheEntry)
      → Evicted q f c g d
      → Evicted q g d h e
      → Evicted q f c h e
  Evicted-trans q f g h c d e x y = record {
    alike = Alike-trans ops l q f g h c d e x.alike y.alike;
    fewer = λ o n. y.fewer o (x.fewer o n);
  }

  pub make_room_lem :
      (rounds : ℕ) (q : Qcow2 F) (f : F) (c : List L2CacheEntry)
      → TablesOk ops l q f
      → CacheOk ops l q f c
      → (f' : F) × (c' : List L2CacheEntry) × (make_room ops rounds (with_cache q f c)
          ≡ with_cache q f' c')
        × Evicted q f c f' c'
  unfolding make_room evict
  make_room_lem zero q f c t ok = (f, c, refl, Evicted-refl q f c ok)
  make_room_lem (suc rounds) q f [] t ok = (f, [], refl, Evicted-refl q f [] ok)
  make_room_lem (suc rounds) q f (e ∷ es) t ok =
      let once = evicted q f e es t ok in
      let f1 = victim_file (last_entry e es) f in
      let c1 = but_last_entry (e ∷ es) in
      let (f2, c2, eq, more) =
        make_room_lem rounds q f1 c1 (TablesOk-longer ops l q f f1 once.alike.longer t)
          once.alike.ok in
      elim (Bool-cases (leb l2_cache_max (length (e ∷ es)))) [
        | inl full ↦ (f2, c2, rw full eq, Evicted-trans q f f1 f2 (e ∷ es) c1 c2 once more)
        | inr free ↦ (f, e ∷ es, rw free refl, Evicted-refl q f (e ∷ es) ok)
      ]
