-- ===== src/Qcow2/Lookup.antt =====
-- Loading a table, and `GetL2Table`.
use tenclaw.Base.{
  ℕ, ◌*◌, ◌≡◌, refl, sym, ap, subst, ◌∙◌, inl, inr, true, false, none, some, List, ◌∷◌, arith, ◌==◌,
  Option-cases, length,
}
use native.Mathlib.Decide.{ℕ_discrete}
use tenclaw.Memory.{load_bytes}
use tenclaw.Memory.Bytes.{length-load_bytes, All-load_bytes}
use tenclaw.RawImage.{FileOps}
use tenclaw.Qcow2.{Qcow2, L2CacheEntry, l2_entries, find_entry, load_l2, get_l2_table}
use tenclaw.Qcow2.Codec.{length-decode_table, All-decode_table}
use tenclaw.Qcow2.Cache.{cached, find_none, find_some}
use tenclaw.Qcow2.Laws.{
  GrowLaws, with_cache, IsTable, disk_table, either, table, EntryOk, CacheOk, TablesOk, Alike,
  Alike-trans, TablesOk-longer,
}
use tenclaw.Qcow2.Evict.{absent, make_room_lem}

module _ {F : Type 0} (ops : FileOps F) (l : GrowLaws ops) where
  open l use {content, Sound, content_bytes, fread_lem, fwrite_lem}

  -- What a read of a table from the file, into a cache that does not hold it, leaves.
  load_lem :
      (q : Qcow2 F) (f : F) (c : List L2CacheEntry) (o : ℕ)
      → TablesOk ops l q f
      → CacheOk ops l q f c
      → IsTable q o
      → cached o c ≡ none
      → let t = disk_table ops l q f o in
        let e : L2CacheEntry = record { l2_offset = o; data_ = t; dirty = false } in
        (load_l2 ops (with_cache q f c) o ≡ (with_cache q f (e ∷ c), some t))
        × Alike ops l q f c f (e ∷ c)
  unfolding load_l2
  load_lem q f c o t ok is n =
      let size = 8 * l2_entries q in
      let bytes = load_bytes (content f) o size in
      let got : ops.fread f o size ≡ bytes = fread_lem f o size ok.sound (t.inside o is).0 in
      let long : (length bytes == size) ≡ true =
        ground (arith, length-load_bytes (content f) o size) in
      let e : L2CacheEntry = record {
        l2_offset = o;
        data_ = disk_table ops l q f o;
        dirty = false;
      } in
      let e_ok : EntryOk ops l q f e = record {
        is_table = is;
        full = length-decode_table (l2_entries q) bytes;
        fits =
            All-decode_table (l2_entries q) bytes
              (All-load_bytes (content f) o size (λ x. content_bytes f x ok.sound));
        clean = λ d. refl;
      } in
      (
        rw got (rw long refl),
        record {
          ok = record {
            sound = ok.sound;
            distinct = (absent ops l o c n, ok.distinct);
            entries = (e_ok, ok.entries);
          };
          longer = omega arith;
          tables = λ p p_is. elim (ℕ_discrete o p) [
            | yes same ↦
                let hit : (o == p) ≡ true = ground arith in
                let gone : cached p c ≡ none = subst (λ x. cached x c ≡ none) same n in
                rw (hit, gone) (ap (disk_table ops l q f) same)
            | no ne ↦ let miss : (o == p) ≡ false = ground arith in rw miss refl
          ];
          outside = λ x off. refl;
        },
      )

  -- `GetL2Table` of a table that the image has returns it as it is up to date, and changes no table.
  pub get_l2_table_lem :
      (q : Qcow2 F) (o : ℕ)
      → TablesOk ops l q q.file
      → CacheOk ops l q q.file q.l2_lru
      → IsTable q o
      → (f : F) × (c : List L2CacheEntry) × (get_l2_table ops q o
          ≡ (with_cache q f c, some (table ops l q q.file q.l2_lru o)))
        × Alike ops l q q.file q.l2_lru f c
  unfolding get_l2_table
  get_l2_table_lem q o t ok is = elim (Option-cases (find_entry o q.l2_lru)) [
    | inl miss ↦
        let absent_ = find_none o q.l2_lru miss in
        let (f, c, eq, room) = make_room_lem ops l (length q.l2_lru) q q.file q.l2_lru t ok in
        let (loaded, alike) =
          load_lem q f c o (TablesOk-longer ops l q q.file f room.alike.longer t) room.alike.ok is
            (room.fewer o absent_) in
        let e : L2CacheEntry = record {
          l2_offset = o;
          data_ = disk_table ops l q f o;
          dirty = false;
        } in
        let on_disk : table ops l q f c o ≡ disk_table ops l q f o =
          ap (λ m. either m (disk_table ops l q f o)) (room.fewer o absent_) in
        (
          f,
          e ∷ c,
          rw (miss, get_l2_table)
              (ap (λ r. load_l2 ops r o) eq
                ∙ loaded
                ∙ ap (λ t. (with_cache q f (e ∷ c), some t))
                    (sym on_disk ∙ room.alike.tables o is)),
          Alike-trans ops l q q.file f f q.l2_lru c (e ∷ c) room.alike alike,
        )
    | inr (found, hit) ↦
        let h = find_some o q.l2_lru found.0 found.1 hit ok.distinct in
        let first : cached o (found.0 ∷ found.1) ≡ some found.0.data_ =
          let key : (found.0.l2_offset == o) ≡ true = ground (arith, h.key) in rw key refl in
        (
          q.file,
          found.0 ∷ found.1,
          rw (hit, get_l2_table)
              (ap (λ t. (with_cache q q.file (found.0 ∷ found.1), some t))
                (ap (λ m. either m (disk_table ops l q q.file o)) (sym first ∙ h.same o))),
          record {
            ok = record {
              sound = ok.sound;
              distinct = h.distinct;
              entries = h.kept (EntryOk ops l q q.file) ok.entries;
            };
            longer = omega arith;
            tables = λ p p_is. ap (λ m. either m (disk_table ops l q q.file p)) (h.same p);
            outside = λ x off. refl;
          },
        )
  ]
