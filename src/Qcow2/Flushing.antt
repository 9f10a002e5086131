-- ===== src/Qcow2/Flushing.antt =====
-- `Flush` puts every table that changed into the file.
use tenclaw.Base.{
  ℕ, ◌≤◌, ◌<◌, ◌≡◌, refl, sym, ap, subst, ◌∙◌, ◌≢◌, inl, inr, Bool, true, false, none, some, List,
  [], ◌∷◌, arith, ◌==◌, if◌then◌else◌, Option-cases, All,
}
use native.Mathlib.Decide.{ℕ_discrete}
use tenclaw.RawImage.{FileOps}
use tenclaw.Qcow2.{Qcow2, L2CacheEntry}
use tenclaw.Qcow2.Transfer.{flush_entries, flush}
use tenclaw.Qcow2.Cache.{cached, Distinct}
use tenclaw.Qcow2.Laws.{
  GrowLaws, with_cache, IsTable, disk_table, either, table, EntryOk, CacheOk, TablesOk, OffTables,
  Alike, TablesOk-longer,
}
use tenclaw.Qcow2.Evict.{victim_file, victim_lem, other_table, entries_kept, disk_table_agree}
use tenclaw.Qcow2.Image.{Valid, disk, disk_byte, Alike-ImageOk, Alike-disk_byte}
use tenclaw.Qcow2.Rebase.{ImageOk-rebase}

-- The same tables, all clean.
abbrev clean : List L2CacheEntry → List L2CacheEntry
clean [] = []
clean (e ∷ es) = record e { dirty = false } ∷ clean es

clean-offsets :
    (o : ℕ) (es : List L2CacheEntry)
    → All (λ d. d.l2_offset ≢ o) es
    → All (λ d. d.l2_offset ≢ o) (clean es)
clean-offsets o [] a = tt
clean-offsets o (e ∷ es) a = (a.0, clean-offsets o es a.1)

clean-Distinct : (es : List L2CacheEntry) → Distinct es → Distinct (clean es)
clean-Distinct [] d = tt
clean-Distinct (e ∷ es) d = (clean-offsets e.l2_offset es d.0, clean-Distinct es d.1)

cached-clean : (o : ℕ) (es : List L2CacheEntry) → cached o (clean es) ≡ cached o es
cached-clean o [] = refl
cached-clean o (e ∷ es) = ap (λ t. if e.l2_offset == o then some e.data_ else t) (cached-clean o es)

pub uncached : (o : ℕ) (es : List L2CacheEntry) → All (λ d. d.l2_offset ≢ o) es → cached o es ≡ none
uncached o [] a = refl
uncached o (e ∷ es) a =
    let n : (e.l2_offset == o) ≡ false = let ne = a.0 in ground arith in rw n (uncached o es a.1)

pub cached_first :
    (e : L2CacheEntry) (es : List L2CacheEntry) → cached e.l2_offset (e ∷ es) ≡ some e.data_
cached_first e es = let y : (e.l2_offset == e.l2_offset) ≡ true = ground arith in rw y refl

cached_other :
    (o : ℕ) (e : L2CacheEntry) (es : List L2CacheEntry)
    → e.l2_offset ≢ o
    → cached o (e ∷ es) ≡ cached o es
cached_other o e es ne = let n : (e.l2_offset == o) ≡ false = ground arith in rw n refl

module _ {F : Type 0} (ops : FileOps F) (l : GrowLaws ops) where
  open l use {content, Sound, fflush_lem}

  -- A file that holds the tables of `es` where the cache has them, and `f`'s tables elsewhere.
  record Flushed (q : Qcow2 F) (f : F) (es : List L2CacheEntry) (g : F) : Type 0 where
    sound : Sound g
    longer : ops.length_of f ≤ ops.length_of g
    tables : (o : ℕ) → IsTable q o → disk_table ops l q g o ≡ table ops l q f es o
    outside : (x : ℕ) → OffTables q x → content g x ≡ content f x

  Flushed-more :
      (q : Qcow2 F) (f g : F) (e : L2CacheEntry) (es : List L2CacheEntry)
      → TablesOk ops l q f
      → Sound f
      → EntryOk ops l q f e
      → All (λ d. d.l2_offset ≢ e.l2_offset) es
      → Flushed q (victim_file ops l e f) es g
      → Flushed q f (e ∷ es) g
  Flushed-more q f g e es t s ok away h =
      let (s1, longer, own, frame) = victim_lem ops l q f e t s ok in
      record {
        sound = h.sound;
        longer = omega (arith, longer, h.longer);
        tables = λ o is. elim (ℕ_discrete o e.l2_offset) [
          | yes same ↦
              subst (λ x. disk_table ops l q g x ≡ table ops l q f (e ∷ es) x) (sym same)
                (h.tables e.l2_offset ok.is_table
                  ∙ ap (λ m. either m (disk_table ops l q (victim_file ops l e f) e.l2_offset))
                      (uncached e.l2_offset es away)
                  ∙ own
                  ∙ sym (ap (λ m. either m (disk_table ops l q f e.l2_offset)) (cached_first e es)))
          | no ne ↦
              h.tables o is
              ∙ ap (either (cached o es)) (other_table ops l q f e o t s ok is ne)
              ∙ sym (
                  ap (λ m. either m (disk_table ops l q f o))
                    (cached_other o e es (λ z. ne (sym z))))
        ];
        outside = λ x off. h.outside x off ∙ frame x (off e.l2_offset ok.is_table);
      }

  flush_entries_lem :
      (q : Qcow2 F) (f : F) (es : List L2CacheEntry)
      → TablesOk ops l q f
      → Sound f
      → Distinct es
      → All (EntryOk ops l q f) es
      → (g : F) × (flush_entries ops es f ≡ (g, clean es)) × Flushed q f es g
  unfolding flush_entries
  flush_entries_lem q f [] t s d a = (
    f,
    refl,
    record { sound = s; longer = omega arith; tables = λ o is. refl; outside = λ x off. refl },
  )
  flush_entries_lem q f (e ∷ es) t s d a =
      let f1 = victim_file ops l e f in
      let (s1, longer, _, _) = victim_lem ops l q f e t s a.0 in
      let (g, eq, h) =
        flush_entries_lem q f1 es (TablesOk-longer ops l q f f1 longer t) s1 d.1
          (entries_kept ops l q f e es t s a.0 a.1 d.0) in
      let done : F × List L2CacheEntry → F × List L2CacheEntry =
        λ r. (r.0, record e { dirty = false } ∷ r.1) in
      (g, ap done eq, Flushed-more q f g e es t s a.0 d.0 h)

  -- A cache of clean tables, and an empty one, over a file that holds every table.
  module _ (q : Qcow2 F) (f g : F) (c : List L2CacheEntry) (ok : CacheOk ops l q f c)
      (h : Flushed q f c g) where
    clean_entry :
        (e : L2CacheEntry)
        → EntryOk ops l q f e
        → cached e.l2_offset c ≡ some e.data_
        → EntryOk ops l q g (record e { dirty = false })
    clean_entry e k held = record {
      is_table = k.is_table;
      full = k.full;
      fits = k.fits;
      clean = λ z. sym (
          h.tables e.l2_offset k.is_table
          ∙ ap (λ m. either m (disk_table ops l q f e.l2_offset)) held);
    }

    clean_entries :
        (es : List L2CacheEntry)
        → Distinct es
        → ((o : ℕ) (t : List ℕ) → cached o es ≡ some t → cached o c ≡ some t)
        → All (EntryOk ops l q f) es
        → All (EntryOk ops l q g) (clean es)
    clean_entries [] d sub a = tt
    clean_entries (e ∷ es) d sub a = (
      clean_entry e a.0 (sub e.l2_offset e.data_ (cached_first e es)),
      clean_entries es d.1
          (λ o t k. sub o t (elim (ℕ_discrete o e.l2_offset) [
            | yes same ↦ absurd (
                let gone = uncached e.l2_offset es d.0 in
                let z : none ≡ some t = sym gone ∙ subst (λ x. cached x es ≡ some t) same k in
                ground arith)
            | no ne ↦ cached_other o e es (λ z. ne (sym z)) ∙ k
          ]))
          a.1,
    )

    clean-Alike : Alike ops l q f c g (clean c)
    clean-Alike = record {
      ok = record {
        sound = h.sound;
        distinct = clean-Distinct c ok.distinct;
        entries = clean_entries c ok.distinct (λ o t k. k) ok.entries;
      };
      longer = h.longer;
      tables = λ o is.
          ap (λ m. either m (disk_table ops l q g o)) (cached-clean o c)
          ∙ elim (Option-cases (cached o c)) [
            | inl n ↦ rw n (h.tables o is ∙ rw n refl)
            | inr (t, s) ↦ rw s refl
          ];
      outside = h.outside;
    }

    empty-Alike : Alike ops l q f c g []
    empty-Alike = record {
      ok = record { sound = h.sound; distinct = tt; entries = tt };
      longer = h.longer;
      tables = h.tables;
      outside = h.outside;
    }

  Flushed-file :
      (q : Qcow2 F) (f g : F) (c : List L2CacheEntry)
      → Flushed q f c g
      → Flushed q f c (ops.fflush g).0
  Flushed-file q f g c h =
      let (s, longer, same) = fflush_lem g h.sound in
      record {
        sound = s;
        longer = omega (arith, h.longer, longer);
        tables =
            λ o is. disk_table_agree ops l q (ops.fflush g).0 g o (λ x _ _. same x) ∙ h.tables o is;
        outside = λ x off. same x ∙ h.outside x off;
      }

  All-clean : (es : List L2CacheEntry) → All (λ e. e.dirty ≡ false) (clean es)
  All-clean [] = tt
  All-clean (e ∷ es) = (refl, All-clean es)

  -- Flushing a sound image leaves it sound and its disk as it was, with no table marked as changed,
  -- and the file alone then holds the disk: an empty cache over it shows the same bytes.
  pub flush_lem :
      (q : Qcow2 F)
      → Valid ops l q
      → (q' : Qcow2 F) × (flush ops q ≡ (q', true))
        × Valid ops l q'
        × All (λ e. e.dirty ≡ false) q'.l2_lru
        × ((x : ℕ) → x < q.virtual_size → disk ops l q' x ≡ disk ops l q x)
        × ((x : ℕ) → x < q.virtual_size → disk_byte ops l q' q'.file [] x ≡ disk ops l q x)
  unfolding flush
  flush_lem q v =
      let (g, eq, h) =
        flush_entries_lem q q.file q.l2_lru v.tabs v.cache.sound v.cache.distinct v.cache.entries in
      let g' = (ops.fflush g).0 in
      let c = clean q.l2_lru in
      let whole = Flushed-file q q.file g q.l2_lru h in
      let kept = clean-Alike q q.file g' q.l2_lru v.cache whole in
      let fresh = empty-Alike q q.file g' q.l2_lru v.cache whole in
      let done : F × List L2CacheEntry → Qcow2 F × Bool =
        λ r. (with_cache q (ops.fflush r.0).0 r.1, true) in
      (
        with_cache q g' c,
        ap done eq,
        ImageOk-rebase ops l q g' c g' c (Alike-ImageOk ops l q q.file g' q.l2_lru c v kept),
        All-clean q.l2_lru,
        (λ x lt. Alike-disk_byte ops l q q.file g' q.l2_lru c x v kept lt),
        (λ x lt. Alike-disk_byte ops l q q.file g' q.l2_lru [] x v fresh lt),
      )
