-- ===== src/Qcow2/Rebase.antt =====
-- What is said of an image does not depend on the file and cache that it has at the time.
use tenclaw.Base.{ℕ, List, [], ◌∷◌, All}
use tenclaw.RawImage.{FileOps}
use tenclaw.Qcow2.{Qcow2, L2CacheEntry}
use tenclaw.Qcow2.Laws.{GrowLaws, with_cache, CacheOk, TablesOk, Alike, EntryOk}
use tenclaw.Qcow2.Image.{ImageOk, DataOk}

module _ {F : Type 0} (ops : FileOps F) (l : GrowLaws ops) (q : Qcow2 F) (g : F)
    (d : List L2CacheEntry) where
  EntryOk-rebase :
      (f : F) (e : L2CacheEntry) → EntryOk ops l q f e → EntryOk ops l (with_cache q g d) f e
  EntryOk-rebase f e h = record {
    is_table = h.is_table;
    full = h.full;
    fits = h.fits;
    clean = h.clean;
  }

  entries-rebase :
      (f : F) (c : List L2CacheEntry)
      → All (EntryOk ops l q f) c
      → All (EntryOk ops l (with_cache q g d) f) c
  entries-rebase f [] a = a
  entries-rebase f (e ∷ es) a = (EntryOk-rebase f e a.0, entries-rebase f es a.1)

  pub CacheOk-rebase :
      (f : F) (c : List L2CacheEntry) → CacheOk ops l q f c → CacheOk ops l (with_cache q g d) f c
  CacheOk-rebase f c h = record {
    sound = h.sound;
    distinct = h.distinct;
    entries = entries-rebase f c h.entries;
  }

  pub TablesOk-rebase : (f : F) → TablesOk ops l q f → TablesOk ops l (with_cache q g d) f
  TablesOk-rebase f t = record { inside = t.inside; apart = t.apart }

  pub Alike-rebase :
      (f f' : F) (c c' : List L2CacheEntry)
      → Alike ops l q f c f' c'
      → Alike ops l (with_cache q g d) f c f' c'
  Alike-rebase f f' c c' a = record {
    ok = CacheOk-rebase f' c' a.ok;
    longer = a.longer;
    tables = a.tables;
    outside = a.outside;
  }

  DataOk-rebase : (f : F) (e : ℕ) → DataOk ops l q f e → DataOk ops l (with_cache q g d) f e
  DataOk-rebase f e h = record {
    plain = h.plain;
    placed = h.placed;
    inside = h.inside;
    off_tables = h.off_tables;
  }

  pub ImageOk-rebase :
      (f : F) (c : List L2CacheEntry) → ImageOk ops l q f c → ImageOk ops l (with_cache q g d) f c
  ImageOk-rebase f c v = record {
    cache = CacheOk-rebase f c v.cache;
    tabs = TablesOk-rebase f v.tabs;
    bits_from = v.bits_from;
    bits_to = v.bits_to;
    l1_fits = v.l1_fits;
    size_fits = v.size_fits;
    covers = v.covers;
    data_ok = λ k h ne. DataOk-rebase f _ (v.data_ok k h ne);
    data_apart = v.data_apart;
  }
