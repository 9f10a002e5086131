-- ===== src/Qcow2/Laws.antt =====
-- What the file does, and the tables and the map that an image stands for.
use tenclaw.Base.{
  ℕ, ◌+◌, ◌*◌, ◌^◌, ◌≤◌, ◌<◌, ◌≡◌, refl, ◌∙◌, ◌≢◌, ◌⊎◌, false, Option, none, some, List, arith,
  length, get_or, All,
}
use tenclaw.Memory.{load_bytes, store_bytes}
use tenclaw.RawImage.{FileOps}
use tenclaw.Qcow2.{Qcow2, L2CacheEntry, l2_entries, offset_of, decode_table}
use tenclaw.Qcow2.Cache.{cached, Distinct}

-- A file that grows: a read delivers the bytes that exist; a write changes its own bytes alone, and
-- the file then reaches at least to its end. Flushing it keeps what it holds.
pub record GrowLaws {F : Type 0} (ops : FileOps F) : Type 1 where
  pub content : F → ℕ → ℕ
  pub Sound : F → Type 0
  pub content_bytes : (f : F) (x : ℕ) → Sound f → content f x < 2 ^ 8
  pub fread_lem :
      (f : F) (offset len : ℕ)
      → Sound f
      → offset + len ≤ ops.length_of f
      → ops.fread f offset len ≡ load_bytes (content f) offset len
  pub fwrite_lem :
      (f : F) (offset : ℕ) (bytes : List ℕ)
      → Sound f
      → offset + length bytes < 2 ^ 63
      → (Sound (ops.fwrite f offset bytes).0
          × ((ops.fwrite f offset bytes).1 ≡ length bytes)
          × (ops.length_of f ≤ ops.length_of (ops.fwrite f offset bytes).0)
          × (0 < length bytes → offset + length bytes ≤ ops.length_of (ops.fwrite f offset bytes).0)
          × ((x : ℕ)
              → content (ops.fwrite f offset bytes).0 x ≡ store_bytes (content f) offset bytes x))
  pub fflush_lem :
      (f : F)
      → Sound f
      → (Sound (ops.fflush f).0
          × (ops.length_of f ≤ ops.length_of (ops.fflush f).0)
          × ((x : ℕ) → content (ops.fflush f).0 x ≡ content f x))

-- The same image with another file and cache.
abbrev pub with_cache : {F : Type 0} → Qcow2 F → F → List L2CacheEntry → Qcow2 F
with_cache q f c = record q { file = f; l2_lru = c }

abbrev pub l1_at : {F : Type 0} → Qcow2 F → ℕ → ℕ
l1_at q i = get_or q.l1_table i 0

-- The offset of a second-level table.
abbrev pub IsTable : {F : Type 0} → Qcow2 F → ℕ → Type 0
IsTable q o = (i : ℕ) × (i < q.l1_size) × (l1_at q i ≢ 0) × (o ≡ offset_of (l1_at q i))

-- Two ranges of `n` bytes do not meet.
abbrev pub Apart : ℕ → ℕ → ℕ → Type 0
Apart n a b = (a + n ≤ b) ⊎ (b + n ≤ a)

-- A byte of the file outside every table.
abbrev pub OffTables : {F : Type 0} → Qcow2 F → ℕ → Type 0
OffTables q x = (o : ℕ) → IsTable q o → (x < o) ⊎ (o + 8 * l2_entries q ≤ x)

abbrev pub either : Option (List ℕ) → List ℕ → List ℕ
either (some t) d = t
either none d = d

module _ {F : Type 0} (ops : FileOps F) (l : GrowLaws ops) where
  open l use {content, Sound}

  abbrev pub disk_table : Qcow2 F → F → ℕ → List ℕ
  disk_table q f o = decode_table (l2_entries q) (load_bytes (content f) o (8 * l2_entries q))

  -- The table at an offset, wherever it is up to date.
  abbrev pub table : Qcow2 F → F → List L2CacheEntry → ℕ → List ℕ
  table q f c o = either (cached o c) (disk_table q f o)

  pub record EntryOk (q : Qcow2 F) (f : F) (e : L2CacheEntry) : Type 0 where
    pub is_table : IsTable q e.l2_offset
    pub full : length e.data_ ≡ l2_entries q
    pub fits : All (λ v. v < 2 ^ 64) e.data_
    pub clean : e.dirty ≡ false → e.data_ ≡ disk_table q f e.l2_offset

  pub record CacheOk (q : Qcow2 F) (f : F) (c : List L2CacheEntry) : Type 0 where
    pub sound : Sound f
    pub distinct : Distinct c
    pub entries : All (EntryOk q f) c

  -- The second-level tables lie in the file and do not overlap.
  pub record TablesOk (q : Qcow2 F) (f : F) : Type 0 where
    pub inside :
        (o : ℕ)
        → IsTable q o
        → (o + 8 * l2_entries q ≤ ops.length_of f) × (o + 8 * l2_entries q < 2 ^ 63)
    pub apart : (o p : ℕ) → IsTable q o → IsTable q p → o ≢ p → Apart (8 * l2_entries q) o p

  -- A file and a cache after work that leaves every table, and every byte outside the tables, as they were.
  pub record Alike (q : Qcow2 F) (f : F) (c : List L2CacheEntry) (f' : F) (c' : List L2CacheEntry)
      : Type 0 where
    pub ok : CacheOk q f' c'
    pub longer : ops.length_of f ≤ ops.length_of f'
    pub tables : (o : ℕ) → IsTable q o → table q f' c' o ≡ table q f c o
    pub outside : (x : ℕ) → OffTables q x → content f' x ≡ content f x

  pub Alike-refl : (q : Qcow2 F) (f : F) (c : List L2CacheEntry) → CacheOk q f c → Alike q f c f c
  Alike-refl q f c ok = record {
    ok = ok;
    longer = omega arith;
    tables = λ o is. refl;
    outside = λ x off. refl;
  }

  pub Alike-trans :
      (q : Qcow2 F) (f g h : F) (c d e : List L2CacheEntry)
      → Alike q f c g d
      → Alike q g d h e
      → Alike q f c h e
  Alike-trans q f g h c d e x y = record {
    ok = y.ok;
    longer = omega (arith, x.longer, y.longer);
    tables = λ o is. y.tables o is ∙ x.tables o is;
    outside = λ a off. y.outside a off ∙ x.outside a off;
  }

  pub TablesOk-longer :
      (q : Qcow2 F) (f g : F) → ops.length_of f ≤ ops.length_of g → TablesOk q f → TablesOk q g
  TablesOk-longer q f g h t = record {
    inside = λ o is. let (a, b) = t.inside o is in (omega arith, b);
    apart = t.apart;
  }
