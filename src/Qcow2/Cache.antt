-- ===== src/Qcow2/Cache.antt =====
-- The cache of second-level tables, as a map from offsets to tables.
use tenclaw.Base.{
  ℕ, suc, ◌+◌, ◌≡◌, refl, sym, ap, subst, ◌∙◌, ◌≢◌, inl, inr, true, false, Option, none, some, List,
  [], ◌∷◌, arith, ◌==◌, if◌then◌else◌, Bool-cases, Option-cases, length, some_inj, All,
}
use tenclaw.Qcow2.{L2CacheEntry, find_entry, last_entry, but_last_entry}

-- The table that the cache holds for an offset.
abbrev pub cached : ℕ → List L2CacheEntry → Option (List ℕ)
cached offset [] = none
cached offset (e ∷ es) =
    let later = cached offset es in if e.l2_offset == offset then some e.data_ else later

-- No table is in the cache twice.
abbrev pub Distinct : List L2CacheEntry → Type 0
Distinct [] = Unit
Distinct (e ∷ es) = All (λ d. d.l2_offset ≢ e.l2_offset) es × Distinct es

pub find_none : (o : ℕ) (es : List L2CacheEntry) → find_entry o es ≡ none → cached o es ≡ none
unfolding find_entry
find_none o [] h = refl
find_none o (e ∷ es) h = elim (Option-cases (find_entry o es)) [
  | inl n ↦ let ih = find_none o es n in ground (arith, ih)
  | inr (f, s) ↦ ground (arith, s)
]

-- What a hit moves to the front.
pub record Hit (o : ℕ) (es : List L2CacheEntry) (e : L2CacheEntry) (rest : List L2CacheEntry)
    : Type 1 where
  pub key : e.l2_offset ≡ o
  pub distinct : Distinct (e ∷ rest)
  pub same : (x : ℕ) → cached x (e ∷ rest) ≡ cached x es
  pub size : length rest + 1 ≡ length es
  pub kept : (P : L2CacheEntry → Type 0) → All P es → All P (e ∷ rest)

Hit-here :
    (e : L2CacheEntry) (es : List L2CacheEntry) → Distinct (e ∷ es) → Hit e.l2_offset (e ∷ es) e es
Hit-here e es d = record {
  key = refl;
  distinct = d;
  same = λ x. refl;
  size = omega arith;
  kept = λ P a. a;
}

swap-cached :
    (a b : L2CacheEntry) (es : List L2CacheEntry) (x : ℕ)
    → a.l2_offset ≢ b.l2_offset
    → cached x (a ∷ b ∷ es) ≡ cached x (b ∷ a ∷ es)
swap-cached a b es x ne = ground arith

Hit-later :
    (o : ℕ) (d e : L2CacheEntry) (es rest : List L2CacheEntry)
    → d.l2_offset ≢ o
    → Distinct (d ∷ es)
    → Hit o es e rest
    → Hit o (d ∷ es) e (d ∷ rest)
Hit-later o d e es rest ne dist h =
    let moved = h.kept (λ c. c.l2_offset ≢ d.l2_offset) dist.0 in
    record {
      key = h.key;
      distinct = (((λ q. moved.0 (sym q)), h.distinct.0), (moved.1, h.distinct.1));
      same = λ x.
          swap-cached e d rest x moved.0
          ∙ ap (λ c. if d.l2_offset == x then some d.data_ else c) (h.same x);
      size = omega (arith, h.size);
      kept = λ P a. let k = h.kept P a.1 in (k.0, (a.0, k.1));
    }

find_here :
    (o : ℕ) (c : L2CacheEntry) (es : List L2CacheEntry)
    → (c.l2_offset == o) ≡ true
    → find_entry o (c ∷ es) ≡ some (c, es)
unfolding find_entry
find_here o c es h = rw h refl

find_later :
    (o : ℕ) (c : L2CacheEntry) (es : List L2CacheEntry) (f : L2CacheEntry × List L2CacheEntry)
    → (c.l2_offset == o) ≡ false
    → find_entry o es ≡ some f
    → find_entry o (c ∷ es) ≡ some (f.0, c ∷ f.1)
unfolding find_entry
find_later o c es f h k = rw (h, k) refl

find_absent :
    (o : ℕ) (c : L2CacheEntry) (es : List L2CacheEntry)
    → (c.l2_offset == o) ≡ false
    → find_entry o es ≡ none
    → find_entry o (c ∷ es) ≡ none
unfolding find_entry
find_absent o c es h k = rw (h, k) refl

pub find_some :
    (o : ℕ) (es : List L2CacheEntry) (e : L2CacheEntry) (rest : List L2CacheEntry)
    → find_entry o es ≡ some (e, rest)
    → Distinct es
    → Hit o es e rest
unfolding find_entry
find_some o [] e rest h d = absurd (ground arith)
find_some o (c ∷ es) e rest h d = elim (Bool-cases (c.l2_offset == o)) [
  | inl y ↦
      subst (λ r. Hit o (c ∷ es) r.0 r.1) (some_inj (sym (find_here o c es y) ∙ h))
        (subst (λ x. Hit x (c ∷ es) c es) (ground arith) (Hit-here c es d))
  | inr n ↦ elim (Option-cases (find_entry o es)) [
    | inl z ↦ absurd (ground (arith, sym (find_absent o c es n z) ∙ h))
    | inr (f, s) ↦
        subst (λ r. Hit o (c ∷ es) r.0 r.1) (some_inj (sym (find_later o c es f n s) ∙ h))
          (Hit-later o c f.0 es f.1 (ground arith) d (find_some o es f.0 f.1 s d.1))
  ]
]

-- Eviction of the last entry.
pub last_ok :
    (P : L2CacheEntry → Type 0) (e : L2CacheEntry) (es : List L2CacheEntry)
    → All P (e ∷ es)
    → P (last_entry e es)
last_ok P e [] h = h.0
last_ok P e (d ∷ es) h = last_ok P d es h.1

pub but_last_ok :
    (P : L2CacheEntry → Type 0) (es : List L2CacheEntry) → All P es → All P (but_last_entry es)
but_last_ok P [] h = tt
but_last_ok P (e ∷ []) h = tt
but_last_ok P (e ∷ d ∷ es) h = (h.0, but_last_ok P (d ∷ es) h.1)

pub but_last-Distinct : (es : List L2CacheEntry) → Distinct es → Distinct (but_last_entry es)
but_last-Distinct [] h = tt
but_last-Distinct (e ∷ []) h = tt
but_last-Distinct (e ∷ d ∷ es) h =
    (but_last_ok (λ c. c.l2_offset ≢ e.l2_offset) (d ∷ es) h.0, but_last-Distinct (d ∷ es) h.1)

pub length-but_last :
    (e : L2CacheEntry) (es : List L2CacheEntry) → length (but_last_entry (e ∷ es)) ≡ length es
length-but_last e [] = refl
length-but_last e (d ∷ es) = ap suc (length-but_last d es)

cached_absent :
    (o : ℕ) (es : List L2CacheEntry) → All (λ d. d.l2_offset ≢ o) es → cached o es ≡ none
cached_absent o [] h = refl
cached_absent o (e ∷ es) h = let ih = cached_absent o es h.1 in ground (arith, ih)

pub cached_last :
    (e : L2CacheEntry) (es : List L2CacheEntry)
    → Distinct (e ∷ es)
    → cached (last_entry e es).l2_offset (e ∷ es) ≡ some (last_entry e es).data_
cached_last e [] h = ground arith
cached_last e (d ∷ es) h =
    let ih = cached_last d es h.1 in
    let ne : (last_entry d es).l2_offset ≢ e.l2_offset =
      last_ok (λ c. c.l2_offset ≢ e.l2_offset) d es h.0 in
    ground (arith, ih, ne)

pub cached_rest :
    (o : ℕ) (e : L2CacheEntry) (es : List L2CacheEntry)
    → o ≢ (last_entry e es).l2_offset
    → cached o (but_last_entry (e ∷ es)) ≡ cached o (e ∷ es)
cached_rest o e [] h = ground arith
cached_rest o e (d ∷ es) h = let ih = cached_rest o d es h in rw ih refl

pub cached_evicted :
    (e : L2CacheEntry) (es : List L2CacheEntry)
    → Distinct (e ∷ es)
    → cached (last_entry e es).l2_offset (but_last_entry (e ∷ es)) ≡ none
cached_evicted e [] h = refl
cached_evicted e (d ∷ es) h =
    let ih = cached_evicted d es h.1 in
    let ne : (last_entry d es).l2_offset ≢ e.l2_offset =
      last_ok (λ c. c.l2_offset ≢ e.l2_offset) d es h.0 in
    ground (arith, ih, ne)
