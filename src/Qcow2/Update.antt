-- ===== src/Qcow2/Update.antt =====
-- An entry put into a cached table, which is then marked as changed.
use tenclaw.Base.{
  ℕ, zero, suc, ◌≡◌, refl, sym, ap, subst, ◌∙◌, ◌≢◌, inl, inr, true, false, some, List, [], ◌∷◌,
  arith, ◌==◌, if◌then◌else◌, Bool-cases, set, some_inj, All,
}
use tenclaw.Qcow2.{L2CacheEntry, update_entry}
use tenclaw.Qcow2.Cache.{cached, Distinct}

abbrev pub mark : ℕ → ℕ → L2CacheEntry → L2CacheEntry
mark j v e = record e { data_ = set e.data_ j v; dirty = true }

-- The two updates of `Write` are one.
pub update_twice :
    (o j v : ℕ) (c : List L2CacheEntry)
    → update_entry o
        (λ e. record e { dirty = true })
        (update_entry o (λ e. record e { data_ = set e.data_ j v }) c)
      ≡ update_entry o (mark j v) c
update_twice o j v [] = refl
update_twice o j v (e ∷ c) = elim (Bool-cases (e.l2_offset == o)) [
  | inl y ↦ rw y (rw y refl)
  | inr n ↦ rw n (rw n (ap (λ t. e ∷ t) (update_twice o j v c)))
]

update-away :
    (o j v x : ℕ) (c : List L2CacheEntry)
    → All (λ d. d.l2_offset ≢ x) c
    → All (λ d. d.l2_offset ≢ x) (update_entry o (mark j v) c)
update-away o j v x [] a = tt
update-away o j v x (e ∷ c) a = elim (Bool-cases (e.l2_offset == o)) [
  | inl y ↦ rw y a
  | inr n ↦ rw n (a.0, update-away o j v x c a.1)
]

pub update-Distinct :
    (o j v : ℕ) (c : List L2CacheEntry) → Distinct c → Distinct (update_entry o (mark j v) c)
update-Distinct o j v [] d = tt
update-Distinct o j v (e ∷ c) d = elim (Bool-cases (e.l2_offset == o)) [
  | inl y ↦ rw y d
  | inr n ↦ rw n (update-away o j v e.l2_offset c d.0, update-Distinct o j v c d.1)
]

pub update-cached_ne :
    (o j v x : ℕ) (c : List L2CacheEntry)
    → x ≢ o
    → cached x (update_entry o (mark j v) c) ≡ cached x c
update-cached_ne o j v x [] ne = refl
update-cached_ne o j v x (e ∷ c) ne = elim (Bool-cases (e.l2_offset == o)) [
  | inl y ↦ let miss : (e.l2_offset == x) ≡ false = ground arith in rw (y, miss) refl
  | inr n ↦
      rw n (ap (λ t. if e.l2_offset == x then some e.data_ else t) (update-cached_ne o j v x c ne))
]

pub update-cached_self :
    (o j v : ℕ) (c : List L2CacheEntry) (t : List ℕ)
    → cached o c ≡ some t
    → cached o (update_entry o (mark j v) c) ≡ some (set t j v)
update-cached_self o j v [] t h = absurd (ground arith)
update-cached_self o j v (e ∷ c) t h = elim (Bool-cases (e.l2_offset == o)) [
  | inl y ↦
      let same : e.data_ ≡ t =
        some_inj (sym (ap (λ b. if b then some e.data_ else cached o c) y) ∙ h) in
      rw y (rw y (ap (λ s. some (set s j v)) same))
  | inr n ↦
      let later : cached o c ≡ some t =
        sym (ap (λ b. if b then some e.data_ else cached o c) n) ∙ h in
      rw n (rw n (update-cached_self o j v c t later))
]

pub update-All :
    (P : L2CacheEntry → Type 0) (o j v : ℕ) (c : List L2CacheEntry)
    → ((e : L2CacheEntry) → P e → P (mark j v e))
    → All P c
    → All P (update_entry o (mark j v) c)
update-All P o j v [] h a = tt
update-All P o j v (e ∷ c) h a = elim (Bool-cases (e.l2_offset == o)) [
  | inl y ↦ rw y (h e a.0, a.1)
  | inr n ↦ rw n (a.0, update-All P o j v c h a.1)
]

pub cached-All :
    (P : ℕ → List ℕ → Type 0) (o : ℕ) (c : List L2CacheEntry) (t : List ℕ)
    → cached o c ≡ some t
    → All (λ e. P e.l2_offset e.data_) c
    → P o t
cached-All P o [] t h a = absurd (ground arith)
cached-All P o (e ∷ c) t h a = elim (Bool-cases (e.l2_offset == o)) [
  | inl y ↦
      let same : e.data_ ≡ t =
        some_inj (sym (ap (λ b. if b then some e.data_ else cached o c) y) ∙ h) in
      let key : e.l2_offset ≡ o = ground arith in
      subst (λ z. P z t) key (subst (P e.l2_offset) same a.0)
  | inr n ↦
      let later : cached o c ≡ some t =
        sym (ap (λ b. if b then some e.data_ else cached o c) n) ∙ h in
      cached-All P o c t later a.1
]

pub All-set : (P : ℕ → Type 0) (xs : List ℕ) (j v : ℕ) → P v → All P xs → All P (set xs j v)
All-set P [] j v p a = tt
All-set P (x ∷ xs) zero v p a = (p, a.1)
All-set P (x ∷ xs) (suc j) v p a = (a.0, All-set P xs j v p a.1)
