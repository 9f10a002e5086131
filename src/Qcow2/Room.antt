-- ===== src/Qcow2/Room.antt =====
-- The room that an image has to grow: new clusters go past everything that it has.
use tenclaw.Base.{
  ℕ, zero, suc, ◌+◌, ◌*◌, ◌%◌, ◌^◌, ◌≤◌, ◌<◌, ◌≡◌, refl, sym, ap, subst, ◌∙◌, ◌≢◌, ◌⊎◌, true, false,
  List, arith, ◌==◌, if◌then◌else◌, length,
}
use native.Mathlib.Nat.{add-mul, one-mul}
use native.Mathlib.Decide.{ℕ_discrete}
use tenclaw.Qcow2.{Qcow2, L2CacheEntry, cluster_size, l2_entries, offset_of}
use tenclaw.Qcow2.Laws.{with_cache, l1_at, IsTable}

-- How many of the first `n` values are 0.
abbrev pub zeros : (ℕ → ℕ) → ℕ → ℕ
zeros e zero = 0
zeros e (suc n) = if e n == 0 then suc (zeros e n) else zeros e n

pub zeros_agree : (e e' : ℕ → ℕ) (n : ℕ) → ((k : ℕ) → k < n → e' k ≡ e k) → zeros e' n ≡ zeros e n
zeros_agree e e' zero h = refl
zeros_agree e e' (suc n) h =
    let now = h n (omega arith) in
    let before = zeros_agree e e' n (λ k lt. h k (omega arith)) in rw (now, before) refl

pub zeros_some : (e : ℕ → ℕ) (k n : ℕ) → k < n → e k ≡ 0 → 0 < zeros e n
zeros_some e k zero lt z = absurd (omega arith)
zeros_some e k (suc n) lt z = elim (ℕ_discrete k n) [
  | yes here ↦
      let a : (e n == 0) ≡ true = let t = ap e (sym here) ∙ z in ground arith in rw a (omega arith)
  | no later ↦ let before = zeros_some e k n (ground arith) z in ground (arith, before)
]

-- One value that was 0 and is no longer.
pub zeros_fewer :
    (e e' : ℕ → ℕ) (k n : ℕ)
    → k < n
    → e k ≡ 0
    → e' k ≢ 0
    → ((m : ℕ) → m < n → m ≢ k → e' m ≡ e m)
    → zeros e' n + 1 ≡ zeros e n
zeros_fewer e e' k zero lt old new same = absurd (omega arith)
zeros_fewer e e' k (suc n) lt old new same = elim (ℕ_discrete k n) [
  | yes here ↦
      let a : (e n == 0) ≡ true = let z = ap e (sym here) ∙ old in ground arith in
      let b : (e' n == 0) ≡ false = let z : e' n ≢ 0 = λ t. new (ap e' here ∙ t) in ground arith in
      let before = zeros_agree e e' n (λ m h. same m (omega arith) (λ z. ground arith)) in
      rw (a, b) (omega (arith, before))
  | no later ↦
      let now : e' n ≡ e n = same n (omega arith) (λ z. later (sym z)) in
      let before = zeros_fewer e e' k n (ground arith) old new (λ m h. same m (omega arith)) in
      rw now (ground (arith, before))
]

-- A cluster that is taken from the budget.
pub spend :
    (start c z z' bound : ℕ) → z' + 1 ≡ z → start + z * c ≤ bound → start + c + z' * c ≤ bound
spend start c z z' bound e h =
    let split : z * c ≡ z' * c + c =
      ap (λ n. n * c) (sym e) ∙ add-mul z' 1 c ∙ ap (λ n. z' * c + n) (one-mul c) in
    omega arith

-- The range of the first-level table does not meet a cluster.
abbrev pub OffFirst : {F : Type 0} → Qcow2 F → ℕ → Type 0
OffFirst q o = (q.l1_table_offset + 8 * q.l1_size ≤ o) ⊎ (o + cluster_size q ≤ q.l1_table_offset)

-- Where the next cluster goes, past the tables and the clusters, which the entries `e` name, and with
-- room below 2 ^ 56 for all that are missing; no two entries of the first level share a table.
pub record RoomOk {F : Type 0} (q : Qcow2 F) (e : ℕ → ℕ) : Type 0 where
  pub l1_full : length q.l1_table ≡ q.l1_size
  pub past_header : 512 ≤ q.file_end
  pub aligned : q.file_end % 512 ≡ 0
  pub budget :
      q.file_end + (zeros e (q.l1_size * l2_entries q) + zeros (l1_at q) q.l1_size) * cluster_size q
      ≤ 2 ^ 56
  pub l1_below : q.l1_table_offset + 8 * q.l1_size ≤ q.file_end
  pub tables_below : (o : ℕ) → IsTable q o → o + cluster_size q ≤ q.file_end
  pub tables_off : (o : ℕ) → IsTable q o → OffFirst q o
  pub data_below :
      (k : ℕ)
      → k < q.l1_size * l2_entries q
      → e k ≢ 0
      → offset_of (e k) + cluster_size q ≤ q.file_end
  pub data_off : (k : ℕ) → k < q.l1_size * l2_entries q → e k ≢ 0 → OffFirst q (offset_of (e k))
  pub one_each :
      (i j : ℕ)
      → i < q.l1_size
      → j < q.l1_size
      → l1_at q i ≢ 0
      → l1_at q j ≢ 0
      → offset_of (l1_at q i) ≡ offset_of (l1_at q j)
      → i ≡ j

module _ {F : Type 0} (q : Qcow2 F) where
  pub RoomOk-same :
      (g : F) (d : List L2CacheEntry) (e e' : ℕ → ℕ)
      → ((k : ℕ) → k < q.l1_size * l2_entries q → e' k ≡ e k)
      → RoomOk q e
      → RoomOk (with_cache q g d) e'
  RoomOk-same g d e e' same r = record {
    l1_full = r.l1_full;
    past_header = r.past_header;
    aligned = r.aligned;
    budget =
        subst (λ z. q.file_end + (z + zeros (l1_at q) q.l1_size) * cluster_size q ≤ 2 ^ 56)
          (sym (zeros_agree e e' (q.l1_size * l2_entries q) same)) r.budget;
    l1_below = r.l1_below;
    tables_below = r.tables_below;
    tables_off = r.tables_off;
    data_below = λ k h n.
        subst (λ z. offset_of z + cluster_size q ≤ q.file_end) (sym (same k h))
          (r.data_below k h (λ z. n (same k h ∙ z)));
    data_off = λ k h n.
        subst (λ z. OffFirst q (offset_of z)) (sym (same k h))
          (r.data_off k h (λ z. n (same k h ∙ z)));
    one_each = r.one_each;
  }
