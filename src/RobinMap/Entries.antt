-- ===== src/RobinMap/Entries.antt =====
-- What a table of src/core/robin_map.hpp holds: the entries of its buckets, without the sentinel.
use mathlib.Core.List.{
  Mem, Perm, mem-append_right, mem-cons, mem-cons_self, not-mem-nil, perm_append_comm,
}
use mathlib.Core.List.Perm
use mathlib.Core.Logic.{∥∥₁_elim}
use braincells.Common.{
  ℕ, zero, suc, ◌-◌, ◌≡◌, ◌<◌, ◌≤◌, refl, sym, subst, true, false, List, [], ◌∷◌, ◌++◌, Option,
  length, get_or, set, if◌then◌else◌, Bool-cases, inl, inr, arith, length-append, append_assoc,
  length-set, ◌≢◌, map,
}
use braincells.RobinMap.Buckets.{Bucket, new, key, empty}
use braincells.RobinMap.{at_idx, capacity}

module _ (key_bits : ℕ) {V : Type 0} where
  -- A key with its value.
  abbrev pub entry : Bucket V → List (ℕ × Option V)
  entry b = if empty b then [] else (key key_bits b, b.value) ∷ []

  -- The entries of the first `n` buckets.
  unfoldable pub entries_of : ℕ → List (Bucket V) → List (ℕ × Option V)
  entries_of zero buckets = []
  entries_of (suc n) [] = []
  entries_of (suc n) (b ∷ buckets) = entry b ++ entries_of n buckets

  unfoldable pub entries : List (Bucket V) → List (ℕ × Option V)
  unfolding entries_of
  entries buckets = entries_of (capacity buckets) buckets

  exchange : (xs ys zs : List (ℕ × Option V)) → Perm (xs ++ (ys ++ zs)) (ys ++ (xs ++ zs))
  exchange xs ys zs =
      subst (λ l. Perm l (ys ++ (xs ++ zs))) (append_assoc xs ys zs)
        (subst (λ l. Perm ((xs ++ ys) ++ zs) l) (append_assoc ys xs zs)
          (Perm.append_right zs (perm_append_comm xs ys)))

  entries_of-set :
      (n : ℕ) (buckets : List (Bucket V)) (i : ℕ) (b : Bucket V)
      → i < n
      → i < length buckets
      → Perm
          (entry b ++ entries_of n buckets)
          (entry (at_idx buckets i) ++ entries_of n (set buckets i b))
  unfolding entries_of at_idx
  entries_of-set zero buckets i b h k = absurd (omega arith)
  entries_of-set (suc n) [] i b h k = absurd (omega arith)
  entries_of-set (suc n) (x ∷ buckets) zero b h k =
      exchange (entry b) (entry x) (entries_of n buckets)
  entries_of-set (suc n) (x ∷ buckets) (suc i) b h k =
      let old = entry (get_or buckets i new) in
      Perm.trans (exchange (entry b) (entry x) (entries_of n buckets)) (
        Perm.trans
          (Perm.append_left (entry x) (entries_of-set n buckets i b (omega arith) (omega arith)))
          (exchange (entry x) old (entries_of n (set buckets i b))))

  empty_bucket_of :
      (n : ℕ) (buckets : List (Bucket V))
      → n ≤ length buckets
      → length (entries_of n buckets) < n
      → (i : ℕ) × (i < n) × (empty (at_idx buckets i) ≡ true)
  unfolding entries_of at_idx
  empty_bucket_of zero buckets le h = absurd (omega arith)
  empty_bucket_of (suc n) [] le h = absurd (omega arith)
  empty_bucket_of (suc n) (x ∷ buckets) le h = elim (Bool-cases (empty x)) [
    | inl e ↦ (0, omega arith, e)
    | inr e ↦
        let one : length (entry x) ≡ 1 = rw e refl in
        let r =
          empty_bucket_of n buckets (omega arith)
            (omega (arith, length-append (entry x) (entries_of n buckets), one)) in
        (suc r.0, omega (arith, r.1), r.2)
  ]

  at_idx-entries_of :
      (n : ℕ) (buckets : List (Bucket V)) (i : ℕ)
      → i < n
      → i < length buckets
      → empty (at_idx buckets i) ≡ false
      → Mem (key key_bits (at_idx buckets i), (at_idx buckets i).value) (entries_of n buckets)
  unfolding entries_of at_idx
  at_idx-entries_of zero buckets i h k e = absurd (omega arith)
  at_idx-entries_of (suc n) [] i h k e = absurd (omega arith)
  at_idx-entries_of (suc n) (x ∷ buckets) zero h k e = rw e mem-cons_self
  at_idx-entries_of (suc n) (x ∷ buckets) (suc i) h k e =
      mem-append_right (entry x) (at_idx-entries_of n buckets i (omega arith) (omega arith) e)

  length-entries_of : (n : ℕ) (buckets : List (Bucket V)) → length (entries_of n buckets) ≤ n
  unfolding entries_of
  length-entries_of zero buckets = omega arith
  length-entries_of (suc n) [] = omega arith
  length-entries_of (suc n) (x ∷ buckets) =
      let rest = length-entries_of n buckets in
      elim (Bool-cases (empty x)) [
        | inl e ↦ rw e (omega (arith, rest))
        | inr e ↦ rw e (omega (arith, rest))
      ]

  pub length-entries : (buckets : List (Bucket V)) → length (entries buckets) ≤ capacity buckets
  unfolding entries
  length-entries buckets = length-entries_of (capacity buckets) buckets

  -- A bucket put in place of another.
  pub entries-set :
      (buckets : List (Bucket V)) (i : ℕ) (b : Bucket V)
      → i < capacity buckets
      → Perm (entry b ++ entries buckets) (entry (at_idx buckets i) ++ entries (set buckets i b))
  unfolding entries capacity
  entries-set buckets i b h =
      subst
        (λ (n : ℕ).
          Perm (entry b ++ entries_of (length buckets - 1) buckets)
            (entry (at_idx buckets i) ++ entries_of (n - 1) (set buckets i b)))
        (sym (length-set buckets i b))
        (entries_of-set (length buckets - 1) buckets i b h (omega arith))

  -- A table that is not full has an empty bucket.
  pub empty_bucket :
      (buckets : List (Bucket V))
      → length (entries buckets) < capacity buckets
      → (i : ℕ) × (i < capacity buckets) × (empty (at_idx buckets i) ≡ true)
  unfolding entries capacity
  empty_bucket buckets h = empty_bucket_of (length buckets - 1) buckets (omega arith) h

  -- A bucket that is not empty is an entry.
  pub at_idx-entries :
      (buckets : List (Bucket V)) (i : ℕ)
      → i < capacity buckets
      → empty (at_idx buckets i) ≡ false
      → Mem (key key_bits (at_idx buckets i), (at_idx buckets i).value) (entries buckets)
  unfolding entries capacity
  at_idx-entries buckets i h e = at_idx-entries_of (length buckets - 1) buckets i h (omega arith) e

  -- A key that no bucket holds is no key of the entries.
  keys_of :
      (n : ℕ) (buckets : List (Bucket V)) (k : ℕ)
      → ((i : ℕ) → i < n → empty (at_idx buckets i) ≡ false → key key_bits (at_idx buckets i) ≢ k)
      → ¬ (Mem k (map (λ e. e.0) (entries_of n buckets)))
  unfolding entries_of at_idx
  keys_of zero buckets k h m = not-mem-nil m
  keys_of (suc n) [] k h m = not-mem-nil m
  keys_of (suc n) (x ∷ buckets) k h m =
      let rest = keys_of n buckets k (λ i lt full. h (suc i) (omega arith) full) in
      elim (Bool-cases (empty x)) [
        | inl e ↦ rest (rw e at m)
        | inr e ↦
            let first : key key_bits x ≢ k = h 0 (omega arith) e in
            let here : Mem k (key key_bits x ∷ map (λ c. c.0) (entries_of n buckets)) = rw e at m in
            ∥∥₁_elim (mem-cons.0 here) (hlevel)
              λ s. elim s [ inl q ↦ first (sym q) | inr q ↦ rest q ]
      ]

  pub not-mem-keys :
      (buckets : List (Bucket V)) (k : ℕ)
      → ((i : ℕ)
          → i < capacity buckets
          → empty (at_idx buckets i) ≡ false
          → key key_bits (at_idx buckets i) ≢ k)
      → ¬ (Mem k (map (λ e. e.0) (entries buckets)))
  unfolding entries capacity
  not-mem-keys buckets k h = keys_of (length buckets - 1) buckets k h
