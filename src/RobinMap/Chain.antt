-- ===== src/RobinMap/Chain.antt =====
-- The invariant of the tables of src/core/robin_map.hpp: each entry is as far from its home as its
-- header says, and from one bucket to the next the distance grows by one at most.
use native.Mathlib.Nat.{mod-lt, mod-eq_of_lt, mod-add-mod}
use braincells.Common.{
  ℕ, ◌+◌, ◌-◌, ◌%◌, ◌≡◌, ◌<◌, ◌≤◌, sym, ap, ◌∙◌, subst, false, List, length, set, if◌then◌else◌,
  ◌==◌, ==_iff, Bool-cases, inl, inr, arith, length-set, get_or-set_self, get_or-set_ne,
}
use braincells.RobinMap.Buckets.{Bucket, new, key, distance, empty}
use braincells.RobinMap.Assign.{IsSound}
use braincells.RobinMap.{at_idx, capacity, next_idx}

-- No step from a bucket.
pub no_offset : (n i : ℕ) → i < n → (i + 0) % n ≡ i
no_offset n i h = ap (λ (x : ℕ). x % n) {x = i + 0} (omega arith) ∙ mod-eq_of_lt h

module _ {V : Type 0} where
  pub lt-length : (buckets : List (Bucket V)) (i : ℕ) → i < capacity buckets → i < length buckets
  unfolding capacity
  lt-length buckets i h = omega arith

  pub at_idx-set :
      (buckets : List (Bucket V)) (i j : ℕ) (b : Bucket V)
      → i < length buckets
      → at_idx (set buckets i b) j ≡ (if i == j then b else at_idx buckets j)
  unfolding at_idx
  at_idx-set buckets i j b h = elim (Bool-cases (i == j)) [
    | inl e ↦ rw e (
        ap (λ (n : ℕ). at_idx (set buckets i b) n) (sym ((==_iff i j).0 e))
        ∙ get_or-set_self buckets i b new h)
    | inr e ↦ rw e (get_or-set_ne buckets i j b new (ground arith))
  ]

  pub capacity-set :
      (buckets : List (Bucket V)) (i : ℕ) (b : Bucket V)
      → capacity (set buckets i b) ≡ capacity buckets
  unfolding capacity
  capacity-set buckets i b = ap (λ (n : ℕ). n - 1) (length-set buckets i b)

  pub next_idx-set :
      (buckets : List (Bucket V)) (i j : ℕ) (b : Bucket V)
      → next_idx (set buckets i b) j ≡ next_idx buckets j
  unfolding next_idx
  next_idx-set buckets i j b = ap (λ (n : ℕ). (j + 1) % n) (capacity-set buckets i b)

  pub next_idx-lt :
      (buckets : List (Bucket V)) (j : ℕ)
      → 0 < capacity buckets
      → next_idx buckets j < capacity buckets
  unfolding next_idx
  next_idx-lt buckets j h = mod-lt (j + 1) h

  pub next_idx-injective :
      (buckets : List (Bucket V)) (i j : ℕ)
      → i < capacity buckets
      → j < capacity buckets
      → next_idx buckets i ≡ next_idx buckets j
      → i ≡ j
  unfolding next_idx
  next_idx-injective buckets i j h k e = grind arith

module _ (key_bits : ℕ) {V : Type 0} (hash : ℕ → ℕ) where
  -- In a table of `n` buckets the entry belongs at distance `d` into bucket `i`.
  abbrev pub IsHome : ℕ → ℕ → Bucket V → ℕ → Type 0
  IsHome n i b d = (hash (key key_bits b) % n + d - 1) % n ≡ i

  pub record IsPlaced (n i : ℕ) (b : Bucket V) : Type 0 where
    pub near : distance key_bits b ≤ n
    pub sound : IsSound b
    pub away : empty b ≡ false → 0 < distance key_bits b
    pub home : empty b ≡ false → IsHome n i b (distance key_bits b)

  abbrev pub dist_at : List (Bucket V) → ℕ → ℕ
  dist_at buckets i = distance key_bits (at_idx buckets i)

  pub record IsChain (buckets : List (Bucket V)) : Type 0 where
    pub room : 0 < capacity buckets
    pub small : length buckets < 65535
    pub placed : (i : ℕ) → i < capacity buckets → IsPlaced (capacity buckets) i (at_idx buckets i)
    pub steps :
        (i : ℕ)
        → i < capacity buckets
        → dist_at buckets (next_idx buckets i) ≤ dist_at buckets i + 1

  -- One bucket further, at a distance one larger.
  pub IsHome-next :
      (buckets : List (Bucket V)) (i : ℕ) (b : Bucket V) (d : ℕ)
      → 0 < d
      → IsHome (capacity buckets) i b d
      → IsHome (capacity buckets) (next_idx buckets i) b (d + 1)
  unfolding next_idx
  IsHome-next buckets i b d pos h =
      let n : ℕ = capacity buckets in
      let x : ℕ = hash (key key_bits b) % n + d - 1 in
      ap (λ (y : ℕ). y % n) {y = x + 1} (omega arith)
      ∙ sym (mod-add-mod x n 1)
      ∙ ap (λ (y : ℕ). (y + 1) % n) h

  -- A bucket that fits between its neighbours may take the place of another.
  pub set-IsChain :
      (buckets : List (Bucket V)) (i : ℕ) (b : Bucket V)
      → IsChain buckets
      → i < capacity buckets
      → IsPlaced (capacity buckets) i b
      → ((j : ℕ)
          → j < capacity buckets
          → next_idx buckets j ≡ i
          → distance key_bits b ≤ dist_at buckets j + 1)
      → dist_at buckets (next_idx buckets i) ≤ distance key_bits b + 1
      → IsChain (set buckets i b)
  set-IsChain buckets i b c h p before behind = record {
    room = rw (capacity-set buckets i b) c.room;
    small = rw (length-set buckets i b) c.small;
    placed = λ j lt.
        rw (capacity-set buckets i b, at_idx-set buckets i j b inside)
          (placed_at j (rw (capacity-set buckets i b) at lt));
    steps = λ j lt.
        rw
          (
            next_idx-set buckets i j b,
            at_idx-set buckets i j b inside,
            at_idx-set buckets i (next_idx buckets j) b inside,
          )
          (step_at j (rw (capacity-set buckets i b) at lt));
  }
    where
      inside : i < length buckets
      inside = lt-length buckets i h

      placed_at :
          (j : ℕ)
          → j < capacity buckets
          → IsPlaced (capacity buckets) j (if i == j then b else at_idx buckets j)
      placed_at j lt = elim (Bool-cases (i == j)) [
        | inl e ↦ rw e (subst (λ (x : ℕ). IsPlaced (capacity buckets) x b) ((==_iff i j).0 e) p)
        | inr e ↦ rw e (c.placed j lt)
      ]

      step_at :
          (j : ℕ)
          → j < capacity buckets
          → distance key_bits
              (if i == next_idx buckets j then b else at_idx buckets (next_idx buckets j))
            ≤ distance key_bits (if i == j then b else at_idx buckets j) + 1
      step_at j lt = elim (Bool-cases (i == j)) [
        | inl same ↦ elim (Bool-cases (i == next_idx buckets j)) [
          | inl e ↦ rw (same, e) (omega arith)
          | inr e ↦
              rw (same, e)
                (subst (λ (x : ℕ). dist_at buckets (next_idx buckets x) ≤ distance key_bits b + 1)
                  ((==_iff i j).0 same) behind)
        ]
        | inr other ↦ elim (Bool-cases (i == next_idx buckets j)) [
          | inl e ↦ rw (other, e) (before j lt (sym ((==_iff i (next_idx buckets j)).0 e)))
          | inr e ↦ rw (other, e) (c.steps j lt)
        ]
      ]
