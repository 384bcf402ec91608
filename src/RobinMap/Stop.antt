-- ===== src/RobinMap/Stop.antt =====
-- Where the first loop of emplace in src/core/robin_map.hpp ends when the key is not there.
use native.Mathlib.Nat.{mod-lt, mod-add-mod, mod-eq_of_lt, mod-eq-sub-mod}
use braincells.Common.{
  ℕ, zero, suc, ◌+◌, ◌-◌, ◌%◌, ◌≡◌, ◌<◌, ◌≤◌, refl, sym, ap, ◌∙◌, true, false, List, none, ltb, leb,
  ◌==◌, Bool-cases, inl, inr, arith,
}
use braincells.RobinMap.Buckets.{Bucket, key, distance, empty}
use braincells.RobinMap.Header.{distance-empty}
use braincells.RobinMap.{
  at_idx, capacity, next_idx, max_distance, to_idx, Search, found, stopped, probe, search, iterator,
}
use braincells.RobinMap.Chain.{dist_at, IsChain, no_offset, next_idx-injective}
use braincells.RobinMap.Relocate.{hole_next}

-- The way round from one bucket to another.
pub offset : (n i j : ℕ) → i < n → j < n → (e : ℕ) × (e < n) × ((i + e) % n ≡ j)
offset n i j h k = elim (Bool-cases (leb i j)) [
  | inl ahead ↦
      let le : i ≤ j = ground arith in
      (j - i, omega arith, ap (λ (x : ℕ). x % n) {y = j} (omega arith) ∙ mod-eq_of_lt k)
  | inr behind ↦
      let lt : j < i = ground arith in
      (
        j + n - i,
        omega arith,
        ap (λ (x : ℕ). x % n) {y = j + n} (omega arith)
            ∙ mod-eq-sub-mod {n = j + n} {m = n} (omega arith)
            ∙ ap (λ (x : ℕ). x % n) {y = j} (omega arith)
            ∙ mod-eq_of_lt k,
      )
]

module _ (key_bits : ℕ) {V : Type 0} (hash : ℕ → ℕ) where
  -- A bucket that the key belongs into at a distance, poorer than the key there, with an empty bucket
  -- `offset` further.
  pub record IsStop (buckets : List (Bucket V)) (k offset i d : ℕ) : Type 0 where
    pub inside : i < capacity buckets
    pub away : 0 < d
    pub home : (hash k % capacity buckets + d - 1) % capacity buckets ≡ i
    pub before :
        (q : ℕ)
        → q < capacity buckets
        → next_idx buckets q ≡ i
        → d ≤ dist_at key_bits hash buckets q + 1
    pub hole : empty (at_idx buckets ((i + offset) % capacity buckets)) ≡ true
    pub near : d + offset ≤ capacity buckets

  abbrev Stops : List (Bucket V) → ℕ → Search → Type 0
  Stops buckets k (found i) = 0 ≤ i
  Stops buckets k (stopped i d) =
      (offset : ℕ) × IsStop buckets k offset i d × (dist_at key_bits hash buckets i < d)

  next-IsStop :
      (buckets : List (Bucket V)) (k e i d : ℕ)
      → IsChain key_bits hash buckets
      → IsStop buckets k (suc e) i d
      → d ≤ dist_at key_bits hash buckets i
      → IsStop buckets k e (next_idx buckets i) (d + 1)
  unfolding next_idx
  next-IsStop buckets k e i d c s rich = record {
    inside = mod-lt (i + 1) c.room;
    away = omega arith;
    home =
        ap (λ (x : ℕ). x % capacity buckets) {y = hash k % capacity buckets + d - 1 + 1}
          (omega (arith, s.away))
        ∙ sym (mod-add-mod (hash k % capacity buckets + d - 1) (capacity buckets) 1)
        ∙ ap (λ (x : ℕ). (x + 1) % capacity buckets) s.home;
    before = λ q lt same.
        let here : q ≡ i = next_idx-injective buckets q i lt s.inside same in
        omega (arith, rich, ap (dist_at key_bits hash buckets) here);
    hole = hole_next buckets i e s.hole;
    near = omega (arith, s.near);
  }

  probe-Stops :
      (limit fuel e : ℕ) (buckets : List (Bucket V)) (k i d : ℕ)
      → IsChain key_bits hash buckets
      → capacity buckets < limit
      → e < fuel
      → IsStop buckets k e i d
      → Stops buckets k (probe key_bits limit fuel buckets k i d)
  unfolding probe
  probe-Stops limit zero e buckets k i d c wide enough s = absurd (omega arith)
  probe-Stops limit (suc fuel) zero buckets k i d c wide enough s =
      let here =
        ap (λ (n : ℕ). empty (at_idx buckets n)) (sym (no_offset (capacity buckets) i s.inside))
        ∙ s.hole in
      let none_there = distance-empty key_bits (at_idx buckets i) here in
      let not_last : (d == limit) ≡ false = ground (arith, s.near) in
      let poorer : ltb (distance key_bits (at_idx buckets i)) d ≡ true =
        ground (arith, none_there, s.away) in
      rw (not_last, poorer) (0, s, ground arith)
  probe-Stops limit (suc fuel) (suc e) buckets k i d c wide enough s =
      let not_last : (d == limit) ≡ false = ground (arith, s.near) in
      rw not_last (elim (Bool-cases (ltb (distance key_bits (at_idx buckets i)) d)) [
        | inl poorer ↦ rw poorer (suc e, s, ground arith)
        | inr richer ↦ elim (Bool-cases (key key_bits (at_idx buckets i) == k)) [
          | inl same ↦ rw (richer, same) (omega arith)
          | inr other ↦
              rw (richer, other)
                (probe-Stops limit fuel e buckets k (next_idx buckets i) (d + 1) c wide
                  (omega arith) (next-IsStop buckets k e i d c s (ground arith)))
        ]
      ])

  -- `find` does not find the key: the search stops before it has gone round, at a poorer bucket.
  pub search-IsStop :
      (buckets : List (Bucket V)) (k x : ℕ)
      → IsChain key_bits hash buckets
      → x < capacity buckets
      → empty (at_idx buckets x) ≡ true
      → iterator (search key_bits hash buckets k) ≡ none
      → (offset i d : ℕ) × (search key_bits hash buckets k ≡ stopped i d)
        × IsStop buckets k offset i d
        × (dist_at key_bits hash buckets i < d)
  unfolding search to_idx max_distance capacity iterator
  search-IsStop buckets k x c h vacant missing =
      let n : ℕ = capacity buckets in
      let start : hash k % n < n = mod-lt (hash k) c.room in
      let way = offset n (hash k % n) x start h in
      let first : IsStop buckets k way.0 (hash k % n) 1 = record {
        inside = start;
        away = omega arith;
        home = ap (λ (y : ℕ). y % n) {y = hash k % n} (omega arith) ∙ mod-eq_of_lt start;
        before = λ q lt e. omega arith;
        hole = ap (λ (y : ℕ). empty (at_idx buckets y)) way.2 ∙ vacant;
        near = omega (arith, way.1);
      } in
      ended (search key_bits hash buckets k)
        (probe-Stops (max_distance buckets) (max_distance buckets) way.0 buckets k (hash k % n) 1 c
          (ground (arith, c.small)) (ground (arith, c.small, way.1)) first)
        missing
    where
      ended :
          (s : Search)
          → Stops buckets k s
          → iterator s ≡ none
          → (offset i d : ℕ) × (s ≡ stopped i d)
            × IsStop buckets k offset i d
            × (dist_at key_bits hash buckets i < d)
      ended (found i) stops e = cc
      ended (stopped i d) stops e = (stops.0, i, d, refl, stops.1, stops.2)
