-- ===== src/RobinMap/Probe.antt =====
-- The search of src/core/robin_map.hpp: its fuel, and what it finds.
use native.Mathlib.Nat.{mod-lt}
use mathlib.Core.Option.{some-injective}
use braincells.Common.{
  subst, ℕ, zero, suc, ◌+◌, ◌≡◌, ◌<◌, ◌≤◌, refl, false, List, some, ltb, ◌==◌, ==_iff, Bool-cases,
  inl, inr, arith,
}
use braincells.RobinMap.Buckets.{Bucket, distance, key, empty}
use braincells.RobinMap.Header.{distance_pos}
use braincells.RobinMap.{
  RobinMap, Search, found, stopped, capacity, max_distance, next_idx, at_idx, to_idx, probe, search,
  find, iterator,
}

module _ (key_bits : ℕ) {V : Type 0} (hash : ℕ → ℕ) where
  -- The two fuels may differ once both reach the largest distance.
  pub probe_enough :
      (limit fuel fuel' : ℕ) (buckets : List (Bucket V)) (k idx dist : ℕ)
      → dist ≤ limit
      → limit < dist + fuel
      → limit < dist + fuel'
      → probe key_bits limit fuel buckets k idx dist ≡ probe key_bits limit fuel' buckets k idx dist
  unfolding probe
  probe_enough limit zero fuel' buckets k idx dist le h h' = absurd (omega arith)
  probe_enough limit (suc fuel) zero buckets k idx dist le h h' = absurd (omega arith)
  probe_enough limit (suc fuel) (suc fuel') buckets k idx dist le h h' =
      elim (Bool-cases (dist == limit)) [
        | inl last ↦ rw last refl
        | inr more ↦
            rw
              (
                more,
                probe_enough limit fuel fuel' buckets k (next_idx buckets idx) (dist + 1)
                    (ground arith) (omega arith) (omega arith),
              )
              refl
      ]

  -- What a search says of the bucket that it ends at.
  abbrev pub Holds : ℕ → List (Bucket V) → ℕ → Search → Type 0
  Holds limit buckets k (found i) =
      (i < capacity buckets)
      × (key key_bits (at_idx buckets i) ≡ k)
      × (0 < distance key_bits (at_idx buckets i))
  Holds limit buckets k (stopped i d) = (i < capacity buckets) × (0 < d) × (d ≤ limit)

  probe-Holds :
      (limit fuel : ℕ) (buckets : List (Bucket V)) (k idx dist : ℕ)
      → idx < capacity buckets
      → 0 < dist
      → dist ≤ limit
      → Holds limit buckets k (probe key_bits limit fuel buckets k idx dist)
  unfolding probe next_idx
  probe-Holds limit zero buckets k idx dist h pos le = (h, pos, le)
  probe-Holds limit (suc fuel) buckets k idx dist h pos le = elim (Bool-cases (dist == limit)) [
    | inl last ↦ rw last (h, pos, le)
    | inr more ↦ elim (Bool-cases (ltb (distance key_bits (at_idx buckets idx)) dist)) [
      | inl poorer ↦ rw (more, poorer) (h, pos, le)
      | inr richer ↦ elim (Bool-cases (key key_bits (at_idx buckets idx) == k)) [
        | inl same ↦ rw (more, richer, same) (h, (==_iff _ k).0 same, ground arith)
        | inr other ↦
            rw (more, richer, other)
              (probe-Holds limit fuel buckets k (next_idx buckets idx) (dist + 1)
                (mod-lt (idx + 1) (omega arith)) (omega arith) (ground arith))
      ]
    ]
  ]

  found_at :
      (limit : ℕ) (buckets : List (Bucket V)) (k i : ℕ) (s : Search)
      → Holds limit buckets k s
      → iterator s ≡ some i
      → Holds limit buckets k (found i)
  unfolding iterator
  found_at limit buckets k i (found j) h e =
      subst (λ (n : ℕ). Holds limit buckets k (found n)) (some-injective j i e) h
  found_at limit buckets k i (stopped j d) h e = cc

  pub search-Holds :
      (buckets : List (Bucket V)) (k : ℕ)
      → 0 < capacity buckets
      → Holds (max_distance buckets) buckets k (search key_bits hash buckets k)
  unfolding search to_idx max_distance
  search-Holds buckets k h =
      probe-Holds (max_distance buckets) (max_distance buckets) buckets k
        (to_idx key_bits hash buckets k) 1 (mod-lt (hash k) h) (omega arith) (ground arith)

  -- The iterator that `find` returns is at a bucket of the map that is not empty and holds the key.
  pub find_lem :
      (m : RobinMap V) (k i : ℕ)
      → 0 < capacity m.buckets
      → find key_bits hash m k ≡ some i
      → (i < capacity m.buckets)
        × (key key_bits (at_idx m.buckets i) ≡ k)
        × (empty (at_idx m.buckets i) ≡ false)
  unfolding find
  find_lem m k i h e =
      let r =
        found_at (max_distance m.buckets) m.buckets k i (search key_bits hash m.buckets k)
          (search-Holds m.buckets k h) e in
      (r.0, r.1, distance_pos key_bits (at_idx m.buckets i) r.2)
