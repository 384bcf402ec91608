-- ===== src/RobinMap/Branches.antt =====
-- The ways in which emplace of src/core/robin_map.hpp can end.
use mathlib.Core.List.{Perm}
use braincells.Common.{
  ℕ, ◌^◌, ◌≡◌, ◌<◌, ◌⊎◌, refl, true, false, ◌∷◌, none, some, ◌==◌, ==_iff, Bool-cases, inl, inr,
  arith,
}
use braincells.RobinMap.Header.{IsKeyWidth}
use braincells.RobinMap.{
  RobinMap, capacity, Search, found, stopped, iterator, search, find, emplace, emplace_behind,
  emplace_at, emplaced, overflow,
}
use braincells.RobinMap.Entries.{entries, length-entries}
use braincells.RobinMap.Emplace.{emplace-find}
use braincells.RobinMap.Valid.{IsValid, option_cases}
use braincells.RobinMap.Insert.{emplace_lem}

module _ (key_bits : ℕ) {V : Type 0} (hash : ℕ → ℕ) (width : IsKeyWidth key_bits) where
  full_up :
      (m : RobinMap V) (k : ℕ) (v : V) (s : Search)
      → iterator s ≡ none
      → (m.occupied == capacity m.buckets) ≡ true
      → emplace_behind key_bits hash m k v s ≡ overflow
  unfolding iterator emplace_behind emplace_at
  full_up m k v (found i) e full = cc
  full_up m k v (stopped i d) e full = rw full refl

  -- `emplace` into a valid map: of a key that an entry has, it changes nothing and gives the iterator of
  -- `find`; of a new key, it throws in a full map, and else ends within the fuel of its loops with a valid
  -- map that has the old entries and the new one.
  pub emplace-entries :
      (m : RobinMap V) (k : ℕ) (v : V)
      → IsValid key_bits hash m
      → k < 2 ^ key_bits
      → ((i : ℕ) × (find key_bits hash m k ≡ some i)
          × (emplace key_bits hash m k v ≡ emplaced m i false))
        ⊎ ((find key_bits hash m k ≡ none)
            × (m.occupied ≡ capacity m.buckets)
            × (emplace key_bits hash m k v ≡ overflow))
        ⊎ ((find key_bits hash m k ≡ none)
            × (p : RobinMap V) × (i : ℕ) × (emplace key_bits hash m k v ≡ emplaced p i true)
            × IsValid key_bits hash p
            × (capacity p.buckets ≡ capacity m.buckets)
            × Perm (entries key_bits p.buckets) ((k, some v) ∷ entries key_bits m.buckets))
  unfolding find emplace
  emplace-entries m k v valid fits = elim (option_cases (find key_bits hash m k)) [
    | inr (i, e) ↦ inl (i, e, emplace-find key_bits hash m k i v e)
    | inl e ↦ elim (Bool-cases (m.occupied == capacity m.buckets)) [
      | inl full ↦
          inr
            (inl (e, (==_iff _ _).0 full, full_up m k v (search key_bits hash m.buckets k) e full))
      | inr free ↦
          let small : m.occupied < capacity m.buckets =
            ground (arith, valid.counted, length-entries key_bits m.buckets) in
          let r = emplace_lem key_bits hash width m k v valid small fits e in
          inr (inr (e, r.0, r.1, r.2, r.3, r.4, r.5))
    ]
  ]
