-- ===== src/RobinMap/Valid.antt =====
-- The invariant of a map of src/core/robin_map.hpp, and what its searches find in it.
use native.Mathlib.Nat.{mod-lt}
use mathlib.Core.List.{Mem, Nodup}
use braincells.Common.{
  ℕ, zero, suc, ◌+◌, ◌-◌, ◌%◌, ◌≡◌, ◌<◌, ◌≤◌, ◌⊎◌, refl, sym, ap, subst, ◌∙◌, true, false, List,
  Option, none, some, length, ltb, ◌==◌, ==_iff, Bool-cases, inl, inr, arith, map,
}
use braincells.RobinMap.Buckets.{Bucket, key, distance, empty}
use braincells.RobinMap.{
  RobinMap, at_idx, capacity, next_idx, max_distance, to_idx, probe, search, find, contains, at,
  iterator,
}
use braincells.RobinMap.Entries.{entries, not-mem-keys, at_idx-entries}
use braincells.RobinMap.Probe.{find_lem}
use braincells.RobinMap.Chain.{dist_at, IsChain, next_idx-lt, no_offset}
use braincells.RobinMap.Relocate.{next_offset}

abbrev pub keys : {V : Type 0} → List (ℕ × Option V) → List ℕ
keys l = map (λ e. e.0) l

pub option_cases : (o : Option ℕ) → (o ≡ none) ⊎ ((i : ℕ) × (o ≡ some i))
option_cases none = inl refl
option_cases (some i) = inr (i, refl)

module _ (key_bits : ℕ) {V : Type 0} (hash : ℕ → ℕ) where
  -- Some bucket is empty or holds an entry that is at home.
  abbrev pub IsLow : List (Bucket V) → Type 0
  IsLow buckets = (i : ℕ) × (i < capacity buckets) × (dist_at key_bits hash buckets i ≤ 1)

  pub record IsValid (m : RobinMap V) : Type 0 where
    pub chain : IsChain key_bits hash m.buckets
    pub low : IsLow m.buckets
    pub counted : m.occupied ≡ length (entries key_bits m.buckets)
    pub distinct : Nodup (keys (entries key_bits m.buckets))

  -- No bucket on the way to an entry is poorer than a search that gets there.
  way_rich :
      (buckets : List (Bucket V)) (r idx dist : ℕ)
      → IsChain key_bits hash buckets
      → idx < capacity buckets
      → dist + r ≤ dist_at key_bits hash buckets ((idx + r) % capacity buckets)
      → dist ≤ dist_at key_bits hash buckets idx
  way_rich buckets zero idx dist c h rich =
      omega (arith, ap (dist_at key_bits hash buckets) (no_offset (capacity buckets) idx h))
  way_rich buckets (suc r) idx dist c h rich =
      let next =
        way_rich buckets r (next_idx buckets idx) (dist + 1) c (next_idx-lt buckets idx c.room)
          (omega (arith, ap (dist_at key_bits hash buckets) (next_offset buckets idx r))) in
      omega (arith, c.steps idx h)

  -- A search that is still before an entry finds its key.
  probe_finds :
      (limit fuel r : ℕ) (buckets : List (Bucket V)) (k idx dist i : ℕ)
      → IsChain key_bits hash buckets
      → capacity buckets < limit
      → idx < capacity buckets
      → (idx + r) % capacity buckets ≡ i
      → dist + r ≤ dist_at key_bits hash buckets i
      → dist_at key_bits hash buckets i ≤ capacity buckets
      → key key_bits (at_idx buckets i) ≡ k
      → r < fuel
      → (q : ℕ) × (iterator (probe key_bits limit fuel buckets k idx dist) ≡ some q)
  unfolding probe iterator
  probe_finds limit zero r buckets k idx dist i c wide h e rich near same enough =
      absurd (omega arith)
  probe_finds limit (suc fuel) zero buckets k idx dist i c wide h e rich near same enough =
      let here : idx ≡ i = sym (no_offset (capacity buckets) idx h) ∙ e in
      let not_last : (dist == limit) ≡ false = ground arith in
      let not_poorer : ltb (distance key_bits (at_idx buckets idx)) dist ≡ false =
        ground (arith, ap (dist_at key_bits hash buckets) here) in
      let found_here : (key key_bits (at_idx buckets idx) == k) ≡ true =
        (==_iff (key key_bits (at_idx buckets idx)) k).1
          (ap (λ (n : ℕ). key key_bits (at_idx buckets n)) here ∙ same) in
      rw (not_last, not_poorer, found_here) (idx, refl)
  probe_finds limit (suc fuel) (suc r) buckets k idx dist i c wide h e rich near same enough =
      let rich_here =
        way_rich buckets (suc r) idx dist c h
          (omega (arith, ap (dist_at key_bits hash buckets) e)) in
      let not_last : (dist == limit) ≡ false = ground arith in
      let not_poorer : ltb (distance key_bits (at_idx buckets idx)) dist ≡ false = ground arith in
      rw (not_last, not_poorer)
        (elim (Bool-cases (key key_bits (at_idx buckets idx) == k)) [
          | inl found_here ↦ rw found_here (idx, refl)
          | inr other ↦ rw other (
              probe_finds limit fuel r buckets k (next_idx buckets idx) (dist + 1) i c wide
                (next_idx-lt buckets idx c.room) (sym (next_offset buckets idx r) ∙ e) (omega arith)
                near same (omega arith))
        ])

  -- The iterator is not `end()` for a key that a bucket holds.
  find_finds :
      (m : RobinMap V) (k i : ℕ)
      → IsChain key_bits hash m.buckets
      → i < capacity m.buckets
      → empty (at_idx m.buckets i) ≡ false
      → key key_bits (at_idx m.buckets i) ≡ k
      → (q : ℕ) × (find key_bits hash m k ≡ some q)
  unfolding find search to_idx max_distance capacity
  find_finds m k i c h full same =
      let place = c.placed i h in
      let n : ℕ = capacity m.buckets in
      let d : ℕ = dist_at key_bits hash m.buckets i in
      let pos = place.away full in
      let start : (hash k % n + (d - 1)) % n ≡ i =
        ap (λ (x : ℕ). x % n) {x = hash k % n + (d - 1)}
          (omega (arith, pos, ap (λ (x : ℕ). hash x % n) same))
        ∙ place.home full in
      probe_finds (max_distance m.buckets) (max_distance m.buckets) (d - 1) m.buckets k (hash k % n)
        1 i c (ground (arith, c.small)) (mod-lt (hash k) c.room) start (omega (arith, pos))
        place.near same (ground (arith, c.small, place.near))

  -- In a valid map `find`, `contains` and `at` know the keys: for a key that no entry has they give
  -- `end()`, `false` and the exception; for the others a bucket of the key, `true` and the entry's value.
  pub find-entries :
      (m : RobinMap V) (k : ℕ)
      → IsValid m
      → ((find key_bits hash m k ≡ none)
          × (contains key_bits hash m k ≡ false)
          × (at key_bits hash m k ≡ none)
          × (¬ Mem k (keys (entries key_bits m.buckets))))
        ⊎ ((i : ℕ) × (find key_bits hash m k ≡ some i)
            × (contains key_bits hash m k ≡ true)
            × (at key_bits hash m k ≡ some (at_idx m.buckets i).value)
            × Mem (k, (at_idx m.buckets i).value) (entries key_bits m.buckets))
  unfolding contains at
  find-entries m k v = elim (option_cases (find key_bits hash m k)) [
    | inl e ↦ inl (
      e,
      test e,
      value e,
      not-mem-keys key_bits m.buckets k λ i h full same.
          let q = find_finds m k i v.chain h full same in
          let clash : none ≡ some q.0 = sym e ∙ q.1 in cc,
    )
    | inr (i, e) ↦
        let r = find_lem key_bits hash m k i v.chain.room e in
        inr (
          i,
          e,
          test e,
          value e,
          subst (λ (x : ℕ). Mem (x, (at_idx m.buckets i).value) (entries key_bits m.buckets)) r.1
              (at_idx-entries key_bits m.buckets i r.0 r.2),
        )
  ]
    where
      test :
          {o : Option ℕ}
          → find key_bits hash m k ≡ o
          → contains key_bits hash m k ≡ elim o [ some idx ↦ true | none ↦ false ]
      test e = ap (λ o. elim o [ some idx ↦ true | none ↦ false ]) e

      value :
          {o : Option ℕ}
          → find key_bits hash m k ≡ o
          → at key_bits hash m k
            ≡ elim o [ some idx ↦ some (at_idx m.buckets idx).value | none ↦ none ]
      value e = ap (λ o. elim o [ some idx ↦ some (at_idx m.buckets idx).value | none ↦ none ]) e
