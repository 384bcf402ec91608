-- ===== src/RobinMap/Settle.antt =====
-- The second loop of emplace in src/core/robin_map.hpp, from the bucket in hand to an empty one.
use mathlib.Core.List.{Perm}
use mathlib.Core.List.Perm
use braincells.Common.{
  ℕ, zero, suc, ◌+◌, ◌%◌, ◌≡◌, ◌<◌, ◌≤◌, refl, sym, ap, ◌∙◌, subst, true, List, ◌++◌, Option, some,
  set, ltb, ◌==◌, ==_iff, Bool-cases, inl, inr, arith,
}
use braincells.RobinMap.Buckets.{Bucket, empty, set_distance}
use braincells.RobinMap.Header.{IsKeyWidth, distance-empty, set_distance_lem}
use braincells.RobinMap.{at_idx, capacity, next_idx, relocate}
use braincells.RobinMap.Entries.{entry, entries, entries-set}
use braincells.RobinMap.Chain.{dist_at, IsChain, capacity-set, no_offset, at_idx-set, lt-length}
use braincells.RobinMap.Relocate.{
  entry-set_distance, set_carried, IsCarried, pass-IsCarried, displace-IsCarried, relocate-suc,
  capacity-lt, next_offset, offset_ne,
}

module _ (key_bits : ℕ) {V : Type 0} (hash : ℕ → ℕ) (width : IsKeyWidth key_bits) where
  -- What a run of the loop from a table and a bucket in hand comes to; `y` is a bucket behind the empty one.
  abbrev pub Relocates : List (Bucket V) → Bucket V → ℕ → Option (List (Bucket V) × ℕ) → Type 0
  Relocates buckets b y r =
      (p : List (Bucket V) × ℕ) × (r ≡ some p)
      × IsChain key_bits hash p.0
      × (capacity p.0 ≡ capacity buckets)
      × Perm (entries key_bits p.0) (entry key_bits b ++ entries key_bits buckets)
      × (dist_at key_bits hash buckets y ≤ 1 → dist_at key_bits hash p.0 y ≤ 1)

  -- The entries once a bucket in hand is put down.
  entries_put :
      (buckets : List (Bucket V)) (j : ℕ) (b : Bucket V) (i c : ℕ)
      → IsCarried key_bits hash width buckets j b i c
      → Perm
          (entry key_bits (at_idx buckets i)
            ++ entries key_bits (set buckets i (set_distance key_bits b c)))
          (entry key_bits b ++ entries key_bits buckets)
  entries_put buckets j b i c r =
      subst
        (λ l.
          Perm
            (entry key_bits (at_idx buckets i)
              ++ entries key_bits (set buckets i (set_distance key_bits b c)))
            (l ++ entries key_bits buckets))
        (entry-set_distance key_bits hash width b c r.full r.away
          (omega (arith, r.near, capacity-lt buckets r.chain.small)))
        (Perm.symm (entries-set key_bits buckets i (set_distance key_bits b c) r.inside))

  -- A bucket put down leaves the one behind the empty bucket near its home.
  low_put :
      (buckets : List (Bucket V)) (j : ℕ) (b : Bucket V) (i c y : ℕ)
      → IsCarried key_bits hash width buckets j b i c
      → (i + suc j) % capacity buckets ≡ y
      → dist_at key_bits hash buckets y ≤ 1
      → dist_at key_bits hash (set buckets i (set_distance key_bits b c)) y ≤ 1
  low_put buckets j b i c y r e low =
      let placed = set_distance key_bits b c in
      let small = capacity-lt buckets r.chain.small in
      rw (at_idx-set buckets i y placed (lt-length buckets i r.inside))
        (elim (Bool-cases (i == y)) [
          | inl same ↦
              let once : c ≤ 1 = elim (Bool-cases (ltb (suc j) (capacity buckets))) [
                | inl less ↦ absurd (
                    offset_ne (capacity buckets) i (suc j) r.inside (omega arith) (ground arith)
                      (e ∙ sym ((==_iff i y).0 same)))
                | inr round ↦ ground (arith, r.near)
              ] in
              rw same (
                omega
                  (arith, once, (set_distance_lem key_bits b c width (omega (arith, r.near))).0))
          | inr other ↦ rw other low
        ])

  settle :
      (buckets : List (Bucket V)) (j : ℕ) (b : Bucket V) (i c y : ℕ)
      → IsCarried key_bits hash width buckets j b i c
      → empty (at_idx buckets i) ≡ true
      → (i + suc j) % capacity buckets ≡ y
      → Relocates buckets b y (some (set buckets i (set_distance key_bits b c), i))
  settle buckets j b i c y r vacant e = (
    (set buckets i (set_distance key_bits b c), i),
    refl,
    set_carried key_bits hash width buckets j b i c r
        (omega (arith, r.away, distance-empty key_bits (at_idx buckets i) vacant)),
    capacity-set buckets i (set_distance key_bits b c),
    rw vacant at (entries_put buckets j b i c r),
    low_put buckets j b i c y r e,
  )

  at_hole :
      (buckets : List (Bucket V)) (b : Bucket V) (i c : ℕ)
      → IsCarried key_bits hash width buckets 0 b i c
      → empty (at_idx buckets i) ≡ true
  at_hole buckets b i c r =
      ap (λ (n : ℕ). empty (at_idx buckets n)) (sym (no_offset (capacity buckets) i r.inside))
      ∙ r.hole

  -- The loop within its fuel: it ends at an empty bucket.
  pub relocate_lem :
      (j fuel : ℕ) (buckets : List (Bucket V)) (b : Bucket V) (i c y : ℕ)
      → IsCarried key_bits hash width buckets j b i c
      → j < fuel
      → (i + suc j) % capacity buckets ≡ y
      → Relocates buckets b y (relocate key_bits hash fuel buckets b i c)
  relocate_lem j zero buckets b i c y r h e = absurd (omega arith)
  relocate_lem zero (suc fuel) buckets b i c y r h e =
      let vacant = at_hole buckets b i c r in
      rw
        (
          relocate-suc key_bits hash width fuel buckets b i c r.full r.sound
              (r.chain.placed i r.inside).sound,
          vacant,
        )
        (settle buckets 0 b i c y r vacant e)
  relocate_lem (suc j) (suc fuel) buckets b i c y r h e =
      rw
        (relocate-suc key_bits hash width fuel buckets b i c r.full r.sound
          (r.chain.placed i r.inside).sound)
        (elim (Bool-cases (empty (at_idx buckets i))) [
          | inl vacant ↦ rw vacant (settle buckets (suc j) b i c y r vacant e)
          | inr taken ↦ elim (Bool-cases (ltb (dist_at key_bits hash buckets i) c)) [
            | inl poorer ↦
                let placed = set buckets i (set_distance key_bits b c) in
                let wide = capacity-set buckets i (set_distance key_bits b c) in
                let behind : (next_idx buckets i + suc j) % capacity placed ≡ y =
                  ap (λ (n : ℕ). (next_idx buckets i + suc j) % n) wide
                  ∙ sym (next_offset buckets i (suc j))
                  ∙ e in
                let rest =
                  relocate_lem j fuel placed (at_idx buckets i) (next_idx buckets i)
                    (dist_at key_bits hash buckets i + 1) y
                    (displace-IsCarried key_bits hash width buckets j b i c r taken (ground arith))
                    (omega arith) behind in
                rw (taken, poorer)
                  (
                    rest.0,
                    rest.1,
                    rest.2,
                    rest.3 ∙ wide,
                    Perm.trans rest.4 (entries_put buckets (suc j) b i c r),
                    λ low. rest.5 (low_put buckets (suc j) b i c y r e low),
                  )
            | inr richer ↦
                rw (taken, richer)
                  (relocate_lem j fuel buckets b (next_idx buckets i) (c + 1) y
                    (pass-IsCarried key_bits hash width buckets j b i c r (ground arith))
                    (omega arith) (sym (next_offset buckets i (suc j)) ∙ e))
          ]
        ])
