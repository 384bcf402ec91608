-- ===== src/RobinMap/Close.antt =====
-- The loop of erase in src/core/robin_map.hpp, from the gap to the bucket where it ends.
use mathlib.Core.List.{Perm}
use mathlib.Core.List.Perm
use braincells.Common.{
  ℕ, zero, suc, ◌+◌, ◌%◌, ◌≡◌, ◌<◌, ◌≤◌, refl, ap, ◌∙◌, true, false, List, ltb, ◌==◌, ==_iff,
  Bool-cases, inl, inr, arith,
}
use braincells.RobinMap.Buckets.{Bucket, distance, assign}
use braincells.RobinMap.Header.{IsKeyWidth, distance_pos}
use braincells.RobinMap.{at_idx, capacity, next_idx, shift_back}
use braincells.RobinMap.Entries.{entries}
use braincells.RobinMap.Chain.{dist_at, IsChain, next_idx-lt}
use braincells.RobinMap.Gap.{IsGap}
use braincells.RobinMap.Shift.{
  shifted, shifted-IsGap, entries-shifted, capacity-shifted, next_idx-shifted,
}
use braincells.RobinMap.Valid.{IsLow}

module _ (key_bits : ℕ) {V : Type 0} (hash : ℕ → ℕ) (width : IsKeyWidth key_bits) where
  -- What the loop comes to.
  abbrev pub Closes : List (Bucket V) → List (Bucket V) → Type 0
  Closes buckets q =
      IsChain key_bits hash q
      × IsLow key_bits hash q
      × (capacity q ≡ capacity buckets)
      × Perm (entries key_bits q) (entries key_bits buckets)

  shift_back_near :
      (fuel : ℕ) (buckets : List (Bucket V)) (idx : ℕ)
      → dist_at key_bits hash buckets (next_idx buckets idx) ≤ 1
      → shift_back key_bits hash (suc fuel) buckets idx (next_idx buckets idx) ≡ buckets
  unfolding shift_back
  shift_back_near fuel buckets idx near =
      let stop : ltb 1 (distance key_bits (at_idx buckets (next_idx buckets idx))) ≡ false =
        ground arith in
      rw stop refl

  shift_back_far :
      (fuel : ℕ) (buckets : List (Bucket V)) (idx : ℕ)
      → 1 < dist_at key_bits hash buckets (next_idx buckets idx)
      → shift_back key_bits hash (suc fuel) buckets idx (next_idx buckets idx)
        ≡ shift_back key_bits hash fuel
            (shifted key_bits hash width buckets idx)
            (next_idx buckets idx)
            (next_idx buckets (next_idx buckets idx))
  unfolding shift_back assign
  shift_back_far fuel buckets idx far =
      let more : ltb 1 (distance key_bits (at_idx buckets (next_idx buckets idx))) ≡ true =
        ground arith in
      let full =
        distance_pos key_bits (at_idx buckets (next_idx buckets idx)) (omega (arith, far)) in
      rw (more, full) refl

  closed :
      (r : ℕ) (buckets : List (Bucket V)) (idx : ℕ)
      → IsGap key_bits hash width buckets r idx
      → dist_at key_bits hash buckets (next_idx buckets idx) ≤ 1
      → Closes buckets buckets
  closed r buckets idx g near = (
    record {
      room = g.room;
      small = g.small;
      placed = g.placed;
      steps = λ j lt. elim (Bool-cases (j == idx)) [
        | inl e ↦ omega (
          arith,
          near,
          ap (λ (x : ℕ). dist_at key_bits hash buckets (next_idx buckets x)) ((==_iff j idx).0 e),
        )
        | inr e ↦ g.steps j lt (grind arith)
      ];
    },
    (next_idx buckets idx, next_idx-lt buckets idx g.room, near),
    refl,
    Perm.refl _,
  )

  next_low :
      (buckets : List (Bucket V)) (idx : ℕ)
      → dist_at key_bits hash buckets ((idx + 1) % capacity buckets) ≤ 1
      → dist_at key_bits hash buckets (next_idx buckets idx) ≤ 1
  unfolding next_idx
  next_low buckets idx h = h

  -- The loop within its fuel: it closes the gap.
  pub shift_back-Closes :
      (r fuel : ℕ) (buckets : List (Bucket V)) (idx : ℕ)
      → IsGap key_bits hash width buckets r idx
      → r < fuel
      → Closes buckets (shift_back key_bits hash fuel buckets idx (next_idx buckets idx))
  shift_back-Closes r zero buckets idx g h = absurd (omega arith)
  shift_back-Closes zero (suc fuel) buckets idx g h =
      rw (shift_back_near fuel buckets idx (next_low buckets idx g.low))
        (closed 0 buckets idx g (next_low buckets idx g.low))
  shift_back-Closes (suc r) (suc fuel) buckets idx g h =
      elim (Bool-cases (ltb 1 (dist_at key_bits hash buckets (next_idx buckets idx)))) [
        | inl e ↦
            let far : 1 < dist_at key_bits hash buckets (next_idx buckets idx) = ground arith in
            let next = next_idx buckets idx in
            let behind = next_idx-shifted key_bits hash width buckets r idx g far next in
            let rest =
              shift_back-Closes r fuel (shifted key_bits hash width buckets idx) next
                (shifted-IsGap key_bits hash width buckets r idx g far) (omega arith) in
            let rest' = rw behind at rest in
            rw (shift_back_far fuel buckets idx far) (
              rest'.0,
              rest'.1,
              rest'.2 ∙ capacity-shifted key_bits hash width buckets r idx g far,
              Perm.trans rest'.3 (entries-shifted key_bits hash width buckets r idx g far),
            )
        | inr e ↦
            let near : dist_at key_bits hash buckets (next_idx buckets idx) ≤ 1 = ground arith in
            rw (shift_back_near fuel buckets idx near) (closed (suc r) buckets idx g near)
      ]
