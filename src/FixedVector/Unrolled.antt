-- ===== src/FixedVector/Unrolled.antt =====
-- The unrolled loops of src/core/fixed_vector.hpp against a plain loop.
use braincells.Common.{
  ℕ, zero, suc, ◌+◌, ◌-◌, ◌≡◌, ◌<◌, ◌≤◌, refl, sym, ap, ap₂, ◌∙◌, subst, ltb, ◌==◌, Bool-cases, inl,
  inr, arith,
}
use braincells.FixedVector.{for_range, blocks, unrolled}

module _ {ℓ} {State : Type ℓ} (step : ℕ → State → State) where
  for_range-add :
      (m n i : ℕ) (s : State)
      → for_range (m + n) i step s ≡ for_range n (i + m) step (for_range m i step s)
  unfolding for_range
  for_range-add zero n i s =
      ap₂ (λ (a b : ℕ). for_range a b step s) {x = 0 + n} {y = n} {u = i} {v = i + 0} (omega arith)
        (omega arith)
  for_range-add (suc m) n i s =
      ap (λ (a : ℕ). for_range a i step s) {x = suc m + n} {y = suc (m + n)} (omega arith)
      ∙ for_range-add m n (i + 1) (step i s)
      ∙ ap (λ (a : ℕ). for_range n a step (for_range m (i + 1) step (step i s))) {x = i + 1 + m}
          {y = i + suc m} (omega arith)

  -- Where the loop over blocks ends: less than a block is left.
  abbrev Ended : ℕ → ℕ → ℕ → State → ℕ × State → Type ℓ
  Ended block i size s r =
      (i ≤ r.0) × (r.0 ≤ size) × (size ≤ r.0 + block) × (r.1 ≡ for_range (r.0 - i) i step s)

  Ended-start :
      (block i size : ℕ) (s : State) → i ≤ size → size ≤ i + block → Ended block i size s (i, s)
  unfolding for_range
  Ended-start block i size s le near = (
    omega arith,
    le,
    near,
    ap (λ (a : ℕ). for_range a i step s) {x = 0} {y = i - i} (omega arith),
  )

  blocks-Ended :
      (fuel block i size : ℕ) (s : State)
      → 0 < block
      → i ≤ size
      → size ≤ i + fuel
      → Ended block i size s (blocks fuel block i (i + block) size step s)
  unfolding blocks
  blocks-Ended zero block i size s pos le enough = Ended-start block i size s le (omega arith)
  blocks-Ended (suc fuel) block i size s pos le enough = elim (Bool-cases (ltb (i + block) size)) [
    | inr e ↦ rw e (Ended-start block i size s le (ground arith))
    | inl e ↦
        let less : i + block < size = ground arith in
        let rest =
          blocks-Ended fuel block (i + block) size (for_range block i step s) pos (omega arith)
            (omega arith) in
        rw e (
          omega (arith, rest.0),
          rest.1,
          rest.2,
          rest.3
              ∙ sym (for_range-add block _ i s)
              ∙ ap (λ (a : ℕ). for_range a i step s) {x = block + (_ - (i + block))} {y = _ - i}
                  (omega (arith, rest.0)),
        )
  ]

  finished :
      (block size : ℕ) (s : State) (p : ℕ × State)
      → Ended block 0 size s p
      → for_range (size - p.0) p.0 step p.1 ≡ for_range size 0 step s
  finished block size s p r =
      ap (for_range (size - p.0) p.0 step) r.3
      ∙ ap₂ (λ (a b : ℕ). for_range (size - p.0) a step (for_range b 0 step s)) {x = p.0}
          {y = 0 + p.0} {u = p.0 - 0} {v = p.0} (omega arith) (omega arith)
      ∙ sym (for_range-add p.0 (size - p.0) 0 s)
      ∙ ap (λ (a : ℕ). for_range a 0 step s) {x = p.0 + (size - p.0)} {y = size}
          (omega (arith, r.1))

  -- The loop over blocks with the loop over the rest is one loop over all indices, in order; the loop over
  -- blocks ends within its fuel, with a block left at most.
  pub unrolled_lem :
      (block size : ℕ) (s : State)
      → (unrolled block size step s ≡ for_range size 0 step s)
        × (0 < block → size ≤ (blocks size block 0 block size step s).0 + block)
  unfolding unrolled
  unrolled_lem block size s = elim (Bool-cases (block == 0)) [
    | inl e ↦ (rw e refl, λ pos. absurd (ground arith))
    | inr e ↦
        let r =
          subst (λ (j : ℕ). Ended block 0 size s (blocks size block 0 j size step s))
            {x = 0 + block} {y = block} (omega arith)
            (blocks-Ended size block 0 size s (ground arith) (omega arith) (omega arith)) in
        (rw e (finished block size s (blocks size block 0 block size step s) r), λ pos. r.2)
  ]
