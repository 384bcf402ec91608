-- ===== src/DimensionalSeq/Order.antt =====
-- The order of the indices of src/util/ranges/dimensional_seq.hpp.
use native.Mathlib.Nat.{mod-eq_of_lt, mul-add}
use braincells.Common.{
  ℕ, ◌+◌, ◌*◌, ◌%◌, ◌^◌, ◌≡◌, ◌<◌, ap, List, [], ◌∷◌, ◌==◌, ==_iff, word32, arith, Bool-cases, inl,
  inr,
}
use braincells.DimensionalSeq.{Dimension, increment, with_first}

-- Each index is below its size, which the type can hold.
unfoldable pub IsInside : ℕ → List Dimension → Type 0
IsInside w [] = 0 < 2 ^ w
IsInside w (d ∷ ds) = (d.current < d.size) × (d.size < 2 ^ w) × IsInside w ds

-- The number of steps from the start.
unfoldable pub number : List Dimension → ℕ → ℕ
number [] radix = radix
number (d ∷ ds) radix = d.current + d.size * number ds radix

step_in :
    (w : ℕ) (d : Dimension)
    → d.current < d.size
    → d.size < 2 ^ w
    → (d.current + 1) % 2 ^ w ≡ d.current + 1
step_in w d h k = mod-eq_of_lt (omega arith)

-- `++` goes to the next number: the sequence visits the indices in order, each once.
pub increment_lem :
    (w : ℕ) (ds : List Dimension) (radix : ℕ)
    → IsInside w ds
    → radix + 1 < word32
    → let it = increment w ds radix in (number it.0 it.1 ≡ number ds radix + 1) × IsInside w it.0
unfolding increment number IsInside with_first
increment_lem w [] radix h small = (mod-eq_of_lt small, h)
increment_lem w (d ∷ ds) radix (lt, fits, rest) small =
    let ih = increment_lem w ds radix rest small in
    let next = step_in w d lt fits in
    elim (Bool-cases (d.current + 1 == d.size)) [
      | inl last ↦
          let n : ℕ = number ds radix in
          let all : d.size * number (increment w ds radix).0 (increment w ds radix).1
              ≡ d.size * (n + 1) =
            ap (λ (m : ℕ). d.size * m) ih.0 in
          rw (next, last)
            (
              omega (arith, all, mul-add d.size n 1, (==_iff _ d.size).0 last),
              (omega arith, fits, ih.1),
            )
      | inr more ↦ rw (next, more) (omega arith, (ground arith, fits, rest))
    ]
