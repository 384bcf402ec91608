-- ===== src/Tests/FixedVector.antt =====
-- core::fixed_vector (src/core/fixed_vector.hpp) with room for four elements of 32 bytes.
use braincells.Common.{ℕ, zero, suc, ◌+◌, ◌≡◌, ◌≤◌, ◌<◌, refl, List, [], ◌∷◌, none, some, arith}
use braincells.FixedVector.{
  FixedVector, for_range, blocks, block_of, unrolled, slot, destroy, construct, copy, move_assign,
  copy_assign, from_values,
}
use braincells.FixedVector.Unrolled.{unrolled_lem}
use braincells.FixedVector.Laws.{IsValid, HasElements, assignments_lem}

abbrev three : FixedVector ℕ
three = record { slots = some 7 ∷ some 8 ∷ some 9 ∷ none ∷ []; size = 3 }

abbrev one : FixedVector ℕ
one = record { slots = some 5 ∷ none ∷ none ∷ none ∷ []; size = 1 }

from_values_run : from_values 4 (7 ∷ 8 ∷ 9 ∷ []) ≡ three
unfolding from_values
from_values_run = refl

copy_assign_run : copy_assign 32 one three ≡ three
unfolding copy_assign copy move_assign construct destroy unrolled blocks for_range block_of
copy_assign_run = refl

-- Two elements in a block, and one in the rest.
blocks_run : (unrolled 2 3 (λ i l. i ∷ l) []) ≡ 2 ∷ 1 ∷ 0 ∷ []
unfolding unrolled blocks for_range
blocks_run = refl

three-IsValid : IsValid three
three-IsValid = record { room = omega arith; alive = alive; dead = dead }
  where
    alive : (i : ℕ) → i < 3 → (x : ℕ) × (slot three i ≡ some x)
    alive zero lt = (7, refl)
    alive (suc zero) lt = (8, refl)
    alive (suc (suc zero)) lt = (9, refl)
    alive (suc (suc (suc i))) lt = absurd (omega arith)

    dead : (i : ℕ) → 3 ≤ i → slot three i ≡ none
    dead zero le = absurd (omega arith)
    dead (suc zero) le = absurd (omega arith)
    dead (suc (suc zero)) le = absurd (omega arith)
    dead (suc (suc (suc zero))) le = refl
    dead (suc (suc (suc (suc i)))) le = refl

one-IsValid : IsValid one
one-IsValid = record { room = omega arith; alive = alive; dead = dead }
  where
    alive : (i : ℕ) → i < 1 → (x : ℕ) × (slot one i ≡ some x)
    alive zero lt = (5, refl)
    alive (suc i) lt = absurd (omega arith)

    dead : (i : ℕ) → 1 ≤ i → slot one i ≡ none
    dead zero le = absurd (omega arith)
    dead (suc zero) le = refl
    dead (suc (suc zero)) le = refl
    dead (suc (suc (suc zero))) le = refl
    dead (suc (suc (suc (suc i)))) le = refl

unrolled_lem_example :
    (unrolled 2 3 (λ i l. i ∷ l) [] ≡ for_range 3 0 (λ i l. i ∷ l) [])
    × (0 < 2 → 3 ≤ (blocks 3 2 0 2 3 (λ i l. i ∷ l) []).0 + 2)
unrolled_lem_example = unrolled_lem (λ (i : ℕ) (l : List ℕ). i ∷ l) 2 3 []

assignments_lem_example :
    HasElements 32 three (move_assign 32 one three)
    × HasElements 32 three (copy_assign 32 one three)
assignments_lem_example = assignments_lem 32 one three one-IsValid three-IsValid (omega arith)
