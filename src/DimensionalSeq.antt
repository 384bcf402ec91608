-- ===== src/DimensionalSeq.antt =====
-- util::dimensional_index_iterator of src/util/ranges/dimensional_seq.hpp: an odometer whose first
-- dimension moves fastest, over an unsigned index type of `w` bits.
pub mod Order
use braincells.Common.{
  ℕ, ◌+◌, ◌-◌, ◌%◌, ◌^◌, Bool, true, false, List, [], ◌∷◌, if◌then◌else◌, ltb, ◌==◌, word32,
}

-- `_current` beside `_size`: the index and the size of each dimension.
pub record Dimension : Type 0 where
  pub current : ℕ
  pub size : ℕ

-- The iterator is its dimensions and `_radix`.
abbrev pub Iterator : Type 0
Iterator = List Dimension × ℕ

unfoldable pub start : List ℕ → List Dimension
start [] = []
start (n ∷ sizes) = record { current = 0; size = n } ∷ start sizes

unfoldable pub is_end : Iterator → Bool
is_end it = ltb 0 it.1

-- A dimension in front of an iterator.
unfoldable pub with_first : Dimension → Iterator → Iterator
with_first d it = (d ∷ it.0, it.1)

module _ (w : ℕ) where
  unfoldable pub increment : List Dimension → ℕ → Iterator
  unfolding with_first
  increment [] radix = ([], (radix + 1) % word32)
  increment (d ∷ ds) radix =
      let next : ℕ = (d.current + 1) % 2 ^ w in
      let carried = increment ds radix in
      if next == d.size
      then with_first (record d { current = 0 }) carried
      else (record d { current = next } ∷ ds, radix)

  unfoldable pub decrement : List Dimension → ℕ → Iterator
  unfolding with_first
  decrement [] radix = ([], (radix + word32 - 1) % word32)
  decrement (d ∷ ds) radix =
      let previous : ℕ = (d.current + 2 ^ w - 1) % 2 ^ w in
      let borrowed = decrement ds radix in
      if ltb d.size previous
      then with_first (record d { current = d.size - 1 }) borrowed
      else (record d { current = previous } ∷ ds, radix)
