-- ===== src/Tests/DimensionalSeq.antt =====
-- util::dimensional_seq (src/util/ranges/dimensional_seq.hpp) over two columns and three rows.
use braincells.Common.{◌≡◌, refl, List, [], ◌∷◌}
use braincells.DimensionalSeq.{Dimension, increment, decrement, with_first}

abbrev column : List Dimension
column = record { current = 1; size = 2 } ∷ record { current = 0; size = 3 } ∷ []

next_row :
    increment 64 column 0
    ≡ (record { current = 0; size = 2 } ∷ record { current = 1; size = 3 } ∷ [], 0)
unfolding increment with_first
next_row = refl

previous_row :
    decrement 64 (record { current = 0; size = 2 } ∷ record { current = 1; size = 3 } ∷ []) 0
    ≡ (column, 0)
unfolding decrement with_first
previous_row = refl

-- The largest size that the type can hold is not stepped back over: `_current` wraps to that size.
stuck_row :
    decrement 8 (record { current = 0; size = 255 } ∷ []) 1
    ≡ (record { current = 255; size = 255 } ∷ [], 1)
unfolding decrement with_first
stuck_row = refl
