-- ===== src/Views/Trim.antt =====
-- core::trim_if and core::trim of src/core/ranges/trim.hpp. `b` is the part of the range from it on,
-- and `e` is counted from `b`.
pub mod Laws
use braincells.Common.{
  ℕ, zero, suc, Bool, true, false, ◌||◌, List, [], ◌∷◌, Option, none, some, length, take, get_elem?,
}

module _ {ℓ} {A : Type ℓ} where
  module _ (binary_op : A → Bool) where
    -- `while (b != e && binary_op(*b)) ++b;`
    unfoldable pub trim_front : List A → List A
    trim_front [] = []
    trim_front (x ∷ xs) = elim (binary_op x) [ true ↦ trim_front xs | false ↦ x ∷ xs ]

    -- `while (e != b && binary_op(*prev(e))) --e;`
    unfoldable pub trim_back : List A → ℕ → ℕ
    trim_back b zero = zero
    trim_back b (suc e) = elim (get_elem? b e) [
      | none ↦ suc e
      | some x ↦ elim (binary_op x) [ true ↦ trim_back b e | false ↦ suc e ]
    ]

    -- `rng | trim_if(binary_op)`.
    unfoldable pub trim_if : List A → List A
    trim_if rng = let b = trim_front rng in take (trim_back b (length b)) b

  module _ (eq : A → A → Bool) where
    -- The lambda `has` of `trim::trim_op`.
    unfoldable pub has : Bool → List A → A → Bool
    has result [] cur = result
    has result (c ∷ cs) cur = has (result || eq c cur) cs cur

    -- `rng | trim(cs...)`.
    unfoldable pub trim : List A → List A → List A
    unfolding trim_if has
    trim cs rng = trim_if (has false cs) rng
