-- ===== src/Inp/RelativeState.antt =====
-- inp::relative_rt_state of src/inp/relative_rt_state.hpp: movements add up until they are taken. An
-- `i32` is its bit pattern, and a state has a block of 32 bits for each of its codes.
pub mod Conservation
use braincells.Common.{
  ℕ, zero, suc, ◌+◌, ◌%◌, Bool, true, false, List, [], ◌∷◌, map, Option, none, some, get_or, set,
  if◌then◌else◌, ◌==◌, word32,
}
use braincells.Inp.{fetch_add}

unfoldable pub first_idx : ℕ → ℕ → Option ℕ → Option ℕ
first_idx c code (some i) = some (suc i)
first_idx c code none = if c == code then some 0 else none

-- `none` for a code that the state does not handle; of equal codes the last one counts.
unfoldable pub code_to_idx : List ℕ → ℕ → Option ℕ
unfolding first_idx
code_to_idx [] code = none
code_to_idx (c ∷ codes) code = first_idx c code (code_to_idx codes code)

unfoldable pub load_at : List ℕ → Option ℕ → ℕ
load_at states none = 0
load_at states (some idx) = get_or states idx 0

unfoldable pub add_at : List ℕ → Option ℕ → ℕ → Bool × List ℕ
unfolding fetch_add
add_at states none value = (false, states)
add_at states (some idx) value =
    (true, set states idx (fetch_add 32 (get_or states idx 0) (value % word32)))

unfoldable pub reset_at : List ℕ → Option ℕ → List ℕ
reset_at states none = states
reset_at states (some idx) = set states idx 0

module _ (codes : List ℕ) where
  unfoldable pub handle : List ℕ → ℕ → ℕ → Bool × List ℕ
  unfolding code_to_idx add_at
  handle states code value = add_at states (code_to_idx codes code) value

  unfoldable pub get : List ℕ → ℕ → ℕ
  unfolding code_to_idx load_at
  get states code = load_at states (code_to_idx codes code)

  -- `exchange(0)`
  unfoldable pub take : List ℕ → ℕ → ℕ × List ℕ
  unfolding code_to_idx load_at reset_at
  take states code =
      (load_at states (code_to_idx codes code), reset_at states (code_to_idx codes code))

unfoldable pub take_all : List ℕ → List ℕ × List ℕ
take_all states = (states, map (λ _. 0) states)
