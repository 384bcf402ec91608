-- ===== src/Views/Split.antt =====
-- core::views::split_iterator and split_if_iterator of src/core/ranges/split.hpp, which differ in the
-- test for a delimiter, a list of symbols or a predicate.
pub mod Spec
pub mod Refine
use braincells.Common.{
  ℕ, zero, suc, ◌-◌, Bool, true, false, not, ◌&&◌, ◌||◌, List, [], ◌∷◌, length, take, if◌then◌else◌,
  ◌==◌,
}

pub record SplitIterator {ℓ} (A : Type ℓ) : Type ℓ where
  pub b : List A
  pub e : List A

pub data SplitMode : Type 0 where
  skip_empty allow_empty : SplitMode

abbrev pub is_allow_empty : SplitMode → Bool
is_allow_empty skip_empty = false
is_allow_empty allow_empty = true

-- `eq` compares two elements.
unfoldable pub has_delim {ℓ} : {A : Type ℓ} → (A → A → Bool) → List A → A → Bool
has_delim eq [] c = false
has_delim eq (delim ∷ delims) c = eq delim c || has_delim eq delims c

-- `*it`, the range from `b` up to `e`.
unfoldable pub piece {ℓ} : {A : Type ℓ} → SplitIterator A → List A
piece it = take (length it.b - length it.e) it.b

module _ {ℓ} {A : Type ℓ} (op : A → Bool) where
  -- `while (b != end && op(*b)) ++b;`
  unfoldable pub skip_delims : List A → List A
  skip_delims [] = []
  skip_delims (x ∷ xs) = if op x then skip_delims xs else x ∷ xs

  -- `while (e != end && !op(*e)) ++e;`
  unfoldable pub until_delim : List A → List A
  until_delim [] = []
  until_delim (x ∷ xs) = if not (op x) then until_delim xs else x ∷ xs

  module _ (allow : Bool) where
    unfoldable pub init : List A → SplitIterator A
    init start =
        let b = if not allow then skip_delims start else start in
        record { b = b; e = until_delim b }

    -- One round of the loop of `next` from `e`, and whether it repeats. At the end it returns.
    unfoldable pub next_round : List A → SplitIterator A × Bool
    next_round [] = (record { b = []; e = [] }, false)
    next_round (x ∷ b) =
        let e = until_delim b in (record { b = b; e = e }, not allow && length b == length e)

    unfoldable pub next_loop : ℕ → List A → SplitIterator A
    next_loop zero e = record { b = e; e = e }
    next_loop (suc fuel) e =
        let (it, repeat) = next_round e in elim repeat [ true ↦ next_loop fuel it.e | false ↦ it ]

    -- Each round passes an element, so the length is fuel enough.
    unfoldable pub next : SplitIterator A → SplitIterator A
    next it = next_loop (suc (length it.e)) it.e

    -- `for (auto p : view)`, with fuel: the end iterator has `b` at the end.
    unfoldable pub pieces_loop : ℕ → SplitIterator A → List (List A)
    pieces_loop zero it = []
    pieces_loop (suc fuel) it = elim it.b [
      | [] ↦ []
      | _ ∷ _ ↦ piece it ∷ pieces_loop fuel (next it)
    ]

  -- All that a loop over `range | split_if(mode, op)` visits.
  unfoldable pub split_if : SplitMode → List A → List (List A)
  split_if mode xs =
      let allow : Bool = is_allow_empty mode in pieces_loop allow (suc (length xs)) (init allow xs)

-- All that a loop over `range | split(mode, delims...)` visits.
unfoldable pub split {ℓ} :
    {A : Type ℓ} → (A → A → Bool) → SplitMode → List A → List A → List (List A)
split eq mode delims xs = split_if (has_delim eq delims) mode xs
