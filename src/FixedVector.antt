-- ===== src/FixedVector.antt =====
-- core::fixed_vector of src/core/fixed_vector.hpp: room for a fixed number of elements, and the loops over
-- them, unrolled to blocks of 512 bits.
pub mod Unrolled
pub mod Laws
use braincells.Common.{
  ℕ, zero, suc, ◌+◌, ◌-◌, Bool, List, [], ◌∷◌, Option, none, some, length, get_or, set, replicate,
  if◌then◌else◌, ltb, ◌==◌,
}

-- `none` is a slot without a living object.
pub record FixedVector (T : Type 0) : Type 0 where
  pub slots : List (Option T)
  pub size : ℕ

-- The elements of a block, by the size of one; 0 where there is no loop over blocks.
unfoldable pub block_of : ℕ → ℕ
block_of sizeof =
    if sizeof == 1
    then 64
    else if sizeof == 2
    then 32
    else if sizeof == 4
    then 16
    else if sizeof == 8
    then 8
    else if sizeof == 16
    then 4
    else if sizeof == 32
    then 2
    else 0

module _ {ℓ} {State : Type ℓ} where
  -- The step at `n` indices from `i` on.
  unfoldable pub for_range : ℕ → ℕ → (ℕ → State → State) → State → State
  for_range zero i step s = s
  for_range (suc n) i step s = for_range n (i + 1) step (step i s)

  -- The loop over whole blocks, with fuel: the index behind them and the state there.
  unfoldable pub blocks : ℕ → ℕ → ℕ → ℕ → ℕ → (ℕ → State → State) → State → ℕ × State
  unfolding for_range
  blocks zero block i j size step s = (i, s)
  blocks (suc fuel) block i j size step s =
      let rest = blocks fuel block (i + block) (j + block) size step (for_range block i step s) in
      if ltb j size then rest else (i, s)

  -- `gen_vec512` and the loop over the rest.
  unfoldable pub unrolled : ℕ → ℕ → (ℕ → State → State) → State → State
  unfolding for_range blocks
  unrolled block size step s =
      let (i, t) = blocks size block 0 block size step s in
      if block == 0 then for_range size 0 step s else for_range (size - i) i step t

module _ {T : Type 0} where
  abbrev pub blank : ℕ → FixedVector T
  blank room = record { slots = replicate room none; size = 0 }

  abbrev pub slot : FixedVector T → ℕ → Option T
  slot v i = get_or v.slots i none

  unfoldable pub emplace_back : FixedVector T → T → FixedVector T
  emplace_back v value = record { slots = set v.slots v.size (some value); size = v.size + 1 }

  -- `_init`
  unfoldable pub init_from : ℕ → List T → List (Option T) → List (Option T)
  init_from i [] slots = slots
  init_from i (value ∷ values) slots = init_from (i + 1) values (set slots i (some value))

  unfoldable pub from_values : ℕ → List T → FixedVector T
  unfolding init_from
  from_values room values = record {
    slots = init_from 0 values (replicate room none);
    size = length values;
  }

  unfoldable pub is_empty : FixedVector T → Bool
  is_empty v = v.size == 0

module _ (sizeof : ℕ) {T : Type 0} where
  -- `_destroy`
  unfoldable pub destroy : FixedVector T → FixedVector T
  unfolding unrolled block_of
  destroy v = record v {
    slots = unrolled (block_of sizeof) v.size (λ i slots. set slots i none) v.slots;
  }

  -- The elements of another vector constructed one by one, by a copy or a move.
  unfoldable pub construct : FixedVector T → FixedVector T → FixedVector T
  unfolding unrolled block_of
  construct it v = record {
    slots = unrolled (block_of sizeof) v.size (λ i slots. set slots i (slot v i)) it.slots;
    size = v.size;
  }

  unfoldable pub copy : ℕ → FixedVector T → FixedVector T
  unfolding construct
  copy room v = construct (blank room) v

  -- The assignment by a move, of a type with a destructor and a move assignment of its own: it destroys
  -- the old elements first.
  unfoldable pub move_assign : FixedVector T → FixedVector T → FixedVector T
  unfolding construct destroy
  move_assign it v = construct (destroy it) v

  -- The assignment by a copy, of such a type whose copy assignment may throw: it copies into `tmp` and
  -- moves that. A type whose copy assignment does not throw has the defaulted one, which copies bytes.
  unfoldable pub copy_assign : FixedVector T → FixedVector T → FixedVector T
  unfolding copy move_assign
  copy_assign it v = move_assign it (copy (length it.slots) v)
