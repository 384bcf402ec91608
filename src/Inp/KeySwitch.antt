-- ===== src/Inp/KeySwitch.antt =====
-- inp::key_switch_state of src/inp/key_switch_state.hpp: one bit for each key, set by one value of its
-- events and reset by another. A walk over a key_rt_state is the list of its keys with their bits.
pub mod Decide
pub mod Update
use braincells.Common.{
  ℕ, ◌+◌, ◌-◌, ◌/◌, ◌%◌, ◌^◌, bit_and, bit_or, Bool, not, ◌||◌, List, [], ◌∷◌, replicate, get_or,
  set, if◌then◌else◌, ◌==◌, word32,
}
use braincells.Inp.{complement}
use braincells.Inp.KeyIterator.{KeyTester}

module _ (low high on off : ℕ) where
  unfoldable pub bits_count : ℕ
  bits_count = high - low + 1

  unfoldable pub blocks_count : ℕ
  unfolding bits_count
  blocks_count = (bits_count - 1) / 64 + 1

  unfoldable pub initial : List ℕ
  unfolding blocks_count
  initial = replicate blocks_count 0

  unfoldable pub value_mask : ℕ
  value_mask = bit_or (2 ^ on) (2 ^ off)

  -- The block of a key and the mask of its bit.
  unfoldable pub get_pos : ℕ → ℕ × ℕ
  get_pos key = let idx : ℕ = (key + word32 - low) % word32 in (idx / 64, 2 ^ (idx % 64))

  unfoldable pub update_key : List ℕ → KeyTester → List ℕ
  unfolding get_pos value_mask complement
  update_key state k =
      let (block, mask) = get_pos k.key in
      let value : ℕ = bit_and k.bits value_mask in
      if value == 2 ^ on
      then set state block (bit_or (get_or state block 0) mask)
      else if value == 2 ^ off || value == value_mask
      then set state block (bit_and (get_or state block 0) (complement 64 mask))
      else state

  unfoldable pub update : List ℕ → List KeyTester → List ℕ
  unfolding update_key
  update state [] = state
  update state (k ∷ keys) = update (update_key state k) keys

  unfoldable pub test : List ℕ → ℕ → Bool
  unfolding get_pos
  test state key = let (block, mask) = get_pos key in not (bit_and (get_or state block 0) mask == 0)
