-- ===== src/Inp/KeyState.antt =====
-- inp::key_rt_state of src/inp/key_rt_state.hpp: one bit for each key and value, spread over blocks.
-- A key is its code; an `i32` value is its bit pattern, the number that `u32(value)` gives.
pub mod Position
pub mod Laws
use braincells.Common.{
  ℕ, zero, suc, ◌+◌, ◌-◌, ◌*◌, ◌/◌, ◌%◌, ◌^◌, ◌≤◌, ◌<◌, Bool, true, false, not, ◌&&◌, List, [], ◌∷◌,
  map, bit_and, bit_or, get_or, set, replicate, if◌then◌else◌, leb, ◌==◌, word32,
}
use braincells.Inp.{fetch_or, fetch_and, complement}

-- The template parameters, and the bytes of a block.
pub record Layout : Type 0 where
  pub klow : ℕ
  pub khigh : ℕ
  pub vmin : ℕ
  pub vmax : ℕ
  pub block_element_size : ℕ

-- The codes are ordered 32-bit numbers, the values ordered ones that an `i32` can have.
pub record IsLayout (l : Layout) : Type 0 where
  pub keys : l.klow ≤ l.khigh
  pub keys_fit : l.khigh < word32
  pub values : l.vmin ≤ l.vmax
  pub values_fit : l.vmax < 2 ^ 31
  pub block : 0 < l.block_element_size

abbrev pub block_bits : Layout → ℕ
block_bits l = l.block_element_size * 8

unfoldable pub value_bitcount : Layout → ℕ
value_bitcount l = l.vmax - l.vmin + 1

unfoldable pub bitcount : Layout → ℕ
unfolding value_bitcount
bitcount l = value_bitcount l * (l.khigh - l.klow + 1)

unfoldable pub blockcount : Layout → ℕ
unfolding bitcount
blockcount l = (bitcount l - 1) / block_bits l + 1

module _ (l : Layout) where
  unfoldable pub is_key_valid : ℕ → Bool
  is_key_valid key = leb l.klow key && leb key l.khigh

  unfoldable pub is_value_valid : ℕ → Bool
  is_value_valid value = leb l.vmin value && leb value l.vmax

  -- The number of the bit of a key and a value; both differences are of 32 bits.
  unfoldable pub bit_number : ℕ → ℕ → ℕ
  unfolding value_bitcount
  bit_number key value =
      (key + word32 - l.klow) % word32 * value_bitcount l + (value + word32 - l.vmin) % word32

  -- The block, and the bit in it. The source returns the mask, `1 << bit`.
  unfoldable pub get_pos : ℕ → ℕ → ℕ × ℕ
  unfolding bit_number blockcount
  get_pos key value = let k = bit_number key value in (k % blockcount l, k / blockcount l)

  abbrev pub mask : ℕ → ℕ → ℕ
  mask key value = 2 ^ (get_pos key value).1

  -- `load() & mask`, as a condition.
  unfoldable pub holds : List ℕ → ℕ → ℕ → Bool
  holds blocks key value =
      not (bit_and (get_or blocks (get_pos key value).0 0) (mask key value) == 0)

  unfoldable pub initial : List ℕ
  unfolding blockcount
  initial = replicate (blockcount l) 0

  -- `handle(key, value)`: whether the event is one of this state's, and the blocks.
  unfoldable pub handle : List ℕ → ℕ → ℕ → Bool × List ℕ
  unfolding fetch_or
  handle blocks key value =
      if not (is_value_valid value)
      then (false, blocks)
      else if not (is_key_valid key)
      then (false, blocks)
      else let n : ℕ = (get_pos key value).0 in
        (true, set blocks n (fetch_or (get_or blocks n 0) (mask key value)))

  unfoldable pub test : List ℕ → ℕ → ℕ → Bool
  test blocks key value = if not (is_key_valid key) then false else holds blocks key value

  unfoldable pub take : List ℕ → ℕ → ℕ → Bool × List ℕ
  unfolding fetch_and complement
  take blocks key value =
      if not (is_key_valid key)
      then (false, blocks)
      else if not (holds blocks key value)
      then (false, blocks)
      else let n : ℕ = (get_pos key value).0 in
        (
          true,
          set blocks n (fetch_and (get_or blocks n 0) (complement (block_bits l) (mask key value))),
        )

  -- `take_all`: what the blocks held, and the blocks.
  unfoldable pub take_all : List ℕ → List ℕ × List ℕ
  take_all blocks = (blocks, map (λ _. 0) blocks)
