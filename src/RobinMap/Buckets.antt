-- ===== src/RobinMap/Buckets.antt =====
-- The buckets of src/core/robin_map.hpp: robin_map_bucket_base, its copies and moves in
-- robin_map_bucket_ca_traits, and swap. The header is a distance above `key_bits` bits of key (48 for
-- pointers, 32 for integers); `|` of the two parts, which share no bit, is their sum.
use braincells.Common.{
  ℕ, ◌+◌, ◌-◌, ◌*◌, ◌/◌, ◌%◌, ◌^◌, Bool, Option, none, some, if◌then◌else◌, ◌==◌, word64,
}

-- `value` is `none` while no object lives in the union.
pub record Bucket (V : Type 0) : Type 0 where
  pub header : ℕ
  pub value : Option V

unfoldable pub new : {V : Type 0} → Bucket V
new = record { header = 0; value = none }

unfoldable pub empty : {V : Type 0} → Bucket V → Bool
empty b = b.header == 0

-- `(u64(distance) << key_bits) | (key & mask)` of a `u16`.
unfoldable pub pack : ℕ → ℕ → ℕ → ℕ
pack key_bits distance key = distance % 2 ^ 16 * 2 ^ key_bits % word64 + key % 2 ^ key_bits

module _ (key_bits : ℕ) {V : Type 0} where
  unfoldable pub init_header : Bucket V → ℕ → ℕ → Bucket V
  unfolding pack
  init_header b distance key = record b { header = pack key_bits distance key }

  unfoldable pub distance : Bucket V → ℕ
  distance b = b.header / 2 ^ key_bits % 2 ^ 16

  unfoldable pub key : Bucket V → ℕ
  key b = b.header % 2 ^ key_bits

  unfoldable pub set_distance : Bucket V → ℕ → Bucket V
  unfolding pack
  set_distance b distance = record b { header = pack key_bits distance b.header }

  unfoldable pub set_key : Bucket V → ℕ → Bucket V
  set_key b key = record b { header = b.header - b.header % 2 ^ key_bits + key % 2 ^ key_bits }

module _ {V : Type 0} where
  -- `construct_value` or an assignment: an object lives there afterwards.
  unfoldable pub set_value : Bucket V → V → Bucket V
  set_value b v = record b { value = some v }

  -- The destructor runs only while the header is not zero.
  unfoldable pub destroy : Bucket V → Bucket V
  unfolding empty
  destroy b = if empty b then record b { header = 0 } else record { header = 0; value = none }

  -- The assignments, which differ in whether the value is copied or moved. The header is set first.
  unfoldable pub assign : Bucket V → Bucket V → Bucket V
  unfolding empty destroy
  assign it bucket =
      if empty bucket
      then if empty it
        then record it { header = bucket.header }
        else destroy (record it { header = bucket.header })
      else record { header = bucket.header; value = bucket.value }

  -- A copy made by the constructor.
  unfoldable pub copied : Bucket V → Bucket V
  unfolding empty new
  copied bucket = if empty bucket then new else bucket

  -- What a move leaves behind.
  unfoldable pub moved : Bucket V → Bucket V
  unfolding destroy
  moved bucket = destroy bucket

  -- `tmp` is move-constructed from the right, and each side move-assigned in turn.
  unfoldable pub swap : Bucket V → Bucket V → Bucket V × Bucket V
  unfolding assign copied moved
  swap lhs rhs =
      let tmp : Bucket V = copied rhs in
      let lhs_moved : Bucket V = moved lhs in
      (assign lhs_moved tmp, assign (if empty rhs then rhs else moved rhs) lhs)
