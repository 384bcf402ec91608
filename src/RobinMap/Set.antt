-- ===== src/RobinMap/Set.antt =====
-- core::robin_set_impl of src/core/robin_map.hpp: the map with values that say nothing.
use braincells.Common.{ℕ, Bool, List, Option, ◌==◌}
use braincells.RobinMap.Buckets.{Bucket}
use braincells.RobinMap.{RobinMap, Emplaced}
use braincells.RobinMap as Map

pub data NoValue : Type 0 where
  no_value : NoValue

module _ (key_bits : ℕ) (hash : ℕ → ℕ) where
  unfoldable pub emplace : RobinMap NoValue → ℕ → Emplaced NoValue
  unfolding Map.emplace
  emplace m k = Map.emplace key_bits hash m k no_value

  unfoldable pub erase : RobinMap NoValue → ℕ → RobinMap NoValue × Bool
  unfolding Map.erase
  erase m k = Map.erase key_bits hash m k

  unfoldable pub erase_position : RobinMap NoValue → ℕ → RobinMap NoValue
  unfolding Map.erase_at
  erase_position m position = Map.erase_at key_bits hash m position

  unfoldable pub find : RobinMap NoValue → ℕ → Option ℕ
  unfolding Map.find
  find m k = Map.find key_bits hash m k

  unfoldable pub contains : RobinMap NoValue → ℕ → Bool
  unfolding Map.contains
  contains m k = Map.contains key_bits hash m k

unfoldable pub size : RobinMap NoValue → ℕ
size m = m.occupied

unfoldable pub empty : RobinMap NoValue → Bool
empty m = m.occupied == 0

unfoldable pub clear : ℕ → RobinMap NoValue → RobinMap NoValue
unfolding Map.clear
clear key_bits m = Map.clear key_bits m

unfoldable pub raw_data : RobinMap NoValue → List (Bucket NoValue)
raw_data m = m.buckets
