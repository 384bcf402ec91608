-- ===== src/Tests/RobinMap.antt =====
-- core::robin_map_impl (src/core/robin_map.hpp) with integer keys and room for three.
mod Reach
use braincells.Common.{
  ℕ, ◌≡◌, ◌<◌, ◌↔◌, ◌⊎◌, inr, refl, true, false, [], ◌∷◌, none, some, arith, set,
}
use braincells.RobinMap.Buckets.{
  Bucket, new, pack, init_header, set_distance, distance, key, empty, destroy, assign, swap, copied,
  moved, set_value,
}
use braincells.RobinMap.Header.{header_lem, set_distance_lem}
use braincells.RobinMap.Assign.{IsSound, assign-IsSound, swap_lem, is_constructed}
use braincells.RobinMap.{
  RobinMap, capacity, max_distance, next_idx, at_idx, to_idx, probe, search, find, iterator,
  emplace, emplace_behind, emplace_at, displace, relocate, emplaced, erase, erase_at, shift_back,
}
use braincells.RobinMap.Probe.{probe_enough, find_lem}
use braincells.RobinMap.Emplace.{emplace-find, find-emplace}

abbrev pub identity : ℕ → ℕ
identity k = k

-- Key 4 in bucket 1 at distance 1, key 7 behind it at distance 2.
abbrev pub two : RobinMap ℕ
two = record {
  buckets =
      record { header = 0; value = none }
      ∷ record { header = 4294967300; value = some 40 }
      ∷ record { header = 8589934599; value = some 70 }
      ∷ record { header = 4294967296; value = none }
      ∷ [];
  occupied = 2;
}

find_seven : find 32 identity two 7 ≡ some 2
unfolding find search iterator probe at_idx next_idx max_distance to_idx capacity distance key
find_seven = refl

-- Keys 4 and 5, each in its own bucket.
abbrev close : RobinMap ℕ
close = record {
  buckets =
      record { header = 0; value = none }
      ∷ record { header = 4294967300; value = some 40 }
      ∷ record { header = 4294967301; value = some 50 }
      ∷ record { header = 4294967296; value = none }
      ∷ [];
  occupied = 2;
}

-- Key 7 displaces key 5, and the iterator that `emplace` returns is at key 5.
emplace_displaces :
    emplace 32 identity close 7 70
    ≡ emplaced
        (record {
          buckets =
              record { header = 8589934597; value = some 50 }
              ∷ record { header = 4294967300; value = some 40 }
              ∷ record { header = 8589934599; value = some 70 }
              ∷ record { header = 4294967296; value = none }
              ∷ [];
          occupied = 3;
        })
        0
        true
unfolding emplace emplace_behind emplace_at displace relocate search probe at_idx next_idx
    max_distance to_idx capacity distance key empty destroy assign swap copied moved set_value
    init_header set_distance pack new
emplace_displaces = refl

-- The buckets behind an erased one move back.
erase_four : erase 32 identity two 4 ≡ (
  record {
    buckets =
        record { header = 0; value = none }
        ∷ record { header = 4294967303; value = some 70 }
        ∷ record { header = 0; value = none }
        ∷ record { header = 4294967296; value = none }
        ∷ [];
    occupied = 1;
  },
  true,
)
unfolding erase erase_at shift_back find iterator search probe at_idx next_idx max_distance to_idx
    capacity distance key empty destroy assign moved set_distance pack
erase_four = refl

abbrev seven : Bucket ℕ
seven = record { header = 8589934599; value = some 70 }

seven-IsSound : IsSound seven
unfolding is_constructed empty
seven-IsSound = refl

new-IsSound : IsSound (new {V = ℕ})
unfolding is_constructed empty new
new-IsSound = refl

assign-IsSound_example :
    IsSound (assign seven (new {V = ℕ})) ↔ ((empty seven ≡ true) ⊎ (empty (new {V = ℕ}) ≡ false))
assign-IsSound_example = assign-IsSound seven (new {V = ℕ}) seven-IsSound new-IsSound
