-- ===== src/Tests/RobinMap/Reach.antt =====
-- Maps of src/core/robin_map.hpp that are reached from a new one with room for three.
use mathlib.Core.List.{Mem, Perm}
use braincells.Common.{ℕ, ◌≡◌, ◌⊎◌, inr, refl, true, false, ◌∷◌, none, some, arith}
use braincells.RobinMap.Buckets.{
  new, pack, init_header, set_distance, distance, key, empty, destroy, assign, swap, copied, moved,
  set_value,
}
use braincells.RobinMap.{
  RobinMap, capacity, max_distance, next_idx, at_idx, to_idx, probe, search, find, contains, at,
  emplace, emplace_behind, emplace_at, displace, relocate, emplaced, overflow, insert_or_assign,
  initial,
}
use braincells.RobinMap.Entries.{entries}
use braincells.RobinMap.Valid.{IsValid, keys, find-entries}
use braincells.RobinMap.Reach.{Reachable, started, inserted, Reachable-IsValid}
use braincells.RobinMap.Branches.{emplace-entries}
use braincells.RobinMap.Overwrite.{Assigned, insert_or_assign_lem}
use braincells.Tests.RobinMap.{identity, two}

two-Reachable : Reachable 32 identity (inr refl) 3 two
unfolding emplace emplace_behind emplace_at displace relocate search probe at_idx next_idx
    max_distance to_idx capacity distance key empty destroy assign swap copied moved set_value
    init_header set_distance pack new initial
two-Reachable = inserted 7 70 (inserted 4 40 started (omega arith) refl) (omega arith) refl

two-IsValid : IsValid 32 identity two
two-IsValid =
    Reachable-IsValid 32 identity (inr refl) 3 two (omega arith) (omega arith) two-Reachable

find-entries_example :
    ((find 32 identity two 7 ≡ none)
      × (contains 32 identity two 7 ≡ false)
      × (at 32 identity two 7 ≡ none)
      × (¬ Mem 7 (keys (entries 32 two.buckets))))
    ⊎ ((i : ℕ) × (find 32 identity two 7 ≡ some i)
        × (contains 32 identity two 7 ≡ true)
        × (at 32 identity two 7 ≡ some (at_idx two.buckets i).value)
        × Mem (7, (at_idx two.buckets i).value) (entries 32 two.buckets))
find-entries_example = find-entries 32 identity two 7 two-IsValid

emplace-entries_example :
    ((i : ℕ) × (find 32 identity two 2 ≡ some i)
      × (emplace 32 identity two 2 20 ≡ emplaced two i false))
    ⊎ ((find 32 identity two 2 ≡ none)
        × (2 ≡ capacity two.buckets)
        × (emplace 32 identity two 2 20 ≡ overflow))
    ⊎ ((find 32 identity two 2 ≡ none)
        × (p : RobinMap ℕ) × (i : ℕ) × (emplace 32 identity two 2 20 ≡ emplaced p i true)
        × IsValid 32 identity p
        × (capacity p.buckets ≡ capacity two.buckets)
        × Perm (entries 32 p.buckets) ((2, some 20) ∷ entries 32 two.buckets))
emplace-entries_example = emplace-entries 32 identity (inr refl) two 2 20 two-IsValid (omega arith)

insert_or_assign_lem_example :
    Assigned 32 identity (inr refl) two 7 71 (insert_or_assign 32 identity two 7 71)
insert_or_assign_lem_example =
    insert_or_assign_lem 32 identity (inr refl) two 7 71 two-IsValid (omega arith)
