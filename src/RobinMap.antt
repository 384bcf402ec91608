-- ===== src/RobinMap.antt =====
-- core::robin_map_impl of src/core/robin_map.hpp over an array of `capacity() + 1` buckets, the last one
-- the sentinel behind `end()`. Keys are the numbers that the buckets store.
pub mod Buckets
pub mod Header
pub mod Assign
pub mod Probe
pub mod Emplace
pub mod Entries
pub mod Chain
pub mod Relocate
pub mod Settle
pub mod Valid
pub mod Stop
pub mod Fresh
pub mod Insert
pub mod Gap
pub mod Shift
pub mod Close
pub mod Erase
pub mod Blank
pub mod Branches
pub mod Overwrite
pub mod Reach
pub mod Set
use braincells.Common.{
  ℕ, zero, suc, ◌+◌, ◌-◌, ◌%◌, Bool, true, false, List, [], ◌∷◌, Option, none, some, length, get_or,
  set, if◌then◌else◌, ltb, leb, ◌==◌, word64,
}
use braincells.RobinMap.Buckets.{
  Bucket, new, init_header, empty, distance, key, set_distance, set_value, destroy, assign, swap,
  moved,
}

pub record RobinMap (V : Type 0) : Type 0 where
  pub buckets : List (Bucket V)
  pub occupied : ℕ

-- What a search along the buckets ends with.
pub data Search : Type 0 where
  found : ℕ → Search
  stopped : ℕ → ℕ → Search

unfoldable pub iterator : Search → Option ℕ
iterator (found idx) = some idx
iterator (stopped idx dist) = none

-- The end of `emplace`: the map, the iterator's index, and whether the key was inserted.
pub data Emplaced (V : Type 0) : Type 0 where
  emplaced : RobinMap V → ℕ → Bool → Emplaced V
  overflow : Emplaced V
  no_empty_bucket : Emplaced V

module _ {V : Type 0} where
  unfoldable pub capacity : List (Bucket V) → ℕ
  capacity buckets = length buckets - 1

  unfoldable pub max_distance : List (Bucket V) → ℕ
  max_distance buckets = if ltb (length buckets) 65535 then length buckets + 1 else 65535

  unfoldable pub next_idx : List (Bucket V) → ℕ → ℕ
  unfolding capacity
  next_idx buckets idx = (idx + 1) % capacity buckets

  unfoldable pub at_idx : List (Bucket V) → ℕ → Bucket V
  at_idx buckets idx = get_or buckets idx new

module _ (key_bits : ℕ) {V : Type 0} where
  -- A map without elements; the sentinel is not empty, so that an iterator stops there.
  unfoldable pub initial : ℕ → List (Bucket V)
  initial zero = set_distance key_bits new 1 ∷ []
  initial (suc n) = new ∷ initial n

  -- The loop of `find` and the first of `emplace` up to the distance `limit`, with fuel.
  unfoldable pub probe : ℕ → ℕ → List (Bucket V) → ℕ → ℕ → ℕ → Search
  unfolding at_idx next_idx
  probe limit zero buckets k idx dist = stopped idx dist
  probe limit (suc fuel) buckets k idx dist =
      let rest = probe limit fuel buckets k (next_idx buckets idx) (dist + 1) in
      if dist == limit
      then stopped idx dist
      else if ltb (distance key_bits (at_idx buckets idx)) dist
      then stopped idx dist
      else if key key_bits (at_idx buckets idx) == k
      then found idx
      else rest

  module _ (hash : ℕ → ℕ) where
    unfoldable pub to_idx : List (Bucket V) → ℕ → ℕ
    unfolding capacity
    to_idx buckets k = hash k % capacity buckets

    unfoldable pub search : List (Bucket V) → ℕ → Search
    unfolding probe to_idx max_distance
    search buckets k =
        probe (max_distance buckets) (max_distance buckets) buckets k (to_idx buckets k) 1

    -- `none` is `end()`.
    unfoldable pub find : RobinMap V → ℕ → Option ℕ
    unfolding search iterator
    find m k = iterator (search m.buckets k)

    unfoldable pub contains : RobinMap V → ℕ → Bool
    unfolding find
    contains m k = elim (find m k) [ some idx ↦ true | none ↦ false ]

    -- `none` throws `robin_map_key_not_found`; otherwise the value that the bucket holds.
    unfoldable pub at : RobinMap V → ℕ → Option (Option V)
    unfolding find at_idx
    at m k = elim (find m k) [ some idx ↦ some (at_idx m.buckets idx).value | none ↦ none ]

    -- The second loop of `emplace`: the bucket in hand goes on until an empty one, with fuel; the result
    -- has the index of the last one written.
    unfoldable pub relocate : ℕ → List (Bucket V) → Bucket V → ℕ → ℕ → Option (List (Bucket V) × ℕ)
    unfolding at_idx next_idx
    relocate zero buckets b i dist = none
    relocate (suc fuel) buckets b i dist =
        let here : Bucket V = at_idx buckets i in
        let swapped = swap b here in
        let placed : Bucket V = set_distance key_bits (assign here b) dist in
        let displaced =
          relocate fuel (set buckets i (set_distance key_bits swapped.1 dist)) swapped.0
            (next_idx buckets i) (distance key_bits swapped.0 + 1) in
        let passed = relocate fuel buckets b (next_idx buckets i) (dist + 1) in
        if empty here
        then some (set buckets i placed, i)
        else if ltb (distance key_bits here) dist
        then displaced
        else passed

    unfoldable pub displace : RobinMap V → ℕ → V → ℕ → ℕ → Emplaced V
    unfolding relocate capacity at_idx next_idx
    displace m k v idx dist =
        let swapped = swap (init_header key_bits (set_value new v) dist k) (at_idx m.buckets idx) in
        elim (relocate (capacity m.buckets) (set m.buckets idx swapped.1) swapped.0
          (next_idx m.buckets idx) (distance key_bits swapped.0 + 1)) [
            | some (buckets, i) ↦
                emplaced (record { buckets = buckets; occupied = m.occupied + 1 }) i true
            | none ↦ no_empty_bucket
          ]

    unfoldable pub emplace_at : RobinMap V → ℕ → V → ℕ → ℕ → Emplaced V
    unfolding displace capacity at_idx
    emplace_at m k v idx dist =
        let here : Bucket V = at_idx m.buckets idx in
        if m.occupied == capacity m.buckets
        then overflow
        else if empty here
        then emplaced
            (record {
              buckets = set m.buckets idx (set_value (init_header key_bits here dist k) v);
              occupied = m.occupied + 1;
            })
            idx true
        else displace m k v idx dist

    unfoldable pub emplace_behind : RobinMap V → ℕ → V → Search → Emplaced V
    unfolding emplace_at
    emplace_behind m k v (found idx) = emplaced m idx false
    emplace_behind m k v (stopped idx dist) = emplace_at m k v idx dist

    unfoldable pub emplace : RobinMap V → ℕ → V → Emplaced V
    unfolding search emplace_behind
    emplace m k v = emplace_behind m k v (search m.buckets k)

    unfoldable pub insert_or_assign : RobinMap V → ℕ → V → Emplaced V
    unfolding emplace at_idx
    insert_or_assign m k v = elim (emplace m k v) [
      | emplaced p idx true ↦ emplaced p idx true
      | emplaced p idx false ↦
          emplaced (record p { buckets = set p.buckets idx (set_value (at_idx p.buckets idx) v) })
            idx false
      | overflow ↦ overflow
      | no_empty_bucket ↦ no_empty_bucket
    ]

    -- The buckets behind an erased one move back by one, with fuel.
    unfoldable pub shift_back : ℕ → List (Bucket V) → ℕ → ℕ → List (Bucket V)
    unfolding at_idx next_idx
    shift_back zero buckets idx next = buckets
    shift_back (suc fuel) buckets idx next =
        let from : Bucket V = at_idx buckets next in
        let to : Bucket V = assign (at_idx buckets idx) from in
        let rest =
          shift_back fuel
            (set (set buckets next (moved from)) idx
              (set_distance key_bits to (distance key_bits to - 1)))
            next (next_idx buckets next) in
        if ltb 1 (distance key_bits from) then rest else buckets

    unfoldable pub erase_at : RobinMap V → ℕ → RobinMap V
    unfolding shift_back capacity at_idx next_idx
    erase_at m idx =
        let buckets : List (Bucket V) = set m.buckets idx (destroy (at_idx m.buckets idx)) in
        record {
          buckets = shift_back (capacity m.buckets) buckets idx (next_idx m.buckets idx);
          occupied = (m.occupied + word64 - 1) % word64;
        }

    unfoldable pub erase : RobinMap V → ℕ → RobinMap V × Bool
    unfolding find erase_at
    erase m k = elim (find m k) [ some idx ↦ (erase_at m idx, true) | none ↦ (m, false) ]

  -- The sentinel keeps its header.
  unfoldable pub destroy_all : List (Bucket V) → List (Bucket V)
  destroy_all [] = []
  destroy_all (b ∷ []) = b ∷ []
  destroy_all (b ∷ c ∷ bs) = destroy b ∷ destroy_all (c ∷ bs)

  unfoldable pub clear : RobinMap V → RobinMap V
  unfolding destroy_all
  clear m = if m.occupied == 0 then m else record { buckets = destroy_all m.buckets; occupied = 0 }
