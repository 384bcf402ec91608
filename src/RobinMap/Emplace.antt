-- ===== src/RobinMap/Emplace.antt =====
-- What emplace of src/core/robin_map.hpp does with a key that is there, and with an empty bucket.
use mathlib.Core.Option.{some-injective}
use braincells.Common.{
  subst, ℕ, zero, suc, ◌+◌, ◌-◌, ◌%◌, ◌^◌, ◌≡◌, ◌≢◌, ◌⊎◌, ◌<◌, ◌≤◌, refl, sym, ap, ap₂, ◌∙◌, Bool,
  true, false, List, some, length, set, ltb, ◌==◌, inl, inr, if◌then◌else◌, arith, length-set,
  get_or-set_self, get_or-set_ne,
}
use braincells.RobinMap.Buckets.{Bucket, new, distance, key, init_header, set_value, empty}
use braincells.RobinMap.Header.{IsKeyWidth, header_lem, distance_pos}
use braincells.RobinMap.{
  RobinMap, Search, found, stopped, capacity, max_distance, next_idx, at_idx, to_idx, probe, search,
  find, emplace, emplace_at, emplace_behind, iterator, emplaced,
}
use braincells.RobinMap.Probe.{Holds, search-Holds}

-- How one round of the search can end at a bucket.
inversion :
    (last poorer same : Bool) (idx dist i d : ℕ) (rest : Search)
    → (if last
        then stopped idx dist
        else if poorer
        then stopped idx dist
        else if same
        then found idx
        else rest)
      ≡ stopped i d
    → ((idx ≡ i) × (dist ≡ d))
      ⊎ ((last ≡ false) × (poorer ≡ false) × (same ≡ false) × (rest ≡ stopped i d))
inversion true poorer same idx dist i d rest e = inl (cc, cc)
inversion false true same idx dist i d rest e = inl (cc, cc)
inversion false false true idx dist i d rest e = cc
inversion false false false idx dist i d rest e = inr (refl, refl, refl, e)

module _ (key_bits : ℕ) {V : Type 0} (hash : ℕ → ℕ) where
  kept :
      (m : RobinMap V) (k i : ℕ) (v : V) (s : Search)
      → iterator s ≡ some i
      → emplace_behind key_bits hash m k v s ≡ emplaced m i false
  unfolding iterator emplace_behind
  kept m k i v (found j) e = ap (λ (n : ℕ). emplaced m n false) (some-injective j i e)
  kept m k i v (stopped j d) e = cc

  -- `emplace` of a key that `find` finds inserts nothing and returns the same iterator.
  pub emplace-find :
      (m : RobinMap V) (k i : ℕ) (v : V)
      → find key_bits hash m k ≡ some i
      → emplace key_bits hash m k v ≡ emplaced m i false
  unfolding find emplace
  emplace-find m k i v e = kept m k i v (search key_bits hash m.buckets k) e

  max_distance-set :
      (buckets : List (Bucket V)) (i : ℕ) (b : Bucket V)
      → max_distance (set buckets i b) ≡ max_distance buckets
  unfolding max_distance
  max_distance-set buckets i b =
      ap (λ (n : ℕ). if ltb n 65535 then n + 1 else 65535) (length-set buckets i b)

  pub at_idx-set_self :
      (buckets : List (Bucket V)) (i : ℕ) (b : Bucket V)
      → i < length buckets
      → at_idx (set buckets i b) i ≡ b
  unfolding at_idx
  at_idx-set_self buckets i b h = get_or-set_self buckets i b new h

  pub at_idx-set_ne :
      (buckets : List (Bucket V)) (i j : ℕ) (b : Bucket V)
      → i ≢ j
      → at_idx (set buckets i b) j ≡ at_idx buckets j
  unfolding at_idx
  at_idx-set_ne buckets i j b h = get_or-set_ne buckets i j b new h

  next_idx-set :
      (buckets : List (Bucket V)) (i : ℕ) (b : Bucket V) (idx : ℕ)
      → next_idx (set buckets i b) idx ≡ next_idx buckets idx
  unfolding next_idx capacity
  next_idx-set buckets i b idx = ap (λ (n : ℕ). (idx + 1) % (n - 1)) (length-set buckets i b)

  -- A search that stopped at an empty bucket finds it once it holds the key at that distance.
  module _ (limit : ℕ) (buckets : List (Bucket V)) (k i d : ℕ) (b : Bucket V)
      (inside : i < length buckets) (early : d ≢ limit) (hole : empty (at_idx buckets i) ≡ true)
      (hd : distance key_bits b ≡ d) (hk : key key_bits b ≡ k) where
    filled : List (Bucket V)
    filled = set buckets i b

    arrives :
        (fuel idx dist : ℕ)
        → idx ≡ i
        → dist ≡ d
        → probe key_bits limit (suc fuel) filled k idx dist ≡ found i
    unfolding probe filled
    arrives fuel idx dist e e' =
        let here : at_idx filled idx ≡ b =
          ap (λ (n : ℕ). at_idx filled n) e ∙ at_idx-set_self buckets i b inside in
        let not_last : (dist == limit) ≡ false = ground arith in
        let not_poorer : ltb (distance key_bits (at_idx filled idx)) dist ≡ false =
          ground (arith, ap (distance key_bits) here ∙ hd) in
        let same : (key key_bits (at_idx filled idx) == k) ≡ true =
          ground (arith, ap (key key_bits) here ∙ hk) in
        rw (not_last, not_poorer, same) (ap found e)

    probe-filled :
        (fuel idx dist : ℕ)
        → probe key_bits limit fuel buckets k idx dist ≡ stopped i d
        → limit < dist + fuel
        → dist ≤ limit
        → 0 < dist
        → probe key_bits limit fuel filled k idx dist ≡ found i
    unfolding probe filled
    probe-filled zero idx dist e enough le pos = absurd (omega arith)
    probe-filled (suc fuel) idx dist e enough le pos =
        elim (inversion (dist == limit) (ltb (distance key_bits (at_idx buckets idx)) dist)
          (key key_bits (at_idx buckets idx) == k) idx dist i d
          (probe key_bits limit fuel buckets k (next_idx buckets idx) (dist + 1)) e) [
            | inl (here, now) ↦ arrives fuel idx dist here now
            | inr (more, richer, other, rest) ↦
                let full = distance_pos key_bits (at_idx buckets idx) (ground arith) in
                let elsewhere : i ≢ idx = λ c.
                  let clash : true ≡ false =
                    sym hole ∙ ap (λ (n : ℕ). empty (at_idx buckets n)) c ∙ full in
                  cc in
                rw
                  (
                    at_idx-set_ne buckets i idx b elsewhere,
                    next_idx-set buckets i b idx,
                    more,
                    richer,
                    other,
                  )
                  (probe-filled fuel (next_idx buckets idx) (dist + 1) rest (omega arith)
                    (ground arith) (omega arith))
          ]

  search-set :
      (buckets : List (Bucket V)) (k i d : ℕ) (b : Bucket V)
      → 0 < capacity buckets
      → search key_bits hash buckets k ≡ stopped i d
      → d ≢ max_distance buckets
      → empty (at_idx buckets i) ≡ true
      → distance key_bits b ≡ d
      → key key_bits b ≡ k
      → search key_bits hash (set buckets i b) k ≡ found i
  unfolding search to_idx capacity filled
  search-set buckets k i d b room stop early hole hd hk =
      let h =
        subst (Holds key_bits hash (max_distance buckets) buckets k) stop
          (search-Holds key_bits hash buckets k room) in
      let start : hash k % (length (set buckets i b) - 1) ≡ to_idx key_bits hash buckets k =
        ap (λ (n : ℕ). hash k % (n - 1)) (length-set buckets i b) in
      ap₂ (λ (n j : ℕ). probe key_bits n n (set buckets i b) k j 1) (max_distance-set buckets i b)
        start
      ∙ probe-filled (max_distance buckets) buckets k i d b (omega (arith, h.0)) early hole hd hk
          (max_distance buckets) (to_idx key_bits hash buckets k) 1 stop (omega arith)
          (omega (arith, h.1, h.2)) (omega arith)

  -- `emplace` into an empty bucket: the key is found there afterwards, with the value.
  pub find-emplace :
      (m : RobinMap V) (k : ℕ) (v : V) (i d : ℕ)
      → IsKeyWidth key_bits
      → k < 2 ^ key_bits
      → 0 < capacity m.buckets
      → search key_bits hash m.buckets k ≡ stopped i d
      → d ≢ max_distance m.buckets
      → empty (at_idx m.buckets i) ≡ true
      → m.occupied ≢ capacity m.buckets
      → let b : Bucket V = set_value (init_header key_bits (at_idx m.buckets i) d k) v in
        let p : RobinMap V = record { buckets = set m.buckets i b; occupied = m.occupied + 1 } in
        (emplace key_bits hash m k v ≡ emplaced p i true)
        × (find key_bits hash p k ≡ some i)
        × ((at_idx p.buckets i).value ≡ some v)
  unfolding find emplace iterator emplace_behind emplace_at set_value distance key max_distance
      capacity
  find-emplace m k v i d width small room stop early hole free =
      let b : Bucket V = set_value (init_header key_bits (at_idx m.buckets i) d k) v in
      let h =
        subst (Holds key_bits hash (max_distance m.buckets) m.buckets k) stop
          (search-Holds key_bits hash m.buckets k room) in
      let header = header_lem key_bits (at_idx m.buckets i) d k width (ground (arith, h.2)) small in
      let vacant : (m.occupied == capacity m.buckets) ≡ false = ground arith in
      (
        ap (emplace_behind key_bits hash m k v) stop ∙ rw (vacant, hole) refl,
        ap iterator (search-set m.buckets k i d b room stop early hole header.0 header.1),
        ap (λ (c : Bucket V). c.value) (at_idx-set_self m.buckets i b (omega (arith, h.0))),
      )
