-- ===== src/RobinMap/Fresh.antt =====
-- The bucket that emplace of src/core/robin_map.hpp makes, and how its second loop starts.
use native.Mathlib.Nat.{mod-eq_of_lt}
use mathlib.Core.Option.{some-injective}
use braincells.Common.{
  ℕ, suc, ◌+◌, ◌-◌, ◌*◌, ◌%◌, ◌^◌, ◌≡◌, ◌<◌, sym, ap, ◌∙◌, true, false, List, [], ◌∷◌, Option, none,
  some, set, ltb, ◌==◌, Bool-cases, inl, inr, arith, not,
}
use braincells.RobinMap.Buckets.{
  Bucket, new, empty, init_header, set_value, set_distance, pack, distance, key,
}
use braincells.RobinMap.Header.{IsKeyWidth, header_lem, distance_pos}
use braincells.RobinMap.Assign.{IsSound, swap_lem, is_constructed}
use braincells.RobinMap.{
  RobinMap, at_idx, capacity, next_idx, relocate, Emplaced, emplaced, emplace_at, displace,
  no_empty_bucket,
}
use braincells.RobinMap.Entries.{entry}
use braincells.RobinMap.Chain.{dist_at, IsChain}
use braincells.RobinMap.Relocate.{IsCarried, relocate-suc, capacity-lt}
use braincells.RobinMap.Stop.{IsStop}

module _ (key_bits : ℕ) {V : Type 0} (hash : ℕ → ℕ) (width : IsKeyWidth key_bits) where
  -- The bucket that `emplace` makes.
  abbrev pub fresh : ℕ → ℕ → V → Bucket V
  fresh d k v = init_header key_bits (set_value new v) d k

  pub set_distance-fresh :
      (d k : ℕ) (v : V)
      → d < 65536
      → k < 2 ^ key_bits
      → set_distance key_bits (fresh d k v) d ≡ fresh d k v
  unfolding set_distance init_header set_value pack key
  set_distance-fresh d k v small fits =
      let h = (header_lem key_bits (set_value new v) d k width small fits).1 in
      ap (λ (x : ℕ). record { header = pack_with x; value = some v }) (h ∙ sym (mod-eq_of_lt fits))
    where
      pack_with : ℕ → ℕ
      pack_with x = d % 2 ^ 16 * 2 ^ key_bits % 2 ^ 64 + x

  pub fresh-IsCarried :
      (buckets : List (Bucket V)) (k offset i d : ℕ) (v : V)
      → IsChain key_bits hash buckets
      → k < 2 ^ key_bits
      → IsStop key_bits hash buckets k offset i d
      → IsCarried key_bits hash width buckets offset (fresh d k v) i d
  unfolding is_constructed init_header set_value
  fresh-IsCarried buckets k offset i d v c fits s =
      let h =
        header_lem key_bits (set_value new v) d k width
          (omega (arith, s.near, capacity-lt buckets c.small)) fits in
      let full : empty (fresh d k v) ≡ false =
        distance_pos key_bits (fresh d k v) (omega (arith, h.0, s.away)) in
      record {
        chain = c;
        inside = s.inside;
        hole = s.hole;
        full = full;
        sound = sym (ap not full);
        away = s.away;
        near = s.near;
        home = ap (λ (x : ℕ). (hash x % capacity buckets + d - 1) % capacity buckets) h.1 ∙ s.home;
        before = s.before;
      }

  abbrev pub landed : RobinMap V → List (Bucket V) × ℕ → Emplaced V
  landed m p = emplaced (record { buckets = p.0; occupied = m.occupied + 1 }) p.1 true

  pub displace-relocate :
      (m : RobinMap V) (k : ℕ) (v : V) (i d : ℕ) (p : List (Bucket V) × ℕ)
      → IsSound (at_idx m.buckets i)
      → IsSound (fresh d k v)
      → relocate key_bits hash
          (capacity m.buckets)
          (set m.buckets i (fresh d k v))
          (at_idx m.buckets i)
          (next_idx m.buckets i)
          (dist_at key_bits hash m.buckets i + 1)
        ≡ some p
      → displace key_bits hash m k v i d ≡ landed m p
  unfolding displace
  displace-relocate m k v i d p sound sound' e =
      ap (λ (s : Bucket V × Bucket V). after (onward s))
        (swap_lem (fresh d k v) (at_idx m.buckets i) sound' sound)
      ∙ ap after e
    where
      after : Option (List (Bucket V) × ℕ) → Emplaced V
      after r = elim r [
        | some (buckets, i) ↦
            emplaced (record { buckets = buckets; occupied = m.occupied + 1 }) i true
        | none ↦ no_empty_bucket
      ]

      onward : Bucket V × Bucket V → Option (List (Bucket V) × ℕ)
      onward s =
          relocate key_bits hash (capacity m.buckets) (set m.buckets i s.1) s.0
            (next_idx m.buckets i) (distance key_bits s.0 + 1)

  -- Behind the search, the loop does the whole work, the first bucket included.
  pub emplace_at-relocate :
      (m : RobinMap V) (k : ℕ) (v : V) (i d : ℕ) (p : List (Bucket V) × ℕ)
      → (m.occupied == capacity m.buckets) ≡ false
      → IsSound (at_idx m.buckets i)
      → dist_at key_bits hash m.buckets i < d
      → d < 65536
      → k < 2 ^ key_bits
      → empty (fresh d k v) ≡ false
      → IsSound (fresh d k v)
      → relocate key_bits hash (suc (capacity m.buckets)) m.buckets (fresh d k v) i d ≡ some p
      → emplace_at key_bits hash m k v i d ≡ landed m p
  unfolding emplace_at displace capacity set_value init_header
  emplace_at-relocate m k v i d p free sound poorer small fits full sound' e =
      let r =
        rw
          (
            relocate-suc key_bits hash width (capacity m.buckets) m.buckets (fresh d k v) i d full
                sound' sound,
            set_distance-fresh d k v small fits,
          )
          at e in
      rw free (elim (Bool-cases (empty (at_idx m.buckets i))) [
        | inl vacant ↦
            rw vacant
              (ap (landed m) (some-injective (set m.buckets i (fresh d k v), i) p (rw vacant at r)))
        | inr taken ↦
            let poorer_there : ltb (dist_at key_bits hash m.buckets i) d ≡ true = ground arith in
            rw taken (displace-relocate m k v i d p sound sound' (rw (taken, poorer_there) at r))
      ])

  pub entry-fresh :
      (d k : ℕ) (v : V)
      → d < 65536
      → k < 2 ^ key_bits
      → empty (fresh d k v) ≡ false
      → entry key_bits (fresh d k v) ≡ (k, some v) ∷ []
  unfolding init_header set_value
  entry-fresh d k v small fits full = rw full (
      ap (λ (x : ℕ). (x, some v) ∷ [])
        (header_lem key_bits (set_value new v) d k width small fits).1)
