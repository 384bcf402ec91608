-- ===== src/RobinMap/Insert.antt =====
-- emplace of src/core/robin_map.hpp for a key that the map does not have.
use native.Mathlib.Nat.{mod-lt, mod-add-mod}
use mathlib.Core.List.{Mem, Nodup-cons, Perm}
use mathlib.Core.List.Perm
use braincells.Common.{
  ℕ, suc, ◌+◌, ◌%◌, ◌^◌, ◌≡◌, ◌<◌, ◌≤◌, refl, sym, ap, ◌∙◌, subst, true, List, ◌∷◌, ◌++◌, Option,
  none, some, length-perm, inl, inr, arith,
}
use braincells.RobinMap.Buckets.{Bucket}
use braincells.RobinMap.Header.{IsKeyWidth, distance-empty}
use braincells.RobinMap.{
  RobinMap, at_idx, capacity, next_idx, emplaced, find, emplace, emplace_behind,
}
use braincells.RobinMap.Entries.{entries, empty_bucket}
use braincells.RobinMap.Chain.{dist_at, IsChain}
use braincells.RobinMap.Relocate.{capacity-lt}
use braincells.RobinMap.Fresh.{fresh, fresh-IsCarried, emplace_at-relocate, entry-fresh}
use braincells.RobinMap.Settle.{relocate_lem}
use braincells.RobinMap.Stop.{IsStop, search-IsStop}
use braincells.RobinMap.Valid.{keys, IsLow, IsValid, find-entries}

module _ (key_bits : ℕ) {V : Type 0} (hash : ℕ → ℕ) (width : IsKeyWidth key_bits) where
  behind_hole :
      (buckets : List (Bucket V)) (k offset i d : ℕ)
      → IsChain key_bits hash buckets
      → IsStop key_bits hash buckets k offset i d
      → dist_at key_bits hash buckets ((i + suc offset) % capacity buckets) ≤ 1
  unfolding next_idx
  behind_hole buckets k offset i d c s =
      let x : ℕ = (i + offset) % capacity buckets in
      let next : next_idx buckets x ≡ (i + suc offset) % capacity buckets =
        mod-add-mod (i + offset) (capacity buckets) 1
        ∙ ap (λ (n : ℕ). n % capacity buckets) {y = i + suc offset} (omega arith) in
      omega (
        arith,
        c.steps x (mod-lt (i + offset) c.room),
        distance-empty key_bits (at_idx buckets x) s.hole,
        ap (dist_at key_bits hash buckets) next,
      )

  absent :
      (m : RobinMap V) (k : ℕ)
      → IsValid key_bits hash m
      → find key_bits hash m k ≡ none
      → ¬ (Mem k (keys (entries key_bits m.buckets)))
  absent m k valid missing = elim (find-entries key_bits hash m k valid) [
    | inl r ↦ r.3
    | inr r ↦ let clash : none ≡ some r.0 = sym missing ∙ r.1 in cc
  ]

  grown-IsValid :
      (m q : RobinMap V) (k : ℕ) (v : V)
      → IsValid key_bits hash m
      → IsChain key_bits hash q.buckets
      → IsLow key_bits hash q.buckets
      → q.occupied ≡ m.occupied + 1
      → Perm (entries key_bits q.buckets) ((k, some v) ∷ entries key_bits m.buckets)
      → ¬ (Mem k (keys (entries key_bits m.buckets)))
      → IsValid key_bits hash q
  grown-IsValid m q k v valid chain low more perm new_key = record {
    chain = chain;
    low = low;
    counted = omega (arith, more, length-perm perm, valid.counted);
    distinct =
        Perm.nodup (Perm.symm (Perm.map (λ (e : ℕ × Option V). e.0) perm))
          (Nodup-cons.1 (new_key, valid.distinct));
  }

  -- `emplace` of a key that a valid map with room does not have: it ends within the fuel of its loops, the
  -- map is valid again, and its entries are those it had and the new one.
  pub emplace_lem :
      (m : RobinMap V) (k : ℕ) (v : V)
      → IsValid key_bits hash m
      → m.occupied < capacity m.buckets
      → k < 2 ^ key_bits
      → find key_bits hash m k ≡ none
      → (p : RobinMap V) × (i : ℕ) × (emplace key_bits hash m k v ≡ emplaced p i true)
        × IsValid key_bits hash p
        × (capacity p.buckets ≡ capacity m.buckets)
        × Perm (entries key_bits p.buckets) ((k, some v) ∷ entries key_bits m.buckets)
  unfolding find emplace
  emplace_lem m k v valid free fits missing =
      let hole = empty_bucket key_bits m.buckets (omega (arith, valid.counted)) in
      let (offset, i, d, stop, s, poorer) =
        search-IsStop key_bits hash m.buckets k hole.0 valid.chain hole.1 hole.2 missing in
      let small : d < 65536 = omega (arith, s.near, capacity-lt m.buckets valid.chain.small) in
      let c = fresh-IsCarried key_bits hash width m.buckets k offset i d v valid.chain fits s in
      let y : ℕ = (i + suc offset) % capacity m.buckets in
      let (p, e, chain, same, perm, low) =
        relocate_lem key_bits hash width offset (suc (capacity m.buckets)) m.buckets
          (fresh key_bits hash width d k v) i d y c (omega (arith, s.near)) refl in
      let low_there = low (behind_hole m.buckets k offset i d valid.chain s) in
      let inside : y < capacity p.0 =
        omega (arith, same, mod-lt (i + suc offset) valid.chain.room) in
      let grown =
        subst (λ l. Perm (entries key_bits p.0) (l ++ entries key_bits m.buckets))
          (entry-fresh key_bits hash width d k v small fits c.full) perm in
      (
        record { buckets = p.0; occupied = m.occupied + 1 },
        p.1,
        ap (emplace_behind key_bits hash m k v) stop
            ∙ emplace_at-relocate key_bits hash width m k v i d p (ground arith)
                (valid.chain.placed i s.inside).sound poorer small fits c.full c.sound e,
        grown-IsValid m (record { buckets = p.0; occupied = m.occupied + 1 }) k v valid chain
            (y, inside, low_there) refl grown (absent m k valid missing),
        same,
        grown,
      )
