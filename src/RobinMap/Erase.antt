-- ===== src/RobinMap/Erase.antt =====
-- erase of src/core/robin_map.hpp on a valid map.
use mathlib.Core.List.{Mem, Nodup-cons, Perm}
use mathlib.Core.List.Perm
use braincells.Common.{
  ℕ, ◌+◌, ◌-◌, ◌%◌, ◌≡◌, ◌<◌, ◌⊎◌, refl, ap, ◌∙◌, Bool, true, false, List, ◌∷◌, ◌++◌, Option, none,
  some, set, length-perm, inl, inr, arith, word64,
}
use braincells.RobinMap.Buckets.{Bucket, new, key, empty, destroy}
use braincells.RobinMap.Header.{IsKeyWidth}
use braincells.RobinMap.{RobinMap, at_idx, capacity, next_idx, shift_back, erase, erase_at}
use braincells.RobinMap.Entries.{entry, entries, entries-set, length-entries}
use braincells.RobinMap.Chain.{dist_at, IsChain, next_idx-lt, next_idx-set, capacity-set}
use braincells.RobinMap.Stop.{offset}
use braincells.RobinMap.Relocate.{next_offset, capacity-lt}
use braincells.RobinMap.Probe.{find_lem}
use braincells.RobinMap.Gap.{emptied-IsGap}
use braincells.RobinMap.Close.{Closes, shift_back-Closes}
use braincells.RobinMap.Valid.{keys, IsLow, IsValid, find-entries}

module _ (key_bits : ℕ) {V : Type 0} (hash : ℕ → ℕ) (width : IsKeyWidth key_bits) where
  shrunk-IsValid :
      (m q : RobinMap V) (k : ℕ) (v : Option V)
      → IsValid key_bits hash m
      → IsChain key_bits hash q.buckets
      → IsLow key_bits hash q.buckets
      → q.occupied + 1 ≡ m.occupied
      → Perm (entries key_bits m.buckets) ((k, v) ∷ entries key_bits q.buckets)
      → IsValid key_bits hash q × (¬ Mem k (keys (entries key_bits q.buckets)))
  shrunk-IsValid m q k v valid chain low less perm =
      let parts =
        Nodup-cons.0 (Perm.nodup (Perm.map (λ (e : ℕ × Option V). e.0) perm) valid.distinct) in
      (
        record {
          chain = chain;
          low = low;
          counted = omega (arith, less, length-perm perm, valid.counted);
          distinct = parts.1;
        },
        parts.0,
      )

  -- What `erase` of the bucket leaves in the table.
  erased :
      (buckets : List (Bucket V)) (idx : ℕ)
      → IsChain key_bits hash buckets
      → IsLow key_bits hash buckets
      → idx < capacity buckets
      → Closes key_bits hash width (set buckets idx new) (
          shift_back key_bits hash
            (capacity buckets)
            (set buckets idx new)
            idx
            (next_idx buckets idx))
  erased buckets idx c low h =
      let way =
        offset (capacity buckets) (next_idx buckets idx) low.0 (next_idx-lt buckets idx c.room)
          low.1 in
      let low_there = ap (dist_at key_bits hash buckets) (next_offset buckets idx way.0 ∙ way.2) in
      let g =
        emptied-IsGap key_bits hash width buckets idx c h way.0 way.1
          (omega (arith, low.2, low_there)) in
      rw (next_idx-set buckets idx idx new) at (
        shift_back-Closes key_bits hash width way.0 (capacity buckets) (set buckets idx new) idx g
          way.1)

  -- The map after the bucket's entry is erased.
  abbrev Lost : RobinMap V → ℕ → RobinMap V → Type 0
  Lost m idx p =
      let b = at_idx m.buckets idx in
      IsValid key_bits hash p
      × (capacity p.buckets ≡ capacity m.buckets)
      × Perm (entries key_bits m.buckets) ((key key_bits b, b.value) ∷ entries key_bits p.buckets)
      × (¬ Mem (key key_bits b) (keys (entries key_bits p.buckets)))

  abbrev without : RobinMap V → ℕ → RobinMap V
  without m idx = record {
    buckets =
        shift_back key_bits hash (capacity m.buckets) (set m.buckets idx new) idx
          (next_idx m.buckets idx);
    occupied = (m.occupied + word64 - 1) % word64;
  }

  erase_at-without :
      (m : RobinMap V) (idx : ℕ)
      → empty (at_idx m.buckets idx) ≡ false
      → erase_at key_bits hash m idx ≡ without m idx
  unfolding erase_at destroy new
  erase_at-without m idx full = rw full refl

  entries-emptied :
      (buckets : List (Bucket V)) (idx : ℕ)
      → idx < capacity buckets
      → Perm
          (entries key_bits buckets)
          (entry key_bits (at_idx buckets idx) ++ entries key_bits (set buckets idx new))
  unfolding empty new
  entries-emptied buckets idx h = entries-set key_bits buckets idx new h

  without-Lost :
      (m : RobinMap V) (idx : ℕ)
      → IsValid key_bits hash m
      → idx < capacity m.buckets
      → empty (at_idx m.buckets idx) ≡ false
      → Lost m idx (without m idx)
  without-Lost m idx valid h full =
      let b = at_idx m.buckets idx in
      let (chain, low, wide, perm) = erased m.buckets idx valid.chain valid.low h in
      let out = entries-emptied m.buckets idx h in
      let lost : Perm (entries key_bits m.buckets)
          ((key key_bits b, b.value) ∷ entries key_bits (without m idx).buckets) =
        rw full at (Perm.trans out (Perm.append_left (entry key_bits b) (Perm.symm perm))) in
      let less : (m.occupied + word64 - 1) % word64 + 1 ≡ m.occupied = omega (
        arith,
        valid.counted,
        length-perm lost,
        length-entries key_bits m.buckets,
        capacity-lt m.buckets valid.chain.small,
      ) in
      let r = shrunk-IsValid m (without m idx) (key key_bits b) b.value valid chain low less lost in
      (r.0, wide ∙ capacity-set m.buckets idx new, lost, r.1)

  pub erase_lem :
      (m : RobinMap V) (k : ℕ)
      → IsValid key_bits hash m
      → ((erase key_bits hash m k ≡ (m, false)) × (¬ Mem k (keys (entries key_bits m.buckets))))
        ⊎ ((p : RobinMap V) × (v : Option V) × (erase key_bits hash m k ≡ (p, true))
            × IsValid key_bits hash p
            × (capacity p.buckets ≡ capacity m.buckets)
            × Perm (entries key_bits m.buckets) ((k, v) ∷ entries key_bits p.buckets)
            × (¬ Mem k (keys (entries key_bits p.buckets))))
  unfolding erase
  erase_lem m k valid = elim (find-entries key_bits hash m k valid) [
    | inl r ↦ inl (ap after r.0, r.3)
    | inr (i, e, test, value, mem) ↦
        let (inside, same, full) = find_lem key_bits hash m k i valid.chain.room e in
        let lost = without-Lost m i valid inside full in
        inr (
          without m i,
          (at_idx m.buckets i).value,
          ap after e ∙ ap (λ p. (p, true)) (erase_at-without m i full),
          lost.0,
          lost.1,
          rw same at lost.2,
          rw same at lost.3,
        )
  ]
    where
      after : Option ℕ → RobinMap V × Bool
      after o = elim o [ some idx ↦ (erase_at key_bits hash m idx, true) | none ↦ (m, false) ]
