-- ===== src/RobinMap/Overwrite.antt =====
-- insert_or_assign of src/core/robin_map.hpp.
use mathlib.Core.List.{Perm}
use mathlib.Core.List.Perm
use braincells.Common.{
  ℕ, ◌^◌, ◌≡◌, ◌<◌, sym, ap, ◌∙◌, subst, true, false, ◌∷◌, Option, some, length-perm, set, inl, inr,
  arith, not, Bool-cases, ◌==◌, ==_iff,
}
use braincells.RobinMap.Buckets.{Bucket, key, distance, empty, set_value}
use braincells.RobinMap.Header.{IsKeyWidth}
use braincells.RobinMap.Assign.{is_constructed}
use braincells.RobinMap.{
  RobinMap, at_idx, capacity, Emplaced, emplaced, overflow, no_empty_bucket, insert_or_assign,
}
use braincells.RobinMap.Entries.{entries, entries-set}
use braincells.RobinMap.Chain.{
  IsPlaced, IsChain, dist_at, set-IsChain, capacity-set, at_idx-set, lt-length,
}
use braincells.RobinMap.Probe.{find_lem}
use braincells.RobinMap.Valid.{IsValid}
use braincells.RobinMap.Branches.{emplace-entries}

module _ (key_bits : ℕ) {V : Type 0} (hash : ℕ → ℕ) (width : IsKeyWidth key_bits) where
  module _ (m : RobinMap V) (i : ℕ) (v : V) (valid : IsValid key_bits hash m)
      (inside : i < capacity m.buckets) (full : empty (at_idx m.buckets i) ≡ false) where
    abbrev old : Bucket V
    old = at_idx m.buckets i

    abbrev overwritten : RobinMap V
    overwritten = record m { buckets = set m.buckets i (set_value old v) }

    value-IsPlaced : IsPlaced key_bits hash (capacity m.buckets) i (set_value old v)
    unfolding set_value is_constructed distance key empty
    value-IsPlaced =
        let place = valid.chain.placed i inside in
        record {
          near = place.near;
          sound = sym (ap not full);
          away = place.away;
          home = place.home;
        }

    overwritten-IsChain : IsChain key_bits hash overwritten.buckets
    unfolding set_value distance
    overwritten-IsChain =
        set-IsChain key_bits hash m.buckets i (set_value old v) valid.chain inside value-IsPlaced
          (λ j lt e. omega (arith, valid.chain.steps j lt, ap (dist_at key_bits hash m.buckets) e))
          (valid.chain.steps i inside)

    entries-overwritten :
        Perm
          ((key key_bits old, some v) ∷ entries key_bits m.buckets)
          ((key key_bits old, old.value) ∷ entries key_bits overwritten.buckets)
    unfolding set_value empty key
    entries-overwritten = rw full at (entries-set key_bits m.buckets i (set_value old v) inside)

    same-distance :
        (x : ℕ) → dist_at key_bits hash overwritten.buckets x ≡ dist_at key_bits hash m.buckets x
    unfolding set_value distance
    same-distance x =
        let there =
          ap (distance key_bits)
            (at_idx-set m.buckets i x (set_value old v) (lt-length m.buckets i inside)) in
        elim (Bool-cases (i == x)) [
          | inl e ↦ (rw e at there) ∙ ap (dist_at key_bits hash m.buckets) ((==_iff i x).0 e)
          | inr e ↦ rw e at there
        ]

    overwritten-IsValid : IsValid key_bits hash overwritten
    overwritten-IsValid =
        let same_keys = Perm.map (λ (e : ℕ × Option V). e.0) entries-overwritten in
        record {
          chain = overwritten-IsChain;
          low = (
            valid.low.0,
            omega (arith, valid.low.1, capacity-set m.buckets i (set_value old v)),
            omega (arith, valid.low.2, same-distance valid.low.0),
          );
          counted = omega (arith, valid.counted, length-perm entries-overwritten);
          distinct = Perm.nodup (Perm.cons_inv same_keys) valid.distinct;
        }

  -- What `insert_or_assign` comes to.
  abbrev pub Assigned : RobinMap V → ℕ → V → Emplaced V → Type 0
  Assigned m k v overflow = m.occupied ≡ capacity m.buckets
  Assigned m k v no_empty_bucket = ⊥
  Assigned m k v (emplaced p i true) =
      IsValid key_bits hash p
      × Perm (entries key_bits p.buckets) ((k, some v) ∷ entries key_bits m.buckets)
  Assigned m k v (emplaced p i false) =
      (w : Option V) × IsValid key_bits hash p
      × Perm ((k, some v) ∷ entries key_bits m.buckets) ((k, w) ∷ entries key_bits p.buckets)

  -- `insert_or_assign` into a valid map: it throws only in a full map; of a new key it adds the entry, and of
  -- one that an entry has it changes that entry's value alone; the map is valid afterwards.
  pub insert_or_assign_lem :
      (m : RobinMap V) (k : ℕ) (v : V)
      → IsValid key_bits hash m
      → k < 2 ^ key_bits
      → Assigned m k v (insert_or_assign key_bits hash m k v)
  unfolding insert_or_assign
  insert_or_assign_lem m k v valid fits =
      elim (emplace-entries key_bits hash width m k v valid fits) [
        | inl (i, e, kept) ↦
            let (inside, same, full) = find_lem key_bits hash m k i valid.chain.room e in
            subst (λ r. Assigned m k v (after r)) (sym kept)
              (
                (at_idx m.buckets i).value,
                overwritten-IsValid m i v valid inside full,
                rw same at (entries-overwritten m i v valid inside full),
              )
        | inr (inl (_, full, e)) ↦ subst (λ r. Assigned m k v (after r)) (sym e) full
        | inr (inr (_, p, i, e, valid', _, perm)) ↦
            subst (λ r. Assigned m k v (after r)) (sym e) (valid', perm)
      ]
    where
      after : Emplaced V → Emplaced V
      after r = elim r [
        | emplaced p idx true ↦ emplaced p idx true
        | emplaced p idx false ↦
            emplaced (record p { buckets = set p.buckets idx (set_value (at_idx p.buckets idx) v) })
              idx false
        | overflow ↦ overflow
        | no_empty_bucket ↦ no_empty_bucket
      ]
