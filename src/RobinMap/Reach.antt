-- ===== src/RobinMap/Reach.antt =====
-- The maps that a program can make with core::robin_map_impl (src/core/robin_map.hpp).
use braincells.Common.{ℕ, ◌^◌, ◌≡◌, ◌<◌, sym, ap, ◌∙◌, subst, Bool, true, false, inl, inr}
use braincells.RobinMap.Header.{IsKeyWidth}
use braincells.RobinMap.{
  RobinMap, Emplaced, emplace, emplaced, overflow, no_empty_bucket, erase, insert_or_assign, clear,
}
use braincells.RobinMap.Valid.{IsValid}
use braincells.RobinMap.Erase.{erase_lem}
use braincells.RobinMap.Blank.{new_map, new_map-IsValid, clear-IsValid}
use braincells.RobinMap.Branches.{emplace-entries}
use braincells.RobinMap.Overwrite.{Assigned, insert_or_assign_lem}

module _ (key_bits : ℕ) {V : Type 0} (hash : ℕ → ℕ) (width : IsKeyWidth key_bits) where
  -- What a program can make of a new map of `n` buckets.
  pub data Reachable (n : ℕ) : RobinMap V → Type 0 where
    started : Reachable n (new_map key_bits n)
    inserted :
        {m p : RobinMap V} {i : ℕ} {b : Bool} (k : ℕ) (v : V)
        → Reachable n m
        → k < 2 ^ key_bits
        → emplace key_bits hash m k v ≡ emplaced p i b
        → Reachable n p
    assigned :
        {m p : RobinMap V} {i : ℕ} {b : Bool} (k : ℕ) (v : V)
        → Reachable n m
        → k < 2 ^ key_bits
        → insert_or_assign key_bits hash m k v ≡ emplaced p i b
        → Reachable n p
    removed : {m : RobinMap V} (k : ℕ) → Reachable n m → Reachable n (erase key_bits hash m k).0
    emptied : {m : RobinMap V} → Reachable n m → Reachable n (clear key_bits m)

  abbrev map_of : RobinMap V → Emplaced V → RobinMap V
  map_of m (emplaced p i b) = p
  map_of m overflow = m
  map_of m no_empty_bucket = m

  emplace-IsValid :
      (m p : RobinMap V) (k : ℕ) (v : V) (i : ℕ) (b : Bool)
      → IsValid key_bits hash m
      → k < 2 ^ key_bits
      → emplace key_bits hash m k v ≡ emplaced p i b
      → IsValid key_bits hash p
  emplace-IsValid m p k v i b valid fits e =
      elim (emplace-entries key_bits hash width m k v valid fits) [
        | inl (_, _, same) ↦ subst (IsValid key_bits hash) (ap (map_of m) (sym same ∙ e)) valid
        | inr (inl (_, _, full)) ↦ let clash : overflow ≡ emplaced p i b = sym full ∙ e in cc
        | inr (inr (_, q, _, new, valid', _, _)) ↦
            subst (IsValid key_bits hash) (ap (map_of m) (sym new ∙ e)) valid'
      ]

  erase-IsValid :
      (m : RobinMap V) (k : ℕ)
      → IsValid key_bits hash m
      → IsValid key_bits hash (erase key_bits hash m k).0
  erase-IsValid m k valid = elim (erase_lem key_bits hash width m k valid) [
    | inl (e, _) ↦ rw e valid
    | inr (p, _, e, valid', _, _, _) ↦ rw e valid'
  ]

  Assigned-IsValid :
      (m p : RobinMap V) (k : ℕ) (v : V) (i : ℕ) (b : Bool)
      → Assigned key_bits hash width m k v (emplaced p i b)
      → IsValid key_bits hash p
  Assigned-IsValid m p k v i true r = r.0
  Assigned-IsValid m p k v i false r = r.1

  pub Reachable-IsValid :
      (n : ℕ) (m : RobinMap V) → 0 < n → n < 65534 → Reachable n m → IsValid key_bits hash m
  Reachable-IsValid n _ room small started = (new_map-IsValid key_bits hash width n room small).0
  Reachable-IsValid n _ room small (inserted {m} {p} {i} {b} k v r fits e) =
      emplace-IsValid m p k v i b (Reachable-IsValid n m room small r) fits e
  Reachable-IsValid n _ room small (assigned {m} {p} {i} {b} k v r fits e) =
      Assigned-IsValid m p k v i b (
        subst (Assigned key_bits hash width m k v) e (
          insert_or_assign_lem key_bits hash width m k v (Reachable-IsValid n m room small r) fits))
  Reachable-IsValid n _ room small (removed {m} k r) =
      erase-IsValid m k (Reachable-IsValid n m room small r)
  Reachable-IsValid n _ room small (emptied {m} r) =
      (clear-IsValid key_bits hash width m (Reachable-IsValid n m room small r)).0
