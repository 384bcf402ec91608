-- ===== src/RobinMap/Gap.antt =====
-- The gap that erase of src/core/robin_map.hpp leaves in a table.
use braincells.Common.{
  ℕ, suc, ◌+◌, ◌%◌, ◌≡◌, ◌≢◌, ◌<◌, ◌≤◌, refl, sym, ap, ◌∙◌, subst, true, List, length, set,
  length-set, ◌==◌, ==_iff, Bool-cases, inl, inr, arith, ◌⊎◌,
}
use braincells.RobinMap.Buckets.{Bucket, new, empty, distance}
use braincells.RobinMap.Header.{IsKeyWidth, distance-empty}
use braincells.RobinMap.Assign.{is_constructed}
use braincells.RobinMap.{at_idx, capacity, next_idx}
use braincells.RobinMap.Chain.{IsPlaced, dist_at, IsChain, capacity-set, next_idx-set, lt-length}
use braincells.RobinMap.Emplace.{at_idx-set_self, at_idx-set_ne}

module _ (key_bits : ℕ) {V : Type 0} (hash : ℕ → ℕ) (width : IsKeyWidth key_bits) where
  -- A table that is a chain except behind an empty bucket; `r` further is one that ends the loop.
  pub record IsGap (buckets : List (Bucket V)) (r idx : ℕ) : Type 0 where
    pub room : 0 < capacity buckets
    pub small : length buckets < 65535
    pub placed :
        (i : ℕ)
        → i < capacity buckets
        → IsPlaced key_bits hash (capacity buckets) i (at_idx buckets i)
    pub inside : idx < capacity buckets
    pub gap : empty (at_idx buckets idx) ≡ true
    pub steps :
        (j : ℕ)
        → j < capacity buckets
        → j ≢ idx
        → dist_at key_bits hash buckets (next_idx buckets j) ≤ dist_at key_bits hash buckets j + 1
    pub across :
        (q : ℕ)
        → q < capacity buckets
        → next_idx buckets q ≡ idx
        → dist_at key_bits hash buckets (next_idx buckets idx) ≤ dist_at key_bits hash buckets q + 2
    pub low : dist_at key_bits hash buckets ((idx + suc r) % capacity buckets) ≤ 1
    pub wrap :
        (idx + suc r) % capacity buckets ≡ idx
        → dist_at key_bits hash buckets (next_idx buckets idx) ≤ 2
    pub reach : r < capacity buckets

  pub new-IsPlaced : (n i : ℕ) → IsPlaced key_bits hash n i (new {V = V})
  unfolding empty new is_constructed
  new-IsPlaced n i = record {
    near = omega (arith, distance-empty key_bits (new {V = V}) refl);
    sound = refl;
    away = λ e. cc;
    home = λ e. cc;
  }

  -- The gap that an erased entry leaves in a chain.
  module _ (buckets : List (Bucket V)) (idx : ℕ) (c : IsChain key_bits hash buckets)
      (h : idx < capacity buckets) where
    abbrev emptied : List (Bucket V)
    emptied = set buckets idx new

    inside_list : idx < length buckets
    inside_list = lt-length buckets idx h

    dist_here : dist_at key_bits hash emptied idx ≡ 0
    unfolding empty new
    dist_here =
        distance-empty key_bits (at_idx emptied idx)
          (ap empty (at_idx-set_self key_bits hash buckets idx new inside_list))

    dist_other :
        (j : ℕ) → j ≢ idx → dist_at key_bits hash emptied j ≡ dist_at key_bits hash buckets j
    dist_other j a =
        ap (distance key_bits) (at_idx-set_ne key_bits hash buckets idx j new (λ e. a (sym e)))

    eq_or_ne : (j : ℕ) → (j ≡ idx) ⊎ (j ≢ idx)
    eq_or_ne j = elim (Bool-cases (j == idx)) [
      | inl e ↦ inl ((==_iff j idx).0 e)
      | inr a ↦ inr (grind arith)
    ]

    dist_le : (j : ℕ) → dist_at key_bits hash emptied j ≤ dist_at key_bits hash buckets j
    dist_le j = elim (eq_or_ne j) [
      | inl e ↦ omega (arith, ap (dist_at key_bits hash emptied) e, dist_here)
      | inr a ↦ omega (arith, dist_other j a)
    ]

    emptied-IsPlaced :
        (j : ℕ)
        → j < capacity buckets
        → IsPlaced key_bits hash (capacity buckets) j (at_idx emptied j)
    emptied-IsPlaced j lt = elim (eq_or_ne j) [
      | inl e ↦
          subst (λ b. IsPlaced key_bits hash (capacity buckets) j b)
            (sym
              (ap (at_idx emptied) e ∙ at_idx-set_self key_bits hash buckets idx new inside_list))
            (new-IsPlaced (capacity buckets) j)
      | inr a ↦
          subst (λ b. IsPlaced key_bits hash (capacity buckets) j b)
            (sym (at_idx-set_ne key_bits hash buckets idx j new (λ e. a (sym e)))) (c.placed j lt)
    ]

    across_there :
        (q : ℕ)
        → next_idx buckets q ≡ idx
        → q < capacity buckets
        → dist_at key_bits hash emptied (next_idx buckets idx) ≤ dist_at key_bits hash emptied q + 2
    across_there q e lt = elim (eq_or_ne q) [
      | inl same ↦ omega (
        arith,
        ap (λ (x : ℕ). dist_at key_bits hash emptied (next_idx buckets x)) same,
        ap (dist_at key_bits hash emptied) e,
        dist_here,
      )
      | inr a ↦ omega (
        arith,
        dist_le (next_idx buckets idx),
        c.steps idx h,
        c.steps q lt,
        ap (dist_at key_bits hash buckets) e,
        dist_other q a,
      )
    ]

    pub emptied-IsGap :
        (r : ℕ)
        → r < capacity buckets
        → dist_at key_bits hash buckets ((idx + suc r) % capacity buckets) ≤ 1
        → IsGap emptied r idx
    unfolding empty new
    emptied-IsGap r reach low =
        let wide = capacity-set buckets idx new in
        record {
          room = omega (arith, wide, c.room);
          small = omega (arith, length-set buckets idx new, c.small);
          placed = rw wide emptied-IsPlaced;
          inside = omega (arith, wide, h);
          gap = ap empty (at_idx-set_self key_bits hash buckets idx new inside_list);
          steps = λ j lt a. rw (next_idx-set buckets idx j new) (
              omega
                (arith, dist_le (next_idx buckets j), c.steps j (rw wide at lt), dist_other j a));
          across = λ q lt e.
              rw (next_idx-set buckets idx idx new)
                (across_there q (sym (next_idx-set buckets idx q new) ∙ e) (rw wide at lt));
          low = rw wide (omega (arith, dist_le ((idx + suc r) % capacity buckets), low));
          wrap = λ e.
              let there : (idx + suc r) % capacity buckets ≡ idx = rw wide at e in
              rw (next_idx-set buckets idx idx new) (
                omega (
                  arith,
                  dist_le (next_idx buckets idx),
                  c.steps idx h,
                  low,
                  ap (dist_at key_bits hash buckets) there,
                ));
          reach = omega (arith, wide, reach);
        }
