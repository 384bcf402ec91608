-- ===== src/RobinMap/Shift.antt =====
-- One round of the loop of erase in src/core/robin_map.hpp, which moves the bucket behind the gap back.
use native.Mathlib.Nat.{mod-lt, mod-add-mod}
use mathlib.Core.List.{Perm}
use mathlib.Core.List.Perm
use braincells.Common.{
  ℕ, suc, ◌+◌, ◌-◌, ◌%◌, ◌≡◌, ◌≢◌, ◌<◌, ◌≤◌, refl, sym, ap, ◌∙◌, subst, true, false, List, ◌++◌,
  set, length-set, ◌==◌, ==_iff, Bool-cases, inl, inr, arith, ◌⊎◌,
}
use braincells.RobinMap.Buckets.{Bucket, new, key, empty, set_distance, distance, moved, destroy}
use braincells.RobinMap.Header.{IsKeyWidth, set_distance_lem, distance-empty, distance_pos}
use braincells.RobinMap.{at_idx, capacity, next_idx}
use braincells.RobinMap.Entries.{entry, entries, entries-set}
use braincells.RobinMap.Chain.{
  IsHome, IsPlaced, dist_at, capacity-set, next_idx-set, next_idx-lt, next_idx-injective, lt-length,
}
use braincells.RobinMap.Relocate.{
  entry-set_distance, set_distance-IsPlaced, capacity-lt, next_offset, offset_ne,
}
use braincells.RobinMap.Gap.{IsGap, new-IsPlaced}
use braincells.RobinMap.Emplace.{at_idx-set_self, at_idx-set_ne}

module _ (key_bits : ℕ) {V : Type 0} (hash : ℕ → ℕ) (width : IsKeyWidth key_bits) where
  -- The bucket `from` behind the gap goes into it.
  abbrev pub shifted : List (Bucket V) → ℕ → List (Bucket V)
  shifted buckets idx =
      let next : ℕ = next_idx buckets idx in
      let from : Bucket V = at_idx buckets next in
      set (set buckets next (moved from)) idx
        (set_distance key_bits from (distance key_bits from - 1))

  -- One bucket back, at a distance one smaller.
  IsHome-back :
      (buckets : List (Bucket V)) (idx : ℕ) (b : Bucket V) (d : ℕ)
      → 0 < capacity buckets
      → idx < capacity buckets
      → 1 < d
      → IsHome key_bits hash (capacity buckets) (next_idx buckets idx) b d
      → IsHome key_bits hash (capacity buckets) idx b (d - 1)
  unfolding next_idx
  IsHome-back buckets idx b d room h far home =
      let n : ℕ = capacity buckets in
      let x : ℕ = hash (key key_bits b) % n + (d - 1) - 1 in
      next_idx-injective buckets (x % n) idx (mod-lt x room) h (
        mod-add-mod x n 1
        ∙ ap (λ (y : ℕ). y % n) {y = hash (key key_bits b) % n + d - 1} (omega arith)
        ∙ home)

  module _ (buckets : List (Bucket V)) (r idx : ℕ)
      (g : IsGap key_bits hash width buckets (suc r) idx)
      (far : 1 < dist_at key_bits hash buckets (next_idx buckets idx)) where
    abbrev next : ℕ
    next = next_idx buckets idx

    abbrev from : Bucket V
    from = at_idx buckets next

    abbrev back : Bucket V
    back = set_distance key_bits from (distance key_bits from - 1)

    next_inside : next < capacity buckets
    next_inside = next_idx-lt buckets idx g.room

    next_full : empty from ≡ false
    next_full = distance_pos key_bits from (omega (arith, far))

    apart : next ≢ idx
    apart e = absurd (
        omega (
          arith,
          far,
          ap (dist_at key_bits hash buckets) e,
          distance-empty key_bits (at_idx buckets idx) g.gap,
        ))

    moved-new : moved from ≡ new
    unfolding moved destroy new
    moved-new = rw next_full refl

    pub capacity-shifted : capacity (shifted buckets idx) ≡ capacity buckets
    capacity-shifted =
        capacity-set (set buckets next (moved from)) idx back
        ∙ capacity-set buckets next (moved from)

    pub next_idx-shifted : (j : ℕ) → next_idx (shifted buckets idx) j ≡ next_idx buckets j
    next_idx-shifted j =
        next_idx-set (set buckets next (moved from)) idx j back
        ∙ next_idx-set buckets next j (moved from)

    in_gap : at_idx (shifted buckets idx) idx ≡ back
    in_gap =
        at_idx-set_self key_bits hash (set buckets next (moved from)) idx back
          (omega (arith, length-set buckets next (moved from), lt-length buckets idx g.inside))

    new_gap : at_idx (shifted buckets idx) next ≡ new
    new_gap =
        at_idx-set_ne key_bits hash (set buckets next (moved from)) idx next back
          (λ e. apart (sym e))
        ∙ at_idx-set_self key_bits hash buckets next (moved from)
            (lt-length buckets next next_inside)
        ∙ moved-new

    elsewhere : (j : ℕ) → j ≢ idx → j ≢ next → at_idx (shifted buckets idx) j ≡ at_idx buckets j
    elsewhere j a b =
        at_idx-set_ne key_bits hash (set buckets next (moved from)) idx j back (λ e. a (sym e))
        ∙ at_idx-set_ne key_bits hash buckets next j (moved from) (λ e. b (sym e))

    where_is : (j : ℕ) → (j ≡ idx) ⊎ ((j ≡ next) ⊎ ((j ≢ idx) × (j ≢ next)))
    where_is j = elim (Bool-cases (j == idx)) [
      | inl e ↦ inl ((==_iff j idx).0 e)
      | inr a ↦ elim (Bool-cases (j == next)) [
        | inl e ↦ inr (inl ((==_iff j next).0 e))
        | inr b ↦ inr (inr (grind arith, grind arith))
      ]
    ]

    back_small : distance key_bits from - 1 < 65535
    back_small = omega (arith, (g.placed next next_inside).near, capacity-lt buckets g.small)

    dist_in_gap :
        dist_at key_bits hash (shifted buckets idx) idx ≡ dist_at key_bits hash buckets next - 1
    dist_in_gap =
        ap (distance key_bits) in_gap
        ∙ (set_distance_lem key_bits from (distance key_bits from - 1) width
            (omega (arith, back_small))).0

    new_gap_empty : empty (at_idx (shifted buckets idx) next) ≡ true
    unfolding empty new
    new_gap_empty = ap empty new_gap

    dist_new_gap : dist_at key_bits hash (shifted buckets idx) next ≡ 0
    dist_new_gap = distance-empty key_bits (at_idx (shifted buckets idx) next) new_gap_empty

    dist_elsewhere :
        (j : ℕ)
        → j ≢ idx
        → j ≢ next
        → dist_at key_bits hash (shifted buckets idx) j ≡ dist_at key_bits hash buckets j
    dist_elsewhere j a b = ap (distance key_bits) (elsewhere j a b)

    back-IsPlaced : IsPlaced key_bits hash (capacity buckets) idx back
    back-IsPlaced =
        let place = g.placed next next_inside in
        set_distance-IsPlaced key_bits hash width (capacity buckets) idx
          (distance key_bits from - 1) from next_full place.sound (omega (arith, far))
          (omega (arith, place.near)) (capacity-lt buckets g.small)
          (IsHome-back buckets idx from (distance key_bits from) g.room g.inside far
            (place.home next_full))

    shifted-IsPlaced :
        (j : ℕ)
        → j < capacity buckets
        → IsPlaced key_bits hash (capacity buckets) j (at_idx (shifted buckets idx) j)
    shifted-IsPlaced j lt = elim (where_is j) [
      | inl e ↦
          subst
            (λ (x : ℕ).
              IsPlaced key_bits hash (capacity buckets) x (at_idx (shifted buckets idx) x))
            (sym e)
            (subst (λ b. IsPlaced key_bits hash (capacity buckets) idx b) (sym in_gap)
              back-IsPlaced)
      | inr (inl e) ↦
          subst (λ b. IsPlaced key_bits hash (capacity buckets) j b)
            (sym (ap (at_idx (shifted buckets idx)) e ∙ new_gap))
            (new-IsPlaced key_bits hash width (capacity buckets) j)
      | inr (inr r) ↦
          subst (λ b. IsPlaced key_bits hash (capacity buckets) j b) (sym (elsewhere j r.0 r.1))
            (g.placed j lt)
    ]

    abbrev after : ℕ → ℕ
    after j = dist_at key_bits hash (shifted buckets idx) j

    steps_lem : (j : ℕ) → j < capacity buckets → j ≢ next → after (next_idx buckets j) ≤ after j + 1
    steps_lem j lt other = elim (where_is j) [
      | inl e ↦ omega (arith, ap (λ (x : ℕ). after (next_idx buckets x)) e, dist_new_gap)
      | inr (inl e) ↦ absurd (other e)
      | inr (inr r) ↦ elim (where_is (next_idx buckets j)) [
        | inl e ↦ omega (arith, g.across j lt e, ap after e, dist_in_gap, dist_elsewhere j r.0 r.1)
        | inr (inl e) ↦ absurd (r.0 (next_idx-injective buckets j idx lt g.inside e))
        | inr (inr s) ↦ omega (
          arith,
          g.steps j lt r.0,
          dist_elsewhere j r.0 r.1,
          dist_elsewhere (next_idx buckets j) s.0 s.1,
        )
      ]
    ]

    across_lem :
        (q : ℕ)
        → q < capacity buckets
        → next_idx buckets q ≡ next
        → after (next_idx buckets next) ≤ after q + 2
    across_lem q lt e =
        let same = ap after (next_idx-injective buckets q idx lt g.inside e) in
        elim (where_is (next_idx buckets next)) [
          | inl e ↦ omega (arith, same, ap after e)
          | inr (inl e) ↦ omega (arith, ap after e, dist_new_gap)
          | inr (inr s) ↦ omega (
            arith,
            same,
            dist_in_gap,
            g.steps next next_inside apart,
            dist_elsewhere (next_idx buckets next) s.0 s.1,
          )
        ]

    low_lem : after ((next + suc r) % capacity buckets) ≤ 1
    low_lem =
        let x : ℕ = (next + suc r) % capacity buckets in
        let x' : (idx + suc (suc r)) % capacity buckets ≡ x = next_offset buckets idx (suc r) in
        elim (where_is x) [
          | inl e ↦ omega (arith, g.wrap (x' ∙ e), ap after e, dist_in_gap)
          | inr (inl e) ↦ omega (arith, ap after e, dist_new_gap)
          | inr (inr s) ↦
              omega (arith, g.low, ap (dist_at key_bits hash buckets) x', dist_elsewhere x s.0 s.1)
        ]

    pub shifted-IsGap : IsGap key_bits hash width (shifted buckets idx) r next
    shifted-IsGap = record {
      room = omega (arith, capacity-shifted, g.room);
      small = omega (
        arith,
        length-set (set buckets next (moved from)) idx back,
        length-set buckets next (moved from),
        g.small,
      );
      placed = rw capacity-shifted shifted-IsPlaced;
      inside = omega (arith, capacity-shifted, next_inside);
      gap = new_gap_empty;
      steps = λ j lt other. rw (next_idx-shifted j) (steps_lem j (rw capacity-shifted at lt) other);
      across = λ q lt e.
          rw (next_idx-shifted next)
            (across_lem q (rw capacity-shifted at lt) (sym (next_idx-shifted q) ∙ e));
      low = rw capacity-shifted low_lem;
      wrap = λ e. absurd (
          offset_ne (capacity buckets) next (suc r) next_inside (omega arith) g.reach
            (rw capacity-shifted at e));
      reach = omega (arith, capacity-shifted, g.reach);
    }

    -- The entries stay.
    pub entries-shifted : Perm (entries key_bits (shifted buckets idx)) (entries key_bits buckets)
    unfolding empty new
    entries-shifted =
        let emptied = set buckets next (moved from) in
        let out : Perm (entries key_bits buckets)
            (entry key_bits from ++ entries key_bits emptied) =
          rw (ap (entry key_bits) moved-new) at
            (entries-set key_bits buckets next (moved from) next_inside) in
        let into : Perm (entry key_bits back ++ entries key_bits emptied)
            (entry key_bits (at_idx emptied idx) ++ entries key_bits (shifted buckets idx)) =
          entries-set key_bits emptied idx back
            (omega (arith, capacity-set buckets next (moved from), g.inside)) in
        let gap_there : empty (at_idx emptied idx) ≡ true =
          ap empty (at_idx-set_ne key_bits hash buckets next idx (moved from) apart) ∙ g.gap in
        let kept : entry key_bits back ≡ entry key_bits from =
          entry-set_distance key_bits hash width from (distance key_bits from - 1) next_full
            (omega (arith, far)) (omega (arith, back_small)) in
        Perm.symm (Perm.trans out (rw (kept, gap_there) at into))
