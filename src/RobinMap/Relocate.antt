-- ===== src/RobinMap/Relocate.antt =====
-- The rounds of the second loop of emplace in src/core/robin_map.hpp, each with the bucket in hand.
use native.Mathlib.Nat.{mod-lt, mod-eq_of_lt, mod-eq-sub-mod, mod-add-mod}
use braincells.Common.{
  ℕ, suc, ◌+◌, ◌-◌, ◌%◌, ◌≡◌, ◌≢◌, ◌<◌, ◌≤◌, refl, sym, ap, ap₂, ◌∙◌, true, false, List, [], ◌∷◌,
  some, length, set, if◌then◌else◌, ltb, Bool-cases, inl, inr, arith, not,
}
use braincells.RobinMap.Buckets.{Bucket, distance, empty, set_distance, assign}
use braincells.RobinMap.Assign.{IsSound, swap_lem}
use braincells.RobinMap.Header.{IsKeyWidth, set_distance_lem, distance_pos}
use braincells.RobinMap.{at_idx, capacity, next_idx, relocate}
use braincells.RobinMap.Emplace.{at_idx-set_self, at_idx-set_ne}
use braincells.RobinMap.Entries.{entry}
use braincells.RobinMap.Chain.{
  IsHome, IsPlaced, dist_at, IsChain, IsHome-next, set-IsChain, capacity-set, next_idx-set,
  next_idx-lt, next_idx-injective, lt-length,
}

-- Fewer steps than a round do not come back.
pub offset_ne : (n i j : ℕ) → i < n → 0 < j → j < n → (i + j) % n ≢ i
offset_ne n i j h pos lt e = elim (Bool-cases (ltb (i + j) n)) [
  | inl near ↦ absurd (omega (arith, mod-eq_of_lt {n = i + j} {m = n} (ground arith), e))
  | inr far ↦
      let round : n ≤ i + j = ground arith in
      let back : (i + j) % n ≡ i + j - n =
        mod-eq-sub-mod {n = i + j} {m = n} round
        ∙ mod-eq_of_lt {n = i + j - n} {m = n} (omega arith) in
      absurd (omega (arith, back, e))
]

pub capacity-lt :
    {V : Type 0} → (buckets : List (Bucket V)) → length buckets < 65535 → capacity buckets < 65535
unfolding capacity
capacity-lt buckets h = omega arith

pub next_offset :
    {V : Type 0}
    → (buckets : List (Bucket V)) (i j : ℕ)
    → (i + suc j) % capacity buckets ≡ (next_idx buckets i + j) % capacity buckets
unfolding next_idx
next_offset buckets i j =
    ap (λ (n : ℕ). n % capacity buckets) {y = i + 1 + j} (omega arith)
    ∙ sym (mod-add-mod (i + 1) (capacity buckets) j)

pub hole_next :
    {V : Type 0}
    → (buckets : List (Bucket V)) (i j : ℕ)
    → empty (at_idx buckets ((i + suc j) % capacity buckets)) ≡ true
    → empty (at_idx buckets ((next_idx buckets i + j) % capacity buckets)) ≡ true
hole_next buckets i j h =
    ap (λ (n : ℕ). empty (at_idx buckets n)) (sym (next_offset buckets i j)) ∙ h

module _ (key_bits : ℕ) {V : Type 0} (hash : ℕ → ℕ) (width : IsKeyWidth key_bits) where
  pub empty-set_distance :
      (b : Bucket V) (d : ℕ) → 0 < d → d < 65536 → empty (set_distance key_bits b d) ≡ false
  empty-set_distance b d pos small =
      distance_pos key_bits (set_distance key_bits b d)
        (omega (arith, (set_distance_lem key_bits b d width small).0))

  pub entry-set_distance :
      (b : Bucket V) (d : ℕ)
      → empty b ≡ false
      → 0 < d
      → d < 65536
      → entry key_bits (set_distance key_bits b d) ≡ entry key_bits b
  unfolding set_distance
  entry-set_distance b d full pos small =
      rw (empty-set_distance b d pos small, full)
        (ap (λ (k : ℕ). (k, b.value) ∷ []) (set_distance_lem key_bits b d width small).1)

  -- A bucket whose distance is set to that of its place.
  pub set_distance-IsPlaced :
      (n i d : ℕ) (b : Bucket V)
      → empty b ≡ false
      → IsSound b
      → 0 < d
      → d ≤ n
      → n < 65535
      → IsHome key_bits hash n i b d
      → IsPlaced key_bits hash n i (set_distance key_bits b d)
  unfolding set_distance
  set_distance-IsPlaced n i d b full sound pos le small h =
      let s = set_distance_lem key_bits b d width (omega arith) in
      record {
        near = omega (arith, s.0);
        sound = kept;
        away = λ e. omega (arith, s.0);
        home = λ e. ap₂ (λ (k x : ℕ). (hash k % n + x - 1) % n) s.1 s.0 ∙ h;
      }
    where
      kept : IsSound (set_distance key_bits b d)
      kept = sound ∙ ap not (full ∙ sym (empty-set_distance b d pos (omega arith)))

  -- The loop passes fewer buckets than the fuel up to an empty one, and the one in hand fits next.
  pub record IsCarried (buckets : List (Bucket V)) (j : ℕ) (b : Bucket V) (i c : ℕ) : Type 0 where
    pub chain : IsChain key_bits hash buckets
    pub inside : i < capacity buckets
    pub hole : empty (at_idx buckets ((i + j) % capacity buckets)) ≡ true
    pub full : empty b ≡ false
    pub sound : IsSound b
    pub away : 0 < c
    pub near : c + j ≤ capacity buckets
    pub home : IsHome key_bits hash (capacity buckets) i b c
    pub before :
        (q : ℕ)
        → q < capacity buckets
        → next_idx buckets q ≡ i
        → c ≤ dist_at key_bits hash buckets q + 1

  pub set_carried :
      (buckets : List (Bucket V)) (j : ℕ) (b : Bucket V) (i c : ℕ)
      → IsCarried buckets j b i c
      → dist_at key_bits hash buckets i < c
      → IsChain key_bits hash (set buckets i (set_distance key_bits b c))
  set_carried buckets j b i c r poorer =
      let small : capacity buckets < 65535 = capacity-lt buckets r.chain.small in
      let s = set_distance_lem key_bits b c width (omega (arith, r.near)) in
      set-IsChain key_bits hash buckets i (set_distance key_bits b c) r.chain r.inside
        (set_distance-IsPlaced (capacity buckets) i c b r.full r.sound r.away
          (omega (arith, r.near)) small r.home)
        (λ q lt e. omega (arith, s.0, r.before q lt e))
        (omega (arith, s.0, r.chain.steps i r.inside))

  -- The loop passes a bucket that is not poorer.
  pub pass-IsCarried :
      (buckets : List (Bucket V)) (j : ℕ) (b : Bucket V) (i c : ℕ)
      → IsCarried buckets (suc j) b i c
      → c ≤ dist_at key_bits hash buckets i
      → IsCarried buckets j b (next_idx buckets i) (c + 1)
  unfolding next_idx
  pass-IsCarried buckets j b i c r richer = record {
    chain = r.chain;
    inside = mod-lt (i + 1) r.chain.room;
    hole = hole_next buckets i j r.hole;
    full = r.full;
    sound = r.sound;
    away = omega arith;
    near = omega (arith, r.near);
    home = IsHome-next key_bits hash buckets i b c r.away r.home;
    before = λ q lt e.
        let same : q ≡ i = next_idx-injective buckets q i lt r.inside e in
        omega (arith, richer, ap (dist_at key_bits hash buckets) same);
  }

  -- A bucket that it displaces is the next in hand.
  pub displace-IsCarried :
      (buckets : List (Bucket V)) (j : ℕ) (b : Bucket V) (i c : ℕ)
      → IsCarried buckets (suc j) b i c
      → empty (at_idx buckets i) ≡ false
      → dist_at key_bits hash buckets i < c
      → IsCarried
          (set buckets i (set_distance key_bits b c))
          j
          (at_idx buckets i)
          (next_idx buckets i)
          (dist_at key_bits hash buckets i + 1)
  displace-IsCarried buckets j b i c r taken poorer =
      let place = r.chain.placed i r.inside in
      let inside = lt-length buckets i r.inside in
      let placed = set_distance key_bits b c in
      let apart : (next_idx buckets i + j) % capacity buckets ≢ i = λ e.
        offset_ne (capacity buckets) i (suc j) r.inside (omega arith)
          (omega (arith, r.near, r.away)) (next_offset buckets i j ∙ e) in
      record {
        chain = set_carried buckets (suc j) b i c r poorer;
        inside = rw (capacity-set buckets i placed) (next_idx-lt buckets i r.chain.room);
        hole = rw (capacity-set buckets i placed) (
            ap empty (at_idx-set_ne key_bits hash buckets i _ placed (λ e. apart (sym e)))
            ∙ hole_next buckets i j r.hole);
        full = taken;
        sound = place.sound;
        away = omega arith;
        near = rw (capacity-set buckets i placed) (omega (arith, r.near, poorer));
        home = rw (capacity-set buckets i placed) (
            IsHome-next key_bits hash buckets i (at_idx buckets i) (dist_at key_bits hash buckets i)
              (place.away taken) (place.home taken));
        before = λ q lt e.
            let same : q ≡ i =
              next_idx-injective buckets q i (rw (capacity-set buckets i placed) at lt) r.inside
                (sym (next_idx-set buckets i q placed) ∙ e) in
            let there : dist_at key_bits hash (set buckets i placed) q ≡ c =
              ap (dist_at key_bits hash (set buckets i placed)) same
              ∙ ap (distance key_bits) (at_idx-set_self key_bits hash buckets i placed inside)
              ∙ (set_distance_lem key_bits b c width
                  (omega (arith, r.near, capacity-lt buckets r.chain.small))).0 in
            omega (arith, poorer, there);
      }

  -- One round of the loop, after `swap` and the assignment have done their work.
  pub relocate-suc :
      (fuel : ℕ) (buckets : List (Bucket V)) (b : Bucket V) (i c : ℕ)
      → empty b ≡ false
      → IsSound b
      → IsSound (at_idx buckets i)
      → relocate key_bits hash (suc fuel) buckets b i c ≡ (
          if empty (at_idx buckets i)
          then some (set buckets i (set_distance key_bits b c), i)
          else if ltb (dist_at key_bits hash buckets i) c
          then relocate key_bits hash fuel
              (set buckets i (set_distance key_bits b c))
              (at_idx buckets i)
              (next_idx buckets i)
              (dist_at key_bits hash buckets i + 1)
          else relocate key_bits hash fuel buckets b (next_idx buckets i) (c + 1))
  unfolding relocate assign
  relocate-suc fuel buckets b i c full sound sound' =
      rw (swap_lem b (at_idx buckets i) sound sound', full) refl
