-- ===== src/RobinMap/Blank.antt =====
-- New and cleared maps of src/core/robin_map.hpp.
use mathlib.Core.List.{Nodup-nil}
use braincells.Common.{
  ℕ, zero, suc, ◌+◌, ◌-◌, ◌≡◌, ◌<◌, refl, sym, ap, ◌∙◌, subst, true, List, [], ◌∷◌, length, ◌==◌,
  ==_iff, Bool-cases, inl, inr, arith, not,
}
use braincells.RobinMap.Buckets.{Bucket, new, empty, destroy}
use braincells.RobinMap.Header.{IsKeyWidth, distance-empty}
use braincells.RobinMap.Assign.{IsSound, empty-new}
use braincells.RobinMap.{RobinMap, at_idx, capacity, initial, clear, destroy_all}
use braincells.RobinMap.Entries.{entries, entries_of}
use braincells.RobinMap.Chain.{IsPlaced, dist_at, next_idx-lt}
use braincells.RobinMap.Gap.{new-IsPlaced}
use braincells.RobinMap.Valid.{IsValid}

length_zero : {A : Type 0} (xs : List A) → 0 ≡ length xs → xs ≡ []
length_zero [] e = refl
length_zero (x ∷ xs) e = absurd (omega (arith, e))

length-initial : (key_bits : ℕ) (V : Type 0) (n : ℕ) → length (initial key_bits {V = V} n) ≡ n + 1
unfolding initial
length-initial key_bits V zero = refl
length-initial key_bits V (suc n) = omega (arith, length-initial key_bits V n)

module _ (key_bits : ℕ) {V : Type 0} where
  abbrev pub new_map : ℕ → RobinMap V
  new_map n = record { buckets = initial key_bits n; occupied = 0 }

  entries_of-blank :
      (n : ℕ) (buckets : List (Bucket V))
      → ((i : ℕ) → i < n → empty (at_idx buckets i) ≡ true)
      → entries_of key_bits n buckets ≡ []
  unfolding entries_of at_idx
  entries_of-blank zero buckets h = refl
  entries_of-blank (suc n) [] h = refl
  entries_of-blank (suc n) (x ∷ buckets) h =
      rw (h 0 (omega arith)) (entries_of-blank n buckets (λ i lt. h (suc i) (omega arith)))

module _ (key_bits : ℕ) {V : Type 0} (hash : ℕ → ℕ) (width : IsKeyWidth key_bits) where
  blank-IsValid :
      (m : RobinMap V)
      → 0 < capacity m.buckets
      → length m.buckets < 65535
      → m.occupied ≡ 0
      → ((i : ℕ) → i < capacity m.buckets → at_idx m.buckets i ≡ new)
      → IsValid key_bits hash m × (entries key_bits m.buckets ≡ [])
  unfolding empty new entries
  blank-IsValid m room small none_there blank =
      let none_at : (i : ℕ) → i < capacity m.buckets → empty (at_idx m.buckets i) ≡ true =
        λ i lt. ap empty (blank i lt) in
      let zero_at : (i : ℕ) → i < capacity m.buckets → dist_at key_bits hash m.buckets i ≡ 0 =
        λ i lt. distance-empty key_bits (at_idx m.buckets i) (none_at i lt) in
      let nothing = entries_of-blank key_bits (capacity m.buckets) m.buckets none_at in
      (
        record {
          chain = record {
            room = room;
            small = small;
            placed = λ i lt.
                subst (λ b. IsPlaced key_bits hash (capacity m.buckets) i b) (sym (blank i lt))
                  (new-IsPlaced key_bits hash width (capacity m.buckets) i);
            steps = λ i lt. omega (arith, zero_at _ (next_idx-lt m.buckets i room));
          };
          low = (0, room, omega (arith, zero_at 0 room));
          counted = rw nothing none_there;
          distinct = rw nothing Nodup-nil;
        },
        nothing,
      )

  at_idx-initial : (n i : ℕ) → i < n → at_idx (initial key_bits {V = V} n) i ≡ new
  unfolding initial at_idx
  at_idx-initial zero i h = absurd (omega arith)
  at_idx-initial (suc n) zero h = refl
  at_idx-initial (suc n) (suc i) h = at_idx-initial n i (omega arith)

  -- A new map is valid and has no entries.
  pub new_map-IsValid :
      (n : ℕ)
      → 0 < n
      → n < 65534
      → IsValid key_bits hash (new_map key_bits {V = V} n)
        × (entries key_bits (initial key_bits {V = V} n) ≡ [])
  unfolding capacity
  new_map-IsValid n room small =
      let l = length-initial key_bits V n in
      blank-IsValid (new_map key_bits n) (omega (arith, l)) (omega (arith, l)) refl
        (λ i lt. at_idx-initial n i (omega (arith, l)))

  at_idx-destroy_all :
      (buckets : List (Bucket V)) (i : ℕ)
      → i < length buckets - 1
      → at_idx (destroy_all key_bits buckets) i ≡ destroy (at_idx buckets i)
  unfolding destroy_all at_idx
  at_idx-destroy_all [] i h = absurd (omega arith)
  at_idx-destroy_all (b ∷ []) i h = absurd (omega arith)
  at_idx-destroy_all (b ∷ c ∷ bs) zero h = refl
  at_idx-destroy_all (b ∷ c ∷ bs) (suc i) h = at_idx-destroy_all (c ∷ bs) i (omega arith)

  length-destroy_all :
      (buckets : List (Bucket V)) → length (destroy_all key_bits buckets) ≡ length buckets
  unfolding destroy_all
  length-destroy_all [] = refl
  length-destroy_all (b ∷ []) = refl
  length-destroy_all (b ∷ c ∷ bs) = ap suc (length-destroy_all (c ∷ bs))

  destroy-new : (b : Bucket V) → IsSound b → destroy b ≡ new
  unfolding destroy new empty
  destroy-new b sound = elim (Bool-cases (b.header == 0)) [
    | inl e ↦ rw e (empty-new (record b { header = 0 }) (sound ∙ ap not e) refl)
    | inr e ↦ rw e refl
  ]

  no_entries :
      (m : RobinMap V) → IsValid key_bits hash m → m.occupied ≡ 0 → entries key_bits m.buckets ≡ []
  no_entries m valid e = length_zero (entries key_bits m.buckets) (sym e ∙ valid.counted)

  cleared :
      (m : RobinMap V)
      → IsValid key_bits hash m
      → IsValid key_bits hash (record { buckets = destroy_all key_bits m.buckets; occupied = 0 })
        × (entries key_bits (destroy_all key_bits m.buckets) ≡ [])
  unfolding capacity
  cleared m valid =
      let l = length-destroy_all m.buckets in
      let chain = valid.chain in
      blank-IsValid (record { buckets = destroy_all key_bits m.buckets; occupied = 0 })
        (omega (arith, l, chain.room)) (omega (arith, l, chain.small)) refl
        λ i lt.
          let inside : i < length m.buckets - 1 = omega (arith, l) in
          at_idx-destroy_all m.buckets i inside
          ∙ destroy-new (at_idx m.buckets i) (chain.placed i inside).sound

  -- `clear` leaves a valid map without entries.
  pub clear-IsValid :
      (m : RobinMap V)
      → IsValid key_bits hash m
      → IsValid key_bits hash (clear key_bits m)
        × (entries key_bits (clear key_bits m).buckets ≡ [])
  unfolding clear
  clear-IsValid m valid = elim (Bool-cases (m.occupied == 0)) [
    | inl e ↦ rw e (valid, no_entries m valid ((==_iff m.occupied 0).0 e))
    | inr e ↦ rw e (cleared m valid)
  ]
