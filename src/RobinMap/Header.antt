-- ===== src/RobinMap/Header.antt =====
-- The headers of src/core/robin_map.hpp: what is packed is read back.
use native.Mathlib.Nat.{mod-eq_of_lt, zero-div}
use braincells.Common.{
  ℕ, ◌/◌, ◌%◌, ◌^◌, ◌<◌, ◌≡◌, ◌⊎◌, inl, inr, sym, subst, ◌∙◌, arith, ap, Bool-cases, ==_iff, false,
  true,
}
use braincells.RobinMap.Buckets.{Bucket, pack, init_header, distance, key, set_distance, empty}

-- Pointers leave 16 bits for the distance, integer keys more.
abbrev pub IsKeyWidth : ℕ → Type 0
IsKeyWidth key_bits = (key_bits ≡ 48) ⊎ (key_bits ≡ 32)

abbrev Unpacks : ℕ → ℕ → ℕ → Type 0
Unpacks kb d k = (pack kb d k / 2 ^ kb % 65536 ≡ d) × (pack kb d k % 2 ^ kb ≡ k % 2 ^ kb)

pack_lem : (kb d k : ℕ) → IsKeyWidth kb → d < 65536 → Unpacks kb d k
unfolding pack
pack_lem kb d k (inl e) h = subst (λ (n : ℕ). Unpacks n d k) (sym e) (omega arith, omega arith)
pack_lem kb d k (inr e) h = subst (λ (n : ℕ). Unpacks n d k) (sym e) (omega arith, omega arith)

-- A header gives back the distance and the key that it was made from, if they fit.
pub header_lem :
    (kb : ℕ) {V : Type 0} (b : Bucket V) (d k : ℕ)
    → IsKeyWidth kb
    → d < 65536
    → k < 2 ^ kb
    → (distance kb (init_header kb b d k) ≡ d) × (key kb (init_header kb b d k) ≡ k)
unfolding init_header distance key
header_lem kb b d k w h small = let p = pack_lem kb d k w h in (p.0, p.1 ∙ mod-eq_of_lt small)

-- `set_distance` changes the distance and keeps the key.
pub set_distance_lem :
    (kb : ℕ) {V : Type 0} (b : Bucket V) (d : ℕ)
    → IsKeyWidth kb
    → d < 65536
    → (distance kb (set_distance kb b d) ≡ d) × (key kb (set_distance kb b d) ≡ key kb b)
unfolding set_distance distance key
set_distance_lem kb b d w h = pack_lem kb d b.header w h

-- An empty bucket has no distance.
pub distance-empty : (kb : ℕ) {V : Type 0} (b : Bucket V) → empty b ≡ true → distance kb b ≡ 0
unfolding distance empty
distance-empty kb b e =
    ap (λ (n : ℕ). n / 2 ^ kb % 65536) ((==_iff b.header 0).0 e)
    ∙ ap (λ (n : ℕ). n % 65536) (zero-div (2 ^ kb))

-- A bucket at a distance is not empty.
pub distance_pos : (kb : ℕ) {V : Type 0} (b : Bucket V) → 0 < distance kb b → empty b ≡ false
distance_pos kb b h = elim (Bool-cases (empty b)) [
  | inl e ↦ absurd (omega (arith, distance-empty kb b e))
  | inr e ↦ e
]
