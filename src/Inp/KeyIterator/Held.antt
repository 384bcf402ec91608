-- ===== src/Inp/KeyIterator/Held.antt =====
-- The loop over the key_iterator of src/inp/key_rt_state.hpp, by what `test` says of the state.
use native.Mathlib.Nat.{pow-suc}
use braincells.Common.{
  ℕ, zero, suc, ◌+◌, ◌-◌, ◌*◌, ◌%◌, ◌^◌, ◌≡◌, ◌≤◌, ◌<◌, refl, ap, ap₂, ◌∙◌, Bool, true, false, not,
  ◌||◌, List, [], ◌∷◌, bit_or, if◌then◌else◌, ◌==◌, word32, arith, Bool-cases, inl, inr,
}
use braincells.Common.Bits.{bit_or-shift, pow_lt}
use braincells.Inp.KeyState.{Layout, IsLayout, test}
use braincells.Inp.KeyIterator.{KeyTester, to_num, bits_from, tester, key_testers}
use braincells.Inp.KeyIterator.Visits.{with_bits_from, key_testers-with_bits_from}

pow_pos : (n : ℕ) → 0 < 2 ^ n
pow_pos zero = omega arith
pow_pos (suc n) = omega (arith, pow-suc 2 n, pow_pos n)

pow_twice : (n : ℕ) → 2 ^ (n + 1) ≡ 2 * 2 ^ n
pow_twice n =
    ap (λ (k : ℕ). 2 ^ k) {x = n + 1} {y = suc n} (omega arith) ∙ omega (arith, pow-suc 2 n)

module _ (l : Layout) (blocks : List ℕ) where
  -- Whether the state holds a key with one of the `n` values from `val` on.
  unfoldable pub holds_any : ℕ → ℕ → ℕ → Bool
  holds_any zero key val = false
  holds_any (suc n) key val = test l blocks key val || holds_any n key (val + 1)

  -- The sum of `2 ^ val` over the values that it holds the key with.
  unfoldable pub value_bits : ℕ → ℕ → ℕ → ℕ
  value_bits zero key val = 0
  value_bits (suc n) key val =
      (if test l blocks key val then 2 ^ val else 0) + value_bits n key (val + 1)

  -- The keys that the state holds with some value, among the `n` keys from `i` on.
  unfoldable pub held_from : ℕ → ℕ → List KeyTester
  unfolding holds_any value_bits
  held_from zero i = []
  held_from (suc n) i =
      let rest = held_from n (i + 1) in
      let count : ℕ = l.vmax - l.vmin + 1 in
      if holds_any count i l.vmin
      then record { key = i; bits = value_bits count i l.vmin } ∷ rest
      else rest

  add_bit :
      (b : Bool) (res val : ℕ)
      → val < 32
      → res < 2 ^ val
      → bit_or res (to_num b * 2 ^ val % word32) ≡ res + (if b then 2 ^ val else 0)
  add_bit false res val h small =
      ap (bit_or res) {x = 0 * 2 ^ val % word32} {y = 0 * 2 ^ val} (omega arith)
      ∙ bit_or-shift val 0 res small
      ∙ omega arith
  add_bit true res val h small =
      ap (bit_or res) {x = 1 * 2 ^ val % word32} {y = 1 * 2 ^ val}
        (omega (arith, pow_lt {i = val} {w = 32} h))
      ∙ bit_or-shift val 1 res small
      ∙ omega arith

  bits_from-value_bits :
      (n key val res : ℕ)
      → val + n ≤ 32
      → res < 2 ^ val
      → bits_from l blocks n key val res ≡ res + value_bits n key val
  unfolding bits_from value_bits
  bits_from-value_bits zero key val res h small = omega arith
  bits_from-value_bits (suc n) key val res h small =
      let b : Bool = test l blocks key val in
      let added = add_bit b res val (omega arith) small in
      let grown : (if b then 2 ^ val else 0) ≤ 2 ^ val = ground arith in
      bits_from-value_bits n key (val + 1) (bit_or res (to_num b * 2 ^ val % word32)) (omega arith)
        (omega (arith, added, grown, pow_twice val))
      ∙ omega (arith, added)

  value_bits-holds_any : (n key val : ℕ) → (value_bits n key val == 0) ≡ not (holds_any n key val)
  unfolding value_bits holds_any
  value_bits-holds_any zero key val = refl
  value_bits-holds_any (suc n) key val = elim (Bool-cases (test l blocks key val)) [
    | inl t ↦ rw t (ground (arith, pow_pos val))
    | inr f ↦ rw f (
        ap (λ (b : ℕ). b == 0) {x = 0 + value_bits n key (val + 1)} (omega arith)
        ∙ value_bits-holds_any n key (val + 1))
  ]

  with_bits_from-held_from :
      (n i : ℕ) → IsLayout l → l.vmax < 32 → with_bits_from l blocks n i ≡ held_from n i
  unfolding with_bits_from held_from tester
  with_bits_from-held_from zero i ok small = refl
  with_bits_from-held_from (suc n) i ok small =
      let count : ℕ = l.vmax - l.vmin + 1 in
      let bits : bits_from l blocks count i l.vmin 0 ≡ value_bits count i l.vmin =
        bits_from-value_bits count i l.vmin 0 (omega (arith, ok.values))
          (omega (arith, pow_pos l.vmin))
        ∙ omega arith in
      let pick : ℕ → List KeyTester → List KeyTester =
        λ b ts. if b == 0 then ts else record { key = i; bits = b } ∷ ts in
      let any = value_bits-holds_any count i l.vmin in
      ap₂ pick bits (with_bits_from-held_from n (i + 1) ok small)
      ∙ elim (Bool-cases (holds_any count i l.vmin)) [
        | inl t ↦
            let some_bit : (value_bits count i l.vmin == 0) ≡ false = any ∙ ap not t in
            rw (some_bit, t) refl
        | inr f ↦
            let no_bit : (value_bits count i l.vmin == 0) ≡ true = any ∙ ap not f in
            rw (no_bit, f) refl
      ]

  -- When the values are below 32, a loop over the state visits the keys that `test` finds with some
  -- value, from the lowest to the highest, each once and with a bit for each of its values.
  pub key_testers-held_from :
      IsLayout l → l.vmax < 32 → key_testers l blocks ≡ held_from (l.khigh + 1 - l.klow) l.klow
  key_testers-held_from ok small =
      key_testers-with_bits_from l blocks ok
      ∙ with_bits_from-held_from (l.khigh + 1 - l.klow) l.klow ok small
