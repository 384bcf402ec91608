-- ===== src/Inp/KeySwitch/Decide.antt =====
-- The comparisons by which update of src/inp/key_switch_state.hpp decides on a key.
use braincells.Common.{
  ℕ, ◌^◌, ◌≡◌, ◌≢◌, refl, sym, ap, ◌∙◌, Bool, true, false, not, ◌&&◌, ◌||◌, bit_and, ◌==◌, ==_iff,
  arith, Bool-cases, inl, inr,
}
use braincells.Common.Bits.{test_bit, test_bit_ext, test_bit-bit_or, test_bit-bit_and, test_bit-pow}
use braincells.Inp.KeySwitch.{value_mask}

differ : (x y i : ℕ) → test_bit x i ≡ true → test_bit y i ≡ false → (x == y) ≡ false
differ x y i p q = elim (Bool-cases (x == y)) [
  | inl t ↦
      let clash : true ≡ false = sym p ∙ ap (λ (z : ℕ). test_bit z i) ((==_iff x y).0 t) ∙ q in cc
  | inr f ↦ f
]

differ' : (x y i : ℕ) → test_bit x i ≡ false → test_bit y i ≡ true → (x == y) ≡ false
differ' x y i p q = elim (Bool-cases (x == y)) [
  | inl t ↦
      let clash : false ≡ true = sym p ∙ ap (λ (z : ℕ). test_bit z i) ((==_iff x y).0 t) ∙ q in cc
  | inr f ↦ f
]

and-false : (b c : Bool) → (b && false) ≡ (c && false)
and-false true true = refl
and-false true false = refl
and-false false true = refl
and-false false false = refl

or-true : (b : Bool) → (b || true) ≡ true
or-true true = refl
or-true false = refl

absorb_left : (p q : Bool) → p ≡ (p && (p || q))
absorb_left true q = refl
absorb_left false q = refl

absorb_right : (p q : Bool) → q ≡ (q && (p || q))
absorb_right p false = refl
absorb_right true true = refl
absorb_right false true = refl

same_number : (x : ℕ) → (x == x) ≡ true
same_number x = (==_iff x x).1 refl

and-true : (b : Bool) → (b && true) ≡ b
and-true true = refl
and-true false = refl

-- What `bits & value_mask` is compared with, by the two bits.
module _ (low high on off : ℕ) (apart : on ≢ off) (bits : ℕ) where
  abbrev both : ℕ
  both = value_mask low high on off

  abbrev masked : ℕ
  masked = bit_and bits both

  both_bit : (i : ℕ) → test_bit both i ≡ ((i == on) || (i == off))
  unfolding value_mask
  both_bit i = rw (test_bit-bit_or (2 ^ on) (2 ^ off) i, test_bit-pow on i, test_bit-pow off i) refl

  masked_bit : (i : ℕ) → test_bit masked i ≡ (test_bit bits i && ((i == on) || (i == off)))
  masked_bit i = rw (test_bit-bit_and bits both i, both_bit i) refl

  on_bit : test_bit masked on ≡ test_bit bits on
  on_bit = masked_bit on ∙ rw (same_number on) (and-true (test_bit bits on))

  off_bit : test_bit masked off ≡ test_bit bits off
  off_bit = masked_bit off ∙ rw (same_number off) (last (test_bit bits off) (off == on))
    where
      last : (b c : Bool) → (b && (c || true)) ≡ b
      last true true = refl
      last true false = refl
      last false c = refl

  -- Whether it is the number `y`, of which only the bits `on` and `off` can be set.
  compare_masked :
      (y : ℕ)
      → ((i : ℕ) → test_bit y i ≡ (test_bit y i && ((i == on) || (i == off))))
      → test_bit bits on ≡ test_bit y on
      → test_bit bits off ≡ test_bit y off
      → (masked == y) ≡ true
  compare_masked y only e f = (==_iff masked y).1 (
      test_bit_ext masked y
        λ i. masked_bit i ∙ at_bit i (i == on) (i == off) refl refl ∙ sym (only i))
    where
      at_bit :
          (i : ℕ) (p q : Bool)
          → (i == on) ≡ p
          → (i == off) ≡ q
          → (test_bit bits i && ((i == on) || (i == off)))
            ≡ (test_bit y i && ((i == on) || (i == off)))
      at_bit i true q a b =
          ap (λ c. c && ((i == on) || (i == off)))
            (ap (test_bit bits) ((==_iff i on).0 a) ∙ e ∙ ap (test_bit y) (sym ((==_iff i on).0 a)))
      at_bit i false true a b =
          ap (λ c. c && ((i == on) || (i == off)))
            (ap (test_bit bits) ((==_iff i off).0 b)
              ∙ f
              ∙ ap (test_bit y) (sym ((==_iff i off).0 b)))
      at_bit i false false a b = rw (a, b) (and-false (test_bit bits i) (test_bit y i))

  apart₁ : (on == off) ≡ false
  apart₁ = ground arith

  apart₂ : (off == on) ≡ false
  apart₂ = ground arith

  only_on : (i : ℕ) → test_bit (2 ^ on) i ≡ (test_bit (2 ^ on) i && ((i == on) || (i == off)))
  only_on i = rw (test_bit-pow on i) (absorb_left (i == on) (i == off))

  only_off : (i : ℕ) → test_bit (2 ^ off) i ≡ (test_bit (2 ^ off) i && ((i == on) || (i == off)))
  only_off i = rw (test_bit-pow off i) (absorb_right (i == on) (i == off))

  only_both : (i : ℕ) → test_bit both i ≡ (test_bit both i && ((i == on) || (i == off)))
  only_both i = rw (both_bit i) (absorb_left ((i == on) || (i == off)) false ∙ rest _)
    where
      rest : (p : Bool) → (p && (p || false)) ≡ (p && p)
      rest true = refl
      rest false = refl

  pow_on : test_bit (2 ^ on) on ≡ true
  pow_on = test_bit-pow on on ∙ same_number on

  pow_off : test_bit (2 ^ off) off ≡ true
  pow_off = test_bit-pow off off ∙ same_number off

  on_at_off : test_bit (2 ^ on) off ≡ false
  on_at_off = test_bit-pow on off ∙ apart₂

  off_at_on : test_bit (2 ^ off) on ≡ false
  off_at_on = test_bit-pow off on ∙ apart₁

  both_on : test_bit both on ≡ true
  both_on = both_bit on ∙ rw (same_number on) refl

  both_off : test_bit both off ≡ true
  both_off = both_bit off ∙ rw (same_number off) (or-true (off == on))

  -- The three comparisons, by the bits `a` and `b` of `on` and `off`.
  pub decided :
      (a b : Bool)
      → test_bit bits on ≡ a
      → test_bit bits off ≡ b
      → ((masked == 2 ^ on) ≡ (a && not b)) × (((masked == 2 ^ off) || (masked == both)) ≡ b)
  decided true true e f = (
    differ masked (2 ^ on) off (off_bit ∙ f) on_at_off,
    rw (compare_masked both only_both (e ∙ sym both_on) (f ∙ sym both_off)) (or-true _),
  )
  decided true false e f = (
    compare_masked (2 ^ on) only_on (e ∙ sym pow_on) (f ∙ sym on_at_off),
    rw
        (
          differ masked (2 ^ off) on (on_bit ∙ e) off_at_on,
          differ' masked both off (off_bit ∙ f) both_off,
        )
        refl,
  )
  decided false true e f = (
    differ masked (2 ^ on) off (off_bit ∙ f) on_at_off,
    rw (compare_masked (2 ^ off) only_off (e ∙ sym off_at_on) (f ∙ sym pow_off)) refl,
  )
  decided false false e f = (
    differ' masked (2 ^ on) on (on_bit ∙ e) pow_on,
    rw
        (
          differ' masked (2 ^ off) off (off_bit ∙ f) pow_off,
          differ' masked both on (on_bit ∙ e) both_on,
        )
        refl,
  )
