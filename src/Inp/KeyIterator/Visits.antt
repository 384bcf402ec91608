-- ===== src/Inp/KeyIterator/Visits.antt =====
-- What the key_iterator of src/inp/key_rt_state.hpp visits.
use braincells.Common.{
  ℕ, zero, suc, ◌+◌, ◌-◌, ◌*◌, ◌%◌, ◌^◌, ◌≡◌, ◌≤◌, ◌<◌, refl, sym, ap, ◌∙◌, Bool, true, false, ◌&&◌,
  ◌||◌, List, [], ◌∷◌, bit_or, if◌then◌else◌, leb, ltb, ◌==◌, ==_iff, word32, arith, Bool-cases,
  inl, inr,
}
use braincells.Common.Bits.{test_bit, test_bit-bit_or, test_bit-zero, test_bit-pow, pow_lt}
use braincells.Inp.KeyState.{Layout, IsLayout, test}
use braincells.Inp.KeyIterator.{
  KeyTester, to_num, bits_from, tester, settle, key_iterator, next, visit, key_testers,
}

module _ (l : Layout) (blocks : List ℕ) where
  -- The keys with a bit, among the `n` keys from `i` on.
  unfoldable pub with_bits_from : ℕ → ℕ → List KeyTester
  with_bits_from zero i = []
  with_bits_from (suc n) i =
      let rest = with_bits_from n (i + 1) in
      if (tester l blocks i).bits == 0 then rest else tester l blocks i ∷ rest

  visit-settle :
      (n fuel i : ℕ)
      → i + n ≡ l.khigh + 1
      → n < fuel
      → visit l blocks fuel (settle l blocks n i) ≡ with_bits_from n i
  unfolding visit settle with_bits_from next key_iterator
  visit-settle zero zero i e h = absurd (omega arith)
  visit-settle zero (suc fuel) i e h =
      let last : (i == l.khigh + 1) ≡ true = ground arith in rw last refl
  visit-settle (suc n) zero i e h = absurd (omega arith)
  visit-settle (suc n) (suc fuel) i e h =
      let inside : leb i l.khigh ≡ true = ground arith in
      elim (Bool-cases ((tester l blocks i).bits == 0)) [
        | inl none_held ↦
            rw (inside, none_held) (visit-settle n (suc fuel) (i + 1) (omega arith) (omega arith))
        | inr held ↦
            let more : (i == l.khigh + 1) ≡ false = ground arith in
            let fuel' : l.khigh + 1 - (i + 1) ≡ n = omega arith in
            rw (inside, held, more, fuel')
              (ap (λ ts. tester l blocks i ∷ ts)
                (visit-settle n fuel (i + 1) (omega arith) (omega arith)))
      ]

  -- A loop over the state visits the keys from the lowest to the highest that have a bit, each once.
  pub key_testers-with_bits_from :
      IsLayout l → key_testers l blocks ≡ with_bits_from (l.khigh + 1 - l.klow) l.klow
  unfolding key_testers key_iterator
  key_testers-with_bits_from ok =
      visit-settle (l.khigh + 1 - l.klow) (suc (l.khigh + 1 - l.klow)) l.klow
        (omega (arith, ok.keys)) (omega arith)

  -- Bit `val`, if `b`.
  test_bit-shifted :
      (b : Bool) (val i : ℕ)
      → val < 32
      → test_bit (to_num b * 2 ^ val % word32) i ≡ (b && (i == val))
  test_bit-shifted false val i h =
      ap (λ (t : ℕ). test_bit t i) {x = 0 * 2 ^ val % word32} {y = 0} (omega arith)
      ∙ test_bit-zero i
  test_bit-shifted true val i h =
      ap (λ (t : ℕ). test_bit t i) {x = 1 * 2 ^ val % word32} {y = 2 ^ val}
        (omega (arith, pow_lt {i = val} {w = 32} h))
      ∙ test_bit-pow val i

  -- Whether `i` is among the `n` values from `val` on.
  abbrev among : ℕ → ℕ → ℕ → Bool
  among n val i = leb val i && ltb i (val + n)

  bits_step :
      (n key val res i : ℕ)
      → val < 32
      → (test_bit (bit_or res (to_num (test l blocks key val) * 2 ^ val % word32)) i
          || (among n (val + 1) i && test l blocks key i))
        ≡ (test_bit res i || (among (suc n) val i && test l blocks key i))
  bits_step n key val res i h =
      rw
        (
          test_bit-bit_or res (to_num (test l blocks key val) * 2 ^ val % word32) i,
          test_bit-shifted (test l blocks key val) val i h,
        )
        (elim (Bool-cases (i == val)) [
          | inl here ↦
              let same : test l blocks key val ≡ test l blocks key i =
                ap (test l blocks key) (sym ((==_iff i val).0 here)) in
              rw same (booleans (test_bit res i) (test l blocks key i) n i val here)
          | inr other ↦
              booleans' (test_bit res i) (test l blocks key val) (test l blocks key i) n i val other
        ])
    where
      booleans :
          (r t : Bool) (n i val : ℕ)
          → (i == val) ≡ true
          → ((r || (t && (i == val))) || (among n (val + 1) i && t))
            ≡ (r || (among (suc n) val i && t))
      booleans true t n i val h = refl
      booleans false false n i val h = ground arith
      booleans false true n i val h = ground arith

      booleans' :
          (r u t : Bool) (n i val : ℕ)
          → (i == val) ≡ false
          → ((r || (u && (i == val))) || (among n (val + 1) i && t))
            ≡ (r || (among (suc n) val i && t))
      booleans' true u t n i val h = refl
      booleans' false false t n i val h = ground arith
      booleans' false true false n i val h = ground arith
      booleans' false true true n i val h = ground arith

  test_bit-bits_from :
      (n key val res i : ℕ)
      → val + n ≤ 32
      → test_bit (bits_from l blocks n key val res) i
        ≡ (test_bit res i || (among n val i && test l blocks key i))
  unfolding bits_from
  test_bit-bits_from zero key val res i h =
      let nowhere : among 0 val i ≡ false = ground arith in
      rw nowhere (sym (or-false (test_bit res i)))
    where
      or-false : (b : Bool) → (b || false) ≡ b
      or-false true = refl
      or-false false = refl
  test_bit-bits_from (suc n) key val res i h =
      test_bit-bits_from n key (val + 1)
        (bit_or res (to_num (test l blocks key val) * 2 ^ val % word32)) i (omega arith)
      ∙ bits_step n key val res i (omega arith)

  -- When the values are below 32, bit `i` of a visited key tells whether the state holds the key with
  -- the value `i`.
  pub tester-bits :
      (key i : ℕ)
      → IsLayout l
      → l.vmax < 32
      → test_bit (tester l blocks key).bits i
        ≡ ((leb l.vmin i && leb i l.vmax) && test l blocks key i)
  unfolding tester
  tester-bits key i ok h =
      let range : among (l.vmax - l.vmin + 1) l.vmin i ≡ (leb l.vmin i && leb i l.vmax) =
        ground (arith, ok.values) in
      test_bit-bits_from (l.vmax - l.vmin + 1) key l.vmin 0 i (omega (arith, ok.values))
      ∙ rw (test_bit-zero i, range) refl
