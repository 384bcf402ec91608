-- ===== src/Inp/KeySwitch/Update.antt =====
-- An update of a key_switch_state (src/inp/key_switch_state.hpp) from a key_rt_state.
use braincells.Common.{
  ℕ, zero, suc, ◌+◌, ◌-◌, ◌/◌, ◌%◌, ◌^◌, ◌≡◌, ◌≢◌, ◌≤◌, ◌<◌, refl, sym, ap, ◌∙◌, Bool, true, false,
  not, ◌&&◌, ◌||◌, List, bit_or, bit_and, if◌then◌else◌, leb, ◌==◌, ==_iff, word32, arith,
  Bool-cases, inl, inr, get_or, set, length, get_or-set_self, get_or-set_ne, length-set,
}
use braincells.Common.Bits.{
  test_bit, test_bit-bit_or, test_bit-bit_and, test_bit-zero, test_bit-pow, test_bit-complement,
  bit_and-pow, pow_lt,
}
use braincells.Inp.{complement}
use braincells.Inp.KeyState.{Layout, IsLayout}
use braincells.Inp.KeyState as Keys
use braincells.Inp.KeyIterator.{KeyTester, tester, key_testers}
use braincells.Inp.KeyIterator.Visits.{with_bits_from, key_testers-with_bits_from, tester-bits}
use braincells.Inp.KeySwitch.{blocks_count, bits_count, get_pos, update_key, update, test}
use braincells.Inp.KeySwitch.Decide.{decided}

not-not : (b : Bool) → not (not b) ≡ b
not-not true = refl
not-not false = refl

module _ (low high on off : ℕ) where
  -- A state that has all its blocks, and a key that it has a bit for.
  abbrev pub IsState : List ℕ → Type 0
  IsState state = length state ≡ blocks_count low high on off

  abbrev pub IsKey : ℕ → Type 0
  IsKey key = (low ≤ key) × (key ≤ high) × (high < word32)

  abbrev switch : List ℕ → ℕ → Bool
  switch state k = test_bit (get_or state ((k - low) / 64) 0) ((k - low) % 64)

  test-switch : (state : List ℕ) (k : ℕ) → IsKey k → test low high on off state k ≡ switch state k
  unfolding test get_pos
  test-switch state k (h, h', fits) =
      let idx : (k + word32 - low) % word32 ≡ k - low = omega arith in
      rw idx (ap not (bit_and-pow ((k - low) % 64) (get_or state ((k - low) / 64) 0)) ∙ not-not _)

  -- A change of the bit of `i` in its block.
  switch-set :
      (state : List ℕ) (i k : ℕ) (x : ℕ) (f : Bool → Bool → Bool)
      → IsState state
      → IsKey i
      → IsKey k
      → ((b : Bool) → f b false ≡ b)
      → ((j : ℕ)
          → j < 64
          → test_bit x j ≡ f (test_bit (get_or state ((i - low) / 64) 0) j) (j == (i - low) % 64))
      → switch (set state ((i - low) / 64) x) k ≡ f (switch state k) (k == i)
  unfolding blocks_count bits_count
  switch-set state i k x f whole hi hk same bits =
      elim (Bool-cases ((k - low) / 64 == (i - low) / 64)) [
        | inl t ↦
            let block : (k - low) / 64 ≡ (i - low) / 64 = (==_iff _ _).0 t in
            let inside : (i - low) / 64 < length state = omega (arith, whole) in
            let bit : ((k - low) % 64 == (i - low) % 64) ≡ (k == i) = ground arith in
            rw (block, get_or-set_self state ((i - low) / 64) x 0 inside)
              (bits ((k - low) % 64) (omega arith) ∙ ap (f _) bit)
        | inr n ↦
            let elsewhere : (i - low) / 64 ≢ (k - low) / 64 = ground arith in
            let other : (k == i) ≡ false = ground arith in
            rw (get_or-set_ne state ((i - low) / 64) ((k - low) / 64) x 0 elsewhere, other)
              (sym (same (switch state k)))
      ]

  -- A key that was pressed and not released goes on, a key that was released goes off.
  abbrev pub verdict : Bool → Bool → Bool → Bool
  verdict pressed released old =
      if pressed && not released then true else if released then false else old

  set_or :
      (state : List ℕ) (i k : ℕ)
      → IsState state
      → IsKey i
      → IsKey k
      → switch
          (set state
            ((i - low) / 64)
            (bit_or (get_or state ((i - low) / 64) 0) (2 ^ ((i - low) % 64))))
          k
        ≡ (switch state k || (k == i))
  set_or state i k whole hi hk =
      switch-set state i k _ (λ b e. b || e) whole hi hk or-false
        λ j small.
          test_bit-bit_or (get_or state ((i - low) / 64) 0) (2 ^ ((i - low) % 64)) j
          ∙ ap (λ c. test_bit (get_or state ((i - low) / 64) 0) j || c)
              (test_bit-pow ((i - low) % 64) j)
    where
      or-false : (b : Bool) → (b || false) ≡ b
      or-false true = refl
      or-false false = refl

  set_and :
      (state : List ℕ) (i k : ℕ)
      → IsState state
      → IsKey i
      → IsKey k
      → switch
          (set state
            ((i - low) / 64)
            (bit_and (get_or state ((i - low) / 64) 0) (complement 64 (2 ^ ((i - low) % 64)))))
          k
        ≡ (switch state k && not (k == i))
  unfolding complement
  set_and state i k whole hi hk =
      switch-set state i k _ (λ b e. b && not e) whole hi hk and-true
        λ j small.
          let bit : ℕ = (i - low) % 64 in
          test_bit-bit_and (get_or state ((i - low) / 64) 0) (2 ^ 64 - 1 - 2 ^ bit) j
          ∙ ap (λ c. test_bit (get_or state ((i - low) / 64) 0) j && c)
              (test_bit-complement 64 (2 ^ bit) j (pow_lt {i = bit} {w = 64} (omega arith)) small
                ∙ ap not (test_bit-pow bit j))
    where
      and-true : (b : Bool) → (b && true) ≡ b
      and-true true = refl
      and-true false = refl

  update_key_lem :
      (state : List ℕ) (t : KeyTester) (k : ℕ)
      → on ≢ off
      → IsState state
      → IsKey t.key
      → IsKey k
      → IsState (update_key low high on off state t)
        × (switch (update_key low high on off state t) k ≡ (
            if k == t.key
            then verdict (test_bit t.bits on) (test_bit t.bits off) (switch state k)
            else switch state k))
  unfolding update_key get_pos complement
  update_key_lem state t k apart whole (h, h', fits) hk =
      let i : ℕ = t.key in
      let idx : (i + word32 - low) % word32 ≡ i - low = omega arith in
      let with_or = set_or state i k whole (h, h', fits) hk in
      let with_and = set_and state i k whole (h, h', fits) hk in
      let decide = decided low high on off apart t.bits in
      elim (Bool-cases (test_bit t.bits on)) [
        | inl pressed ↦ elim (Bool-cases (test_bit t.bits off)) [
          | inl released ↦
              let (p, q) = decide true true pressed released in
              rw (idx, p, q, pressed, released)
                (length-set state _ _ ∙ whole, with_and ∙ goes_off (switch state k) (k == i))
          | inr kept ↦
              let (p, q) = decide true false pressed kept in
              rw (idx, p, pressed, kept)
                (length-set state _ _ ∙ whole, with_or ∙ goes_on (switch state k) (k == i))
        ]
        | inr untouched ↦ elim (Bool-cases (test_bit t.bits off)) [
          | inl released ↦
              let (p, q) = decide false true untouched released in
              rw (idx, p, q, untouched, released)
                (length-set state _ _ ∙ whole, with_and ∙ goes_off (switch state k) (k == i))
          | inr kept ↦
              let (p, q) = decide false false untouched kept in
              rw (idx, p, q, untouched, kept) (whole, stays (switch state k) (k == i))
        ]
      ]
    where
      goes_on : (s e : Bool) → (s || e) ≡ (if e then true else s)
      goes_on true true = refl
      goes_on true false = refl
      goes_on false true = refl
      goes_on false false = refl

      goes_off : (s e : Bool) → (s && not e) ≡ (if e then false else s)
      goes_off true true = refl
      goes_off true false = refl
      goes_off false true = refl
      goes_off false false = refl

      stays : (s e : Bool) → s ≡ (if e then s else s)
      stays s true = refl
      stays s false = refl

  update_tester :
      (l : Layout) (blocks : List ℕ) (state : List ℕ) (i k : ℕ)
      → on ≢ off
      → IsState state
      → IsKey i
      → IsKey k
      → let t : KeyTester = tester l blocks i in
        IsState (update_key low high on off state t)
        × (switch (update_key low high on off state t) k ≡ (
            if k == i
            then verdict (test_bit t.bits on) (test_bit t.bits off) (switch state k)
            else switch state k))
  unfolding tester
  update_tester l blocks state i k apart whole hi hk =
      update_key_lem state (tester l blocks i) k apart whole hi hk

  update-held :
      (l : Layout) (blocks : List ℕ) (n i : ℕ) (state : List ℕ) (k : ℕ)
      → on ≢ off
      → IsState state
      → low ≤ i
      → i + n ≡ high + 1
      → IsKey k
      → switch (update low high on off state (with_bits_from l blocks n i)) k ≡ (
          if leb i k
          then verdict
              (test_bit (tester l blocks k).bits on)
              (test_bit (tester l blocks k).bits off)
              (switch state k)
          else switch state k)
  unfolding update with_bits_from
  update-held l blocks zero i state k apart whole h e hk =
      let past : leb i k ≡ false = ground (arith, hk.1) in rw past refl
  update-held l blocks (suc n) i state k apart whole h e hk =
      elim (Bool-cases ((tester l blocks i).bits == 0)) [
        | inl z ↦ elim (Bool-cases (k == i)) [
          | inl here ↦
              let nothing : (tester l blocks k).bits ≡ 0 =
                ap (λ (x : ℕ). (tester l blocks x).bits) ((==_iff k i).0 here) ∙ (==_iff _ 0).0 z in
              let before : leb (i + 1) k ≡ false = ground arith in
              let at_it : leb i k ≡ true = ground arith in
              rw (z, at_it, nothing, test_bit-zero on, test_bit-zero off)
                (rw before at (
                  update-held l blocks n (i + 1) state k apart whole (omega arith) (omega arith)
                    hk))
          | inr other ↦
              let same : leb (i + 1) k ≡ leb i k = ground arith in
              rw (z, ← same)
                (update-held l blocks n (i + 1) state k apart whole (omega arith) (omega arith) hk)
        ]
        | inr held ↦
            let state' : List ℕ = update_key low high on off state (tester l blocks i) in
            let (whole', changed) =
              update_tester l blocks state i k apart whole (h, omega arith, hk.2) hk in
            let rest =
              update-held l blocks n (i + 1) state' k apart whole' (omega arith) (omega arith) hk in
            elim (Bool-cases (k == i)) [
              | inl here ↦
                  let before : leb (i + 1) k ≡ false = ground arith in
                  let at_it : leb i k ≡ true = ground arith in
                  rw (held, at_it)
                    ((rw before at rest)
                      ∙ (rw here at changed)
                      ∙ ap
                          (λ (x : ℕ).
                            verdict (test_bit (tester l blocks x).bits on)
                              (test_bit (tester l blocks x).bits off) (switch state k))
                          (sym ((==_iff k i).0 here)))
              | inr other ↦
                  let same : leb (i + 1) k ≡ leb i k = ground arith in
                  rw (held, ← same)
                    (rest
                      ∙ ap
                          (λ s.
                            if leb (i + 1) k
                            then verdict (test_bit (tester l blocks k).bits on)
                                (test_bit (tester l blocks k).bits off) s
                            else s)
                          (rw other at changed))
            ]
      ]

-- An update from the state of the same keys, whose values are below 32 and among them two different ones
-- for on and off: a key that it holds with the first value and not with the second goes on, a key that
-- it holds with the second goes off, and every other key stays as it was.
pub test-update :
    (l : Layout) (blocks state : List ℕ) (on off k : ℕ)
    → IsLayout l
    → l.vmax < 32
    → on ≢ off
    → (l.vmin ≤ on) × (on ≤ l.vmax)
    → (l.vmin ≤ off) × (off ≤ l.vmax)
    → IsState l.klow l.khigh on off state
    → (l.klow ≤ k) × (k ≤ l.khigh)
    → test l.klow l.khigh on off (update l.klow l.khigh on off state (key_testers l blocks)) k
      ≡ verdict l.klow l.khigh on off
          (Keys.test l blocks k on)
          (Keys.test l blocks k off)
          (test l.klow l.khigh on off state k)
test-update l blocks state on off k ok small apart hon hoff whole hk =
    let key : IsKey l.klow l.khigh on off k = (hk.0, hk.1, ok.keys_fit) in
    let valid_on : (leb l.vmin on && leb on l.vmax) ≡ true = ground (arith, hon) in
    let valid_off : (leb l.vmin off && leb off l.vmax) ≡ true = ground (arith, hoff) in
    let bit_on = rw valid_on at (tester-bits l blocks k on ok small) in
    let bit_off = rw valid_off at (tester-bits l blocks k off ok small) in
    let inside : leb l.klow k ≡ true = ground (arith, hk) in
    test-switch l.klow l.khigh on off _ k key
    ∙ ap (λ ts. switch l.klow l.khigh on off (update l.klow l.khigh on off state ts) k)
        (key_testers-with_bits_from l blocks ok)
    ∙ (rw (inside, bit_on, bit_off) at
        (update-held l.klow l.khigh on off l blocks (l.khigh + 1 - l.klow) l.klow state k apart
          whole (omega arith) (omega (arith, ok.keys)) key))
    ∙ ap (verdict l.klow l.khigh on off (Keys.test l blocks k on) (Keys.test l blocks k off))
        (sym (test-switch l.klow l.khigh on off state k key))
