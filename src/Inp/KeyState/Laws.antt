-- ===== src/Inp/KeyState/Laws.antt =====
-- inp::key_rt_state (src/inp/key_rt_state.hpp) as a set of events: `handle` adds one, `take` removes
-- one, `take_all` empties it.
use braincells.Common.{
  ℕ, zero, suc, ◌^◌, ◌≡◌, ◌≢◌, refl, sym, ap, ◌∙◌, Bool, true, false, not, ◌&&◌, ◌||◌, arith, List,
  [], ◌∷◌, length, length-set, length-replicate, get_or, set, get_or-set_self, get_or-set_ne, map,
  replicate, get_or-replicate, Bool-cases, inl, inr, ◌==◌, bit_and, bit_or, if◌then◌else◌,
}
use braincells.Common.Bits.{
  test_bit, bit_and-pow, test_bit-bit_or, test_bit-bit_and, test_bit-pow, test_bit-complement,
  test_bit-zero, pow_lt,
}
use braincells.Inp.{fetch_or, fetch_and, complement}
use braincells.Inp.KeyState.{
  Layout, IsLayout, block_bits, blockcount, is_key_valid, is_value_valid, get_pos, mask, holds,
  initial, handle, test, take, take_all,
}
use braincells.Inp.KeyState.Position.{IsEvent, get_pos_bounds, get_pos-injective}

get_or_zeros : (xs : List ℕ) (n : ℕ) → get_or (map {B = ℕ} (λ _. 0) xs) n 0 ≡ 0
get_or_zeros [] n = refl
get_or_zeros (x ∷ xs) zero = refl
get_or_zeros (x ∷ xs) (suc n) = get_or_zeros xs n

module _ {l : Layout} (ok : IsLayout l) where
  -- There are as many blocks as the source declares.
  abbrev pub IsState : List ℕ → Type 0
  IsState blocks = length blocks ≡ blockcount l

  -- The event test reads one bit of one block.
  holds_lem :
      (blocks : List ℕ) (k v : ℕ)
      → holds l blocks k v ≡ test_bit (get_or blocks (get_pos l k v).0 0) (get_pos l k v).1
  unfolding holds
  holds_lem blocks k v =
      ap not (bit_and-pow (get_pos l k v).1 (get_or blocks (get_pos l k v).0 0)) ∙ ground arith

  abbrev same : ℕ → ℕ → ℕ → ℕ → Bool
  same k v k' v' = k == k' && v == v'

  abbrev positions : (k v k' v' : ℕ) → Bool
  positions k v k' v' =
      (get_pos l k v).0 == (get_pos l k' v').0 && (get_pos l k' v').1 == (get_pos l k v).1

  positions_lem :
      (k v k' v' : ℕ) → IsEvent ok k v → IsEvent ok k' v' → positions k v k' v' ≡ same k v k' v'
  positions_lem k v k' v' e e' = elim (Bool-cases (same k v k' v')) [
    | inl t ↦
        let hk : k ≡ k' = ground arith in
        let hv : v ≡ v' = ground arith in rw (t, hk, hv) (ground arith)
    | inr f ↦ elim (Bool-cases (positions k v k' v')) [
      | inr g ↦ g ∙ sym f
      | inl g ↦
          let h0 : (get_pos l k v).0 ≡ (get_pos l k' v').0 = ground arith in
          let h1 : (get_pos l k v).1 ≡ (get_pos l k' v').1 = ground arith in
          let d = get_pos-injective ok k v k' v' e e' (λ i. (h0 i, h1 i)) in
          absurd (ground (arith, d.0, d.1))
    ]
  ]

  -- A write to the block of one event, seen from another.
  holds-set :
      (blocks : List ℕ) (k v k' v' b : ℕ)
      → IsState blocks
      → IsEvent ok k v
      → holds l (set blocks (get_pos l k v).0 b) k' v' ≡ (
          if (get_pos l k v).0 == (get_pos l k' v').0
          then test_bit b (get_pos l k' v').1
          else holds l blocks k' v')
  holds-set blocks k v k' v' b s e =
      let n = (get_pos l k v).0 in
      let n' = (get_pos l k' v').0 in
      let i = (get_pos l k' v').1 in
      elim (Bool-cases (n == n')) [
        | inl t ↦
            let h : n ≡ n' = ground arith in
            rw t (
              holds_lem (set blocks n b) k' v'
              ∙ ap (λ (x : ℕ). test_bit x i)
                  (ap (λ (x : ℕ). get_or (set blocks n b) x 0) (sym h)
                    ∙ get_or-set_self blocks n b 0 (omega (arith, get_pos_bounds ok k v e))))
        | inr f ↦
            let h : n ≢ n' = ground arith in
            rw f (
              holds_lem (set blocks n b) k' v'
              ∙ ap (λ (x : ℕ). test_bit x i) (get_or-set_ne blocks n n' b 0 h)
              ∙ sym (holds_lem blocks k' v'))
      ]

  test_valid : (blocks : List ℕ) (k v : ℕ) → IsEvent ok k v → test l blocks k v ≡ holds l blocks k v
  unfolding test is_key_valid
  test_valid blocks k v e = ground arith

  -- The bit of one event, read in the block of another.
  old_bit :
      (blocks : List ℕ) (k v k' v' : ℕ)
      → (get_pos l k v).0 ≡ (get_pos l k' v').0
      → test_bit (get_or blocks (get_pos l k v).0 0) (get_pos l k' v').1 ≡ holds l blocks k' v'
  old_bit blocks k v k' v' h =
      ap (λ (n : ℕ). test_bit (get_or blocks n 0) (get_pos l k' v').1) h
      ∙ sym (holds_lem blocks k' v')

  handle_valid :
      (blocks : List ℕ) (k v : ℕ)
      → IsEvent ok k v
      → handle l blocks k v ≡ (
        true,
        set blocks (get_pos l k v).0 (bit_or (get_or blocks (get_pos l k v).0 0) (mask l k v)),
      )
  unfolding handle is_key_valid is_value_valid
  handle_valid blocks k v e = ground arith

  pub handle-IsState :
      (blocks : List ℕ) (k v : ℕ) → IsState blocks → IsState (handle l blocks k v).1
  unfolding handle
  handle-IsState blocks k v s = ground (
    arith,
    length-set blocks (get_pos l k v).0 (fetch_or (get_or blocks (get_pos l k v).0 0) (mask l k v)),
  )

  pub take-IsState : (blocks : List ℕ) (k v : ℕ) → IsState blocks → IsState (take l blocks k v).1
  unfolding take
  take-IsState blocks k v s = ground (
    arith,
    length-set blocks (get_pos l k v).0
        (fetch_and (get_or blocks (get_pos l k v).0 0) (complement (block_bits l) (mask l k v))),
  )

  -- `handle` of an event adds it to the state and leaves every other event as it was.
  pub test-handle :
      (blocks : List ℕ) (k v k' v' : ℕ)
      → IsState blocks
      → IsEvent ok k v
      → IsEvent ok k' v'
      → ((handle l blocks k v).0 ≡ true)
        × (test l (handle l blocks k v).1 k' v' ≡ (same k v k' v' || test l blocks k' v'))
  test-handle blocks k v k' v' s e e' =
      let n = (get_pos l k v).0 in
      let i = (get_pos l k v).1 in
      let i' = (get_pos l k' v').1 in
      let old : ℕ = get_or blocks n 0 in
      rw (handle_valid blocks k v e) (
        refl,
        test_valid (set blocks n (bit_or old (2 ^ i))) k' v' e'
            ∙ holds-set blocks k v k' v' (bit_or old (2 ^ i)) s e
            ∙ ground (
              arith,
              test_bit-bit_or old (2 ^ i) i',
              test_bit-pow i i',
              old_bit blocks k v k' v',
              positions_lem k v k' v' e e',
              test_valid blocks k' v' e',
            ),
      )

  -- `handle` refuses what is no event of this state, and then changes nothing.
  pub handle_invalid :
      (blocks : List ℕ) (k v : ℕ)
      → (is_key_valid l k && is_value_valid l v) ≡ false
      → handle l blocks k v ≡ (false, blocks)
  unfolding handle
  handle_invalid blocks k v h = ground arith

  take_absent :
      (blocks : List ℕ) (k v : ℕ)
      → IsEvent ok k v
      → holds l blocks k v ≡ false
      → take l blocks k v ≡ (false, blocks)
  unfolding take is_key_valid
  take_absent blocks k v e h = ground arith

  take_present :
      (blocks : List ℕ) (k v : ℕ)
      → IsEvent ok k v
      → holds l blocks k v ≡ true
      → take l blocks k v ≡ (
        true,
        set blocks
            (get_pos l k v).0
            (bit_and (get_or blocks (get_pos l k v).0 0) (complement (block_bits l) (mask l k v))),
      )
  unfolding take is_key_valid
  take_present blocks k v e h = ground arith

  complement_bit :
      (k v : ℕ)
      → IsEvent ok k v
      → (k' v' : ℕ) → IsEvent ok k' v'
      → test_bit (complement (block_bits l) (mask l k v)) (get_pos l k' v').1
        ≡ not (test_bit (mask l k v) (get_pos l k' v').1)
  unfolding complement
  complement_bit k v e k' v' e' =
      test_bit-complement (block_bits l) (mask l k v) (get_pos l k' v').1
        (pow_lt (get_pos_bounds ok k v e).1) (get_pos_bounds ok k' v' e').1

  -- `take` tells whether the event was in the state, and removes it alone.
  pub test-take :
      (blocks : List ℕ) (k v k' v' : ℕ)
      → IsState blocks
      → IsEvent ok k v
      → IsEvent ok k' v'
      → ((take l blocks k v).0 ≡ test l blocks k v)
        × (test l (take l blocks k v).1 k' v' ≡ (not (same k v k' v') && test l blocks k' v'))
  test-take blocks k v k' v' s e e' = elim (Bool-cases (holds l blocks k v)) [
    | inr absent ↦
        rw (take_absent blocks k v e absent) (
          sym (test_valid blocks k v e ∙ absent),
          ground (arith, test_valid blocks k' v' e', absent),
        )
    | inl present ↦
        let n = (get_pos l k v).0 in
        let i = (get_pos l k v).1 in
        let i' = (get_pos l k' v').1 in
        let old : ℕ = get_or blocks n 0 in
        let low : ℕ = complement (block_bits l) (2 ^ i) in
        rw (take_present blocks k v e present) (
          sym (test_valid blocks k v e ∙ present),
          test_valid (set blocks n (bit_and old low)) k' v' e'
              ∙ holds-set blocks k v k' v' (bit_and old low) s e
              ∙ ground (
                arith,
                test_bit-bit_and old low i',
                complement_bit k v e k' v' e',
                test_bit-pow i i',
                old_bit blocks k v k' v',
                positions_lem k v k' v' e e',
                test_valid blocks k' v' e',
              ),
        )
  ]

  holds_zero :
      (blocks : List ℕ) (k v : ℕ) → ((n : ℕ) → get_or blocks n 0 ≡ 0) → test l blocks k v ≡ false
  unfolding test
  holds_zero blocks k v h = ground (
    arith,
    holds_lem blocks k v
        ∙ ap (λ (x : ℕ). test_bit x (get_pos l k v).1) (h (get_pos l k v).0)
        ∙ test_bit-zero (get_pos l k v).1,
  )

  -- `take_all` hands out the state and leaves an empty one.
  pub test-take_all :
      (blocks : List ℕ) (k v : ℕ)
      → (test l (take_all l blocks).0 k v ≡ test l blocks k v)
        × (test l (take_all l blocks).1 k v ≡ false)
  unfolding take_all
  test-take_all blocks k v =
      (refl, holds_zero (map (λ _. 0) blocks) k v (λ n. get_or_zeros blocks n))

  pub test-initial : IsState (initial l) × ((k v : ℕ) → test l (initial l) k v ≡ false)
  unfolding initial
  test-initial = (
    length-replicate (blockcount l) 0,
    λ k v. holds_zero (replicate (blockcount l) 0) k v (λ n. get_or-replicate (blockcount l) n 0),
  )
