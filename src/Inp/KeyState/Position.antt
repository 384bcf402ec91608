-- ===== src/Inp/KeyState/Position.antt =====
-- Where src/inp/key_rt_state.hpp keeps a key and a value.
use native.Mathlib.Nat.{mod-lt, div-add-mod}
use native.Mathlib.Decide.{dec_le}
use braincells.Common.{ℕ, ◌+◌, ◌-◌, ◌*◌, ◌/◌, ◌≤◌, ◌<◌, ◌≡◌, sym, ap, ap₂, ◌∙◌, true, arith}
use braincells.Inp.KeyState.{
  Layout, IsLayout, block_bits, value_bitcount, bitcount, blockcount, is_key_valid, is_value_valid,
  bit_number, get_pos,
}

-- A number below `h * w` has one quotient and one remainder by `w`.
digits_in_range : (a b w h : ℕ) → a < h → b < w → a * w + b < w * h
digits_in_range a b w h p q = grind arith

digits_le : (a b c d w : ℕ) → d < w → a * w + b ≡ c * w + d → a ≤ c
digits_le a b c d w q e = elim (dec_le a c) [
  | yes h ↦ h
  | no h ↦ let lt : c < a = omega arith in absurd (grind arith)
]

digits-injective : (a b c d w : ℕ) → b < w → d < w → a * w + b ≡ c * w + d → (a ≡ c) × (b ≡ d)
digits-injective a b c d w p q e =
    let h : a ≡ c = omega (arith, digits_le a b c d w q e, digits_le c d a b w p (sym e)) in
    (h, omega (arith, ap (λ (t : ℕ). t * w) h))

round_up-le : (n b : ℕ) → 0 < b → n ≤ b * ((n - 1) / b + 1)
round_up-le n b h = omega arith

div-lt : (k b n : ℕ) → k < b * n → k / n < b
div-lt k b n h = grind arith

module _ {l : Layout} (ok : IsLayout l) where
  pub record IsEvent (key value : ℕ) : Type 0 where
    pub key_low : l.klow ≤ key
    pub key_high : key ≤ l.khigh
    pub value_low : l.vmin ≤ value
    pub value_high : value ≤ l.vmax

  pub valid-IsEvent :
      (key value : ℕ)
      → is_key_valid l key ≡ true
      → is_value_valid l value ≡ true
      → IsEvent key value
  unfolding is_key_valid is_value_valid
  valid-IsEvent key value h k = ground arith

  pub blockcount_pos : 0 < blockcount l
  unfolding blockcount
  blockcount_pos = omega arith

  bit_number_lem :
      (key value : ℕ)
      → IsEvent key value
      → bit_number l key value ≡ (key - l.klow) * value_bitcount l + (value - l.vmin)
  unfolding bit_number
  bit_number_lem key value e =
      ap₂ (λ (a b : ℕ). a * value_bitcount l + b) (omega arith) (omega arith)

  bit_number-lt : (key value : ℕ) → IsEvent key value → bit_number l key value < bitcount l
  unfolding bitcount
  bit_number-lt key value e = rw (bit_number_lem key value e) (
      digits_in_range (key - l.klow) (value - l.vmin) (value_bitcount l) (l.khigh - l.klow + 1)
        (omega arith) (unfold value_bitcount in omega arith))

  -- All the bits fit in the blocks.
  bitcount-le : bitcount l ≤ block_bits l * blockcount l
  unfolding blockcount
  bitcount-le = round_up-le (bitcount l) (block_bits l) (omega arith)

  -- The position of an event lies in the array, and its bit in the block.
  pub get_pos_bounds :
      (key value : ℕ)
      → IsEvent key value
      → ((get_pos l key value).0 < blockcount l) × ((get_pos l key value).1 < block_bits l)
  unfolding get_pos
  get_pos_bounds key value e = (
    mod-lt (bit_number l key value) blockcount_pos,
    div-lt (bit_number l key value) (block_bits l) (blockcount l)
        (omega (arith, bit_number-lt key value e, bitcount-le)),
  )

  -- Two events never share a bit.
  pub get_pos-injective :
      (k v k' v' : ℕ)
      → IsEvent k v
      → IsEvent k' v'
      → get_pos l k v ≡ get_pos l k' v'
      → (k ≡ k') × (v ≡ v')
  unfolding get_pos
  get_pos-injective k v k' v' e e' h =
      let n = bit_number l k v in
      let n' = bit_number l k' v' in
      let b = blockcount l in
      let same : n ≡ n' =
        sym (div-add-mod n b)
        ∙ ap₂ (λ (q r : ℕ). b * q + r) (ap (λ (t : ℕ × ℕ). t.1) h) (ap (λ (t : ℕ × ℕ). t.0) h)
        ∙ div-add-mod n' b in
      let d =
        digits-injective (k - l.klow) (v - l.vmin) (k' - l.klow) (v' - l.vmin) (value_bitcount l)
          (unfold value_bitcount in omega arith) (unfold value_bitcount in omega arith)
          (sym (bit_number_lem k v e) ∙ same ∙ bit_number_lem k' v' e') in
      (omega (arith, d.0), omega (arith, d.1))
