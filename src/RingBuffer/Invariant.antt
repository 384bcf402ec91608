-- ===== src/RingBuffer/Invariant.antt =====
-- The representation invariant of core::ring_buffer (src/core/ring_buffer.hpp).
use native.Mathlib.Nat.{mod_self, mod-eq_of_lt}
use native.Mathlib.Decide.{dec_lt}
use braincells.Common.{
  ap, ◌∙◌, ℕ, ◌+◌, ◌-◌, ◌%◌, ◌≤◌, ◌<◌, ◌≡◌, ◌≢◌, ◌⊎◌, inl, inr, arith, max, length, length-set,
  length-map, length-replicate, word64,
}
use braincells.RingBuffer.{RingBuffer, new, clear, push, pop, skip, max_size}

-- The vector is never empty, and the insert position is the start advanced by the size.
pub record IsValid {ℓ} {A : Type ℓ} (r : RingBuffer A) : Type 0 where
  pub room : 0 < length r.items
  pub small : length r.items < word64
  pub start_in : r.start < length r.items
  pub insert_in : r.insert < length r.items
  pub size_in : r.size ≤ length r.items
  pub linked : (r.insert ≡ r.start + r.size) ⊎ (r.insert + length r.items ≡ r.start + r.size)

-- One step forward on the ring either stays in the round or comes back to slot 0.
pub next-cases :
    (i n : ℕ) → i < n → ((i + 1) % n ≡ i + 1) × (i + 1 < n) ⊎ ((i + 1) % n ≡ 0) × (i + 1 ≡ n)
next-cases i n h = elim (dec_lt (i + 1) n) [
  | yes p ↦ inl (mod-eq_of_lt p, p)
  | no p ↦ let e : i + 1 ≡ n = omega arith in inr (ap (λ (k : ℕ). k % n) e ∙ mod_self n, e)
]

module _ {ℓ} {A : Type ℓ} (d : A) where
  pub max_size-new : (n : ℕ) → max_size (new d n) ≡ max n 1
  unfolding new
  max_size-new n = ground (arith, length-replicate n d)

  -- The constructor makes a valid buffer, at size 0 too.
  pub new-IsValid : (n : ℕ) → n < word64 → IsValid (new d n)
  unfolding new
  new-IsValid n h = ground (arith, length-replicate n d)

  pub clear-IsValid : {r : RingBuffer A} → IsValid r → IsValid (clear d r)
  unfolding clear
  clear-IsValid {r} v = ground (arith, length-map (λ _. d) r.items)

  pub pop-IsValid : {r : RingBuffer A} → r.size ≢ 0 → IsValid r → IsValid (pop d r)
  unfolding pop
  pop-IsValid {r} h v =
      ground (arith, length-set r.items (length r.items - 1) d, length-set r.items (r.insert - 1) d)

  pub skip-IsValid : {r : RingBuffer A} → IsValid r → IsValid (skip d r)
  unfolding skip
  skip-IsValid {r} v = ground (
    arith,
    length-set r.items r.start d,
    next-cases r.start (length r.items) v.start_in,
    next-cases r.insert (length r.items) v.insert_in,
  )

module _ {ℓ} {A : Type ℓ} where
  pub push-IsValid : {r : RingBuffer A} (value : A) → IsValid r → IsValid (push r value)
  unfolding push
  push-IsValid {r} value v = ground (
    arith,
    length-set r.items r.insert value,
    next-cases r.start (length r.items) v.start_in,
    next-cases r.insert (length r.items) v.insert_in,
  )

  pub max_size-push : (r : RingBuffer A) (value : A) → max_size (push r value) ≡ max_size r
  unfolding push
  max_size-push r value = length-set r.items r.insert value
