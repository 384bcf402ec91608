-- ===== src/RingBuffer/Window.antt =====
-- The elements that a vector of length `n` shows from a position on, each position taken modulo `n`:
-- what a walk with the iterator of src/core/ring_buffer.hpp reads.
use native.Mathlib.Nat.{mod-add-mod}
use braincells.Common.{
  ℕ, zero, suc, ◌+◌, ◌-◌, ◌%◌, ◌≤◌, ◌<◌, ◌≡◌, ◌≢◌, refl, sym, ap, ap₂, ◌∙◌, List, [], ◌∷◌, ◌++◌,
  arith, length, get_or, set, take, drop, length-set, get_or-set_self, get_or-set_ne,
}

module _ {ℓ} {A : Type ℓ} (d : A) where
  abbrev pub window : List A → ℕ → ℕ → List A
  window xs p zero = []
  window xs p (suc k) = get_or xs (p % length xs) d ∷ window xs (p + 1) k

  pub length-window : (xs : List A) (p k : ℕ) → length (window xs p k) ≡ k
  length-window xs p zero = refl
  length-window xs p (suc k) = ap suc (length-window xs (p + 1) k)

  -- A walk of one more step ends with the element behind the window.
  pub window-suc :
      (xs : List A) (p k : ℕ)
      → window xs p (suc k) ≡ window xs p k ++ get_or xs ((p + k) % length xs) d ∷ []
  window-suc xs p zero = ap (λ (q : ℕ). get_or xs (q % length xs) d ∷ []) (omega arith)
  window-suc xs p (suc k) =
      ap (λ t. get_or xs (p % length xs) d ∷ t)
        (window-suc xs (p + 1) k
          ∙ ap (λ (q : ℕ). window xs (p + 1) k ++ get_or xs (q % length xs) d ∷ []) (omega arith))

  -- Positions that agree modulo the length show the same elements.
  pub window_congr :
      (xs : List A) (p q k : ℕ) → p % length xs ≡ q % length xs → window xs p k ≡ window xs q k
  window_congr xs p q zero h = refl
  window_congr xs p q (suc k) h = ap₂ ◌∷◌ (ap (λ (i : ℕ). get_or xs i d) h) (
      window_congr xs (p + 1) (q + 1) k (
        sym (mod-add-mod p (length xs) 1)
        ∙ ap (λ (i : ℕ). (i + 1) % length xs) h
        ∙ mod-add-mod q (length xs) 1))

  pub drop-window :
      (xs : List A) (p k j : ℕ) → j ≤ k → drop j (window xs p k) ≡ window xs (p + j) (k - j)
  drop-window xs p k zero h = ap₂ (window xs) (omega arith) (omega arith)
  drop-window xs p zero (suc j) h = absurd (omega arith)
  drop-window xs p (suc k) (suc j) h =
      drop-window xs (p + 1) k j (omega arith) ∙ ap₂ (window xs) (omega arith) (omega arith)

  pub take-window : (xs : List A) (p k j : ℕ) → j ≤ k → take j (window xs p k) ≡ window xs p j
  take-window xs p k zero h = refl
  take-window xs p zero (suc j) h = absurd (omega arith)
  take-window xs p (suc k) (suc j) h =
      ap (λ t. get_or xs (p % length xs) d ∷ t) (take-window xs (p + 1) k j (omega arith))

-- Two positions less than one round apart fall on different slots.
pub mod_ne_of_lt : (a b n : ℕ) → a < b → b < a + n → a % n ≢ b % n
mod_ne_of_lt a b n lo hi e = grind arith

module _ {ℓ} {A : Type ℓ} (d : A) where
  -- A write to a slot outside the window is not seen.
  pub window-set_ne :
      (xs : List A) (p k i : ℕ) (v : A)
      → ((j : ℕ) → j < k → (p + j) % length xs ≢ i)
      → window d (set xs i v) p k ≡ window d xs p k
  window-set_ne xs p zero i v h = refl
  window-set_ne xs p (suc k) i v h =
      ap₂ ◌∷◌
        (ap (λ (n : ℕ). get_or (set xs i v) (p % n) d) (length-set xs i v)
          ∙ get_or-set_ne xs i (p % length xs) v d (λ e. h 0 (omega arith) (head e)))
        (window-set_ne xs (p + 1) k i v
          (λ j lt e. h (suc j) (omega arith) (ap (λ (q : ℕ). q % length xs) (omega arith) ∙ e)))
    where
      head : i ≡ p % length xs → (p + 0) % length xs ≡ i
      head e = ap (λ (q : ℕ). q % length xs) (omega arith) ∙ sym e

  -- A write to the slot behind a window that leaves room extends the window.
  pub window-set_end :
      (xs : List A) (p k i : ℕ) (v : A)
      → k < length xs
      → i ≡ (p + k) % length xs
      → window d (set xs i v) p (suc k) ≡ window d xs p k ++ v ∷ []
  window-set_end xs p k i v room e =
      window-suc d (set xs i v) p k
      ∙ ap₂ (λ t (y : A). t ++ y ∷ [])
          (window-set_ne xs p k i v (λ j lt f.
            mod_ne_of_lt (p + j) (p + k) (length xs) (omega arith) (omega arith) (f ∙ e)))
          (ap (λ (n : ℕ). get_or (set xs i v) ((p + k) % n) d) (length-set xs i v)
            ∙ ap (λ (q : ℕ). get_or (set xs i v) q d) (sym e)
            ∙ get_or-set_self xs i v d (rw e (omega arith)))
