-- ===== src/RingBuffer/Refine.antt =====
-- core::ring_buffer (src/core/ring_buffer.hpp) as a bounded queue that forgets its oldest elements.
use native.Mathlib.Nat.{mod-eq_of_lt, add-mod_right, mod-mod}
use braincells.Common.{
  ℕ, suc, ◌+◌, ◌-◌, ◌%◌, ◌≤◌, ◌<◌, ◌≡◌, ◌≢◌, ◌⊎◌, inl, inr, arith, List, [], ◌∷◌, ◌++◌, sym, ap,
  ap₂, ◌∙◌, Bool-cases, ◌==◌, take, drop, set, get_or, length, drop-append, length-set,
  length-append, if◌then◌else◌,
}
use braincells.RingBuffer.{RingBuffer, push, pop, skip, back, max_size}
use braincells.RingBuffer.Window.{
  window, length-window, window-suc, window_congr, drop-window, take-window, mod_ne_of_lt,
  window-set_ne, window-set_end,
}
use braincells.RingBuffer.Invariant.{IsValid}

before_insert :
    (i s k n : ℕ)
    → i < n
    → s < n
    → k ≤ n
    → k ≢ 0
    → (i ≡ s + k) ⊎ (i + n ≡ s + k)
    → (if i == 0 then n - 1 else i - 1) ≡ (s + (k - 1)) % n
before_insert i s k n hi hs hk h (inl e) =
    let lt : s + (k - 1) < n = omega arith in ground (arith, mod-eq_of_lt lt)
before_insert i s k n hi hs hk h (inr e) = elim (Bool-cases (i == 0)) [
  | inl z ↦ rw z (let lt : s + (k - 1) < n = ground arith in ground (arith, mod-eq_of_lt lt))
  | inr p ↦
      let lt : i - 1 < n = omega arith in
      let f : s + (k - 1) ≡ i - 1 + n = ground arith in
      rw (p, f) (sym (add-mod_right (i - 1) n ∙ mod-eq_of_lt lt))
]

module _ {ℓ} {A : Type ℓ} where
  -- The last `n` elements of a list, all of them if there are fewer.
  abbrev pub keep_last : ℕ → List A → List A
  keep_last n xs = drop (length xs - n) xs

  abbrev pub contents : A → RingBuffer A → List A
  contents d r = window d r.items r.start r.size

module _ {ℓ} {A : Type ℓ} (d : A) where
  pub length-contents : (r : RingBuffer A) → length (contents d r) ≡ r.size
  length-contents r = length-window d r.items r.start r.size

  -- The insert position is the slot behind the contents.
  pub insert_lem : {r : RingBuffer A} → IsValid r → r.insert ≡ (r.start + r.size) % length r.items
  insert_lem {r} v = elim v.linked [
    | inl e ↦ e ∙ sym (mod-eq_of_lt (omega arith))
    | inr e ↦
        sym (mod-eq_of_lt v.insert_in)
        ∙ sym (add-mod_right r.insert (length r.items))
        ∙ ap (λ (k : ℕ). k % length r.items) e
  ]

  window_mod : (xs : List A) (p k n : ℕ) → length xs ≡ n → window d xs (p % n) k ≡ window d xs p k
  window_mod xs p k n e = rw (← e) (window_congr d xs _ _ k (mod-mod p (length xs)))

  contents-push_full :
      {r : RingBuffer A} (x : A)
      → IsValid r
      → r.size ≡ length r.items
      → window d (set r.items r.insert x) ((r.start + 1) % length r.items) r.size
        ≡ drop 1 (contents d r ++ x ∷ [])
  contents-push_full {r} x v full =
      window_mod (set r.items r.insert x) (r.start + 1) r.size n (length-set r.items r.insert x)
      ∙ ap (λ (k : ℕ). window d (set r.items r.insert x) (r.start + 1) k) {y = suc m} (omega arith)
      ∙ window-set_end d r.items (r.start + 1) m r.insert x (omega arith)
          (insert_lem v ∙ ap (λ (k : ℕ). k % n) {y = r.start + 1 + m} (omega arith))
      ∙ ap (λ t. t ++ x ∷ []) (sym (drop-window d r.items r.start r.size 1 (omega arith)))
      ∙ sym (drop-append 1 (contents d r) (x ∷ []) (rw (length-contents r) (omega arith)))
    where
      n : ℕ
      n = length r.items

      m : ℕ
      m = r.size - 1

  contents-push_more :
      {r : RingBuffer A} (x : A)
      → IsValid r
      → r.size < length r.items
      → window d (set r.items r.insert x) r.start (r.size + 1) ≡ contents d r ++ x ∷ []
  contents-push_more {r} x v more =
      ap (λ (k : ℕ). window d (set r.items r.insert x) r.start k) {y = suc r.size} (omega arith)
      ∙ window-set_end d r.items r.start r.size r.insert x more (insert_lem v)

  -- How many elements `push` forgets.
  dropped :
      (r : RingBuffer A) (x : A)
      → length (contents d r ++ x ∷ []) - max_size r ≡ r.size + 1 - length r.items
  dropped r x =
      ap (λ (k : ℕ). k - length r.items)
        (length-append (contents d r) (x ∷ []) ∙ ap (λ (k : ℕ). k + 1) (length-contents r))

  -- `push` appends the value, and forgets the oldest element if the buffer was full.
  pub push_refines :
      {r : RingBuffer A} (x : A)
      → IsValid r
      → contents d (push r x) ≡ keep_last (max_size r) (contents d r ++ x ∷ [])
  unfolding push
  push_refines {r} x v = elim (Bool-cases (r.size == length r.items)) [
    | inl full ↦
        let e : r.size ≡ length r.items = ground arith in
        rw full (
          contents-push_full x v e
          ∙ ap (λ (k : ℕ). drop k (contents d r ++ x ∷ [])) {x = 1} (omega (arith, dropped r x)))
    | inr more ↦
        let h : r.size < length r.items = ground (arith, v.size_in) in
        rw more (
          contents-push_more x v h
          ∙ ap (λ (k : ℕ). drop k (contents d r ++ x ∷ [])) {x = 0} (omega (arith, dropped r x)))
  ]

  abbrev last_slot : RingBuffer A → ℕ
  last_slot r = if r.insert == 0 then length r.items - 1 else r.insert - 1

  -- The slot before the insert position holds the newest element.
  last_slot_lem :
      {r : RingBuffer A}
      → IsValid r
      → r.size ≢ 0
      → last_slot r ≡ (r.start + (r.size - 1)) % length r.items
  last_slot_lem {r} v h =
      before_insert r.insert r.start r.size (length r.items) v.insert_in v.start_in v.size_in h
        v.linked

  -- `pop` removes the newest element.
  pub pop_refines :
      {r : RingBuffer A}
      → IsValid r
      → r.size ≢ 0
      → contents d (pop d r) ≡ take (r.size - 1) (contents d r)
  unfolding pop
  pop_refines {r} v h =
      ap (λ (k : ℕ). window d (set r.items (last_slot r) d) r.start k) {y = r.size - 1}
        (omega arith)
      ∙ window-set_ne d r.items r.start (r.size - 1) (last_slot r) d (λ j lt e.
        mod_ne_of_lt (r.start + j) (r.start + (r.size - 1)) (length r.items) (omega arith)
          (omega arith) (e ∙ last_slot_lem v h))
      ∙ sym (take-window d r.items r.start r.size (r.size - 1) (omega arith))

  -- `back` is the newest element.
  pub back_refines :
      {r : RingBuffer A}
      → IsValid r
      → r.size ≢ 0
      → contents d r ≡ take (r.size - 1) (contents d r) ++ back d r ∷ []
  unfolding back
  back_refines {r} v h =
      ap (λ (k : ℕ). window d r.items r.start k) {y = suc (r.size - 1)} (omega arith)
      ∙ window-suc d r.items r.start (r.size - 1)
      ∙ ap₂ (λ t (i : ℕ). t ++ get_or r.items i d ∷ [])
          (sym (take-window d r.items r.start r.size (r.size - 1) (omega arith)))
          (sym (last_slot_lem v h))

  -- `skip` appends the value that the next slot holds, which is reset if the buffer was full.
  pub skip_refines :
      {r : RingBuffer A}
      → IsValid r
      → contents d (skip d r)
        ≡ keep_last (max_size r) (
            contents d r
            ++ (if r.size == length r.items then d else get_or r.items r.insert d) ∷ [])
  unfolding skip
  skip_refines {r} v = elim (Bool-cases (r.size == length r.items)) [
    | inl full ↦
        let e : r.size ≡ length r.items = ground arith in
        let same : r.start ≡ r.insert = ground (arith, v.linked) in
        rw full (
          ap (λ (i : ℕ). window d (set r.items i d) ((r.start + 1) % length r.items) r.size) same
          ∙ contents-push_full d v e
          ∙ ap (λ (k : ℕ). drop k (contents d r ++ d ∷ [])) {x = 1} (omega (arith, dropped r d)))
    | inr more ↦
        let y : A = get_or r.items r.insert d in
        rw more (
          ap (λ (k : ℕ). window d r.items r.start k) {y = suc r.size} (omega arith)
          ∙ window-suc d r.items r.start r.size
          ∙ ap (λ (i : ℕ). contents d r ++ get_or r.items i d ∷ []) (sym (insert_lem v))
          ∙ ap (λ (k : ℕ). drop k (contents d r ++ y ∷ [])) {x = 0} (ground (arith, dropped r y)))
  ]
