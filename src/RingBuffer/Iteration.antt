-- ===== src/RingBuffer/Iteration.antt =====
-- The iterator of core::ring_buffer (src/core/ring_buffer.hpp), and what is built on it: the loop
-- over the elements, and `resize`.
use native.Mathlib.Nat.{mod-eq_of_lt, add-mod_right, mod-lt, add-mod-mod}
use braincells.Common.{
  ℕ, zero, suc, ◌+◌, ◌-◌, ◌*◌, ◌%◌, ◌≤◌, ◌<◌, ◌≡◌, inl, inr, arith, List, [], ◌∷◌, ◌++◌, refl, sym,
  ap, ap₂, ◌∙◌, Bool-cases, ◌==◌, ==_iff, max, drop, get_or, drop-drop, append-nil, append_assoc,
  length, drop-append, length-drop, length-append, ltb, ltb→lt, if◌then◌else◌, word64,
}
use braincells.RingBuffer.{
  RingBuffer, new, push, begin, end, walk, elements, push_all, resize, max_size, backward, Offset,
  add_assign, sub_assign,
}
use braincells.RingBuffer.Window.{window}
use braincells.RingBuffer.Invariant.{
  IsValid, push-IsValid, max_size-push, new-IsValid, max_size-new,
}
use braincells.RingBuffer.Refine.{keep_last, contents, length-contents, push_refines}

-- `end` lies `size` positions behind `begin`, also when the buffer is full or wraps round.
pub end_lem {ℓ} : {A : Type ℓ} {r : RingBuffer A} → IsValid r → end r ≡ begin r + r.size
unfolding begin end
end_lem v = ground arith

module _ {ℓ} {A : Type ℓ} (d : A) where
  walk-window :
      (fuel : ℕ) (xs : List A) (p k stop : ℕ)
      → stop ≡ p + k
      → k ≤ fuel
      → walk d fuel xs p stop ≡ window d xs p k
  unfolding walk
  walk-window zero xs p zero stop e h = refl
  walk-window zero xs p (suc k) stop e h = absurd (omega arith)
  walk-window (suc fuel) xs p zero stop e h = rw ((==_iff p stop).1 (omega arith), walk)
  walk-window (suc fuel) xs p (suc k) stop e h = elim (Bool-cases (p == stop)) [
    | inl same ↦ absurd (ground arith)
    | inr more ↦
        rw (more, walk)
          (ap (λ t. get_or xs (p % length xs) d ∷ t)
            (walk-window fuel xs (p + 1) k stop (omega arith) (omega arith)))
  ]

  -- A loop over a valid buffer visits exactly its contents, oldest first.
  pub elements-contents : {r : RingBuffer A} → IsValid r → elements d r ≡ contents d r
  unfolding elements begin
  elements-contents {r} v =
      walk-window (2 * length r.items) r.items r.start r.size _ (end_lem v) (omega arith)

module _ {ℓ} {A : Type ℓ} where
  keep_last-append :
      (n : ℕ) (a b : List A) → keep_last n (keep_last n a ++ b) ≡ keep_last n (a ++ b)
  keep_last-append n a b =
      let k : ℕ = length a - n in
      let e = drop-append k a b (omega arith) in
      ap (λ t. drop (length (drop k a ++ b) - n) t) (sym e)
      ∙ drop-drop (length (drop k a ++ b) - n) k (a ++ b)
      ∙ ap (λ (j : ℕ). drop j (a ++ b))
          (omega (arith, length-append (drop k a) b, length-append a b, length-drop k a))

module _ {ℓ} {A : Type ℓ} where
  push_all-IsValid : (xs : List A) {r : RingBuffer A} → IsValid r → IsValid (push_all r xs)
  unfolding push_all
  push_all-IsValid [] v = v
  push_all-IsValid (x ∷ xs) v = push_all-IsValid xs (push-IsValid x v)

  max_size-push_all : (xs : List A) (r : RingBuffer A) → max_size (push_all r xs) ≡ max_size r
  unfolding push_all
  max_size-push_all [] r = refl
  max_size-push_all (x ∷ xs) r = max_size-push_all xs (push r x) ∙ max_size-push r x

module _ {ℓ} {A : Type ℓ} (d : A) where
  -- Pushing a list leaves its end, in front of it what still fits of the old contents.
  pub push_all_refines :
      (xs : List A) {r : RingBuffer A}
      → IsValid r
      → contents d (push_all r xs) ≡ keep_last (max_size r) (contents d r ++ xs)
  unfolding push_all
  push_all_refines [] {r} v =
      ap (λ (k : ℕ). drop k (contents d r)) {x = 0} (omega (arith, length-contents d r))
      ∙ ap (keep_last (max_size r)) (sym (append-nil (contents d r)))
  push_all_refines (x ∷ xs) {r} v =
      push_all_refines xs (push-IsValid x v)
      ∙ ap₂ (λ (n : ℕ) q. keep_last n (q ++ xs)) (max_size-push r x) (push_refines d x v)
      ∙ keep_last-append (max_size r) (contents d r ++ x ∷ []) xs
      ∙ ap (keep_last (max_size r)) (append_assoc (contents d r) (x ∷ []) xs)

  contents-new : (n : ℕ) {rest : List A} → contents d (new d n) ++ rest ≡ rest
  unfolding new
  contents-new n = refl

  -- `resize` keeps the newest elements that fit, in order, and leaves a valid buffer of the new size.
  pub resize_refines :
      (n : ℕ) {r : RingBuffer A}
      → n < word64
      → IsValid r
      → IsValid (resize d r n)
        × (max_size (resize d r n) ≡ max n 1)
        × (contents d (resize d r n) ≡ keep_last (max n 1) (contents d r))
  unfolding resize
  resize_refines n {r} h v =
      let e = elements-contents d v in
      let n' : ℕ = if ltb 0 n then n else 1 in
      let fresh : IsValid (new d n') = new-IsValid d n' (ground arith) in
      let big : max_size (new d n') ≡ max n 1 = max_size-new d n' ∙ ground arith in
      (
        push_all-IsValid (elements d r) fresh,
        max_size-push_all (elements d r) (new d n') ∙ big,
        push_all_refines (elements d r) fresh
            ∙ ap₂ (λ (m : ℕ) t. keep_last m t) big
                (ap (λ t. contents d (new d n') ++ t) e ∙ contents-new n'),
      )

-- Going back and then forward by the same offset, or the reverse, reads the same slot.
pub backward_lem : (n p i : ℕ) → 0 < n → (backward n p i + i) % n ≡ p % n
unfolding backward
backward_lem n p i h = elim (Bool-cases (ltb p i)) [
  | inr near ↦ rw near (ap (λ (k : ℕ). k % n) (ground arith))
  | inl far ↦
      let m : ℕ = (i - p) % n in
      let lt : m < n = mod-lt (i - p) h in
      let past : p < i = ltb→lt p i far in
      rw far (
        ap (λ (k : ℕ). k % n) {y = n - m + p + (i - p)} (omega arith)
        ∙ sym (add-mod-mod (n - m + p) (i - p) n)
        ∙ ap (λ (k : ℕ). k % n) {y = p + n} (omega arith)
        ∙ add-mod_right p n)
]

backward_bound : (n p i : ℕ) → backward n p i ≤ n + p
unfolding backward
backward_bound n p i = ground arith

-- `it += i` followed by `it -= i` reads the slot that `it` read, whatever the sign of `i`.
pub sub_assign-add_assign :
    (n p : ℕ) (i : Offset)
    → 0 < n
    → p + n + i.magnitude < word64
    → sub_assign n (add_assign n p i) i % n ≡ p % n
unfolding sub_assign add_assign
sub_assign-add_assign n p i h small = elim (Bool-cases i.negative) [
  | inl neg ↦
      let b : ℕ = backward n p i.magnitude in
      let lt : b + i.magnitude < word64 = omega (arith, backward_bound n p i.magnitude) in
      rw neg (
        ap (λ (k : ℕ). k % n) (mod-eq_of_lt {n = b + i.magnitude} {m = word64} lt)
        ∙ backward_lem n p i.magnitude h)
  | inr nonneg ↦ rw nonneg (ap (λ (k : ℕ). k % n) (ground arith))
]
