-- ===== src/Views/Split/Refine.antt =====
-- The iterators of src/core/ranges/split.hpp visit the fields of the list.
use braincells.Common.{
  ℕ, zero, suc, ◌≤◌, ◌<◌, ◌≡◌, ◌≢◌, refl, sym, ap, ap₂, ◌∙◌, Bool, true, false, List, [], ◌∷◌, ◌++◌,
  arith, Bool-cases, inl, inr, length, length-append, take, take-length-append, ==_iff,
}
use braincells.Views.Split.{
  SplitIterator, skip_empty, allow_empty, has_delim, skip_delims, until_delim, init, next_round,
  next_loop, next, piece, pieces_loop, split_if, split,
}
use braincells.Views.Split.Spec.{
  non_empty, unless_empty, drop_last_empty, fields, before, cons_head,
}

module _ {ℓ} {A : Type ℓ} (op : A → Bool) where
  -- Nothing, or a list that begins with a delimiter.
  abbrev AtDelim : List A → Type 0
  AtDelim [] = Unit
  AtDelim (x ∷ xs) = op x ≡ true

  abbrev AtField : List A → Type 0
  AtField [] = Unit
  AtField (x ∷ xs) = op x ≡ false

  before-until_delim : (xs : List A) → before op xs ++ until_delim op xs ≡ xs
  unfolding before until_delim
  before-until_delim [] = refl
  before-until_delim (x ∷ xs) = elim (Bool-cases (op x)) [
    | inl t ↦ rw t
    | inr f ↦ rw f (ap (λ r. x ∷ r) (before-until_delim xs))
  ]

  until_delim-AtDelim : (xs : List A) → AtDelim (until_delim op xs)
  unfolding until_delim
  until_delim-AtDelim [] = tt
  until_delim-AtDelim (x ∷ xs) = elim (Bool-cases (op x)) [
    | inl t ↦ rw t t
    | inr f ↦ rw f (until_delim-AtDelim xs)
  ]

  skip_delims-AtField : (xs : List A) → AtField (skip_delims op xs)
  unfolding skip_delims
  skip_delims-AtField [] = tt
  skip_delims-AtField (x ∷ xs) = elim (Bool-cases (op x)) [
    | inl t ↦ rw t (skip_delims-AtField xs)
    | inr f ↦ rw f f
  ]

  length-until_delim : (xs : List A) → length (until_delim op xs) ≤ length xs
  unfolding until_delim
  length-until_delim [] = omega arith
  length-until_delim (x ∷ xs) = ground (arith, length-until_delim xs)

  length-skip_delims : (xs : List A) → length (skip_delims op xs) ≤ length xs
  unfolding skip_delims
  length-skip_delims [] = omega arith
  length-skip_delims (x ∷ xs) = ground (arith, length-skip_delims xs)

  -- What `*it` shows of an iterator whose `e` was searched from its `b`.
  piece-before : (b : List A) → piece (record { b = b; e = until_delim op b }) ≡ before op b
  unfolding piece
  piece-before b =
      ap (λ (k : ℕ). take k b)
        (omega
          (arith, ap length (before-until_delim b), length-append (before op b) (until_delim op b)))
      ∙ ap (take (length (before op b))) (sym (before-until_delim b))
      ∙ take-length-append (before op b) (until_delim op b)

  -- The fields behind the one that ends here.
  abbrev rest_fields : List A → List (List A)
  rest_fields [] = []
  rest_fields (x ∷ xs) = fields op xs

  fields_unroll : (xs : List A) → fields op xs ≡ before op xs ∷ rest_fields (until_delim op xs)
  unfolding fields before until_delim
  fields_unroll [] = refl
  fields_unroll (x ∷ xs) = elim (Bool-cases (op x)) [
    | inl t ↦ rw t
    | inr f ↦ rw f (ap (cons_head x) (fields_unroll xs))
  ]

  fields-skip_delims :
      (xs : List A) → non_empty (fields op (skip_delims op xs)) ≡ non_empty (fields op xs)
  unfolding fields skip_delims
  fields-skip_delims [] = refl
  fields-skip_delims (x ∷ xs) = elim (Bool-cases (op x)) [
    | inl t ↦ rw t (fields-skip_delims xs)
    | inr f ↦ rw f (rw f)
  ]

  non_empty-rest_fields :
      (xs : List A)
      → AtDelim xs
      → non_empty (rest_fields xs) ≡ non_empty (fields op (skip_delims op xs))
  unfolding fields skip_delims
  non_empty-rest_fields [] h = refl
  non_empty-rest_fields (x ∷ xs) h = rw h (sym (fields-skip_delims xs))

  abbrev searched : List A → SplitIterator A
  searched b = record { b = b; e = until_delim op b }

  next_round_lem :
      (c x : A) (b : List A) → next_round op false (c ∷ x ∷ b) ≡ (searched (x ∷ b), op x)
  unfolding next_round until_delim
  next_round_lem c x b = elim (Bool-cases (op x)) [
    | inl t ↦ rw t (ap (λ k. (record { b = x ∷ b; e = x ∷ b }, k)) ((==_iff _ _).1 refl))
    | inr f ↦ rw f (
        ap (λ k. (record { b = x ∷ b; e = until_delim op b }, k))
          (ground (arith, length-until_delim b)))
  ]

  next_loop-next_round :
      (allow : Bool) (fuel : ℕ) (e : List A) {r : SplitIterator A × Bool}
      → next_round op allow e ≡ r
      → next_loop op allow (suc fuel) e
        ≡ elim r.1 [ true ↦ next_loop op allow fuel r.0.e | false ↦ r.0 ]
  unfolding next_loop
  next_loop-next_round allow fuel e h =
      ap
        (λ (s : SplitIterator A × Bool).
          let t : SplitIterator A = elim s.1 [
            | true ↦ next_loop op allow fuel s.0.e
            | false ↦ s.0
          ] in
          t)
        h

  next_loop-skip :
      (fuel : ℕ) (e : List A)
      → AtDelim e
      → length e < fuel
      → next_loop op false fuel e ≡ searched (skip_delims op e)
  unfolding skip_delims
  next_loop-skip zero e h lt = absurd (omega arith)
  next_loop-skip (suc fuel) [] h lt = unfold next_loop next_round until_delim in refl
  next_loop-skip (suc zero) (c ∷ []) h lt = absurd (omega arith)
  next_loop-skip (suc (suc fuel)) (c ∷ []) h lt =
      rw h (unfold next_loop next_round until_delim in refl)
  next_loop-skip (suc fuel) (c ∷ x ∷ b) h lt = elim (Bool-cases (op x)) [
    | inl t ↦
        next_loop-next_round false fuel (c ∷ x ∷ b)
          (next_round_lem c x b ∙ ap (λ k. (searched (x ∷ b), k)) t)
        ∙ ap (next_loop op false fuel) {y = x ∷ b} (unfold until_delim in rw t)
        ∙ next_loop-skip fuel (x ∷ b) t (omega arith)
        ∙ ap searched (rw h)
    | inr f ↦
        next_loop-next_round false fuel (c ∷ x ∷ b)
          (next_round_lem c x b ∙ ap (λ k. (searched (x ∷ b), k)) f)
        ∙ ap searched (rw (h, f))
  ]

  next-skip :
      (b : List A) → next op false (searched b) ≡ searched (skip_delims op (until_delim op b))
  unfolding next
  next-skip b = next_loop-skip _ (until_delim op b) (until_delim-AtDelim b) (omega arith)

  pieces_loop-skip :
      (fuel : ℕ) (b : List A)
      → AtField b
      → length b < fuel
      → pieces_loop op false fuel (searched b) ≡ non_empty (fields op b)
  unfolding pieces_loop
  pieces_loop-skip zero b h lt = absurd (omega arith)
  pieces_loop-skip (suc fuel) [] h lt = unfold fields in refl
  pieces_loop-skip (suc fuel) (x ∷ b) h lt =
      let u = until_delim op (x ∷ b) in
      let u_le : length u ≤ length b = unfold until_delim in rw h (length-until_delim b) in
      ap₂ ◌∷◌ (piece-before (x ∷ b)) (
        ap (pieces_loop op false fuel) (next-skip (x ∷ b))
        ∙ pieces_loop-skip fuel (skip_delims op u) (skip_delims-AtField u)
            (omega (arith, u_le, length-skip_delims u))
        ∙ sym (non_empty-rest_fields u (until_delim-AtDelim (x ∷ b))))
      ∙ sym (ap non_empty (fields_unroll (x ∷ b)) ∙ unfold before in rw h)

  -- In the mode `skip_empty` a loop over the view visits the fields that are not empty.
  pub split_if-skip_empty : (xs : List A) → split_if op skip_empty xs ≡ non_empty (fields op xs)
  unfolding split_if init
  split_if-skip_empty xs =
      pieces_loop-skip _ (skip_delims op xs) (skip_delims-AtField xs)
        (omega (arith, length-skip_delims xs))
      ∙ fields-skip_delims xs

  next-allow : (c : A) (b : List A) → next_loop op true (suc (length (c ∷ b))) (c ∷ b) ≡ searched b
  unfolding next_loop next_round until_delim pieces_loop
  next-allow c b = refl

  pieces_loop-nil : (allow : Bool) (fuel : ℕ) → pieces_loop op allow fuel (searched []) ≡ []
  unfolding pieces_loop
  pieces_loop-nil allow zero = refl
  pieces_loop-nil allow (suc fuel) = refl

  unless_empty_lem : (f : List A) → f ≢ [] → unless_empty f ≡ f ∷ []
  unless_empty_lem [] h = absurd (h refl)
  unless_empty_lem (x ∷ f) h = refl

  pieces_loop-rest :
      (fuel : ℕ) (f u : List A)
      → ((r : List A)
          → length r < fuel
          → pieces_loop op true fuel (searched r) ≡ drop_last_empty (fields op r))
      → length u ≤ fuel
      → (u ≡ [] → f ≢ [])
      → f ∷ pieces_loop op true fuel (next_loop op true (suc (length u)) u)
        ≡ drop_last_empty (f ∷ rest_fields u)
  unfolding next_loop next_round until_delim pieces_loop
  pieces_loop-rest fuel f [] ih le h =
      ap (λ t. f ∷ t) (pieces_loop-nil true fuel) ∙ sym (unless_empty_lem f (h refl))
  pieces_loop-rest fuel f (c ∷ r) ih le h =
      ap (λ t. f ∷ t) (ih r (omega arith) ∙ ap drop_last_empty (fields_unroll r))
      ∙ ap (λ t. drop_last_empty (f ∷ t)) (sym (fields_unroll r))

  pieces_loop-allow :
      (fuel : ℕ) (b : List A)
      → length b < fuel
      → pieces_loop op true fuel (searched b) ≡ drop_last_empty (fields op b)
  unfolding pieces_loop next
  pieces_loop-allow zero b lt = absurd (omega arith)
  pieces_loop-allow (suc fuel) [] lt = unfold fields in refl
  pieces_loop-allow (suc fuel) (x ∷ b) lt =
      let whole = before-until_delim (x ∷ b) in
      ap (λ t. t ∷ pieces_loop op true fuel (next op true (searched (x ∷ b))))
        (piece-before (x ∷ b))
      ∙ pieces_loop-rest fuel (before op (x ∷ b)) (until_delim op (x ∷ b))
          (λ r lt'. pieces_loop-allow fuel r lt') (omega (arith, length-until_delim (x ∷ b)))
          (λ e g. cc (whole, e, g))
      ∙ ap drop_last_empty (sym (fields_unroll (x ∷ b)))

  -- In the mode `allow_empty` it visits all the fields, but not an empty field at the very end.
  pub split_if-allow_empty :
      (xs : List A) → split_if op allow_empty xs ≡ drop_last_empty (fields op xs)
  unfolding split_if init
  split_if-allow_empty xs = pieces_loop-allow _ xs (omega arith)

-- `split` by symbols: without the empty fields, and with them but for one at the end.
module _ {ℓ} {A : Type ℓ} (eq : A → A → Bool) (delims xs : List A) where
  -- A loop over `xs | split(delims...)` visits the fields that are not empty, in order.
  pub split-skip_empty : split eq skip_empty delims xs ≡ non_empty (fields (has_delim eq delims) xs)
  unfolding split
  split-skip_empty = split_if-skip_empty (has_delim eq delims) xs

  -- With `split_mode::allow_empty` it visits every field, in order, except an empty last one.
  pub split-allow_empty :
      split eq allow_empty delims xs ≡ drop_last_empty (fields (has_delim eq delims) xs)
  unfolding split
  split-allow_empty = split_if-allow_empty (has_delim eq delims) xs
