-- ===== src/Views/Trim/Laws.antt =====
-- What src/core/ranges/trim.hpp cuts off, and what it leaves.
use braincells.Common.{
  ℕ, zero, suc, ◌≤◌, ◌≡◌, ◌≢◌, refl, sym, ap, ◌∙◌, Bool, true, false, List, [], ◌∷◌, ◌++◌, none,
  some, length, take, get_elem?, arith, Bool-cases, Option-cases, inl, inr, append_assoc,
  append-nil,
}
use braincells.Views.Trim.{trim_front, trim_back, trim_if}

module _ {ℓ} {A : Type ℓ} (op : A → Bool) where
  abbrev pub All : List A → Type 0
  All [] = Unit
  All (x ∷ xs) = (op x ≡ true) × All xs

  -- The first element is kept.
  abbrev pub StartsKept : List A → Type 0
  StartsKept [] = Unit
  StartsKept (x ∷ xs) = op x ≡ false

  -- The last element is kept.
  abbrev pub EndsKept : List A → Type 0
  EndsKept [] = Unit
  EndsKept (x ∷ []) = op x ≡ false
  EndsKept (x ∷ y ∷ ys) = EndsKept (y ∷ ys)

  -- `ys` is `xs` without the longest ends whose elements all pass the test.
  pub record IsTrimmed (xs ys : List A) : Type ℓ where
    pub front : List A
    pub back : List A
    pub whole : front ++ (ys ++ back) ≡ xs
    pub front_all : All front
    pub back_all : All back
    pub starts : StartsKept ys
    pub ends : EndsKept ys

  trim_front_lem :
      (xs : List A)
      → (front : List A) × (front ++ trim_front op xs ≡ xs)
        × All front
        × StartsKept (trim_front op xs)
  unfolding trim_front
  trim_front_lem [] = ([], refl, tt, tt)
  trim_front_lem (x ∷ xs) = elim (Bool-cases (op x)) [
    | inl t ↦
        let (front, whole, all, starts) = trim_front_lem xs in
        rw (t, trim_front) (x ∷ front, ap (λ r. x ∷ r) whole, (t, all), starts)
    | inr f ↦ rw (f, trim_front) ([], refl, tt, f)
  ]

  take-suc :
      (xs : List A) (n : ℕ) (x : A)
      → get_elem? xs n ≡ some x
      → take (suc n) xs ≡ take n xs ++ x ∷ []
  take-suc [] n x h = cc
  take-suc (y ∷ ys) zero x h = ground arith
  take-suc (y ∷ ys) (suc n) x h = ap (λ r. y ∷ r) (take-suc ys n x h)

  get_elem?-lt : (xs : List A) (n : ℕ) → suc n ≤ length xs → get_elem? xs n ≢ none
  get_elem?-lt [] n h e = omega arith
  get_elem?-lt (y ∷ ys) zero h e = cc
  get_elem?-lt (y ∷ ys) (suc n) h e = get_elem?-lt ys n (omega arith) e

  EndsKept-snoc : (xs : List A) (x : A) → op x ≡ false → EndsKept (xs ++ x ∷ [])
  EndsKept-snoc [] x h = h
  EndsKept-snoc (y ∷ []) x h = h
  EndsKept-snoc (y ∷ z ∷ ys) x h = EndsKept-snoc (z ∷ ys) x h

  All-snoc : (xs : List A) (x : A) → All xs → op x ≡ true → All (xs ++ x ∷ [])
  All-snoc [] x h k = (k, tt)
  All-snoc (y ∷ ys) x h k = (h.0, All-snoc ys x h.1 k)

  trim_back_lem :
      (b : List A) (e : ℕ)
      → e ≤ length b
      → (back : List A) × (take (trim_back op b e) b ++ back ≡ take e b)
        × All back
        × EndsKept (take (trim_back op b e) b)
  unfolding trim_back
  trim_back_lem b zero h = ([], refl, tt, tt)
  trim_back_lem b (suc e) h = elim (Option-cases (get_elem? b e)) [
    | inl missing ↦ absurd (get_elem?-lt b e h missing)
    | inr (x, at) ↦ elim (Bool-cases (op x)) [
      | inl t ↦
          let (back, whole, all, ends) = trim_back_lem b e (omega arith) in
          rw (at, trim_back, t)
            (
              back ++ x ∷ [],
              sym (append_assoc (take (trim_back op b e) b) back (x ∷ []))
                  ∙ ap (λ r. r ++ x ∷ []) whole
                  ∙ sym (take-suc b e x at),
              All-snoc back x all t,
              ends,
            )
      | inr f ↦
          rw (at, trim_back, f)
            (
              [],
              append-nil (take (suc e) b),
              tt,
              rw (take-suc b e x at) (EndsKept-snoc (take e b) x f),
            )
    ]
  ]

  StartsKept-take : (n : ℕ) (xs : List A) → StartsKept xs → StartsKept (take n xs)
  StartsKept-take zero xs h = tt
  StartsKept-take (suc n) [] h = tt
  StartsKept-take (suc n) (x ∷ xs) h = h

  take-all : (xs : List A) → take (length xs) xs ≡ xs
  take-all [] = refl
  take-all (x ∷ xs) = ap (λ r. x ∷ r) (take-all xs)

  -- `trim_if` cuts off both ends as far as their elements pass the test, and nothing else.
  pub trim_if-IsTrimmed : (xs : List A) → IsTrimmed xs (trim_if op xs)
  unfolding trim_if
  trim_if-IsTrimmed xs =
      let (front, whole, all, starts) = trim_front_lem xs in
      let b = trim_front op xs in
      let (back, whole', all', ends) = trim_back_lem b (length b) (omega arith) in
      record {
        front = front;
        back = back;
        whole = ap (λ r. front ++ r) (whole' ∙ take-all b) ∙ whole;
        front_all = all;
        back_all = all';
        starts = StartsKept-take (trim_back op b (length b)) b starts;
        ends = ends;
      }
