-- ===== src/Views/Subst/Expansion.antt =====
-- The expansion of src/core/ranges/subst.hpp's substitution, from one `${key}` of the text to the next.
use braincells.Common.{
  ℕ, zero, suc, ◌+◌, ◌-◌, ◌≤◌, ◌<◌, ◌≡◌, refl, sym, ap, ap₂, ◌∙◌, inl, inr, true, false, Option,
  none, some, List, [], ◌∷◌, ◌++◌, length, drop, take, ◌==◌, ◌>>=◌, Text, arith, Bool-cases,
  append_assoc, map, append-nil, Option-cases, length-drop, drop-drop, drop-nil,
}
use mathlib.Core.Option.{none-ne-some, some-injective}
use braincells.Views.Subst.{Subst, close_from, get_value, substr}
use braincells.Views.Subst.Spec.{
  at_marker, marker, parse, plain, in_key, Segment, letter, key, expand_with, expand, too_deep,
}

take-nil : (n : ℕ) → take {A = ℕ} n [] ≡ []
take-nil zero = refl
take-nil (suc n) = refl

pub close_from-ge : (closing e : ℕ) (cs : Text) → e ≤ close_from closing e cs
unfolding close_from
close_from-ge closing e [] = omega arith
close_from-ge closing e (c ∷ cs) = ground (arith, close_from-ge closing (suc e) cs)

pub close_from-le : (closing e : ℕ) (cs : Text) → close_from closing e cs ≤ e + length cs
unfolding close_from
close_from-le closing e [] = omega arith
close_from-le closing e (c ∷ cs) = ground (arith, close_from-le closing (suc e) cs)

expand_with-letters :
    (below : Text → Option Text) (a : Text) (s : List Segment)
    → expand_with below (map letter a ++ s) ≡ (expand_with below s >>= λ rest. some (a ++ rest))
unfolding expand_with
expand_with-letters below [] s = elim (Option-cases (expand_with below s)) [
  | inl n ↦ rw n refl
  | inr (t, e) ↦ rw e refl
]
expand_with-letters below (c ∷ a) s =
    rw (expand_with-letters below a s)
      (elim (Option-cases (expand_with below s)) [ inl n ↦ rw n refl | inr (t, e) ↦ rw e refl ])

module _ (subst : Subst) where
  parse-none : (cs : Text) → marker subst cs ≡ none → parse subst plain cs ≡ map letter cs
  unfolding marker parse
  parse-none [] h = refl
  parse-none (c ∷ cs) h = elim (Bool-cases (at_marker subst c cs)) [
    | inl t ↦ absurd (none-ne-some 0 (sym h ∙ rw t refl))
    | inr n ↦ elim (Option-cases (marker subst cs)) [
      | inl m ↦ rw n (ap (λ s. letter c ∷ s) (parse-none cs m))
      | inr (p, m) ↦ absurd (none-ne-some (1 + p) (sym h ∙ rw (n, m) refl))
    ]
  ]

  parse_opened :
      (c : ℕ) (cs : Text)
      → at_marker subst c cs ≡ true
      → (2 ≤ suc (length cs)) × (parse subst plain (c ∷ cs) ≡ parse subst (in_key []) (drop 1 cs))
  unfolding parse at_marker
  parse_opened c [] t = elim (Bool-cases (c == subst.symbol)) [
    | inl y ↦ let clash : false ≡ true = rw y at t in cc
    | inr n ↦ let clash : false ≡ true = rw n at t in cc
  ]
  parse_opened c (d ∷ cs) t = (omega arith, rw t refl)

  parse-some :
      (cs : Text) (p : ℕ)
      → marker subst cs ≡ some p
      → (p + 2 ≤ length cs)
        × (parse subst plain cs
            ≡ map letter (take p cs) ++ parse subst (in_key []) (drop (p + 2) cs))
  unfolding marker parse
  parse-some [] p h = cc
  parse-some (c ∷ cs) p h = elim (Bool-cases (at_marker subst c cs)) [
    | inl t ↦ let here : 0 ≡ p = some-injective 0 p (rw t at h) in rw (← here) (parse_opened c cs t)
    | inr n ↦ elim (Option-cases (marker subst cs)) [
      | inl m ↦ absurd (none-ne-some p (rw (n, m) at h))
      | inr (q, m) ↦
          let there : 1 + q ≡ p = some-injective (1 + q) p (rw (n, m) at h) in
          let (b, further) = parse-some cs q m in
          (
            omega arith,
            rw (n, further)
                (ap₂ (λ a r. a ++ parse subst (in_key []) r)
                  (ap (λ (k : ℕ). map letter (take k (c ∷ cs))) {x = suc q} {y = p} (omega arith))
                  (ap (λ (k : ℕ). drop k (c ∷ cs)) {x = suc (q + 2)} {y = p + 2} (omega arith))),
          )
    ]
  ]

  pub marker-le : (cs : Text) (p : ℕ) → marker subst cs ≡ some p → p + 2 ≤ length cs
  marker-le cs p h = (parse-some cs p h).0

  parse-in_key :
      (e : ℕ) (k cs : Text)
      → parse subst (in_key k) cs
        ≡ key (get_value subst (k ++ take (close_from subst.closing e cs - e) cs))
          ∷ parse subst plain (drop (suc (close_from subst.closing e cs) - e) cs)
  unfolding close_from parse
  parse-in_key e k [] = sym (
      ap₂ (λ t r. key (get_value subst t) ∷ parse subst plain r)
        (ap (λ t. k ++ t) (take-nil (e - e)) ∙ append-nil k) (drop-nil (suc e - e)))
  parse-in_key e k (c ∷ cs) = elim (Bool-cases (c == subst.closing)) [
    | inl t ↦ rw t (
        sym (
          ap₂ (λ t r. key (get_value subst t) ∷ parse subst plain r)
            (ap (λ (n : ℕ). k ++ take n (c ∷ cs)) {x = e - e} {y = 0} (omega arith) ∙ append-nil k)
            (ap (λ (n : ℕ). drop n (c ∷ cs)) {x = suc e - e} {y = 1} (omega arith))))
    | inr n ↦
        let end : ℕ = close_from subst.closing (suc e) cs in
        let b : suc e ≤ end = close_from-ge subst.closing (suc e) cs in
        rw (n, parse-in_key (suc e) (k ++ c ∷ []) cs)
          (ap₂ (λ t r. key (get_value subst t) ∷ parse subst plain r)
            (append_assoc k (c ∷ []) _
              ∙ ap (λ (n : ℕ). k ++ take n (c ∷ cs)) {x = suc (end - suc e)} {y = end - e}
                  (omega arith))
            (ap (λ (n : ℕ). drop n (c ∷ cs)) {x = suc (suc end - suc e)} {y = suc end - e}
              (omega arith)))
  ]

  -- The key that is opened at `p`, and where the text goes on.
  abbrev pub key_at : Text → ℕ → Text
  key_at text p = substr text (p + 2) (close_from subst.closing (p + 2) (drop (p + 2) text))

  abbrev pub rest_at : Text → ℕ → Text
  rest_at text p = drop (suc (close_from subst.closing (p + 2) (drop (p + 2) text))) text

  pub length-rest_at :
      (text : Text) (p : ℕ) → marker subst text ≡ some p → length (rest_at text p) < length text
  length-rest_at text p h = omega (
    arith,
    close_from-ge subst.closing (p + 2) (drop (p + 2) text),
    (parse-some text p h).0,
    length-drop (suc (close_from subst.closing (p + 2) (drop (p + 2) text))) text,
  )

  parse_unroll :
      (text : Text) (p : ℕ)
      → marker subst text ≡ some p
      → parse subst plain text
        ≡ map letter (take p text)
          ++ key (get_value subst (key_at text p)) ∷ parse subst plain (rest_at text p)
  parse_unroll text p h =
      let end : ℕ = close_from subst.closing (p + 2) (drop (p + 2) text) in
      let b : p + 2 ≤ end = close_from-ge subst.closing (p + 2) (drop (p + 2) text) in
      (parse-some text p h).1
      ∙ ap (λ s. map letter (take p text) ++ s)
          (parse-in_key (p + 2) [] (drop (p + 2) text)
            ∙ ap (λ r. key (get_value subst (key_at text p)) ∷ parse subst plain r)
                (drop-drop (suc end - (p + 2)) (p + 2) text
                  ∙ ap (λ (k : ℕ). drop k text) {x = p + 2 + (suc end - (p + 2))} {y = suc end}
                      (omega arith)))

  expand_with-plain :
      (below : Text → Option Text) (text : Text)
      → marker subst text ≡ none
      → expand_with below (parse subst plain text) ≡ some text
  unfolding expand_with
  expand_with-plain below text h =
      ap (expand_with below) (parse-none text h ∙ sym (append-nil _))
      ∙ expand_with-letters below text []
      ∙ ap some (append-nil text)

  expand_with_unroll :
      (below : Text → Option Text) (text : Text) (p : ℕ)
      → marker subst text ≡ some p
      → expand_with below (parse subst plain text) ≡ (
          (below (get_value subst (key_at text p)) >>= λ v.
          expand_with below (parse subst plain (rest_at text p)) >>= λ r. some (v ++ r))
          >>= λ rest. some (take p text ++ rest))
  unfolding expand_with
  expand_with_unroll below text p h =
      ap (expand_with below) (parse_unroll text p h) ∙ expand_with-letters below (take p text) _

  pub expand-none :
      (depth : ℕ) (text : Text) → marker subst text ≡ none → expand subst depth text ≡ some text
  unfolding expand
  expand-none zero text h = expand_with-plain too_deep text h
  expand-none (suc depth) text h = expand_with-plain (expand subst depth) text h

  pub expand-some_zero :
      (text : Text) (p : ℕ) → marker subst text ≡ some p → expand subst 0 text ≡ none
  unfolding expand
  expand-some_zero text p h = expand_with_unroll too_deep text p h

  pub expand-some :
      (depth : ℕ) (text : Text) (p : ℕ) (out : Text)
      → marker subst text ≡ some p
      → expand subst (suc depth) text ≡ some out
      → (v r : Text) × (expand subst depth (get_value subst (key_at text p)) ≡ some v)
        × (expand subst (suc depth) (rest_at text p) ≡ some r)
        × (out ≡ take p text ++ (v ++ r))
  unfolding expand
  expand-some depth text p out h e =
      let e' = sym (expand_with_unroll (expand subst depth) text p h) ∙ e in
      elim (Option-cases (expand subst depth (get_value subst (key_at text p)))) [
        | inl n ↦ absurd (none-ne-some out (rw n at e'))
        | inr (v, ev) ↦
            elim (Option-cases
              (expand_with (expand subst depth) (parse subst plain (rest_at text p)))) [
                | inl n ↦ absurd (none-ne-some out (rw (ev, n) at e'))
                | inr (r, er) ↦ (v, r, ev, er, sym (some-injective _ out (rw (ev, er) at e')))
              ]
      ]
