-- ===== src/Views/Subst/Search.antt =====
-- What `find_subst_symbol` of src/core/ranges/subst.hpp finds.
use braincells.Common.{
  ℕ, zero, suc, ◌+◌, ◌-◌, ◌≤◌, ◌<◌, ◌≡◌, refl, sym, ap, ◌∙◌, ◌⊎◌, inl, inr, Bool, true, false,
  Option, none, some, [], ◌∷◌, ◌++◌, length, get_or, drop, ◌==◌, Text, arith, Bool-cases, ==_iff,
  length-drop, drop-drop, drop-length-append, lt→ltb, le→ltb,
}
use braincells.Views.Subst.{Subst, find_from, find, opens_at, find_round, round_at, find_loop}
use braincells.Views.Subst.Spec.{shift, begins_opening, at_marker, marker, ends_with}

pub shift-shift : (m n : ℕ) (o : Option ℕ) → shift m (shift n o) ≡ shift (m + n) o
shift-shift m n none = refl
shift-shift m n (some p) = ap some (omega arith)

shift_successor : (n : ℕ) (o : Option ℕ) → shift 1 (shift n o) ≡ shift (suc n) o
shift_successor n o = shift-shift 1 n o ∙ ap (λ (k : ℕ). shift k o) {x = 1 + n} (omega arith)

pub shift_zero : (o : Option ℕ) → shift 0 o ≡ o
shift_zero none = refl
shift_zero (some p) = ap some (omega arith)

ends_with-tail :
    (symbol c : ℕ) (cs : Text) → ends_with symbol (c ∷ cs) ≡ false → ends_with symbol cs ≡ false
ends_with-tail symbol c [] h = refl
ends_with-tail symbol c (d ∷ cs) h = h

pub ends_with-drop :
    (symbol n : ℕ) (cs : Text) → ends_with symbol cs ≡ false → ends_with symbol (drop n cs) ≡ false
ends_with-drop symbol zero cs h = h
ends_with-drop symbol (suc n) [] h = refl
ends_with-drop symbol (suc n) (c ∷ cs) h = ends_with-drop symbol n cs (ends_with-tail symbol c cs h)

get_or-drop : (n i d : ℕ) (cs : Text) → get_or (drop n cs) i d ≡ get_or cs (n + i) d
get_or-drop zero i d cs = ap (λ (k : ℕ). get_or cs k d) (omega arith)
get_or-drop (suc n) i d [] = refl
get_or-drop (suc n) i d (c ∷ cs) =
    get_or-drop n i d cs ∙ ap (λ (k : ℕ). get_or (c ∷ cs) k d) {x = suc (n + i)} (omega arith)

module _ (subst : Subst) where
  -- How a search from `e` on comes out.
  abbrev pub Found : ℕ → Text → Type 0
  Found e cs =
      (a r : Text) × (cs ≡ a ++ subst.symbol ∷ r)
      × (find_from subst.symbol e cs ≡ some (e + length a))
      × (marker subst cs ≡ shift (length a) (marker subst (subst.symbol ∷ r)))

  pub find_from-cases :
      (e : ℕ) (cs : Text)
      → ((find_from subst.symbol e cs ≡ none) × (marker subst cs ≡ none)) ⊎ Found e cs
  unfolding find_from marker at_marker
  find_from-cases e [] = inl (refl, refl)
  find_from-cases e (c ∷ cs) = elim (Bool-cases (c == subst.symbol)) [
    | inl t ↦
        let here : c ≡ subst.symbol = (==_iff c subst.symbol).0 t in
        inr (
          [],
          cs,
          ap (λ x. x ∷ cs) here,
          rw t (ap some (omega arith)),
          ap (λ x. marker subst (x ∷ cs)) here ∙ sym (shift_zero _),
        )
    | inr f ↦ elim (find_from-cases (suc e) cs) [
      | inl (p, q) ↦ inl (rw f p, rw (f, q) refl)
      | inr (a, r, s, p, q) ↦ inr (
        c ∷ a,
        r,
        ap (λ x. c ∷ x) s,
        rw (f, p) (ap some (omega arith)),
        rw (f, q) (shift_successor (length a) _),
      )
    ]
  ]

  pub opens_at-drop :
      (p : ℕ) (text r : Text)
      → drop (suc p) text ≡ r
      → p < length text
      → opens_at subst text p ≡ begins_opening subst r
  unfolding opens_at
  opens_at-drop p text [] h b =
      rw (le→ltb (p + 1) (length text) (omega (arith, ap length h, length-drop (suc p) text)))
  opens_at-drop p text (c ∷ cs) h b =
      rw (lt→ltb (p + 1) (length text) (omega (arith, ap length h, length-drop (suc p) text))) (
        ap (λ (x : ℕ). x == subst.opening)
          (ap (λ (k : ℕ). get_or text k 0) {x = p + 1} (omega arith)
            ∙ sym (get_or-drop (suc p) 0 0 text)
            ∙ ap (λ (t : Text). get_or t 0 0) h))

  pub marker-hit :
      (r : Text) → begins_opening subst r ≡ true → marker subst (subst.symbol ∷ r) ≡ some 0
  unfolding marker at_marker
  marker-hit r h = rw ((==_iff subst.symbol subst.symbol).1 refl, h) refl

  pub marker-miss :
      (r : Text)
      → begins_opening subst r ≡ false
      → marker subst (subst.symbol ∷ r) ≡ shift 1 (marker subst r)
  unfolding marker at_marker
  marker-miss r h = rw ((==_iff subst.symbol subst.symbol).1 refl, h) refl

  -- The symbol is not the last character.
  more_behind : (r : Text) → ends_with subst.symbol (subst.symbol ∷ r) ≡ false → 0 < length r
  more_behind [] h =
      let clash : true ≡ false = sym ((==_iff subst.symbol subst.symbol).1 refl) ∙ h in cc
  more_behind (c ∷ r) h = omega arith

  -- The text at the symbol that is found, and behind it.
  pub found_at :
      (text : Text) (e : ℕ) (a r : Text)
      → drop e text ≡ a ++ subst.symbol ∷ r
      → (drop (e + length a) text ≡ subst.symbol ∷ r)
        × (drop (suc (e + length a)) text ≡ r)
        × (e + length a < length text)
  found_at text e a r s =
      let there : drop (e + length a) text ≡ subst.symbol ∷ r =
        sym (drop-drop (length a) e text)
        ∙ ap (drop (length a)) s
        ∙ drop-length-append a (subst.symbol ∷ r) in
      (
        there,
        ap (λ (k : ℕ). drop k text) {x = suc (e + length a)} {y = e + length a + 1} (omega arith)
            ∙ sym (drop-drop 1 (e + length a) text)
            ∙ ap (drop 1) there,
        omega (arith, ap length there, length-drop (e + length a) text),
      )

  -- One round from `e`, where `cs` is the text from there on.
  find_round-cases :
      (text : Text) (e : ℕ)
      → ends_with subst.symbol text ≡ false
      → (find_round subst text e ≡ (shift e (marker subst (drop e text)), true))
        ⊎ ((e' : ℕ) × (e < e')
            × (e' ≤ length text)
            × (find_round subst text e ≡ (some e', false))
            × (shift e (marker subst (drop e text)) ≡ shift e' (marker subst (drop e' text))))
  unfolding find_round find round_at
  find_round-cases text e safe = elim (find_from-cases e (drop e text)) [
    | inl (f, m) ↦ inl (rw (f, m) refl)
    | inr (a, r, s, f, m) ↦
        let (there, behind, bound) = found_at text e a r s in
        let opens : opens_at subst text (e + length a) ≡ begins_opening subst r =
          opens_at-drop (e + length a) text r behind bound in
        elim (Bool-cases (begins_opening subst r)) [
          | inl t ↦ inl (
              rw (f, opens, t, m, marker-hit r t)
                (ap (λ (k : ℕ). (some k, true)) {x = e + length a} (omega arith)))
          | inr n ↦
              let more : 0 < length r = more_behind r (
                ap (ends_with subst.symbol) (sym there)
                ∙ ends_with-drop subst.symbol (e + length a) text safe) in
              let further : suc (e + length a) < length text =
                omega (arith, ap length behind, length-drop (suc (e + length a)) text) in
              inr (
                suc (e + length a),
                omega arith,
                omega arith,
                rw (f, opens, n, lt→ltb (e + length a + 1) (length text) (omega arith)) refl,
                rw (m, marker-miss r n, behind)
                    (ap (shift e) (shift-shift (length a) 1 (marker subst r))
                      ∙ shift-shift e (length a + 1) (marker subst r)
                      ∙ ap (λ (k : ℕ). shift k (marker subst r)) {x = e + (length a + 1)}
                          (omega arith)),
              )
        ]
  ]

  -- The search finds the first `${` from `e` on.
  pub find_loop_lem :
      (fuel : ℕ) (text : Text) (e : ℕ)
      → ends_with subst.symbol text ≡ false
      → e ≤ length text
      → length text - e < fuel
      → find_loop subst fuel text (some e) ≡ some (shift e (marker subst (drop e text)))
  unfolding find_loop
  find_loop_lem zero text e safe b h = absurd (omega arith)
  find_loop_lem (suc fuel) text e safe b h = elim (find_round-cases text e safe) [
    | inl r ↦ ap after r
    | inr (e', lt, b', r, m) ↦
        ap after r ∙ find_loop_lem fuel text e' safe b' (omega arith) ∙ ap some (sym m)
  ]
    where
      after : Option ℕ × Bool → Option (Option ℕ)
      after r = elim r.1 [ true ↦ some r.0 | false ↦ find_loop subst fuel text r.0 ]
