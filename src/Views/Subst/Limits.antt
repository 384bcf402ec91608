-- ===== src/Views/Subst/Limits.antt =====
-- The limits of src/core/ranges/subst.hpp: a text that ends with the substitution symbol, and a
-- substitution at the deepest level.
use braincells.Common.{
  ℕ, zero, suc, ◌+◌, ◌≤◌, ◌<◌, ◌≡◌, refl, sym, ap, ◌∙◌, inl, inr, Bool, true, false, Option, none,
  some, [], ◌∷◌, ◌++◌, length, drop, take, ◌==◌, Text, arith, Bool-cases, Option-cases, ltb, ltb→lt,
  length-drop, length-take, take-append-drop,
}
use mathlib.Core.Option.{none-ne-some}
use braincells.Views.Subst.{
  Subst, SavedPos, SubstIterator, find, find_from, opens_at, round_at, find_loop, find_round, next,
  piece,
}
use braincells.Views.Subst.Spec.{shift, marker, ends_with, begins_opening}
use braincells.Views.Subst.Search.{
  find_from-cases, found_at, opens_at-drop, marker-hit, marker-miss,
}
use braincells.Views.Subst.States.{stands, behind, behind-bounds, next_full}

take-take : (m n : ℕ) (cs : Text) → m ≤ n → take m (take n cs) ≡ take m cs
take-take zero n cs h = refl
take-take (suc m) zero cs h = absurd (omega arith)
take-take (suc m) (suc n) [] h = refl
take-take (suc m) (suc n) (c ∷ cs) h = ap (λ t. c ∷ t) (take-take m n cs (omega arith))

find_from-none :
    (symbol e : ℕ) (cs : Text) → find_from symbol e cs ≡ none → ends_with symbol cs ≡ false
unfolding find_from
find_from-none symbol e [] h = refl
find_from-none symbol e (c ∷ cs) h = elim (Bool-cases (c == symbol)) [
  | inl t ↦ absurd (none-ne-some e (sym h ∙ rw t refl))
  | inr n ↦ last_of cs n (find_from-none symbol (suc e) cs (rw n at h))
]
  where
    last_of :
        (cs : Text)
        → (c == symbol) ≡ false
        → ends_with symbol cs ≡ false
        → ends_with symbol (c ∷ cs) ≡ false
    last_of [] n h = n
    last_of (d ∷ cs) n h = h

ends_with-append :
    (symbol c : ℕ) (a cs : Text) → ends_with symbol (a ++ c ∷ cs) ≡ ends_with symbol (c ∷ cs)
ends_with-append symbol c [] cs = refl
ends_with-append symbol c (b ∷ []) cs = refl
ends_with-append symbol c (b ∷ d ∷ a) cs = ends_with-append symbol c (d ∷ a) cs

shift-none : (n : ℕ) (o : Option ℕ) → shift n o ≡ none → o ≡ none
shift-none n none h = refl
shift-none n (some p) h = absurd (none-ne-some (n + p) (sym h))

ends_with-tail :
    (symbol c : ℕ) (cs : Text)
    → 0 < length cs
    → ends_with symbol (c ∷ cs) ≡ true
    → ends_with symbol cs ≡ true
ends_with-tail symbol c [] b h = absurd (omega arith)
ends_with-tail symbol c (d ∷ cs) b h = h

module _ (subst : Subst) where
  -- From `e` on there is no `${`, and the last character is the symbol.
  abbrev pub Trails : Text → ℕ → Type 0
  Trails text e =
      (marker subst (drop e text) ≡ none) × (ends_with subst.symbol (drop e text) ≡ true)

  find_round-Trails :
      (text : Text) (e : ℕ)
      → Trails text e
      → (e' : ℕ) × (find_round subst text e ≡ (some e', false)) × Trails text e'
  unfolding find_round find round_at
  find_round-Trails text e (m, last) = elim (find_from-cases subst e (drop e text)) [
    | inl (f, _) ↦
        let clash : true ≡ false = sym last ∙ find_from-none subst.symbol e (drop e text) f in cc
    | inr (a, r, s, f, m') ↦
        let (there, behind, bound) = found_at subst text e a r s in
        let p : ℕ = e + length a in
        let no_marker : marker subst (subst.symbol ∷ r) ≡ none =
          shift-none (length a) _ (sym m' ∙ m) in
        let last' : ends_with subst.symbol (subst.symbol ∷ r) ≡ true =
          sym (ends_with-append subst.symbol subst.symbol a r)
          ∙ ap (ends_with subst.symbol) (sym s)
          ∙ last in
        elim (Bool-cases (begins_opening subst r)) [
          | inl t ↦ absurd (none-ne-some 0 (sym no_marker ∙ marker-hit subst r t))
          | inr n ↦
              let opens : opens_at subst text p ≡ false =
                opens_at-drop subst p text r behind bound ∙ n in
              elim (Bool-cases (ltb (p + 1) (length text))) [
                | inl t ↦
                    let more : 0 < length r = omega (
                      arith,
                      ltb→lt (p + 1) (length text) t,
                      ap length behind,
                      length-drop (suc p) text,
                    ) in
                    (
                      suc p,
                      rw (f, opens, t) refl,
                      (
                        rw behind (shift-none 1 _ (sym (marker-miss subst r n) ∙ no_marker)),
                        rw behind (ends_with-tail subst.symbol subst.symbol r more last'),
                      ),
                    )
                | inr l ↦ (p, rw (f, opens, l) refl, (rw there no_marker, rw there last'))
              ]
        ]
  ]

  -- When no `${` follows and the last character of the text is the substitution symbol, the search
  -- never ends: no number of rounds is enough.
  pub find_loop-Trails :
      (fuel : ℕ) (text : Text) (e : ℕ) → Trails text e → find_loop subst fuel text (some e) ≡ none
  unfolding find_loop
  find_loop-Trails zero text e h = refl
  find_loop-Trails (suc fuel) text e h =
      let (e', round, h') = find_round-Trails text e h in
      ap after round ∙ find_loop-Trails fuel text e' h'
    where
      after : Option ℕ × Bool → Option (Option ℕ)
      after r = elim r.1 [ true ↦ some r.0 | false ↦ find_loop subst fuel text r.0 ]

  -- At the deepest level, a piece begins with all of the piece before it.
  pub next_full-repeats :
      (r p : ℕ) (text : Text) (st : SubstIterator)
      → ends_with subst.symbol text ≡ false
      → p + 2 ≤ length text
      → suc (length st) ≡ subst.max_states
      → (s : SavedPos) × (more : Text) × (next subst (stands subst r (some p) text ∷ st)
          ≡ some (s ∷ st))
        × (piece subst s ≡ piece subst (stands subst r (some p) text) ++ more)
        × (0 < length more)
  unfolding piece
  next_full-repeats r p text st safe b full =
      elim (Option-cases (marker subst (drop (behind subst text p) text))) [
        | inl m ↦ (
          stands subst r none text,
          drop p text,
          rw m at (next_full subst r p text st safe b full),
          sym (take-append-drop p text),
          omega (arith, length-drop p text),
        )
        | inr (q, m) ↦
            let e : ℕ = behind subst text p + q in
            let (le, lt) = behind-bounds subst text p b in
            (
              stands subst r (some e) text,
              drop p (take e text),
              rw m at (next_full subst r p text st safe b full),
              sym (take-append-drop p (take e text))
                  ∙ ap (λ t. t ++ drop p (take e text)) (take-take p e text (omega arith)),
              omega (arith, length-drop p (take e text), length-take e text),
            )
      ]
