-- ===== src/Views/Subst/Refine.antt =====
-- The iterator of src/core/ranges/subst.hpp visits the expansion of the text.
use braincells.Common.{
  ℕ, zero, suc, ◌+◌, ◌-◌, ◌≤◌, ◌<◌, ◌≡◌, refl, sym, ap, ap₂, append-nil, ◌∙◌, inl, inr, false,
  Option, none, some, List, [], ◌∷◌, ◌++◌, length, drop, take, ◌>>=◌, Text, arith, append_assoc,
  Option-cases, length-drop,
}
use mathlib.Core.Path
use mathlib.Core.Option.{none-ne-some, some-injective}
use braincells.Views.Subst.{
  Subst, SavedPos, SubstIterator, close_from, get_value, find_subst_symbol, exit_subst, next, init,
  piece, pieces_loop, pieces,
}
use braincells.Views.Subst.Spec.{shift, marker, ends_with, NoneEndsWith, expand}
use braincells.Views.Subst.Search.{ends_with-drop, shift_zero}
use braincells.Views.Subst.States.{
  stands, fresh, left, find_subst_symbol-fresh, next_exit, behind, behind-bounds, next_full,
  next_push, left-below, get_value-safe,
}
use braincells.Views.Subst.Expansion.{
  key_at, rest_at, length-rest_at, expand-none, expand-some_zero, expand-some, marker-le,
}

abbrev pub joined : List Text → Text
joined [] = []
joined (t ∷ ts) = t ++ joined ts

joined-append : (a b : List Text) → joined (a ++ b) ≡ joined a ++ joined b
joined-append [] b = refl
joined-append (t ∷ a) b = ap (λ x. t ++ x) (joined-append a b) ∙ sym (append_assoc t _ _)

module _ (subst : Subst) where
  -- With enough fuel the loop visits `out` from `it` on, and then goes on with the iterator `o`, if there is one.
  abbrev Goes : SubstIterator → ℕ → List Text → Option SubstIterator → Type 0
  Goes it n out o =
      (k : ℕ)
      → pieces_loop subst (n + k) it
        ≡ (o >>= λ it'. pieces_loop subst k it' >>= λ rest. some (out ++ rest))

  step-Goes :
      (s : SavedPos) (st : SubstIterator)
      → Goes (s ∷ st) 1 (piece subst s ∷ []) (next subst (s ∷ st))
  unfolding pieces_loop
  step-Goes s st k =
      ap (λ (n : ℕ). pieces_loop subst n (s ∷ st)) {x = 1 + k} {y = suc k} (omega arith)

  next-Goes :
      (s : SavedPos) (st it : SubstIterator)
      → next subst (s ∷ st) ≡ some it
      → Goes (s ∷ st) 1 (piece subst s ∷ []) (some it)
  next-Goes s st it h = Path.subst (Goes (s ∷ st) 1 (piece subst s ∷ [])) h (step-Goes s st)

  append-Goes :
      (it it' : SubstIterator) (m n : ℕ) (a b : List Text) (o : Option SubstIterator)
      → Goes it m a (some it')
      → Goes it' n b o
      → Goes it (m + n) (a ++ b) o
  append-Goes it it' m n a b o f g k =
      ap (λ (i : ℕ). pieces_loop subst i it) {x = m + n + k} {y = m + (n + k)} (omega arith)
      ∙ f (n + k)
      ∙ ap (λ x. x >>= λ rest. some (a ++ rest)) (g k)
      ∙ assoc o
    where
      inner :
          (x : Option (List Text))
          → ((x >>= λ rest. some (b ++ rest)) >>= λ rest. some (a ++ rest))
            ≡ (x >>= λ rest. some ((a ++ b) ++ rest))
      inner none = refl
      inner (some rest) = ap some (sym (append_assoc a b rest))

      assoc :
          (o : Option SubstIterator)
          → ((o >>= λ it''. pieces_loop subst k it'' >>= λ rest. some (b ++ rest)) >>= λ rest.
              some (a ++ rest))
            ≡ (o >>= λ it''. pieces_loop subst k it'' >>= λ rest. some ((a ++ b) ++ rest))
      assoc none = refl
      assoc (some it'') = inner (pieces_loop subst k it'')

  -- How the iterator leaves a text: after `n` pieces, `out`.
  abbrev Leaves : ℕ → SavedPos → SubstIterator → Type 0
  Leaves depth s st =
      (n : ℕ) × (out : List Text) × Goes (s ∷ st) n out (left subst s.restore_pos st)
      × ((ys : Text) → expand subst depth s.text ≡ some ys → joined out ≡ ys)

  -- At the deepest level, where nothing is pushed.
  full-Goes :
      (fuel r e : ℕ) (text : Text) (st : SubstIterator)
      → ends_with subst.symbol text ≡ false
      → e ≤ length text
      → length text - e < fuel
      → suc (length st) ≡ subst.max_states
      → (n : ℕ) × (out : List Text) × Goes
          (stands subst r (shift e (marker subst (drop e text))) text ∷ st)
          n
          out
          (left subst r st)
  unfolding piece
  full-Goes zero r e text st safe b h full = absurd (omega arith)
  full-Goes (suc fuel) r e text st safe b h full =
      elim (Option-cases (marker subst (drop e text))) [
        | inl m ↦ (
          1,
          text ∷ [],
          rw (m, ← next_exit subst r text st) (step-Goes (stands subst r none text) st),
        )
        | inr (q, m) ↦
            let p : ℕ = e + q in
            let inside : p + 2 ≤ length text =
              omega (arith, marker-le subst (drop e text) q m, length-drop e text) in
            let (b', lt) = behind-bounds subst text p inside in
            let e' : ℕ = behind subst text p in
            let (n, out, goes) = full-Goes fuel r e' text st safe b' (omega arith) full in
            (
              1 + n,
              take p text ∷ out,
              rw m (
                  append-Goes _ (place e') 1 n (take p text ∷ []) out _
                    (next-Goes _ st (place e') (next_full subst r p text st safe inside full))
                    goes),
            )
      ]
    where
      place : ℕ → SubstIterator
      place i = stands subst r (shift i (marker subst (drop i text))) text ∷ st

  plain-Leaves :
      (depth r : ℕ) (text : Text) (st : SubstIterator)
      → marker subst text ≡ none
      → Leaves depth (fresh subst r text) st
  unfolding piece
  plain-Leaves depth r text st m = (
    1,
    text ∷ [],
    rw (m, ← next_exit subst r text st) (step-Goes (stands subst r none text) st),
    λ ys e. append-nil text ∙ some-injective text ys (sym (expand-none subst depth text m) ∙ e),
  )

  -- However deep the texts are nested, the iterator leaves one that it has entered.
  fresh-Leaves :
      (depth fuel r : ℕ) (text : Text) (st : SubstIterator)
      → NoneEndsWith subst.symbol subst.entries
      → ends_with subst.symbol text ≡ false
      → length text < fuel
      → suc (length st) + depth ≡ subst.max_states
      → Leaves depth (fresh subst r text) st
  unfolding piece exit_subst
  fresh-Leaves depth zero r text st hs safe h d = absurd (omega arith)
  fresh-Leaves zero (suc fuel) r text st hs safe h d = elim (Option-cases (marker subst text)) [
    | inl m ↦ plain-Leaves zero r text st m
    | inr (p, m) ↦
        let (n, out, goes) =
          full-Goes (suc (length text)) r 0 text st safe (omega arith) (omega arith)
            (omega arith) in
        (
          n,
          out,
          Path.subst (λ e. Goes (stands subst r e text ∷ st) n out (left subst r st))
              (shift_zero (marker subst text)) goes,
          λ ys e. absurd (none-ne-some ys (sym (expand-some_zero subst text p m) ∙ e)),
        )
  ]
  fresh-Leaves (suc depth) (suc fuel) r text st hs safe h d =
      elim (Option-cases (marker subst text)) [
        | inl m ↦ plain-Leaves (suc depth) r text st m
        | inr (p, m) ↦
            let value : Text = get_value subst (key_at subst text p) in
            let rest : Text = rest_at subst text p in
            let value_safe = get_value-safe subst (key_at subst text p) hs in
            let rest_safe : ends_with subst.symbol rest ≡ false =
              ends_with-drop subst.symbol
                (suc (close_from subst.closing (p + 2) (drop (p + 2) text))) text safe in
            let below : SubstIterator = stands subst r (some (behind subst text p)) text ∷ st in
            let room : suc (length st) < subst.max_states = omega arith in
            let (n₁, out₁, goes₁, means₁) =
              fresh-Leaves depth (suc (length value)) (behind subst text p) value below hs
                value_safe (omega arith) (omega arith) in
            let (n₂, out₂, goes₂, means₂) =
              fresh-Leaves (suc depth) fuel r rest st hs rest_safe
                (omega (arith, length-rest_at subst text p m)) d in
            let through =
              append-Goes (fresh subst (behind subst text p) value ∷ below)
                (fresh subst r rest ∷ st) n₁ n₂ out₁ out₂ (left subst r st)
                (Path.subst (Goes (fresh subst (behind subst text p) value ∷ below) n₁ out₁)
                  (left-below subst r p text st rest_safe) goes₁)
                goes₂ in
            (
              1 + (n₁ + n₂),
              take p text ∷ (out₁ ++ out₂),
              rw m (
                  append-Goes _ _ 1 (n₁ + n₂) (take p text ∷ []) (out₁ ++ out₂) _
                    (next-Goes _ st _ (next_push subst r p text st value_safe room)) through),
              λ ys e.
                  let (v, w, ev, ew, o) = expand-some subst depth text p ys m e in
                  ap (λ t. take p text ++ t)
                    (joined-append out₁ out₂ ∙ ap₂ (λ a b. a ++ b) (means₁ v ev) (means₂ w ew))
                  ∙ sym o,
            )
      ]

  pieces-Leaves :
      (depth : ℕ) (input : Text)
      → NoneEndsWith subst.symbol subst.entries
      → ends_with subst.symbol input ≡ false
      → suc depth ≡ subst.max_states
      → (n : ℕ) × (out : List Text) × ((k : ℕ) → pieces subst (n + k) input ≡ some out)
        × ((ys : Text) → expand subst depth input ≡ some ys → joined out ≡ ys)
  unfolding pieces init exit_subst find_subst_symbol pieces_loop
  pieces-Leaves depth input hs safe room =
      let (n, out, goes, means) =
        fresh-Leaves depth (suc (length input)) 0 input [] hs safe (omega arith) (omega arith) in
      (
        n,
        out,
        λ k.
            ap (λ o. o >>= pieces_loop subst (n + k))
              (find_subst_symbol-fresh subst 0 input [] safe)
            ∙ goes k
            ∙ ap (λ o. o >>= λ rest. some (out ++ rest)) (pieces_loop_end k)
            ∙ ap some (append-nil out),
        means,
      )
    where
      pieces_loop_end : (k : ℕ) → pieces_loop subst k [] ≡ some []
      pieces_loop_end zero = refl
      pieces_loop_end (suc k) = refl

  -- When neither the text nor a replacement ends with the substitution symbol, the loop over the
  -- view comes to its end, also if the replacements refer to each other in a circle.
  pub pieces-total :
      (depth : ℕ) (input : Text)
      → NoneEndsWith subst.symbol subst.entries
      → ends_with subst.symbol input ≡ false
      → suc depth ≡ subst.max_states
      → (n : ℕ) × (out : List Text) × ((k : ℕ) → pieces subst (n + k) input ≡ some out)
  pieces-total depth input hs safe room =
      let (n, out, visits, _) = pieces-Leaves depth input hs safe room in (n, out, visits)

  -- When neither the text nor a replacement ends with the substitution symbol and the replacements
  -- are not nested deeper than the stack allows, the pieces that the loop visits are together the
  -- text with each `${key}` replaced by the expansion of its replacement.
  pub pieces-expand :
      (depth : ℕ) (input ys : Text)
      → NoneEndsWith subst.symbol subst.entries
      → ends_with subst.symbol input ≡ false
      → suc depth ≡ subst.max_states
      → expand subst depth input ≡ some ys
      → (n : ℕ) × (out : List Text) × ((k : ℕ) → pieces subst (n + k) input ≡ some out)
        × (joined out ≡ ys)
  pieces-expand depth input ys hs safe room e =
      let (n, out, visits, means) = pieces-Leaves depth input hs safe room in
      (n, out, visits, means ys e)
