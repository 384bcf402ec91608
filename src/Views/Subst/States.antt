-- ===== src/Views/Subst/States.antt =====
-- What the operations of src/core/ranges/subst.hpp's iterator make of its stack.
use braincells.Common.{
  drop_all, ℕ, suc, ◌+◌, ◌≤◌, ◌<◌, ◌≡◌, refl, sym, ap, ◌∙◌, inl, inr, false, Option, none, some,
  List, [], ◌∷◌, length, drop, if◌then◌else◌, ◌==◌, ◌>>=◌, Text, same, arith, Bool-cases,
  length-drop, ltb, ltb→le, ==_iff,
}
use braincells.Views.Subst.{
  Subst, SubstEntry, SavedPos, SubstIterator, close_from, get_value, get_value_in,
  find_subst_symbol, make_subst, exit_subst, next,
}
use braincells.Views.Subst.Spec.{shift, marker, ends_with, NoneEndsWith}
use braincells.Views.Subst.Search.{find_loop_lem, shift_zero}
use braincells.Views.Subst.Expansion.{key_at, rest_at, close_from-ge, close_from-le}

module _ (subst : Subst) where
  abbrev pub stands : ℕ → Option ℕ → Text → SavedPos
  stands r e text = record { restore_pos = r; end = e; text = text }

  -- The state of a text that was entered just now.
  abbrev pub fresh : ℕ → Text → SavedPos
  fresh r text = stands r (marker subst text) text

  pub find_subst_symbol_lem :
      (r e : ℕ) (text : Text) (st : SubstIterator)
      → ends_with subst.symbol text ≡ false
      → e ≤ length text
      → find_subst_symbol subst (stands r (some e) text ∷ st)
        ≡ some (stands r (shift e (marker subst (drop e text))) text ∷ st)
  unfolding find_subst_symbol
  find_subst_symbol_lem r e text st safe b =
      ap (λ o. o >>= λ e'. some (stands r e' text ∷ st))
        (find_loop_lem subst (suc (length text)) text e safe b (omega arith))

  pub find_subst_symbol-fresh :
      (r : ℕ) (text : Text) (st : SubstIterator)
      → ends_with subst.symbol text ≡ false
      → find_subst_symbol subst (stands r (some 0) text ∷ st) ≡ some (fresh r text ∷ st)
  find_subst_symbol-fresh r text st safe =
      find_subst_symbol_lem r 0 text st safe (omega arith)
      ∙ ap (λ e. some (stands r e text ∷ st)) (shift_zero _)

  -- Where the iterator is once it has left a text that was entered at `r` of the text below.
  abbrev pub left : ℕ → SubstIterator → Option SubstIterator
  left r st = find_subst_symbol subst (exit_subst subst (stands r none [] ∷ st))

  pub next_exit :
      (r : ℕ) (text : Text) (st : SubstIterator) → next subst (stands r none text ∷ st) ≡ left r st
  unfolding next exit_subst
  next_exit r text [] = refl
  next_exit r text (s ∷ st) = refl

  -- Where a text goes on behind the key that is opened at `p`.
  abbrev pub behind : Text → ℕ → ℕ
  behind text p =
      let end = close_from subst.closing (p + 2) (drop (p + 2) text) in
      if ltb end (length text) then suc end else end

  pub drop-behind : (text : Text) (p : ℕ) → drop (behind text p) text ≡ rest_at subst text p
  drop-behind text p =
      let end : ℕ = close_from subst.closing (p + 2) (drop (p + 2) text) in
      elim (Bool-cases (ltb end (length text))) [
        | inl t ↦ rw t refl
        | inr f ↦
            let far : length text ≤ end = ltb→le end (length text) f in
            rw f (drop_all end text far ∙ sym (drop_all (suc end) text (omega arith)))
      ]

  pub behind-bounds :
      (text : Text) (p : ℕ)
      → p + 2 ≤ length text
      → (behind text p ≤ length text) × (p < behind text p)
  behind-bounds text p h = ground (
    arith,
    close_from-le subst.closing (p + 2) (drop (p + 2) text),
    close_from-ge subst.closing (p + 2) (drop (p + 2) text),
    length-drop (p + 2) text,
  )

  pub make_subst-full :
      (r p : ℕ) (text : Text) (st : SubstIterator)
      → suc (length st) ≡ subst.max_states
      → make_subst subst (stands r (some p) text ∷ st) ≡ stands r (some (behind text p)) text ∷ st
  unfolding make_subst
  make_subst-full r p text st h = rw ((==_iff _ _).1 h) refl

  pub make_subst-push :
      (r p : ℕ) (text : Text) (st : SubstIterator)
      → suc (length st) < subst.max_states
      → make_subst subst (stands r (some p) text ∷ st)
        ≡ stands (behind text p) (some 0) (get_value subst (key_at subst text p))
          ∷ stands r (some (behind text p)) text
          ∷ st
  unfolding make_subst
  make_subst-push r p text st h =
      let other : (suc (length st) == subst.max_states) ≡ false = ground arith in rw other refl

  pub next_full :
      (r p : ℕ) (text : Text) (st : SubstIterator)
      → ends_with subst.symbol text ≡ false
      → p + 2 ≤ length text
      → suc (length st) ≡ subst.max_states
      → next subst (stands r (some p) text ∷ st)
        ≡ some
            (stands r (shift (behind text p) (marker subst (drop (behind text p) text))) text ∷ st)
  unfolding next
  next_full r p text st safe b full =
      ap (find_subst_symbol subst) (make_subst-full r p text st full)
      ∙ find_subst_symbol_lem r (behind text p) text st safe (behind-bounds text p b).0

  pub next_push :
      (r p : ℕ) (text : Text) (st : SubstIterator)
      → ends_with subst.symbol (get_value subst (key_at subst text p)) ≡ false
      → suc (length st) < subst.max_states
      → next subst (stands r (some p) text ∷ st)
        ≡ some (
            fresh (behind text p) (get_value subst (key_at subst text p))
            ∷ stands r (some (behind text p)) text
            ∷ st)
  unfolding next
  next_push r p text st safe room =
      ap (find_subst_symbol subst) (make_subst-push r p text st room)
      ∙ find_subst_symbol-fresh (behind text p) _ (stands r (some (behind text p)) text ∷ st) safe

  -- The text below goes on behind the key.
  pub left-below :
      (r p : ℕ) (text : Text) (st : SubstIterator)
      → ends_with subst.symbol (rest_at subst text p) ≡ false
      → left (behind text p) (stands r (some (behind text p)) text ∷ st)
        ≡ some (fresh r (rest_at subst text p) ∷ st)
  unfolding exit_subst
  left-below r p text st safe =
      ap (λ t. find_subst_symbol subst (stands r (some 0) t ∷ st)) (drop-behind text p)
      ∙ find_subst_symbol-fresh r (rest_at subst text p) st safe

  entries-safe :
      (entries : List SubstEntry) (k : Text)
      → NoneEndsWith subst.symbol entries
      → ends_with subst.symbol (get_value_in entries k) ≡ false
  unfolding get_value_in
  entries-safe [] k h = refl
  entries-safe (entry ∷ entries) k (h, hs) = elim (Bool-cases (same entry.what k)) [
    | inl t ↦ rw t h
    | inr n ↦ rw n (entries-safe entries k hs)
  ]

  pub get_value-safe :
      (k : Text)
      → NoneEndsWith subst.symbol subst.entries
      → ends_with subst.symbol (get_value subst k) ≡ false
  unfolding get_value
  get_value-safe k h = entries-safe subst.entries k h
