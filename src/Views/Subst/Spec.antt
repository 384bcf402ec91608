-- ===== src/Views/Subst/Spec.antt =====
-- What the substitution means: the text is read once into letters and keys.
use braincells.Common.{
  ℕ, zero, suc, ◌+◌, Bool, false, ◌&&◌, Option, none, some, List, [], ◌∷◌, ◌++◌, ◌==◌, ◌>>=◌, ◌≡◌,
  if◌then◌else◌, Text,
}
use braincells.Views.Subst.{Subst, SubstEntry, get_value}

pub data Segment : Type 0 where
  letter : ℕ → Segment
  key : Text → Segment

-- In plain text, at the second symbol of `${`, or in a key of which a part is read.
pub data Mode : Type 0 where
  plain at_opening : Mode
  in_key : Text → Mode

-- Too deep a substitution has no expansion.
abbrev pub too_deep : Text → Option Text
too_deep text = none

abbrev pub shift : ℕ → Option ℕ → Option ℕ
shift n none = none
shift n (some p) = some (n + p)

unfoldable pub expand_with : (Text → Option Text) → List Segment → Option Text
expand_with below [] = some []
expand_with below (letter c ∷ segments) = expand_with below segments >>= λ rest. some (c ∷ rest)
expand_with below (key value ∷ segments) = do
  v ← below value
  rest ← expand_with below segments
  some (v ++ rest)

abbrev pub ends_with : ℕ → Text → Bool
ends_with symbol [] = false
ends_with symbol (c ∷ []) = c == symbol
ends_with symbol (c ∷ d ∷ cs) = ends_with symbol (d ∷ cs)

abbrev pub NoneEndsWith : ℕ → List SubstEntry → Type 0
NoneEndsWith symbol [] = Unit
NoneEndsWith symbol (entry ∷ entries) =
    (ends_with symbol entry.replace_with ≡ false) × NoneEndsWith symbol entries

module _ (subst : Subst) where
  abbrev pub begins_opening : Text → Bool
  begins_opening [] = false
  begins_opening (c ∷ cs) = c == subst.opening

  unfoldable pub at_marker : ℕ → Text → Bool
  at_marker c cs = (c == subst.symbol) && begins_opening cs

  unfoldable pub parse : Mode → Text → List Segment
  unfolding at_marker
  parse plain [] = []
  parse plain (c ∷ cs) =
      let rest = parse (if at_marker c cs then at_opening else plain) cs in
      if at_marker c cs then rest else letter c ∷ rest
  parse at_opening [] = []
  parse at_opening (c ∷ cs) = parse (in_key []) cs
  parse (in_key k) [] = key (get_value subst k) ∷ []
  parse (in_key k) (c ∷ cs) =
      let rest = parse (if c == subst.closing then plain else in_key (k ++ c ∷ [])) cs in
      if c == subst.closing then key (get_value subst k) ∷ rest else rest

  -- Each key replaced by its text, itself expanded, to a depth.
  unfoldable pub expand : ℕ → Text → Option Text
  unfolding parse expand_with
  expand zero text = expand_with too_deep (parse plain text)
  expand (suc depth) text = expand_with (expand depth) (parse plain text)

  -- The place of the first `${`.
  unfoldable pub marker : Text → Option ℕ
  unfolding at_marker
  marker [] = none
  marker (c ∷ cs) = let later = shift 1 (marker cs) in if at_marker c cs then some 0 else later
