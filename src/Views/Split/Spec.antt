-- ===== src/Views/Split/Spec.antt =====
-- What splitting means, by recursion on the list.
use braincells.Common.{Bool, List, [], ◌∷◌, if◌then◌else◌}

module _ {ℓ} {A : Type ℓ} where
  abbrev pub cons_head : A → List (List A) → List (List A)
  cons_head x [] = (x ∷ []) ∷ []
  cons_head x (f ∷ fs) = (x ∷ f) ∷ fs

  abbrev pub non_empty : List (List A) → List (List A)
  non_empty [] = []
  non_empty ([] ∷ fs) = non_empty fs
  non_empty ((x ∷ f) ∷ fs) = (x ∷ f) ∷ non_empty fs

  abbrev pub unless_empty : List A → List (List A)
  unless_empty [] = []
  unless_empty (x ∷ f) = (x ∷ f) ∷ []

  -- Without the last field, if that is empty.
  abbrev pub drop_last_empty : List (List A) → List (List A)
  drop_last_empty [] = []
  drop_last_empty (f ∷ []) = unless_empty f
  drop_last_empty (f ∷ g ∷ fs) = f ∷ drop_last_empty (g ∷ fs)

module _ {ℓ} {A : Type ℓ} (op : A → Bool) where
  -- The fields between the delimiters, one more than there are delimiters.
  unfoldable pub fields : List A → List (List A)
  fields [] = [] ∷ []
  fields (x ∷ xs) = let rest = fields xs in if op x then [] ∷ rest else cons_head x rest

  -- The part before the first delimiter.
  unfoldable pub before : List A → List A
  before [] = []
  before (x ∷ xs) = let rest = before xs in if op x then [] else x ∷ rest
