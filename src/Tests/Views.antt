-- ===== src/Tests/Views.antt =====
-- The views of src/core/ranges on small lists.
use braincells.Common.{ℕ, ◌≡◌, refl, Bool, List, [], ◌∷◌, ◌==◌}
use braincells.Views.Split.{
  split, split_if, skip_empty, allow_empty, has_delim, init, next, next_loop, next_round,
  pieces_loop, piece, skip_delims, until_delim,
}
use braincells.Views.Split.Spec.{non_empty, drop_last_empty, fields}
use braincells.Views.Split.Refine.{split-skip_empty, split-allow_empty}
use braincells.Views.Trim.{trim_if, trim_front, trim_back}
use braincells.Views.Trim.Laws.{IsTrimmed, trim_if-IsTrimmed}

abbrev is_comma : ℕ → Bool
is_comma c = c == b','

abbrev eq : ℕ → ℕ → Bool
eq a b = a == b

-- ",,a,b,"
abbrev line : List ℕ
line = b',' ∷ b',' ∷ b'a' ∷ b',' ∷ b'b' ∷ b',' ∷ []

split_skips : split_if is_comma skip_empty line ≡ (b'a' ∷ []) ∷ (b'b' ∷ []) ∷ []
unfolding split_if pieces_loop init next next_loop next_round piece skip_delims until_delim
split_skips = refl

-- The empty field behind the last comma is not visited.
split_keeps : split_if is_comma allow_empty line ≡ [] ∷ [] ∷ (b'a' ∷ []) ∷ (b'b' ∷ []) ∷ []
unfolding split_if pieces_loop init next next_loop next_round piece skip_delims until_delim
split_keeps = refl

trim_runs : trim_if is_comma line ≡ b'a' ∷ b',' ∷ b'b' ∷ []
unfolding trim_if trim_front trim_back
trim_runs = refl

split-skip_empty_example :
    split eq skip_empty (b',' ∷ []) line ≡ non_empty (fields (has_delim eq (b',' ∷ [])) line)
split-skip_empty_example = split-skip_empty eq (b',' ∷ []) line

split-allow_empty_example :
    split eq allow_empty (b',' ∷ []) line ≡ drop_last_empty (fields (has_delim eq (b',' ∷ [])) line)
split-allow_empty_example = split-allow_empty eq (b',' ∷ []) line

trim_if-IsTrimmed_example : IsTrimmed is_comma line (trim_if is_comma line)
trim_if-IsTrimmed_example = trim_if-IsTrimmed is_comma line
