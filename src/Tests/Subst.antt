-- ===== src/Tests/Subst.antt =====
-- The substitutions of tests/core/ranges.cpp, and what happens beyond them.
use braincells.Common.{
  ℕ, ◌+◌, ◌≡◌, refl, none, some, List, [], ◌∷◌, ◌++◌, ◌<◌, Text, same, arith, length,
}
use braincells.Views.Subst.{
  SavedPos, Subst, find_from, find, close_from, get_value_in, get_value, opens_at, round_at,
  find_round, find_loop, find_subst_symbol, make_subst, exit_subst, next, init, piece, pieces_loop,
  pieces,
}
use braincells.Views.Subst.Spec.{expand, parse, expand_with, at_marker, marker}
use braincells.Views.Subst.States.{stands}
use braincells.Views.Subst.Refine.{joined, pieces-total, pieces-expand}
use braincells.Views.Subst.Limits.{next_full-repeats, find_loop-Trails}

abbrev dollar : ℕ
dollar = b'$'

-- "${v}"
abbrev use_v : Text
use_v = dollar ∷ b'{' ∷ b'v' ∷ b'}' ∷ []

abbrev view : ℕ → Text → Subst
view max_states replacement = record {
  symbol = dollar;
  opening = b'{';
  closing = b'}';
  entries = record { what = b'v' ∷ []; replace_with = replacement } ∷ [];
  max_states = max_states;
}

-- "a${v}b${v}" with `v` for "K"
key_replaced :
    pieces (view 5 (b'K' ∷ [])) 9 (b'a' ∷ use_v ++ b'b' ∷ use_v)
    ≡ some ((b'a' ∷ []) ∷ (b'K' ∷ []) ∷ (b'b' ∷ []) ∷ (b'K' ∷ []) ∷ [] ∷ [])
unfolding pieces init next pieces_loop piece find_subst_symbol make_subst exit_subst find_loop
    find_round round_at opens_at find find_from close_from get_value get_value_in same
key_replaced = refl

-- "a$b" stays as it is.
lone_symbol_kept :
    pieces (view 5 []) 9 (b'a' ∷ dollar ∷ b'b' ∷ []) ≡ some ((b'a' ∷ dollar ∷ b'b' ∷ []) ∷ [])
unfolding pieces init next pieces_loop piece find_subst_symbol make_subst exit_subst find_loop
    find_round round_at opens_at find find_from close_from get_value get_value_in same
lone_symbol_kept = refl

-- "a${v}" with "x${v}" for `v`, with two levels: the "x" comes out twice.
circle_runs :
    pieces (view 2 (b'x' ∷ use_v)) 9 (b'a' ∷ use_v)
    ≡ some ((b'a' ∷ []) ∷ (b'x' ∷ []) ∷ (b'x' ∷ use_v) ∷ [] ∷ [])
unfolding pieces init next pieces_loop piece find_subst_symbol make_subst exit_subst find_loop
    find_round round_at opens_at find find_from close_from get_value get_value_in same
circle_runs = refl

abbrev twice : Text
twice = b'a' ∷ use_v ++ use_v

nested_key_expanded : expand (view 5 (b'K' ∷ [])) 4 twice ≡ some (b'a' ∷ b'K' ∷ b'K' ∷ [])
unfolding expand parse expand_with at_marker get_value get_value_in same
nested_key_expanded = refl

pieces-total_example :
    (n : ℕ) × (out : List Text) × ((k : ℕ) → pieces (view 5 use_v) (n + k) twice ≡ some out)
pieces-total_example = pieces-total (view 5 use_v) 4 twice (refl, tt) refl refl

pieces-expand_example :
    (n : ℕ) × (out : List Text) × ((k : ℕ) → pieces (view 5 (b'K' ∷ [])) (n + k) twice ≡ some out)
    × (joined out ≡ b'a' ∷ b'K' ∷ b'K' ∷ [])
pieces-expand_example =
    pieces-expand (view 5 (b'K' ∷ [])) 4 twice (b'a' ∷ b'K' ∷ b'K' ∷ []) (refl, tt) refl refl
      nested_key_expanded

next_full-repeats_example :
    (s : SavedPos) × (more : Text) × (next
        (view 1 [])
        (stands (view 1 []) 0 (some 1) (b'a' ∷ use_v) ∷ [])
      ≡ some (s ∷ []))
    × (piece (view 1 []) s
        ≡ piece (view 1 []) (stands (view 1 []) 0 (some 1) (b'a' ∷ use_v)) ++ more)
    × (0 < length more)
next_full-repeats_example =
    next_full-repeats (view 1 []) 0 1 (b'a' ∷ use_v) [] refl (omega arith) refl

-- "a$"
find_loop-Trails_example : find_loop (view 5 []) 1000 (b'a' ∷ dollar ∷ []) (some 0) ≡ none
unfolding marker at_marker
find_loop-Trails_example = find_loop-Trails (view 5 []) 1000 (b'a' ∷ dollar ∷ []) 0 (refl, refl)
