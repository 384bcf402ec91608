-- ===== src/Tests/ArgParse.antt =====
-- util::parse_args (src/util/arg_parse.hpp) on command lines with the options `n` and `v`.
use braincells.Common.{Text, ℕ, ◌+◌, ◌-◌, ◌*◌, ◌≡◌, refl, true, [], ◌∷◌, Option, none, some}
use braincells.ArgParse.{
  help_text, starts_with, parsed, failed, help, word, integer, optional, boolean, key_value,
  positional, command_var, alternative, no_more, subcommand, arg_by_key, Fields, end, field, flag,
  text, number, cast_integer, arg_cast, parse_fields, parse_commands, parse_args,
}
use braincells.ArgParse.Options.{Taken, arg_by_key_lem}

-- `n`, `v`, `n=5`, `--v`, `a`
abbrev n : Text
n = 110 ∷ []

abbrev v : Text
v = 118 ∷ []

abbrev n_five : Text
n_five = 110 ∷ 61 ∷ 53 ∷ []

abbrev dash_v : Text
dash_v = 45 ∷ 45 ∷ 118 ∷ []

abbrev other : Text
other = 97 ∷ []

-- The value of digits, for `std::from_chars`.
abbrev digits : Text → ℕ → ℕ → Option ℕ
digits [] base sum = some sum
digits (c ∷ cs) base sum = digits cs base (sum * base + (c - 48))

abbrev from_chars : Text → ℕ → Option ℕ
from_chars [] base = none
from_chars (c ∷ cs) base = digits (c ∷ cs) base 0

abbrev from_chars_general : Text → Option ℕ
from_chars_general s = from_chars s 10

abbrev fields : Fields
fields = field (boolean v) (field (key_value n integer) (field (positional (optional word)) end))

parse_fields_in_any_order :
    parse_commands from_chars from_chars_general [] [] fields
      (other ∷ n_five ∷ dash_v ∷ help_text ∷ [])
    ≡ failed help
unfolding parse_commands parse_fields
parse_fields_in_any_order = refl

parse_all :
    parse_args from_chars from_chars_general true fields (other ∷ other ∷ n_five ∷ dash_v ∷ v ∷ [])
    ≡ parsed (flag true ∷ number 5 ∷ text other ∷ []) (v ∷ [])
unfolding parse_args parse_commands parse_fields
parse_all = refl

-- A number that is written `0` is refused: its first character is dropped as the mark of an octal number.
zero_refused : arg_cast from_chars from_chars_general integer (some (48 ∷ [])) ≡ none
unfolding arg_cast cast_integer starts_with
zero_refused = refl

-- `a` is the name of two subcommands: the second parses what the first left, and stays.
same_name_twice :
    parse_commands from_chars from_chars_general [] []
      (field
        (command_var true (
          alternative other
            (field (boolean v) end)
            (alternative other (field (positional (optional word)) end) no_more)))
        end)
      (other ∷ n ∷ dash_v ∷ v ∷ [])
    ≡ parsed (subcommand other ∷ text n ∷ []) (v ∷ [])
unfolding parse_commands parse_fields
same_name_twice = refl

arg_by_key_lem_example :
    Taken n (other ∷ n_five ∷ dash_v ∷ []) (parsed (some (53 ∷ [])) (other ∷ dash_v ∷ []))
unfolding arg_by_key
arg_by_key_lem_example = arg_by_key_lem n (other ∷ n_five ∷ dash_v ∷ [])
