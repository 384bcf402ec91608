-- ===== src/ArgParse.antt =====
-- util::parse_args of src/util/arg_parse.hpp: the command line is a list of texts, from which each field of
-- a command takes what it names.

pub mod Options
use braincells.Common.{
  ℕ, ◌+◌, Bool, true, false, ◌&&◌, List, [], ◌∷◌, ◌++◌, Option, none, some, length, drop, take,
  if◌then◌else◌, ◌==◌, Text, same,
}

-- `--help`
abbrev pub help_text : Text
help_text = 45 ∷ 45 ∷ 104 ∷ 101 ∷ 108 ∷ 112 ∷ []

-- `name=` and `--name`
abbrev pub key_text : Text → Text
key_text name = name ++ 61 ∷ []

abbrev pub option_text : Text → Text
option_text name = 45 ∷ 45 ∷ name

unfoldable pub starts_with : Text → Text → Bool
starts_with s [] = true
starts_with [] (p ∷ ps) = false
starts_with (a ∷ s) (p ∷ ps) = (a == p) && starts_with s ps

-- How parsing stops early: an exception, or the access to an empty `opt`, which nothing checks.
pub data Failure : Type 0 where
  missing_arg : Failure
  help : Failure
  no_value : Failure

-- A value with the arguments that are left.
pub data Parsed (A : Type 0) : Type 0 where
  parsed : A → List Text → Parsed A
  failed : Failure → Parsed A

unfoldable pub keep : {A : Type 0} → Text → Parsed A → Parsed A
keep a (parsed v rest) = parsed v (a ∷ rest)
keep a (failed e) = failed e

unfoldable pub value_behind : List Text → Parsed (Option Text)
value_behind [] = failed missing_arg
value_behind (v ∷ args) = parsed (some v) args

unfoldable pub arg_by_key : Text → List Text → Parsed (Option Text)
unfolding starts_with same keep value_behind
arg_by_key name [] = parsed none []
arg_by_key name (a ∷ args) =
    let further = arg_by_key name args in
    if starts_with a (key_text name)
    then parsed (some (drop (length (key_text name)) a)) args
    else if same a (option_text name)
    then value_behind args
    else keep a further

unfoldable pub arg_next : List Text → Option Text × List Text
arg_next [] = (none, [])
arg_next (a ∷ args) = (some a, args)

unfoldable pub arg_bool : Text → List Text → Bool × List Text
unfolding same
arg_bool name [] = (false, [])
arg_bool name (a ∷ args) =
    let (found, rest) = arg_bool name args in
    if same a (option_text name) then (true, args) else (found, a ∷ rest)

-- The search of `string_to_enum` (src/core/enum_introspect.hpp) from a value on; the list has the name of each
-- value, `none` for a number that is no enumerator.
unfoldable pub enum_from : ℕ → List (Option Text) → Text → Option ℕ
unfolding same
enum_from i [] s = none
enum_from i (none ∷ names) s = enum_from (i + 1) names s
enum_from i (some name ∷ names) s =
    let later = enum_from (i + 1) names s in if same name s then some i else later

-- `none` throws; the values from 16 on are not tried.
unfoldable pub string_to_enum : List (Option Text) → Text → Option ℕ
unfolding enum_from
string_to_enum names s = enum_from 0 (take 16 names) s

-- The types that an argument is cast to; an enumeration by the names of its values.
pub data Kind : Type 0 where
  word : Kind
  floating : Kind
  integer : Kind
  enumeration : List (Option Text) → Kind
  optional : Kind → Kind

-- The types of a command's fields.
mutual
  pub data Field : Type 0 where
    boolean : Text → Field
    key_value : Text → Kind → Field
    positional : Kind → Field
    positionals : Field
    command : Fields → Field
    command_var : Bool → Commands → Field
    exec_path : Field
    cmdline : Field

  pub data Fields : Type 0 where
    end : Fields
    field : Field → Fields → Fields

  pub data Commands : Type 0 where
    no_more : Commands
    alternative : Text → Fields → Commands → Commands

unfoldable pub is_optional : Kind → Bool
is_optional word = false
is_optional floating = false
is_optional integer = false
is_optional (enumeration names) = false
is_optional (optional k) = true

-- What a field holds afterwards; those of a subcommand stand behind its name.
pub data Value (Number : Type 0) : Type 0 where
  flag : Bool → Value Number
  text : Text → Value Number
  number : Number → Value Number
  enumerator : ℕ → Value Number
  nothing : Value Number
  texts : List Text → Value Number
  null : Value Number
  subcommand : Text → Value Number

unfoldable pub is_help : List Text → Bool
unfolding same
is_help [] = false
is_help (a ∷ args) = same a help_text

module _ {Number : Type 0} where
  -- What `parse_commands` adds up: the values of the fields in their order.
  unfoldable pub and_then :
      Parsed (List (Value Number))
      → (List Text → Parsed (List (Value Number)))
      → Parsed (List (Value Number))
  and_then (failed e) next = failed e
  and_then (parsed vs rest) next = elim (next rest) [
    | parsed ws rest' ↦ parsed (vs ++ ws) rest'
    | failed e ↦ failed e
  ]

  unfoldable pub unless_help : Parsed (List (Value Number)) → Parsed (List (Value Number))
  unfolding is_help
  unless_help (failed e) = failed e
  unless_help (parsed vs rest) = if is_help rest then failed help else parsed vs rest

  -- The checks for `--help` before and behind a command's fields.
  unfoldable pub with_help :
      (List Text → Parsed (List (Value Number))) → List Text → Parsed (List (Value Number))
  unfolding is_help unless_help
  with_help fields args = if is_help args then failed help else unless_help (fields args)

  -- What `parse_commands_var` makes of the alternatives; without one the argument goes back.
  unfoldable pub chosen_var :
      Bool → Text → Parsed (Option (List (Value Number))) → Parsed (List (Value Number))
  chosen_var nullable a (failed e) = failed e
  chosen_var nullable a (parsed (some vs) rest) = parsed vs rest
  chosen_var nullable a (parsed none rest) =
      if nullable then parsed (null ∷ []) (a ∷ rest) else failed missing_arg

-- `std::from_chars` into the number's type, in a base or in the general format; `none` is an error code.
module _ {Number : Type 0} (from_chars : Text → ℕ → Option Number)
    (from_chars_general : Text → Option Number) where
  unfoldable pub cast_integer : Text → Option Number
  unfolding starts_with
  cast_integer value =
      if starts_with value (48 ∷ 120 ∷ [])
      then from_chars (drop 2 value) 16
      else if starts_with value (48 ∷ 98 ∷ [])
      then from_chars (drop 2 value) 2
      else if starts_with value (48 ∷ [])
      then from_chars (drop 1 value) 8
      else from_chars value 10

  -- `none` is a `missing_arg_error`.
  unfoldable pub arg_cast : Kind → Option Text → Option (Value Number)
  unfolding cast_integer string_to_enum
  arg_cast word (some value) = some (text value)
  arg_cast word none = none
  arg_cast floating (some value) = elim (from_chars_general value) [
    | some n ↦ some (number n)
    | none ↦ none
  ]
  arg_cast floating none = none
  arg_cast integer (some value) = elim (cast_integer value) [
    | some n ↦ some (number n)
    | none ↦ none
  ]
  arg_cast integer none = none
  arg_cast (enumeration names) (some value) = elim (string_to_enum names value) [
    | some i ↦ some (enumerator i)
    | none ↦ none
  ]
  arg_cast (enumeration names) none = none
  arg_cast (optional k) (some value) = arg_cast k (some value)
  arg_cast (optional k) none = some nothing

  unfoldable pub cast_field : Kind → Option Text → List Text → Parsed (List (Value Number))
  unfolding arg_cast
  cast_field k value rest = elim (arg_cast k value) [
    | some v ↦ parsed (v ∷ []) rest
    | none ↦ failed missing_arg
  ]

  unfoldable pub keyed_field : Kind → Parsed (Option Text) → Parsed (List (Value Number))
  unfolding is_optional cast_field
  keyed_field k (failed e) = failed e
  keyed_field k (parsed none rest) =
      if is_optional k then parsed (nothing ∷ []) rest else failed missing_arg
  keyed_field k (parsed (some v) rest) = cast_field k (some v) rest

  module _ (path : Text) (line : List Text) where
    unfoldable mutual
      unfolding arg_bool arg_by_key arg_next keyed_field cast_field with_help and_then same
          chosen_var

      pub parse_field : Field → List Text → Parsed (List (Value Number))
      parse_field (boolean name) args =
          let (found, rest) = arg_bool name args in parsed (flag found ∷ []) rest
      parse_field (key_value name k) args = keyed_field k (arg_by_key name args)
      parse_field (positional k) args = let (arg, rest) = arg_next args in cast_field k arg rest
      parse_field positionals args = parsed (texts args ∷ []) []
      parse_field (command c) args = with_help (λ rest. parse_fields c rest) args
      parse_field (command_var nullable cs) [] =
          if nullable then parsed (null ∷ []) [] else failed no_value
      parse_field (command_var nullable cs) (a ∷ args) =
          chosen_var nullable a (parse_alternatives cs a none args)
      parse_field exec_path args = parsed (text path ∷ []) args
      parse_field cmdline args = parsed (texts line ∷ []) args

      pub parse_fields : Fields → List Text → Parsed (List (Value Number))
      parse_fields end args = parsed [] args
      parse_fields (field f fs) args = and_then (parse_field f args) (λ rest. parse_fields fs rest)

      -- Each alternative of the name parses what the one before it left, and the last result stays.
      pub parse_alternatives :
          Commands
          → Text
          → Option (List (Value Number))
          → List Text
          → Parsed (Option (List (Value Number)))
      parse_alternatives no_more a result args = parsed result args
      parse_alternatives (alternative name fs cs) a result args =
          let other = parse_alternatives cs a result args in
          let chosen : Parsed (Option (List (Value Number))) =
            elim (with_help (λ last. parse_fields fs last) args) [
              | failed e ↦ failed e
              | parsed vs rest ↦ parse_alternatives cs a (some (subcommand name ∷ vs)) rest
            ] in
          if same name a then chosen else other

    unfoldable pub parse_commands : Fields → List Text → Parsed (List (Value Number))
    unfolding parse_fields with_help
    parse_commands fs args = with_help (λ rest. parse_fields fs rest) args

  unfoldable pub parse_args : Bool → Fields → List Text → Parsed (List (Value Number))
  unfolding parse_commands
  parse_args have_exec_path fs [] =
      if have_exec_path then failed missing_arg else parse_commands [] [] fs []
  parse_args have_exec_path fs (a ∷ args) =
      if have_exec_path
      then parse_commands a (a ∷ args) fs args
      else parse_commands [] (a ∷ args) fs (a ∷ args)
