-- ===== src/ArgParse/Options.antt =====
-- The options that arg_by_key and arg_bool of src/util/arg_parse.hpp take out of the arguments.
use mathlib.Core.List.{Mem, mem-cons, not-mem-nil}
use mathlib.Core.Logic.{∥∥₁_elim}
use braincells.Common.{
  append_assoc, Text, same, ℕ, ◌≡◌, ◌⊎◌, refl, sym, ap, ap₂, ◌∙◌, Bool, true, false, ◌||◌, List, [],
  ◌∷◌, ◌++◌, Option, none, some, length, drop, if◌then◌else◌, ◌==◌, ==_iff, Bool-cases, inl, inr,
}
use braincells.ArgParse.{
  key_text, option_text, starts_with, Parsed, parsed, failed, missing_arg, keep, value_behind,
  arg_by_key, arg_bool,
}

pub same_lem : (s t : Text) → same s t ≡ true → s ≡ t
unfolding same
same_lem [] [] e = refl
same_lem [] (b ∷ t) e = cc
same_lem (a ∷ s) [] e = cc
same_lem (a ∷ s) (b ∷ t) e = elim (Bool-cases (a == b)) [
  | inl h ↦ ap₂ (λ (x : ℕ) l. x ∷ l) ((==_iff a b).0 h) (same_lem s t (rw h at e))
  | inr h ↦ let clash : false ≡ true = rw h at e in cc
]

pub starts_with_lem : (s p : Text) → starts_with s p ≡ true → s ≡ p ++ drop (length p) s
unfolding starts_with
starts_with_lem s [] e = refl
starts_with_lem [] (p ∷ ps) e = cc
starts_with_lem (a ∷ s) (p ∷ ps) e = elim (Bool-cases (a == p)) [
  | inl h ↦ ap₂ (λ (x : ℕ) l. x ∷ l) ((==_iff a p).0 h) (starts_with_lem s ps (rw h at e))
  | inr h ↦ let clash : false ≡ true = rw h at e in cc
]

-- An argument that names the key in neither form.
abbrev pub OtherThan : Text → Text → Type 0
OtherThan name a = ((v : Text) → ¬ (a ≡ name ++ b'=' ∷ v)) × (¬ (a ≡ b'-' ∷ b'-' ∷ name))

-- No argument names the key.
abbrev pub NoneNames : Text → List Text → Type 0
NoneNames name [] = Unit
NoneNames name (a ∷ args) = OtherThan name a × NoneNames name args

starts_with-append : (p v : Text) → starts_with (p ++ v) p ≡ true
unfolding starts_with
starts_with-append [] v = refl
starts_with-append (a ∷ p) v = rw ((==_iff a a).1 refl) (starts_with-append p v)

not-same : (s t : Text) → same s t ≡ false → ¬ (t ≡ s)
unfolding same
not-same s t h e = let clash : true ≡ false = sym (same-refl s) ∙ ap (same s) (sym e) ∙ h in cc
  where
    same-refl : (s : Text) → same s s ≡ true
    same-refl [] = refl
    same-refl (a ∷ s) = rw ((==_iff a a).1 refl) (same-refl s)

other_than :
    (name a : Text)
    → starts_with a (key_text name) ≡ false
    → same a (option_text name) ≡ false
    → OtherThan name a
other_than name a h k = (
  λ v e.
      let clash : true ≡ false =
        sym (starts_with-append (key_text name) v)
        ∙ ap (λ t. starts_with t (key_text name)) (append_assoc name (b'=' ∷ []) v ∙ sym e)
        ∙ h in
      cc,
  λ e. not-same a (option_text name) k (sym e),
)

-- What `arg_by_key` makes of the arguments.
abbrev pub Taken : Text → List Text → Parsed (Option Text) → Type 0
Taken name args (parsed none rest) = (rest ≡ args) × NoneNames name args
Taken name args (parsed (some v) rest) =
    (before : List Text) × (after : List Text) × NoneNames name before
    × (rest ≡ before ++ after)
    × ((args ≡ before ++ (name ++ b'=' ∷ v) ∷ after)
        ⊎ (args ≡ before ++ (b'-' ∷ b'-' ∷ name) ∷ v ∷ after))
Taken name args (failed e) =
    (before : List Text) × NoneNames name before
    × (args ≡ before ++ (b'-' ∷ b'-' ∷ name) ∷ [])
    × (e ≡ missing_arg)

keep-Taken :
    (name a : Text) (args : List Text) (r : Parsed (Option Text))
    → starts_with a (key_text name) ≡ false
    → same a (option_text name) ≡ false
    → Taken name args r
    → Taken name (a ∷ args) (keep a r)
unfolding keep
keep-Taken name a args (parsed none rest) h k (e, free) =
    (ap (λ l. a ∷ l) e, (other_than name a h k, free))
keep-Taken name a args (parsed (some v) rest) h k (before, after, free, e, inl from) = (
  a ∷ before,
  after,
  (other_than name a h k, free),
  ap (λ l. a ∷ l) e,
  inl (ap (λ l. a ∷ l) from),
)
keep-Taken name a args (parsed (some v) rest) h k (before, after, free, e, inr from) = (
  a ∷ before,
  after,
  (other_than name a h k, free),
  ap (λ l. a ∷ l) e,
  inr (ap (λ l. a ∷ l) from),
)
keep-Taken name a args (failed e) h k (before, free, from, m) =
    (a ∷ before, (other_than name a h k, free), ap (λ l. a ∷ l) from, m)

value_behind-Taken :
    (name a : Text) (args : List Text)
    → a ≡ option_text name
    → Taken name (a ∷ args) (value_behind args)
unfolding value_behind
value_behind-Taken name a [] e = ([], tt, ap (λ x. x ∷ []) e, refl)
value_behind-Taken name a (v ∷ args) e = ([], args, tt, refl, inr (ap (λ x. x ∷ v ∷ args) e))

-- `arg_by_key` takes the first argument of the form `name=value`, or the first `--name` with the argument
-- behind it, whichever comes first, and leaves the others in order; without one it leaves all, and it fails
-- exactly at a `--name` that is the last argument.
pub arg_by_key_lem : (name : Text) (args : List Text) → Taken name args (arg_by_key name args)
unfolding arg_by_key
arg_by_key_lem name [] = (refl, tt)
arg_by_key_lem name (a ∷ args) = elim (Bool-cases (starts_with a (key_text name))) [
  | inl h ↦ rw h (
    [],
    args,
    tt,
    refl,
    inl (
        ap (λ x. x ∷ args)
          (starts_with_lem a (key_text name) h
            ∙ append_assoc name (b'=' ∷ []) (drop (length (key_text name)) a))),
  )
  | inr h ↦ elim (Bool-cases (same a (option_text name))) [
    | inl k ↦ rw (h, k) (value_behind-Taken name a args (same_lem a (option_text name) k))
    | inr k ↦
        rw (h, k) (keep-Taken name a args (arg_by_key name args) h k (arg_by_key_lem name args))
  ]
]

-- What `arg_bool` makes of the arguments.
abbrev pub IsFlag : Text → List Text → Bool → List Text → Type 0
IsFlag name args true rest =
    (before : List Text) × (after : List Text) × (rest ≡ before ++ after)
    × (args ≡ before ++ option_text name ∷ after)
    × (¬ Mem (option_text name) before)
IsFlag name args false rest = (rest ≡ args) × (¬ Mem (option_text name) args)

not-mem-cons : (x a : Text) (l : List Text) → ¬ (x ≡ a) → ¬ Mem x l → ¬ Mem x (a ∷ l)
not-mem-cons x a l h k m =
    ∥∥₁_elim (mem-cons.0 m) (hlevel) λ s. elim s [ inl q ↦ h q | inr q ↦ k q ]

cons-IsFlag :
    (name a : Text) (args : List Text) (b : Bool) (rest : List Text)
    → same a (option_text name) ≡ false
    → IsFlag name args b rest
    → IsFlag name (a ∷ args) b (a ∷ rest)
cons-IsFlag name a args true rest h (before, after, e, from, free) = (
  a ∷ before,
  after,
  ap (λ l. a ∷ l) e,
  ap (λ l. a ∷ l) from,
  not-mem-cons _ a before (not-same a _ h) free,
)
cons-IsFlag name a args false rest h (e, free) =
    (ap (λ l. a ∷ l) e, not-mem-cons _ a args (not-same a _ h) free)

-- `arg_bool` is true exactly when `--name` is among the arguments, takes the first one out, and leaves the
-- others in order.
pub arg_bool_lem :
    (name : Text) (args : List Text)
    → IsFlag name args (arg_bool name args).0 (arg_bool name args).1
unfolding arg_bool
arg_bool_lem name [] = (refl, not-mem-nil)
arg_bool_lem name (a ∷ args) = elim (Bool-cases (same a (option_text name))) [
  | inl h ↦ rw h ([], args, refl, ap (λ x. x ∷ args) (same_lem a (option_text name) h), not-mem-nil)
  | inr h ↦ rw h (
      cons-IsFlag name a args (arg_bool name args).0 (arg_bool name args).1 h
        (arg_bool_lem name args))
]

drop-append : (p v : Text) → drop (length p) (p ++ v) ≡ v
drop-append [] v = refl
drop-append (a ∷ p) v = drop-append p v

-- Whether an argument names the key, in one form or the other.
abbrev names : Text → Text → Bool
names name a = starts_with a (key_text name) || same a (option_text name)

-- No argument names the key.
abbrev none_names : Text → List Text → Bool
none_names name [] = true
none_names name (a ∷ args) = if names name a then false else none_names name args

-- An option written `name=value` behind arguments that do not name the key is read back, and the other
-- arguments are left.
pub arg_by_key-key_text :
    (name v : Text) (before after : List Text)
    → none_names name before ≡ true
    → arg_by_key name (before ++ (key_text name ++ v) ∷ after) ≡ parsed (some v) (before ++ after)
unfolding arg_by_key keep
arg_by_key-key_text name v [] after free =
    rw (starts_with-append (key_text name) v, drop-append (key_text name) v) refl
arg_by_key-key_text name v (a ∷ before) after free = elim (Bool-cases (names name a)) [
  | inl e ↦ let clash : false ≡ true = rw e at free in cc
  | inr e ↦
      let parts = or_false (starts_with a (key_text name)) (same a (option_text name)) e in
      rw (parts.0, parts.1, arg_by_key-key_text name v before after (rw e at free)) refl
]
  where
    or_false : (a b : Bool) → (a || b) ≡ false → (a ≡ false) × (b ≡ false)
    or_false true b e = cc
    or_false false b e = (refl, e)
