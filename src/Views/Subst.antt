-- ===== src/Views/Subst.antt =====
-- core::views::subst_iterator of src/core/ranges/subst.hpp: it replaces `${key}` in a text, and again in
-- what it puts in, with a stack of the texts it is in.
pub mod Spec
pub mod Search
pub mod Expansion
pub mod States
pub mod Refine
pub mod Limits
use braincells.Common.{
  ℕ, zero, suc, ◌+◌, ◌-◌, Bool, true, false, ◌&&◌, Option, none, some, List, [], ◌∷◌, length,
  get_or, take, drop, ltb, if◌then◌else◌, ◌==◌, ◌>>=◌, Text, same,
}

pub record SubstEntry : Type 0 where
  pub what : Text
  pub replace_with : Text

-- For `end`, npos is none.
pub record SavedPos : Type 0 where
  pub restore_pos : ℕ
  pub end : Option ℕ
  pub text : Text

-- The view: `symbols[0]`, `symbols[1]` and `symbols[2]`, the entries, and `states.size()`.
pub record Subst : Type 0 where
  pub symbol : ℕ
  pub opening : ℕ
  pub closing : ℕ
  pub entries : List SubstEntry
  pub max_states : ℕ

-- The array `states` up to `states_count`, the current text first.
abbrev pub SubstIterator : Type 0
SubstIterator = List SavedPos

-- `data.find(symbol, e)`, on the characters from `e` on.
unfoldable pub find_from : ℕ → ℕ → Text → Option ℕ
find_from symbol e [] = none
find_from symbol e (c ∷ cs) =
    let later = find_from symbol (suc e) cs in if c == symbol then some e else later

unfoldable pub find : ℕ → Text → ℕ → Option ℕ
unfolding find_from
find symbol text e = find_from symbol e (drop e text)

-- `while (e < data.size() && data[e] != symbols[2]) ++e;` on the characters from `e` on.
unfoldable pub close_from : ℕ → ℕ → Text → ℕ
close_from close e [] = e
close_from close e (c ∷ cs) =
    let later = close_from close (suc e) cs in if c == close then e else later

-- `data.substr(start, end - start)`
abbrev pub substr : Text → ℕ → ℕ → Text
substr text start end = take (end - start) (drop start text)

unfoldable pub get_value_in : List SubstEntry → Text → Text
unfolding same
get_value_in [] key = []
get_value_in (entry ∷ entries) key =
    let later = get_value_in entries key in
    if same entry.what key then entry.replace_with else later

module _ (subst : Subst) where
  unfoldable pub get_value : Text → Text
  unfolding get_value_in
  get_value = get_value_in subst.entries

  unfoldable pub opens_at : Text → ℕ → Bool
  opens_at text e = ltb (e + 1) (length text) && (get_or text (e + 1) 0 == subst.opening)

  -- One round of the loop of `find_subst_symbol`: what `e` becomes, and whether the loop ends.
  unfoldable pub round_at : Text → Option ℕ → Option ℕ × Bool
  unfolding opens_at
  round_at text none = (none, true)
  round_at text (some p) =
      if opens_at text p
      then (some p, true)
      else (some (if ltb (p + 1) (length text) then suc p else p), false)

  unfoldable pub find_round : Text → ℕ → Option ℕ × Bool
  unfolding round_at
  find_round text e = round_at text (find subst.symbol text e)

  -- The loop, with fuel: none when that runs out.
  unfoldable pub find_loop : ℕ → Text → Option ℕ → Option (Option ℕ)
  unfolding find_round
  find_loop fuel text none = some none
  find_loop zero text (some e) = none
  find_loop (suc fuel) text (some e) =
      let (e', done) = find_round text e in
      elim done [ true ↦ some e' | false ↦ find_loop fuel text e' ]

  -- A round that goes on has passed a character, unless it stands at the last one.
  unfoldable pub find_subst_symbol : SubstIterator → Option SubstIterator
  unfolding find_loop
  find_subst_symbol [] = some []
  find_subst_symbol (s ∷ states) =
      find_loop (suc (length s.text)) s.text s.end >>= λ e. some (record s { end = e } ∷ states)

  unfoldable pub make_subst : SubstIterator → SubstIterator
  unfolding close_from get_value
  make_subst [] = []
  make_subst (s ∷ states) = elim s.end [
    | none ↦ s ∷ states
    | some e ↦
        let start = e + 2 in
        let end = close_from subst.closing start (drop start s.text) in
        let e' = if ltb end (length s.text) then suc end else end in
        let s' : SavedPos = record s { end = some e' } in
        let pushed : SavedPos = record {
          restore_pos = e';
          end = some 0;
          text = get_value (substr s.text start end);
        } in
        if suc (length states) == subst.max_states then s' ∷ states else pushed ∷ s' ∷ states
  ]

  unfoldable pub exit_subst : SubstIterator → SubstIterator
  exit_subst [] = []
  exit_subst (popped ∷ []) = []
  exit_subst (popped ∷ s ∷ states) =
      record s { end = some 0; text = drop popped.restore_pos s.text } ∷ states

  -- `++it`
  unfoldable pub next : SubstIterator → Option SubstIterator
  unfolding find_subst_symbol make_subst exit_subst
  next [] = some []
  next (s ∷ states) = elim s.end [
    | none ↦ find_subst_symbol (exit_subst (s ∷ states))
    | some _ ↦ find_subst_symbol (make_subst (s ∷ states))
  ]

  unfoldable pub init : Text → Option SubstIterator
  unfolding find_subst_symbol
  init input = find_subst_symbol (record { restore_pos = 0; end = some 0; text = input } ∷ [])

  -- `*it`
  unfoldable pub piece : SavedPos → Text
  piece s = elim s.end [ none ↦ s.text | some e ↦ take e s.text ]

  -- What a loop over the view puts together, with fuel: none when that, or the fuel of a search, runs out.
  unfoldable pub pieces_loop : ℕ → SubstIterator → Option (List Text)
  unfolding piece next
  pieces_loop zero [] = some []
  pieces_loop (suc fuel) [] = some []
  pieces_loop zero (s ∷ states) = none
  pieces_loop (suc fuel) (s ∷ states) = do
    it ← next (s ∷ states)
    rest ← pieces_loop fuel it
    some (piece s ∷ rest)

  unfoldable pub pieces : ℕ → Text → Option (List Text)
  unfolding init pieces_loop
  pieces fuel input = do it ← init input; pieces_loop fuel it
