-- ===== src/IntParse.antt =====
-- core::parse_int of src/core/int_parse.hpp: the value of an integer literal, from its characters, which
-- are ASCII.
pub mod Exact
pub mod Binary
use braincells.Common.{
  ℕ, zero, suc, ◌+◌, ◌-◌, ◌*◌, ◌%◌, Bool, true, false, not, ◌&&◌, ◌||◌, List, [], ◌∷◌, get_or, take,
  drop, Option, none, some, length, if◌then◌else◌, ltb, leb, ◌==◌, word64, Text,
}

-- The `int`, as the `unsigned long long` that it is added as.
unfoldable pub to_int : ℕ → ℕ
to_int c =
    if leb b'A' c && leb c b'Z'
    then c - b'A' + 10
    else if leb b'a' c && leb c b'z'
    then c - b'a' + 10
    else (c + word64 - b'0') % word64

pub record ParseIntResult : Type 0 where
  pub value : ℕ
  pub overflow : Bool

unfoldable pub parse_loop : ℕ → Text → ParseIntResult → ParseIntResult
unfolding to_int
parse_loop base [] r = r
parse_loop base (c ∷ cs) r =
    let result : ℕ = (r.value * base % word64 + to_int c) % word64 in
    let seen : Bool = ltb result r.value || ((r.value == result) && not (c == b'0')) in
    parse_loop base cs
      (if c == b'\'' then r else record { value = result; overflow = seen || r.overflow })

-- The base and the length of the prefix.
unfoldable pub base_of : Text → ℕ × ℕ
base_of str =
    if get_or str 1 0 == b'b' then (2, 2) else if get_or str 1 0 == b'x' then (16, 2) else (8, 1)

unfoldable pub parse_int_n : ℕ → ℕ → Text → ParseIntResult
unfolding base_of parse_loop
parse_int_n o max str =
    let (base, prefix) =
      if (get_or str 0 0 == b'0') && not (o + max == 1) then base_of str else (10, 0) in
    let offset : ℕ = o + prefix in
    parse_loop base (take (max - offset) (drop offset str)) (record { value = 0; overflow = false })

unfoldable pub parse_int : ℕ → Text → ParseIntResult
unfolding parse_int_n
parse_int o str = parse_int_n o (length str - o) str

-- none is the failed static_assert.
unfoldable pub parse_int_checked : Text → Option ℕ
unfolding parse_int
parse_int_checked cs =
    let res : ParseIntResult = parse_int 0 cs in if not res.overflow then some res.value else none
