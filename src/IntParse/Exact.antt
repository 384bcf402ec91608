-- ===== src/IntParse/Exact.antt =====
-- The literals that src/core/int_parse.hpp reads right.
use braincells.Common.{
  ℕ, zero, suc, ◌+◌, ◌-◌, ◌*◌, ◌%◌, ◌≡◌, ◌≢◌, ◌≤◌, ◌<◌, ◌⊎◌, inl, inr, refl, ap, ◌∙◌, false, not,
  ◌&&◌, ◌||◌, [], ◌∷◌, ◌++◌, get_or, take, drop, length, some, take_all, length-drop, if◌then◌else◌,
  ltb, leb, ◌==◌, ==_iff, Bool-cases, word64, Text, arith,
}
use braincells.IntParse.{to_int, parse_loop, base_of, parse_int_n, parse_int, parse_int_checked}

pub data Radix : Type 0 where
  decimal binary octal hexadecimal : Radix

unfoldable pub radix_base : Radix → ℕ
radix_base decimal = 10
radix_base binary = 2
radix_base octal = 8
radix_base hexadecimal = 16

unfoldable pub radix_prefix : Radix → Text
radix_prefix decimal = []
radix_prefix binary = b'0' ∷ b'b' ∷ []
radix_prefix octal = b'0' ∷ []
radix_prefix hexadecimal = b'0' ∷ b'x' ∷ []

-- A separator, or a digit of the base, in lower or upper case.
abbrev pub IsDigit : ℕ → ℕ → Type 0
IsDigit base c =
    (c ≡ b'\'')
    ⊎ ((b'0' ≤ c) × (c < b'0' + base) × (c ≤ b'9'))
    ⊎ ((b'A' ≤ c) × (c + 10 < b'A' + base) × (c ≤ b'Z'))
    ⊎ ((b'a' ≤ c) × (c + 10 < b'a' + base) × (c ≤ b'z'))

abbrev pub AllDigits : ℕ → Text → Type 0
AllDigits base [] = Unit
AllDigits base (c ∷ cs) = IsDigit base c × AllDigits base cs

-- The digit that a character stands for.
abbrev pub digit : ℕ → ℕ
digit c = if leb b'a' c then c - b'a' + 10 else if leb b'A' c then c - b'A' + 10 else c - b'0'

-- The number that the digits stand for, of any size.
unfoldable pub number : ℕ → ℕ → Text → ℕ
number base n [] = n
number base n (c ∷ cs) = number base (if c == b'\'' then n else n * base + digit c) cs

le-times : (n base : ℕ) → 0 < base → n ≤ n * base
le-times n zero h = absurd (omega arith)
le-times n (suc base) h = grind arith

number-ge : (base n : ℕ) (cs : Text) → 0 < base → n ≤ number base n cs
unfolding number
number-ge base n [] h = omega arith
number-ge base n (c ∷ cs) h = elim (Bool-cases (c == b'\'')) [
  | inl t ↦ rw t (number-ge base n cs h)
  | inr f ↦ rw f (omega (arith, number-ge base (n * base + digit c) cs h, le-times n base h))
]

pub to_int-digit :
    (base c : ℕ)
    → base ≤ 16
    → IsDigit base c
    → (c == b'\'') ≡ false
    → (to_int c ≡ digit c) × (digit c ≡ 0 → c ≡ b'0')
unfolding to_int
to_int-digit base c small h other = ground arith

parse_loop_lem :
    (base n : ℕ) (cs : Text)
    → 2 ≤ base
    → base ≤ 16
    → AllDigits base cs
    → number base n cs < word64
    → parse_loop base cs (record { value = n; overflow = false })
      ≡ record { value = number base n cs; overflow = false }
unfolding parse_loop number
parse_loop_lem base n [] lo hi ds small = refl
parse_loop_lem base n (c ∷ cs) lo hi (d, ds) small = elim (Bool-cases (c == b'\'')) [
  | inl t ↦ rw t (parse_loop_lem base n cs lo hi ds (rw t at small))
  | inr f ↦
      let m : ℕ = n * base + digit c in
      let (same, zero_only) = to_int-digit base c hi d f in
      let small' : number base m cs < word64 = rw f at small in
      let grows : n ≤ n * base = le-times n base (omega arith) in
      let fits : m < word64 = omega (arith, number-ge base m cs (omega arith)) in
      let result : (n * base % word64 + to_int c) % word64 ≡ m = omega (arith, same) in
      let quiet : (ltb m n || ((n == m) && not (c == b'0'))) ≡ false = elim (Bool-cases (n == m)) [
        | inl t ↦
            let only_zero : c ≡ b'0' = zero_only (omega (arith, (==_iff n m).0 t)) in ground arith
        | inr g ↦ ground arith
      ] in
      rw (f, result, quiet) (parse_loop_lem base m cs lo hi ds small')
]

-- A decimal literal is a zero alone or does not begin with a zero, and an octal one has more than its zero.
abbrev pub IsHead : Radix → Text → Type 0
IsHead decimal cs = (cs ≡ b'0' ∷ []) ⊎ (get_or cs 0 0 ≢ b'0')
IsHead octal cs = 0 < length cs
IsHead _ cs = Unit

pub parse_digits :
    (base k : ℕ) (str : Text)
    → parse_loop base
        (take (length str - 0 - (0 + k)) (drop (0 + k) str))
        (record { value = 0; overflow = false })
      ≡ parse_loop base (drop k str) (record { value = 0; overflow = false })
parse_digits base k str =
    ap (λ cs. parse_loop base cs (record { value = 0; overflow = false }))
      (ap (λ (n : ℕ). take (length str - 0 - (0 + k)) (drop n str)) {x = 0 + k} {y = k}
          (omega arith)
        ∙ take_all (length str - 0 - (0 + k)) (drop k str) (omega (arith, length-drop k str)))

parse_int_lem :
    (radix : Radix) (cs : Text)
    → IsHead radix cs
    → AllDigits (radix_base radix) cs
    → number (radix_base radix) 0 cs < word64
    → parse_int 0 (radix_prefix radix ++ cs)
      ≡ record { value = number (radix_base radix) 0 cs; overflow = false }
unfolding parse_int parse_int_n base_of parse_loop to_int radix_base radix_prefix number
parse_int_lem decimal cs (inl e) ds small = rw e refl
parse_int_lem decimal cs (inr head) ds small =
    let plain : (get_or cs 0 0 == b'0') ≡ false = ground arith in
    rw plain (parse_digits 10 0 cs ∙ parse_loop_lem 10 0 cs (omega arith) (omega arith) ds small)
parse_int_lem binary cs head ds small =
    let more : (0 + (suc (suc (length cs)) - 0) == 1) ≡ false = ground arith in
    rw more (
      parse_digits 2 2 (b'0' ∷ b'b' ∷ cs)
      ∙ parse_loop_lem 2 0 cs (omega arith) (omega arith) ds small)
parse_int_lem hexadecimal cs head ds small =
    let more : (0 + (suc (suc (length cs)) - 0) == 1) ≡ false = ground arith in
    rw more (
      parse_digits 16 2 (b'0' ∷ b'x' ∷ cs)
      ∙ parse_loop_lem 16 0 cs (omega arith) (omega arith) ds small)
parse_int_lem octal [] head ds small = absurd (omega arith)
parse_int_lem octal (c ∷ cs) head (d, ds) small =
    let more : (0 + (suc (suc (length cs)) - 0) == 1) ≡ false = ground arith in
    let no_b : (c == b'b') ≡ false = ground arith in
    let no_x : (c == b'x') ≡ false = ground arith in
    rw (more, no_b, no_x)
      (parse_digits 8 1 (b'0' ∷ c ∷ cs)
        ∙ parse_loop_lem 8 0 (c ∷ cs) (omega arith) (omega arith) (d, ds) small)

-- A literal whose value is below 2^64, in any of the four bases and with separators between its
-- digits, is read as this value and passes the assertion that it does not overflow.
pub parse_int_checked_lem :
    (radix : Radix) (cs : Text)
    → IsHead radix cs
    → AllDigits (radix_base radix) cs
    → number (radix_base radix) 0 cs < word64
    → parse_int_checked (radix_prefix radix ++ cs) ≡ some (number (radix_base radix) 0 cs)
unfolding parse_int_checked
parse_int_checked_lem radix cs head ds small = rw (parse_int_lem radix cs head ds small) refl
