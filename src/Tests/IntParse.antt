-- ===== src/Tests/IntParse.antt =====
-- Literals that src/core/int_parse.hpp reads.
use braincells.Common.{
  ℕ, ◌≡◌, refl, suc, zero, false, none, some, [], ◌∷◌, ◌++◌, inl, inr, arith, replicate,
}
use braincells.IntParse.{to_int, parse_loop, base_of, parse_int_n, parse_int, parse_int_checked}
use braincells.IntParse.Binary.{parse_int_checked-binary}
use braincells.IntParse.Exact.{
  octal, binary, radix_base, radix_prefix, number, AllDigits, parse_int_checked_lem,
}

-- `0xf'F`
hexadecimal_read :
    parse_int 0 (b'0' ∷ b'x' ∷ b'f' ∷ b'\'' ∷ b'F' ∷ []) ≡ record { value = 255; overflow = false }
unfolding parse_int parse_int_n base_of parse_loop to_int
hexadecimal_read = refl

-- `0x12345678901234567` does not fit in 64 bits, and the wrap is not noticed.
overflow_missed :
    parse_int 0 (
      b'0' ∷ b'x' ∷ b'1' ∷ b'2' ∷ b'3' ∷ b'4' ∷ b'5' ∷ b'6' ∷ b'7' ∷ b'8' ∷ b'9' ∷ b'0' ∷ b'1'
      ∷ b'2' ∷ b'3' ∷ b'4' ∷ b'5' ∷ b'6' ∷ b'7' ∷ [])
    ≡ record { value = 0x2345678901234567; overflow = false }
unfolding parse_int parse_int_n base_of parse_loop to_int
overflow_missed = refl

-- `0X1` is read as an octal literal, with `X` for a digit of 33.
upper_case_prefix : parse_int 0 (b'0' ∷ b'X' ∷ b'1' ∷ []) ≡ record { value = 265; overflow = false }
unfolding parse_int parse_int_n base_of parse_loop to_int
upper_case_prefix = refl

parse_int_checked_lem_example :
    parse_int_checked (radix_prefix octal ++ b'1' ∷ b'\'' ∷ b'7' ∷ [])
    ≡ some (number (radix_base octal) 0 (b'1' ∷ b'\'' ∷ b'7' ∷ []))
unfolding radix_base number
parse_int_checked_lem_example =
    parse_int_checked_lem octal (b'1' ∷ b'\'' ∷ b'7' ∷ []) (omega arith)
      (inr (inl (omega arith)), (inl refl, (inr (inl (omega arith)), tt))) (omega arith)

ones-AllDigits : (n : ℕ) → AllDigits 2 (replicate n b'1')
ones-AllDigits zero = tt
ones-AllDigits (suc n) = (inr (inl (omega arith)), ones-AllDigits n)

-- 65 binary ones.
parse_int_checked-binary_example :
    parse_int_checked (radix_prefix binary ++ replicate 65 b'1') ≡ none
unfolding number
parse_int_checked-binary_example =
    parse_int_checked-binary (replicate 65 b'1') (ones-AllDigits 65) (omega arith)
