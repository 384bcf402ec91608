-- ===== src/IntParse/Binary.antt =====
-- The binary literals that src/core/int_parse.hpp refuses.
use braincells.Common.{
  ℕ, suc, ◌+◌, ◌-◌, ◌*◌, ◌%◌, ◌≡◌, ◌≤◌, ◌<◌, inl, inr, refl, Bool, true, false, not, ◌&&◌, ◌||◌, [],
  ◌∷◌, ◌++◌, length, none, ltb, ◌==◌, Bool-cases, ltb→lt, ltb→le, lt→ltb, ==_iff, word64, Text,
  arith,
}
use braincells.IntParse.{to_int, parse_loop, base_of, parse_int_n, parse_int, parse_int_checked}
use braincells.IntParse.Exact.{
  binary, radix_prefix, AllDigits, digit, number, to_int-digit, parse_digits,
}

or_true : (b : Bool) → (b || true) ≡ true
or_true true = refl
or_true false = refl

-- An overflow that was seen is not forgotten.
overflow_stays :
    (base v : ℕ) (cs : Text)
    → (parse_loop base cs (record { value = v; overflow = true })).overflow ≡ true
unfolding parse_loop
overflow_stays base v [] = refl
overflow_stays base v (c ∷ cs) = elim (Bool-cases (c == b'\'')) [
  | inl t ↦ rw (parse_loop, t) (overflow_stays base v cs)
  | inr f ↦
      let r : ℕ = (v * base % word64 + to_int c) % word64 in
      rw (parse_loop, f, or_true (ltb r v || ((v == r) && not (c == b'0'))))
        (overflow_stays base r cs)
]

binary_loop :
    (n : ℕ) (cs : Text)
    → n < word64
    → AllDigits 2 cs
    → word64 ≤ number 2 n cs
    → (parse_loop 2 cs (record { value = n; overflow = false })).overflow ≡ true
unfolding parse_loop number
binary_loop n [] small ds large = absurd (omega arith)
binary_loop n (c ∷ cs) small (d, ds) large = elim (Bool-cases (c == b'\'')) [
  | inl t ↦ rw (parse_loop, t) (binary_loop n cs small ds (rw t at large))
  | inr f ↦
      let (same, zero_only) = to_int-digit 2 c (omega arith) d f in
      let bit : digit c ≤ 1 = ground arith in
      let large' : word64 ≤ number 2 (n * 2 + digit c) cs = rw f at large in
      let result : (n * 2 % word64 + to_int c) % word64 ≡ (n * 2 + digit c) % word64 =
        omega (arith, same) in
      elim (Bool-cases (ltb (n * 2 + digit c) word64)) [
        | inl t ↦
            let m : ℕ = n * 2 + digit c in
            let exact : (n * 2 % word64 + to_int c) % word64 ≡ m =
              omega (arith, result, ltb→lt m word64 t) in
            let quiet : (ltb m n || ((n == m) && not (c == b'0'))) ≡ false =
              elim (Bool-cases (n == m)) [
                | inl e ↦
                    let only_zero : c ≡ b'0' = zero_only (omega (arith, (==_iff n m).0 e)) in
                    ground arith
                | inr e ↦ ground arith
              ] in
            rw (parse_loop, f, exact, quiet) (binary_loop m cs (ltb→lt m word64 t) ds large')
        | inr g ↦
            let r : ℕ = (n * 2 % word64 + to_int c) % word64 in
            let wrapped : r + word64 ≡ n * 2 + digit c =
              omega (arith, result, ltb→le (n * 2 + digit c) word64 g) in
            let seen : (ltb r n || ((n == r) && not (c == b'0'))) ≡ true =
              elim (Bool-cases (c == b'0')) [
                | inl z ↦
                    let zero_digit : digit c ≡ 0 = ground (arith, (==_iff c b'0').0 z) in
                    rw (lt→ltb r n (omega (arith, wrapped, zero_digit))) refl
                | inr nz ↦ rw nz (ground (arith, wrapped, bit))
              ] in
            rw (parse_loop, f, seen) (overflow_stays 2 r cs)
      ]
]

-- A binary literal whose value is 2^64 or more, with or without separators, does not pass the
-- assertion that it does not overflow.
pub parse_int_checked-binary :
    (cs : Text)
    → AllDigits 2 cs
    → word64 ≤ number 2 0 cs
    → parse_int_checked (radix_prefix binary ++ cs) ≡ none
unfolding parse_int_checked parse_int parse_int_n base_of radix_prefix
parse_int_checked-binary cs ds large =
    let more : (0 + (suc (suc (length cs)) - 0) == 1) ≡ false = ground arith in
    rw (more, parse_digits 2 2 (b'0' ∷ b'b' ∷ cs), binary_loop 0 cs (omega arith) ds large) refl
