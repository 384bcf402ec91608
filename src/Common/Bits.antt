-- ===== src/Common/Bits.antt =====
-- The bits of a native number, and what the bitwise operations do to each of them.
use Prim.Native.Nat.{digits, bit_and-bitwise, bit_or-bitwise}
use native.Mathlib.Nat.{mul_assoc, pow-suc, pow-le-pow_right, one-le-pow, le_refl}
use Prim.Native.Nat.{
  ℕ, zero, suc, ◌+◌, ◌-◌, ◌*◌, ◌/◌, ◌%◌, ◌^◌, ◌≤◌, ◌<◌, min, max, bit_and, bit_or,
}
use mathlib.Core.Path.{◌≡◌, refl, sym, ap, ◌∙◌}
use mathlib.Core.Bool.{Bool, false, not, ◌&&◌, ◌||◌}
use native.Mathlib.Omega.{arith}
use braincells.Common.Tests.{◌==◌}

-- Bit `i` of `x`.
abbrev pub test_bit : ℕ → ℕ → Bool
test_bit x zero = x % 2 == 1
test_bit x (suc i) = test_bit (x / 2) i

more_fuel :
    (z : ℕ → ℕ) (f : ℕ → ℕ → ℕ) (n m a b : ℕ) → a ≤ n → a ≤ m → digits z f n a b ≡ digits z f m a b
more_fuel z f zero zero a b p q = refl
more_fuel z f zero (suc m) zero b p q = refl
more_fuel z f zero (suc m) (suc a) b p q = absurd (omega arith)
more_fuel z f (suc n) zero zero b p q = refl
more_fuel z f (suc n) zero (suc a) b p q = absurd (omega arith)
more_fuel z f (suc n) (suc m) zero b p q = refl
more_fuel z f (suc n) (suc m) (suc a) b p q =
    ap (λ (t : ℕ). t * 2 + f (suc a % 2) (b % 2))
      (more_fuel z f n m (suc a / 2) (b / 2) (omega arith) (omega arith))

or_digit : (a b : ℕ) → bit_or a b ≡ bit_or (a / 2) (b / 2) * 2 + max (a % 2) (b % 2)
or_digit zero b = simp bit_or-bitwise (omega arith)
or_digit (suc a) b = simp bit_or-bitwise (
    omega
      (arith, more_fuel (λ y. y) max a (suc a / 2) (suc a / 2) (b / 2) (omega arith) (le_refl _)))

pub and_digit : (a b : ℕ) → bit_and a b ≡ bit_and (a / 2) (b / 2) * 2 + min (a % 2) (b % 2)
and_digit zero b = simp bit_and-bitwise (omega arith)
and_digit (suc a) b = simp bit_and-bitwise (
    omega
      (arith, more_fuel (λ y. 0) min a (suc a / 2) (suc a / 2) (b / 2) (omega arith) (le_refl _)))

or_half : (a b : ℕ) → bit_or a b / 2 ≡ bit_or (a / 2) (b / 2)
or_half a b = omega (arith, or_digit a b)

and_half : (a b : ℕ) → bit_and a b / 2 ≡ bit_and (a / 2) (b / 2)
and_half a b = omega (arith, and_digit a b)

pub test_bit-bit_or : (a b i : ℕ) → test_bit (bit_or a b) i ≡ (test_bit a i || test_bit b i)
test_bit-bit_or a b zero = ground (arith, or_digit a b)
test_bit-bit_or a b (suc i) =
    ap (λ (t : ℕ). test_bit t i) (or_half a b) ∙ test_bit-bit_or (a / 2) (b / 2) i

pub test_bit-bit_and : (a b i : ℕ) → test_bit (bit_and a b) i ≡ (test_bit a i && test_bit b i)
test_bit-bit_and a b zero = ground (arith, and_digit a b)
test_bit-bit_and a b (suc i) =
    ap (λ (t : ℕ). test_bit t i) (and_half a b) ∙ test_bit-bit_and (a / 2) (b / 2) i

pub test_bit-zero : (i : ℕ) → test_bit 0 i ≡ false
test_bit-zero zero = refl
test_bit-zero (suc i) = test_bit-zero i

-- A power of two has one bit.
pub test_bit-pow : (j i : ℕ) → test_bit (2 ^ j) i ≡ (i == j)
test_bit-pow zero zero = refl
test_bit-pow zero (suc i) = test_bit-zero i ∙ ground arith
test_bit-pow (suc j) zero = ground (arith, pow-suc 2 j)
test_bit-pow (suc j) (suc i) =
    ap (λ (t : ℕ). test_bit t i) {y = 2 ^ j} (omega (arith, pow-suc 2 j))
    ∙ test_bit-pow j i
    ∙ ground arith

-- The complement within `w` bits.
pub test_bit-complement :
    (w m i : ℕ) → m < 2 ^ w → i < w → test_bit (2 ^ w - 1 - m) i ≡ not (test_bit m i)
test_bit-complement zero m i h k = absurd (omega arith)
test_bit-complement (suc w) m zero h k = ground (arith, pow-suc 2 w)
test_bit-complement (suc w) m (suc i) h k =
    ap (λ (t : ℕ). test_bit t i) {y = 2 ^ w - 1 - m / 2} (omega (arith, pow-suc 2 w))
    ∙ test_bit-complement w (m / 2) i (omega (arith, pow-suc 2 w)) (omega arith)

and-zero : (i a : ℕ) → a < 2 ^ i → bit_and a 0 ≡ 0
and-zero zero a h = ap (λ (t : ℕ). bit_and t 0) {y = 0} (omega arith)
and-zero (suc i) a h = omega (arith, and_digit a 0, and-zero i (a / 2) (omega (arith, pow-suc 2 i)))

lt-pow : (a : ℕ) → a < 2 ^ a
lt-pow zero = omega arith
lt-pow (suc a) = omega (arith, pow-suc 2 a, lt-pow a)

pub bit_and-zero : (a : ℕ) → bit_and a 0 ≡ 0
bit_and-zero a = and-zero a a (lt-pow a)

-- A test against a mask of one bit reads that bit.
pub bit_and-pow : (i a : ℕ) → (bit_and a (2 ^ i) == 0) ≡ not (test_bit a i)
bit_and-pow zero a = ground (arith, and_digit a 1, bit_and-zero (a / 2))
bit_and-pow (suc i) a = ground (
  arith,
  and_digit a (2 ^ suc i),
  ap (λ (t : ℕ). bit_and (a / 2) t) {x = 2 ^ suc i / 2} {y = 2 ^ i} (omega (arith, pow-suc 2 i)),
  pow-suc 2 i,
  bit_and-pow i (a / 2),
)

zero-bit_and : (b : ℕ) → bit_and 0 b ≡ 0
zero-bit_and b = bit_and-bitwise 0 b

zero-bit_or : (b : ℕ) → bit_or 0 b ≡ b
zero-bit_or b = bit_or-bitwise 0 b

pub bit_or-lt : (w a b : ℕ) → a < 2 ^ w → b < 2 ^ w → bit_or a b < 2 ^ w
bit_or-lt zero a b h k = let z : a ≡ 0 = omega arith in rw (z, zero-bit_or b) k
bit_or-lt (suc w) a b h k = omega (
  arith,
  or_digit a b,
  pow-suc 2 w,
  bit_or-lt w (a / 2) (b / 2) (omega (arith, pow-suc 2 w)) (omega (arith, pow-suc 2 w)),
)

and-le : (w a b : ℕ) → a < 2 ^ w → bit_and a b ≤ a
and-le zero a b h = let z : a ≡ 0 = omega arith in rw z (omega (arith, zero-bit_and b))
and-le (suc w) a b h =
    omega (arith, and_digit a b, and-le w (a / 2) (b / 2) (omega (arith, pow-suc 2 w)))

pub bit_and-le : (a b : ℕ) → bit_and a b ≤ a
bit_and-le a b = and-le a a b (lt-pow a)

pub pow_lt : {i w : ℕ} → i < w → 2 ^ i < 2 ^ w
pow_lt {i} {w} h =
    let le : 2 ^ suc i ≤ 2 ^ w = pow-le-pow_right (omega arith) h in
    omega (arith, le, pow-suc 2 i, one-le-pow i 2 (omega arith))

-- Without a common bit, `|` is the sum.
pub bit_or-shift : (k a b : ℕ) → b < 2 ^ k → bit_or b (a * 2 ^ k) ≡ b + a * 2 ^ k
bit_or-shift zero a b h =
    let z : b ≡ 0 = omega arith in rw z (omega (arith, zero-bit_or (a * 2 ^ 0)))
bit_or-shift (suc k) a b h =
    let twice : a * 2 ^ suc k ≡ a * 2 ^ k * 2 =
      ap (λ (t : ℕ). a * t) (pow-suc 2 k) ∙ sym (mul_assoc a (2 ^ k) 2) in
    let half : a * 2 ^ suc k / 2 ≡ a * 2 ^ k = omega (arith, twice) in
    omega (
      arith,
      twice,
      or_digit b (a * 2 ^ suc k),
      ap (bit_or (b / 2)) half,
      bit_or-shift k a (b / 2) (omega (arith, pow-suc 2 k)),
    )

ext-le : (n x y : ℕ) → x ≤ n → y ≤ n → ((i : ℕ) → test_bit x i ≡ test_bit y i) → x ≡ y
ext-le zero x y p q h = omega arith
ext-le (suc n) x y p q h =
    let halves : x / 2 ≡ y / 2 =
      ext-le n (x / 2) (y / 2) (omega arith) (omega arith) (λ i. h (suc i)) in
    ground (arith, h 0, halves)

-- Numbers with the same bits are equal.
pub test_bit_ext : (x y : ℕ) → ((i : ℕ) → test_bit x i ≡ test_bit y i) → x ≡ y
test_bit_ext x y h = ext-le (max x y) x y (omega arith) (omega arith) h
