-- ===== src/Io/Copies.antt =====
-- Lists of bytes that the streams of src/core/io cut and copy.
use braincells.Common.{
  ℕ, zero, suc, ◌+◌, ◌-◌, ◌≤◌, ◌≡◌, refl, sym, ap, ap₂, ◌∙◌, List, [], ◌∷◌, ◌++◌, arith, length,
  take, drop, length-append, length-take, length-drop, take-length-append, min,
}
use braincells.Io.{copy_at, slice}

take_nil : (k : ℕ) → take {A = ℕ} k [] ≡ []
take_nil zero = refl
take_nil (suc k) = refl

take-append_add : (a b : List ℕ) (n : ℕ) → take (length a + n) (a ++ b) ≡ a ++ take n b
take-append_add [] b n = ap (λ (k : ℕ). take k b) (omega arith)
take-append_add (x ∷ a) b n =
    ap (λ (k : ℕ). take k (x ∷ (a ++ b))) {y = suc (length a + n)} (omega arith)
    ∙ ap (λ t. x ∷ t) (take-append_add a b n)

pub length-copy_at :
    (buff bytes : List ℕ) (pos : ℕ)
    → pos + length bytes ≤ length buff
    → length (copy_at buff pos bytes) ≡ length buff
unfolding copy_at
length-copy_at buff bytes pos h = omega (
  arith,
  length-append (take pos buff) (bytes ++ drop (pos + length bytes) buff),
  length-append bytes (drop (pos + length bytes) buff),
  length-take pos buff,
  length-drop (pos + length bytes) buff,
)

-- What the first bytes are after a copy behind them.
pub take-copy_at :
    (buff bytes : List ℕ) (pos : ℕ)
    → pos + length bytes ≤ length buff
    → take (pos + length bytes) (copy_at buff pos bytes) ≡ take pos buff ++ bytes
unfolding copy_at
take-copy_at buff bytes pos h =
    ap (λ (k : ℕ). take k (copy_at buff pos bytes)) {y = length (take pos buff) + length bytes}
      (omega (arith, length-take pos buff))
    ∙ take-append_add (take pos buff) (bytes ++ drop (pos + length bytes) buff) (length bytes)
    ∙ ap (λ t. take pos buff ++ t) (take-length-append bytes (drop (pos + length bytes) buff))

pub take-take : (n : ℕ) (xs : List ℕ) → take n (take n xs) ≡ take n xs
take-take zero xs = refl
take-take (suc n) [] = refl
take-take (suc n) (x ∷ xs) = ap (λ t. x ∷ t) (take-take n xs)

pub length-slice :
    (buff : List ℕ) (pos size : ℕ) → length (slice buff pos size) ≡ min size (length buff - pos)
unfolding slice
length-slice buff pos size = length-take size (drop pos buff) ∙ ap (min size) (length-drop pos buff)

pub drop-take : (m n : ℕ) (xs : List ℕ) → drop m (take n xs) ≡ take (n - m) (drop m xs)
drop-take zero n xs = ap (λ (k : ℕ). take k xs) (omega arith)
drop-take (suc m) zero xs = ap (λ (k : ℕ). take k (drop (suc m) xs)) {x = 0} (omega arith)
drop-take (suc m) (suc n) [] = sym (take_nil (suc n - suc m))
drop-take (suc m) (suc n) (x ∷ xs) =
    drop-take m n xs ∙ ap (λ (k : ℕ). take k (drop m xs)) (omega arith)

-- The first bytes after the unwritten ones were moved to the front.
pub take-copy_at-slice :
    (buff : List ℕ) (w pos : ℕ)
    → w ≤ pos
    → pos ≤ length buff
    → take pos (copy_at buff 0 (slice buff w (pos - w)))
      ≡ drop w (take pos buff) ++ drop (pos - w) (take pos buff)
unfolding copy_at slice
take-copy_at-slice buff w pos h k =
    let moved = slice buff w (pos - w) in
    let left_over : w ≡ pos - (pos - w) = omega arith in
    let moved_from : 0 + length moved ≡ pos - w = omega (arith, length-slice buff w (pos - w)) in
    let n : length moved ≡ pos - w = omega (arith, length-slice buff w (pos - w)) in
    ap (λ (i : ℕ). take i (moved ++ drop (0 + length moved) buff)) {y = length moved + w}
      (omega arith)
    ∙ take-append_add moved (drop (0 + length moved) buff) w
    ∙ ap₂ ◌++◌ (sym (drop-take w pos buff)) (
        ap₂ (λ (i j : ℕ). take i (drop j buff)) left_over moved_from
        ∙ sym (drop-take (pos - w) pos buff))

pub take-take-drop :
    (n s : ℕ) (xs : List ℕ) → n ≤ s → take n xs ++ take (s - n) (drop n xs) ≡ take s xs
take-take-drop zero s xs h = ap (λ (k : ℕ). take k xs) (omega arith)
take-take-drop (suc n) zero xs h = absurd (omega arith)
take-take-drop (suc n) (suc s) [] h = take_nil (suc s - suc n)
take-take-drop (suc n) (suc s) (x ∷ xs) h =
    ap (λ (k : ℕ). x ∷ (take n xs ++ take k (drop n xs))) {y = s - n} (omega arith)
    ∙ ap (λ t. x ∷ t) (take-take-drop n s xs (omega arith))

pub length_zero : (xs : List ℕ) → length xs ≡ 0 → xs ≡ []
length_zero [] e = refl
length_zero (x ∷ xs) e = absurd (omega arith)
