-- ===== src/Byteconv/Bounds.antt =====
-- core::from_bytes never reads outside its span, and what its exception says (src/core/byteconv.hpp).
use braincells.Common.{
  ℕ, zero, suc, ◌+◌, ◌*◌, ◌≡◌, ◌<◌, ◌≤◌, List, [], ◌∷◌, length, drop, length-drop, arith,
  Bool-cases, inl, inr, ltb, if◌then◌else◌,
}
use braincells.Byteconv.{
  Shape, trivial, span_like, range, no_fields, field, Value, Result, read, out_of_range, Reader,
  continue, from_trivial, and_then, finish, from_span, from_bytes_each, from_bytes, available,
  u32_value, no_more,
}

-- A read stays inside the span. The exception names the offset and size of a read that does not fit, and
-- as the available bytes, when `debug_size` is given, that offset.
abbrev pub Checked : {A : Type 0} → List ℕ → ℕ → ℕ → Result A → Type 0
Checked bytes o d (read v n) = n ≤ length bytes
Checked bytes o d (out_of_range at n a) =
    (o ≤ at) × (at ≤ o + length bytes) × (o + length bytes < at + n) × (0 < d → a ≡ at)

abbrev IsSound : {A : Type 0} → Reader A → Type 0
IsSound f = (bytes : List ℕ) (o d : ℕ) → Checked bytes o d (f bytes o d)

available_lem : (bytes : List ℕ) (o d : ℕ) → 0 < d → available bytes o d ≡ o
unfolding available
available_lem bytes o d h = ground arith

shortage :
    {A : Type 0}
    → (bytes : List ℕ) (o d n : ℕ) (v : A)
    → Checked bytes o d
        (if ltb (length bytes) n then out_of_range o n (available bytes o d) else read v n)
shortage bytes o d n v = elim (Bool-cases (ltb (length bytes) n)) [
  | inl e ↦ rw e (omega arith, omega arith, ground arith, available_lem bytes o d)
  | inr e ↦ rw e (ground arith)
]

from_trivial-IsSound : (n : ℕ) → IsSound (from_trivial n)
unfolding from_trivial
from_trivial-IsSound n bytes o d = shortage bytes o d n _

from_span-IsSound : (n size : ℕ) → IsSound (from_span n size)
unfolding from_span
from_span-IsSound n size bytes o d = shortage bytes o d (size * n) _

-- A result behind `n` bytes, seen from the start.
behind :
    {A : Type 0}
    → (bytes : List ℕ) (o d n : ℕ) (r : Result A) → n ≤ length bytes
    → Checked (drop n bytes) (o + n) d r
    → Checked bytes o d (continue r (λ w total. read w (n + total)))
unfolding continue
behind bytes o d n (read w m) h k = omega (arith, length-drop n bytes)
behind bytes o d n (out_of_range at m a) h k = (
  omega (arith, k.0),
  omega (arith, length-drop n bytes, k.1),
  omega (arith, length-drop n bytes, k.2),
  k.3,
)

continue-Checked :
    {A B : Type 0}
    → (bytes : List ℕ) (o d : ℕ) (g : A → Reader B) (r : Result A) → Checked bytes o d r
    → ((v : A) → IsSound (g v))
    → Checked bytes o d (
        continue r (λ v n. continue (g v (drop n bytes) (o + n) d) (λ w total. read w (n + total))))
unfolding continue
continue-Checked bytes o d g (read v n) h k =
    behind bytes o d n (g v (drop n bytes) (o + n) d) h (k v (drop n bytes) (o + n) d)
continue-Checked bytes o d g (out_of_range at m a) h k = h

and_then-IsSound :
    {A B : Type 0}
    → (f : Reader A) (g : A → Reader B) → IsSound f
    → ((v : A) → IsSound (g v))
    → IsSound (and_then f g)
unfolding and_then
and_then-IsSound f g h k bytes o d = continue-Checked bytes o d g (f bytes o d) (h bytes o d) k

finish-IsSound : {A : Type 0} → (v : A) → IsSound (finish v)
unfolding finish
finish-IsSound v bytes o d = omega arith

from_bytes_each-IsSound :
    {A : Type 0} → (f : Reader A) (size : ℕ) → IsSound f → IsSound (from_bytes_each f size)
unfolding from_bytes_each
from_bytes_each-IsSound {A} f zero h = finish-IsSound {A = List A} []
from_bytes_each-IsSound f (suc size) h =
    and_then-IsSound f (λ v. and_then (from_bytes_each f size) (λ vs. finish (v ∷ vs))) h
      (λ v.
        and_then-IsSound (from_bytes_each f size) (λ vs. finish (v ∷ vs))
          (from_bytes_each-IsSound f size h) (λ vs. finish-IsSound (v ∷ vs)))

-- Whatever the bytes are, `from_bytes` reads inside the span, or throws for the first read that leaves
-- it, with its offset and size; the number of available bytes that it reports is that offset instead.
pub from_bytes-Checked :
    (s : Shape) (bytes : List ℕ) (o d : ℕ) → Checked bytes o d (from_bytes s bytes o d)
unfolding from_bytes Value
from_bytes-Checked (trivial n) = from_trivial-IsSound n
from_bytes-Checked (span_like n) =
    and_then-IsSound (from_trivial 4) (λ size. from_span n (u32_value size))
      (from_trivial-IsSound 4) (λ size. from_span-IsSound n (u32_value size))
from_bytes-Checked (range s) =
    and_then-IsSound (from_trivial 4) (λ size. from_bytes_each (from_bytes s) (u32_value size))
      (from_trivial-IsSound 4)
      (λ size. from_bytes_each-IsSound (from_bytes s) (u32_value size) (from_bytes-Checked s))
from_bytes-Checked no_fields = finish-IsSound no_more
from_bytes-Checked (field s r) =
    and_then-IsSound (from_bytes s) (λ v. and_then (from_bytes r) (λ w. finish (v, w)))
      (from_bytes-Checked s)
      (λ v.
        and_then-IsSound (from_bytes r) (λ w. finish (v, w)) (from_bytes-Checked r)
          (λ w. finish-IsSound {A = Value s × Value r} (v, w)))
