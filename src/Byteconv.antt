-- ===== src/Byteconv.antt =====
-- core::to_bytes and core::from_bytes of src/core/byteconv.hpp. A C++ type is a `Shape`, which decides
-- the overload; bytes are numbers.
pub mod Encode
pub mod RoundTrip
pub mod Bounds
use braincells.Common.{
  ℕ, zero, suc, ◌+◌, ◌*◌, ◌/◌, ◌%◌, Bool, true, false, List, [], ◌∷◌, ◌++◌, length, take, drop,
  if◌then◌else◌, ltb, ◌==◌, word32,
}
use braincells.Io.{copy_at}
use braincells.Io.Memory.{resize}

-- `trivial n` is a trivially copyable type of `n` bytes, `span_like n` a resizable container of such
-- elements, `range` any other container (`emplace`, `emplace_back`), and a class is its fields in order.
pub data Shape : Type 0 where
  trivial : ℕ → Shape
  span_like : ℕ → Shape
  range : Shape → Shape
  no_fields : Shape
  field : Shape → Shape → Shape

pub data NoFields : Type 0 where
  no_more : NoFields

-- A trivial value is its object representation; a container is the values that it was filled with.
unfoldable pub Value : Shape → Type 0
Value (trivial n) = List ℕ
Value (span_like n) = List (List ℕ)
Value (range s) = List (Value s)
Value no_fields = NoFields
Value (field s r) = Value s × Value r

-- The little-endian bytes of a `byteconv_size_type`.
unfoldable pub u32_bytes : ℕ → List ℕ
u32_bytes n = n % 256 ∷ n / 256 % 256 ∷ n / 65536 % 256 ∷ n / 16777216 % 256 ∷ []

unfoldable pub u32_value : List ℕ → ℕ
u32_value (a ∷ b ∷ c ∷ d ∷ []) = a + 256 * b + 65536 * c + 16777216 * d
u32_value _ = 0

-- `out.resize(pos + size); memcpy(out.data() + pos, ...)`
unfoldable pub put : List ℕ → List ℕ → List ℕ
unfolding resize copy_at
put bytes out = copy_at (resize out (length out + length bytes)) (length out) bytes

unfoldable pub concat : List (List ℕ) → List ℕ
concat [] = []
concat (x ∷ xs) = x ++ concat xs

-- The loop over a range.
unfoldable pub to_bytes_each : {A : Type 0} → (A → List ℕ → List ℕ) → List A → List ℕ → List ℕ
to_bytes_each f [] out = out
to_bytes_each f (v ∷ vs) out = to_bytes_each f vs (f v out)

unfoldable pub to_bytes : (s : Shape) → Value s → List ℕ → List ℕ
unfolding Value
to_bytes (trivial n) v out = put v out
to_bytes (span_like n) v out = put (concat v) (put (u32_bytes (length v % word32)) out)
to_bytes (range s) v out =
    copy_at (to_bytes_each (to_bytes s) v (put (u32_bytes 0) out)) (length out)
      (u32_bytes (length v % word32))
to_bytes no_fields v out = out
to_bytes (field s r) (v, w) out = to_bytes r w (to_bytes s v out)

-- A value with the number of bytes read, or the exception with its offset, size and available bytes.
pub data Result (A : Type 0) : Type 0 where
  read : A → ℕ → Result A
  out_of_range : ℕ → ℕ → ℕ → Result A

-- `debug_size ? debug_offset : bytes.size()`
unfoldable pub available : List ℕ → ℕ → ℕ → ℕ
available bytes debug_offset debug_size = if debug_size == 0 then length bytes else debug_offset

-- A reader of values takes the span, `debug_offset` and `debug_size`.
abbrev pub Reader : Type 0 → Type 0
Reader A = List ℕ → ℕ → ℕ → Result A

unfoldable pub from_trivial : ℕ → Reader (List ℕ)
unfolding available
from_trivial n bytes debug_offset debug_size =
    if ltb (length bytes) n
    then out_of_range debug_offset n (available bytes debug_offset debug_size)
    else read (take n bytes) n

-- What happens behind a read, unless it throws.
unfoldable pub continue : {A B : Type 0} → Result A → (A → ℕ → Result B) → Result B
continue (read v offset) k = k v offset
continue (out_of_range o n a) k = out_of_range o n a

-- Reads a value and goes on behind it; the bytes read add up.
unfoldable pub and_then : {A B : Type 0} → Reader A → (A → Reader B) → Reader B
unfolding continue
and_then f g bytes debug_offset debug_size = continue (f bytes debug_offset debug_size) (λ v offset.
    continue (g v (drop offset bytes) (debug_offset + offset) debug_size)
      (λ w total. read w (offset + total)))

unfoldable pub finish : {A : Type 0} → A → Reader A
finish v bytes debug_offset debug_size = read v 0

-- `size` elements of `n` bytes.
unfoldable pub chunks : ℕ → ℕ → List ℕ → List (List ℕ)
chunks n zero bytes = []
chunks n (suc size) bytes = take n bytes ∷ chunks n size (drop n bytes)

unfoldable pub from_span : ℕ → ℕ → Reader (List (List ℕ))
unfolding available chunks
from_span n size bytes debug_offset debug_size =
    if ltb (length bytes) (size * n)
    then out_of_range debug_offset (size * n) (available bytes debug_offset debug_size)
    else read (chunks n size bytes) (size * n)

-- The loop that fills a container, which is empty before the call: the code appends to what it has.
unfoldable pub from_bytes_each : {A : Type 0} → Reader A → ℕ → Reader (List A)
unfolding and_then finish
from_bytes_each f zero = finish []
from_bytes_each f (suc size) =
    and_then f (λ v. and_then (from_bytes_each f size) (λ vs. finish (v ∷ vs)))

unfoldable pub from_bytes : (s : Shape) → Reader (Value s)
unfolding Value from_trivial and_then finish from_span
from_bytes (trivial n) = from_trivial n
from_bytes (span_like n) = and_then (from_trivial 4) (λ size. from_span n (u32_value size))
from_bytes (range s) =
    and_then (from_trivial 4) (λ size. from_bytes_each (from_bytes s) (u32_value size))
from_bytes no_fields = finish no_more
from_bytes (field s r) = and_then (from_bytes s) (λ v. and_then (from_bytes r) (λ w. finish (v, w)))

-- The call that returns the value.
unfoldable pub from_all : (s : Shape) → List ℕ → Result (Value s)
unfolding from_bytes Value
from_all (trivial n) bytes =
    if ltb (length bytes) n then out_of_range 0 n (length bytes) else read (take n bytes) n
from_all (span_like n) bytes = from_bytes (span_like n) bytes 0 (length bytes)
from_all (range s) bytes = from_bytes (range s) bytes 0 (length bytes)
from_all no_fields bytes = from_bytes no_fields bytes 0 (length bytes)
from_all (field s r) bytes = from_bytes (field s r) bytes 0 (length bytes)
