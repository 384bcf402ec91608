-- ===== src/Tests/Byteconv.antt =====
-- core::to_bytes and core::from_bytes (src/core/byteconv.hpp) at a vector of pairs.
use braincells.Common.{◌≡◌, refl, [], ◌∷◌, ◌++◌, length, arith}
use braincells.Byteconv.{
  Shape, trivial, span_like, range, no_fields, field, Value, no_more, read, out_of_range, to_bytes,
  to_bytes_each, from_bytes, put, u32_bytes, concat, from_all,
}
use braincells.Byteconv.RoundTrip.{Fits, Each, from_bytes-to_bytes}
use braincells.Byteconv.Bounds.{Checked, from_bytes-Checked}

-- `std::list<std::pair<u16, std::string>>`
abbrev pairs : Shape
pairs = range (field (trivial 2) (field (span_like 1) no_fields))

unfoldable two_pairs : Value pairs
unfolding Value
two_pairs =
    (1 ∷ 0 ∷ [], ((b'h' ∷ []) ∷ (b'i' ∷ []) ∷ [], no_more)) ∷ (2 ∷ 0 ∷ [], ([], no_more)) ∷ []

to_bytes-two_pairs :
    to_bytes pairs two_pairs []
    ≡ 2 ∷ 0 ∷ 0 ∷ 0 ∷ 1 ∷ 0 ∷ 2 ∷ 0 ∷ 0 ∷ 0 ∷ b'h' ∷ b'i' ∷ 2 ∷ 0 ∷ 0 ∷ 0 ∷ 0 ∷ 0 ∷ []
unfolding to_bytes to_bytes_each two_pairs put u32_bytes concat Value
to_bytes-two_pairs = refl

two_pairs-Fits : Fits pairs two_pairs
unfolding Fits two_pairs Each Value
two_pairs-Fits = (
  omega arith,
  ((refl, ((omega arith, (refl, (refl, []))), refl)), ((refl, ((omega arith, []), refl)), [])),
)

from_bytes-to_bytes_example :
    from_bytes pairs (to_bytes pairs two_pairs [] ++ 9 ∷ []) 0 19
    ≡ read two_pairs (length (to_bytes pairs two_pairs []))
from_bytes-to_bytes_example = from_bytes-to_bytes pairs two_pairs (9 ∷ []) 0 19 two_pairs-Fits

from_bytes-Checked_example :
    Checked (2 ∷ 0 ∷ 0 ∷ 0 ∷ 1 ∷ []) 0 5 (from_bytes pairs (2 ∷ 0 ∷ 0 ∷ 0 ∷ 1 ∷ []) 0 5)
from_bytes-Checked_example = from_bytes-Checked pairs (2 ∷ 0 ∷ 0 ∷ 0 ∷ 1 ∷ []) 0 5

-- One byte is available at offset 4, and the exception says 4.
from_all_short :
    from_all (field (trivial 4) (field (trivial 2) no_fields)) (2 ∷ 0 ∷ 0 ∷ 0 ∷ 1 ∷ [])
    ≡ out_of_range 4 2 4
unfolding from_all from_bytes
from_all_short = refl
