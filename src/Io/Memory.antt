-- ===== src/Io/Memory.antt =====
-- core::io::rw_impl of src/core/io/rw_impl.hpp over a container of bytes, the back end of the streams
-- that write to and read from memory.
pub mod Laws
use braincells.Common.{
  ℕ, ◌+◌, ◌-◌, Bool, true, false, List, ◌++◌, Option, none, some, length, take, drop, replicate,
  if◌then◌else◌, ltb, leb,
}
use braincells.Io.{copy_at, slice}
use braincells.Io.Backend.{Whence, cur, set, end}

pub record Memory : Type 0 where
  pub storage : List ℕ
  pub pos : ℕ

-- Writes and seeks leave `pos` inside the container, so the difference does not wrap.
unfoldable pub avail : Memory → ℕ
avail m = length m.storage - m.pos

-- `storage.resize(n)`
unfoldable pub resize : List ℕ → ℕ → List ℕ
resize storage n = take n storage ++ replicate (n - length storage) 0

-- `none` is a write outside the container, also one of no byte, whose address is outside already.
unfoldable pub handle_write : Memory → List ℕ → Option (ℕ × Memory)
unfolding resize copy_at
handle_write m bytes =
    let p : ℕ = length m.storage in
    let grown : List ℕ = resize m.storage (m.pos + length bytes) in
    if leb (p + length bytes) (length grown)
    then some (length bytes, record { storage = copy_at grown p bytes; pos = m.pos + length bytes })
    else none

unfoldable pub handle_read : Memory → ℕ → List ℕ × Memory
unfolding avail slice
handle_read m size =
    let sz : ℕ = if ltb size (avail m) then size else avail m in
    (slice m.storage m.pos sz, record m { pos = m.pos + sz })

-- `handle_seek` to a position that is not negative, given the two parts of `off_t offset`; `none` is
-- `errc::einval`. The sum is taken to fit in `off_t`.
unfoldable pub clamp : Memory → ℕ → ℕ → Memory
clamp m plus minus = record m {
  pos =
      if ltb plus minus
      then 0
      else if ltb (length m.storage) (plus - minus)
      then length m.storage
      else plus - minus;
}

unfoldable pub handle_seek : Memory → ℕ → ℕ → Whence → Option Memory
unfolding clamp
handle_seek m plus minus cur = some (clamp m (m.pos + plus) minus)
handle_seek m plus minus set = some (clamp m plus minus)
handle_seek m plus minus end = none
