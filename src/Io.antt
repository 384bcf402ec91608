-- ===== src/Io.antt =====
-- The buffered streams of src/core/io: out_base.hpp, in_base.hpp and, for a container as the base, the
-- back end of rw_impl.hpp. Bytes are numbers; a buffer is the list of the bytes of its array.
pub mod Backend
pub mod Copies
pub mod Out
pub mod In
pub mod Memory
use braincells.Common.{ℕ, ◌+◌, List, ◌++◌, length, take, drop}

-- `memcpy(buff + pos, data, size)` inside the array.
unfoldable pub copy_at : List ℕ → ℕ → List ℕ → List ℕ
copy_at buff pos bytes = take pos buff ++ (bytes ++ drop (pos + length bytes) buff)

-- The `size` bytes from `pos` on.
unfoldable pub slice : List ℕ → ℕ → ℕ → List ℕ
slice buff pos size = take size (drop pos buff)
