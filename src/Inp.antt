-- ===== src/Inp.antt =====
-- Input states of src/inp: what an event thread writes and a consumer reads or takes. Each operation
-- on one block is one atomic step of the source (state_block.hpp); memory orders are not modelled.
pub mod KeyState
pub mod KeyIterator
pub mod KeySwitch
pub mod RelativeState
use braincells.Common.{ℕ, ◌+◌, ◌-◌, ◌%◌, ◌^◌, bit_or, bit_and}

-- The operations of a block of `w` bits: `fetch_add`, `fetch_or`, `fetch_and` with a complemented
-- mask. `load` is the value and `exchange` the value and its replacement.
unfoldable pub fetch_add : ℕ → ℕ → ℕ → ℕ
fetch_add w block val = (block + val) % 2 ^ w

unfoldable pub fetch_or : ℕ → ℕ → ℕ
fetch_or block val = bit_or block val

unfoldable pub fetch_and : ℕ → ℕ → ℕ
fetch_and block val = bit_and block val

-- `~mask`
unfoldable pub complement : ℕ → ℕ → ℕ
complement w mask = 2 ^ w - 1 - mask
