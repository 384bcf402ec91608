-- ===== src/LogBase.antt =====
-- util::log_handler_base of src/util/log/log_handler_base.hpp: the atomic word that tells repeated
-- messages and updates from new ones. `|` of parts that share no bit is their sum.
pub mod Repeats
use braincells.Common.{
  ℕ, ◌+◌, ◌*◌, ◌/◌, ◌%◌, ◌^◌, bit_xor, Bool, true, false, if◌then◌else◌, ◌==◌, word32,
}
use braincells.LogRing.{WriteType, new_record, write_same, update}

unfoldable pub unpack_hash : ℕ → ℕ
unpack_hash v = v / 2 ^ 32 % word32

unfoldable pub unpack_times : ℕ → ℕ
unpack_times v = v / 2 ^ 16 % 2 ^ 16

unfoldable pub unpack_update_id : ℕ → ℕ
unpack_update_id v = v % 2 ^ 16

unfoldable pub pack_data : ℕ → ℕ → ℕ → ℕ
pack_data comphash times update_id = comphash * 2 ^ 32 + times * 2 ^ 16 + update_id

unfoldable pub compress : ℕ → ℕ
compress msg_hash = bit_xor (msg_hash % 2 ^ 32) (msg_hash / 2 ^ 32) % word32

-- `if (same_times != limits<u16>::max()) ++same_times;`
unfoldable pub count : ℕ → ℕ
count same_times = if same_times == 65535 then same_times else same_times + 1

-- The word stored, and what is handed to `write_handler`.
pub record Write : Type 0 where
  pub word : ℕ
  pub wt : WriteType
  pub times : ℕ

unfoldable pub write : ℕ → ℕ → Write
unfolding compress unpack_hash unpack_times pack_data count
write d msg_hash =
    let same : Bool = compress msg_hash == unpack_hash d in
    let times : ℕ = count (if same then unpack_times d else 0) in
    record {
      word = pack_data (compress msg_hash) times 0;
      wt = if same then write_same else new_record;
      times = times;
    }

unfoldable pub write_update : ℕ → ℕ → Write
unfolding unpack_hash unpack_times unpack_update_id pack_data count
write_update d update_id =
    let same : Bool = update_id == unpack_update_id d in
    let times : ℕ = count (if same then unpack_times d else 0) in
    record {
      word = pack_data (unpack_hash d) times update_id;
      wt = if same then update else new_record;
      times = times;
    }
