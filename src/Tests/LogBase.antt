-- ===== src/Tests/LogBase.antt =====
-- util::log_handler_base (src/util/log/log_handler_base.hpp) from a fresh handler.
use braincells.Common.{◌+◌, ◌*◌, ◌≡◌, refl}
use braincells.LogRing.{new_record, update}
use braincells.LogBase.{
  write, write_update, compress, unpack_hash, unpack_times, unpack_update_id, pack_data, count,
}

first_write : write 0 77 ≡ record { word = 77 * 4294967296 + 65536; wt = new_record; times = 1 }
unfolding write compress unpack_hash unpack_times pack_data count
first_write = refl

update_twice :
    write_update (write_update 0 3).word 3 ≡ record { word = 131075; wt = update; times = 2 }
unfolding write_update unpack_hash unpack_times unpack_update_id pack_data count
update_twice = refl
