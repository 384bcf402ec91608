-- ===== src/LogBase/Repeats.antt =====
-- A repeated message is counted (src/util/log/log_handler_base.hpp).
use braincells.Common.{
  ℕ, ◌+◌, ◌≡◌, ◌<◌, ◌≤◌, refl, min, true, ◌==◌, ==_iff, if◌then◌else◌, arith, word32,
}
use braincells.LogRing.{write_same}
use braincells.LogBase.{write, compress, unpack_hash, unpack_times, pack_data, count}

compress_lt : (h : ℕ) → compress h < word32
unfolding compress
compress_lt h = omega arith

count_lem : (n : ℕ) → n ≤ 65535 → count n ≡ min 65535 (n + 1)
unfolding count
count_lem n h = ground arith

unpack-pack :
    (h t : ℕ)
    → h < word32
    → t ≤ 65535
    → (unpack_hash (pack_data h t 0) ≡ h) × (unpack_times (pack_data h t 0) ≡ t)
unfolding unpack_hash unpack_times pack_data
unpack-pack h t hh ht = (omega arith, omega arith)

write_times : (d h : ℕ) → (write d h).times ≤ 65535
unfolding write unpack_times
write_times d h =
    let n : ℕ = if compress h == unpack_hash d then unpack_times d else 0 in
    omega (arith, count_lem n (ground arith))

-- A message written again is a repeat, counted once more up to the largest 16-bit number, whatever was
-- written before.
pub write-write :
    (d h : ℕ)
    → let w = write (write d h).word h in
      (w.wt ≡ write_same) × (w.times ≡ min 65535 ((write d h).times + 1))
unfolding write
write-write d h =
    let t : ℕ = (write d h).times in
    let u = unpack-pack (compress h) t (compress_lt h) (write_times d h) in
    let self : (compress h == compress h) ≡ true = (==_iff (compress h) (compress h)).1 refl in
    rw (u.0, u.1, self) (refl, count_lem t (write_times d h))
