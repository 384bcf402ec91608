-- ===== src/Epoller/Words.antt =====
-- The words that src/core/epoller.hpp registers with epoll, and what `wait` reads from them.
use native.Mathlib.Nat.{mod-eq_of_lt}
use braincells.Common.{
  ℕ, ◌+◌, ◌*◌, ◌/◌, ◌%◌, ◌^◌, ◌≡◌, ◌<◌, ◌≤◌, refl, ap, ap₂, ◌∙◌, true, false, bit_or, arith, word64,
  ltb, lt→ltb,
}
use braincells.Common.Bits.{bit_or-shift}
use braincells.Epoller.{
  ok, error, pack_fd_ptr, epoll_pack_fd_ptr, epoll_have_handler, epoll_unpack_fd_ptr, pack_group,
}

or_shifted :
    (k a b : ℕ) → b < 2 ^ k → a * 2 ^ k < word64 → bit_or b (a * 2 ^ k % word64) ≡ b + a * 2 ^ k
or_shifted k a b h small =
    ap (bit_or b) {x = a * 2 ^ k % word64} {y = a * 2 ^ k} (mod-eq_of_lt small)
    ∙ bit_or-shift k a b h

-- A descriptor up to 32767 and an address of 48 bits are packed into a word from which `wait` reads
-- them back, and which it tells from the word of a group.
pub unpack-pack :
    (fd ptr : ℕ)
    → fd ≤ 32767
    → ptr < 2 ^ 48
    → (word : ℕ) × (epoll_pack_fd_ptr fd ptr ≡ ok word)
      × (epoll_have_handler word ≡ true)
      × (epoll_unpack_fd_ptr word ≡ (fd, ptr))
unfolding epoll_pack_fd_ptr epoll_have_handler epoll_unpack_fd_ptr
unpack-pack fd ptr h small =
    let low : bit_or ptr (fd * 2 ^ 48 % word64) ≡ ptr + fd * 2 ^ 48 =
      or_shifted 48 fd ptr small (omega arith) in
    let word : ℕ = ptr + fd * 2 ^ 48 + 2 ^ 63 in
    let whole : bit_or (bit_or ptr (fd * 2 ^ 48 % word64)) (2 ^ 63) ≡ word =
      ap (λ (t : ℕ). bit_or t (2 ^ 63)) low ∙ bit_or-shift 63 1 (ptr + fd * 2 ^ 48) (omega arith) in
    let fits : ltb 32767 fd ≡ false = ground arith in
    (
      word,
      rw fits (ap ok whole),
      ground arith,
      ap₂ (λ (a b : ℕ). (a, b)) {x = word % 2 ^ 63 / 2 ^ 48} {y = fd} {u = word % 2 ^ 63 % 2 ^ 48}
          {v = ptr} (omega arith) (omega arith),
    )

-- The word of `add` as a sum.
pub pack_group_lem :
    (fd group id : ℕ)
    → fd < 2 ^ 32
    → group < 2 ^ 8
    → id < 2 ^ 24
    → pack_group fd group id ≡ fd + group * 2 ^ 32 + id * 2 ^ 40
unfolding pack_group
pack_group_lem fd group id h g small =
    let low : bit_or fd (group * 2 ^ 32 % word64) ≡ fd + group * 2 ^ 32 =
      or_shifted 32 group fd h (omega arith) in
    ap (λ (t : ℕ). bit_or t (id * 2 ^ 40 % word64)) low
    ∙ or_shifted 40 id (fd + group * 2 ^ 32) (omega arith) (omega arith)

pub epoll_pack_fd_ptr-error :
    (fd ptr : ℕ) → 32767 < fd → epoll_pack_fd_ptr fd ptr ≡ error (pack_fd_ptr fd)
unfolding epoll_pack_fd_ptr
epoll_pack_fd_ptr-error fd ptr big = rw (lt→ltb 32767 fd big) refl
