-- ===== src/Io/In.antt =====
-- core::io::in_base of src/core/io/in_base.hpp: a buffer of `bs` bytes behind a source. The bytes that a
-- call copies into the caller's memory are part of its result.
pub mod Laws
pub mod Seek
use braincells.Common.{
  ℕ, zero, suc, ◌+◌, ◌-◌, ◌%◌, Bool, true, false, List, [], ◌∷◌, ◌++◌, length, if◌then◌else◌, ltb,
  ◌==◌, take, drop, leb, ◌&&◌, ◌>>=◌, Option, some, none,
}
use braincells.Io.{copy_at, slice}
use braincells.Io.Backend.{Source, Whence, cur, set, end}

-- `read` returns the number of bytes, or throws `partial_read_error` with it.
pub data Outcome : Type 0 where
  returned : ℕ → Outcome
  partial_read : ℕ → Outcome

-- `if (read % element_size) throw partial_read_error(read); return read;`
unfoldable pub whole_elements : ℕ → ℕ → Outcome
whole_elements element_size read =
    if read % element_size == 0 then returned read else partial_read read

module _ (source : Source) where
  open source use {State, handle_read}

  pub record InBase : Type 0 where
    pub base : State
    pub size : ℕ
    pub pos : ℕ
    pub buff : List ℕ

  -- The bytes that the buffer holds.
  abbrev pub buffered : InBase → List ℕ
  buffered i = take i.size (drop i.pos i.buff)

  unfoldable pub relocate_to : InBase → List ℕ × InBase
  unfolding slice
  relocate_to i = (slice i.buff i.pos i.size, record i { size = 0; pos = 0 })

  -- The read that serves what the buffer has and asks the source for the rest.
  unfoldable pub read_through : ℕ → InBase → ℕ → Outcome × List ℕ × InBase
  unfolding relocate_to whole_elements
  read_through element_size i data_sz =
      let (from_buff, i') = relocate_to i in
      let (from_backend, base) = handle_read i'.base (data_sz - length from_buff) in
      (
        whole_elements element_size (length from_buff + length from_backend),
        from_buff ++ from_backend,
        record i' { base = base },
      )

  unfoldable pub read_buffered : InBase → ℕ → Outcome × List ℕ × InBase
  unfolding slice
  read_buffered i data_sz = (
    returned data_sz,
    slice i.buff i.pos data_sz,
    record i { size = i.size - data_sz; pos = i.pos + data_sz },
  )

  unfoldable pub read_direct : ℕ → InBase → ℕ → Outcome × List ℕ × InBase
  unfolding whole_elements
  read_direct element_size i data_sz =
      let (bytes, base) = handle_read i.base data_sz in
      (whole_elements element_size (length bytes), bytes, record i { base = base })

  module _ (bs : ℕ) where
    unfoldable pub take_next : InBase → InBase
    unfolding copy_at
    take_next i =
        let (bytes, base) = handle_read i.base bs in
        record { base = base; size = length bytes; pos = 0; buff = copy_at i.buff 0 bytes }

    unfoldable pub read_filled : ℕ → InBase → ℕ → Outcome × List ℕ × InBase
    unfolding read_through read_buffered
    read_filled element_size i data_sz =
        if i.size == 0
        then (returned 0, [], i)
        else if ltb i.size data_sz
        then read_through element_size i data_sz
        else read_buffered i data_sz

    unfoldable pub read : ℕ → InBase → ℕ → Outcome × List ℕ × InBase
    read element_size i data_sz =
        if bs == 0
        then read_direct element_size i data_sz
        else read_filled element_size (if i.size == 0 then take_next i else i) data_sz

    -- `operator>>`: the loop that hands buffer after buffer to `out`, with fuel; the list is what `out`
    -- is given, in order.
    unfoldable pub drain_loop : ℕ → InBase → List (List ℕ) × InBase
    drain_loop zero i = ([], i)
    drain_loop (suc fuel) i =
        let j = take_next i in
        let rest : List (List ℕ) × InBase = drain_loop fuel (record j { size = 0 }) in
        let shown : List (List ℕ) = if j.size == 0 then [] else buffered j ∷ [] in
        if j.size == bs then (shown ++ rest.0, rest.1) else (shown, record j { size = 0 })

    unfoldable pub drain : ℕ → InBase → List (List ℕ) × InBase
    unfolding drain_loop
    drain fuel i =
        let (chunks, j) = drain_loop fuel i in
        ((if i.size == 0 then [] else buffered i ∷ []) ++ chunks, j)

-- `seek`, over the `handle_seek` of the back end; `off_t offset` is the difference of two numbers, and
-- none is the exception that either of them throws.
module _ (source : Source) (handle_seek : source.State → ℕ → ℕ → Whence → Option source.State) where
  unfoldable pub seek : InBase source → ℕ → ℕ → Whence → Option (InBase source)
  seek i plus minus cur =
      if ltb minus plus && leb (plus - minus) i.size
      then some (record i { pos = i.pos + (plus - minus); size = i.size - (plus - minus) })
      else (handle_seek i.base plus (minus + i.size) cur >>= λ base.
          some (record i { base = base; size = 0 }))
  seek i plus minus set =
      handle_seek i.base plus minus set >>= λ base. some (record i { base = base; size = 0 })
  seek i plus minus end = none
