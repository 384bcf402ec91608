-- ===== src/Io/Out.antt =====
-- core::io::out_base of src/core/io/out_base.hpp: a buffer of `bs` bytes before a sink.
pub mod Laws
use braincells.Common.{
  ℕ, ◌+◌, ◌-◌, Bool, true, false, List, [], ◌∷◌, length, if◌then◌else◌, ltb, leb, ◌==◌, take, drop,
}
use braincells.Io.{copy_at, slice}
use braincells.Io.Backend.{Sink, Whence, cur, set, end}

-- A call returns, or throws `partial_write_error` with the number of bytes that were written.
pub data Outcome : Type 0 where
  done : Outcome
  partial_write : ℕ → Outcome

module _ (sink : Sink) where
  open sink use {State, handle_write}

  pub record OutBase : Type 0 where
    pub base : State
    pub pos : ℕ
    pub buff : List ℕ

  -- Bytes that the buffer holds back.
  abbrev pub pending : OutBase → List ℕ
  pending o = take o.pos o.buff

  unfoldable pub flush : OutBase → Outcome × OutBase
  unfolding copy_at slice
  flush o =
      if o.pos == 0
      then (done, o)
      else let (wrote, base) = handle_write o.base (take o.pos o.buff) in
        if wrote == o.pos then (done, record o { base = base; pos = 0 }) else (
          partial_write wrote,
          record o { base = base; buff = copy_at o.buff 0 (slice o.buff wrote (o.pos - wrote)) },
        )

  -- The write that bypasses the buffer.
  unfoldable pub write_through : OutBase → List ℕ → Outcome × OutBase
  write_through o bytes =
      let (wrote, base) = handle_write o.base bytes in
      (if wrote == length bytes then done else partial_write wrote, record o { base = base })

  unfoldable pub store : OutBase → List ℕ → Outcome × OutBase
  unfolding copy_at
  store o bytes = (done, record o { buff = copy_at o.buff o.pos bytes; pos = o.pos + length bytes })

  -- A call after `flush()`, unless that throws.
  abbrev pub and_then : Outcome × OutBase → (OutBase → Outcome × OutBase) → Outcome × OutBase
  and_then (done, o) f = f o
  and_then (partial_write n, o) f = (partial_write n, o)

  unfoldable pub clear_buffer : OutBase → OutBase
  clear_buffer o = record o { pos = 0 }

  module _ (bs : ℕ) where
    unfoldable pub write : OutBase → List ℕ → Outcome × OutBase
    unfolding write_through store
    write o bytes =
        if leb bs (length bytes)
        then and_then (flush o) (λ p. write_through p bytes)
        else if ltb (bs - o.pos) (length bytes)
        then and_then (flush o) (λ p. store p bytes)
        else store o bytes

    -- A range of values, and the call with several arguments.
    unfoldable pub write_all : OutBase → List (List ℕ) → Outcome × OutBase
    write_all o [] = (done, o)
    write_all o (v ∷ vs) = and_then (write o v) (λ p. write_all p vs)

-- How `seek` ends: with the stream, with the exception of the flush, or with errc::einval.
pub data Sought (sink : Sink) : Type 0 where
  sought : OutBase sink → Sought sink
  not_flushed : ℕ → OutBase sink → Sought sink
  invalid : OutBase sink → Sought sink

-- `seek`, over the `handle_seek` of the sink; `off_t offset` is the difference of two numbers.
module _ (sink : Sink) (handle_seek : sink.State → ℕ → ℕ → Whence → sink.State) where
  unfoldable pub seek_flushed : OutBase sink → ℕ → ℕ → Whence → Sought sink
  seek_flushed o plus minus end = invalid o
  seek_flushed o plus minus cur = sought (record o { base = handle_seek o.base plus minus cur })
  seek_flushed o plus minus set = sought (record o { base = handle_seek o.base plus minus set })

  unfoldable pub seek : OutBase sink → ℕ → ℕ → Whence → Sought sink
  unfolding flush seek_flushed
  seek o plus minus whence =
      let (outcome, flushed) = flush sink o in
      elim outcome [
        | done ↦ seek_flushed flushed plus minus whence
        | partial_write wrote ↦ not_flushed wrote flushed
      ]
