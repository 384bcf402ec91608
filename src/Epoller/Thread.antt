-- ===== src/Epoller/Thread.antt =====
-- core::epoller_thread of src/core/epoller.hpp: `start` and `stop`, called from one thread, and the thread
-- that waits, as steps between which the other thread can run.
pub mod Life
use braincells.Common.{ℕ, zero, suc, ◌-◌, Bool, true, false}

-- Where the calling thread is: outside of both calls, in `start` behind the exchange of `running`, in
-- `stop` behind its load, or in `stop` behind the write.
pub data Caller : Type 0 where
  idle starting signalling joining : Caller

-- `t`: no thread, one in the loop, one behind the loop, or one that has ended and is not joined.
pub data Worker : Type 0 where
  absent waiting ending ended : Worker

-- The two threads, `running`, whether epoll has an event of the pipe to report, and the bytes in the pipe.
pub data ThreadState : Type 0 where
  thread : Caller → Worker → Bool → Bool → ℕ → ThreadState

-- The pipe is registered as edge-triggered: an event is reported once for a write.
pub data Step : ThreadState → ThreadState → Type 0 where
  start_again :
      {w : Worker} {e : Bool} {p : ℕ} → Step (thread idle w true e p) (thread idle w true e p)
  start_first :
      {w : Worker} {e : Bool} {p : ℕ} → Step (thread idle w false e p) (thread starting w true e p)
  -- The assignment to `t` joins the thread that was there.
  spawn_first :
      {r e : Bool} {p : ℕ} → Step (thread starting absent r e p) (thread idle waiting r e p)
  spawn_next : {r e : Bool} {p : ℕ} → Step (thread starting ended r e p) (thread idle waiting r e p)
  stop_idle :
      {w : Worker} {e : Bool} {p : ℕ} → Step (thread idle w false e p) (thread idle w false e p)
  stop_first :
      {w : Worker} {e : Bool} {p : ℕ} → Step (thread idle w true e p) (thread signalling w true e p)
  write_byte :
      {w : Worker} {r e : Bool} {p : ℕ}
      → Step (thread signalling w r e p) (thread joining w r true (suc p))
  join : {r e : Bool} {p : ℕ} → Step (thread joining ended r e p) (thread idle absent r e p)
  -- The handler of the pipe reads up to 64 bytes, and blocks if there is none.
  pipe_event :
      {c : Caller} {r : Bool} {p : ℕ}
      → Step (thread c waiting r true (suc p)) (thread c ending r false (suc p - 64))
  -- Another handler asks for the shutdown.
  handler_shutdown :
      {c : Caller} {r e : Bool} {p : ℕ} → Step (thread c waiting r e p) (thread c ending r e p)
  leave_loop :
      {c : Caller} {r e : Bool} {p : ℕ} → Step (thread c ending r e p) (thread c ended false e p)

abbrev pub constructed : ThreadState
constructed = thread idle absent false false 0

pub data Reach : ThreadState → Type 0 where
  at_first : Reach constructed
  later : {s t : ThreadState} → Reach s → Step s t → Reach t
