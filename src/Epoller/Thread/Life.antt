-- ===== src/Epoller/Thread/Life.antt =====
-- The life of the thread of core::epoller_thread (src/core/epoller.hpp).
use braincells.Common.{
  ℕ, zero, suc, ◌≡◌, ◌<◌, refl, sym, ap, ◌∙◌, Bool, true, false, Option, some, none, arith,
}
use mathlib.Core.Option.{none-ne-some}
use braincells.Epoller.Thread.{
  Caller, idle, starting, signalling, joining, Worker, absent, waiting, ending, ended, ThreadState,
  thread, Step, start_again, start_first, spawn_first, spawn_next, stop_idle, stop_first,
  write_byte, join, pipe_event, handler_shutdown, leave_loop, Reach, at_first, later,
}

-- What `running` is, or none where the two threads cannot be at these places together.
unfoldable pub expected : Caller → Worker → Option Bool
expected idle absent = some false
expected idle ended = some false
expected idle _ = some true
expected starting absent = some true
expected starting ended = some true
expected starting _ = none
expected _ absent = none
expected _ ended = some false
expected _ _ = some true

-- While `stop` waits for a thread in its loop, the event is there to be reported.
abbrev pub IsSignalled : Caller → Worker → Bool → Type 0
IsSignalled joining waiting e = e ≡ true
IsSignalled _ _ e = Unit

pub record Consistent (c : Caller) (w : Worker) (r e : Bool) (p : ℕ) : Type 0 where
  pub flag : expected c w ≡ some r
  pub readable : e ≡ true → 0 < p
  pub signalled : IsSignalled c w e

abbrev pub IsConsistent : ThreadState → Type 0
IsConsistent (thread c w r e p) = Consistent c w r e p

contradiction : {A : Type 0} → some true ≡ some false → A
contradiction e = cc

ending-waiting : (c : Caller) → expected c ending ≡ expected c waiting
unfolding expected
ending-waiting idle = refl
ending-waiting starting = refl
ending-waiting signalling = refl
ending-waiting joining = refl

no_signal : (c : Caller) (e : Bool) → IsSignalled c ending e
no_signal idle e = tt
no_signal starting e = tt
no_signal signalling e = tt
no_signal joining e = tt

Step-IsConsistent : {s t : ThreadState} → Step s t → IsConsistent s → IsConsistent t
unfolding expected
Step-IsConsistent start_again h = h
Step-IsConsistent (start_first {w = absent}) h = record {
  flag = refl;
  readable = h.readable;
  signalled = tt;
}
Step-IsConsistent (start_first {w = ended}) h = record {
  flag = refl;
  readable = h.readable;
  signalled = tt;
}
Step-IsConsistent (start_first {w = waiting}) h = contradiction h.flag
Step-IsConsistent (start_first {w = ending}) h = contradiction h.flag
Step-IsConsistent spawn_first h = record { flag = h.flag; readable = h.readable; signalled = tt }
Step-IsConsistent spawn_next h = record { flag = h.flag; readable = h.readable; signalled = tt }
Step-IsConsistent stop_idle h = h
Step-IsConsistent (stop_first {w = absent}) h = contradiction (sym h.flag)
Step-IsConsistent (stop_first {w = ended}) h = contradiction (sym h.flag)
Step-IsConsistent (stop_first {w = waiting}) h = record {
  flag = refl;
  readable = h.readable;
  signalled = tt;
}
Step-IsConsistent (stop_first {w = ending}) h = record {
  flag = refl;
  readable = h.readable;
  signalled = tt;
}
Step-IsConsistent (write_byte {w = absent}) h = absurd (none-ne-some _ h.flag)
Step-IsConsistent (write_byte {w = ended}) h = record {
  flag = h.flag;
  readable = λ _. omega arith;
  signalled = tt;
}
Step-IsConsistent (write_byte {w = waiting}) h = record {
  flag = h.flag;
  readable = λ _. omega arith;
  signalled = refl;
}
Step-IsConsistent (write_byte {w = ending}) h = record {
  flag = h.flag;
  readable = λ _. omega arith;
  signalled = tt;
}
Step-IsConsistent join h = record { flag = h.flag; readable = h.readable; signalled = tt }
Step-IsConsistent (pipe_event {c = c}) h = record {
  flag = ending-waiting c ∙ h.flag;
  readable = λ e. cc;
  signalled = no_signal c _;
}
Step-IsConsistent (handler_shutdown {c = c}) h = record {
  flag = ending-waiting c ∙ h.flag;
  readable = h.readable;
  signalled = no_signal c _;
}
Step-IsConsistent (leave_loop {c = idle}) h = record {
  flag = refl;
  readable = h.readable;
  signalled = tt;
}
Step-IsConsistent (leave_loop {c = starting}) h = absurd (none-ne-some _ h.flag)
Step-IsConsistent (leave_loop {c = signalling}) h = record {
  flag = refl;
  readable = h.readable;
  signalled = tt;
}
Step-IsConsistent (leave_loop {c = joining}) h = record {
  flag = refl;
  readable = h.readable;
  signalled = tt;
}

-- In every state that calls of start and stop and the thread reach, `running` is true exactly while a
-- thread is in or behind its loop or `start` is about to make one; `start` never makes a second thread
-- beside one that runs, and `stop` never joins a thread that is not there; the pipe has a byte for its
-- handler to read whenever epoll reports it, and epoll has an event to report while `stop` waits for a
-- thread in the loop.
pub Reach-IsConsistent : {s : ThreadState} → Reach s → IsConsistent s
unfolding expected
Reach-IsConsistent at_first = record { flag = refl; readable = λ e. cc; signalled = tt }
Reach-IsConsistent (later before step) = Step-IsConsistent step (Reach-IsConsistent before)

-- The steps that `stop` still waits for.
unfoldable pub steps_left : ThreadState → ℕ
steps_left (thread joining waiting r e p) = 3
steps_left (thread joining ending r e p) = 2
steps_left (thread joining ended r e p) = 1
steps_left _ = 0

-- Whether a step waits for nothing: a handler need not ask for the shutdown.
abbrev pub is_forced : {s t : ThreadState} → Step s t → Bool
is_forced handler_shutdown = false
is_forced _ = true

-- `stop` returns on every way from here: some step waits for nothing, and it returns behind each.
pub data StopReturns : ThreadState → Type 0 where
  returned : {w : Worker} {r e : Bool} {p : ℕ} → StopReturns (thread idle w r e p)
  waits :
      {s t : ThreadState} (step : Step s t)
      → is_forced step ≡ true
      → ((u : ThreadState) → Step s u → StopReturns u)
      → StopReturns s

behind_ended :
    {r e : Bool} {p : ℕ} {u : ThreadState} → Step (thread joining ended r e p) u → StopReturns u
behind_ended join = returned

behind_ending :
    {r e : Bool} {p : ℕ} {u : ThreadState} → Step (thread joining ending r e p) u → StopReturns u
behind_ending leave_loop = waits join refl (λ u step. behind_ended step)

behind_waiting :
    {r e : Bool} {p : ℕ} {u : ThreadState} → Step (thread joining waiting r e p) u → StopReturns u
behind_waiting pipe_event = waits leave_loop refl (λ u step. behind_ending step)
behind_waiting handler_shutdown = waits leave_loop refl (λ u step. behind_ending step)

Consistent-StopReturns :
    (w : Worker) (r e : Bool) (p : ℕ)
    → Consistent joining w r e p
    → StopReturns (thread joining w r e p)
unfolding expected
Consistent-StopReturns absent r e p h = absurd (none-ne-some _ h.flag)
Consistent-StopReturns waiting r true (suc p) h =
    waits pipe_event refl (λ u step. behind_waiting step)
Consistent-StopReturns waiting r true zero h = absurd (omega (arith, h.readable refl))
Consistent-StopReturns waiting r false p h = contradiction (ap some (sym h.signalled))
Consistent-StopReturns ending r e p h = waits leave_loop refl (λ u step. behind_ending step)
Consistent-StopReturns ended r e p h = waits join refl (λ u step. behind_ended step)

-- Once `stop` has written its byte it returns, whatever the thread does: a step can always be taken that
-- needs no handler to ask for the shutdown, and the steps come to an end.
pub Reach-StopReturns :
    {w : Worker} {r e : Bool} {p : ℕ}
    → Reach (thread joining w r e p)
    → StopReturns (thread joining w r e p)
Reach-StopReturns {w} {r} {e} {p} reach = Consistent-StopReturns w r e p (Reach-IsConsistent reach)
