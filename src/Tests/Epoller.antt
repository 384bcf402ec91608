-- ===== src/Tests/Epoller.antt =====
-- The epoller over a system that writes down its calls.
use braincells.Common.{ℕ, ◌+◌, ◌*◌, ◌^◌, ◌≡◌, refl, true, false, none, some, List, [], ◌∷◌, arith}
use braincells.Epoller.Calls.{keep_on, shutdown, EpollData, System}
use braincells.Epoller.{
  ok, epoll_have_handler, epoll_unpack_fd_ptr, check_group_type, pack_group, Handlers,
  remove_handler, del_result, remove_fd, after_handler, call_group, handle_event, wait_loop, wait,
}
use braincells.Epoller.Dispatch.{handle_event-large_id}
use braincells.Epoller.Shutdown.{by_group, wait-shutdown, and_result}
use braincells.Epoller.Thread.{
  idle, joining, waiting, ending, thread, start_first, spawn_first, stop_first, write_byte, join,
  pipe_event, handler_shutdown, leave_loop, Reach, at_first, later,
}
use braincells.Epoller.Thread.Life.{
  StopReturns, IsConsistent, Reach-IsConsistent, Reach-StopReturns,
}

abbrev six : List EpollData
six = record { events = 1; userdata = 6 * 2 ^ 40 + 3 } ∷ []

-- Two events of the group 0, with the ids 5 and 6, of the descriptor 3.
abbrev two_events : List EpollData
two_events = record { events = 1; userdata = pack_group 3 0 5 } ∷ six

abbrev notes : System
notes = record {
  World = List ℕ;
  ctl_add = λ w fd events word. (none, word ∷ w);
  ctl_del = λ w fd. (none, (1000 + fd) ∷ w);
  epoll_wait = λ w. (none, two_events, w);
  call_at = λ ptr fd events w. (keep_on, (2000 + ptr) ∷ w);
}

-- It notes the id, and asks for the shutdown.
abbrev stopping : Handlers notes
stopping = some (λ id fd events w. (shutdown, id ∷ w)) ∷ []

both_events_handled : wait notes stopping [] ≡ (ok false, 6 ∷ 5 ∷ [])
unfolding wait wait_loop handle_event after_handler call_group epoll_have_handler
    epoll_unpack_fd_ptr pack_group
both_events_handled = refl

-- Without a handler the descriptor is del_result.
wait_removes : wait notes (remove_handler notes stopping 0).1 [] ≡ (ok true, 1003 ∷ 1003 ∷ [])
unfolding wait wait_loop handle_event after_handler call_group epoll_have_handler
    epoll_unpack_fd_ptr remove_handler check_group_type remove_fd del_result pack_group
wait_removes = refl

handle_event-large_id_example :
    handle_event notes stopping
      (record { events = 1; userdata = pack_group 3 0 (2 ^ 23 + 300) })
      true
      []
    ≡ after_handler notes true 1 ((keep_on, (2000 + (3 + 44 * 2 ^ 40)) ∷ []))
handle_event-large_id_example =
    handle_event-large_id notes stopping 3 1 0 (2 ^ 23 + 300) true [] (omega arith) (omega arith)
      (omega arith) (omega arith)

wait-shutdown_example :
    wait notes stopping [] ≡ and_result notes false (wait_loop notes stopping six true (5 ∷ []))
unfolding wait_loop
wait-shutdown_example =
    wait-shutdown notes stopping [] six (pack_group 3 0 5) 1 (λ events w. (shutdown, 5 ∷ w)) [] []
      [] (5 ∷ []) true refl refl
      (by_group 3 0 5 (λ id fd events w. (shutdown, id ∷ w)) (omega arith) (omega arith)
        (omega arith) refl)
      refl

loop_started : Reach (thread idle waiting true false 0)
loop_started = later (later at_first start_first) spawn_first

byte_written : Reach (thread joining waiting true true 1)
byte_written = later (later loop_started stop_first) write_byte

-- A handler asks for the shutdown while `stop` is about to write: the byte stays in the pipe, and the
-- thread of the next `start` leaves its loop at once.
stale_byte : Reach (thread idle ending true false 0)
stale_byte =
    let stopped =
      later
        (later (later (later (later loop_started stop_first) handler_shutdown) write_byte)
          leave_loop)
        join in
    later (later (later stopped start_first) spawn_first) pipe_event

Reach-IsConsistent_example : IsConsistent (thread joining waiting true true 1)
Reach-IsConsistent_example = Reach-IsConsistent byte_written

Reach-StopReturns_example : StopReturns (thread joining waiting true true 1)
Reach-StopReturns_example = Reach-StopReturns byte_written
