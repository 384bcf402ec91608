-- ===== src/Epoller.antt =====
-- core::epoller of src/core/epoller.hpp: the word that is given to epoll_ctl holds either a descriptor and
-- the address of a function, under the highest bit, or a descriptor, a group and an id.
pub mod Calls
pub mod Words
pub mod Dispatch
pub mod Shutdown
pub mod Thread
use braincells.Common.{
  ℕ, ◌+◌, ◌*◌, ◌/◌, ◌%◌, ◌^◌, bit_or, Bool, true, false, ◌&&◌, Option, none, some, List, [], ◌∷◌,
  length, get_elem?, set, if◌then◌else◌, ltb, ◌==◌, word64,
}
use braincells.Epoller.Calls.{HandlerResult, keep_on, remove, shutdown, EpollData, System}

-- What ends a call: a system call's error, a descriptor or a group out of range, or an access outside
-- of the array of handlers, which the code does not check.
pub data Error : Type 0 where
  errc : ℕ → Error
  pack_fd_ptr invalid_group : ℕ → Error
  out_of_bounds : Error

pub data Result (A : Type 0) : Type 0 where
  ok : A → Result A
  error : Error → Result A

-- ENOENT
abbrev enoent : ℕ
enoent = 2

-- A descriptor is the `u64` that it is cast to.
unfoldable pub epoll_pack_fd_ptr : ℕ → ℕ → Result ℕ
epoll_pack_fd_ptr fd ptr =
    if ltb 32767 fd
    then error (pack_fd_ptr fd)
    else ok (bit_or (bit_or ptr (fd * 2 ^ 48 % word64)) (2 ^ 63))

unfoldable pub epoll_have_handler : ℕ → Bool
epoll_have_handler word = word / 2 ^ 63 % 2 == 1

unfoldable pub epoll_unpack_fd_ptr : ℕ → ℕ × ℕ
epoll_unpack_fd_ptr word = let packed : ℕ = word % 2 ^ 63 in (packed / 2 ^ 48, packed % 2 ^ 48)

unfoldable pub check_group_type : ℕ → ℕ → Result ℕ
check_group_type max_groups group =
    if ltb group max_groups then ok group else error (invalid_group group)

-- The word of `add`.
unfoldable pub pack_group : ℕ → ℕ → ℕ → ℕ
pack_group fd group id = bit_or (bit_or fd (group * 2 ^ 32 % word64)) (id * 2 ^ 40 % word64)

module _ (system : System) where
  open system use {World, ctl_add, ctl_del, epoll_wait, call_at}

  -- A handler gets the id, the descriptor and the events.
  abbrev pub Handler : Type 0
  Handler = ℕ → ℕ → ℕ → World → HandlerResult × World

  -- `_handlers`, one for each of the `max_groups` groups.
  abbrev pub Handlers : Type 0
  Handlers = List (Option Handler)

  -- `throw_if_error`
  unfoldable pub throw_if_error : Option ℕ → Result Unit
  throw_if_error none = ok tt
  throw_if_error (some e) = error (errc e)

  unfoldable pub add_with_dedicated_handler : ℕ → ℕ → ℕ → World → Result Unit × World
  unfolding epoll_pack_fd_ptr throw_if_error
  add_with_dedicated_handler fd events handler w = elim (epoll_pack_fd_ptr fd handler) [
    | error e ↦ (error e, w)
    | ok word ↦ let (e, w') = ctl_add w fd events word in (throw_if_error e, w')
  ]

  unfoldable pub add : ℕ → ℕ → ℕ → ℕ → ℕ → World → Result Unit × World
  unfolding check_group_type pack_group throw_if_error
  add max_groups fd events group id w = elim (check_group_type max_groups group) [
    | error e ↦ (error e, w)
    | ok grp ↦ let (e, w') = ctl_add w fd events (pack_group fd grp id) in (throw_if_error e, w')
  ]

  unfoldable pub add_handler : Handlers → ℕ → Handler → Result Unit × Handlers
  unfolding check_group_type
  add_handler handlers group handler = elim (check_group_type (length handlers) group) [
    | error e ↦ (error e, handlers)
    | ok grp ↦ (ok tt, set handlers grp (some handler))
  ]

  unfoldable pub remove_handler : Handlers → ℕ → Result Unit × Handlers
  unfolding check_group_type
  remove_handler handlers group = elim (check_group_type (length handlers) group) [
    | error e ↦ (error e, handlers)
    | ok grp ↦ (ok tt, set handlers grp none)
  ]

  -- What `remove` makes of the error of epoll_ctl_del.
  unfoldable pub del_result : Option ℕ → Result Bool
  del_result none = ok true
  del_result (some e) = if e == enoent then ok false else error (errc e)

  unfoldable pub remove_fd : ℕ → World → Result Bool × World
  unfolding del_result
  remove_fd fd w = let (e, w') = ctl_del w fd in (del_result e, w')

  -- An exception leaves the loop.
  abbrev pub unless_error :
      Result Bool × World → (Bool → World → Result Bool × World) → Result Bool × World
  unless_error (ok b, w) f = f b w
  unless_error (error e, w) f = (error e, w)

  -- What `wait` does with the result of a handler: the new `result`, or what `remove` throws.
  unfoldable pub after_handler : Bool → ℕ → HandlerResult × World → Result Bool × World
  unfolding remove_fd
  after_handler result fd (remove, w) =
      unless_error (remove_fd fd w) λ (_ : Bool) w'. (ok result, w')
  after_handler result fd (keep_on, w) = (ok (result && true), w)
  after_handler result fd (shutdown, w) = (ok (result && false), w)

  -- The handler of a group, if the array has that index.
  unfoldable pub call_group :
      Option (Option Handler) → Bool → ℕ → ℕ → ℕ → World → Result Bool × World
  unfolding after_handler remove_fd
  call_group none result id fd events w = (error out_of_bounds, w)
  call_group (some (some handler)) result id fd events w =
      after_handler result fd (handler id fd events w)
  call_group (some none) result id fd events w = after_handler result fd (remove, w)

  -- The body of the loop of `wait`.
  unfoldable pub handle_event : Handlers → EpollData → Bool → World → Result Bool × World
  unfolding epoll_have_handler epoll_unpack_fd_ptr after_handler call_group
  handle_event handlers event result w =
      let word : ℕ = event.userdata in
      let (fd, ptr) = epoll_unpack_fd_ptr word in
      let group : ℕ = word / 2 ^ 32 % 2 ^ 8 in
      if epoll_have_handler word
      then after_handler result fd (call_at ptr fd event.events w)
      else if ltb (length handlers) group
      then (error (invalid_group group), w)
      else call_group (get_elem? handlers group) result (word / 2 ^ 40) (word % 2 ^ 32) event.events
          w

  unfoldable pub wait_loop : Handlers → List EpollData → Bool → World → Result Bool × World
  unfolding handle_event
  wait_loop handlers [] result w = (ok result, w)
  wait_loop handlers (event ∷ events) result w =
      unless_error (handle_event handlers event result w) (wait_loop handlers events)

  unfoldable pub wait : Handlers → World → Result Bool × World
  unfolding wait_loop
  wait handlers w =
      let (failure, events, w') = epoll_wait w in
      elim failure [ some e ↦ (error (errc e), w') | none ↦ wait_loop handlers events true w' ]
