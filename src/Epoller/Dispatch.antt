-- ===== src/Epoller/Dispatch.antt =====
-- How `wait` of src/core/epoller.hpp finds the handler of an event.
use braincells.Common.{
  ℕ, ◌+◌, ◌*◌, ◌/◌, ◌%◌, ◌^◌, ◌≡◌, ◌<◌, ◌≤◌, ap, ap₂, true, false, arith, Bool, ltb, ◌==◌, length,
  get_elem?, ◌-◌,
}
use braincells.Epoller.Calls.{System}
use braincells.Epoller.{
  Result, ok, error, pack_fd_ptr, epoll_have_handler, epoll_unpack_fd_ptr, pack_group, Handlers,
  throw_if_error, add_with_dedicated_handler, after_handler, call_group, handle_event,
}
use braincells.Epoller.Words.{unpack-pack, epoll_pack_fd_ptr-error, pack_group_lem}

ap₃ : {A : Type 0} (f : ℕ → ℕ → ℕ → A) {a b c d e g : ℕ} → a ≡ b → c ≡ d → e ≡ g → f a c e ≡ f b d g
ap₃ f p q r = λ i. f (p i) (q i) (r i)

module _ (system : System) where
  open system use {World, ctl_add, call_at}

  -- The word of a group, taken apart again.
  pub handle_event-pack_group :
      (handlers : Handlers system) (fd came group id : ℕ) (result : Bool) (w : World)
      → fd < 2 ^ 32
      → length handlers ≤ 255
      → id < 2 ^ 23
      → group < length handlers
      → handle_event system handlers
          (record { events = came; userdata = pack_group fd group id })
          result
          w
        ≡ call_group system (get_elem? handlers group) result id fd came w
  unfolding handle_event epoll_have_handler
  handle_event-pack_group handlers fd came group id result w hf hg hi here =
      let word : ℕ = fd + group * 2 ^ 32 + id * 2 ^ 40 in
      let packed : pack_group fd group id ≡ word =
        pack_group_lem fd group id hf (omega arith) (omega arith) in
      let same_group : word / 2 ^ 32 % 2 ^ 8 ≡ group = omega arith in
      let same_id : word / 2 ^ 40 ≡ id = omega arith in
      let same_fd : word % 2 ^ 32 ≡ fd = omega arith in
      let low : (word / 2 ^ 63 % 2 == 1) ≡ false = ground arith in
      let inside : ltb (length handlers) (word / 2 ^ 32 % 2 ^ 8) ≡ false = ground arith in
      rw (packed, low, inside)
        (ap₃ (λ (g i d : ℕ). call_group system (get_elem? handlers g) result i d came w) same_group
          same_id same_fd)

  -- An id of 24 bits, which the comment of the class allows, reaches the highest bit of the word:
  -- `wait` then calls a function at an address made of the descriptor, the group and the id.
  pub handle_event-large_id :
      (handlers : Handlers system) (fd events group id : ℕ) (result : Bool) (w : World)
      → fd < 2 ^ 32
      → group < 2 ^ 8
      → 2 ^ 23 ≤ id
      → id < 2 ^ 24
      → let other : ℕ = (id - 2 ^ 23) / 2 ^ 8 in
        handle_event system handlers
          (record { events = events; userdata = pack_group fd group id })
          result
          w
        ≡ after_handler system result other
            (call_at (fd + group * 2 ^ 32 + id % 2 ^ 8 * 2 ^ 40) other events w)
  unfolding handle_event epoll_have_handler epoll_unpack_fd_ptr
  handle_event-large_id handlers fd events group id result w hf hg lo hi =
      let word : ℕ = fd + group * 2 ^ 32 + id * 2 ^ 40 in
      let high : (word / 2 ^ 63 % 2 == 1) ≡ true = ground arith in
      let other : word % 2 ^ 63 / 2 ^ 48 ≡ (id - 2 ^ 23) / 2 ^ 8 = omega arith in
      let address : word % 2 ^ 63 % 2 ^ 48 ≡ fd + group * 2 ^ 32 + id % 2 ^ 8 * 2 ^ 40 =
        omega arith in
      rw (pack_group_lem fd group id hf hg hi, high)
        (ap₂ (λ (d p : ℕ). after_handler system result d (call_at p d events w)) other address)

  -- `add_with_dedicated_handler` registers a word for which `wait` calls the function with the
  -- descriptor; for a descriptor above 32767 it throws and registers nothing.
  pub handle_event-dedicated :
      (handlers : Handlers system) (fd events handler : ℕ) (w : World)
      → handler < 2 ^ 48
      → (fd ≤ 32767
          → (word : ℕ) × (add_with_dedicated_handler system fd events handler w
              ≡ (throw_if_error system (ctl_add w fd events word).0, (ctl_add w fd events word).1))
            × ((came : ℕ) (result : Bool) (w' : World)
                → handle_event system handlers (record { events = came; userdata = word }) result w'
                  ≡ after_handler system result fd (call_at handler fd came w')))
        × (32767 < fd
            → add_with_dedicated_handler system fd events handler w ≡ (error (pack_fd_ptr fd), w))
  unfolding add_with_dedicated_handler handle_event
  handle_event-dedicated handlers fd events handler w small = (
    λ fits.
        let (word, packed, high, unpacked) = unpack-pack fd handler fits small in
        (
          word,
          ap registered packed,
          λ came result w'. rw high (
              ap (λ (u : ℕ × ℕ). after_handler system result u.0 (call_at u.1 u.0 came w'))
                unpacked),
        ),
    λ big. ap registered (epoll_pack_fd_ptr-error fd handler big),
  )
    where
      registered : Result ℕ → Result Unit × World
      registered r = elim r [
        | error e ↦ (error e, w)
        | ok word ↦ let (e, w') = ctl_add w fd events word in (throw_if_error system e, w')
      ]
