-- ===== src/Epoller/Shutdown.antt =====
-- The loop of `wait` of src/core/epoller.hpp, when a handler asks for the shutdown.
use braincells.Common.{
  zero, suc, ltb→lt, ltb→le, ℕ, ◌/◌, ◌%◌, ◌^◌, ◌≡◌, ◌<◌, ◌≤◌, arith, refl, sym, ap, ◌∙◌, true,
  false, Bool, ◌&&◌, List, [], ◌∷◌, ◌++◌, ltb, length, get_elem?, Bool-cases, inl, inr, Option,
  none, some,
}
use braincells.Epoller.Calls.{HandlerResult, keep_on, remove, shutdown, EpollData, System}
use braincells.Epoller.{
  Result, ok, error, errc, epoll_have_handler, Handler, Handlers, after_handler, remove_fd,
  call_group, handle_event, unless_error, wait_loop, wait, pack_group, epoll_pack_fd_ptr,
  epoll_unpack_fd_ptr, pack_fd_ptr,
}
use braincells.Epoller.Words.{unpack-pack, epoll_pack_fd_ptr-error}
use braincells.Epoller.Dispatch.{handle_event-pack_group}
use mathlib.Core.Option.{none-ne-some}

module _ (system : System) where
  open system use {World, call_at, epoll_wait}

  abbrev pub and_result : Bool → Result Bool × World → Result Bool × World
  and_result b r = unless_error system r λ c w. (ok (b && c), w)

  and-true : (b : Bool) → b && true ≡ b
  and-true true = refl
  and-true false = refl

  and-false : (b : Bool) → b && false ≡ false
  and-false true = refl
  and-false false = refl

  and_result-and_result :
      (b c : Bool) (x : Result Bool × World) → and_result b (and_result c x) ≡ and_result (b && c) x
  and_result-and_result true c (ok d, w) = refl
  and_result-and_result false c (ok d, w) = refl
  and_result-and_result b c (error e, w) = refl

  and_result-unless_error :
      (b : Bool) (x : Result Bool × World)
      → unless_error system x (λ _ w. (ok b, w))
        ≡ and_result b (unless_error system x λ _ w. (ok true, w))
  and_result-unless_error b (ok d, w) = ap (λ c. (ok c, w)) (sym (and-true b))
  and_result-unless_error b (error e, w) = refl

  after_handler-and :
      (b : Bool) (fd : ℕ) (x : HandlerResult × World)
      → after_handler system b fd x ≡ and_result b (after_handler system true fd x)
  unfolding after_handler
  after_handler-and b fd (keep_on, w) = refl
  after_handler-and b fd (shutdown, w) = refl
  after_handler-and b fd (remove, w) = and_result-unless_error b (remove_fd system fd w)

  call_group-and :
      (o : Option (Option (Handler system))) (b : Bool) (id fd events : ℕ) (w : World)
      → call_group system o b id fd events w
        ≡ and_result b (call_group system o true id fd events w)
  unfolding call_group
  call_group-and none b id fd events w = refl
  call_group-and (some none) b id fd events w = after_handler-and b fd (remove, w)
  call_group-and (some (some h)) b id fd events w = after_handler-and b fd (h id fd events w)

  handle_event-and :
      (handlers : Handlers system) (event : EpollData) (b : Bool) (w : World)
      → handle_event system handlers event b w
        ≡ and_result b (handle_event system handlers event true w)
  unfolding handle_event
  handle_event-and handlers event b w = elim (Bool-cases (epoll_have_handler event.userdata)) [
    | inl t ↦ rw t (after_handler-and b _ _)
    | inr f ↦ elim (Bool-cases (ltb (length handlers) (event.userdata / 2 ^ 32 % 2 ^ 8))) [
      | inl t ↦ rw (f, t) refl
      | inr g ↦
          rw (f, g)
            (call_group-and (get_elem? handlers (event.userdata / 2 ^ 32 % 2 ^ 8)) b
              (event.userdata / 2 ^ 40) (event.userdata % 2 ^ 32) event.events w)
    ]
  ]

  unless_error-and :
      (b : Bool) (x : Result Bool × World) (f : Bool → World → Result Bool × World)
      → ((c : Bool) (w : World) → f (b && c) w ≡ and_result b (f c w))
      → unless_error system (and_result b x) f ≡ and_result b (unless_error system x f)
  unless_error-and b (ok c, w) f h = h c w
  unless_error-and b (error e, w) f h = refl

  unless_error_assoc :
      (x : Result Bool × World) (f g k : Bool → World → Result Bool × World)
      → ((c : Bool) (w : World) → k c w ≡ unless_error system (f c w) g)
      → unless_error system x k ≡ unless_error system (unless_error system x f) g
  unless_error_assoc (ok c, w) f g k h = h c w
  unless_error_assoc (error e, w) f g k h = refl

  -- `result` starts as a factor of what the loop returns.
  wait_loop-and :
      (handlers : Handlers system) (events : List EpollData) (b : Bool) (w : World)
      → wait_loop system handlers events b w
        ≡ and_result b (wait_loop system handlers events true w)
  unfolding wait_loop
  wait_loop-and handlers [] b w = ap (λ c. (ok c, w)) (sym (and-true b))
  wait_loop-and handlers (event ∷ events) b w =
      ap (λ x. unless_error system x (wait_loop system handlers events))
        (handle_event-and handlers event b w)
      ∙ unless_error-and b (handle_event system handlers event true w)
          (wait_loop system handlers events)
          λ c w'.
            wait_loop-and handlers events (b && c) w'
            ∙ sym (and_result-and_result b c _)
            ∙ ap (and_result b) (sym (wait_loop-and handlers events c w'))

  wait_loop-append :
      (handlers : Handlers system) (before behind : List EpollData) (b : Bool) (w : World)
      → wait_loop system handlers (before ++ behind) b w
        ≡ unless_error system
            (wait_loop system handlers before b w)
            (wait_loop system handlers behind)
  unfolding wait_loop
  wait_loop-append handlers [] behind b w = refl
  wait_loop-append handlers (event ∷ before) behind b w =
      unless_error_assoc (handle_event system handlers event b w) (wait_loop system handlers before)
        (wait_loop system handlers behind) (wait_loop system handlers (before ++ behind))
        (wait_loop-append handlers before behind)

  -- A factor of false in the middle, with the events behind it handled all the same.
  wait_loop-false :
      (handlers : Handlers system) (before behind : List EpollData) (event : EpollData)
      (w w₁ w₂ : World) (r : Bool)
      → wait_loop system handlers before true w ≡ (ok r, w₁)
      → handle_event system handlers event true w₁ ≡ (ok false, w₂)
      → wait_loop system handlers (before ++ event ∷ behind) true w
        ≡ and_result false (wait_loop system handlers behind true w₂)
  unfolding wait_loop
  wait_loop-false handlers before behind event w w₁ w₂ r h e =
      let tail = wait_loop system handlers behind in
      wait_loop-append handlers before (event ∷ behind) true w
      ∙ ap (λ x. unless_error system x (wait_loop system handlers (event ∷ behind))) h
      ∙ wait_loop-and handlers (event ∷ behind) r w₁
      ∙ ap (λ x. and_result r (unless_error system x tail)) e
      ∙ ap (and_result r) (wait_loop-and handlers behind false w₂)
      ∙ and_result-and_result r false _
      ∙ ap (λ b. and_result b (tail true w₂)) (and-false r)

  -- The words that `add` and `add_with_dedicated_handler` register, with the call that each stands for.
  pub data Serves (handlers : Handlers system)
      : ℕ → (ℕ → World → HandlerResult × World) → Type 0 where
    by_group :
        (fd group id : ℕ) (handler : Handler system)
        → fd < 2 ^ 32
        → length handlers ≤ 255
        → id < 2 ^ 23
        → get_elem? handlers group ≡ some (some handler)
        → Serves handlers (pack_group fd group id) (λ events w. handler id fd events w)
    dedicated :
        (fd address word : ℕ)
        → address < 2 ^ 48
        → epoll_pack_fd_ptr fd address ≡ ok word
        → Serves handlers word (λ events w. call_at address fd events w)

  inside : {A : Type 0} (xs : List A) (i : ℕ) (x : A) → get_elem? xs i ≡ some x → i < length xs
  inside [] i x e = absurd (none-ne-some x e)
  inside (y ∷ xs) zero x e = omega arith
  inside (y ∷ xs) (suc i) x e = omega (arith, inside xs i x e)

  -- The word of a descriptor with its own handler, read back.
  dedicated_word :
      (fd address word : ℕ)
      → address < 2 ^ 48
      → epoll_pack_fd_ptr fd address ≡ ok word
      → (epoll_have_handler word ≡ true) × (epoll_unpack_fd_ptr word ≡ (fd, address))
  dedicated_word fd address word small e = elim (Bool-cases (ltb 32767 fd)) [
    | inl t ↦
        let refused : error (pack_fd_ptr fd) ≡ ok word =
          sym (epoll_pack_fd_ptr-error fd address (ltb→lt 32767 fd t)) ∙ e in
        cc
    | inr f ↦
        let (word', packed, high, unpacked) = unpack-pack fd address (ltb→le 32767 fd f) small in
        let same : word' ≡ word =
          ap (λ (r : Result ℕ). elim r [ ok x ↦ x | error _ ↦ 0 ]) (sym packed ∙ e) in
        (ap epoll_have_handler (sym same) ∙ high, ap epoll_unpack_fd_ptr (sym same) ∙ unpacked)
  ]

  -- A registered word leads to the result of its call.
  Serves-shutdown :
      (handlers : Handlers system) (word events : ℕ) (call : ℕ → World → HandlerResult × World)
      (w w' : World)
      → Serves handlers word call
      → call events w ≡ (shutdown, w')
      → handle_event system handlers (record { events = events; userdata = word }) true w
        ≡ (ok false, w')
  unfolding call_group after_handler handle_event
  Serves-shutdown handlers word events call w w' (by_group fd group id handler hf hg hi e) answer =
      handle_event-pack_group system handlers fd events group id true w hf hg hi
        (inside handlers group (some handler) e)
      ∙ ap (λ o. call_group system o true id fd events w) e
      ∙ ap (after_handler system true fd) answer
  Serves-shutdown handlers word events call w w' (dedicated fd address word' ha e) answer =
      let (high, unpacked) = dedicated_word fd address word' ha e in
      rw high (
        ap (λ (u : ℕ × ℕ). after_handler system true u.0 (call_at u.1 u.0 events w)) unpacked
        ∙ ap (after_handler system true fd) answer)

  -- A handler that asks for the shutdown, be it that of a group or of one descriptor, makes the result of
  -- `wait` false, whatever the handlers before and behind it answer, and does not keep `wait` from the events
  -- behind it, unless a handler throws.
  pub wait-shutdown :
      (handlers : Handlers system) (before behind : List EpollData) (word events : ℕ)
      (call : ℕ → World → HandlerResult × World) (w w₀ w₁ w₂ : World) (r : Bool)
      → epoll_wait w ≡ (none, before ++ record { events = events; userdata = word } ∷ behind, w₀)
      → wait_loop system handlers before true w₀ ≡ (ok r, w₁)
      → Serves handlers word call
      → call events w₁ ≡ (shutdown, w₂)
      → wait system handlers w ≡ and_result false (wait_loop system handlers behind true w₂)
  unfolding wait
  wait-shutdown handlers before behind word events call w w₀ w₁ w₂ r came first serves answer =
      ap
        (λ (t : Option ℕ × List EpollData × World). elim t.0 [
          | some e ↦ (error (errc e), t.2)
          | none ↦ wait_loop system handlers t.1 true t.2
        ])
        came
      ∙ wait_loop-false handlers before behind (record { events = events; userdata = word }) w₀ w₁
          w₂ r first (Serves-shutdown handlers word events call w₁ w₂ serves answer)
