-- ===== src/Epoller/Calls.antt =====
-- What core::epoller of src/core/epoller.hpp calls: the operating system, through src/sys/epoll.hpp, and
-- the functions that a user registers. Each of them acts on a world `World` of which nothing is known.
use braincells.Common.{ℕ, List, Option}

pub data HandlerResult : Type 0 where
  keep_on remove shutdown : HandlerResult

-- `sys::epoll_data`: the events that came, and the word that was given at the registration.
pub record EpollData : Type 0 where
  pub events : ℕ
  pub userdata : ℕ

pub record System : Type 1 where
  pub World : Type 0
  -- epoll_ctl(2) with EPOLL_CTL_ADD and EPOLL_CTL_DEL, and its error, if there is one.
  pub ctl_add : World → ℕ → ℕ → ℕ → Option ℕ × World
  pub ctl_del : World → ℕ → Option ℕ × World
  -- epoll_pwait2(2): an error, or the events.
  pub epoll_wait : World → Option ℕ × List EpollData × World
  -- The function at an address, called with a descriptor and its events.
  pub call_at : ℕ → ℕ → ℕ → World → HandlerResult × World
