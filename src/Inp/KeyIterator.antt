-- ===== src/Inp/KeyIterator.antt =====
-- The key_iterator of src/inp/key_rt_state.hpp, and to_string of what it visits.
pub mod Visits
pub mod Held
use braincells.Common.{
  ℕ, zero, suc, ◌+◌, ◌-◌, ◌*◌, ◌%◌, ◌^◌, Bool, true, false, not, ◌&&◌, List, [], ◌∷◌, ◌++◌, bit_or,
  if◌then◌else◌, leb, ◌==◌, word32, Text,
}
use braincells.Inp.KeyState.{Layout, test}

pub record KeyTester : Type 0 where
  pub key : ℕ
  pub bits : ℕ

-- A `bool` as a number.
abbrev pub to_num : Bool → ℕ
to_num true = 1
to_num false = 0

module _ (l : Layout) (blocks : List ℕ) where
  -- The loop of `operator*` over the `n` values from `val` on; `res` is what it has so far. The language
  -- leaves the shift undefined from 32 on, where this gives no bit.
  unfoldable pub bits_from : ℕ → ℕ → ℕ → ℕ → ℕ
  bits_from zero key val res = res
  bits_from (suc n) key val res =
      bits_from n key (val + 1) (bit_or res (to_num (test l blocks key val) * 2 ^ val % word32))

  -- `*it`
  unfoldable pub tester : ℕ → KeyTester
  unfolding bits_from
  tester i = record { key = i; bits = bits_from (l.vmax - l.vmin + 1) i l.vmin 0 }

  -- `while (_i <= khigh && !operator*().bits) ++_i;` with fuel.
  unfoldable pub settle : ℕ → ℕ → ℕ
  unfolding tester
  settle zero i = i
  settle (suc fuel) i =
      let further = settle fuel (i + 1) in
      if leb i l.khigh && ((tester i).bits == 0) then further else i

  -- The keys that are left are fuel enough.
  unfoldable pub key_iterator : ℕ → ℕ
  unfolding settle
  key_iterator i = settle (l.khigh + 1 - i) i

  -- `++it`
  unfoldable pub next : ℕ → ℕ
  unfolding key_iterator
  next i = key_iterator (i + 1)

  -- What a loop from an iterator to `end()` visits, with fuel.
  unfoldable pub visit : ℕ → ℕ → List KeyTester
  unfolding tester next
  visit zero i = []
  visit (suc fuel) i =
      let rest = visit fuel (next i) in if i == l.khigh + 1 then [] else tester i ∷ rest

  -- What a loop over the state visits.
  unfoldable pub key_testers : List KeyTester
  unfolding visit key_iterator
  key_testers = visit (suc (l.khigh + 1 - l.klow)) (key_iterator l.klow)

module _ (key_text number_text : ℕ → Text) where
  unfoldable pub tester_to_string : KeyTester → Text
  tester_to_string t = key_text t.key ++ b':' ∷ number_text t.bits

  -- Each key with a blank behind it.
  unfoldable pub append_keys : List KeyTester → Text
  unfolding tester_to_string
  append_keys [] = []
  append_keys (t ∷ ts) = (tester_to_string t ++ b' ' ∷ []) ++ append_keys ts

  -- `if (!res.empty()) res.pop_back();`
  unfoldable pub pop_back : Text → Text
  pop_back [] = []
  pop_back (c ∷ []) = []
  pop_back (c ∷ d ∷ cs) = c ∷ pop_back (d ∷ cs)

  unfoldable pub to_string : Layout → List ℕ → Text
  unfolding append_keys pop_back key_testers
  to_string l blocks = pop_back (append_keys (key_testers l blocks))
