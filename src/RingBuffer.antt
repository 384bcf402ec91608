-- ===== src/RingBuffer.antt =====
-- core::ring_buffer of src/core/ring_buffer.hpp: a vector used as a ring that overwrites its oldest
-- element, and its iterator, a position that is reduced only when it is read.
pub mod Window
pub mod Invariant
pub mod Refine
pub mod Iteration
use braincells.Common.{
  ℕ, zero, suc, ◌+◌, ◌-◌, ◌*◌, ◌%◌, List, [], ◌∷◌, map, Bool, true, false, ◌||◌, length, get_or,
  set, replicate, if◌then◌else◌, ltb, ◌==◌, word64,
}

pub record RingBuffer {ℓ} (A : Type ℓ) : Type ℓ where
  pub items : List A
  pub start : ℕ
  pub insert : ℕ
  pub size : ℕ

-- `d` is the value-initialised element `T{}`.
module _ {ℓ} {A : Type ℓ} (d : A) where
  unfoldable pub new : ℕ → RingBuffer A
  new size = record {
    items = replicate (if ltb 0 size then size else 1) d;
    start = 0;
    insert = 0;
    size = 0;
  }

  unfoldable pub clear : RingBuffer A → RingBuffer A
  clear r = record { items = map (λ _. d) r.items; start = 0; insert = 0; size = 0 }

  -- `--_size` wraps at an empty buffer.
  unfoldable pub pop : RingBuffer A → RingBuffer A
  pop r =
      let insert : ℕ = if r.insert == 0 then length r.items - 1 else r.insert - 1 in
      record r {
        items = set r.items insert d;
        insert = insert;
        size = (r.size + word64 - 1) % word64;
      }

  unfoldable pub skip : RingBuffer A → RingBuffer A
  skip r =
      let n : ℕ = length r.items in
      if r.size == n
      then record {
        items = set r.items r.start d;
        start = (r.start + 1) % n;
        insert = (r.insert + 1) % n;
        size = r.size;
      }
      else record r { insert = (r.insert + 1) % n; size = r.size + 1 }

  -- The element that `back()` refers to.
  unfoldable pub back : RingBuffer A → A
  back r = get_or r.items (if r.insert == 0 then length r.items - 1 else r.insert - 1) d

module _ {ℓ} {A : Type ℓ} where
  unfoldable pub push : RingBuffer A → A → RingBuffer A
  push r value =
      let n : ℕ = length r.items in
      let full : Bool = r.size == n in
      record {
        items = set r.items r.insert value;
        start = if full then (r.start + 1) % n else r.start;
        insert = (r.insert + 1) % n;
        size = if full then r.size else r.size + 1;
      }

  unfoldable pub empty : RingBuffer A → Bool
  empty r = r.size == 0

  abbrev pub max_size : RingBuffer A → ℕ
  max_size r = length r.items

  -- The positions of `begin()` and `end()`.
  unfoldable pub begin : RingBuffer A → ℕ
  begin r = r.start

  unfoldable pub end : RingBuffer A → ℕ
  end r =
      let n : ℕ = length r.items in
      r.insert + (if ltb r.insert r.start || r.size == n then n else 0)

-- `operator+=` and `operator-=` of the iterator at position `p` of a vector of `n` elements, for an
-- offset that is not negative; a negative one is handed to the other operator with its sign changed.
unfoldable pub forward : ℕ → ℕ → ℕ
forward p i = (p + i) % word64

unfoldable pub backward : ℕ → ℕ → ℕ → ℕ
backward n p i = if ltb p i then n - (i - p) % n else p - i

-- `operator--`.
unfoldable pub step_back : ℕ → ℕ → ℕ
step_back n p = if p == 0 then n - 1 else p - 1

-- An offset of type `ptrdiff_t`: its magnitude, and whether it is negative.
pub record Offset : Type 0 where
  pub negative : Bool
  pub magnitude : ℕ

unfoldable pub add_assign : ℕ → ℕ → Offset → ℕ
unfolding forward backward
add_assign n p i = if i.negative then backward n p i.magnitude else forward p i.magnitude

unfoldable pub sub_assign : ℕ → ℕ → Offset → ℕ
unfolding forward backward
sub_assign n p i = if i.negative then forward p i.magnitude else backward n p i.magnitude

-- The loop of `resize` over the elements to keep.
unfoldable pub push_all {ℓ} : {A : Type ℓ} → RingBuffer A → List A → RingBuffer A
push_all r [] = r
push_all r (x ∷ xs) = push_all (push r x) xs

module _ {ℓ} {A : Type ℓ} (d : A) where
  -- The elements that a loop from one position to another reads, with fuel.
  unfoldable pub walk : ℕ → List A → ℕ → ℕ → List A
  walk zero xs p stop = []
  walk (suc fuel) xs p stop = elim (p == stop) [
    | true ↦ []
    | false ↦ get_or xs (p % length xs) d ∷ walk fuel xs (p + 1) stop
  ]

  -- `for (auto& v : *this)`.
  unfoldable pub elements : RingBuffer A → List A
  elements r = walk (2 * length r.items) r.items (begin r) (end r)

  unfoldable pub resize : RingBuffer A → ℕ → RingBuffer A
  resize r new_size = push_all (new d (if ltb 0 new_size then new_size else 1)) (elements r)
