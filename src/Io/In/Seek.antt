-- ===== src/Io/In/Seek.antt =====
-- `seek` of src/core/io/in_base.hpp on a stream over a container (src/core/io/rw_impl.hpp).
use braincells.Common.{
  ℕ, ◌+◌, ◌-◌, ◌≤◌, ◌≡◌, ◌⊎◌, refl, sym, ap, ◌∙◌, ◌&&◌, none, some, arith, length, take, drop,
  drop-drop, Bool-cases, inl, inr, ltb, leb, min,
}
use braincells.Io.Copies.{drop-take}
use braincells.Io.Backend.{Whence, cur, set, end}
use braincells.Io.Memory.{Memory, handle_seek, clamp}
use braincells.Io.Memory.Laws.{memory_source}
use braincells.Io.In.{InBase, buffered, seek}

-- The buffer holds what stands in the container before the position of the back end.
pub record IsView (i : InBase memory_source) : Type 0 where
  pub behind : i.size ≤ i.base.pos
  pub inside : i.base.pos ≤ length i.base.storage
  pub same : buffered memory_source i ≡ take i.size (drop (i.base.pos - i.size) i.base.storage)

-- Where the next byte is read.
abbrev pub position : InBase memory_source → ℕ
position i = i.base.pos - i.size

-- Where a seek means to go.
abbrev pub target : InBase memory_source → ℕ → ℕ → Whence → ℕ
target i plus minus cur = position i + plus - minus
target i plus minus set = plus - minus
target i plus minus end = 0

clamp_lem :
    (m : Memory) (plus minus : ℕ)
    → ((clamp m plus minus).pos ≡ min (plus - minus) (length m.storage))
      × ((clamp m plus minus).pos ≤ length m.storage)
unfolding clamp
clamp_lem m plus minus = ground arith

-- A stream whose buffer is given up.
emptied-IsView :
    (i : InBase memory_source) (m : Memory)
    → m.pos ≤ length m.storage
    → IsView (record i { base = m; size = 0 })
emptied-IsView i m h = record { behind = omega arith; inside = h; same = refl }

-- Bytes of the buffer that are passed over.
buffered-skip :
    (i : InBase memory_source) (n : ℕ)
    → IsView i
    → n ≤ i.size
    → take (i.size - n) (drop (i.pos + n) i.buff)
      ≡ take (i.size - n) (drop (i.base.pos - (i.size - n)) i.base.storage)
buffered-skip i n v h =
    let left : ℕ = i.size - n in
    ap (take left) (sym (drop-drop n i.pos i.buff))
    ∙ sym (drop-take n i.size (drop i.pos i.buff))
    ∙ ap (drop n) v.same
    ∙ drop-take n i.size (drop (i.base.pos - i.size) i.base.storage)
    ∙ ap (take left) (
        drop-drop n (i.base.pos - i.size) i.base.storage
        ∙ ap (λ (k : ℕ). drop k i.base.storage) {x = i.base.pos - i.size + n}
            {y = i.base.pos - (i.size - n)} (omega (arith, v.behind)))

-- A seek in a stream over a container goes to its target, or to the container's end if that comes
-- before, also where the buffer has read ahead: what is read next stands there. A seek relative to
-- the end throws.
pub seek-IsView :
    (i : InBase memory_source) (plus minus : ℕ) (whence : Whence)
    → IsView i
    → ((whence ≡ end) × (seek memory_source handle_seek i plus minus whence ≡ none))
      ⊎ ((j : InBase memory_source) × (seek memory_source handle_seek i plus minus whence ≡ some j)
          × IsView j
          × (j.base.storage ≡ i.base.storage)
          × (position j ≡ min (target i plus minus whence) (length i.base.storage)))
unfolding seek handle_seek clamp
seek-IsView i plus minus end v = inl (refl, refl)
seek-IsView i plus minus set v =
    let (there, inside) = clamp_lem i.base plus minus in
    inr (
      record i { base = clamp i.base plus minus; size = 0 },
      refl,
      emptied-IsView i (clamp i.base plus minus) inside,
      refl,
      omega (arith, there),
    )
seek-IsView i plus minus cur v = elim (Bool-cases (ltb minus plus && leb (plus - minus) i.size)) [
  | inl t ↦ inr (
    record i { pos = i.pos + (plus - minus); size = i.size - (plus - minus) },
    rw t refl,
    record {
      behind = omega (arith, v.behind);
      inside = v.inside;
      same = buffered-skip i (plus - minus) v (ground arith);
    },
    refl,
    ground (arith, v.behind, v.inside),
  )
  | inr f ↦
      let (there, inside) = clamp_lem i.base (i.base.pos + plus) (minus + i.size) in
      inr (
        record i { base = clamp i.base (i.base.pos + plus) (minus + i.size); size = 0 },
        rw f refl,
        emptied-IsView i (clamp i.base (i.base.pos + plus) (minus + i.size)) inside,
        refl,
        omega (arith, there, v.behind),
      )
]
