-- ===== src/Tests/RingBuffer.antt =====
-- core::ring_buffer (src/core/ring_buffer.hpp) on small buffers.
use braincells.Common.{ℕ, ◌≡◌, refl, arith, [], ◌∷◌}
use braincells.RingBuffer.{
  RingBuffer, new, push, back, push_all, elements, resize, begin, end, max_size, walk,
}
use braincells.RingBuffer.Invariant.{IsValid, push-IsValid}
use braincells.RingBuffer.Refine.{keep_last, contents, push_refines, back_refines}
use braincells.RingBuffer.Iteration.{elements-contents, resize_refines}

-- A full buffer of three, its oldest element in the middle.
abbrev full : RingBuffer ℕ
full = record { items = 7 ∷ 5 ∷ 6 ∷ []; start = 1; insert = 1; size = 3 }

full_is_pushed : push_all (new 0 3) (4 ∷ 5 ∷ 6 ∷ 7 ∷ []) ≡ full
unfolding push_all new push
full_is_pushed = refl

elements-full : elements 0 full ≡ 5 ∷ 6 ∷ 7 ∷ []
unfolding elements walk begin end
elements-full = refl

resize-full : elements 0 (resize 0 full 2) ≡ 6 ∷ 7 ∷ []
unfolding elements walk begin end resize push_all new push
resize-full = refl

full-IsValid : IsValid full
full-IsValid = omega arith

push-IsValid_example : IsValid (push full 8)
push-IsValid_example = push-IsValid 8 full-IsValid

push_refines_example : contents 0 (push full 8) ≡ keep_last 3 (5 ∷ 6 ∷ 7 ∷ 8 ∷ [])
push_refines_example = push_refines 0 8 full-IsValid

back_refines_example : 5 ∷ 6 ∷ 7 ∷ [] ≡ 5 ∷ 6 ∷ back 0 full ∷ []
back_refines_example = back_refines 0 full-IsValid (omega arith)

elements-contents_example : elements 0 full ≡ 5 ∷ 6 ∷ 7 ∷ []
elements-contents_example = elements-contents 0 full-IsValid

resize_refines_example :
    IsValid (resize 0 full 2)
    × (max_size (resize 0 full 2) ≡ 2)
    × (contents 0 (resize 0 full 2) ≡ 6 ∷ 7 ∷ [])
resize_refines_example = resize_refines 0 2 (omega arith) full-IsValid
