-- ===== src/FixedVector/Laws.antt =====
-- What the operations of src/core/fixed_vector.hpp do to the elements and their lifetimes.
use braincells.Common.{
  ℕ, zero, suc, ◌+◌, ◌≡◌, ◌≢◌, ◌<◌, ◌≤◌, refl, sym, ap, ◌∙◌, List, Option, none, some, length,
  get_or, set, replicate, ltb, ◌==◌, ==_iff, Bool-cases, inl, inr, arith, length-set,
  length-replicate, get_or-set_self, get_or-set_ne,
}
use braincells.FixedVector.{
  FixedVector, for_range, block_of, blank, slot, destroy, construct, copy, move_assign, copy_assign,
  emplace_back,
}
use braincells.FixedVector.Unrolled.{unrolled_lem}

get_or-replicate : {T : Type 0} (n i : ℕ) → get_or (replicate {A = Option T} n none) i none ≡ none
get_or-replicate zero i = refl
get_or-replicate (suc n) zero = refl
get_or-replicate (suc n) (suc i) = get_or-replicate n i

module _ {T : Type 0} where
  -- The objects that live are the elements.
  pub record IsValid (v : FixedVector T) : Type 0 where
    pub room : v.size ≤ length v.slots
    pub alive : (i : ℕ) → i < v.size → (x : T) × (slot v i ≡ some x)
    pub dead : (i : ℕ) → v.size ≤ i → slot v i ≡ none

  -- A loop that writes each slot of a range once.
  written :
      (n i : ℕ) (f : ℕ → Option T) (slots : List (Option T)) (q : ℕ)
      → i + n ≤ length slots
      → (length (for_range n i (λ k l. set l k (f k)) slots) ≡ length slots)
        × (q < i → get_or (for_range n i (λ k l. set l k (f k)) slots) q none ≡ get_or slots q none)
        × (i ≤ q → q < i + n → get_or (for_range n i (λ k l. set l k (f k)) slots) q none ≡ f q)
        × (i + n ≤ q
            → get_or (for_range n i (λ k l. set l k (f k)) slots) q none ≡ get_or slots q none)
  unfolding for_range
  written zero i f slots q h = (refl, λ lt. refl, λ le lt. absurd (omega arith), λ le. refl)
  written (suc n) i f slots q h =
      let one = set slots i (f i) in
      let r = written n (i + 1) f one q (omega (arith, length-set slots i (f i))) in
      (
        r.0 ∙ length-set slots i (f i),
        λ lt.
            r.1 (omega arith) ∙ get_or-set_ne slots i q (f i) none (λ e. absurd (omega (arith, e))),
        λ le lt. elim (Bool-cases (i == q)) [
          | inl e ↦
              let same : i ≡ q = (==_iff i q).0 e in
              r.1 (omega (arith, same))
              ∙ ap (λ (k : ℕ). get_or one k none) (sym same)
              ∙ get_or-set_self slots i (f i) none (omega arith)
              ∙ ap f same
          | inr e ↦ let other : i ≢ q = grind arith in r.2 (omega arith) (omega arith)
        ],
        λ le.
            r.3 (omega arith) ∙ get_or-set_ne slots i q (f i) none (λ e. absurd (omega (arith, e))),
      )

  -- `emplace_back` with room left: one more element at the end, the others as they were.
  pub emplace_back_lem :
      (v : FixedVector T) (value : T)
      → IsValid v
      → v.size < length v.slots
      → let r = emplace_back v value in
        IsValid r
        × (r.size ≡ v.size + 1)
        × (slot r v.size ≡ some value)
        × ((i : ℕ) → i ≢ v.size → slot r i ≡ slot v i)
  unfolding emplace_back
  emplace_back_lem v value valid room =
      let new_slot = get_or-set_self v.slots v.size (some value) none room in
      let old = λ (i : ℕ) (a : i ≢ v.size).
        get_or-set_ne v.slots v.size i (some value) none (λ e. a (sym e)) in
      (
        record {
          room = omega (arith, length-set v.slots v.size (some value));
          alive = λ i lt. elim (Bool-cases (i == v.size)) [
            | inl e ↦ (
              value,
              ap (λ (k : ℕ). get_or (set v.slots v.size (some value)) k none)
                    ((==_iff i v.size).0 e)
                  ∙ new_slot,
            )
            | inr e ↦
                let a : i ≢ v.size = grind arith in
                let x = valid.alive i (omega arith) in (x.0, old i a ∙ x.1)
          ];
          dead = λ i le. old i (λ e. absurd (omega (arith, e))) ∙ valid.dead i (omega arith);
        },
        refl,
        new_slot,
        old,
      )

module _ (sizeof : ℕ) {T : Type 0} where
  -- Blank slots that take the elements of another vector.
  construct_lem :
      (it v : FixedVector T)
      → IsValid v
      → v.size ≤ length it.slots
      → ((i : ℕ) → slot it i ≡ none)
      → (length (construct sizeof it v).slots ≡ length it.slots)
        × ((construct sizeof it v).size ≡ v.size)
        × ((i : ℕ) → slot (construct sizeof it v) i ≡ slot v i)
  unfolding construct
  construct_lem it v valid room nothing =
      let step : ℕ → List (Option T) → List (Option T) = λ i slots. set slots i (slot v i) in
      let plain = (unrolled_lem step (block_of sizeof) v.size it.slots).0 in
      (
        ap length plain ∙ (written v.size 0 (slot v) it.slots 0 (omega arith)).0,
        refl,
        λ i.
            let w = written v.size 0 (slot v) it.slots i (omega arith) in
            ap (λ l. get_or l i none) plain ∙ elim (Bool-cases (ltb i v.size)) [
              | inl e ↦ w.2 (omega arith) (ground arith)
              | inr e ↦
                  let le : v.size ≤ i = ground arith in
                  w.3 (omega arith) ∙ nothing i ∙ sym (valid.dead i le)
            ],
      )

  -- `_destroy` ends the life of every element, and there is no other.
  destroy_lem :
      (v : FixedVector T)
      → IsValid v
      → (length (destroy sizeof v).slots ≡ length v.slots)
        × ((i : ℕ) → slot (destroy sizeof v) i ≡ none)
  unfolding destroy
  destroy_lem v valid =
      let step : ℕ → List (Option T) → List (Option T) = λ i slots. set slots i none in
      let plain = (unrolled_lem step (block_of sizeof) v.size v.slots).0 in
      (
        ap length plain ∙ (written v.size 0 (λ i. none) v.slots 0 (omega (arith, valid.room))).0,
        λ i.
            let w = written v.size 0 (λ i. none) v.slots i (omega (arith, valid.room)) in
            ap (λ l. get_or l i none) plain ∙ elim (Bool-cases (ltb i v.size)) [
              | inl e ↦ w.2 (omega arith) (ground arith)
              | inr e ↦ let le : v.size ≤ i = ground arith in w.3 (omega arith) ∙ valid.dead i le
            ],
      )

  same-IsValid :
      (r v : FixedVector T)
      → IsValid v
      → r.size ≡ v.size
      → v.size ≤ length r.slots
      → ((i : ℕ) → slot r i ≡ slot v i)
      → IsValid r
  same-IsValid r v valid size room same = record {
    room = omega (arith, size);
    alive = λ i lt. let x = valid.alive i (omega (arith, size)) in (x.0, same i ∙ x.1);
    dead = λ i le. same i ∙ valid.dead i (omega (arith, size));
  }

  -- The elements of a vector are those of another, and no other object lives.
  abbrev pub HasElements : FixedVector T → FixedVector T → Type 0
  HasElements v r = IsValid r × (r.size ≡ v.size) × ((i : ℕ) → slot r i ≡ slot v i)

  move_assign_lem :
      (it v : FixedVector T)
      → IsValid it
      → IsValid v
      → v.size ≤ length it.slots
      → HasElements v (move_assign sizeof it v)
  unfolding move_assign
  move_assign_lem it v valid valid' room =
      let d = destroy_lem it valid in
      let c = construct_lem (destroy sizeof it) v valid' (omega (arith, d.0)) d.1 in
      (
        same-IsValid (construct sizeof (destroy sizeof it) v) v valid' c.1 (omega (arith, c.0, d.0))
            c.2,
        c.1,
        c.2,
      )

  -- A copy or a move into a new vector with room has the elements of the other.
  pub copy_lem :
      (room : ℕ) (v : FixedVector T)
      → IsValid v
      → v.size ≤ room
      → HasElements v (copy sizeof room v)
  unfolding copy
  copy_lem room v valid fits =
      let l = length-replicate {A = Option T} room none in
      let c = construct_lem (blank room) v valid (omega (arith, l)) (get_or-replicate room) in
      (
        same-IsValid (construct sizeof (blank room) v) v valid c.1 (omega (arith, c.0, l)) c.2,
        c.1,
        c.2,
      )

  -- The assignments of another vector whose elements fit, by a move of a type with a destructor and a move
  -- assignment of its own, and by a copy if the copy assignment of the type may throw, leave the elements of the
  -- other alive and no other object, unless the construction of an element throws.
  pub assignments_lem :
      (it v : FixedVector T)
      → IsValid it
      → IsValid v
      → v.size ≤ length it.slots
      → HasElements v (move_assign sizeof it v) × HasElements v (copy_assign sizeof it v)
  unfolding copy_assign
  assignments_lem it v valid valid' fits =
      let (tmp_valid, tmp_size, tmp_slots) = copy_lem (length it.slots) v valid' fits in
      let tmp : FixedVector T = copy sizeof (length it.slots) v in
      let (result_valid, result_size, result_slots) =
        move_assign_lem it tmp valid tmp_valid (omega (arith, tmp_size)) in
      (
        move_assign_lem it v valid valid' fits,
        (result_valid, result_size ∙ tmp_size, λ i. result_slots i ∙ tmp_slots i),
      )
