-- ===== src/Io/In/Laws.antt =====
-- What src/core/io/in_base.hpp delivers: the bytes of its source, in order, each once.
use mathlib.Core.List.{flatten}
use braincells.Common.{
  ℕ, zero, suc, ◌+◌, ◌-◌, ◌≤◌, ◌<◌, ◌≡◌, ◌≢◌, refl, sym, ap, ◌∙◌, List, [], ◌∷◌, ◌++◌, append_assoc,
  append-nil, arith, length, take, drop, length-append, length-take, length-drop,
  take-length-append, drop-drop, Bool-cases, inl, inr, ◌==◌, ==_iff, ltb, if◌then◌else◌, min,
}
use braincells.Io.{copy_at, slice}
use braincells.Io.Copies.{take-take-drop, length_zero}
use braincells.Io.Backend.{Source}
use braincells.Io.In.{
  Outcome, returned, partial_read, InBase, buffered, whole_elements, relocate_to, read_through,
  read_buffered, read_direct, take_next, read_filled, read, drain_loop, drain,
}

module _ (source : Source) (bs : ℕ) where
  open source use {State, handle_read, remaining, handle_read_le, handle_read_takes}

  pub record IsValid (i : InBase source) : Type 0 where
    pub whole : length i.buff ≡ bs
    pub size_in : i.pos + i.size ≤ bs

  -- All that the stream can still deliver.
  abbrev pub available : InBase source → List ℕ
  available i = buffered source i ++ remaining i.base

  abbrev pub count : Outcome → ℕ
  count (returned n) = n
  count (partial_read n) = n

  -- The bytes delivered are taken from the front of what was available, and their number is reported.
  pub record Reads (i : InBase source) (r : Outcome × List ℕ × InBase source) : Type 0 where
    pub valid : IsValid r.2
    pub conserved : r.1 ++ available r.2 ≡ available i
    pub reported : count r.0 ≡ length r.1

  count-whole_elements : (e n : ℕ) → count (whole_elements e n) ≡ n
  unfolding whole_elements
  count-whole_elements e n = ground arith

  take_next_lem :
      (i : InBase source)
      → IsValid i
      → i.size ≡ 0
      → IsValid (take_next source bs i) × (available (take_next source bs i) ≡ available i)
  unfolding take_next copy_at
  take_next_lem i v e =
      let bytes = (handle_read i.base bs).0 in
      let le = handle_read_le i.base bs in
      (
        record {
          whole = omega (
            arith,
            length-append bytes (drop (0 + length bytes) i.buff),
            length-drop (0 + length bytes) i.buff,
            v.whole,
          );
          size_in = omega arith;
        },
        ap (λ t. t ++ remaining (handle_read i.base bs).1)
              (take-length-append bytes (drop (0 + length bytes) i.buff))
            ∙ handle_read_takes i.base bs
            ∙ ap (λ (k : ℕ). take k (drop i.pos i.buff) ++ remaining i.base) (sym e),
      )

  read_through-Reads :
      (e : ℕ) (i : InBase source) (n : ℕ) → IsValid i → Reads i (read_through source e i n)
  unfolding read_through relocate_to slice
  read_through-Reads e i n v =
      let front = buffered source i in
      let back = handle_read i.base (n - length front) in
      record {
        valid = record { whole = v.whole; size_in = omega arith };
        conserved =
            append_assoc front back.0 (remaining back.1)
            ∙ ap (λ t. front ++ t) (handle_read_takes i.base (n - length front));
        reported =
            count-whole_elements e (length front + length back.0)
            ∙ sym (length-append front back.0);
      }

  read_buffered-Reads :
      (i : InBase source) (n : ℕ) → n ≤ i.size → IsValid i → Reads i (read_buffered source i n)
  unfolding read_buffered slice
  read_buffered-Reads i n h v = record {
    valid = record { whole = v.whole; size_in = omega (arith, v.size_in) };
    conserved =
        sym (append_assoc (slice i.buff i.pos n) _ (remaining i.base))
        ∙ ap (λ t. t ++ remaining i.base)
            (ap (λ t. take n (drop i.pos i.buff) ++ take (i.size - n) t)
                (sym (drop-drop n i.pos i.buff))
              ∙ take-take-drop n i.size (drop i.pos i.buff) h);
    reported =
        omega
          (arith, length-take n (drop i.pos i.buff), length-drop i.pos i.buff, v.whole, v.size_in);
  }

  read_direct-Reads :
      (e : ℕ) (i : InBase source) (n : ℕ)
      → IsValid i
      → i.size ≡ 0
      → Reads i (read_direct source e i n)
  unfolding read_direct
  read_direct-Reads e i n v none_left =
      let r = handle_read i.base n in
      record {
        valid = record { whole = v.whole; size_in = v.size_in };
        conserved =
            ap (λ (k : ℕ). r.0 ++ (take k (drop i.pos i.buff) ++ remaining r.1)) none_left
            ∙ handle_read_takes i.base n
            ∙ ap (λ (k : ℕ). take k (drop i.pos i.buff) ++ remaining i.base) (sym none_left);
        reported = count-whole_elements e (length r.0);
      }

  read_filled-Reads :
      (e : ℕ) (i : InBase source) (n : ℕ) → IsValid i → Reads i (read_filled source bs e i n)
  unfolding read_filled
  read_filled-Reads e i n v = elim (Bool-cases (i.size == 0)) [
    | inl empty ↦ rw empty (record { valid = v; conserved = refl; reported = refl })
    | inr some_left ↦ elim (Bool-cases (ltb i.size n)) [
      | inl more ↦ rw (some_left, more) (read_through-Reads e i n v)
      | inr enough ↦ rw (some_left, enough) (read_buffered-Reads i n (ground arith) v)
    ]
  ]

  -- `read` delivers the next bytes of the stream in order, loses and repeats none, and reports their
  -- number, also where it throws because an element was cut.
  pub read-Reads : (e : ℕ) (i : InBase source) (n : ℕ) → IsValid i → Reads i (read source bs e i n)
  unfolding read
  read-Reads e i n v = elim (Bool-cases (bs == 0)) [
    | inl direct ↦ rw direct (read_direct-Reads e i n v (ground (arith, v.size_in)))
    | inr normal ↦ elim (Bool-cases (i.size == 0)) [
      | inl empty ↦
          let (w, same) = take_next_lem i v ((==_iff i.size 0).0 empty) in
          let r = read_filled-Reads e (take_next source bs i) n w in
          rw (normal, empty)
            (record { valid = r.valid; conserved = r.conserved ∙ same; reported = r.reported })
      | inr some_left ↦ rw (normal, some_left) (read_filled-Reads e i n v)
    ]
  ]

  abbrev shown : InBase source → List (List ℕ)
  shown j = if j.size == 0 then [] else buffered source j ∷ []

  flatten-shown :
      (j : InBase source) (r : List (List ℕ))
      → flatten (shown j ++ r) ≡ buffered source j ++ flatten r
  unfolding flatten
  flatten-shown j r = elim (Bool-cases (j.size == 0)) [
    | inl empty ↦
        rw empty (
          ap (λ (k : ℕ). take k (drop j.pos j.buff) ++ flatten r) (sym ((==_iff j.size 0).0 empty)))
    | inr some_left ↦ rw some_left
  ]

  flatten_one : (j : InBase source) → flatten (shown j) ≡ buffered source j
  unfolding flatten
  flatten_one j =
      ap flatten (sym (append-nil (shown j))) ∙ flatten-shown j [] ∙ append-nil (buffered source j)

  abbrev emptied : InBase source → InBase source
  emptied j = record j { size = 0 }

  -- The loop of `operator>>` hands over the next bytes of the stream in order.
  drain_loop_lem :
      (fuel : ℕ) (i : InBase source)
      → IsValid i
      → i.size ≡ 0
      → flatten (drain_loop source bs fuel i).0 ++ available (drain_loop source bs fuel i).1
        ≡ available i
  unfolding drain_loop
  drain_loop_lem zero i v e = unfold flatten in refl
  drain_loop_lem (suc fuel) i v e =
      let j = take_next source bs i in
      let (w, same) = take_next_lem i v e in
      elim (Bool-cases (j.size == bs)) [
        | inl more ↦
            let rest = drain_loop source bs fuel (emptied j) in
            let ih =
              drain_loop_lem fuel (emptied j)
                (record { whole = w.whole; size_in = omega (arith, w.size_in) }) refl in
            rw more (
              ap (λ t. t ++ available rest.1) (flatten-shown j rest.0)
              ∙ append_assoc (buffered source j) (flatten rest.0) (available rest.1)
              ∙ ap (λ t. buffered source j ++ t) ih
              ∙ same)
        | inr last ↦ rw last (ap (λ t. t ++ remaining j.base) (flatten_one j) ∙ same)
      ]

  -- `operator>>` hands over the buffered bytes and then those of the source, in order.
  pub drain_lem :
      (fuel : ℕ) (i : InBase source)
      → IsValid i
      → flatten (drain source bs (suc fuel) i).0 ++ available (drain source bs (suc fuel) i).1
        ≡ available i
  unfolding drain drain_loop take_next
  drain_lem fuel i v =
      let r = drain_loop source bs (suc fuel) (emptied i) in
      let ih =
        drain_loop_lem (suc fuel) (emptied i)
          (record { whole = v.whole; size_in = omega (arith, v.size_in) }) refl in
      ap (λ t. t ++ available r.1) (flatten-shown i r.0)
      ∙ append_assoc (buffered source i) (flatten r.0) (available r.1)
      ∙ ap (λ t. buffered source i ++ t) ih

  module _ (full : (s : State) (n : ℕ) → length (handle_read s n).0 ≡ min n (length (remaining s)))
      (room : 0 < bs) where
    drain_loop_complete :
        (fuel : ℕ) (i : InBase source)
        → IsValid i
        → i.size ≡ 0
        → length (remaining i.base) < fuel
        → available (drain_loop source bs fuel i).1 ≡ []
    unfolding drain_loop take_next
    drain_loop_complete zero i v e h = absurd (omega arith)
    drain_loop_complete (suc fuel) i v e h =
        let j = take_next source bs i in
        let w = (take_next_lem i v e).0 in
        let read_all = full i.base bs in
        let conserved = ap length (handle_read_takes i.base bs) in
        let sizes = length-append (handle_read i.base bs).0 (remaining (handle_read i.base bs).1) in
        elim (Bool-cases (j.size == bs)) [
          | inl more ↦
              let n : j.size ≡ bs = (==_iff j.size bs).0 more in
              rw more (
                drain_loop_complete fuel (emptied j)
                  (record { whole = w.whole; size_in = omega (arith, w.size_in) }) refl
                  (omega (arith, n, conserved, sizes)))
          | inr last ↦
              let n : j.size ≢ bs = ground arith in
              rw last
                (length_zero (remaining j.base) (omega (arith, n, read_all, conserved, sizes)))
        ]

    -- `operator>>` hands over all that was available when the source reads short only at its end.
    pub drain_complete :
        (fuel : ℕ) (i : InBase source)
        → IsValid i
        → length (remaining i.base) ≤ fuel
        → flatten (drain source bs (suc fuel) i).0 ≡ available i
    unfolding drain drain_loop take_next
    drain_complete fuel i v h =
        let r = drain source bs (suc fuel) i in
        let nothing_left =
          drain_loop_complete (suc fuel) (emptied i)
            (record { whole = v.whole; size_in = omega (arith, v.size_in) }) refl (omega arith) in
        sym (append-nil (flatten r.0))
        ∙ ap (λ t. flatten r.0 ++ t) (sym nothing_left)
        ∙ drain_lem fuel i v
