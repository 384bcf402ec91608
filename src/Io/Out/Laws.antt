-- ===== src/Io/Out/Laws.antt =====
-- What src/core/io/out_base.hpp writes, and what a short write leaves behind.
use braincells.Common.{
  take_all, ℕ, ◌+◌, ◌-◌, ◌≤◌, ◌<◌, ◌≡◌, refl, sym, ap, ap₂, ◌∙◌, false, List, [], ◌++◌,
  append_assoc, append-nil, arith, length, take, drop, length-append, length-take, length-drop,
  Bool-cases, inl, inr, ◌==◌, ==_iff, ltb, leb,
}
use braincells.Io.{copy_at, slice}
use braincells.Io.Copies.{length-copy_at, take-copy_at, take-take, length-slice, take-copy_at-slice}
use braincells.Io.Backend.{Sink}
use braincells.Io.Out.{
  Outcome, done, partial_write, OutBase, pending, flush, write_through, store, and_then, write,
}

module _ (sink : Sink) (bs : ℕ) where
  open sink use {State, handle_write, written, handle_write_le, handle_write_appends}

  pub record IsValid (o : OutBase sink) : Type 0 where
    pub whole : length o.buff ≡ bs
    pub pos_in : o.pos ≤ bs

  -- All the bytes that the stream was given: those written, and those held back.
  abbrev pub stream : OutBase sink → List ℕ
  stream o = written o.base ++ pending sink o

  -- A call that returns leaves a valid stream longer by the bytes.
  abbrev pub Writes : List ℕ → OutBase sink → Outcome × OutBase sink → Type 0
  Writes bytes o (done, p) = IsValid p × (stream p ≡ stream o ++ bytes)
  Writes bytes o (partial_write n, p) = IsValid p

  -- A flush that returns has written everything.
  abbrev Flushed : OutBase sink → Outcome × OutBase sink → Type 0
  Flushed o (done, p) = IsValid p × (p.pos ≡ 0) × (written p.base ≡ stream o)
  Flushed o (partial_write n, p) = IsValid p

  flush-Flushed : (o : OutBase sink) → IsValid o → Flushed o (flush sink o)
  unfolding flush
  flush-Flushed o v = elim (Bool-cases (o.pos == 0)) [
    | inl empty ↦ rw empty (
      v,
      (==_iff o.pos 0).0 empty,
      sym (
          ap (λ (k : ℕ). written o.base ++ take k o.buff) ((==_iff o.pos 0).0 empty)
          ∙ append-nil (written o.base)),
    )
    | inr full ↦ elim (Bool-cases ((handle_write o.base (take o.pos o.buff)).0 == o.pos)) [
      | inl all ↦
          rw (full, all)
            (
              record { whole = v.whole; pos_in = omega arith },
              refl,
              handle_write_appends o.base (pending sink o)
                  ∙ ap (λ (k : ℕ). written o.base ++ take k (pending sink o))
                      ((==_iff _ o.pos).0 all)
                  ∙ ap (λ t. written o.base ++ t) (take-take o.pos o.buff),
            )
      | inr short ↦
          rw (full, short)
            (record {
              whole =
                  length-copy_at o.buff (slice o.buff wrote (o.pos - wrote)) 0
                    (omega (arith, length-slice o.buff wrote (o.pos - wrote), v.whole, v.pos_in))
                  ∙ v.whole;
              pos_in = v.pos_in;
            })
    ]
  ]
    where
      wrote : ℕ
      wrote = (handle_write o.base (take o.pos o.buff)).0

  pending_nil : (o : OutBase sink) → o.pos ≡ 0 → pending sink o ≡ []
  pending_nil o e = ap (λ (k : ℕ). take k o.buff) e

  stream_nil : (o : OutBase sink) → o.pos ≡ 0 → stream o ≡ written o.base
  stream_nil o e = ap (λ t. written o.base ++ t) (pending_nil o e) ∙ append-nil (written o.base)

  Writes-congr :
      (bytes : List ℕ) (o p : OutBase sink) (r : Outcome × OutBase sink)
      → stream p ≡ stream o
      → Writes bytes p r
      → Writes bytes o r
  Writes-congr bytes o p (done, q) e w = (w.0, w.1 ∙ ap (λ t. t ++ bytes) e)
  Writes-congr bytes o p (partial_write n, q) e w = w

  store-Writes :
      (o : OutBase sink) (bytes : List ℕ)
      → IsValid o
      → o.pos + length bytes ≤ bs
      → Writes bytes o (store sink o bytes)
  unfolding store
  store-Writes o bytes v h = (
    record {
      whole = length-copy_at o.buff bytes o.pos (omega (arith, v.whole)) ∙ v.whole;
      pos_in = h;
    },
    ap (λ t. written o.base ++ t) (take-copy_at o.buff bytes o.pos (omega (arith, v.whole)))
        ∙ sym (append_assoc (written o.base) (pending sink o) bytes),
  )

  write_through-Writes :
      (o : OutBase sink) (bytes : List ℕ)
      → IsValid o
      → o.pos ≡ 0
      → Writes bytes o (write_through sink o bytes)
  unfolding write_through
  write_through-Writes o bytes v e =
      elim (Bool-cases ((handle_write o.base bytes).0 == length bytes)) [
        | inl all ↦ rw all (
          record { whole = v.whole; pos_in = v.pos_in },
          ap₂ ◌++◌
                (handle_write_appends o.base bytes
                  ∙ ap (λ (k : ℕ). written o.base ++ take k bytes) ((==_iff _ (length bytes)).0 all)
                  ∙ ap (λ t. written o.base ++ t) (take_all (length bytes) bytes (omega arith)))
                (pending_nil o e)
              ∙ append-nil (written o.base ++ bytes)
              ∙ ap (λ t. t ++ bytes) (sym (stream_nil o e)),
        )
        | inr short ↦ rw short (record { whole = v.whole; pos_in = v.pos_in })
      ]

  and_then-Writes :
      (bytes : List ℕ) (o : OutBase sink) (r : Outcome × OutBase sink)
      (f : OutBase sink → Outcome × OutBase sink)
      → Flushed o r
      → ((p : OutBase sink) → IsValid p → p.pos ≡ 0 → Writes bytes p (f p))
      → Writes bytes o (and_then sink r f)
  and_then-Writes bytes o (partial_write n, p) f h k = h
  and_then-Writes bytes o (done, p) f h k =
      Writes-congr bytes o p (f p) (stream_nil p h.1 ∙ h.2) (k p h.0 h.1)

  -- `write` returns with the bytes appended to the stream, whether it buffers, flushes first or passes
  -- them by; if it throws, the buffer is still valid.
  pub write-Writes :
      (o : OutBase sink) (bytes : List ℕ) → IsValid o → Writes bytes o (write sink bs o bytes)
  unfolding write
  write-Writes o bytes v = elim (Bool-cases (leb bs (length bytes))) [
    | inl large ↦ rw large (
        and_then-Writes bytes o (flush sink o) _ (flush-Flushed o v)
          (λ p w e. write_through-Writes p bytes w e))
    | inr small ↦ elim (Bool-cases (ltb (bs - o.pos) (length bytes))) [
      | inl full ↦
          rw (small, full)
            (and_then-Writes bytes o (flush sink o) _ (flush-Flushed o v)
              (λ p w e. store-Writes p bytes w (ground arith)))
      | inr room ↦ rw (small, room) (store-Writes o bytes v (ground (arith, v.pos_in)))
    ]
  ]

  -- When a flush is cut short after `w` bytes, the unwritten bytes move to the front of the buffer, but
  -- its position stays: the last `w` bytes of the buffer stand in it once more.
  pub flush_short :
      (o : OutBase sink)
      → IsValid o
      → (handle_write o.base (pending sink o)).0 < o.pos
      → let w = (handle_write o.base (pending sink o)).0 in
        let p = (flush sink o).1 in
        ((flush sink o).0 ≡ partial_write w)
        × (written p.base ≡ written o.base ++ take w (pending sink o))
        × (pending sink p ≡ drop w (pending sink o) ++ drop (o.pos - w) (pending sink o))
        × (length (stream p) ≡ length (stream o) + w)
  unfolding flush
  flush_short o v h =
      let w : ℕ = (handle_write o.base (pending sink o)).0 in
      let full : (o.pos == 0) ≡ false = ground arith in
      let short : (w == o.pos) ≡ false = ground arith in
      let kept =
        take-copy_at-slice o.buff w o.pos (omega arith) (omega (arith, v.whole, v.pos_in)) in
      let sent = handle_write_appends o.base (pending sink o) in
      rw (full, short)
        (
          refl,
          sent,
          kept,
          omega (
            arith,
            ap length sent,
            ap length kept,
            length-append (written o.base) (take w (pending sink o)),
            length-append (written o.base) (pending sink o),
            length-append (drop w (pending sink o)) (drop (o.pos - w) (pending sink o)),
            length-append (written (handle_write o.base (pending sink o)).1)
                (take o.pos (copy_at o.buff 0 (slice o.buff w (o.pos - w)))),
            length-take w (pending sink o),
            length-take o.pos o.buff,
            length-drop w (pending sink o),
            length-drop (o.pos - w) (pending sink o),
          ),
        )

  and_then-done :
      (r : Outcome × OutBase sink) (f : OutBase sink → Outcome × OutBase sink)
      → r.0 ≡ done
      → ((p : OutBase sink) → (f p).0 ≡ done)
      → (and_then sink r f).0 ≡ done
  and_then-done (done, p) f e h = h p
  and_then-done (partial_write n, p) f e h = cc

  module _ (full : (s : State) (xs : List ℕ) → (handle_write s xs).0 ≡ length xs) where
    flush_total : (o : OutBase sink) → IsValid o → (flush sink o).0 ≡ done
    unfolding flush
    flush_total o v =
        ground (arith, full o.base (pending sink o), length-take o.pos o.buff, v.whole, v.pos_in)

    write_through_total :
        (o : OutBase sink) (bytes : List ℕ) → (write_through sink o bytes).0 ≡ done
    unfolding write_through
    write_through_total o bytes = ground (arith, full o.base bytes)

    store_total : (o : OutBase sink) (bytes : List ℕ) → (store sink o bytes).0 ≡ done
    unfolding store
    store_total o bytes = refl

    -- With a sink that always writes everything, `write` never throws.
    pub write_total :
        (o : OutBase sink) (bytes : List ℕ) → IsValid o → (write sink bs o bytes).0 ≡ done
    unfolding write
    write_total o bytes v =
        let through =
          and_then-done (flush sink o) (λ p. write_through sink p bytes) (flush_total o v)
            (λ p. write_through_total p bytes) in
        let stored =
          and_then-done (flush sink o) (λ p. store sink p bytes) (flush_total o v)
            (λ p. store_total p bytes) in
        ground (arith, through, stored, store_total o bytes)
