-- ===== src/LogRing/Update.antt =====
-- An update of util::log_handler_ring (src/util/log/log_handler_ring.hpp) by a message of fewer lines.
use braincells.Common.{
  ℕ, zero, suc, ◌+◌, ◌-◌, ◌%◌, ◌≡◌, ◌<◌, ◌≤◌, refl, sym, ap, ap₂, subst, get_or, ◌∙◌, true, false,
  List, [], ◌∷◌, length, length-set, ltb, leb, ◌==◌, ◌^◌, if◌then◌else◌, arith, word64,
}
use braincells.RingBuffer.{push, RingBuffer, pop, begin, end, empty, forward, max_size}
use braincells.RingBuffer.Invariant.{IsValid}
use braincells.RingBuffer.Iteration.{end_lem}
use braincells.LogRing.{
  update, WriteType, LogRecord, LogHandlerRing, blank, lines, write_handler, write_last,
  update_lines, change, is_update, is_new_record, pop_lines, write_new,
}
use braincells.LogRing.Laws.{message_lines, lines-message_lines}

unfoldable pub pop_times : ℕ → RingBuffer LogRecord → RingBuffer LogRecord
pop_times zero r = r
pop_times (suc n) r = pop_times n (pop blank r)

-- With fewer lines than before the loop counts its own counter down, to below zero.
pop_lines_short :
    (lines_count last : ℕ) (r : RingBuffer LogRecord)
    → lines_count < last
    → last < word64
    → pop_lines (suc (suc lines_count)) lines_count last r
      ≡ (pop_times (suc lines_count) r, word64 - 1)
unfolding pop_lines pop_times
pop_lines_short zero last r h small =
    let go_on : ltb 0 last ≡ true = ground arith in
    let stop : ltb 18446744073709551615 last ≡ false = ground arith in rw (go_on, stop) refl
pop_lines_short (suc n) last r h small =
    let go_on : ltb (suc n) last ≡ true = ground arith in
    let less : (suc n + word64 - 1) % word64 ≡ n = omega arith in
    rw (go_on, less) (pop_lines_short n last (pop blank r) (omega arith) small)

-- Every record that is popped makes the buffer smaller by one.
size-pop_times :
    (n : ℕ) (r : RingBuffer LogRecord)
    → n ≤ r.size
    → r.size < word64
    → (pop_times n r).size + n ≡ r.size
unfolding pop_times pop
size-pop_times zero r h small = omega arith
size-pop_times (suc n) r h small =
    let less : (r.size + word64 - 1) % word64 ≡ r.size - 1 = omega arith in
    omega (arith, less, size-pop_times n (pop blank r) (omega (arith, less)) (omega (arith, less)))

change-IsValid :
    (r : RingBuffer LogRecord) (p : ℕ) (f : LogRecord → LogRecord)
    → IsValid r
    → IsValid (change r p f)
unfolding change
change-IsValid r p f v =
    ground (
      arith,
      length-set r.items (p % length r.items) (f (get_or r.items (p % length r.items) blank)),
    )

-- Lines that end before the records do change records in their place.
update_lines_inside :
    (level : ℕ) (wt : WriteType) (times : ℕ) (ls : List (List ℕ)) (b : ℕ) (r : RingBuffer LogRecord)
    → IsValid r
    → b + length ls ≤ r.start + r.size
    → IsValid (update_lines level wt times ls b r)
      × ((update_lines level wt times ls b r).size ≡ r.size)
unfolding update_lines
update_lines_inside level wt times [] b r v h = (v, refl)
update_lines_inside level wt times (line ∷ ls) b r v h =
    let inside : (b == end r) ≡ false = ground (arith, end_lem v) in
    let appended : RingBuffer LogRecord =
      push r (record { time = []; msg = line; times = times; lvl = level; wt = wt }) in
    let changed : RingBuffer LogRecord = change r b (λ c. record c { msg = line }) in
    subst
      (λ (x : RingBuffer LogRecord).
        IsValid (update_lines level wt times ls (b + 1) x)
        × ((update_lines level wt times ls (b + 1) x).size ≡ r.size))
      (sym (ap (λ c. if c then appended else changed) inside))
      (update_lines_inside level wt times ls (b + 1) changed
        (change-IsValid r b (λ c. record c { msg = line }) v) (omega arith))

-- An update by a message with fewer lines than the last one had removes one record more than the new
-- message has lines, however many the last one had, and leaves the largest number as the count of the
-- last lines.
pub update_short :
    (h : LogHandlerRing) (level times : ℕ) (time msg : List ℕ)
    → IsValid h.records
    → max_size h.records < 2 ^ 63
    → h.last_lines_count ≤ h.records.size
    → length (message_lines msg) < h.last_lines_count
    → let p = write_handler h level update time msg times in
      (p.records.size + (length (message_lines msg) + 1) ≡ h.records.size)
      × (p.last_lines_count ≡ word64 - 1)
unfolding write_handler write_last is_update is_new_record begin forward empty change
update_short h level times time msg v room fits fewer =
    let n : ℕ = length (lines msg) in
    let last : ℕ = h.last_lines_count in
    let n_lem : n ≡ length (message_lines msg) = ap length (lines-message_lines msg) in
    let b : ℕ = (h.records.start + (h.records.size - last)) % word64 in
    let stamp =
      λ (c : LogRecord). record c { time = time; times = times; lvl = level; wt = update } in
    let (valid, size) =
      update_lines_inside level update times (lines msg) b (change h.records b stamp)
        (change-IsValid h.records b stamp v) (omega (arith, n_lem)) in
    let written : RingBuffer LogRecord =
      update_lines level update times (lines msg) b (change h.records b stamp) in
    let popped =
      ap (λ (k : ℕ). pop_lines k n last written) {x = n + 2} {y = suc (suc n)} (omega arith)
      ∙ pop_lines_short n last written (omega (arith, n_lem)) (omega arith) in
    let old : (h.records.size == 0) ≡ false = ground arith in
    let inside : leb last h.records.size ≡ true = ground arith in
    let result : write_handler h level update time msg times
        ≡ record { records = pop_times (suc n) written; last_lines_count = word64 - 1 } =
      ap₂
        (λ c d.
          if c
          then write_new h level update time msg times
          else if d
          then write_last h level update time msg times
          else h)
        old inside
      ∙ ap (λ (q : RingBuffer LogRecord × ℕ). record { records = q.0; last_lines_count = q.1 })
          popped in
    (
      omega (
        arith,
        ap (λ (q : LogHandlerRing). q.records.size) result,
        size-pop_times (suc n) written (omega (arith, size, n_lem)) (omega (arith, size)),
        size,
        n_lem,
      ),
      ap (λ (q : LogHandlerRing). q.last_lines_count) result,
    )
