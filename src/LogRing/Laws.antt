-- ===== src/LogRing/Laws.antt =====
-- What util::log_handler_ring keeps and reads (src/util/log/log_handler_ring.hpp).
use mathlib.Core.Option as Option
use braincells.Common.{
  Bool, [], ◌∷◌, ◌||◌, ◌==◌, get_elem?, ap, ◌∙◌, ℕ, zero, suc, ◌+◌, ◌-◌, ◌≡◌, ◌<◌, ◌≤◌, refl, List,
  ◌++◌, length, min, arith, word64,
}
use braincells.RingBuffer.{max_size}
use braincells.RingBuffer.Invariant.{IsValid}
use braincells.RingBuffer.Refine.{contents, keep_last}
use braincells.RingBuffer.Iteration.{push_all_refines}
use braincells.Views.Split.{has_delim}
use braincells.Views.Split.Spec.{fields, non_empty}
use braincells.Views.Split.Refine.{split-skip_empty}
use braincells.LogRing.{
  byte_eq, new_record, LogRecord, LogHandlerRing, blank, lines, line_records, write_handler,
  write_new, is_new_record, read_lock,
}

-- The characters between lines.
abbrev pub is_break : ℕ → Bool
is_break c = c == b'\n' || c == b'\r'

-- The lines of a message that are not empty.
abbrev pub message_lines : List ℕ → List (List ℕ)
message_lines msg = non_empty (fields is_break msg)

-- The first line has the time.
abbrev pub line_time : List ℕ → ℕ → List ℕ
line_time time zero = time
line_time time (suc i) = []

-- The record of line `i`.
abbrev pub line_record : ℕ → ℕ → List ℕ → ℕ → List ℕ → LogRecord
line_record level times time i line = record {
  time = line_time time i;
  msg = line;
  times = times;
  lvl = level;
  wt = new_record;
}

breaks : (c : ℕ) → has_delim byte_eq (10 ∷ 13 ∷ []) c ≡ is_break c
unfolding has_delim
breaks c = ground arith

pub lines-message_lines : (msg : List ℕ) → lines msg ≡ message_lines msg
unfolding lines
lines-message_lines msg =
    split-skip_empty byte_eq (10 ∷ 13 ∷ []) msg ∙ (λ i. non_empty (fields (λ c. breaks c i) msg))

untimed_records :
    (level times n : ℕ) (time : List ℕ) (ls : List (List ℕ)) (i : ℕ)
    → get_elem? (line_records level new_record [] times ls) i
      ≡ Option.map (line_record level times time (suc n)) (get_elem? ls i)
unfolding line_records
untimed_records level times n time [] i = refl
untimed_records level times n time (line ∷ ls) zero = refl
untimed_records level times n time (line ∷ ls) (suc i) = untimed_records level times n time ls i

line_records_lem :
    (level times : ℕ) (time : List ℕ) (ls : List (List ℕ)) (i : ℕ)
    → get_elem? (line_records level new_record time times ls) i
      ≡ Option.map (line_record level times time i) (get_elem? ls i)
unfolding line_records
line_records_lem level times time [] i = refl
line_records_lem level times time (line ∷ ls) zero = refl
line_records_lem level times time (line ∷ ls) (suc i) = untimed_records level times i time ls i

-- A new message appends a record for each of its lines that is not empty, in order: the first has the
-- time, all have the level and the number of repeats. The newest records that fit stay, and the count of
-- the last lines is the number of these lines.
pub write_new_refines :
    (h : LogHandlerRing) (level times : ℕ) (time msg : List ℕ)
    → IsValid h.records
    → let p = write_handler h level new_record time msg times in
      (new : List LogRecord) × ((i : ℕ)
        → get_elem? new i
          ≡ Option.map (line_record level times time i) (get_elem? (message_lines msg) i))
      × (contents blank p.records
          ≡ keep_last (max_size h.records) (contents blank h.records ++ new))
      × (p.last_lines_count ≡ length (message_lines msg))
unfolding write_handler write_new is_new_record
write_new_refines h level times time msg v =
    let new : List LogRecord = line_records level new_record time times (lines msg) in
    (
      new,
      λ i.
          line_records_lem level times time (lines msg) i
          ∙ ap (λ ls. Option.map (line_record level times time i) (get_elem? ls i))
              (lines-message_lines msg),
      push_all_refines blank new v,
      ap length (lines-message_lines msg),
    )

-- The range that a reader gets lies inside the records and has as many of them as asked for, or all,
-- when the position asked for does not overflow.
pub read_lock_bounds :
    (h : LogHandlerRing) (preferred_start max_records : ℕ)
    → preferred_start + max_records < word64
    → let l = read_lock h preferred_start max_records in
      (l.start_pos ≤ l.end_pos)
      × (l.end_pos ≤ l.max_pos)
      × (l.end_pos - l.start_pos ≡ min h.records.size max_records)
unfolding read_lock
read_lock_bounds h preferred_start max_records small = (ground arith, ground arith, ground arith)
