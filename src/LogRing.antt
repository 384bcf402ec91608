-- ===== src/LogRing.antt =====
-- util::log_handler_ring of src/util/log/log_handler_ring.hpp: the last lines of a log in a ring buffer.
-- Strings are lists of bytes; each call runs under the handler's lock.
pub mod Laws
pub mod Update
use braincells.Common.{
  ℕ, zero, suc, ◌+◌, ◌-◌, ◌*◌, ◌%◌, Bool, true, false, ◌||◌, List, [], ◌∷◌, length, get_or, set,
  if◌then◌else◌, ltb, leb, ◌==◌, word64,
}
use braincells.RingBuffer.{
  RingBuffer, new, push, push_all, pop, clear, empty, begin, end, resize, forward, walk,
}
use braincells.Views.Split.{split, skip_empty}

pub data WriteType : Type 0 where
  new_record write_same update : WriteType

pub record LogRecord : Type 0 where
  pub time : List ℕ
  pub msg : List ℕ
  pub times : ℕ
  pub lvl : ℕ
  pub wt : WriteType

pub record LogHandlerRing : Type 0 where
  pub records : RingBuffer LogRecord
  pub last_lines_count : ℕ

-- A value-initialised record.
abbrev pub blank : LogRecord
blank = record { time = []; msg = []; times = 0; lvl = 0; wt = new_record }

unfoldable pub create : ℕ → LogHandlerRing
unfolding new
create max_records = record { records = new blank max_records; last_lines_count = 0 }

abbrev pub byte_eq : ℕ → ℕ → Bool
byte_eq a b = a == b

-- `msg | core::views::split('\n', '\r')`
unfoldable pub lines : List ℕ → List (List ℕ)
unfolding split
lines msg = split byte_eq skip_empty (10 ∷ 13 ∷ []) msg

unfoldable pub is_new_record : WriteType → Bool
is_new_record new_record = true
is_new_record write_same = false
is_new_record update = false

unfoldable pub is_update : WriteType → Bool
is_update new_record = false
is_update write_same = false
is_update update = true

-- The records of a new message: the time is moved into the first, and empty behind it.
unfoldable pub line_records : ℕ → WriteType → List ℕ → ℕ → List (List ℕ) → List LogRecord
line_records level wt time times [] = []
line_records level wt time times (line ∷ rest) =
    record { time = time; msg = line; times = times; lvl = level; wt = wt }
    ∷ line_records level wt [] times rest

-- An assignment through the iterator at position `p`.
unfoldable pub change : RingBuffer LogRecord → ℕ → (LogRecord → LogRecord) → RingBuffer LogRecord
change r p f =
    let i : ℕ = p % length r.items in
    record r { items = set r.items i (f (get_or r.items i blank)) }

-- The loop of an update over the lines.
unfoldable pub update_lines :
    ℕ → WriteType → ℕ → List (List ℕ) → ℕ → RingBuffer LogRecord → RingBuffer LogRecord
unfolding change push end
update_lines level wt times [] b r = r
update_lines level wt times (line ∷ rest) b r = update_lines level wt times rest (b + 1) (
    if b == end r
    then push r (record { time = []; msg = line; times = times; lvl = level; wt = wt })
    else change r b (λ c. record c { msg = line }))

-- `while (lines_count < last_lines_count) { records.pop(); --lines_count; }`, with fuel.
unfoldable pub pop_lines : ℕ → ℕ → ℕ → RingBuffer LogRecord → RingBuffer LogRecord × ℕ
unfolding pop
pop_lines zero lines_count last r = (r, lines_count)
pop_lines (suc fuel) lines_count last r =
    let rest = pop_lines fuel ((lines_count + word64 - 1) % word64) last (pop blank r) in
    if ltb lines_count last then rest else (r, lines_count)

unfoldable pub write_new : LogHandlerRing → ℕ → WriteType → List ℕ → List ℕ → ℕ → LogHandlerRing
unfolding push_all lines line_records
write_new h level wt time msg times = record {
  records = push_all h.records (line_records level wt time times (lines msg));
  last_lines_count = length (lines msg);
}

unfoldable pub write_last : LogHandlerRing → ℕ → WriteType → List ℕ → List ℕ → ℕ → LogHandlerRing
unfolding is_update lines update_lines pop_lines change begin forward
write_last h level wt time msg times =
    let b : ℕ = forward (begin h.records) (h.records.size - h.last_lines_count) in
    let marked : RingBuffer LogRecord =
      change h.records b (λ c. record c { time = time; times = times; lvl = level; wt = wt }) in
    let written : RingBuffer LogRecord = update_lines level wt times (lines msg) b marked in
    let popped : RingBuffer LogRecord × ℕ =
      pop_lines (length (lines msg) + 2) (length (lines msg)) h.last_lines_count written in
    if is_update wt
    then record { records = popped.0; last_lines_count = popped.1 }
    else record h { records = marked }

unfoldable pub write_handler : LogHandlerRing → ℕ → WriteType → List ℕ → List ℕ → ℕ → LogHandlerRing
unfolding is_new_record write_new write_last empty
write_handler h level wt time msg times =
    if is_new_record wt || empty h.records
    then write_new h level wt time msg times
    else if leb h.last_lines_count h.records.size
    then write_last h level wt time msg times
    else h

-- What `read_lock` gives: the positions of the records, and their iterators.
pub record LogRange : Type 0 where
  pub b : ℕ
  pub e : ℕ
  pub start_pos : ℕ
  pub end_pos : ℕ
  pub max_pos : ℕ

unfoldable pub read_lock : LogHandlerRing → ℕ → ℕ → LogRange
unfolding begin end forward
read_lock h preferred_start max_records =
    let r : RingBuffer LogRecord = h.records in
    if ltb r.size max_records
    then record { b = begin r; e = end r; start_pos = 0; end_pos = r.size; max_pos = r.size }
    else if ltb r.size ((preferred_start + max_records) % word64)
    then record {
      b = forward (begin r) (r.size - max_records);
      e = end r;
      start_pos = r.size - max_records;
      end_pos = r.size;
      max_pos = r.size;
    }
    else record {
      b = forward (begin r) preferred_start;
      e = forward (begin r) ((preferred_start + max_records) % word64);
      start_pos = preferred_start;
      end_pos = (preferred_start + max_records) % word64;
      max_pos = r.size;
    }

-- The records between the iterators.
unfoldable pub copy_records : LogHandlerRing → LogRange → List LogRecord
unfolding walk
copy_records h l = walk blank (2 * length h.records.items) h.records.items l.b l.e

unfoldable pub get_records : LogHandlerRing → ℕ → ℕ → List LogRecord
unfolding read_lock copy_records
get_records h preferred_start max_records = copy_records h (read_lock h preferred_start max_records)

-- `max_size(value)` and `clear()`, which leave the count of the last lines as it is.
unfoldable pub set_max_size : LogHandlerRing → ℕ → LogHandlerRing
unfolding resize
set_max_size h value = record h { records = resize blank h.records value }

unfoldable pub clear_records : LogHandlerRing → LogHandlerRing
unfolding clear
clear_records h = record h { records = clear blank h.records }
