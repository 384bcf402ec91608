-- ===== src/Tests/LogRing.antt =====
-- util::log_handler_ring (src/util/log/log_handler_ring.hpp) with room for four lines.
use braincells.Common.{
  get_elem?, ◌+◌, ℕ, ◌-◌, ◌≡◌, refl, List, [], ◌∷◌, ◌++◌, length, arith, word64,
}
use braincells.RingBuffer.{pop, begin, end, forward, empty}
use braincells.RingBuffer.Refine.{contents, keep_last}
use braincells.Views.Split as Split
use braincells.LogRing.{
  new_record, update, LogRecord, LogHandlerRing, blank, lines, write_handler, write_last,
  update_lines, pop_lines, change, is_new_record, is_update, read_lock,
}
use mathlib.Core.Option as Option
use braincells.Views.Split.Spec.{fields}
use braincells.LogRing.Laws.{line_record, message_lines, write_new_refines}
use braincells.LogRing.Update.{update_short}

abbrev line : ℕ → LogRecord
line c = record { time = []; msg = c ∷ []; times = 1; lvl = 2; wt = new_record }

abbrev full : LogHandlerRing
full = record {
  records = record {
    items = line b'd' ∷ line b'a' ∷ line b'b' ∷ line b'c' ∷ [];
    start = 1;
    insert = 1;
    size = 4;
  };
  last_lines_count = 2;
}

-- "x\ny"
abbrev message : List ℕ
message = b'x' ∷ 10 ∷ b'y' ∷ []

write_new_refines_example :
    let p = write_handler full 2 new_record (b'T' ∷ []) message 1 in
    (new : List LogRecord) × ((i : ℕ)
      → get_elem? new i
        ≡ Option.map (line_record 2 1 (b'T' ∷ []) i) (get_elem? (message_lines message) i))
    × (contents blank p.records ≡ keep_last 4 (contents blank full.records ++ new))
    × (p.last_lines_count ≡ length (message_lines message))
write_new_refines_example = write_new_refines full 2 1 (b'T' ∷ []) message (omega arith)

update_short_example :
    let p = write_handler full 2 update [] (b'z' ∷ []) 1 in
    (p.records.size + (length (message_lines (b'z' ∷ [])) + 1) ≡ 4)
    × (p.last_lines_count ≡ word64 - 1)
unfolding fields
update_short_example =
    update_short full 2 1 [] (b'z' ∷ []) (omega arith) (omega arith) (omega arith) (omega arith)

-- An update of two lines to one leaves two records of the four where three are meant, and the count of
-- the last lines is the largest number.
update_shorter :
    let p = write_handler full 2 update [] (b'z' ∷ []) 1 in
    (p.records.size ≡ 2) × (p.last_lines_count ≡ 18446744073709551615)
unfolding write_handler is_new_record write_last is_update lines update_lines pop_lines change begin
    end forward empty pop Split.split Split.split_if Split.pieces_loop Split.init Split.next
    Split.next_loop Split.next_round Split.piece Split.skip_delims Split.until_delim Split.has_delim
update_shorter = (refl, refl)

-- A position that overflows in the sum.
read_lock_overflows : (read_lock full 18446744073709551615 2).start_pos ≡ 18446744073709551615
unfolding read_lock
read_lock_overflows = refl
