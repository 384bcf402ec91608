-- ===== src/Tests/Io.antt =====
-- The streams of src/core/io over a sink that takes two bytes at a time and over memory.
use braincells.Common.{
  ℕ, ◌+◌, ◌≡◌, refl, List, [], ◌∷◌, ◌++◌, none, some, ◌⊎◌, length, take, min, arith,
}
use mathlib.Core.List.{flatten}
use braincells.Io.{copy_at, slice}
use braincells.Io.Backend.{Sink}
use braincells.Io.Out.{OutBase, flush, write, partial_write, pending}
use braincells.Io.Out.Laws as Out
use braincells.Io.In.{InBase, read, drain}
use braincells.Io.In.Laws as In
use braincells.Io.In.Seek.{IsView, position, target, seek-IsView}
use braincells.Io.Backend.{cur, end}
use braincells.Io.In.{seek}
use braincells.Io.Memory.{handle_seek, clamp}
use braincells.Io.Memory.{Memory, handle_write}
use braincells.Io.Memory.Laws.{memory_source, memory_source_full, handle_write_before_end}

-- Two bytes at a time.
abbrev trickle : Sink
trickle = record {
  State = List ℕ;
  handle_write = λ s bytes. (min 2 (length bytes), s ++ take (min 2 (length bytes)) bytes);
  written = λ s. s;
  handle_write_le = λ s bytes. omega arith;
  handle_write_appends = λ s bytes. refl;
}

abbrev unlimited : Sink
unlimited = record {
  State = List ℕ;
  handle_write = λ s bytes. (length bytes, s ++ take (length bytes) bytes);
  written = λ s. s;
  handle_write_le = λ s bytes. omega arith;
  handle_write_appends = λ s bytes. refl;
}

abbrev slow : OutBase trickle
slow = record { base = []; pos = 3; buff = 1 ∷ 2 ∷ 3 ∷ 4 ∷ [] }

abbrev fast : OutBase unlimited
fast = record { base = 9 ∷ []; pos = 3; buff = 1 ∷ 2 ∷ 3 ∷ 4 ∷ [] }

abbrev loaded : InBase memory_source
loaded = record {
  base = record { storage = 1 ∷ 2 ∷ 3 ∷ 4 ∷ 5 ∷ 6 ∷ []; pos = 2 };
  size = 2;
  pos = 0;
  buff = 1 ∷ 2 ∷ [];
}

abbrev tape : Memory
tape = record { storage = 1 ∷ 2 ∷ 3 ∷ []; pos = 1 }

abbrev full_tape : Memory
full_tape = record { storage = 1 ∷ 2 ∷ 3 ∷ []; pos = 3 }

-- The two bytes that went out are followed by the three that were pending: one of those twice.
flush_repeats :
    flush trickle slow
    ≡ (partial_write 2, record { base = 1 ∷ 2 ∷ []; pos = 3; buff = 3 ∷ 2 ∷ 3 ∷ 4 ∷ [] })
unfolding flush copy_at slice
flush_repeats = refl

flush_short_example :
    let w = (min 2 3) in
    let p = (flush trickle slow).1 in
    ((flush trickle slow).0 ≡ partial_write w)
    × (p.base ≡ 1 ∷ 2 ∷ [])
    × (pending trickle p ≡ 3 ∷ 2 ∷ 3 ∷ [])
    × (length (Out.stream trickle 4 p) ≡ 3 + w)
flush_short_example =
    Out.flush_short trickle 4 slow (record { whole = refl; pos_in = omega arith }) (omega arith)

write-Writes_example :
    Out.Writes unlimited 4 (5 ∷ 6 ∷ []) fast (write unlimited 4 fast (5 ∷ 6 ∷ []))
write-Writes_example =
    Out.write-Writes unlimited 4 fast (5 ∷ 6 ∷ []) (record { whole = refl; pos_in = omega arith })

loaded-IsValid : In.IsValid memory_source 2 loaded
loaded-IsValid = record { whole = refl; size_in = omega arith }

read-Reads_example : In.Reads memory_source 2 loaded (read memory_source 2 1 loaded 3)
read-Reads_example = In.read-Reads memory_source 2 1 loaded 3 loaded-IsValid

drain_lem_example :
    flatten (drain memory_source 2 5 loaded).0
      ++ In.available memory_source 2 (drain memory_source 2 5 loaded).1
    ≡ 1 ∷ 2 ∷ 3 ∷ 4 ∷ 5 ∷ 6 ∷ []
drain_lem_example = In.drain_lem memory_source 2 4 loaded loaded-IsValid

drain_complete_example : flatten (drain memory_source 2 5 loaded).0 ≡ 1 ∷ 2 ∷ 3 ∷ 4 ∷ 5 ∷ 6 ∷ []
drain_complete_example =
    In.drain_complete memory_source 2 memory_source_full (omega arith) 4 loaded loaded-IsValid
      (omega arith)

handle_write_before_end_example : handle_write tape (8 ∷ []) ≡ none
handle_write_before_end_example = handle_write_before_end tape (8 ∷ []) (omega arith)

-- The buffer has read two bytes ahead: one forward, and one back.
seek_both_ways :
    (seek memory_source handle_seek loaded 1 0 cur ≡ some (record loaded { pos = 1; size = 1 }))
    × (seek memory_source handle_seek (record loaded { pos = 1; size = 1 }) 0 1 cur
        ≡ some (record loaded {
          base = record { storage = 1 ∷ 2 ∷ 3 ∷ 4 ∷ 5 ∷ 6 ∷ []; pos = 0 };
          pos = 1;
          size = 0;
        }))
unfolding seek handle_seek clamp
seek_both_ways = (refl, refl)

seek-IsView_example :
    ((cur ≡ end) × (seek memory_source handle_seek loaded 9 0 cur ≡ none))
    ⊎ ((j : InBase memory_source) × (seek memory_source handle_seek loaded 9 0 cur ≡ some j)
        × IsView j
        × (j.base.storage ≡ loaded.base.storage)
        × (position j ≡ min (target loaded 9 0 cur) (length loaded.base.storage)))
seek-IsView_example =
    seek-IsView loaded 9 0 cur (record { behind = omega arith; inside = omega arith; same = refl })
