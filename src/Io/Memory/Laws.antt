-- ===== src/Io/Memory/Laws.antt =====
-- What the memory back end of src/core/io/rw_impl.hpp writes and reads, and where it goes wrong.
use braincells.Common.{
  take_all, drop_all, ℕ, zero, ◌+◌, ◌-◌, ◌≤◌, ◌<◌, ◌≡◌, sym, ap, ap₂, ◌∙◌, true, List, ◌++◌, none,
  some, arith, length, take, drop, replicate, length-append, length-take, length-drop,
  length-replicate, take-append-drop, drop-drop, take-length-append, Bool-cases, inl, inr, ltb, leb,
  min, append-nil,
}
use braincells.Io.{copy_at, slice}
use braincells.Io.Backend.{Source, Whence, cur, set, end}
use braincells.Io.Memory.{Memory, avail, resize, handle_write, handle_read, handle_seek}

abbrev pub IsValid : Memory → Type 0
IsValid m = m.pos ≤ length m.storage

length-resize : (xs : List ℕ) (n : ℕ) → length (resize xs n) ≡ n
unfolding resize
length-resize xs n =
    let z : List ℕ = replicate (n - length xs) zero in
    let e : length z ≡ n - length xs = length-replicate (n - length xs) zero in
    omega (arith, length-append (take n xs) z, length-take n xs, e)

pub copy_at-resize :
    (xs bytes : List ℕ)
    → copy_at (resize xs (length xs + length bytes)) (length xs) bytes ≡ xs ++ bytes
unfolding copy_at resize
copy_at-resize xs bytes =
    let grown : List ℕ = resize xs (length xs + length bytes) in
    ap₂ {A = List ℕ} {B = List ℕ} (λ t u. t ++ (bytes ++ u))
      (ap (λ t. take (length xs) (t ++ replicate (length xs + length bytes - length xs) 0))
          (take_all (length xs + length bytes) xs (omega arith))
        ∙ take-length-append xs (replicate (length xs + length bytes - length xs) 0))
      (drop_all (length xs + length bytes) grown
        (omega (arith, length-resize xs (length xs + length bytes))))
    ∙ ap (λ t. xs ++ t) (append-nil bytes)

-- At the end of the container a write appends all its bytes.
pub handle_write_at_end :
    (m : Memory) (bytes : List ℕ)
    → m.pos ≡ length m.storage
    → handle_write m bytes
      ≡ some (length bytes, record { storage = m.storage ++ bytes; pos = m.pos + length bytes })
unfolding handle_write resize copy_at
handle_write_at_end m bytes e =
    let appended : resize m.storage (m.pos + length bytes)
        ≡ resize m.storage (length m.storage + length bytes) =
      ap (λ (k : ℕ). resize m.storage (k + length bytes)) e in
    let fits : leb (length m.storage + length bytes)
          (length (resize m.storage (m.pos + length bytes)))
        ≡ true =
      ground (arith, length-resize m.storage (m.pos + length bytes)) in
    rw fits (
      ap (λ t. some (length bytes, record { storage = t; pos = m.pos + length bytes }))
        (ap (λ (t : List ℕ). copy_at t (length m.storage) bytes) appended
          ∙ copy_at-resize m.storage bytes))

-- Before the end, as after a seek back, a write leaves the container: it is resized by the
-- position and written at the old size.
pub handle_write_before_end :
    (m : Memory) (bytes : List ℕ) → m.pos < length m.storage → handle_write m bytes ≡ none
unfolding handle_write
handle_write_before_end m bytes h = ground (arith, length-resize m.storage (m.pos + length bytes))

slice-drop :
    (m : Memory) (n : ℕ)
    → slice m.storage m.pos n ++ drop (m.pos + n) m.storage ≡ drop m.pos m.storage
unfolding slice
slice-drop m n =
    ap (λ t. take n (drop m.pos m.storage) ++ t) (sym (drop-drop n m.pos m.storage))
    ∙ take-append-drop n (drop m.pos m.storage)

length-slice :
    (m : Memory) (size n : ℕ)
    → n ≡ min size (avail m)
    → length (slice m.storage m.pos n) ≡ min size (avail m)
unfolding slice avail
length-slice m size n e =
    omega (arith, length-take n (drop m.pos m.storage), length-drop m.pos m.storage)

-- A read takes the next bytes, and reads short only at the end.
pub handle_read_lem :
    (m : Memory) (size : ℕ)
    → IsValid m
    → let r = handle_read m size in
      (r.0 ++ drop r.1.pos r.1.storage ≡ drop m.pos m.storage)
      × (length r.0 ≡ min size (avail m))
      × IsValid r.1
unfolding handle_read avail slice
handle_read_lem m size h = elim (Bool-cases (ltb size (avail m))) [
  | inl e ↦ rw e (slice-drop m size, length-slice m size size (ground arith), ground arith)
  | inr e ↦ rw e (slice-drop m (avail m), length-slice m size (avail m) (ground arith), omega arith)
]

-- Memory is a source that reads short only at its end.
pub handle_read-takes :
    (m : Memory) (size : ℕ)
    → let r = handle_read m size in
      (r.0 ++ drop r.1.pos r.1.storage ≡ drop m.pos m.storage) × (length r.0 ≡ min size (avail m))
unfolding handle_read avail slice
handle_read-takes m size = elim (Bool-cases (ltb size (avail m))) [
  | inl e ↦ rw e (slice-drop m size, length-slice m size size (ground arith))
  | inr e ↦ rw e (slice-drop m (avail m), length-slice m size (avail m) (ground arith))
]

abbrev pub memory_source : Source
memory_source = record {
  State = Memory;
  handle_read = handle_read;
  remaining = λ m. drop m.pos m.storage;
  handle_read_le = λ m size. omega (arith, (handle_read-takes m size).1);
  handle_read_takes = λ m size. (handle_read-takes m size).0;
}

pub memory_source_full :
    (m : Memory) (size : ℕ)
    → length (handle_read m size).0 ≡ min size (length (drop m.pos m.storage))
unfolding avail
memory_source_full m size = omega (arith, (handle_read-takes m size).1, length-drop m.pos m.storage)

-- A seek ends inside the container, at the target clamped to it.
pub handle_seek_lem :
    (m : Memory) (plus minus : ℕ) (w : Whence) (r : Memory)
    → handle_seek m plus minus w ≡ some r
    → IsValid r × (r.storage ≡ m.storage)
unfolding handle_seek
handle_seek_lem m plus minus cur r e = ground arith
handle_seek_lem m plus minus set r e = ground arith
handle_seek_lem m plus minus end r e = cc
