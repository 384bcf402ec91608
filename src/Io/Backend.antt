-- ===== src/Io/Backend.antt =====
-- What the streams of src/core/io ask of the class they derive from: `handle_write`, `handle_read` and
-- `handle_seek` of a file descriptor, which the operating system carries out, are parameters with the
-- documented behaviour of write(2) and read(2).
use braincells.Common.{ℕ, ◌≤◌, ◌≡◌, List, ◌++◌, length, take}

-- A place that bytes are written to. A write appends a prefix of the bytes and returns its length.
pub record Sink : Type 1 where
  pub State : Type 0
  pub handle_write : State → List ℕ → ℕ × State
  pub written : State → List ℕ
  pub handle_write_le : (s : State) (bytes : List ℕ) → (handle_write s bytes).0 ≤ length bytes
  pub handle_write_appends :
      (s : State) (bytes : List ℕ)
      → written (handle_write s bytes).1 ≡ written s ++ take (handle_write s bytes).0 bytes

-- A place that bytes are read from. A read takes at most the bytes asked for from the front.
pub record Source : Type 1 where
  pub State : Type 0
  pub handle_read : State → ℕ → List ℕ × State
  pub remaining : State → List ℕ
  pub handle_read_le : (s : State) (size : ℕ) → length (handle_read s size).0 ≤ size
  pub handle_read_takes :
      (s : State) (size : ℕ)
      → (handle_read s size).0 ++ remaining (handle_read s size).1 ≡ remaining s

-- `seek_whence`
pub data Whence : Type 0 where
  cur set end : Whence
