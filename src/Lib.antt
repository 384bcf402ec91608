-- ===== src/Lib.antt =====
-- A model of parts of 10braincells, a C++ toolkit for a rendering engine: its containers and views, its
-- input states, its buffered streams, its serialisation, its poller, its command line and its log, each
-- translated from the header that implements it.
--
-- Common.antt holds what the modules share: tests, lists over the native numbers, and (Common/Bits) the
-- bits of a number and (Common/Texts) texts. Each component is a module of its own:
--   RingBuffer.antt   src/core/ring_buffer.hpp: `RingBuffer` is the class (`items` is `_data`, `start`,
--     `insert` and `size` are `_start`, `_insert`, `_size`), each method a function that returns the new
--     state; positions are those of ring_buffer_iterator, reduced only when read.
--   Views/Split.antt, Views/Trim.antt   src/core/ranges/split.hpp and trim.hpp: an iterator is the part
--     of the range from it on; `init`, `next_round` and `next_loop` are `init` and the loop of `next`.
--   Views/Subst.antt   src/core/ranges/subst.hpp: an iterator is the stack of the texts it is in, and
--     `find_round` and `find_loop` are the search for the next symbol. Views/Subst/Spec is the
--     recursive expansion that the pieces are compared with, Search and States follow the search and
--     the stack, Expansion and Refine put them together, and Limits is about the deepest level and a
--     symbol at the end.
--   Inp/KeyState.antt   src/inp/key_rt_state.hpp with the blocks of src/inp/state_block.hpp.
--   Inp/KeyIterator.antt   its key_iterator: `settle` is the loop that skips keys without a bit.
--     KeyIterator/Visits follows the loop, and Held compares it with what `test` says.
--   Inp/RelativeState.antt   src/inp/relative_rt_state.hpp: accumulated movement.
--   Inp/KeySwitch.antt   src/inp/key_switch_state.hpp: keys switched by the keys of a key_rt_state, which
--     KeySwitch/Decide takes one at a time and KeySwitch/Update over the iterator.
--   Io/Out.antt, Io/In.antt   src/core/io/out_base.hpp and in_base.hpp: streams over `Sink` and `Source`
--     (Io/Backend.antt), which state what write(2) and read(2) document; a thrown error is an `Outcome`.
--     Io/Copies is about the lists that they cut. The signed offset of a seek is two numbers, one of
--     them for the way back.
--   Io/Memory.antt   src/core/io/rw_impl.hpp over a container, which also fills the `Source` interface.
--   Byteconv.antt   src/core/byteconv.hpp: a type is a `Shape`, to_bytes and from_bytes recurse on it.
--   LogRing.antt   src/util/log/log_handler_ring.hpp, over the ring buffer and split. LogRing/Update
--     is about an update by fewer lines.
--   LogBase.antt   src/util/log/log_handler_base.hpp: the word that counts repeats.
--   DimensionalSeq.antt   src/util/ranges/dimensional_seq.hpp: an index in each dimension.
--   RobinMap.antt, RobinMap/Buckets.antt, RobinMap/Set.antt   src/core/robin_map.hpp: the array of
--     buckets with its sentinel, an iterator is an index, and a key is the number that a header stores.
--     RobinMap/Entries takes a table for the list of its entries, up to order, and RobinMap/Chain and
--     Valid state the invariant. Stop, Relocate, Settle, Fresh and Insert follow emplace through its two
--     loops, Gap, Shift, Close and Erase follow erase, Overwrite is about insert_or_assign, and Blank,
--     Branches and Reach put the operations together.
--   Epoller.antt   src/core/epoller.hpp: the calls of epoll and the handlers are the record `System`
--     (Epoller/Calls), Words is about the 64 bits that are registered for a descriptor, and Dispatch
--     and Shutdown about `wait`. Epoller/Thread.antt is epoller_thread: the steps of the one thread that
--     calls `start` and `stop` and of the one that waits, in any order.
--   IntParse.antt   src/core/int_parse.hpp: the characters of a literal are a list of their codes.
--   FixedVector.antt   src/core/fixed_vector.hpp: slots with or without a living object; `unrolled` is
--     gen_vec512 with the loop behind it.
--   ArgParse.antt   src/util/arg_parse.hpp and string_to_enum of src/core/enum_introspect.hpp: the fields
--     of a command are a list of `Field`s, the parsed values a list in their order, and an exception a
--     `Failure`. std::from_chars is a parameter.
--
-- Fuel: `walk` runs on twice the vector's length, `next_loop` and `pieces_loop` on the length of the
-- range; the theorems about them show that this is enough, since they state the full result. `probe`
-- runs on the largest distance, `relocate` and `shift_back` on the capacity: in a valid map the first
-- empty bucket and the first entry at home are less than a round away. `blocks` runs on the size, where
-- less than a block is left, `pop_lines` on two more than the lines, and `drain` on a number of
-- buffers that the source cannot fill.
-- `find_loop` runs on one more than the length of the text, which is enough unless the text ends in the
-- symbol, the loop over the pieces of subst on a number that its theorem gives, and `visit` on the keys
-- that are left.
-- Machine integers are native numbers with their wrap-around written out where it can occur.
-- Not modelled: the texts of exceptions and of the help, memory orders, allocation, moves of values (a
-- moved-from value is not read again by this code), and all that only calls the operating system or a
-- graphics library. PROJECT.json lists the parts.
pub mod IntParse
pub mod Epoller
pub mod Common
pub mod RingBuffer
pub mod Views
pub mod Inp
pub mod Io
pub mod LogRing
pub mod LogBase
pub mod DimensionalSeq
pub mod RobinMap
pub mod ArgParse
pub mod FixedVector
pub mod Byteconv
pub mod Tests
