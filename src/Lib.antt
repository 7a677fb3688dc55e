-- ===== src/Lib.antt =====
-- Boost.Buffers (namespace boost::buffers): buffers, buffer sequences, the algorithms that copy and
-- trim them, and the dynamic buffers that queue bytes.
--
-- The program. A buffer is a contiguous region of memory, a buffer sequence is a range of buffers.
-- `copy` moves bytes from one sequence to another. The trimming algorithms (`prefix`, `suffix` and
-- the others) reach a sequence through its overload of `tag_invoke`: a buffer and a pair of buffers
-- have their own, every other sequence is wrapped in `slice_of`. A dynamic buffer queues bytes:
-- `prepare` gives room behind the readable bytes, `commit` makes a part of it readable, `consume`
-- removes readable bytes from the front; `circular_buffer` returns pairs of buffers for both,
-- `flat_buffer` and `string_buffer` single ones. `any_buffers`, `any_source` and `any_read_source`
-- hold a sequence or a source of any type behind virtual functions; both sources read in chunks of at
-- most sixteen buffers, and `any_source` presents the bytes of a sequence by `copy` and `sans_prefix`.
--
-- The files.
-- Prelude: Boolean tests, `std::size_t`, lists over the native numbers.
-- Error: src/detail/except.cpp, include/boost/buffers/error.hpp and src/error.cpp; the results that
--   calls end in, and `ErrorCodes`, what the code uses of the error codes of Boost.System.
-- Buffer: include/boost/buffers/buffer.hpp, the classes `mutable_buffer` and `const_buffer`;
--   `do_slice` is their slicing, `advance` is `operator+=`; and make_buffer.hpp.
-- Sequence: the algorithms of buffer.hpp, front.hpp and to_string.hpp on sequences.
-- Copy: include/boost/buffers/copy.hpp; `round` is the body of the loop. Copy.Spans has the
--   sequences up to how buffers divide them.
-- Pair: include/boost/buffers/buffer_pair.hpp and src/buffer_pair.cpp.
-- Slice: `slice_of` of include/boost/buffers/slice.hpp; the names are those of its private members.
--   Slice.Inv has the invariant and the addresses that the members denote, Slice.Iter what an
--   algorithm that iterates the slice finds, and Slice.Back what it finds going backwards.
-- Trim: the algorithms at the end of slice.hpp over the interface `Sliceable`, which
--   Trim.Instances fills for a buffer, a pair of buffers and `slice_of`.
-- Reading: what include/boost/buffers/read_source.hpp and data_source.hpp ask of a source.
-- AnySource: include/boost/buffers/any_source.hpp and src/any_source.cpp; `read_all` is `read`,
--   `data_read` is that of `data_model`. AnySource.Models is about the models of read sources,
--   AnySource.Fragments about how the target is divided, and AnySource.Handle has the class with
--   its shared pointer.
-- AnyReadSource: include/boost/buffers/any_read_source.hpp; `read_in_chunks` is `read`.
--   AnyReadSource.Simulation relates the reads of two sources, and AnyReadSource.Wrapper uses it for
--   the wrapper and the source in it.
-- AnyBuffers: include/boost/buffers/any_buffers.hpp and src/any_buffers.cpp; AnyBuffers.Range is
--   the interface of the sequences that are wrapped. AnyBuffers.Objects has the storages of the
--   iterators with the objects that live there, and programs of operations on iterators;
--   AnyBuffers.Owners has the `shared_ptr`s of sequences, without iterators, and programs that
--   make, copy, assign and destroy sequences, with the implementations that these own.
-- Circular: include/boost/buffers/circular_buffer.hpp and src/circular_buffer.cpp.
-- Flat: include/boost/buffers/flat_buffer.hpp.
-- StringBuffer: include/boost/buffers/string_buffer.hpp. StringBuffer.Runs has rows of calls.
-- DynamicBuffer: include/boost/buffers/dynamic_buffer.hpp, the wrapper over the interface of a
--   dynamic buffer, which DynamicBuffer.Instances fills for `circular_buffer` and `flat_buffer`;
--   DynamicBuffer.Wrapped makes the wrapper of a queue of bytes one itself.
-- ByteQueue: what doc/modules/ROOT/pages/DynamicBuffer.adoc says of a dynamic buffer, as an interface
--   of its addresses, which ByteQueue.Instances fills for the same two; ByteQueue.Laws puts it
--   together with `copy`, and ByteQueue.Read with `any_source`. ByteQueue.Steps is a client of a queue
--   as a relation of steps, and ByteQueue.Fifo what holds of all its runs; ByteQueue.Pipe is
--   about a data source that is read into a queue, in any order of steps and by a loop, which runs
--   on a turn for each byte that is left and one more. ByteQueue.Storage has where a queue keeps its
--   bytes.
--
-- The model. An address is a number, a region is the list of its addresses, and what an operation
-- does is stated of these lists: an equation between them says which bytes, in which order, and how
-- many. A memory gives every address its byte, so buffers may overlap. `std::size_t` has 64 bits and
-- its sums and differences wrap round (`add_size`, `sub_size`); a region of a circular buffer has at
-- most 2^63 bytes (`max_object`), the largest size of an object. Loops run on fuel: `copy` on one
-- round for each buffer of both sequences and two more, the loops of `slice_of` on one for each
-- buffer and one more; the theorems state that they end. A failed assertion, a read past the end
-- of a sequence, a division by zero and the use of a null pointer are faults: `none`, or `fault` in a
-- `Result`. `std::memcpy` copies first to last; where regions overlap its result is undefined in
-- C++, and what a theorem says of that case is said of this order only.
--
-- Code that a user brings is a parameter: a read source (`ReadSource`, `OptionalSource`) may do
-- anything, a type of data sources (`DataSource`) or of sequences (`SequenceType`) has the laws of its
-- range, and both are filled by types of this library. `read_until_failed` and `iterate` are loops of a
-- caller, on fuel: a call for each byte that is left and one more, a round for each buffer and one more.
--
-- Not modelled: the interfaces of streams and sinks, which have no implementation; metafunctions;
-- destructors, but those of `string_buffer`, of `any_buffers` and of its iterators; failures of
-- memory allocation.
pub mod Prelude
pub mod Error
pub mod Buffer
pub mod Sequence
pub mod Copy
pub mod Pair
pub mod Slice
pub mod Trim
pub mod Reading
pub mod AnySource
pub mod AnyReadSource
pub mod AnyBuffers
pub mod Circular
pub mod Flat
pub mod StringBuffer
pub mod DynamicBuffer
pub mod ByteQueue
