-- ===== src/Reading.antt =====
-- include/boost/buffers/read_source.hpp and data_source.hpp: what a source is asked for.
pub mod Data
use buffers.Prelude.{ℕ, Bool, Option, List, [], ◌∷◌, true, false, ◌||◌, ◌==◌, add_size}
use buffers.Error.{ErrorCodes}
use buffers.Sequence.{BufferSequence, Memory, size}

-- The most buffers of one call, `N` in both `read` loops.
abbrev pub max_chunk : ℕ
max_chunk = 16

-- `it == end`, for the buffers that an iterator has not passed
abbrev pub at_end : BufferSequence → Bool
at_end [] = true
at_end (b ∷ bs) = false

module _ (e : ErrorCodes) where
  -- After a call of `read`: the number that it returned, `ec`, the source, and the memory.
  pub record ReadResult (S : Type 0) : Type 0 where
    pub count : ℕ
    pub code : e.Code
    pub state : S
    pub mem : Memory

  -- `read(dest, ec)`, from a source, the memory, `dest` and the `ec` of before; `none` is a fault.
  abbrev pub Reader : Type 0 → Type 0
  Reader S = S → Memory → BufferSequence → e.Code → Option (ReadResult S)

  -- `BOOST_ASSERT(ec.failed() || nread == buffers::size(dest))`
  unfoldable pub read_agrees : {S : Type 0} → ReadResult S → BufferSequence → Bool
  read_agrees r dest = e.failed r.code || r.count == size dest

  -- `result += nread`
  unfoldable pub add_count : {S : Type 0} → ReadResult S → ReadResult S → ReadResult S
  add_count out r = record r { count = add_size out.count r.count }

  -- A type that `is_read_source` accepts and that can be rewound.
  pub record ReadSource : Type 1 where
    pub State : Type 0
    pub read : Reader State
    pub rewind : State → State
