-- ===== src/AnySource.antt =====
-- include/boost/buffers/any_source.hpp and src/any_source.cpp: the type-erased source. Its models
-- are constructors of one type, and a virtual call is a function by clauses.
pub mod Steps
pub mod After
pub mod Loop
pub mod Laws
pub mod Models
pub mod Drain
pub mod Fragments
pub mod Handle
mod Tests
use buffers.Prelude.{
  ℕ, ◌+◌, Bool, true, false, ◌&&◌, ◌||◌, not, [], ◌∷◌, ◌++◌, Option, none, some, ltb, leb, ◌==◌,
  if◌then◌else◌, add_size, size_max,
}
use buffers.Error.{ErrorCodes, make_error_code, eof, Result, ok, throws, invalid_argument}
use buffers.Sequence.{BufferSequence, Memory, size}
use buffers.Copy.{copy}
use buffers.Trim.{◌>>=◌, sans_prefix}
use buffers.Reading.{max_chunk, at_end, ReadResult, Reader, read_agrees, add_count, ReadSource}
use buffers.Reading.Data.{DataSource}

module _ (e : ErrorCodes) {S : Type 0} (read1 : Reader e S) where
  -- The loop of `any_source::read`: the buffers that `it` has not passed, `mb` with its length, and
  -- `result`, `ec`, the source and the memory so far.
  pub read_loop : BufferSequence → BufferSequence → ℕ → ReadResult e S → Option (ReadResult e S)
  read_loop [] mb n out = some out
  read_loop (b ∷ it) mb n out =
      let mb' = mb ++ b ∷ [] in
      elim (ltb (n + 1) max_chunk && not (at_end it)) [
        | true ↦ read_loop it mb' (n + 1) out
        | false ↦ elim (read1 out.state out.mem mb' out.code) [
          | none ↦ none
          | some r ↦ elim (read_agrees e r mb') [
            | false ↦ none
            | true ↦ elim (e.failed r.code || at_end it) [
              | true ↦ some (add_count e out r)
              | false ↦ read_loop it [] 0 (add_count e out r)
            ]
          ]
        ]
      ]

  -- `any_source::read`, through the virtual call `read1`
  unfoldable pub read_all : Reader e S
  unfolding read_loop
  read_all s m dest ec = read_loop dest [] 0 (record { count = 0; code = ec; state = s; mem = m })

-- `data_model`: `source_`, `size_` and `nread_`
module _ (d : DataSource) where
  pub record DataModel : Type 0 where
    pub source : d.slices.Source
    pub size : ℕ
    pub nread : ℕ

  pub data_model : d.slices.Source → DataModel
  data_model b = record { source = b; size = size (d.buffers_of b); nread = 0 }

module _ (e : ErrorCodes) (d : DataSource) where
  -- `data_model::read`
  pub data_read : Reader e (DataModel d)
  data_read s m dest ec = do
    c ← sans_prefix d.slices s.source s.nread
    bs ← d.elements_of c
    p ← copy m dest bs size_max
    let nread = add_size s.nread p.0
    some (record {
      count = p.0;
      code = if leb s.size nread then make_error_code e eof else e.success;
      state = record s { nread = nread };
      mem = p.1;
    })

-- The models that a source holds: the empty one, and those of data and read sources.
module _ (e : ErrorCodes) (d : DataSource) (r : ReadSource e) where
  pub data AnyImpl : Type 0 where
    empty_model : AnyImpl
    data_source : DataModel d → AnyImpl
    read_model : r.State → AnyImpl
    sized_read_model : ℕ → r.State → AnyImpl

  pub has_size : AnyImpl → Bool
  has_size empty_model = true
  has_size (data_source s) = true
  has_size (read_model s) = false
  has_size (sized_read_model n s) = true

  pub has_buffers : AnyImpl → Bool
  has_buffers empty_model = true
  has_buffers (data_source s) = true
  has_buffers (read_model s) = false
  has_buffers (sized_read_model n s) = false

  -- `size()`, which `any_impl` implements by an exception
  pub impl_size : AnyImpl → Result ℕ
  impl_size empty_model = ok 0
  impl_size (data_source s) = ok s.size
  impl_size (read_model s) = throws invalid_argument
  impl_size (sized_read_model n s) = ok n

  -- The buffers of `data()`
  pub impl_data : AnyImpl → Result BufferSequence
  impl_data empty_model = ok []
  impl_data (data_source s) = ok (d.buffers_of s.source)
  impl_data (read_model s) = throws invalid_argument
  impl_data (sized_read_model n s) = throws invalid_argument

  pub impl_rewind : AnyImpl → AnyImpl
  impl_rewind empty_model = empty_model
  impl_rewind (data_source s) = data_source (record s { nread = 0 })
  impl_rewind (read_model s) = read_model (r.rewind s)
  impl_rewind (sized_read_model n s) = sized_read_model n (r.rewind s)

  -- The result of a model's source as one of the model.
  with_state : {S : Type 0} → (S → AnyImpl) → ReadResult e S → Option (ReadResult e AnyImpl)
  with_state f x = some (record { count = x.count; code = x.code; state = f x.state; mem = x.mem })

  pub impl_read : Reader e AnyImpl
  unfolding with_state
  impl_read empty_model m dest ec =
      some (record { count = 0; code = make_error_code e eof; state = empty_model; mem = m })
  impl_read (data_source s) m dest ec = data_read e d s m dest ec >>= with_state data_source
  impl_read (read_model s) m dest ec = r.read s m dest ec >>= with_state read_model
  impl_read (sized_read_model n s) m dest ec =
      r.read s m dest ec >>= with_state (sized_read_model n)
