-- ===== src/AnyReadSource.antt =====
-- include/boost/buffers/any_read_source.hpp: the type-erased read source, which remembers the first
-- error that its source reports.
pub mod Steps
pub mod Laws
pub mod Sticky
pub mod Simulation
pub mod Wrapper
mod Tests
use buffers.Prelude.{
  ℕ, ◌+◌, Bool, true, false, [], ◌∷◌, ◌++◌, Option, none, some, ltb, if◌then◌else◌,
}
use buffers.Error.{ErrorCodes, Result, ok, throws, invalid_argument}
use buffers.Sequence.{BufferSequence, Memory}
use buffers.Reading.{max_chunk, ReadResult, Reader, read_agrees, add_count}

-- The assertion on what `do_read` did, and `result += nread`
pub check_chunk :
    (e : ErrorCodes) {S : Type 0}
    → ReadResult e S
    → BufferSequence
    → Option (ReadResult e S)
    → Option (ReadResult e S)
check_chunk e out mb none = none
check_chunk e out mb (some r) = if read_agrees e r mb then some (add_count e out r) else none

module _ (e : ErrorCodes) {S : Type 0} (do_read : Reader e S) where
  -- A call of `do_read` for the buffers in `mb`
  pub call_chunk : ReadResult e S → BufferSequence → Option (ReadResult e S)
  unfolding check_chunk
  call_chunk out mb = check_chunk e out mb (do_read out.state out.mem mb out.code)

  -- The loop of `any_read_source::read` and what follows it: the buffers that `it` has not passed,
  -- `mb` with its length, and `result`, `ec`, the source and the memory so far.
  pub read_while : BufferSequence → BufferSequence → ℕ → ReadResult e S → Option (ReadResult e S)
  unfolding call_chunk
  read_while [] mb n out = if ltb 0 n then call_chunk out mb else some out
  read_while (b ∷ it) mb n out =
      let mb' = mb ++ b ∷ [] in
      elim (ltb (n + 1) max_chunk) [
        | true ↦ read_while it mb' (n + 1) out
        | false ↦ elim (call_chunk out mb') [
          | none ↦ none
          | some x ↦ elim (e.failed x.code) [ true ↦ some x | false ↦ read_while it [] 0 x ]
        ]
      ]

  -- `any_read_source::read`, through the virtual call `do_read`
  pub read_in_chunks : Reader e S
  unfolding read_while
  read_in_chunks s m dest ec =
      read_while dest [] 0 (record { count = 0; code = ec; state = s; mem = m })

module _ (e : ErrorCodes) where
  -- A type that `is_read_source` accepts; `size` and `rewind` are optional members.
  pub record OptionalSource : Type 1 where
    pub State : Type 0
    pub read : Reader e State
    pub size : Option (State → ℕ)
    pub rewind : Option (State → State)

module _ (e : ErrorCodes) (r : OptionalSource e) where
  -- `read_source_impl`: `source_` and `ec_`
  pub record ReadSourceImpl : Type 0 where
    pub source : r.State
    pub ec : e.Code

  pub init : r.State → ReadSourceImpl
  init s = record { source = s; ec = e.success }

  pub has_size : Bool
  has_size = elim (r.size) [ none ↦ false | some f ↦ true ]

  pub has_rewind : Bool
  has_rewind = elim (r.rewind) [ none ↦ false | some f ↦ true ]

  pub size : ReadSourceImpl → Result ℕ
  size s = elim (r.size) [ none ↦ throws invalid_argument | some f ↦ ok (f s.source) ]

  pub rewind : ReadSourceImpl → Result ReadSourceImpl
  rewind s = elim (r.rewind) [
    | none ↦ throws invalid_argument
    | some f ↦ ok (record { source = f s.source; ec = e.success })
  ]

  -- The source's result as one of the wrapper: `ec_ = ec`.
  pub remember : ReadResult e r.State → ReadResult e ReadSourceImpl
  remember x = record {
    count = x.count;
    code = x.code;
    state = record { source = x.state; ec = x.code };
    mem = x.mem;
  }

  pub do_read : Reader e ReadSourceImpl
  unfolding remember
  do_read s m dest ec = elim (e.failed s.ec) [
    | true ↦ some (record { count = 0; code = s.ec; state = s; mem = m })
    | false ↦ elim (r.read s.source m dest ec) [ none ↦ none | some x ↦ some (remember x) ]
  ]
