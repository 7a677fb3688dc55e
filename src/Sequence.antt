-- ===== src/Sequence.antt =====
-- Buffer sequences: the algorithms `begin`, `end`, `size` and `length` of
-- include/boost/buffers/buffer.hpp, `front` of front.hpp and `to_string` of to_string.hpp.
-- A sequence is the list of the buffers that its iterators visit, an iterator is a position.
pub mod Laws
mod Tests
use buffers.Prelude.{
  ℕ, zero, suc, ◌+◌, ◌-◌, Bool, List, [], ◌∷◌, ◌++◌, map, Option, none, some, ◌==◌, if◌then◌else◌,
  length, get_elem?, add_size, sub_size,
}
use buffers.Buffer.{BasicBuffer, null_buffer}
use buffers.Buffer.Laws.{addrs}

abbrev pub BufferSequence : Type 0
BufferSequence = List BasicBuffer

-- A memory gives each address its byte.
abbrev pub Memory : Type 0
Memory = ℕ → ℕ

-- `begin(b)` and `end(b)` of a single buffer are the ends of a sequence of one.
abbrev pub singleton : BasicBuffer → BufferSequence
singleton b = b ∷ []

abbrev pub begin : BufferSequence → ℕ
begin bs = 0

abbrev pub end : BufferSequence → ℕ
end bs = length bs

-- The loop of `tag_invoke(size_tag, bs)`: `n` is the sum so far.
size_from : ℕ → BufferSequence → ℕ
size_from n [] = n
size_from n (b ∷ bs) = size_from (add_size n b.len) bs

unfoldable pub size : BufferSequence → ℕ
unfolding size_from
size bs = size_from 0 bs

-- `length_impl` for iterators that can be subtracted
length_by_difference : ℕ → ℕ → ℕ
length_by_difference first last = sub_size last first

-- `length_impl` for other iterators: the loop counts its rounds. `none`: the fuel ran out.
pub length_by_count : ℕ → ℕ → ℕ → ℕ → Option ℕ
length_by_count zero first last n = none
length_by_count (suc fuel) first last n =
    let rest = length_by_count fuel (first + 1) last (add_size n 1) in
    if first == last then some n else rest

-- `length(bs)`
pub sequence_length : BufferSequence → ℕ
unfolding length_by_difference
sequence_length bs = length_by_difference (begin bs) (end bs)

-- `front(bs)`, of a mutable sequence
pub front : BufferSequence → BasicBuffer
front [] = null_buffer
front (b ∷ bs) = b

-- The bytes of a buffer, as `s.append(b.data(), b.size())` reads them.
abbrev pub bytes : Memory → BasicBuffer → List ℕ
bytes m b = map m (addrs b)

-- The loop of `to_string`: `s` is the string so far.
to_string_from : Memory → List ℕ → BufferSequence → List ℕ
to_string_from m s [] = s
to_string_from m s (b ∷ bs) = to_string_from m (s ++ bytes m b) bs

pub to_string : Memory → BufferSequence → List ℕ
unfolding to_string_from
to_string m bs = to_string_from m [] bs
