-- ===== src/Pair.antt =====
-- include/boost/buffers/buffer_pair.hpp and src/buffer_pair.cpp: two buffers that are sliced as
-- one sequence.
pub mod Laws
mod Tests
use buffers.Prelude.{ℕ, List, [], ◌∷◌, ltb, leb, if◌then◌else◌, sub_size}
use buffers.Buffer.{
  ConstBuffer, MutableBuffer, null_buffer, SliceHow, remove_prefix, keep_prefix, do_slice,
  do_slice_const,
}
use buffers.Sequence.{BufferSequence}

-- `std::array<const_buffer, 2>`
pub record ConstBufferPair : Type 0 where
  pub first : ConstBuffer
  pub second : ConstBuffer

-- `std::array<mutable_buffer, 2>`
pub record MutableBufferPair : Type 0 where
  pub first : MutableBuffer
  pub second : MutableBuffer

abbrev pub pair_sequence : ConstBufferPair → BufferSequence
pair_sequence bs = bs.first ∷ bs.second ∷ []

abbrev pub mutable_pair_sequence : MutableBufferPair → BufferSequence
mutable_pair_sequence bs = bs.first ∷ bs.second ∷ []

-- `tag_invoke(slice_tag, const_buffer_pair&, how, n)`
pub slice_pair : ConstBufferPair → SliceHow → ℕ → ConstBufferPair
slice_pair bs remove_prefix n =
    if ltb n bs.first.len
    then record bs { first = do_slice_const bs.first remove_prefix n }
    else record {
      first = do_slice_const bs.second remove_prefix (sub_size n bs.first.len);
      second = null_buffer;
    }
slice_pair bs keep_prefix n =
    if leb n bs.first.len
    then record { first = do_slice_const bs.first keep_prefix n; second = null_buffer }
    else record bs { second = do_slice_const bs.second keep_prefix (sub_size n bs.first.len) }

-- `tag_invoke(slice_tag, mutable_buffer_pair&, how, n)`
pub slice_mutable_pair : MutableBufferPair → SliceHow → ℕ → MutableBufferPair
slice_mutable_pair bs remove_prefix n =
    if ltb n bs.first.len then record bs { first = do_slice bs.first remove_prefix n } else record {
      first = do_slice bs.second remove_prefix (sub_size n bs.first.len);
      second = null_buffer;
    }
slice_mutable_pair bs keep_prefix n =
    if leb n bs.first.len
    then record { first = do_slice bs.first keep_prefix n; second = null_buffer }
    else record bs { second = do_slice bs.second keep_prefix (sub_size n bs.first.len) }
