-- ===== src/Pair/Tests.antt =====
-- A pair of buffers sliced past the end of the first, and the theorems at it.
use buffers.Prelude.{◌≡◌, refl, [], ◌∷◌, arith}
use buffers.Buffer.{buffer, null_buffer, remove_prefix, keep_prefix, do_slice}
use buffers.Sequence.Laws.{seq_addrs}
use buffers.Pair.{ConstBufferPair, MutableBufferPair, mutable_pair_sequence, slice_mutable_pair}
use buffers.Pair.Laws.{seq_addrs-slice_mutable_pair}

abbrev two : MutableBufferPair
two = record { first = buffer 100 2; second = buffer 200 3 }

abbrev two_const : ConstBufferPair
two_const = record { first = buffer 100 2; second = buffer 200 3 }

seq_addrs-slice_mutable_pair_example :
    seq_addrs (mutable_pair_sequence (slice_mutable_pair two remove_prefix 3)) ≡ 201 ∷ 202 ∷ []
seq_addrs-slice_mutable_pair_example =
    seq_addrs-slice_mutable_pair two remove_prefix 3 (omega arith) (omega arith) (omega arith)

keep_one :
    slice_mutable_pair two keep_prefix 1 ≡ record { first = buffer 100 1; second = null_buffer }
unfolding slice_mutable_pair do_slice
keep_one = refl
