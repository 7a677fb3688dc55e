-- ===== src/Trim/Tests.antt =====
-- The trimming algorithms on the three kinds of sequences, and the theorems at them.
use buffers.Prelude.{◌≡◌, refl, ◌++◌, some, arith, [], ◌∷◌}
use buffers.Buffer.{buffer, do_slice}
use buffers.Sequence.{BufferSequence, size}
use buffers.Sequence.Laws.{seq_addrs}
use buffers.Pair.{MutableBufferPair}
use buffers.Slice.{SliceOf}
use buffers.Trim.{keep_suffix, prefix, suffix, sans_prefix, sans_suffix}
use buffers.Trim.Instances.{found, slice_sliceable, buffer_sliceable}
use buffers.Trim.Laws.{cut_in_two}

abbrev three : BufferSequence
three = buffer 100 2 ∷ buffer 200 0 ∷ buffer 300 3 ∷ []

abbrev two : MutableBufferPair
two = record { first = buffer 100 2; second = buffer 200 3 }

cut_in_two_example :
    (p q r s : SliceOf) × (prefix slice_sliceable three 3 ≡ some p)
    × (sans_prefix slice_sliceable three 3 ≡ some q)
    × (sans_suffix slice_sliceable three 3 ≡ some r)
    × (suffix slice_sliceable three 3 ≡ some s)
    × (found p ++ found q ≡ seq_addrs three)
    × (found r ++ found s ≡ seq_addrs three)
cut_in_two_example = cut_in_two slice_sliceable three 3 (omega arith, omega arith) (omega arith)

one_buffer : suffix buffer_sliceable (buffer 100 4) 1 ≡ some (buffer 103 1)
unfolding suffix keep_suffix size do_slice
one_buffer = refl
