-- ===== src/Buffer/Tests.antt =====
-- A buffer sliced both ways, and the theorems at it.
use buffers.Prelude.{◌≡◌, refl}
use buffers.Buffer.{BasicBuffer, buffer, make_buffer, remove_prefix, do_slice}

abbrev four : BasicBuffer
four = buffer 100 4

past_the_end : do_slice four remove_prefix 9 ≡ buffer 104 0
unfolding do_slice
past_the_end = refl

of_an_array : make_buffer 100 3 4 ≡ buffer 100 12
unfolding make_buffer
of_an_array = refl
