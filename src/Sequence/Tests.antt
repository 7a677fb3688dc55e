-- ===== src/Sequence/Tests.antt =====
-- A sequence of two buffers, and the theorems at it.
use buffers.Prelude.{◌+◌, ◌≡◌, refl, [], ◌∷◌}
use buffers.Buffer.{buffer, null_buffer}
use buffers.Sequence.{BufferSequence, Memory, size, front}
use buffers.Sequence.Laws.{size-length}

abbrev pair : BufferSequence
pair = buffer 100 2 ∷ buffer 200 3 ∷ []

-- Each address holds its successor.
abbrev memory : Memory
memory a = a + 1

size-length_example : size pair ≡ 5
size-length_example = size-length pair

fronts : (front pair ≡ buffer 100 2) × (front [] ≡ null_buffer)
unfolding front
fronts = (refl, refl)
