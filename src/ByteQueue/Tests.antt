-- ===== src/ByteQueue/Tests.antt =====
-- A sequence that is copied into a circular buffer, round the end of its region.
use buffers.Prelude.{◌≡◌, refl, [], ◌∷◌, ◌++◌, drop, some, arith, size_max}
use buffers.Error.{ok}
use buffers.Buffer.{buffer}
use buffers.Sequence.{BufferSequence, Memory, to_string}
use buffers.Sequence.Laws.{seq_addrs}
use buffers.Copy.{copy}
use buffers.Copy.Bytes.{Apart, Distinct}
use buffers.Circular.{CircularBuffer, prepare}
use buffers.Circular.Inv.{IsValid}
use buffers.Flat.{FlatBuffer}
use buffers.Flat
use buffers.DynamicBuffer.Instances.{circular_dynamic}
use buffers.ByteQueue.Instances.{circular_queue, flat_queue}
use buffers.ByteQueue.Laws.{to_string-fill}

-- The fourth of five bytes at 100 is readable.
abbrev held : CircularBuffer
held = record { base = 100; cap = 5; in_pos = 3; in_len = 1; out_size = 0 }

abbrev prepared : CircularBuffer
prepared = record held { out_size = 3 }

abbrev room : BufferSequence
room = buffer 104 1 ∷ buffer 100 2 ∷ []

abbrev source : BufferSequence
source = buffer 200 2 ∷ buffer 300 1 ∷ []

abbrev bytes : Memory
bytes = λ p. p

held-IsValid : IsValid held
held-IsValid = omega arith

source-Apart : Apart (seq_addrs room) (seq_addrs source)
source-Apart = ground arith

held-prepared : circular_dynamic.prepare held 3 ≡ ok (prepared, room)
unfolding prepare
held-prepared = refl

to_string-fill_example :
    (m' : Memory) × (copy bytes room source size_max ≡ some (3, m'))
    × IsValid (circular_dynamic.commit prepared 3)
    × (to_string m' (circular_dynamic.data_seq (circular_dynamic.commit prepared 3))
        ≡ to_string bytes (circular_dynamic.data_seq held) ++ to_string bytes source)
    × ((c : CircularBuffer) × (circular_dynamic.consume (circular_dynamic.commit prepared 3) 1
          ≡ ok c)
        × IsValid c
        × (to_string m' (circular_dynamic.data_seq c)
            ≡ drop 1 (to_string bytes (circular_dynamic.data_seq held) ++ to_string bytes source)))
to_string-fill_example =
    to_string-fill circular_queue held prepared room source bytes 1 held-IsValid held-prepared
      source-Apart

-- The same with a flat buffer of eight bytes, of which the first two are readable.
abbrev flat : FlatBuffer
flat = record { base = 400; cap = 8; in_pos = 0; in_size = 2; out_size = 3 }

flat-IsValid : Flat.Laws.IsValid flat
flat-IsValid = omega arith

flat-Distinct : Distinct (flat_queue.readable flat ++ flat_queue.writable flat)
flat-Distinct = flat_queue.Distinct-both flat flat-IsValid
