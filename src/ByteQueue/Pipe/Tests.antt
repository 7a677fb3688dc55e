-- ===== src/ByteQueue/Pipe/Tests.antt =====
-- A source of three bytes that is moved through a circular buffer of five.
use buffers.Prelude.{ℕ, ◌≡◌, refl, [], ◌∷◌, some, arith}
use buffers.Error.{ok, plain_codes}
use buffers.Buffer.{buffer}
use buffers.Sequence.{BufferSequence, Memory}
use buffers.Sequence.Laws.{seq_addrs}
use buffers.Copy.Bytes.{Apart}
use buffers.Reading.{ReadResult, ReadSource}
use buffers.Reading.Data.{sequence_source}
use buffers.AnySource.{DataModel, AnyImpl, data_source}
use buffers.AnySource.After
use buffers.Circular.{CircularBuffer, prepare}
use buffers.DynamicBuffer.Instances.{circular_dynamic}
use buffers.ByteQueue.Instances.{circular_queue}
use buffers.ByteQueue.Pipe.{Pipe, Filling}

-- The fourth of five bytes at 100 is readable.
abbrev held : CircularBuffer
held = record { base = 100; cap = 5; in_pos = 3; in_len = 1; out_size = 0 }

abbrev prepared : CircularBuffer
prepared = record held { out_size = 3 }

abbrev room : BufferSequence
room = buffer 104 1 ∷ buffer 100 2 ∷ []

abbrev source : BufferSequence
source = buffer 200 2 ∷ buffer 300 1 ∷ []

abbrev bytes : Memory
bytes = λ p. p

held-prepared : circular_dynamic.prepare held 3 ≡ ok (prepared, room)
unfolding prepare
held-prepared = refl

-- A read source at its end, beside the data source, of which one byte was read.
abbrev ended : ReadSource plain_codes
ended = record {
  State = ℕ;
  read = λ s m dest ec. some (record { count = 0; code = 1; state = s; mem = m });
  rewind = λ s. s;
}

abbrev begun : DataModel sequence_source
begun = record { source = source; size = 3; nread = 1 }

abbrev CircularPipe : Type 0
CircularPipe = Pipe plain_codes sequence_source ended circular_queue

abbrev piped : CircularPipe
piped = record { queue = held; source = begun; mem = bytes }

room-Apart : Apart (seq_addrs room) (seq_addrs source)
room-Apart = ground arith

abbrev filling : Filling plain_codes sequence_source ended circular_queue piped
filling = record {
  n = 3;
  queue = prepared;
  out = room;
  prepared = held-prepared;
  some_room = refl;
  apart = room-Apart;
}

-- Two bytes are read, and two come out.
abbrev last_read : ReadResult plain_codes (AnyImpl plain_codes sequence_source ended)
last_read = After.after plain_codes sequence_source data_source begun bytes room 0

abbrev drained : CircularBuffer
drained = record { base = 100; cap = 5; in_pos = 0; in_len = 1; out_size = 0 }

abbrev arrived : CircularPipe
arrived = record { queue = drained; source = record begun { nread = 3 }; mem = last_read.mem }
