-- ===== src/DynamicBuffer/Wrapped/Tests.antt =====
-- A client of a wrapped circular buffer: it prepares three bytes, writes them, consumes one, and
-- commits two.
use buffers.Prelude.{
  ℕ, ◌≡◌, refl, [], ◌∷◌, ◌++◌, none, some, List, arith, if◌then◌else◌, ◌==◌, take,
}
use buffers.Error.{ok, plain_codes}
use buffers.Buffer.{buffer}
use buffers.Sequence.{BufferSequence, Memory, to_string}
use buffers.Sequence.Laws.{seq_addrs}
use buffers.Copy.Bytes.{Avoids}
use buffers.Circular.{CircularBuffer}
use buffers.Circular
use buffers.DynamicBuffer.{
  AnyDynamicBuffer, max_size, prepare, commit, consume, data_seq, unroll, unroll_loop,
}
use buffers.DynamicBuffer.Instances.{circular_dynamic}
use buffers.DynamicBuffer.Wrapped.{any_queue}
use buffers.ByteQueue.{ByteQueue}
use buffers.ByteQueue.Instances.{circular_queue}
use buffers.ByteQueue.Steady.{circular_steady}
use buffers.ByteQueue.Steps.{
  Client, prepares, writes, commits, consumes_before_commit, Run, here, next,
}
use buffers.ByteQueue.Storage.{Storage, circular_storage}
use buffers.ByteQueue.Pipe.{Pipe, Pumped, pump}
use buffers.ByteQueue.Pipe.Pump.{IsDone, pump-IsDone}
use buffers.ByteQueue.Pipe.Turn.{IsReady}
use buffers.DynamicBuffer.Wrapped.Storage.{any_storage}
use buffers.Reading.{ReadSource}
use buffers.Reading.Data.{sequence_source}
use buffers.AnySource.{DataModel, data_source}
use buffers.ByteQueue.Fifo.{IsSound, contents, Run-fifo}

abbrev queue : ByteQueue
queue = any_queue circular_queue circular_steady

-- The fourth of five bytes at 100 is readable.
abbrev held : CircularBuffer
held = record { base = 100; cap = 5; in_pos = 3; in_len = 1; out_size = 0 }

abbrev wrapped : AnyDynamicBuffer circular_dynamic
wrapped = record { inner = held; data_buffers = circular_dynamic.data_seq held; out_buffers = [] }

abbrev room : BufferSequence
room = buffer 104 1 ∷ buffer 100 2 ∷ []

abbrev prepared : AnyDynamicBuffer circular_dynamic
prepared = record wrapped { inner = record held { out_size = 3 }; out_buffers = room }

-- Each address holds itself; the output sequence is filled with zeros.
abbrev bytes : Memory
bytes = λ p. p

abbrev zeros : Memory
zeros = λ p. if p == 104 then 0 else if p == 100 then 0 else if p == 101 then 0 else p

abbrev start : Client queue
start = record { queue = wrapped; out = none; mem = bytes }

start-IsSound : IsSound queue start
start-IsSound = record { valid = (omega arith, refl); covers = λ bs h. absurd (cc) }

zeros_frame : (a : ℕ) → Avoids a (seq_addrs room) → zeros a ≡ bytes a
zeros_frame a u = ground arith

-- After the old byte is consumed, before the first two of the new ones are committed.
abbrev consumed : AnyDynamicBuffer circular_dynamic
consumed = record prepared {
  inner = record held { in_pos = 4; in_len = 0; out_size = 3 };
  data_buffers = buffer 104 0 ∷ buffer 100 0 ∷ [];
}

wrapped-prepare : prepare circular_dynamic wrapped 3 ≡ ok (prepared, room)
unfolding prepare unroll unroll_loop Circular.prepare
wrapped-prepare = refl

consume-prepared : consume circular_dynamic prepared 1 ≡ ok consumed
unfolding consume Circular.consume Circular.data_buffers unroll unroll_loop
consume-prepared = refl

abbrev final : Client queue
final = record { queue = commit circular_dynamic consumed 2; out = none; mem = zeros }

abbrev taken_out : List ℕ
taken_out = take 1 (to_string zeros (data_seq circular_dynamic prepared))

ran : Run queue start (take 2 (to_string zeros room)) (taken_out ++ []) final
ran =
    next
      (next
        (next (next here (prepares 3 prepared room wrapped-prepare))
          (writes room zeros refl zeros_frame))
        (consumes_before_commit 1 consumed tt consume-prepared))
      (commits room 2 refl)

Run-fifo_example :
    IsSound queue final
    × (contents queue start ++ take 2 (to_string zeros room)
        ≡ (taken_out ++ []) ++ contents queue final)
Run-fifo_example = Run-fifo queue start-IsSound ran

-- A source of three bytes, one of which was read, and a source that is not used.
abbrev source : BufferSequence
source = buffer 200 2 ∷ buffer 300 1 ∷ []

abbrev begun : DataModel sequence_source
begun = record { source = source; size = 3; nread = 1 }

abbrev ended : ReadSource plain_codes
ended = record {
  State = ℕ;
  read = λ s m dest ec. some (record { count = 0; code = 1; state = s; mem = m });
  rewind = λ s. s;
}

-- The wrapper of a circular buffer without a byte
abbrev ready : Pipe plain_codes sequence_source ended queue
ready = record {
  queue = record {
    inner = record held { in_len = 0 };
    data_buffers = circular_dynamic.data_seq (record held { in_len = 0 });
    out_buffers = [];
  };
  source = begun;
  mem = bytes;
}

abbrev storage : Storage queue
storage = any_storage circular_queue circular_steady circular_storage

ready-IsReady : IsReady plain_codes sequence_source ended queue storage 1 ready
unfolding max_size Circular.max_size
ready-IsReady = record {
  sound = record {
    queue_valid = (omega arith, refl);
    source_valid = record { fine = (omega arith, omega arith); sized = refl; within = omega arith };
  };
  empty = refl;
  fits = (omega arith, omega arith);
  some_bytes = omega arith;
  room = omega arith;
  apart = ground arith;
}

pump-IsDone_example :
    (t : Pumped plain_codes sequence_source ended queue) × (pump plain_codes sequence_source ended
        queue 3 1 ready.queue
        (data_source begun)
        bytes
        7
        []
      ≡ some t)
    × IsDone plain_codes sequence_source ended queue storage 1 ready [] t
pump-IsDone_example =
    pump-IsDone plain_codes sequence_source ended queue storage 1 3 ready 7 [] ready-IsReady
      (omega arith)
