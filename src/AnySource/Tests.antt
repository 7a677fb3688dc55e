-- ===== src/AnySource/Tests.antt =====
-- A source of three buffers, of which one byte was read, and the theorems at it.
use buffers.Prelude.{ℕ, ◌≡◌, refl, [], ◌∷◌, map, some, arith, leb, if◌then◌else◌, ◌-◌}
use buffers.Error.{plain_codes, make_error_code, eof}
use buffers.Copy.Bytes.{Distinct, Apart}
use buffers.Buffer.{buffer}
use buffers.Sequence.{BufferSequence, Memory, to_string, size}
use buffers.Sequence.Laws.{seq_addrs}
use buffers.Reading.{ReadResult, ReadSource}
use buffers.Reading.Data.{sequence_source}
use buffers.AnySource.{
  DataModel, AnyImpl, data_source, read_model, sized_read_model, impl_read, impl_rewind, read_all,
}
use buffers.AnySource.After.{IsValid, after}
use buffers.AnySource.Laws.{read_all-data_source, to_string-read_all-rewind}
use buffers.AnySource.Models.{alone, read_all-read_model}
use buffers.AnySource.Fragments.{read_all_same}
use buffers.AnySource.Drain.{Drained, read_until_failed, read_until_failed-Drained}

-- A read source at its end.
abbrev ended : ReadSource plain_codes
ended = record {
  State = ℕ;
  read = λ s m dest ec. some (record { count = 0; code = 1; state = s; mem = m });
  rewind = λ s. s;
}

abbrev three : BufferSequence
three = buffer 100 2 ∷ buffer 200 0 ∷ buffer 300 3 ∷ []

-- Of its five bytes one has been read.
abbrev begun : DataModel sequence_source
begun = record { source = three; size = 5; nread = 1 }

begun-IsValid : IsValid sequence_source begun
begun-IsValid = record { fine = (omega arith, omega arith); sized = refl; within = omega arith }

abbrev bytes : Memory
bytes = λ p. p

abbrev room : BufferSequence
room = buffer 400 1 ∷ buffer 500 2 ∷ []

abbrev wide_room : BufferSequence
wide_room = buffer 400 4 ∷ buffer 500 4 ∷ []

abbrev reader :
    Memory → BufferSequence → ℕ → ReadResult plain_codes (AnyImpl plain_codes sequence_source ended)
reader m dest ec = after plain_codes sequence_source (λ s. data_source s) begun m dest 0

-- Three bytes into two buffers
read_all-data_source_example :
    read_all plain_codes
      (impl_read plain_codes sequence_source ended)
      (data_source begun)
      bytes
      room
      7
    ≡ some (reader bytes room 7)
read_all-data_source_example =
    read_all-data_source plain_codes sequence_source ended begun bytes room 7 begun-IsValid
      (omega arith)

count_and_code : ((reader bytes room 7).count ≡ 3) × ((reader bytes room 7).code ≡ 0)
count_and_code = (refl, refl)

wide_room-Distinct : Distinct (seq_addrs wide_room)
wide_room-Distinct = ground arith

wide_room-Apart : Apart (seq_addrs wide_room) (seq_addrs three)
wide_room-Apart = ground arith

to_string-read_all-rewind_example :
    (x : ReadResult plain_codes (AnyImpl plain_codes sequence_source ended)) × (read_all plain_codes
        (impl_read plain_codes sequence_source ended)
        (impl_rewind plain_codes sequence_source ended (data_source begun))
        bytes
        wide_room
        7
      ≡ some x)
    × (x.count ≡ 5)
    × (x.code ≡ make_error_code plain_codes eof)
    × (map x.mem (400 ∷ 401 ∷ 402 ∷ 403 ∷ 500 ∷ []) ≡ to_string bytes three)
to_string-read_all-rewind_example =
    to_string-read_all-rewind plain_codes sequence_source ended begun bytes wide_room 7
      begun-IsValid refl (omega arith) (omega arith) wide_room-Distinct wide_room-Apart

-- Four bytes are left, and two are read at a time.
read_until_failed-Drained_example : Drained plain_codes sequence_source ended begun bytes 0 (
    read_until_failed plain_codes
      (read_all plain_codes (impl_read plain_codes sequence_source ended))
      (buffer 400 2 ∷ [])
      5
      (record { count = 0; code = 0; state = data_source begun; mem = bytes }))
read_until_failed-Drained_example =
    read_until_failed-Drained plain_codes sequence_source ended (buffer 400 2 ∷ []) begun bytes 0
      refl (omega arith) (omega arith) begun-IsValid (ground arith)

-- A read source with some bytes left, which it does not store.
abbrev counting : ReadSource plain_codes
counting = record {
  State = ℕ;
  read = λ s m dest ec. some (record {
    count = if leb s (size dest) then s else size dest;
    code = if leb s (size dest) then 1 else 0;
    state = s - size dest;
    mem = m;
  });
  rewind = λ s. 4;
}

-- One byte is left, or four after a rewind.
read_all-read_model_example :
    (read_all plain_codes
        (impl_read plain_codes sequence_source counting)
        (read_model 1)
        bytes
        room
        0
      ≡ alone plain_codes sequence_source counting read_model
          (read_all plain_codes counting.read 1 bytes room 0))
    × (read_all plain_codes
          (impl_read plain_codes sequence_source counting)
          (sized_read_model 4 1)
          bytes
          room
          0
        ≡ alone plain_codes sequence_source counting
            (sized_read_model 4)
            (read_all plain_codes counting.read 1 bytes room 0))
    × (read_all plain_codes
          (impl_read plain_codes sequence_source counting)
          (impl_rewind plain_codes sequence_source counting (read_model 1))
          bytes
          room
          0
        ≡ alone plain_codes sequence_source counting read_model
            (read_all plain_codes counting.read 4 bytes room 0))
    × (read_all plain_codes
          (impl_read plain_codes sequence_source counting)
          (impl_rewind plain_codes sequence_source counting (sized_read_model 4 1))
          bytes
          room
          0
        ≡ alone plain_codes sequence_source counting
            (sized_read_model 4)
            (read_all plain_codes counting.read 4 bytes room 0))
read_all-read_model_example =
    read_all-read_model plain_codes sequence_source counting 4 1 bytes room 0

-- The addresses of `room`, in three buffers
abbrev split_room : BufferSequence
split_room = buffer 400 1 ∷ buffer 500 1 ∷ buffer 501 1 ∷ []

read_all_same_example :
    read_all plain_codes
      (impl_read plain_codes sequence_source ended)
      (data_source begun)
      bytes
      room
      7
    ≡ read_all plain_codes
        (impl_read plain_codes sequence_source ended)
        (data_source begun)
        bytes
        split_room
        7
read_all_same_example =
    read_all_same plain_codes sequence_source ended begun bytes room split_room 7 begun-IsValid
      (omega arith) refl refl
