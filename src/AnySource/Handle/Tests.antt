-- ===== src/AnySource/Handle/Tests.antt =====
-- Handles that share a source, and the theorems at them.
use buffers.Prelude.{
  ℕ, ◌+◌, ◌≡◌, refl, true, false, [], ◌∷◌, ◌++◌, some, ◌==◌, if◌then◌else◌, arith,
}
use buffers.Error.{plain_codes, ok, throws, invalid_argument, make_error_code, eof}
use buffers.Buffer.{buffer}
use buffers.Sequence.{BufferSequence, Memory}
use buffers.Reading.{ReadSource}
use buffers.Reading.Data.{sequence_source}
use buffers.AnySource.{
  DataModel, empty_model, data_source, impl_rewind, data_model, has_size, has_buffers, impl_size,
  impl_data,
}
use buffers.AnySource.After.{IsValid}
use buffers.AnySource.Handle.{
  AnySource, Store, default_source, copy_construct, move_construct, move_assign, source_size,
  from_data, from_read, from_sized_read, source_has_size, source_has_buffers, source_rewind,
  source_data, source_read,
}
use buffers.AnySource.Handle.Shared.{moved_from_is_empty, source_read-copy_construct}

-- A read source at its end.
abbrev ended : ReadSource plain_codes
ended = record {
  State = ℕ;
  read = λ s m dest ec. some (record { count = 0; code = 1; state = s; mem = m });
  rewind = λ s. s;
}

abbrev three : BufferSequence
three = buffer 100 2 ∷ buffer 200 0 ∷ buffer 300 3 ∷ []

-- Of its five bytes one has been read.
abbrev begun : DataModel sequence_source
begun = record { source = three; size = 5; nread = 1 }

begun-IsValid : IsValid sequence_source begun
begun-IsValid = record { fine = (omega arith, omega arith); sized = refl; within = omega arith }

abbrev bytes : Memory
bytes = λ p. p

abbrev room : BufferSequence
room = buffer 400 1 ∷ buffer 500 2 ∷ []

abbrev wide_room : BufferSequence
wide_room = buffer 400 4 ∷ buffer 500 4 ∷ []

-- The cell 1 has the source, and the next is free.
abbrev store : Store plain_codes sequence_source ended
store = record { cell = λ q. if q == 1 then data_source begun else empty_model; next = 2 }

abbrev handle : AnySource
handle = record { sp = 1 }

moved_from_is_empty_example :
    ((move_construct handle).0.sp ≡ 1)
    × (move_assign default_source handle ≡ move_construct handle)
    × (source_size plain_codes sequence_source ended store (move_construct handle).1 ≡ ok 0)
    × (source_data plain_codes sequence_source ended store (move_construct handle).1 ≡ ok [])
    × ((h' : Store plain_codes sequence_source ended) × (source_read plain_codes sequence_source
            ended store
            (move_construct handle).1
            bytes
            room
            7
          ≡ some (h', 0, make_error_code plain_codes eof, bytes)))
moved_from_is_empty_example =
    moved_from_is_empty plain_codes sequence_source ended store default_source handle bytes room 7
      refl refl

source_read-copy_construct_example :
    (h1 h2 : Store plain_codes sequence_source ended) × (n1 n2 : ℕ) × (c1 c2 : ℕ) × (m1 m2 : Memory)
    × (source_read plain_codes sequence_source ended store handle bytes room 7
        ≡ some (h1, n1, c1, m1))
    × (source_read plain_codes sequence_source ended h1 (copy_construct handle) m1 wide_room 8
        ≡ some (h2, n2, c2, m2))
    × (source_read plain_codes sequence_source ended store handle bytes (room ++ wide_room) 7
        ≡ some (h2, n1 + n2, c2, m2))
source_read-copy_construct_example =
    source_read-copy_construct plain_codes sequence_source ended store handle begun bytes room
      wide_room 7 8 refl begun-IsValid refl refl (omega arith)

-- What the constructors make: the models of a data source and of a read source whose size is known.
abbrev made : Store plain_codes sequence_source ended × AnySource
made = from_data plain_codes sequence_source ended store three

abbrev sized : Store plain_codes sequence_source ended × AnySource
sized = from_sized_read plain_codes sequence_source ended store 9 0

constructed :
    (made.1.sp ≡ 2)
    × (source_has_buffers plain_codes sequence_source ended made.0 made.1 ≡ true)
    × (source_data plain_codes sequence_source ended made.0 made.1 ≡ ok three)
    × (source_has_buffers plain_codes sequence_source ended sized.0 sized.1 ≡ false)
    × (source_size plain_codes sequence_source ended sized.0 sized.1 ≡ ok 9)
    × (source_data plain_codes sequence_source ended sized.0 sized.1 ≡ throws invalid_argument)
unfolding from_data from_sized_read source_has_buffers source_data source_size data_model
    has_buffers impl_data impl_size
constructed = (refl, refl, refl, refl, refl, refl)

-- A read source without a size is not asked for one, and rewinding a source is seen by its copies.
abbrev unsized : Store plain_codes sequence_source ended × AnySource
unsized = from_read plain_codes sequence_source ended store 0

asked :
    (source_has_size plain_codes sequence_source ended unsized.0 unsized.1 ≡ false)
    × (source_size plain_codes sequence_source ended unsized.0 unsized.1 ≡ throws invalid_argument)
    × ((source_rewind plain_codes sequence_source ended store handle).cell
          (copy_construct handle).sp
        ≡ data_source (record begun { nread = 0 }))
unfolding from_read source_has_size source_size source_rewind has_size impl_size impl_rewind
    copy_construct
asked = (refl, refl, refl)
