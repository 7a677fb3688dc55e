-- ===== src/AnyReadSource/Tests.antt =====
-- A read source that fills one buffer and then ends, and the theorems at it.
use buffers.Prelude.{ℕ, ◌-◌, ◌≡◌, refl, [], ◌∷◌, some, true, false, leb, if◌then◌else◌, none}
use buffers.Error.{plain_codes, ok}
use buffers.Buffer.{buffer}
use buffers.Sequence.{BufferSequence, Memory, size}
use buffers.Reading.{ReadResult, Reader, read_agrees, add_count}
use buffers.AnySource.{read_all}
use buffers.AnyReadSource.{
  OptionalSource, ReadSourceImpl, do_read, read_in_chunks, init, has_size, has_rewind, rewind,
}
use buffers.AnyReadSource.Laws.{read_all-read_in_chunks}
use buffers.AnyReadSource.Wrapper.{remembered, read_in_chunks-remembered, read_in_chunks-rewind}
use buffers.AnyReadSource.Sticky.{read_in_chunks-sticky}

-- It zeroes no byte, but says that it has read as many as fit of the `s` that it has left.
abbrev counted : Reader plain_codes ℕ
counted s m dest ec = some (record {
  count = if leb s (size dest) then s else size dest;
  code = if leb s (size dest) then 1 else 0;
  state = s - size dest;
  mem = m;
})

abbrev source : OptionalSource plain_codes
source = record { State = ℕ; read = counted; size = none; rewind = some (λ s. 3) }

abbrev room : BufferSequence
room = buffer 400 1 ∷ buffer 500 4 ∷ []

abbrev bytes : Memory
bytes = λ p. p

read_all-read_in_chunks_example :
    read_all plain_codes counted 3 bytes room 0 ≡ read_in_chunks plain_codes counted 3 bytes room 0
read_all-read_in_chunks_example = read_all-read_in_chunks plain_codes counted 3 bytes room 0

-- After the first read, which met the end.
abbrev at_eof : ReadResult plain_codes (ReadSourceImpl plain_codes source)
at_eof = record { count = 3; code = 1; state = record { source = 0; ec = 1 }; mem = bytes }

first_read :
    read_in_chunks plain_codes
      (do_read plain_codes source)
      (record { source = 3; ec = 0 })
      bytes
      room
      0
    ≡ some at_eof
unfolding read_in_chunks do_read read_agrees add_count size
first_read = refl

read_in_chunks-sticky_example :
    read_in_chunks plain_codes (do_read plain_codes source) at_eof.state bytes room 0
    ≡ some (record { count = 0; code = 1; state = at_eof.state; mem = bytes })
read_in_chunks-sticky_example =
    read_in_chunks-sticky plain_codes source (record { source = 3; ec = 0 }) bytes room 0 at_eof
      bytes room 0 refl first_read refl refl

optional_members :
    (has_size plain_codes source ≡ false)
    × (has_rewind plain_codes source ≡ true)
    × (rewind plain_codes source at_eof.state ≡ ok (init plain_codes source 3))
unfolding has_size has_rewind rewind init
optional_members = (refl, refl, refl)

abbrev fresh : ReadSourceImpl plain_codes source
fresh = record { source = 3; ec = 0 }

read_in_chunks-remembered_example :
    read_in_chunks plain_codes (do_read plain_codes source) fresh bytes room 0
    ≡ remembered plain_codes source (read_in_chunks plain_codes counted 3 bytes room 0)
read_in_chunks-remembered_example =
    read_in_chunks-remembered plain_codes source fresh bytes room 0 refl refl

-- The source is at its end, and starts again with three.
read_in_chunks-rewind_example :
    (s' : ReadSourceImpl plain_codes source) × (rewind plain_codes source at_eof.state ≡ ok s')
    × (read_in_chunks plain_codes (do_read plain_codes source) s' bytes room 0
        ≡ remembered plain_codes source (read_in_chunks plain_codes counted 3 bytes room 0))
read_in_chunks-rewind_example =
    read_in_chunks-rewind plain_codes source (λ s. 3) at_eof.state bytes room 0 refl refl
