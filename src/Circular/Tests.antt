-- ===== src/Circular/Tests.antt =====
-- A circular buffer whose readable bytes go round the end, and the theorems at it.
use buffers.Prelude.{ℕ, ◌+◌, ◌<◌, ◌≤◌, ◌≡◌, ◌⊎◌, refl, [], ◌∷◌, arith, length}
use buffers.Error.{ok, throws, fault, length_error}
use buffers.Buffer.{buffer}
use buffers.Pair.{MutableBufferPair, pair_sequence, mutable_pair_sequence}
use buffers.Sequence.Laws.{seq_addrs}
use buffers.Circular.{
  CircularBuffer, init, size, max_size, capacity, data_buffers, prepare, commit, consume, empty,
}
use buffers.Circular.Inv.{IsValid, readable, writable}
use buffers.Circular.Laws.{seq_addrs-data_buffers, readable-commit, readable-prepare}
use buffers.Circular.Consume.{consume-drop}

-- Of five bytes at 100 the last two and the first are readable, and the next was prepared.
abbrev wrapped : CircularBuffer
wrapped = record { base = 100; cap = 5; in_pos = 3; in_len = 3; out_size = 1 }

wrapped-IsValid : IsValid wrapped
wrapped-IsValid = omega arith

empty-IsValid : IsValid empty
empty-IsValid = omega arith

observers : (size wrapped ≡ 3) × (max_size wrapped ≡ 5) × (capacity wrapped ≡ 2)
unfolding size max_size capacity
observers = (refl, refl, refl)

seq_addrs-data_buffers_example :
    seq_addrs (pair_sequence (data_buffers wrapped)) ≡ 103 ∷ 104 ∷ 100 ∷ []
seq_addrs-data_buffers_example = seq_addrs-data_buffers wrapped wrapped-IsValid

readable-commit_example :
    IsValid (commit wrapped 1)
    × (readable (commit wrapped 1) ≡ 103 ∷ 104 ∷ 100 ∷ 101 ∷ [])
    × (writable (commit wrapped 1) ≡ [])
readable-commit_example = readable-commit wrapped 1 wrapped-IsValid

consume-drop_example :
    (c' : CircularBuffer) × (consume wrapped 2 ≡ ok c')
    × IsValid c'
    × (readable c' ≡ 100 ∷ [])
    × (writable c' ≡ 101 ∷ [])
consume-drop_example = consume-drop wrapped 2 wrapped-IsValid

readable-prepare_example :
    ((5 < 3 + 2) × (prepare wrapped 2 ≡ throws length_error))
    ⊎ ((0 < 5)
        × (3 + 2 ≤ 5)
        × (c' : CircularBuffer) × (bs : MutableBufferPair) × (prepare wrapped 2 ≡ ok (c', bs))
        × IsValid c'
        × (seq_addrs (mutable_pair_sequence bs) ≡ writable c')
        × (length (writable c') ≡ 2)
        × (readable c' ≡ 103 ∷ 104 ∷ 100 ∷ []))
    ⊎ ((wrapped.cap ≡ 0) × (◌≡◌ {A = ℕ} 2 0) × (prepare wrapped 2 ≡ fault))
readable-prepare_example = readable-prepare wrapped 2 wrapped-IsValid

-- Three bytes of a fresh buffer are prepared, two are committed, and one of these is consumed.
first_steps :
    (prepare (init 100 5) 3
      ≡ ok (
        record (init 100 5) { out_size = 3 },
        record { first = buffer 100 3; second = buffer 100 0 },
      ))
    × (consume (commit (record (init 100 5) { out_size = 3 }) 2) 1
        ≡ ok (record { base = 100; cap = 5; in_pos = 1; in_len = 1; out_size = 0 }))
unfolding init prepare commit consume
first_steps = (refl, refl)

prepare-empty : prepare empty 0 ≡ fault
unfolding prepare
prepare-empty = refl
