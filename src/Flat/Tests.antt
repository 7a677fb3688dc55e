-- ===== src/Flat/Tests.antt =====
-- A flat buffer between two operations, and the theorems at it.
use buffers.Prelude.{◌+◌, ◌-◌, ◌<◌, ◌≤◌, ◌≡◌, ◌⊎◌, refl, arith}
use buffers.Error.{ok, throws, invalid_argument}
use buffers.Buffer.{MutableBuffer}
use buffers.Buffer.Laws.{addrs}
use buffers.Flat.{FlatBuffer, size, max_size, capacity, prepare, consume}
use buffers.Flat.Laws.{IsValid, readable, writable, prepare_lem, prepare_after_consume}

-- Of eight bytes at 100 one was consumed, three are readable, and two were prepared.
abbrev used : FlatBuffer
used = record { base = 100; cap = 8; in_pos = 1; in_size = 3; out_size = 2 }

used-IsValid : IsValid used
used-IsValid = omega arith

prepare_lem_example :
    ((1 + 3 + 4 ≤ 8)
      × (f' : FlatBuffer) × (b : MutableBuffer) × (prepare used 4 ≡ ok (f', b))
      × IsValid f'
      × (addrs b ≡ writable f')
      × (b.len ≡ 4)
      × (readable f' ≡ readable used))
    ⊎ ((8 < 1 + 3 + 4) × (prepare used 4 ≡ throws invalid_argument))
prepare_lem_example = prepare_lem used 4 used-IsValid

prepare_after_consume_example :
    prepare (consume used 2) (max_size (consume used 2) - size (consume used 2))
    ≡ throws invalid_argument
unfolding size
prepare_after_consume_example =
    prepare_after_consume used 2 used-IsValid (omega arith) (omega arith)

observers : (size used ≡ 3) × (max_size used ≡ 8) × (capacity used ≡ 4)
unfolding size max_size capacity
observers = (refl, refl, refl)
