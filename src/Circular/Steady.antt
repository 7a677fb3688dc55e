-- ===== src/Circular/Steady.antt =====
-- `prepare` leaves the readable buffers of a circular buffer as they were.
use buffers.Prelude.{ℕ, ◌≡◌, arith}
use buffers.Error.{ok}
use buffers.Pair.{MutableBufferPair}
use buffers.Circular.{CircularBuffer, data_buffers, mod_cap, prepare}

pub data_buffers-prepare :
    (c c' : CircularBuffer) (n : ℕ) (bs : MutableBufferPair)
    → prepare c n ≡ ok (c', bs)
    → data_buffers c' ≡ data_buffers c
unfolding prepare data_buffers mod_cap
data_buffers-prepare c c' n bs h = ground arith
