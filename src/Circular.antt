-- ===== src/Circular.antt =====
-- include/boost/buffers/circular_buffer.hpp and src/circular_buffer.cpp: a queue of bytes in a
-- fixed region, whose readable bytes may go round its end.
pub mod Ring
pub mod Inv
pub mod Laws
pub mod Consume
pub mod Steady
mod Tests
use buffers.Prelude.{ℕ, ◌+◌, ◌%◌, ltb, leb, ◌==◌, if◌then◌else◌, add_size, sub_size}
use buffers.Error.{Result, ok, throws, ◌>>=◌, invalid_argument, length_error, fault}
use buffers.Buffer.{buffer}
use buffers.Pair.{ConstBufferPair, MutableBufferPair}

pub record CircularBuffer : Type 0 where
  pub base : ℕ
  pub cap : ℕ
  pub in_pos : ℕ
  pub in_len : ℕ
  pub out_size : ℕ

-- `circular_buffer()`
abbrev pub empty : CircularBuffer
empty = record { base = 0; cap = 0; in_pos = 0; in_len = 0; out_size = 0 }

-- `circular_buffer(base, capacity)`
pub init : ℕ → ℕ → CircularBuffer
init base capacity = record { base = base; cap = capacity; in_pos = 0; in_len = 0; out_size = 0 }

-- `circular_buffer(base, capacity, initial_size)`
pub init_filled : ℕ → ℕ → ℕ → Result CircularBuffer
init_filled base capacity initial_size =
    if ltb capacity initial_size
    then throws invalid_argument
    else ok
        (record { base = base; cap = capacity; in_pos = 0; in_len = initial_size; out_size = 0 })

unfoldable pub size : CircularBuffer → ℕ
size c = c.in_len

unfoldable pub max_size : CircularBuffer → ℕ
max_size c = c.cap

pub capacity : CircularBuffer → ℕ
capacity c = sub_size c.cap c.in_len

unfoldable pub data_buffers : CircularBuffer → ConstBufferPair
data_buffers c =
    if leb (add_size c.in_pos c.in_len) c.cap
    then record { first = buffer (c.base + c.in_pos) c.in_len; second = buffer c.base 0 }
    else record {
      first = buffer (c.base + c.in_pos) (sub_size c.cap c.in_pos);
      second = buffer c.base (sub_size c.in_len (sub_size c.cap c.in_pos));
    }

-- The two buffers at the position `pos`.
out_buffers : CircularBuffer → ℕ → ℕ → MutableBufferPair
out_buffers c pos n =
    if leb (add_size pos n) c.cap
    then record { first = buffer (c.base + pos) n; second = buffer c.base 0 }
    else record {
      first = buffer (c.base + pos) (sub_size c.cap pos);
      second = buffer c.base (sub_size n (sub_size c.cap pos));
    }

-- `x % cap_`: a division by zero is undefined behaviour.
pub mod_cap : CircularBuffer → ℕ → Result ℕ
mod_cap c x = if c.cap == 0 then fault else ok (x % c.cap)

unfoldable pub prepare : CircularBuffer → ℕ → Result (CircularBuffer × MutableBufferPair)
unfolding out_buffers mod_cap
prepare c n = if ltb (sub_size c.cap c.in_len) n then throws length_error else (do
  pos ← mod_cap c (add_size c.in_pos c.in_len)
  ok (record c { out_size = n }, out_buffers c pos n))

unfoldable pub commit : CircularBuffer → ℕ → CircularBuffer
commit c n = record c {
  in_len = if ltb n c.out_size then add_size c.in_len n else add_size c.in_len c.out_size;
  out_size = 0;
}

unfoldable pub consume : CircularBuffer → ℕ → Result CircularBuffer
unfolding mod_cap
consume c n =
    if ltb n c.in_len
    then (do
      pos ← mod_cap c (add_size c.in_pos n)
      ok (record c { in_pos = pos; in_len = sub_size c.in_len n }))
    else if c.out_size == 0
    then ok (record c { in_pos = 0; in_len = 0 })
    else (do
      pos ← mod_cap c (add_size c.in_pos c.in_len)
      ok (record c { in_pos = pos; in_len = 0 }))
