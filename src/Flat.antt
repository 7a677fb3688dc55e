-- ===== src/Flat.antt =====
-- include/boost/buffers/flat_buffer.hpp: a queue of bytes in a fixed region, without wrapping.
pub mod Laws
mod Tests
use buffers.Prelude.{ℕ, ◌+◌, ltb, if◌then◌else◌, add_size, sub_size}
use buffers.Error.{Result, ok, throws, invalid_argument}
use buffers.Buffer.{ConstBuffer, MutableBuffer, buffer}

-- `data_`, `cap_`, `in_pos_`, `in_size_` and `out_size_`
pub record FlatBuffer : Type 0 where
  pub base : ℕ
  pub cap : ℕ
  pub in_pos : ℕ
  pub in_size : ℕ
  pub out_size : ℕ

-- `flat_buffer(data, capacity, initial_size)`
pub init : ℕ → ℕ → ℕ → Result FlatBuffer
init base capacity initial_size =
    if ltb capacity initial_size
    then throws invalid_argument
    else ok
        (record { base = base; cap = capacity; in_pos = 0; in_size = initial_size; out_size = 0 })

pub size : FlatBuffer → ℕ
size f = f.in_size

unfoldable pub max_size : FlatBuffer → ℕ
max_size f = f.cap

pub capacity : FlatBuffer → ℕ
capacity f = sub_size f.cap (add_size f.in_pos f.in_size)

pub data_buffer : FlatBuffer → ConstBuffer
data_buffer f = buffer (f.base + f.in_pos) f.in_size

unfoldable pub prepare : FlatBuffer → ℕ → Result (FlatBuffer × MutableBuffer)
unfolding capacity
prepare f n =
    if ltb (capacity f) n
    then throws invalid_argument
    else ok (record f { out_size = n }, buffer (f.base + f.in_pos + f.in_size) n)

unfoldable pub commit : FlatBuffer → ℕ → FlatBuffer
commit f n = record f {
  in_size = if ltb n f.out_size then add_size f.in_size n else add_size f.in_size f.out_size;
  out_size = 0;
}

unfoldable pub consume : FlatBuffer → ℕ → FlatBuffer
consume f n =
    if ltb n f.in_size
    then record f { in_pos = add_size f.in_pos n; in_size = sub_size f.in_size n }
    else record f { in_pos = 0; in_size = 0 }
