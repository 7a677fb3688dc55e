-- ===== src/Circular/Inv.antt =====
-- When the members of a circular buffer agree, and the addresses that they denote.
use buffers.Prelude.{ℕ, ◌+◌, ◌-◌, ◌≤◌, List}
use buffers.Circular.{CircularBuffer}
use buffers.Circular.Ring.{ring}

-- The largest size of an object, 2^63 bytes, is more than any region has.
abbrev pub max_object : ℕ
max_object = 9223372036854775808

pub record IsValid (c : CircularBuffer) : Type 0 where
  pub small : c.cap ≤ max_object
  pub placed : c.in_pos ≤ c.cap - 1
  pub held : c.in_len + c.out_size ≤ c.cap

-- The readable bytes, oldest first, and those that were prepared and are not committed.
abbrev pub readable : CircularBuffer → List ℕ
readable c = ring c.base c.cap c.in_pos c.in_len

abbrev pub writable : CircularBuffer → List ℕ
writable c = ring c.base c.cap (c.in_pos + c.in_len) c.out_size
