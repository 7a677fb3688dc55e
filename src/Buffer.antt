-- ===== src/Buffer.antt =====
-- include/boost/buffers/buffer.hpp: a buffer, a contiguous region of memory. `const_buffer` and
-- `mutable_buffer` are the one class template `detail::basic_buffer` at two element types, so
-- they are one record here; an address is a number, and a region is its list of addresses.
pub mod Region
pub mod Laws
mod Tests
use buffers.Prelude.{ℕ, ◌+◌, ◌*◌, ◌%◌, size_mod, Bool, if◌then◌else◌, ltb, sub_size}

-- `basic_buffer`: `p_` and `n_`
pub record BasicBuffer : Type 0 where
  pub ptr : ℕ
  pub len : ℕ

abbrev pub ConstBuffer : Type 0
ConstBuffer = BasicBuffer

abbrev pub MutableBuffer : Type 0
MutableBuffer = BasicBuffer

-- the constructor from a pointer and a size
abbrev pub buffer : ℕ → ℕ → BasicBuffer
buffer p n = record { ptr = p; len = n }

-- the default constructor, `{nullptr, 0}`
abbrev pub null_buffer : BasicBuffer
null_buffer = record { ptr = 0; len = 0 }

-- `make_buffer` of an array of `n` objects, each of `size_of` bytes
pub make_buffer : ℕ → ℕ → ℕ → BasicBuffer
make_buffer p n size_of = buffer p (n * size_of % size_mod)

-- `const_buffer(mutable_buffer const& b)`
abbrev to_const : MutableBuffer → ConstBuffer
to_const b = buffer b.ptr b.len

pub data SliceHow : Type 0 where
  remove_prefix keep_prefix : SliceHow

-- `mutable_buffer::operator+=`
unfoldable pub advance : MutableBuffer → ℕ → MutableBuffer
advance b n =
    let m = if ltb b.len n then b.len else n in record b { ptr = b.ptr + m; len = sub_size b.len m }

-- `mutable_buffer::do_slice`, which its `tag_invoke` calls
unfoldable pub do_slice : MutableBuffer → SliceHow → ℕ → MutableBuffer
unfolding advance
do_slice b remove_prefix n = advance b n
do_slice b keep_prefix n = if ltb n b.len then record b { len = n } else b

-- `const_buffer::operator+=`
unfoldable pub advance_const : ConstBuffer → ℕ → ConstBuffer
advance_const b n =
    let m = if ltb b.len n then b.len else n in record b { ptr = b.ptr + m; len = sub_size b.len m }

-- `const_buffer::do_slice`, which its `tag_invoke` calls
pub do_slice_const : ConstBuffer → SliceHow → ℕ → ConstBuffer
unfolding advance_const
do_slice_const b remove_prefix n = advance_const b n
do_slice_const b keep_prefix n = if ltb n b.len then record b { len = n } else b

-- `operator+=` of the class template that stands in for both under old compilers
pub advance_gcc6 : BasicBuffer → ℕ → BasicBuffer
advance_gcc6 b n =
    let m = if ltb b.len n then b.len else n in record b { ptr = b.ptr + m; len = sub_size b.len m }

-- its `tag_invoke`
pub tag_invoke_gcc6 : BasicBuffer → SliceHow → ℕ → BasicBuffer
unfolding advance_gcc6
tag_invoke_gcc6 b remove_prefix n = advance_gcc6 b n
tag_invoke_gcc6 b keep_prefix n = if ltb n b.len then record b { len = n } else b
