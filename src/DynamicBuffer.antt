-- ===== src/DynamicBuffer.antt =====
-- include/boost/buffers/dynamic_buffer.hpp: the type-erased dynamic buffer, which keeps up to eight
-- of the buffers that the dynamic buffer inside returns.
pub mod Laws
pub mod Instances
pub mod Wrapped
mod Tests
use buffers.Prelude.{ℕ, ◌+◌, [], ◌∷◌, ◌==◌, if◌then◌else◌}
use buffers.Error.{Result, ok, ◌>>=◌}
use buffers.Sequence.{BufferSequence}

-- What `is_dynamic_buffer` asks of a type.
pub record DynamicBuffer : Type 1 where
  pub Carrier : Type 0
  pub size : Carrier → ℕ
  pub max_size : Carrier → ℕ
  pub capacity : Carrier → ℕ
  pub data_seq : Carrier → BufferSequence
  pub prepare : Carrier → ℕ → Result (Carrier × BufferSequence)
  pub commit : Carrier → ℕ → Carrier
  pub consume : Carrier → ℕ → Result Carrier

-- The loop of `unroll`: what it writes from `dest[i]` on.
pub unroll_loop : BufferSequence → ℕ → ℕ → BufferSequence
unroll_loop [] i len = []
unroll_loop (b ∷ bs) i len =
    let rest = unroll_loop bs (i + 1) len in b ∷ (if (i + 1) == len then [] else rest)

-- The buffers that `unroll` leaves in `dest`.
pub unroll : BufferSequence → ℕ → BufferSequence
unroll bs len = unroll_loop bs 0 len

-- The default of the template parameter `N`
abbrev pub max_buffers : ℕ
max_buffers = 8

module _ (d : DynamicBuffer) where
  -- `b_`, and the buffers in `data_` and `out_` up to `data_len_` and `out_len_`
  pub record AnyDynamicBuffer : Type 0 where
    pub inner : d.Carrier
    pub data_buffers : BufferSequence
    pub out_buffers : BufferSequence

  pub init : d.Carrier → AnyDynamicBuffer
  init b = record { inner = b; data_buffers = []; out_buffers = [] }

  pub size : AnyDynamicBuffer → ℕ
  size a = d.size a.inner

  pub max_size : AnyDynamicBuffer → ℕ
  max_size a = d.max_size a.inner

  pub capacity : AnyDynamicBuffer → ℕ
  capacity a = d.capacity a.inner

  pub data_seq : AnyDynamicBuffer → BufferSequence
  data_seq a = a.data_buffers

  pub prepare : AnyDynamicBuffer → ℕ → Result (AnyDynamicBuffer × BufferSequence)
  prepare a n = do
    p ← d.prepare a.inner n
    let out = unroll p.1 max_buffers
    ok (record a { inner = p.0; out_buffers = out }, out)

  -- What `commit` and `consume` do after the call of the buffer inside.
  refresh : AnyDynamicBuffer → d.Carrier → AnyDynamicBuffer
  refresh a b = record a { inner = b; data_buffers = unroll (d.data_seq b) max_buffers }

  pub commit : AnyDynamicBuffer → ℕ → AnyDynamicBuffer
  unfolding refresh
  commit a n = refresh a (d.commit a.inner n)

  pub consume : AnyDynamicBuffer → ℕ → Result AnyDynamicBuffer
  unfolding refresh
  consume a n = do b ← d.consume a.inner n; ok (refresh a b)
