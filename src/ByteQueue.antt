-- ===== src/ByteQueue.antt =====
-- A dynamic buffer as a queue of bytes: doc/modules/ROOT/pages/DynamicBuffer.adoc, as an interface
-- over that of include/boost/buffers/dynamic_buffer.hpp.
pub mod Prepared
pub mod Steps
pub mod Fifo
pub mod Laws
pub mod Read
pub mod Pipe
pub mod Storage
pub mod Instances
pub mod Steady
mod Tests
use buffers.Prelude.{ℕ, ◌≡◌, List, ◌++◌, take, drop, length, size_mod, ◌<◌}
use buffers.Error.{ok}
use buffers.Sequence.{BufferSequence}
use buffers.Sequence.Laws.{seq_addrs}
use buffers.Copy.Bytes.{Distinct}
use buffers.DynamicBuffer.{DynamicBuffer}

-- The addresses of the input sequence and of the output sequence, and what the operations do to
-- them; `Fits` says for which numbers `prepare` succeeds, `KeepsOutput` for which ones `consume`
-- leaves the output sequence as it is, to be written and committed after it.
pub record ByteQueue : Type 1 where
  pub buffer : DynamicBuffer
  pub IsValid : buffer.Carrier → Type 0
  pub Fits : buffer.Carrier → ℕ → Type 0
  pub KeepsOutput : buffer.Carrier → ℕ → Type 0
  pub readable : buffer.Carrier → List ℕ
  pub writable : buffer.Carrier → List ℕ
  pub Distinct-both : (c : buffer.Carrier) → IsValid c → Distinct (readable c ++ writable c)
  pub length-lt : (c : buffer.Carrier) → IsValid c → length (writable c) < size_mod
  pub data_seq-readable :
      (c : buffer.Carrier) → IsValid c → seq_addrs (buffer.data_seq c) ≡ readable c
  pub prepare-Fits :
      (c : buffer.Carrier) (n : ℕ) (p : buffer.Carrier × BufferSequence)
      → IsValid c
      → buffer.prepare c n ≡ ok p
      → Fits c n
  pub prepare-writable :
      (c : buffer.Carrier) (n : ℕ)
      → IsValid c
      → Fits c n
      → (c' : buffer.Carrier) × (out : BufferSequence) × (buffer.prepare c n ≡ ok (c', out))
        × IsValid c'
        × (seq_addrs out ≡ writable c')
        × (length (writable c') ≡ n)
        × (readable c' ≡ readable c)
  pub commit-readable :
      (c : buffer.Carrier) (n : ℕ)
      → IsValid c
      → IsValid (buffer.commit c n)
        × (readable (buffer.commit c n) ≡ readable c ++ take n (writable c))
  pub consume-readable :
      (c : buffer.Carrier) (n : ℕ)
      → IsValid c
      → (c' : buffer.Carrier) × (buffer.consume c n ≡ ok c')
        × IsValid c'
        × (readable c' ≡ drop n (readable c))
  pub consume-writable :
      (c c' : buffer.Carrier) (n : ℕ)
      → IsValid c
      → KeepsOutput c n
      → buffer.consume c n ≡ ok c'
      → writable c' ≡ writable c
