-- ===== src/ByteQueue/Steps.antt =====
-- A client of a queue of bytes, as a relation of steps. The client writes and commits only an output
-- sequence that no later call has invalidated: a `consume` may leave it to be committed.
use buffers.Prelude.{ℕ, ◌≡◌, List, [], ◌++◌, Option, none, some, take}
use buffers.Error.{ok, throws, Exception}
use buffers.Sequence.{BufferSequence, Memory, to_string}
use buffers.Sequence.Laws.{seq_addrs}
use buffers.Copy.Bytes.{Avoids}
use buffers.ByteQueue.{ByteQueue}

module _ (q : ByteQueue) where
  -- The queue, the output sequence that may be written, and the memory.
  pub record Client : Type 0 where
    pub queue : q.buffer.Carrier
    pub out : Option BufferSequence
    pub mem : Memory

  -- A step, with the bytes that it commits and those that it consumes. Whoever writes changes
  -- nothing outside the output sequence.
  pub data Step (s : Client) : List ℕ → List ℕ → Client → Type 0 where
    prepares :
        (n : ℕ) (c : q.buffer.Carrier) (bs : BufferSequence)
        → q.buffer.prepare s.queue n ≡ ok (c, bs)
        → Step s [] [] (record { queue = c; out = some bs; mem = s.mem })
    fails : (n : ℕ) (x : Exception) → q.buffer.prepare s.queue n ≡ throws x → Step s [] [] s
    writes :
        (bs : BufferSequence) (m : Memory)
        → s.out ≡ some bs
        → ((a : ℕ) → Avoids a (seq_addrs bs) → m a ≡ s.mem a)
        → Step s [] [] (record { queue = s.queue; out = s.out; mem = m })
    commits :
        (bs : BufferSequence) (k : ℕ)
        → s.out ≡ some bs
        → Step s
            (take k (to_string s.mem bs))
            []
            (record { queue = q.buffer.commit s.queue k; out = none; mem = s.mem })
    consumes :
        (k : ℕ) (c : q.buffer.Carrier)
        → q.buffer.consume s.queue k ≡ ok c
        → Step s []
            (take k (to_string s.mem (q.buffer.data_seq s.queue)))
            (record { queue = c; out = none; mem = s.mem })
    consumes_before_commit :
        (k : ℕ) (c : q.buffer.Carrier)
        → q.KeepsOutput s.queue k
        → q.buffer.consume s.queue k ≡ ok c
        → Step s []
            (take k (to_string s.mem (q.buffer.data_seq s.queue)))
            (record { queue = c; out = s.out; mem = s.mem })

  -- Steps in a row, with all bytes that they commit and all that they consume.
  pub data Run (s : Client) : List ℕ → List ℕ → Client → Type 0 where
    here : Run s [] [] s
    next :
        {p r p' r' : List ℕ} {t u : Client}
        → Run s p r t
        → Step t p' r' u
        → Run s (p ++ p') (r ++ r') u
