-- ===== src/ByteQueue/Pipe.antt =====
-- A source that is read into a queue of bytes, and what comes out of the queue: clients of
-- `any_source` and of a dynamic buffer.
pub mod Fill
pub mod Stream
pub mod Turn
pub mod Pump
mod Tests
use buffers.Prelude.{ℕ, zero, suc, ◌≡◌, List, [], ◌++◌, Option, none, some, true, false, take, drop}
use buffers.Error.{ErrorCodes, ok, throws, fault}
use buffers.Sequence.{BufferSequence, Memory, to_string}
use buffers.Sequence.Laws.{seq_addrs}
use buffers.Copy.Bytes.{Apart}
use buffers.Reading.{at_end, ReadResult, ReadSource}
use buffers.Reading.Data.{DataSource}
use buffers.AnySource.{DataModel, AnyImpl, data_source, impl_read, read_all}
use buffers.AnySource.After.{IsValid}
use buffers.ByteQueue.{ByteQueue}

module _ (e : ErrorCodes) (d : DataSource) (r : ReadSource e) (q : ByteQueue) where
  -- The queue, the source with its position, and the memory.
  pub record Pipe : Type 0 where
    pub queue : q.buffer.Carrier
    pub source : DataModel d
    pub mem : Memory

  -- The readable bytes of the queue, and the string that the source stands for.
  abbrev pub queued : Pipe → List ℕ
  queued p = to_string p.mem (q.buffer.data_seq p.queue)

  abbrev pub whole : Pipe → List ℕ
  whole p = to_string p.mem (d.buffers_of p.source.source)

  -- The bytes that are on their way: those in the queue, and behind them those that are not read.
  abbrev pub stream : Pipe → List ℕ
  stream p = queued p ++ drop p.source.nread (whole p)

  pub record IsSound (p : Pipe) : Type 0 where
    pub queue_valid : q.IsValid p.queue
    pub source_valid : IsValid d p.source

  -- `prepare(n)` has returned some buffers, which lie apart from the source.
  pub record Filling (p : Pipe) : Type 0 where
    pub n : ℕ
    pub queue : q.buffer.Carrier
    pub out : BufferSequence
    pub prepared : q.buffer.prepare p.queue n ≡ ok (queue, out)
    pub some_room : at_end out ≡ false
    pub apart : Apart (seq_addrs out) (seq_addrs (d.buffers_of p.source.source))

  -- A step, with the bytes that it takes out of the queue.
  pub data Step (p : Pipe) : List ℕ → Pipe → Type 0 where
    fills :
        (f : Filling p) (ec : e.Code) (x : ReadResult e (AnyImpl e d r)) (s' : DataModel d)
        → read_all e (impl_read e d r) (data_source p.source) p.mem f.out ec ≡ some x
        → x.state ≡ data_source s'
        → Step p [] (record { queue = q.buffer.commit f.queue x.count; source = s'; mem = x.mem })
    drains :
        (k : ℕ) (c : q.buffer.Carrier)
        → q.buffer.consume p.queue k ≡ ok c
        → Step p (take k (queued p)) (record { queue = c; source = p.source; mem = p.mem })

  -- Steps in a row, with all bytes that came out.
  pub data Run (p : Pipe) : List ℕ → Pipe → Type 0 where
    here : Run p [] p
    next : {o o' : List ℕ} {t u : Pipe} → Run p o t → Step t o' u → Run p (o ++ o') u

  -- One turn of a loop: `prepare(n)`, a read into what it returned, `commit` of the number that was
  -- read, and `consume` of as many. It returns the string that was readable before the `consume`.
  pub turn :
      ℕ
      → q.buffer.Carrier
      → AnyImpl e d r
      → Memory
      → e.Code
      → Option (List ℕ × ReadResult e (AnyImpl e d r) × q.buffer.Carrier)
  turn n c i m ec = elim (q.buffer.prepare c n) [
    | throws x ↦ none
    | fault ↦ none
    | ok (c', out) ↦ elim (read_all e (impl_read e d r) i m out ec) [
      | none ↦ none
      | some x ↦ elim (q.buffer.consume (q.buffer.commit c' x.count) x.count) [
        | throws y ↦ none
        | fault ↦ none
        | ok c'' ↦ some (to_string x.mem (q.buffer.data_seq (q.buffer.commit c' x.count)), x, c'')
      ]
    ]
  ]

  -- What the loop leaves, with all that came out.
  pub record Pumped : Type 0 where
    pub out : List ℕ
    pub code : e.Code
    pub queue : q.buffer.Carrier
    pub source : AnyImpl e d r
    pub mem : Memory

  -- Turns until a read fails: `acc` is what came out so far. `none` also where the fuel ran out.
  pub pump : ℕ → ℕ → q.buffer.Carrier → AnyImpl e d r → Memory → e.Code → List ℕ → Option Pumped
  pump zero n c i m ec acc = none
  pump (suc fuel) n c i m ec acc = elim (turn n c i m ec) [
    | none ↦ none
    | some (s, x, c') ↦ elim (e.failed x.code) [
      | true ↦
          some (record { out = acc ++ s; code = x.code; queue = c'; source = x.state; mem = x.mem })
      | false ↦ pump fuel n c' x.state x.mem x.code (acc ++ s)
    ]
  ]
