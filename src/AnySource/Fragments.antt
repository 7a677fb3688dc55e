-- ===== src/AnySource/Fragments.antt =====
-- What `any_source::read` sees of the sequence that it reads into: its addresses, though the number
-- of its buffers decides into how many calls of the source the read is cut.
use buffers.Prelude.{◌+◌, ◌<◌, ◌≡◌, sym, ◌∙◌, some, if◌then◌else◌, size_mod, arith}
use buffers.Error.{ErrorCodes}
use buffers.Sequence.{BufferSequence, Memory}
use buffers.Sequence.Laws.{seq_addrs, total}
use buffers.Copy.Spans.{total_same}
use buffers.Copy.Round.{pass}
use buffers.Reading.{ReadSource, at_end}
use buffers.Reading.Data.{DataSource}
use buffers.AnySource.{AnyImpl, DataModel, data_source, impl_read, read_all}
use buffers.AnySource.After.{IsValid, outcome, taken, unread, after}
use buffers.AnySource.Laws.{read_all-data_source}

module _ (e : ErrorCodes) (d : DataSource) (r : ReadSource e) where
  after_same :
      (s : DataModel d) (m : Memory) (dest dest' : BufferSequence)
      → seq_addrs dest ≡ seq_addrs dest'
      → after e d {S = AnyImpl e d r} data_source s m dest 0 ≡ after e d data_source s m dest' 0
  after_same s m dest dest' h = λ i.
      let k = taken e d s (total_same dest dest' h i) in
      outcome e d data_source s (0 + k) (s.nread + k) (pass m k (h i) (unread e d s))

  -- Two reads of a valid data source, into sequences that cover the same addresses in the same
  -- order, whose size `std::size_t` holds, and of which both or neither have a buffer: they end
  -- alike, with the same number, code, memory and rest of the source, into however many chunks of
  -- buffers each is cut.
  pub read_all_same :
      (s : DataModel d) (m : Memory) (dest dest' : BufferSequence) (ec : e.Code)
      → IsValid d s
      → total dest < size_mod
      → at_end dest ≡ at_end dest'
      → seq_addrs dest ≡ seq_addrs dest'
      → read_all e (impl_read e d r) (data_source s) m dest ec
        ≡ read_all e (impl_read e d r) (data_source s) m dest' ec
  read_all_same s m dest dest' ec v l b h =
      read_all-data_source e d r s m dest ec v l
      ∙ (λ i. some (
          if b i
          then record { count = 0; code = ec; state = data_source s; mem = m }
          else after_same s m dest dest' h i))
      ∙ sym (
          read_all-data_source e d r s m dest' ec v
            (let k = total_same dest dest' h in omega (arith, k)))
