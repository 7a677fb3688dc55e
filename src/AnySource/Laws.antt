-- ===== src/AnySource/Laws.antt =====
-- What `any_source::read` does with a data source.
use buffers.Prelude.{
  ℕ, ◌+◌, ◌-◌, ◌≤◌, ◌<◌, min, ◌≡◌, refl, sym, ap, ◌∙◌, List, [], ◌∷◌, map, true, false, some, arith,
  leb, if◌then◌else◌, length, take, take_all, length-take, length-drop, size_mod, size_max,
  add_size,
}
use buffers.Error.{ErrorCodes, make_error_code, eof}
use buffers.Sequence.{BufferSequence, Memory, to_string}
use buffers.Sequence.Laws.{seq_addrs, total, length-seq_addrs, to_string-map}
use buffers.Copy.Bytes.{map-copy_bytes, Distinct, Apart, Distinct-take, Apart-take}
use buffers.Copy.Round.{pass}
use buffers.Copy.Laws.{copy-pass}
use buffers.Reading.{at_end, ReadResult, ReadSource}
use buffers.Reading.Data.{DataSource}
use buffers.AnySource.{DataModel, data_read, AnyImpl, data_source, impl_read, impl_rewind, read_all}
use buffers.AnySource.After.{IsValid, taken, outcome, after}
use buffers.AnySource.Loop.{read_loop-after}

module _ (e : ErrorCodes) (d : DataSource) where
  -- One call of `data_model::read`
  data_read-after :
      (s : DataModel d) (m : Memory) (dest : BufferSequence) (ec : e.Code)
      → IsValid d s
      → total dest < size_mod
      → data_read e d s m dest ec ≡ some (after e d (λ x. x) s m dest 0)
  unfolding data_read
  data_read-after s m dest ec v h =
      let (c, bs, p, q, f) = d.elements-sans_prefix s.source s.nread v.fine small in
      let size_of : total bs ≡ s.size - s.nread = omega (
        arith,
        length-seq_addrs bs,
        ap length f,
        v.sized,
        length-drop s.nread (seq_addrs (d.buffers_of s.source)),
        length-seq_addrs (d.buffers_of s.source),
      ) in
      let n : ℕ = min size_max (min (total bs) (total dest)) in
      let counts : n ≡ taken e d s (total dest) = omega (arith, size_of, bound) in
      let sums : 0 + taken e d s (total dest) ≡ taken e d s (total dest) = omega arith in
      let places : add_size s.nread n ≡ s.nread + taken e d s (total dest) =
        omega (arith, counts, bound, v.within) in
      rw (p, q, copy-pass m dest bs size_max h (omega (arith, size_of, bound)) (omega arith))
        (λ i. some (
          outcome e d (λ x. x) s ((counts ∙ sym sums) i) (places i)
            (pass m (counts i) (seq_addrs dest) (f i))))
    where
      bound : s.size < size_mod
      bound = omega (arith, d.total-lt s.source v.fine, v.sized)

      small : s.nread < size_mod
      small = omega (arith, bound, v.within)

module _ (e : ErrorCodes) (d : DataSource) (r : ReadSource e) where
  impl_read-after :
      (s : DataModel d) (m : Memory) (dest : BufferSequence) (ec : e.Code)
      → IsValid d s
      → total dest < size_mod
      → impl_read e d r (data_source s) m dest ec ≡ some (after e d data_source s m dest 0)
  unfolding impl_read
  impl_read-after s m dest ec v h = rw (data_read-after e d s m dest ec v h)

  -- `any_source::read` of a data source whose bytes `std::size_t` counts, into a sequence of as few,
  -- runs without a fault, whatever the number of buffers. It moves the next bytes of the source in
  -- order, as many as fit, returns their number, and sets `ec` to `error::eof` with the last byte of
  -- the source and clears it before. A `dest` without buffers leaves `ec` and all else as it was.
  pub read_all-data_source :
      (s : DataModel d) (m : Memory) (dest : BufferSequence) (ec : e.Code)
      → IsValid d s
      → total dest < size_mod
      → read_all e (impl_read e d r) (data_source s) m dest ec
        ≡ some (
            if at_end dest
            then record { count = 0; code = ec; state = data_source s; mem = m }
            else after e d data_source s m dest 0)
  unfolding read_all
  read_all-data_source s m [] ec v h = refl
  read_all-data_source s m (b ∷ dest) ec v h =
      read_loop-after e d data_source (impl_read e d r) impl_read-after dest [] b 0 0 s m ec v
        (omega arith)

  -- After `rewind`, wherever the source was, one read into a sequence with a buffer and room for
  -- all bytes, which has no address twice and none of the source, returns `size()`, reports
  -- `error::eof`, and leaves in its first bytes the string that the source stood for.
  pub to_string-read_all-rewind :
      (s : DataModel d) (m : Memory) (dest : BufferSequence) (ec : e.Code)
      → IsValid d s
      → at_end dest ≡ false
      → total dest < size_mod
      → s.size ≤ total dest
      → Distinct (seq_addrs dest)
      → Apart (seq_addrs dest) (seq_addrs (d.buffers_of s.source))
      → (x : ReadResult e (AnyImpl e d r)) × (read_all e
            (impl_read e d r)
            (impl_rewind e d r (data_source s))
            m
            dest
            ec
          ≡ some x)
        × (x.count ≡ s.size)
        × (x.code ≡ make_error_code e eof)
        × (map x.mem (take s.size (seq_addrs dest)) ≡ to_string m (d.buffers_of s.source))
  unfolding impl_rewind
  to_string-read_all-rewind s m dest ec v some_room h room u w = (
    after e d data_source s0 m dest 0,
    rw (read_all-data_source s0 m dest ec v0 h, some_room),
    counts,
    rw ends,
    ap (λ k. map (pass m k (seq_addrs dest) src) (take s.size (seq_addrs dest))) all_taken
        ∙ map-copy_bytes m (take s.size (seq_addrs dest)) (take s.size src)
            (omega (
              arith,
              room,
              v.sized,
              length-take s.size (seq_addrs dest),
              length-take s.size src,
              length-seq_addrs dest,
              length-seq_addrs (d.buffers_of s.source),
            ))
            (Distinct-take s.size (seq_addrs dest) u)
            (Apart-take s.size s.size (seq_addrs dest) src w)
        ∙ ap (map m)
            (take_all s.size src (omega (arith, v.sized, length-seq_addrs (d.buffers_of s.source))))
        ∙ sym (to_string-map m (d.buffers_of s.source)),
  )
    where
      s0 : DataModel d
      s0 = record s { nread = 0 }

      v0 : IsValid d s0
      v0 = record { fine = v.fine; sized = v.sized; within = omega arith }

      all_taken : taken e d s0 (total dest) ≡ s.size
      all_taken = omega (arith, room)

      counts : 0 + taken e d s0 (total dest) ≡ s.size
      counts = omega (arith, room)

      ends : leb s.size (0 + taken e d s0 (total dest)) ≡ true
      ends = ground (arith, room)

      src : List ℕ
      src = seq_addrs (d.buffers_of s.source)
