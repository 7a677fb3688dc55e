-- ===== src/AnySource/Drain.antt =====
-- Reading a data source until it reports its end.
use buffers.Prelude.{
  ℕ, zero, suc, ◌+◌, ◌-◌, ◌≤◌, ◌<◌, ◌≡◌, ap, ◌∙◌, true, false, Option, none, some, inl, inr, arith,
  sym, List, length, take, drop, take_all, Bool-cases, leb→le, leb→lt, size_mod,
}
use buffers.Error.{ErrorCodes, make_error_code, eof}
use buffers.Sequence.{BufferSequence, Memory, to_string}
use buffers.Sequence.Laws.{total, seq_addrs, to_string-map}
use buffers.Copy.Bytes.{Apart, Apart-take}
use buffers.Copy.Distinct.{map-copy_bytes-Apart}
use buffers.Copy.Round.{pass}
use buffers.Reading.{at_end, ReadResult, Reader, ReadSource, add_count}
use buffers.Reading.Data.{DataSource}
use buffers.AnySource.{DataModel, AnyImpl, data_source, impl_read, read_all}
use buffers.AnySource.After.{
  IsValid, taken, advanced, ends, after, failed-after, add_count-after, advanced-IsValid,
}
use buffers.AnySource.Laws.{read_all-data_source}

-- The caller's loop: `read` into the same buffers until `ec` has failed, adding up what it
-- returned. `none`: a fault, or no fuel left.
module _ (e : ErrorCodes) {S : Type 0} (read1 : Reader e S) (dest : BufferSequence) where
  pub read_until_failed : ℕ → ReadResult e S → Option (ReadResult e S)
  read_until_failed zero out = none
  read_until_failed (suc fuel) out = elim (read1 out.state out.mem dest out.code) [
    | none ↦ none
    | some r ↦ elim (e.failed r.code) [
      | true ↦ some (add_count e out r)
      | false ↦ read_until_failed fuel (add_count e out r)
    ]
  ]

  module _ (fuel : ℕ) (out r : ReadResult e S)
      (call : read1 out.state out.mem dest out.code ≡ some r) where
    read_until_failed-stop :
        e.failed r.code ≡ true → read_until_failed (suc fuel) out ≡ some (add_count e out r)
    unfolding read_until_failed
    read_until_failed-stop t = rw (call, t, read_until_failed)

    read_until_failed-again :
        e.failed r.code ≡ false
        → read_until_failed (suc fuel) out ≡ read_until_failed fuel (add_count e out r)
    unfolding read_until_failed
    read_until_failed-again t = rw (call, t, read_until_failed)

-- What the loop ends in: the source is used up and has said so, the numbers that were returned add
-- up to the bytes that were left, and the bytes of the source are as they were.
abbrev pub Drained :
    (e : ErrorCodes) (d : DataSource) (r : ReadSource e)
    → DataModel d
    → Memory
    → ℕ
    → Option (ReadResult e (AnyImpl e d r))
    → Type 0
Drained e d r s m count res =
    (x : ReadResult e (AnyImpl e d r)) × (res ≡ some x)
    × (x.code ≡ make_error_code e eof)
    × (x.state ≡ data_source (record s { nread = s.size }))
    × (x.count ≡ count + (s.size - s.nread))
    × (to_string x.mem (d.buffers_of s.source) ≡ to_string m (d.buffers_of s.source))

-- Bytes apart from those that are read into stay.
to_string-pass :
    (m : Memory) (k : ℕ) (ds ss : List ℕ) (bs : BufferSequence)
    → Apart ds (seq_addrs bs)
    → to_string (pass m k ds ss) bs ≡ to_string m bs
to_string-pass m k ds ss bs u =
    to_string-map (pass m k ds ss) bs
    ∙ map-copy_bytes-Apart m (take k ds) (take k ss) (seq_addrs bs) apart
    ∙ sym (to_string-map m bs)
  where
    apart : Apart (take k ds) (seq_addrs bs)
    apart =
        rw (← take_all (length (seq_addrs bs)) (seq_addrs bs) (omega arith))
          (Apart-take k (length (seq_addrs bs)) ds (seq_addrs bs) u)

module _ (e : ErrorCodes) (d : DataSource) (r : ReadSource e) (dest : BufferSequence)
    (some_buffers : at_end dest ≡ false) (some_bytes : 0 < total dest)
    (fits : total dest < size_mod) where
  abbrev from : DataModel d → Memory → ℕ → e.Code → ReadResult e (AnyImpl e d r)
  from s m count ec = record { count = count; code = ec; state = data_source s; mem = m }

  abbrev reader : Reader e (AnyImpl e d r)
  reader = read_all e (impl_read e d r)

  abbrev inj : DataModel d → AnyImpl e d r
  inj s = data_source s

  call :
      (s : DataModel d) (m : Memory) (ec : e.Code)
      → IsValid d s
      → read_all e (impl_read e d r) (data_source s) m dest ec
        ≡ some (after e d data_source s m dest 0)
  call s m ec v = read_all-data_source e d r s m dest ec v fits ∙ rw some_buffers

  drain :
      (fuel : ℕ) (s : DataModel d) (m : Memory) (count : ℕ) (ec : e.Code)
      → IsValid d s
      → Apart (seq_addrs dest) (seq_addrs (d.buffers_of s.source))
      → count + (s.size - s.nread) < size_mod
      → s.size - s.nread < fuel
      → Drained e d r s m count (read_until_failed e reader dest fuel (from s m count ec))
  unfolding read_until_failed
  drain zero s m count ec v u h f = absurd (omega arith)
  drain (suc fuel) s m count ec v u h f = elim (Bool-cases (ends e d s (total dest))) [
    | inl t ↦
        let l : s.size ≤ s.nread + taken e d s (total dest) = leb→le _ _ t in
        let all : s.nread + taken e d s (total dest) ≡ s.size = omega (arith, l, v.within) in
        (
          after e d inj s m dest count,
          read_until_failed-stop e reader dest fuel (from s m count ec) (after e d inj s m dest 0)
                (call s m ec v) (failed-after e d inj s m dest 0 ∙ t)
              ∙ ap some (counted s m count ec h),
          rw t,
          ap (λ n. data_source (record s { nread = n })) all,
          omega (arith, l, v.within),
          kept s m u,
        )
    | inr g ↦
        let l : s.nread + taken e d s (total dest) < s.size = leb→lt _ _ g in
        let (x, p, c, st, n, w) =
          drain fuel (advanced e d s (total dest)) (after e d inj s m dest count).mem
            (after e d inj s m dest count).count (after e d inj s m dest count).code
            (advanced-IsValid e d s (total dest) v) u (omega (arith, l, h)) (omega (arith, l, f)) in
        (
          x,
          read_until_failed-again e reader dest fuel (from s m count ec) (after e d inj s m dest 0)
                (call s m ec v) (failed-after e d inj s m dest 0 ∙ g)
              ∙ ap (read_until_failed e reader dest fuel) (counted s m count ec h)
              ∙ p,
          c,
          st,
          n ∙ omega (arith, l),
          w ∙ kept s m u,
        )
  ]
    where
      kept :
          (s : DataModel d) (m : Memory)
          → Apart (seq_addrs dest) (seq_addrs (d.buffers_of s.source))
          → to_string (after e d inj s m dest 0).mem (d.buffers_of s.source)
            ≡ to_string m (d.buffers_of s.source)
      kept s m u =
          to_string-pass m (taken e d s (total dest)) (seq_addrs dest)
            (drop s.nread (seq_addrs (d.buffers_of s.source))) (d.buffers_of s.source) u

      counted :
          (s : DataModel d) (m : Memory) (count : ℕ) (ec : e.Code)
          → count + (s.size - s.nread) < size_mod
          → add_count e (from s m count ec) (after e d inj s m dest 0)
            ≡ after e d inj s m dest count
      counted s m count ec h =
          add_count-after e d inj s m dest count ec (data_source s) m (omega arith)

-- A caller that reads a valid data source into a sequence with some bytes, none of them the
-- source's, again and again, meets the end after at most as many calls as bytes are left and one
-- more: then the source is used up, the last `ec` is `error::eof`, the numbers that were returned
-- add up to the bytes that were left, and the string that the source stands for is what it was.
pub read_until_failed-Drained :
    (e : ErrorCodes) (d : DataSource) (r : ReadSource e) (dest : BufferSequence) (s : DataModel d)
    (m : Memory) (ec : e.Code)
    → at_end dest ≡ false
    → 0 < total dest
    → total dest < size_mod
    → IsValid d s
    → Apart (seq_addrs dest) (seq_addrs (d.buffers_of s.source))
    → Drained e d r s m 0 (
        read_until_failed e
          (read_all e (impl_read e d r))
          dest
          (suc (s.size - s.nread))
          (record { count = 0; code = ec; state = data_source s; mem = m }))
read_until_failed-Drained e d r dest s m ec some_buffers some_bytes fits v u =
    drain e d r dest some_buffers some_bytes fits (suc (s.size - s.nread)) s m 0 ec v u
      (omega (arith, d.total-lt s.source v.fine, v.sized)) (omega arith)
