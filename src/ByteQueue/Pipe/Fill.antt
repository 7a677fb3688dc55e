-- ===== src/ByteQueue/Pipe/Fill.antt =====
-- One read of a data source into what was prepared, and a commit of the number that was read.
use buffers.Prelude.{
  ℕ, ◌+◌, ◌<◌, ◌≡◌, refl, sym, ap, ap₂, ◌∙◌, List, ◌++◌, list_laws, some, arith, length, take, drop,
  drop-drop, take-append-drop, size_mod,
}
use mathlib.Core.Option.{some-injective}
use mathlib.Core.Path.{subst}
use buffers.Error.{ErrorCodes}
use buffers.Sequence.{to_string}
use buffers.Sequence.Laws.{seq_addrs, total, length-seq_addrs, to_string-map}
use buffers.Copy.Distinct.{map-copy_bytes-Apart, Apart-window}
use buffers.Copy.Round.{pass}
use buffers.Reading.{ReadResult, ReadSource}
use buffers.Reading.Data.{DataSource}
use buffers.AnySource.{AnyImpl, data_source, impl_read, read_all}
use buffers.AnySource.After.{taken, after, unread, advanced-IsValid}
use buffers.AnySource.Laws.{read_all-data_source}
use buffers.ByteQueue.{ByteQueue}
use buffers.ByteQueue.Prepared.{IsPrepared, prepare-IsPrepared}
use buffers.ByteQueue.Read.{to_string-read_all-commit}
use buffers.ByteQueue.Pipe.{Pipe, queued, whole, stream, IsSound, Filling}

-- Bytes that are moved from the front of one list to the end of another.
pub moved :
    (xs ys : List ℕ) (j k : ℕ) → (xs ++ take k (drop j ys)) ++ drop (j + k) ys ≡ xs ++ drop j ys
moved xs ys j k = simp list_laws (
    ap (λ t. xs ++ (take k (drop j ys) ++ t)) (sym (drop-drop k j ys))
    ∙ ap (λ t. xs ++ t) (take-append-drop k (drop j ys)))

module _ (e : ErrorCodes) (d : DataSource) (r : ReadSource e) (q : ByteQueue) (p : Pipe e d r q)
    (v : IsSound e d r q p) (f : Filling e d r q p) where
  pub is_prepared : IsPrepared q p.queue f.queue f.out f.n
  is_prepared = prepare-IsPrepared q p.queue f.queue f.out f.n v.queue_valid f.prepared

  -- The number of bytes that are read.
  abbrev pub k : ℕ
  k = taken e d p.source (total f.out)

  abbrev pub read : ReadResult e (AnyImpl e d r)
  read = after e d data_source p.source p.mem f.out 0

  abbrev pub filled : Pipe e d r q
  filled = record {
    queue = q.buffer.commit f.queue (0 + k);
    source = record p.source { nread = p.source.nread + k };
    mem = pass p.mem k (seq_addrs f.out) (unread e d p.source);
  }

  pub total-out : total f.out ≡ f.n
  total-out = sym (length-seq_addrs f.out) ∙ ap length is_prepared.room ∙ is_prepared.enough

  out-lt : total f.out < size_mod
  out-lt = omega (arith, total-out, is_prepared.enough, q.length-lt f.queue is_prepared.valid)

  pub read_eq :
      (ec : e.Code) → read_all e (impl_read e d r) (data_source p.source) p.mem f.out ec ≡ some read
  read_eq ec =
      rw (read_all-data_source e d r p.source p.mem f.out ec v.source_valid out-lt, f.some_room)
        refl

  pub queued-filled :
      queued e d r q filled ≡ queued e d r q p ++ take k (drop p.source.nread (whole e d r q p))
  queued-filled =
      let (x, g, _, _, h) =
        to_string-read_all-commit e d r q p.queue f.queue f.out f.n p.source p.mem e.success
          v.queue_valid f.prepared f.some_room v.source_valid f.apart in
      let unread_part = drop p.source.nread (whole e d r q p) in
      subst
        (λ y.
          to_string y.mem (q.buffer.data_seq (q.buffer.commit f.queue y.count))
          ≡ queued e d r q p ++ take y.count unread_part)
        (some-injective x read (sym g ∙ read_eq e.success)) h
      ∙ ap (λ j. queued e d r q p ++ take j unread_part) (let z : 0 + k ≡ k = omega arith in z)

  -- The source keeps its bytes.
  pub whole-filled : whole e d r q filled ≡ whole e d r q p
  whole-filled =
      let bs = d.buffers_of p.source.source in
      to_string-map filled.mem bs
      ∙ map-copy_bytes-Apart p.mem (take k (seq_addrs f.out)) (take k (unread e d p.source))
          (seq_addrs bs) (Apart-window k 0 (seq_addrs f.out) (seq_addrs bs) f.apart)
      ∙ sym (to_string-map p.mem bs)

  pub filled-IsSound : IsSound e d r q filled
  filled-IsSound = record {
    queue_valid = (q.commit-readable f.queue (0 + k) is_prepared.valid).0;
    source_valid = advanced-IsValid e d p.source (total f.out) v.source_valid;
  }

  pub stream-filled : stream e d r q p ≡ stream e d r q filled
  stream-filled =
      sym (moved (queued e d r q p) (whole e d r q p) p.source.nread k)
      ∙ sym (ap₂ (λ xs ys. xs ++ drop (p.source.nread + k) ys) queued-filled whole-filled)
