-- ===== src/ByteQueue/Steady.antt =====
-- `circular_buffer` and `flat_buffer` can be wrapped.
use buffers.Prelude.{◌≡◌, sym, ap, arith}
use buffers.Error.{Result, ok, throws, fault, ◌>>=◌, ok-injective}
use buffers.Sequence.{BufferSequence, singleton}
use buffers.Pair.{pair_sequence, mutable_pair_sequence}
use buffers.Circular.{CircularBuffer}
use buffers.Circular
use buffers.Circular.Steady.{data_buffers-prepare}
use buffers.Flat.{FlatBuffer}
use buffers.Flat
use buffers.Flat.Laws.{data_buffer-prepare}
use buffers.DynamicBuffer.Wrapped.{IsSteady}
use buffers.ByteQueue.Instances.{circular_queue, flat_queue}

-- What `prepare` of a dynamic buffer got from the one of its class.
pub prepared_from :
    {S T : Type 0} (f : T → BufferSequence) (r : Result (S × T)) (s : S) (out : BufferSequence)
    → ◌>>=◌ {B = S × BufferSequence} r (λ p. ok (p.0, f p.1)) ≡ ok (s, out)
    → (t : T) × (r ≡ ok (s, t)) × (out ≡ f t)
prepared_from {T = T} f (ok (s', t)) s out h =
    let e = ok-injective (s', f t) (s, out) h in
    (t, ap (λ x. ok (x, t)) (ap (λ x. x.0) e), sym (ap (λ x. x.1) e))
prepared_from f (throws x) s out h = absurd (cc)
prepared_from f fault s out h = absurd (cc)

pub circular_steady : IsSteady circular_queue
circular_steady = record {
  data_seq-short = λ c v. omega arith;
  out-short = λ c c' n out v h.
      let (bs, p, e) = prepared_from mutable_pair_sequence (Circular.prepare c n) c' out h in
      rw e (omega arith);
  data_seq-prepare = λ c c' n out v h.
      let (bs, p, e) = prepared_from mutable_pair_sequence (Circular.prepare c n) c' out h in
      ap pair_sequence (data_buffers-prepare c c' n bs p);
}

pub flat_steady : IsSteady flat_queue
flat_steady = record {
  data_seq-short = λ f v. omega arith;
  out-short = λ f f' n out v h.
      let (b, p, e) = prepared_from singleton (Flat.prepare f n) f' out h in rw e (omega arith);
  data_seq-prepare = λ f f' n out v h.
      let (b, p, e) = prepared_from singleton (Flat.prepare f n) f' out h in
      ap singleton (data_buffer-prepare f f' n b p);
}
