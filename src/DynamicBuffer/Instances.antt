-- ===== src/DynamicBuffer/Instances.antt =====
-- The circular and the flat buffer as dynamic buffers, and the type-erased circular buffer.
use buffers.Prelude.{ℕ, ◌≡◌, inl, inr, refl, ap, ◌∙◌, [], ◌++◌, arith, length, take, drop}
use mathlib.Core.Path.{subst}
use buffers.Error.{ok, throws, fault, length_error, ok-injective, ◌>>=◌}
use buffers.Sequence.Laws.{seq_addrs}
use buffers.Pair.{pair_sequence, mutable_pair_sequence}
use buffers.Circular.{CircularBuffer}
use buffers.Circular
use buffers.Flat.{FlatBuffer}
use buffers.Flat
use buffers.Sequence.{BufferSequence, singleton}
use buffers.Circular.Inv.{IsValid, readable, writable}
use buffers.Circular.Laws.{seq_addrs-data_buffers, readable-commit, readable-prepare}
use buffers.Circular.Ring.{length-ring}
use buffers.Circular.Consume.{consume-drop}
use buffers.DynamicBuffer.{
  DynamicBuffer, AnyDynamicBuffer, init, size, data_seq, prepare, commit, consume, unroll,
  max_buffers,
}
use buffers.DynamicBuffer.Laws.{unroll-take}

-- `circular_buffer` meets `is_dynamic_buffer`.
abbrev pub circular_dynamic : DynamicBuffer
circular_dynamic = record {
  Carrier = CircularBuffer;
  size = Circular.size;
  max_size = Circular.max_size;
  capacity = Circular.capacity;
  data_seq = λ c. pair_sequence (Circular.data_buffers c);
  prepare = λ c n. do
    p ← Circular.prepare c n
    ok (p.0, mutable_pair_sequence p.1);
  commit = Circular.commit;
  consume = Circular.consume;
}

-- `flat_buffer` meets `is_dynamic_buffer`; its buffers are sequences of one.
abbrev pub flat_dynamic : DynamicBuffer
flat_dynamic = record {
  Carrier = FlatBuffer;
  size = Flat.size;
  max_size = Flat.max_size;
  capacity = Flat.capacity;
  data_seq = λ f. singleton (Flat.data_buffer f);
  prepare = λ f n. do
    p ← Flat.prepare f n
    ok (p.0, singleton p.1);
  commit = Flat.commit;
  consume = λ f n. ok (Flat.consume f n);
}

length-readable : (c : CircularBuffer) → IsValid c → length (readable c) ≡ c.in_len
length-readable c v = length-ring c.base c.cap c.in_pos c.in_len (omega (arith, v))

-- Calls of `prepare` that succeed, in a row.
pub data Prepares (d : DynamicBuffer) (a : AnyDynamicBuffer d) : AnyDynamicBuffer d → Type 0 where
  here : Prepares d a a
  next :
      {b b' : AnyDynamicBuffer d} (n : ℕ) (out : BufferSequence)
      → Prepares d a b
      → prepare d b n ≡ ok (b', out)
      → Prepares d a b'

-- The buffer inside still has the readable bytes of `c`, and `data()` has none.
record IsStale (c : CircularBuffer) (b : AnyDynamicBuffer circular_dynamic) : Type 0 where
  pub valid : IsValid b.inner
  pub same : readable b.inner ≡ readable c
  pub empty : b.data_buffers ≡ []

prepare-IsStale :
    (c : CircularBuffer) (b b' : AnyDynamicBuffer circular_dynamic) (n : ℕ) (out : BufferSequence)
    → IsStale c b
    → prepare circular_dynamic b n ≡ ok (b', out)
    → IsStale c b'
unfolding prepare
prepare-IsStale c b b' n out s h = elim (readable-prepare b.inner n s.valid) [
  | inl (l, p) ↦ absurd (let e : throws length_error ≡ ok (b', out) = rw p at h in cc)
  | inr (inl (l, k, c', bs, p, w, a, e, r)) ↦
      let bufs = unroll (mutable_pair_sequence bs) max_buffers in
      let x : AnyDynamicBuffer circular_dynamic = record b { inner = c'; out_buffers = bufs } in
      let f : ok (x, bufs) ≡ ok (b', out) = rw p at h in
      subst (IsStale c)
        (ap (λ (y : AnyDynamicBuffer circular_dynamic × BufferSequence). y.0) (ok-injective _ _ f))
        (record { valid = w; same = r ∙ s.same; empty = s.empty })
  | inr (inr (l, k, p)) ↦ absurd (let e : fault ≡ ok (b', out) = rw p at h in cc)
]

Prepares-IsStale :
    (c : CircularBuffer) (b : AnyDynamicBuffer circular_dynamic)
    → IsValid c
    → Prepares circular_dynamic (init circular_dynamic c) b
    → IsStale c b
unfolding init
Prepares-IsStale c _ v here = record { valid = v; same = refl; empty = refl }
Prepares-IsStale c _ v (next {b} {b'} n out run h) =
    prepare-IsStale c b b' n out (Prepares-IsStale c b v run) h

-- The bytes of a refreshed wrapper.
refreshed :
    (c : CircularBuffer)
    → IsValid c
    → seq_addrs (unroll (pair_sequence (Circular.data_buffers c)) max_buffers) ≡ readable c
refreshed c v =
    ap seq_addrs (unroll-take (pair_sequence (Circular.data_buffers c)) max_buffers (omega arith))
    ∙ seq_addrs-data_buffers c v

-- A valid circular buffer that is wrapped keeps its size, but `data()` of the wrapper is empty, also
-- after any row of calls of `prepare` that succeed, until the first `commit` or `consume`. After a `commit` of `n`
-- bytes it covers the bytes that were readable before the wrapping and then the first `n` that were
-- prepared last; after a `consume` of `n` bytes, which succeeds, those that were readable before the
-- wrapping without the first `n`.
pub circular_stale_data :
    (c : CircularBuffer) (b : AnyDynamicBuffer circular_dynamic) (n : ℕ)
    → IsValid c
    → Prepares circular_dynamic (init circular_dynamic c) b
    → (size circular_dynamic b ≡ Circular.size c)
      × (data_seq circular_dynamic b ≡ [])
      × (seq_addrs (data_seq circular_dynamic (commit circular_dynamic b n))
          ≡ readable c ++ take n (writable b.inner))
      × ((b' : AnyDynamicBuffer circular_dynamic) × (consume circular_dynamic b n ≡ ok b')
          × (seq_addrs (data_seq circular_dynamic b') ≡ drop n (readable c)))
unfolding size data_seq commit consume Circular.size
circular_stale_data c b n v run =
    let s = Prepares-IsStale c b v run in
    let (w, r, _) = readable-commit b.inner n s.valid in
    let (c', p, w', r', _) = consume-drop b.inner n s.valid in
    (
      omega (arith, ap length s.same, length-readable b.inner s.valid, length-readable c v),
      s.empty,
      refreshed (Circular.commit b.inner n) w ∙ r ∙ ap (λ t. t ++ take n (writable b.inner)) s.same,
      (
        record b {
          inner = c';
          data_buffers = unroll (pair_sequence (Circular.data_buffers c')) max_buffers;
        },
        rw p,
        refreshed c' w' ∙ r' ∙ ap (drop n) s.same,
      ),
    )
