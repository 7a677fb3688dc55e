-- ===== src/DynamicBuffer/Wrapped.antt =====
-- The type-erased dynamic buffer as a queue of bytes, once its buffers are those of the one inside.
pub mod Storage
mod Tests
use buffers.Prelude.{ℕ, ◌≤◌, ◌≡◌, refl, sym, ap, ◌∙◌, ◌++◌, arith, length, take, drop, take_all}
use buffers.Error.{Result, ok, throws, fault, ◌>>=◌, ok-injective}
use buffers.Sequence.{BufferSequence}
use buffers.Sequence.Laws.{seq_addrs}
use buffers.ByteQueue.{ByteQueue}
use buffers.DynamicBuffer.{
  DynamicBuffer, AnyDynamicBuffer, unroll, max_buffers, data_seq, prepare, commit, consume, size,
  max_size, capacity,
}
use buffers.DynamicBuffer.Laws.{unroll-take}

-- The wrapper meets `is_dynamic_buffer` itself.
abbrev pub any_dynamic : DynamicBuffer → DynamicBuffer
any_dynamic d = record {
  Carrier = AnyDynamicBuffer d;
  size = size d;
  max_size = max_size d;
  capacity = capacity d;
  data_seq = data_seq d;
  prepare = prepare d;
  commit = commit d;
  consume = consume d;
}

-- What the wrapper needs of a queue: sequences that fit into its arrays, and readable buffers that
-- `prepare` does not move.
pub record IsSteady (q : ByteQueue) : Type 0 where
  pub data_seq-short :
      (c : q.buffer.Carrier) → q.IsValid c → length (q.buffer.data_seq c) ≤ max_buffers
  pub out-short :
      (c c' : q.buffer.Carrier) (n : ℕ) (out : BufferSequence)
      → q.IsValid c
      → q.buffer.prepare c n ≡ ok (c', out)
      → length out ≤ max_buffers
  pub data_seq-prepare :
      (c c' : q.buffer.Carrier) (n : ℕ) (out : BufferSequence)
      → q.IsValid c
      → q.buffer.prepare c n ≡ ok (c', out)
      → q.buffer.data_seq c' ≡ q.buffer.data_seq c

pub unroll_all : (bs : BufferSequence) → length bs ≤ max_buffers → unroll bs max_buffers ≡ bs
unroll_all bs h = unroll-take bs max_buffers (omega arith) ∙ take_all max_buffers bs h

module _ (q : ByteQueue) (s : IsSteady q) where
  abbrev pub Any : Type 0
  Any = AnyDynamicBuffer q.buffer

  abbrev pub IsFresh : Any → Type 0
  IsFresh a = q.IsValid a.inner × (a.data_buffers ≡ q.buffer.data_seq a.inner)

  pub any_data_seq : (a : Any) → IsFresh a → seq_addrs (data_seq q.buffer a) ≡ q.readable a.inner
  unfolding data_seq
  any_data_seq a v = ap seq_addrs v.1 ∙ q.data_seq-readable a.inner v.0

  pub any_prepare-Fits :
      (a : Any) (n : ℕ) (p : Any × BufferSequence)
      → IsFresh a
      → prepare q.buffer a n ≡ ok p
      → q.Fits a.inner n
  unfolding prepare
  any_prepare-Fits a n p v h = go (q.buffer.prepare a.inner n) refl h
    where
      go :
          (r : Result (q.buffer.Carrier × BufferSequence))
          → q.buffer.prepare a.inner n ≡ r
          → (do
            x ← r
            let out = unroll x.1 max_buffers
            ok (record a { inner = x.0; out_buffers = out }, out))
            ≡ ok p
          → q.Fits a.inner n
      go (ok x) e f = q.prepare-Fits a.inner n x v.0 e
      go (throws x) e f = absurd (cc)
      go fault e f = absurd (cc)

  pub any_prepare :
      (a : Any) (n : ℕ)
      → IsFresh a
      → q.Fits a.inner n
      → (a' : Any) × (out : BufferSequence) × (prepare q.buffer a n ≡ ok (a', out))
        × IsFresh a'
        × (seq_addrs out ≡ q.writable a'.inner)
        × (length (q.writable a'.inner) ≡ n)
        × (q.readable a'.inner ≡ q.readable a.inner)
  unfolding prepare
  any_prepare a n v f =
      let (c, out, p, w, r, l, k) = q.prepare-writable a.inner n v.0 f in
      let whole = unroll_all out (s.out-short a.inner c n out v.0 p) in
      (
        record a { inner = c; out_buffers = unroll out max_buffers },
        unroll out max_buffers,
        rw p,
        (w, v.1 ∙ sym (s.data_seq-prepare a.inner c n out v.0 p)),
        ap seq_addrs whole ∙ r,
        l,
        k,
      )

  pub any_commit :
      (a : Any) (n : ℕ)
      → IsFresh a
      → IsFresh (commit q.buffer a n)
        × (q.readable (commit q.buffer a n).inner
            ≡ q.readable a.inner ++ take n (q.writable a.inner))
  unfolding commit
  any_commit a n v =
      let (w, r) = q.commit-readable a.inner n v.0 in
      ((w, unroll_all (q.buffer.data_seq (q.buffer.commit a.inner n)) (s.data_seq-short _ w)), r)

  pub any_consume :
      (a : Any) (n : ℕ)
      → IsFresh a
      → (a' : Any) × (consume q.buffer a n ≡ ok a')
        × IsFresh a'
        × (q.readable a'.inner ≡ drop n (q.readable a.inner))
  unfolding consume
  any_consume a n v =
      let (c, p, w, r) = q.consume-readable a.inner n v.0 in
      (
        record a { inner = c; data_buffers = unroll (q.buffer.data_seq c) max_buffers },
        rw p,
        (w, unroll_all (q.buffer.data_seq c) (s.data_seq-short c w)),
        r,
      )

  pub any_consume_before_commit :
      (a a' : Any) (n : ℕ)
      → IsFresh a
      → q.KeepsOutput a.inner n
      → consume q.buffer a n ≡ ok a'
      → q.writable a'.inner ≡ q.writable a.inner
  unfolding consume
  any_consume_before_commit a a' n v k h =
      let (c, p, w, r) = q.consume-readable a.inner n v.0 in
      let whole : consume q.buffer a n
          ≡ ok (record a { inner = c; data_buffers = unroll (q.buffer.data_seq c) max_buffers }) =
        rw p refl in
      ap (λ x. q.writable (AnyDynamicBuffer.inner x)) (ok-injective a' _ (sym h ∙ whole))
      ∙ q.consume-writable a.inner c n v.0 k p

  abbrev pub any_queue : ByteQueue
  any_queue = record {
    buffer = any_dynamic q.buffer;
    IsValid = IsFresh;
    Fits = λ a. q.Fits a.inner;
    KeepsOutput = λ a. q.KeepsOutput a.inner;
    readable = λ a. q.readable a.inner;
    writable = λ a. q.writable a.inner;
    Distinct-both = λ a v. q.Distinct-both a.inner v.0;
    length-lt = λ a v. q.length-lt a.inner v.0;
    data_seq-readable = any_data_seq;
    prepare-Fits = any_prepare-Fits;
    prepare-writable = any_prepare;
    commit-readable = any_commit;
    consume-readable = any_consume;
    consume-writable = any_consume_before_commit;
  }
