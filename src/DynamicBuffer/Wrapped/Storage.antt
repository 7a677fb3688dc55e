-- ===== src/DynamicBuffer/Wrapped/Storage.antt =====
-- The storage of a type-erased dynamic buffer is that of the buffer inside.
use buffers.Prelude.{ℕ, ◌<◌, ◌≤◌, ◌≡◌, ap, List, length}
use buffers.Error.{Result, ok, throws, fault, ◌>>=◌, ok-injective}
use buffers.Buffer.Region.{region}
use buffers.Sequence.{BufferSequence}
use buffers.Copy.Bytes.{Apart}
use buffers.ByteQueue.{ByteQueue}
use buffers.ByteQueue.Storage.{Storage}
use buffers.DynamicBuffer.{unroll, max_buffers, prepare, commit, consume, max_size}
use buffers.DynamicBuffer.Wrapped.{IsSteady, Any, IsFresh, any_queue}

module _ (q : ByteQueue) (s : IsSteady q) where
  -- What `prepare` of the wrapper got from the buffer inside.
  prepare_inner :
      (a a' : Any q s) (n : ℕ) (out : BufferSequence)
      → prepare q.buffer a n ≡ ok (a', out)
      → (out' : BufferSequence) × (q.buffer.prepare a.inner n ≡ ok (a'.inner, out'))
  unfolding prepare
  prepare_inner a a' n out h = go (q.buffer.prepare a.inner n) h
    where
      go :
          (r : Result (q.buffer.Carrier × BufferSequence))
          → ◌>>=◌ {B = Any q s × BufferSequence} r (λ x.
            let o = unroll x.1 max_buffers in ok (record a { inner = x.0; out_buffers = o }, o))
            ≡ ok (a', out)
          → (out' : BufferSequence) × (r ≡ ok (a'.inner, out'))
      go (ok x) f =
          let o = unroll x.1 max_buffers in
          let e = ok-injective (record a { inner = x.0; out_buffers = o }, o) (a', out) f in
          (x.1, ap (λ (y : Any q s × BufferSequence). ok (y.0.inner, x.1)) e)
      go (throws x) f = absurd (cc)
      go fault f = absurd (cc)

  consume_inner :
      (a a' : Any q s) (n : ℕ)
      → consume q.buffer a n ≡ ok a'
      → q.buffer.consume a.inner n ≡ ok a'.inner
  unfolding consume
  consume_inner a a' n h = go (q.buffer.consume a.inner n) h
    where
      go :
          (r : Result q.buffer.Carrier)
          → ◌>>=◌ {B = Any q s} r (λ c.
            ok (record a { inner = c; data_buffers = unroll (q.buffer.data_seq c) max_buffers }))
            ≡ ok a'
          → r ≡ ok a'.inner
      go (ok c) f = ap (λ (y : Any q s). ok y.inner) (ok-injective _ a' f)
      go (throws x) f = absurd (cc)
      go fault f = absurd (cc)

  module _ (st : Storage q) where
    pub any_prepare-kept :
        (a a' : Any q s) (n : ℕ) (out : BufferSequence)
        → prepare q.buffer a n ≡ ok (a', out)
        → (st.base a'.inner ≡ st.base a.inner) × (max_size q.buffer a' ≡ max_size q.buffer a)
    unfolding max_size
    any_prepare-kept a a' n out h =
        let (out', p) = prepare_inner a a' n out h in st.prepare-kept a.inner a'.inner n out' p

    pub any_commit-kept :
        (a : Any q s) (n : ℕ)
        → (st.base (commit q.buffer a n).inner ≡ st.base a.inner)
          × (max_size q.buffer (commit q.buffer a n) ≡ max_size q.buffer a)
    unfolding max_size commit
    any_commit-kept a n = st.commit-kept a.inner n

    pub any_consume-kept :
        (a a' : Any q s) (n : ℕ)
        → consume q.buffer a n ≡ ok a'
        → (st.base a'.inner ≡ st.base a.inner) × (max_size q.buffer a' ≡ max_size q.buffer a)
    unfolding max_size
    any_consume-kept a a' n h = st.consume-kept a.inner a'.inner n (consume_inner a a' n h)

    pub any_inside :
        (a : Any q s) (as' : List ℕ)
        → IsFresh q s a
        → Apart (region (st.base a.inner) (max_size q.buffer a)) as'
        → Apart (q.writable a.inner) as'
    unfolding max_size
    any_inside a as' v u = st.writable-inside a.inner as' v.0 u

    pub any_consume-Fits :
        (a a' : Any q s) (k n : ℕ)
        → IsFresh q s a
        → consume q.buffer a k ≡ ok a'
        → length (q.readable a.inner) ≤ k
        → 0 < n
        → n ≤ max_size q.buffer a
        → q.Fits a'.inner n
    unfolding max_size
    any_consume-Fits a a' k n v h l m w =
        st.consume-Fits a.inner a'.inner k n v.0 (consume_inner a a' k h) l m w

    abbrev pub any_storage : Storage (any_queue q s)
    any_storage = record {
      base = λ a. st.base a.inner;
      prepare-kept = any_prepare-kept;
      commit-kept = any_commit-kept;
      consume-kept = any_consume-kept;
      writable-inside = any_inside;
      consume-Fits = any_consume-Fits;
    }
