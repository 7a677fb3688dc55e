-- ===== src/ByteQueue/Prepared.antt =====
-- What is readable after bytes are written into the output sequence that `prepare` returned, and
-- committed.
use buffers.Prelude.{
  ℕ, ◌≤◌, ◌≡◌, sym, ap, ap₂, ◌∙◌, List, ◌++◌, map, arith, length, take, take_all, length-take,
}
use mathlib.Core.List.{map-append}
use buffers.Error.{ok, ok-injective}
use buffers.Sequence.{BufferSequence, Memory, to_string}
use buffers.Sequence.Laws.{seq_addrs, to_string-map}
use buffers.Copy.Bytes.{Distinct, Apart, map-copy_bytes, Distinct-take, Apart-take}
use buffers.Copy.Distinct.{Distinct-parts, map-copy_bytes-Apart}
use buffers.Copy.Round.{pass}
use buffers.ByteQueue.{ByteQueue}

module _ (q : ByteQueue) (c c' : q.buffer.Carrier) (out : BufferSequence) (n : ℕ) where
  -- What `prepare(n)` gives where it succeeds.
  pub record IsPrepared : Type 0 where
    pub valid : q.IsValid c'
    pub room : seq_addrs out ≡ q.writable c'
    pub enough : length (q.writable c') ≡ n
    pub kept : q.readable c' ≡ q.readable c

  pub prepare-IsPrepared : q.IsValid c → q.buffer.prepare c n ≡ ok (c', out) → IsPrepared
  prepare-IsPrepared v p =
      let f : q.Fits c n = q.prepare-Fits c n (c', out) v p in
      let (d, os, r, w, a, l, k) = q.prepare-writable c n v f in
      let both : (c', out) ≡ (d, os) = ok-injective (c', out) (d, os) (sym p ∙ r) in
      let one : c' ≡ d = ap (λ (x : q.buffer.Carrier × BufferSequence). x.0) both in
      let two : out ≡ os = ap (λ (x : q.buffer.Carrier × BufferSequence). x.1) both in
      record {
        valid = rw one w;
        room = ap seq_addrs two ∙ a ∙ ap q.writable (sym one);
        enough = ap (λ x. length (q.writable x)) one ∙ l;
        kept = ap q.readable one ∙ k;
      }

  module _ (p : IsPrepared) where
    separate : Distinct (q.writable c') × Apart (q.writable c') (q.readable c)
    separate =
        let (d, a) = Distinct-parts (q.readable c') (q.writable c') (q.Distinct-both c' p.valid) in
        (d, rw (sym p.kept) a)

    -- The first `k` bytes of `ss` written, and committed.
    pub to_string-commit-pass :
        (m : Memory) (k : ℕ) (ss : List ℕ)
        → q.IsValid c
        → k ≤ n
        → k ≤ length ss
        → Apart (seq_addrs out) ss
        → to_string (pass m k (seq_addrs out) ss) (q.buffer.data_seq (q.buffer.commit c' k))
          ≡ to_string m (q.buffer.data_seq c) ++ map m (take k ss)
    to_string-commit-pass m k ss v h l u =
        to_string-map m' (q.buffer.data_seq queue)
        ∙ ap (map m') (
            q.data_seq-readable queue (q.commit-readable c' k p.valid).0
            ∙ (q.commit-readable c' k p.valid).1
            ∙ ap₂ ◌++◌ p.kept (ap (take k) (sym p.room)))
        ∙ map-append m' (q.readable c) ds
        ∙ ap₂ ◌++◌
            (map-copy_bytes-Apart m ds (take k ss) (q.readable c) apart
              ∙ ap (map m) (sym (q.data_seq-readable c v))
              ∙ sym (to_string-map m (q.buffer.data_seq c)))
            (map-copy_bytes m ds (take k ss)
              (omega (
                arith,
                length-take k (seq_addrs out),
                length-take k ss,
                ap length p.room,
                p.enough,
              ))
              (Distinct-take k (seq_addrs out) (rw p.room separate.0))
              (Apart-take k k (seq_addrs out) ss u))
      where
        queue : q.buffer.Carrier
        queue = q.buffer.commit c' k

        ds : List ℕ
        ds = take k (seq_addrs out)

        m' : Memory
        m' = pass m k (seq_addrs out) ss

        apart : Apart ds (q.readable c)
        apart = rw (← take_all (length (q.readable c)) (q.readable c) (omega arith)) (
            Apart-take k (length (q.readable c)) (seq_addrs out) (q.readable c)
              (rw p.room separate.1))
