-- ===== src/ByteQueue/Laws.antt =====
-- Bytes that are copied into the output sequence of a queue of bytes and committed.
use buffers.Prelude.{
  map-drop, ℕ, ◌<◌, ◌≡◌, sym, ap, ◌∙◌, ◌++◌, map, some, arith, length, take_all, drop, size_mod,
  size_max,
}
use buffers.Error.{ok}
use buffers.Sequence.{BufferSequence, Memory, to_string}
use buffers.Sequence.Laws.{seq_addrs, total, length-seq_addrs, to_string-map}
use buffers.Copy.{copy}
use buffers.Copy.Bytes.{Apart}
use buffers.Copy.Round.{pass}
use buffers.Copy.Laws.{copy-pass}
use buffers.ByteQueue.{ByteQueue}
use buffers.ByteQueue.Prepared.{IsPrepared, prepare-IsPrepared, to_string-commit-pass}

module _ (q : ByteQueue) (c c' : q.buffer.Carrier) (out src : BufferSequence) (m : Memory)
    (p : IsPrepared q c c' out (total src)) where
  copy-pass_all :
      copy m out src size_max ≡ some (total src, pass m (total src) (seq_addrs out) (seq_addrs src))
  copy-pass_all =
      copy-pass m out src size_max (omega (arith, bound, sizes)) (omega (arith, bound))
        (omega arith)
      ∙ ap (λ k. some (k, pass m k (seq_addrs out) (seq_addrs src))) (omega (arith, bound, sizes))
    where
      sizes : total out ≡ total src
      sizes = sym (length-seq_addrs out) ∙ ap length p.room ∙ p.enough

      bound : total src < size_mod
      bound = omega (arith, p.enough, q.length-lt c' p.valid)

  to_string-queue :
      q.IsValid c
      → Apart (seq_addrs out) (seq_addrs src)
      → to_string
          (pass m (total src) (seq_addrs out) (seq_addrs src))
          (q.buffer.data_seq (q.buffer.commit c' (total src)))
        ≡ to_string m (q.buffer.data_seq c) ++ to_string m src
  to_string-queue v u =
      to_string-commit-pass q c c' out (total src) p m (total src) (seq_addrs src) v (omega arith)
        (omega (arith, length-seq_addrs src)) u
      ∙ ap (λ t. to_string m (q.buffer.data_seq c) ++ t)
          (ap (map m) (take_all (total src) (seq_addrs src) (omega (arith, length-seq_addrs src)))
            ∙ sym (to_string-map m src))

-- A valid queue of bytes is first in, first out. Where `prepare` of the size of a sequence
-- returns an output sequence, and the sequence lies apart from it: a copy of the sequence
-- into it is complete, and after `commit` the readable string is the one of before with that of the
-- sequence at its end, of which `consume` removes the front, and no more.
pub to_string-fill :
    (q : ByteQueue) (c c' : q.buffer.Carrier) (out src : BufferSequence) (m : Memory) (k : ℕ)
    → q.IsValid c
    → q.buffer.prepare c (total src) ≡ ok (c', out)
    → Apart (seq_addrs out) (seq_addrs src)
    → (m' : Memory) × (copy m out src size_max ≡ some (total src, m'))
      × q.IsValid (q.buffer.commit c' (total src))
      × (to_string m' (q.buffer.data_seq (q.buffer.commit c' (total src)))
          ≡ to_string m (q.buffer.data_seq c) ++ to_string m src)
      × ((c'' : q.buffer.Carrier) × (q.buffer.consume (q.buffer.commit c' (total src)) k ≡ ok c'')
          × q.IsValid c''
          × (to_string m' (q.buffer.data_seq c'')
              ≡ drop k (to_string m (q.buffer.data_seq c) ++ to_string m src)))
to_string-fill q c c' out src m k v e u =
    let p = prepare-IsPrepared q c c' out (total src) v e in
    let full : q.IsValid (q.buffer.commit c' (total src)) =
      (q.commit-readable c' (total src) p.valid).0 in
    let string = to_string-queue q c c' out src m p v u in
    let (c'', r, w, x) = q.consume-readable (q.buffer.commit c' (total src)) k full in
    let m' : Memory = pass m (total src) (seq_addrs out) (seq_addrs src) in
    (
      m',
      copy-pass_all q c c' out src m p,
      full,
      string,
      (
        c'',
        r,
        w,
        to_string-map m' (q.buffer.data_seq c'')
            ∙ ap (map m') (q.data_seq-readable c'' w ∙ x)
            ∙ map-drop m' k (q.readable (q.buffer.commit c' (total src)))
            ∙ ap (drop k) (
                ap (map m') (sym (q.data_seq-readable _ full)) ∙ sym (to_string-map m' _) ∙ string),
      ),
    )
