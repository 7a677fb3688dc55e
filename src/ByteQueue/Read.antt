-- ===== src/ByteQueue/Read.antt =====
-- Reading from a source into a queue of bytes: `prepare`, `any_source::read`, and `commit` of the
-- number that was read.
use buffers.Prelude.{
  map-take, map-drop, ℕ, zero, suc, ◌+◌, ◌-◌, ◌<◌, min, ◌≡◌, sym, ap, ◌∙◌, List, [], ◌∷◌, ◌++◌,
  some, false, arith, length, length-drop, take, drop, size_mod, leb, if◌then◌else◌,
}
use buffers.Error.{ErrorCodes, make_error_code, eof, ok}
use buffers.Sequence.{BufferSequence, Memory, to_string}
use buffers.Sequence.Laws.{seq_addrs, total, length-seq_addrs, to_string-map}
use buffers.Copy.Bytes.{Apart}
use buffers.Copy.Round.{pass}
use buffers.Reading.{at_end, ReadResult, ReadSource}
use buffers.Reading.Data.{DataSource}
use buffers.AnySource.{DataModel, AnyImpl, data_source, impl_read, read_all}
use buffers.AnySource.After.{IsValid, taken, after, unread}
use buffers.AnySource.Laws.{read_all-data_source}
use buffers.ByteQueue.{ByteQueue}
use buffers.ByteQueue.Prepared.{IsPrepared, prepare-IsPrepared, to_string-commit-pass}

Apart-drop : (ds : List ℕ) (k : ℕ) (ss : List ℕ) → Apart ds ss → Apart ds (drop k ss)
Apart-drop ds zero ss u = u
Apart-drop ds (suc k) [] u = u
Apart-drop ds (suc k) (s ∷ ss) u = Apart-drop ds k ss u.1

-- Where `prepare(n)` of a valid queue of bytes returns some buffers that lie apart
-- from a valid data source: one read into them returns the lesser of `n` and the bytes that are
-- left in the source, and after `commit` of this number the readable string is the one of before
-- with the next bytes of the source, in order and no others, at its end. The end is reported with
-- the last byte.
pub to_string-read_all-commit :
    (e : ErrorCodes) (d : DataSource) (r : ReadSource e) (q : ByteQueue) (c c' : q.buffer.Carrier)
    (out : BufferSequence) (n : ℕ) (s : DataModel d) (m : Memory) (ec : e.Code)
    → q.IsValid c
    → q.buffer.prepare c n ≡ ok (c', out)
    → at_end out ≡ false
    → IsValid d s
    → Apart (seq_addrs out) (seq_addrs (d.buffers_of s.source))
    → (x : ReadResult e (AnyImpl e d r)) × (read_all e (impl_read e d r) (data_source s) m out ec
        ≡ some x)
      × (x.count ≡ min n (s.size - s.nread))
      × (x.code ≡ (if leb (s.size - s.nread) n then make_error_code e eof else e.success))
      × (to_string x.mem (q.buffer.data_seq (q.buffer.commit c' x.count))
          ≡ to_string m (q.buffer.data_seq c)
            ++ take x.count (drop s.nread (to_string m (d.buffers_of s.source))))
to_string-read_all-commit e d r q c c' out n s m ec v pr some_room w u = (
  after e d data_source s m out 0,
  rw (read_all-data_source e d r s m out ec w (omega (arith, sizes, bound)), some_room),
  omega (arith, sizes),
  ap (λ b. if b then make_error_code e eof else e.success) ends,
  ap
        (λ j.
          to_string (pass m k (seq_addrs out) (unread e d s))
            (q.buffer.data_seq (q.buffer.commit c' j)))
        counts
      ∙ to_string-commit-pass q c c' out n p m k (unread e d s) v (omega (arith, sizes))
          (omega (arith, sizes, left)) (Apart-drop (seq_addrs out) s.nread src u)
      ∙ ap (λ t. to_string m (q.buffer.data_seq c) ++ t)
          (map-take m k (unread e d s)
            ∙ ap (take k) (
                map-drop m s.nread src
                ∙ ap (drop s.nread) (sym (to_string-map m (d.buffers_of s.source))))
            ∙ ap (λ j. take j (drop s.nread (to_string m (d.buffers_of s.source)))) (sym counts)),
)
  where
    p : IsPrepared q c c' out n
    p = prepare-IsPrepared q c c' out n v pr

    src : List ℕ
    src = seq_addrs (d.buffers_of s.source)

    k : ℕ
    k = taken e d s (total out)

    counts : 0 + k ≡ k
    counts = omega arith

    sizes : total out ≡ n
    sizes = sym (length-seq_addrs out) ∙ ap length p.room ∙ p.enough

    bound : n < size_mod
    bound = omega (arith, p.enough, q.length-lt c' p.valid)

    left : length (unread e d s) ≡ s.size - s.nread
    left = omega (arith, length-drop s.nread src, w.sized, length-seq_addrs (d.buffers_of s.source))

    ends : leb s.size (s.nread + k) ≡ leb (s.size - s.nread) n
    ends = ground (arith, sizes, w.within)
