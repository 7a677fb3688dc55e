-- ===== src/Slice/Laws.antt =====
-- What the customization of the trimming algorithms does to a `slice_of`, and a fresh one.
use buffers.Prelude.{
  ℕ, ◌+◌, ◌-◌, ◌<◌, ◌≡◌, ap, ap₂, ◌∙◌, [], ◌∷◌, some, inl, arith, length, take, take_all, size_mod,
  add_size,
}
use buffers.Buffer.{SliceHow, remove_prefix, keep_prefix}
use buffers.Buffer.Laws.{trim}
use buffers.Sequence.{BufferSequence}
use buffers.Sequence.Laws.{seq_addrs, total, length-seq_addrs}
use buffers.Slice.{SliceOf, slice_of, count, slice_impl, elements}
use buffers.Slice.Inv.{view, Front-zero, Back-zero, IsValid}
use buffers.Slice.Prefix.{remove_prefix_impl-Drops}
use buffers.Slice.Keep.{keep_prefix_impl-IsReadable}
use buffers.Slice.Iter.{elements-view}

count-eq :
    (bs : BufferSequence) (size len : ℕ)
    → size + total bs < size_mod
    → len + length bs < size_mod
    → count bs size len ≡ (size + total bs, len + length bs)
unfolding count
count-eq [] size len h k = ap₂ (λ a b. (a, b)) (omega arith) (omega arith)
count-eq (b ∷ bs) size len h k =
    count-eq bs (add_size size b.len) (add_size len 1) (omega arith) (omega arith)
    ∙ ap₂ (λ a b. (a, b)) (omega arith) (omega arith)

-- A fresh slice of a sequence whose bytes and buffers `std::size_t` counts is valid and denotes
-- the whole sequence.
pub slice_of-IsValid :
    (bs : BufferSequence)
    → total bs < size_mod
    → length bs < size_mod
    → IsValid (slice_of bs) × (view (slice_of bs) ≡ seq_addrs bs)
unfolding slice_of
slice_of-IsValid bs h k = (
  record {
    fits = h;
    short = k;
    ordered = omega arith;
    inside = omega arith;
    counted = omega (arith, ap (λ (p : ℕ × ℕ). p.1) counts);
    sum = omega (arith, ap (λ (p : ℕ × ℕ). p.0) counts, ap total whole);
    front = Front-zero (take (length bs - 0) bs);
    back = Back-zero (take (length bs - 0) bs);
  },
  ap (λ (p : ℕ × ℕ). take p.0 (seq_addrs (take (length bs - 0) bs))) counts
      ∙ ap (λ w. take (0 + total bs) (seq_addrs w)) whole
      ∙ take_all (0 + total bs) (seq_addrs bs) (omega (arith, length-seq_addrs bs)),
)
  where
    counts : count bs 0 0 ≡ (0 + total bs, 0 + length bs)
    counts = count-eq bs 0 0 (omega arith) (omega arith)

    whole : take (length bs - 0) bs ≡ bs
    whole = take_all (length bs - 0) bs (omega arith)

-- Trimming a valid slice in either way runs without a fault, and an algorithm that iterates the
-- result finds the addresses of the slice without the first `n`, or only those.
pub slice_impl-trim :
    (s : SliceOf) (how : SliceHow) (n : ℕ)
    → IsValid s
    → (s' : SliceOf) × (bs : BufferSequence) × (slice_impl s how n ≡ some s')
      × (elements s' ≡ some bs)
      × (seq_addrs bs ≡ trim how n (view s))
unfolding slice_impl
slice_impl-trim s remove_prefix n v =
    let (s', r, v', u) = remove_prefix_impl-Drops s n v in
    let (bs, e, f) = elements-view s' (inl v') in (s', bs, r, e, f ∙ u)
slice_impl-trim s keep_prefix n v =
    let (s', r, v', u) = keep_prefix_impl-IsReadable s n v in
    let (bs, e, f) = elements-view s' v' in (s', bs, r, e, f ∙ u)
