-- ===== src/Trim/Instances.antt =====
-- The sequence types of the library that are sliced: a buffer, a pair of buffers, and `slice_of`
-- for every other sequence.
use buffers.Prelude.{
  ℕ, ◌+◌, ◌<◌, ◌≡◌, refl, sym, ap, ◌∙◌, List, [], Option, none, some, inl, arith, length, size_mod,
}
use buffers.Buffer.{BasicBuffer, SliceHow, do_slice}
use buffers.Buffer.Region.{length-region}
use buffers.Buffer.Laws.{trim, addrs-do_slice, do_slice_agree}
use buffers.Buffer.Laws
use buffers.Sequence.{BufferSequence, size, singleton}
use buffers.Sequence.Laws.{seq_addrs, total, size-total, length-seq_addrs}
use buffers.Pair.{MutableBufferPair, mutable_pair_sequence, slice_mutable_pair}
use buffers.Pair.Laws.{seq_addrs-slice_mutable_pair}
use buffers.Slice.{SliceOf, slice_of, slice_impl, elements}
use buffers.Slice.Inv.{view, IsValid, size-lt, length-view}
use buffers.Slice.Iter.{elements-view}
use buffers.Slice.Laws.{slice_of-IsValid, slice_impl-trim}
use buffers.Trim.{Sliceable}

-- `mutable_buffer`
abbrev pub buffer_sliceable : Sliceable
buffer_sliceable = record {
  Source = BasicBuffer;
  Carrier = BasicBuffer;
  make = λ b. b;
  tag_invoke = λ b how n. some (do_slice b how n);
  size = λ b. some (size (singleton b));
  source_addrs = Laws.addrs;
  addrs = Laws.addrs;
  IsSource = λ b. b.len < size_mod;
  IsFine = λ b. b.len < size_mod;
  make-IsFine = λ b h. h;
  addrs-make = λ b h. refl;
  size-length = λ b h.
      ap some (size-total (singleton b) (omega arith) ∙ omega (arith, length-region b.ptr b.len));
  length-lt = λ b h. omega (arith, length-region b.ptr b.len);
  tag_invoke-trim = λ b how n h k. (do_slice b how n, refl, addrs-do_slice b how n h);
}

-- What an algorithm finds in a slice: the addresses of the buffers that it visits.
abbrev pub found : SliceOf → List ℕ
found s = elim (elements s) [ none ↦ [] | some bs ↦ seq_addrs bs ]

found-elements : (s : SliceOf) (bs : BufferSequence) → elements s ≡ some bs → found s ≡ seq_addrs bs
found-elements s bs e = rw (e, found)

pub found-view : (s : SliceOf) → IsValid s → found s ≡ view s
found-view s v = let (bs, e, f) = elements-view s (inl v) in found-elements s bs e ∙ f

-- `size` of a slice, by iterating it
pub slice_size : SliceOf → Option ℕ
slice_size s = elim (elements s) [ none ↦ none | some bs ↦ some (size bs) ]

pub slice_size-found : (s : SliceOf) → IsValid s → slice_size s ≡ some (length (found s))
unfolding slice_size
slice_size-found s v =
    let (bs, e, f) = elements-view s (inl v) in
    let n : total bs ≡ s.size = omega (arith, length-seq_addrs bs, ap length f, length-view s v) in
    rw (e, slice_size)
      (ap some (
        size-total bs (omega (arith, size-lt s v))
        ∙ omega (arith, n, length-view s v, ap length (found-view s v))))

pub trim-found :
    (s : SliceOf) (how : SliceHow) (n : ℕ)
    → IsValid s
    → (s' : SliceOf) × (slice_impl s how n ≡ some s') × (found s' ≡ trim how n (found s))
trim-found s how n v =
    let (s', bs, r, e, f) = slice_impl-trim s how n v in
    (s', r, found-elements s' bs e ∙ f ∙ ap (trim how n) (sym (found-view s v)))

-- `slice_of`, of a sequence whose bytes and buffers `std::size_t` counts
abbrev pub slice_sliceable : Sliceable
slice_sliceable = record {
  Source = BufferSequence;
  Carrier = SliceOf;
  make = slice_of;
  tag_invoke = slice_impl;
  size = slice_size;
  source_addrs = seq_addrs;
  addrs = found;
  IsSource = λ bs. (total bs < size_mod) × (length bs < size_mod);
  IsFine = IsValid;
  make-IsFine = λ bs h. (slice_of-IsValid bs h.0 h.1).0;
  addrs-make = λ bs h. let v = slice_of-IsValid bs h.0 h.1 in found-view (slice_of bs) v.0 ∙ v.1;
  size-length = slice_size-found;
  length-lt = λ s v. omega (arith, ap length (found-view s v), length-view s v, size-lt s v);
  tag_invoke-trim = λ s how n v h. trim-found s how n v;
}

-- `mutable_buffer_pair`, of buffers whose bytes `std::size_t` counts together
abbrev pub pair_sliceable : Sliceable
pair_sliceable = record {
  Source = MutableBufferPair;
  Carrier = MutableBufferPair;
  make = λ bs. bs;
  tag_invoke = λ bs how n. some (slice_mutable_pair bs how n);
  size = λ bs. some (size (mutable_pair_sequence bs));
  source_addrs = λ bs. seq_addrs (mutable_pair_sequence bs);
  addrs = λ bs. seq_addrs (mutable_pair_sequence bs);
  IsSource = λ bs. bs.first.len + bs.second.len < size_mod;
  IsFine = λ bs. bs.first.len + bs.second.len < size_mod;
  make-IsFine = λ bs h. h;
  addrs-make = λ bs h. refl;
  size-length = λ bs h. ap some (
      size-total (mutable_pair_sequence bs) (omega arith)
      ∙ sym (length-seq_addrs (mutable_pair_sequence bs)));
  length-lt = λ bs h. omega (arith, length-seq_addrs (mutable_pair_sequence bs));
  tag_invoke-trim = λ bs how n h k. (
    slice_mutable_pair bs how n,
    refl,
    seq_addrs-slice_mutable_pair bs how n (omega arith) (omega arith) k,
  );
}
