-- ===== src/Reading/Data.antt =====
-- Data sources: a type that presents its bytes as a buffer sequence, which is sliced.
use buffers.Prelude.{
  ℕ, ◌+◌, ◌<◌, ◌≡◌, refl, sym, ap, ◌∙◌, Option, some, arith, drop, size_mod, length, append-nil,
}
use buffers.Buffer.{BasicBuffer, remove_prefix, do_slice}
use buffers.Buffer.Laws.{addrs, addrs-do_slice}
use buffers.Sequence.{BufferSequence, singleton}
use buffers.Sequence.Laws.{seq_addrs, total}
use buffers.Pair.{MutableBufferPair, mutable_pair_sequence, slice_mutable_pair}
use buffers.Pair.Laws.{seq_addrs-slice_mutable_pair}
use buffers.Slice.{SliceOf, slice_of, elements}
use buffers.Slice.Laws.{slice_of-IsValid, slice_impl-trim}
use buffers.Trim.{Sliceable, sans_prefix}
use buffers.Trim.Instances.{buffer_sliceable, slice_sliceable, pair_sliceable}

-- The type of `data()` with its slices: the buffers that an algorithm visits in it and in a slice.
-- The laws say that they cover the addresses that the trimming algorithms speak of.
pub record DataSource : Type 1 where
  pub slices : Sliceable
  pub buffers_of : slices.Source → BufferSequence
  pub elements_of : slices.Carrier → Option BufferSequence
  pub total-lt : (b : slices.Source) → slices.IsSource b → total (buffers_of b) < size_mod
  pub elements-sans_prefix :
      (b : slices.Source) (n : ℕ)
      → slices.IsSource b
      → n < size_mod
      → (c : slices.Carrier) × (bs : BufferSequence) × (sans_prefix slices b n ≡ some c)
        × (elements_of c ≡ some bs)
        × (seq_addrs bs ≡ drop n (seq_addrs (buffers_of b)))

pub buffer_sans_prefix :
    (b : BasicBuffer) (n : ℕ)
    → b.len < size_mod
    → (c : BasicBuffer) × (bs : BufferSequence) × (sans_prefix buffer_sliceable b n ≡ some c)
      × (◌≡◌ {A = Option BufferSequence} (some (singleton c)) (some bs))
      × (seq_addrs bs ≡ drop n (seq_addrs (singleton b)))
unfolding sans_prefix
buffer_sans_prefix b n h = (
  do_slice b remove_prefix n,
  singleton (do_slice b remove_prefix n),
  refl,
  refl,
  append-nil (addrs (do_slice b remove_prefix n))
      ∙ addrs-do_slice b remove_prefix n h
      ∙ sym (ap (drop n) (append-nil (addrs b))),
)

-- `mutable_buffer`
abbrev pub buffer_source : DataSource
buffer_source = record {
  slices = buffer_sliceable;
  buffers_of = singleton;
  elements_of = λ b. some (singleton b);
  total-lt = λ b h. omega arith;
  elements-sans_prefix = λ b n h k. buffer_sans_prefix b n h;
}

pub slice_sans_prefix :
    (b : BufferSequence) (n : ℕ)
    → total b < size_mod
    → length b < size_mod
    → (c : SliceOf) × (bs : BufferSequence) × (sans_prefix slice_sliceable b n ≡ some c)
      × (elements c ≡ some bs)
      × (seq_addrs bs ≡ drop n (seq_addrs b))
unfolding sans_prefix
slice_sans_prefix b n h k =
    let (v, w) = slice_of-IsValid b h k in
    let (s, bs, r, e, f) = slice_impl-trim (slice_of b) remove_prefix n v in
    (s, bs, r, e, f ∙ ap (drop n) w)

-- A sequence that is sliced through `slice_of`.
abbrev pub sequence_source : DataSource
sequence_source = record {
  slices = slice_sliceable;
  buffers_of = λ b. b;
  elements_of = elements;
  total-lt = λ b h. h.0;
  elements-sans_prefix = λ b n h k. slice_sans_prefix b n h.0 h.1;
}

pub pair_sans_prefix :
    (b : MutableBufferPair) (n : ℕ)
    → b.first.len + b.second.len < size_mod
    → n < size_mod
    → (c : MutableBufferPair) × (bs : BufferSequence) × (sans_prefix pair_sliceable b n ≡ some c)
      × (◌≡◌ {A = Option BufferSequence} (some (mutable_pair_sequence c)) (some bs))
      × (seq_addrs bs ≡ drop n (seq_addrs (mutable_pair_sequence b)))
unfolding sans_prefix
pair_sans_prefix b n h k =
    let c = slice_mutable_pair b remove_prefix n in
    (
      c,
      mutable_pair_sequence c,
      refl,
      refl,
      seq_addrs-slice_mutable_pair b remove_prefix n (omega arith) (omega arith) k,
    )

-- `mutable_buffer_pair`
abbrev pub pair_source : DataSource
pair_source = record {
  slices = pair_sliceable;
  buffers_of = mutable_pair_sequence;
  elements_of = λ b. some (mutable_pair_sequence b);
  total-lt = λ b h. omega arith;
  elements-sans_prefix = pair_sans_prefix;
}
