-- ===== src/Slice/Tests.antt =====
-- Slices of small sequences, and the theorems at them.
use buffers.Prelude.{◌≡◌, refl, [], ◌∷◌, some, none, inl, arith}
use buffers.Buffer.{buffer, keep_prefix}
use buffers.Sequence.{BufferSequence}
use buffers.Sequence.Laws.{seq_addrs}
use buffers.Slice.{
  SliceOf, slice_of, slice_impl, remove_prefix_impl, keep_prefix_impl, elements, iterate_back,
  begin, end,
}
use buffers.Slice.Inv.{IsValid}
use buffers.Slice.Back.{iterate_back-elements}
use buffers.Slice.Iter.{elements-view}
use buffers.Slice.Laws.{slice_impl-trim}
use buffers.Slice.Stale.{stale_prefix}

-- Three buffers, the second of them empty.
abbrev three : BufferSequence
three = buffer 100 3 ∷ buffer 200 0 ∷ buffer 300 4 ∷ []

-- A byte was dropped at both ends.
abbrev inner : SliceOf
inner = record { bs = three; begin = 0; end = 3; len = 3; size = 5; prefix = 1; suffix = 1 }

inner-IsValid : IsValid inner
inner-IsValid = record {
  fits = omega arith;
  short = omega arith;
  ordered = omega arith;
  inside = omega arith;
  counted = refl;
  sum = refl;
  front = omega arith;
  back = omega arith;
}

slice_impl-trim_example :
    (s' : SliceOf) × (bs : BufferSequence) × (slice_impl inner keep_prefix 3 ≡ some s')
    × (elements s' ≡ some bs)
    × (seq_addrs bs ≡ 101 ∷ 102 ∷ 300 ∷ [])
slice_impl-trim_example = slice_impl-trim inner keep_prefix 3 inner-IsValid

iterate_back-elements_example :
    (bs : BufferSequence) × (iterate_back 4 three (end inner) (begin inner) [] ≡ some bs)
    × (elements inner ≡ some bs)
    × (seq_addrs bs ≡ 101 ∷ 102 ∷ 300 ∷ 301 ∷ 302 ∷ [])
iterate_back-elements_example = iterate_back-elements inner inner-IsValid

elements-view_example :
    (bs : BufferSequence) × (elements inner ≡ some bs)
    × (seq_addrs bs ≡ 101 ∷ 102 ∷ 300 ∷ 301 ∷ 302 ∷ [])
elements-view_example = elements-view inner (inl inner-IsValid)

-- What `keep_prefix(s, 0)` leaves of a slice without its first two bytes.
abbrev emptied : SliceOf
emptied = record { bs = three; begin = 0; end = 0; len = 0; size = 0; prefix = 2; suffix = 0 }

stale_prefix_example :
    (s' : SliceOf) × (remove_prefix_impl emptied 0 ≡ some s')
    × (s'.size ≡ 2)
    × (elements s' ≡ some [])
    × (keep_prefix_impl s' 1 ≡ none)
stale_prefix_example =
    stale_prefix emptied 0 1 (record { met = refl; none_counted = refl; no_bytes = refl })
      (omega arith) (omega arith) (omega arith)

emptied_from :
    keep_prefix_impl (record (slice_of three) { size = 5; prefix = 2 }) 0
    ≡ some (record emptied { bs = three })
unfolding keep_prefix_impl slice_of
emptied_from = refl
