-- ===== src/Slice.antt =====
-- include/boost/buffers/slice.hpp: `slice_of`, which wraps a buffer sequence with the part of it
-- that is left, and the algorithms that trim. A failed BOOST_ASSERT and a read past the end of
-- the sequence are `none`.
pub mod Window
pub mod Inv
pub mod Pass
pub mod Prefix
pub mod Suffix
pub mod Keep
pub mod Laws
pub mod Cuts
pub mod Back
pub mod Iter
pub mod Stale
mod Tests
use buffers.Prelude.{
  ℕ, zero, suc, ◌+◌, ◌-◌, Bool, true, false, ◌&&◌, not, List, [], ◌∷◌, Option, none, some, ltb, leb,
  ◌==◌, if◌then◌else◌, length, get_elem?, add_size, sub_size,
}
use buffers.Buffer.{BasicBuffer, buffer, SliceHow, remove_prefix, keep_prefix}
use buffers.Sequence.{BufferSequence}

-- The members of `slice_of`: the sequence, the positions of its first and past its last buffer,
-- their number, the bytes in them, and the bytes dropped from the first and from the last.
pub record SliceOf : Type 0 where
  pub bs : BufferSequence
  pub begin : ℕ
  pub end : ℕ
  pub len : ℕ
  pub size : ℕ
  pub prefix : ℕ
  pub suffix : ℕ

-- The loop of the constructor, over what is left of the sequence: `size_` and `len_`.
count : BufferSequence → ℕ → ℕ → ℕ × ℕ
count [] size len = (size, len)
count (b ∷ bs) size len = count bs (add_size size b.len) (add_size len 1)

-- `slice_of(bs)`
pub slice_of : BufferSequence → SliceOf
unfolding count
slice_of bs = record {
  bs = bs;
  begin = 0;
  end = length bs;
  len = (count bs 0 0).1;
  size = (count bs 0 0).0;
  prefix = 0;
  suffix = 0;
}

-- The loop of `remove_prefix_impl`. Each round but the last passes a buffer.
pub remove_prefix_loop : ℕ → ℕ → SliceOf → Option SliceOf
remove_prefix_loop zero n s = none
remove_prefix_loop (suc fuel) n s = elim (ltb 0 n && not (s.begin == s.end)) [
  | false ↦ some s
  | true ↦ elim (get_elem? s.bs s.begin) [
    | none ↦ none
    | some b ↦ elim (ltb n b.len) [
      | true ↦ some (record s { prefix = n; size = sub_size s.size n })
      | false ↦
          remove_prefix_loop fuel (sub_size n b.len)
            (record s { size = sub_size s.size b.len; begin = s.begin + 1; len = sub_size s.len 1 })
    ]
  ]
]

pub remove_prefix_impl : SliceOf → ℕ → Option SliceOf
remove_prefix_impl s n =
    let m = if ltb s.size n then s.size else n in
    remove_prefix_loop (suc (s.end - s.begin)) (add_size m s.prefix)
      (record s { size = add_size s.size s.prefix; prefix = 0 })

-- What follows the loop of `remove_suffix_impl`: `it` stands at the first buffer.
remove_suffix_first : ℕ → SliceOf → Option SliceOf
remove_suffix_first n s = elim (get_elem? s.bs s.begin) [
  | none ↦ none
  | some b ↦
      if ltb n (sub_size b.len s.prefix)
      then some (record s { suffix = n; size = sub_size s.size n })
      else some (record s { end = s.begin; len = 0; size = 0 })
]

-- The loop of `remove_suffix_impl`: `k` is the distance from the first buffer to `it`.
pub remove_suffix_loop : ℕ → ℕ → SliceOf → Option SliceOf
remove_suffix_loop zero n s = remove_suffix_first n s
remove_suffix_loop (suc k) n s = elim (get_elem? s.bs (s.begin + suc k)) [
  | none ↦ none
  | some b ↦ elim (ltb n b.len) [
    | true ↦ some (record s { suffix = n; size = sub_size s.size n })
    | false ↦
        remove_suffix_loop k (sub_size n b.len)
          (record s { size = sub_size s.size b.len; end = s.end - 1; len = sub_size s.len 1 })
  ]
]

pub remove_suffix_impl : SliceOf → ℕ → Option SliceOf
remove_suffix_impl s n =
    if s.size == 0
    then if s.begin == s.end then some s else none
    else if s.begin == s.end
    then none
    else let m = if ltb s.size n then s.size else n in
      remove_suffix_loop (s.end - s.begin - 1) (add_size m s.suffix)
        (record s { size = add_size s.size s.suffix; suffix = 0 })

pub keep_prefix_impl : SliceOf → ℕ → Option SliceOf
keep_prefix_impl s n =
    if leb s.size n
    then some s
    else if n == 0
    then some (record s { end = s.begin; len = 0; size = 0 })
    else remove_suffix_impl s (sub_size s.size n)

pub keep_suffix_impl : SliceOf → ℕ → Option SliceOf
keep_suffix_impl s n =
    if leb s.size n
    then some s
    else if n == 0
    then some (record s { begin = s.end; len = 0; size = 0 })
    else remove_prefix_impl s (sub_size s.size n)

-- `slice_impl`, which its `tag_invoke` calls
pub slice_impl : SliceOf → SliceHow → ℕ → Option SliceOf
slice_impl s remove_prefix n = remove_prefix_impl s n
slice_impl s keep_prefix n = keep_prefix_impl s n

-- `const_iterator`: the position in the sequence, the bytes dropped at both ends, the number of
-- the buffer in the slice, and the number of the end.
pub record ConstIterator : Type 0 where
  pub it : ℕ
  pub prefix : ℕ
  pub suffix : ℕ
  pub i : ℕ
  pub n : ℕ

pub begin : SliceOf → ConstIterator
begin s = record { it = s.begin; prefix = s.prefix; suffix = s.suffix; i = 0; n = s.len }

pub end : SliceOf → ConstIterator
end s = record { it = s.end; prefix = s.prefix; suffix = s.suffix; i = s.len; n = s.len }

-- `operator==`
pub iter_eq : ConstIterator → ConstIterator → Bool
iter_eq p q =
    p.it == q.it && (p.prefix == q.prefix && (p.suffix == q.suffix && (p.i == q.i && p.n == q.n)))

-- `operator*`
pub deref : BufferSequence → ConstIterator → Option BasicBuffer
deref bs p = elim (get_elem? bs p.it) [
  | none ↦ none
  | some v ↦
      let start = if p.i == 0 then p.prefix else 0 in
      let rest = if p.i == 0 then sub_size v.len p.prefix else v.len in
      some (buffer (v.ptr + start) (if p.i == sub_size p.n 1 then sub_size rest p.suffix else rest))
]

-- `operator++`
pub increment : ConstIterator → Option ConstIterator
increment p = if ltb p.i p.n then some (record p { it = p.it + 1; i = add_size p.i 1 }) else none

-- `operator--`
pub decrement : ConstIterator → Option ConstIterator
decrement p = if ltb 0 p.i then some (record p { it = p.it - 1; i = sub_size p.i 1 }) else none

-- The buffers that a loop from `p` to `q` visits. `none`: a read past the end of the sequence, a
-- failed assertion, or no fuel left.
pub iterate : ℕ → BufferSequence → ConstIterator → ConstIterator → Option BufferSequence
iterate zero bs p q = none
iterate (suc fuel) bs p q = elim (iter_eq p q) [
  | true ↦ some []
  | false ↦ elim (deref bs p) [
    | none ↦ none
    | some b ↦ elim (increment p) [
      | none ↦ none
      | some p' ↦ elim (iterate fuel bs p' q) [ none ↦ none | some bs' ↦ some (b ∷ bs') ]
    ]
  ]
]

-- The sequence that a slice presents to an algorithm, from `begin()` to `end()`.
pub elements : SliceOf → Option BufferSequence
elements s = iterate (suc s.len) s.bs (begin s) (end s)

-- The loop that goes back from `p` to `q`, putting each buffer before those that it visited.
pub iterate_back :
    ℕ → BufferSequence → ConstIterator → ConstIterator → BufferSequence → Option BufferSequence
iterate_back zero bs p q acc = none
iterate_back (suc fuel) bs p q acc = elim (iter_eq p q) [
  | true ↦ some acc
  | false ↦ elim (decrement p) [
    | none ↦ none
    | some p' ↦ elim (deref bs p') [ none ↦ none | some b ↦ iterate_back fuel bs p' q (b ∷ acc) ]
  ]
]
