-- ===== src/Slice/Keep.antt =====
-- `remove_suffix_impl` and `keep_prefix_impl` keep the first addresses of a slice,
-- `keep_suffix_impl` the last.
use buffers.Prelude.{
  ℕ, zero, suc, ◌-◌, ◌<◌, min, ◌≡◌, refl, sym, ap, ◌∙◌, false, some, inl, inr, arith, tests, leb,
  ◌==◌, Bool-cases, leb→lt, le→ltb, drop_at, take, drop, take_at, take_all, take-take, add_size,
  sub_size,
}
use native.Mathlib.Decide.{dec_lt}
use buffers.Sequence.Laws.{seq_addrs, total}
use buffers.Slice.{
  SliceOf, remove_suffix_loop, remove_suffix_impl, keep_prefix_impl, keep_suffix_impl,
}
use buffers.Slice.Prefix.{remove_prefix_impl-Drops}
use buffers.Slice.Window.{window_empty}
use buffers.Slice.Inv.{win, view, Back-zero, IsValid, IsReadable, size-lt, length-view}
use buffers.Slice.Suffix.{Start, loop-Leaves}

-- The members that the loop starts from: the bytes dropped before are to be dropped again.
abbrev start : SliceOf → SliceOf
start s = record s { size = add_size s.size s.suffix; suffix = 0 }

module _ (s : SliceOf) (n : ℕ) (v : IsValid s) (h : n < s.size) where
  apart : s.begin < s.end
  apart = elim (dec_lt s.begin s.end) [
    | yes lt ↦ lt
    | no ge ↦
        absurd (omega (arith, v.sum, ap total (window_empty s.bs s.begin s.end (omega arith))))
  ]

  start-Start : Start (s.end - s.begin - 1) (add_size n s.suffix) (start s)
  start-Start = record {
    valid = record {
      fits = v.fits;
      short = v.short;
      ordered = v.ordered;
      inside = v.inside;
      counted = v.counted;
      sum = omega (arith, v.sum, size-lt s v);
      front = v.front;
      back = Back-zero (win s);
    };
    whole = refl;
    fewer = omega (arith, size-lt s v);
    last = omega (arith, apart);
  }

  impl-loop :
      remove_suffix_impl s n
      ≡ remove_suffix_loop (s.end - s.begin - 1) (add_size n s.suffix) (start s)
  unfolding remove_suffix_impl
  impl-loop = rw (some_bytes, some_buffers, le→ltb s.size n (omega arith))
    where
      some_bytes : (s.size == 0) ≡ false
      some_bytes = ground arith

      some_buffers : (s.begin == s.end) ≡ false
      some_buffers = ground (arith, apart)

-- `remove_suffix_impl` on a valid slice of more than `n` bytes runs without a fault and leaves a
-- valid slice of all addresses but the last `n`.
remove_suffix_impl-Leaves :
    (s : SliceOf) (n : ℕ)
    → IsValid s
    → n < s.size
    → (s' : SliceOf) × (remove_suffix_impl s n ≡ some s')
      × IsValid s'
      × (view s' ≡ take (s.size - n) (view s))
remove_suffix_impl-Leaves s n v h =
    let (s', r, v', u) =
      loop-Leaves (s.end - s.begin - 1) (add_size n s.suffix) (start s) (start-Start s n v h) in
    (
      s',
      impl-loop s n v h ∙ r,
      v',
      u
          ∙ take_at (drop s.prefix (seq_addrs (win s)))
              (add_size s.size s.suffix - add_size n s.suffix) (min (s.size - n) s.size)
              (omega (arith, size-lt s v))
          ∙ sym (take-take (s.size - n) s.size (drop s.prefix (seq_addrs (win s)))),
    )

-- `keep_prefix_impl` on a valid slice, of a number that is not 0, runs without a fault and leaves a valid slice of the first `n` addresses.
keep_prefix_impl-IsValid :
    (s : SliceOf) (n : ℕ)
    → IsValid s
    → 0 < n
    → (s' : SliceOf) × (keep_prefix_impl s n ≡ some s') × IsValid s' × (view s' ≡ take n (view s))
unfolding keep_prefix_impl
keep_prefix_impl-IsValid s n v h = elim (Bool-cases (leb s.size n)) [
  | inl e ↦ (s, rw e, v, sym (take_all n (view s) (omega (tests, length-view s v))))
  | inr e ↦
      let l : n < s.size = leb→lt s.size n e in
      let (s', r, v', u) =
        remove_suffix_impl-Leaves s (sub_size s.size n) v (omega (arith, size-lt s v)) in
      (
        s',
        rw (e, positive) r,
        v',
        u ∙ take_at (view s) (s.size - sub_size s.size n) n (omega (arith, size-lt s v)),
      )
]
  where
    positive : (n == 0) ≡ false
    positive = ground arith

-- `keep_prefix_impl` on a valid slice runs without a fault and leaves the first `n` addresses.
pub keep_prefix_impl-IsReadable :
    (s : SliceOf) (n : ℕ)
    → IsValid s
    → (s' : SliceOf) × (keep_prefix_impl s n ≡ some s')
      × IsReadable s'
      × (view s' ≡ take n (view s))
unfolding keep_prefix_impl
keep_prefix_impl-IsReadable s zero v = elim (Bool-cases (leb s.size 0)) [
  | inl e ↦ (s, rw e, inl v, sym (take_all 0 (view s) (omega (tests, length-view s v))))
  | inr e ↦ (record s { end = s.begin; len = 0; size = 0 }, rw e, inr (omega arith), refl)
]
keep_prefix_impl-IsReadable s (suc n) v =
    let (s', r, v', u) = keep_prefix_impl-IsValid s (suc n) v (omega arith) in (s', r, inl v', u)

-- `keep_suffix_impl` on a valid slice, of a number that is not 0, runs without a fault and leaves a
-- valid slice of the last `n` addresses, of all where there are fewer.
keep_suffix_impl-IsValid :
    (s : SliceOf) (n : ℕ)
    → IsValid s
    → 0 < n
    → (s' : SliceOf) × (keep_suffix_impl s n ≡ some s')
      × IsValid s'
      × (view s' ≡ drop (s.size - n) (view s))
unfolding keep_suffix_impl
keep_suffix_impl-IsValid s n v h = elim (Bool-cases (leb s.size n)) [
  | inl e ↦ (s, rw e, v, drop_at (view s) 0 (s.size - n) (omega tests))
  | inr e ↦
      let l : n < s.size = leb→lt s.size n e in
      let (s', r, v', u) = remove_prefix_impl-Drops s (sub_size s.size n) v in
      (
        s',
        rw e (rw (nonzero) r),
        v',
        u ∙ drop_at (view s) (sub_size s.size n) (s.size - n) (omega (arith, size-lt s v)),
      )
]
  where
    nonzero : (n == 0) ≡ false
    nonzero = ground arith
