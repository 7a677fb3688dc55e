-- ===== src/Buffer/Laws.antt =====
-- What slicing a buffer does to the addresses that it covers.
use buffers.Prelude.{
  ℕ, ◌+◌, ◌-◌, ◌<◌, ◌≤◌, min, ◌≡◌, refl, ap, ◌∙◌, sym, List, inl, inr, arith, ltb, Bool-cases,
  ltb→lt, ltb→le, if◌then◌else◌, take, drop, size_mod,
}
use buffers.Buffer.{
  BasicBuffer, MutableBuffer, SliceHow, remove_prefix, keep_prefix, advance, do_slice,
  advance_const, do_slice_const, advance_gcc6, tag_invoke_gcc6,
}
use buffers.Buffer.Region.{region, region_at, region_empty, take-region, drop-region}

-- The addresses of a buffer, first to last.
abbrev pub addrs : BasicBuffer → List ℕ
addrs b = region b.ptr b.len

-- What an operation that trims by `how` leaves of a list.
abbrev pub trim {ℓ} : {A : Type ℓ} → SliceHow → ℕ → List A → List A
trim remove_prefix n xs = drop n xs
trim keep_prefix n xs = take n xs

-- `operator+=` moves the pointer and cuts the length by the same number, at most the length.
advance_fields :
    (b : BasicBuffer) (n : ℕ)
    → b.len < size_mod
    → ((advance b n).ptr ≡ b.ptr + min n b.len) × ((advance b n).len ≡ b.len - n)
unfolding advance
advance_fields b n h = ground arith

-- `operator+=` drops the first `n` addresses.
addrs-advance :
    (b : BasicBuffer) (n : ℕ) → b.len < size_mod → addrs (advance b n) ≡ drop n (addrs b)
addrs-advance b n h = elim (Bool-cases (ltb b.len n)) [
  | inl l ↦ over (ltb→lt _ _ l)
  | inr l ↦ within (ltb→le _ _ l)
]
  where
    fs : ((advance b n).ptr ≡ b.ptr + min n b.len) × ((advance b n).len ≡ b.len - n)
    fs = advance_fields b n h

    within : n ≤ b.len → addrs (advance b n) ≡ drop n (addrs b)
    within l =
        region_at _ (b.ptr + n) _ (b.len - n) (omega (arith, fs)) (omega (arith, fs))
        ∙ sym (drop-region n b.ptr b.len)

    over : b.len < n → addrs (advance b n) ≡ drop n (addrs b)
    over l =
        region_empty _ (b.ptr + n) _ (b.len - n) (omega (arith, fs)) (omega arith)
        ∙ sym (drop-region n b.ptr b.len)

addrs-keep :
    (b : BasicBuffer) (n : ℕ)
    → addrs (if ltb n b.len then record b { len = n } else b) ≡ take n (addrs b)
addrs-keep b n = elim (Bool-cases (ltb n b.len)) [
  | inl l ↦
      rw (l, take-region n b.ptr b.len)
        (ap (region b.ptr) (let h : n < b.len = ltb→lt _ _ l in omega arith))
  | inr l ↦
      rw (l, take-region n b.ptr b.len)
        (ap (region b.ptr) (let h : b.len ≤ n = ltb→le _ _ l in omega arith))
]

-- Slicing a buffer that `std::size_t` can measure removes its first `n` addresses, or keeps
-- only those, all of them where there are fewer.
pub addrs-do_slice :
    (b : MutableBuffer) (how : SliceHow) (n : ℕ)
    → b.len < size_mod
    → addrs (do_slice b how n) ≡ trim how n (addrs b)
unfolding do_slice
addrs-do_slice b remove_prefix n h = addrs-advance b n h
addrs-do_slice b keep_prefix n h = addrs-keep b n

-- `const_buffer`, `mutable_buffer` and the class template for old compilers are sliced alike.
pub do_slice_agree :
    (b : BasicBuffer) (how : SliceHow) (n : ℕ)
    → (do_slice_const b how n ≡ do_slice b how n) × (tag_invoke_gcc6 b how n ≡ do_slice b how n)
unfolding do_slice do_slice_const tag_invoke_gcc6 advance advance_const advance_gcc6
do_slice_agree b remove_prefix n = (refl, refl)
do_slice_agree b keep_prefix n = (refl, refl)
