-- ===== src/AnyBuffers/Places.antt =====
-- The places of the iterators of a type-erased sequence: what they have in `storage_`.
use buffers.Prelude.{
  ℕ, zero, suc, ◌+◌, ◌≤◌, ◌<◌, ◌≡◌, refl, ap, ◌∙◌, [], some, ◌==◌, arith, length, get_elem?,
  size_mod,
}
use buffers.Sequence.{BufferSequence}
use buffers.AnyBuffers.Range.{SequenceType}
use buffers.AnyBuffers.{
  Impl, empty_impl, small_iter, large_iter, Storage, nothing, iter, index, impl_begin, impl_end,
  inc, dec, walk, deref, equal, AnyBuffers, ConstIterator,
}

module _ (t : SequenceType) where
  -- The buffers that an implementation stands for.
  unfoldable pub stands_for : Impl t → BufferSequence
  stands_for empty_impl = []
  stands_for (small_iter s) = t.visits s
  stands_for (large_iter s len) = t.visits s

  -- `len_` is the number of the buffers, which `std::size_t` counts.
  unfoldable pub IsValid : Impl t → Type 0
  IsValid empty_impl = 0 < size_mod
  IsValid (small_iter s) = length (t.visits s) < size_mod
  IsValid (large_iter s len) = (len ≡ length (t.visits s)) × (length (t.visits s) < size_mod)

  -- What an iterator has in its storage at the place `k`.
  pub slot : Impl t → ℕ → Storage t
  slot empty_impl k = nothing
  slot (small_iter s) k = iter (t.place s k)
  slot (large_iter s len) k = index k

  pub begin-slot : (x : Impl t) → impl_begin t x ≡ slot x 0
  unfolding impl_begin slot
  begin-slot empty_impl = refl
  begin-slot (small_iter s) = ap iter (t.begin-place s)
  begin-slot (large_iter s len) = refl

  pub end-slot : (x : Impl t) → IsValid x → impl_end t x ≡ slot x (length (stands_for x))
  unfolding impl_end slot stands_for IsValid
  end-slot empty_impl v = refl
  end-slot (small_iter s) v = ap iter (t.end-place s)
  end-slot (large_iter s len) v = ap index v.0

  pub inc-slot :
      (x : Impl t) (k : ℕ)
      → IsValid x
      → k < length (stands_for x)
      → inc t x (slot x k) ≡ some (slot x (suc k))
  unfolding inc slot stands_for IsValid
  inc-slot empty_impl k v h = absurd (omega arith)
  inc-slot (small_iter s) k v h = ap (λ p. some (iter p)) (t.inc-place s k h)
  inc-slot (large_iter s len) k v h = ap (λ p. some (index p)) (omega (arith, v.1))

  pub dec-slot :
      (x : Impl t) (k : ℕ)
      → IsValid x
      → k < length (stands_for x)
      → dec t x (slot x (suc k)) ≡ some (slot x k)
  unfolding dec slot stands_for IsValid
  dec-slot empty_impl k v h = absurd (omega arith)
  dec-slot (small_iter s) k v h = ap (λ p. some (iter p)) (t.dec-place s k h)
  dec-slot (large_iter s len) k v h = ap (λ p. some (index p)) (omega (arith, v.1))

  walk-place :
      (s : t.Seq) (k i : ℕ)
      → k + i < length (t.visits s)
      → walk t k (t.place s i) ≡ t.place s (k + i)
  unfolding walk
  walk-place s zero i h = ap (t.place s) (omega arith)
  walk-place s (suc k) i h =
      ap (walk t k) (t.inc-place s i (omega arith))
      ∙ walk-place s k (suc i) (omega arith)
      ∙ ap (t.place s) (omega arith)

  pub deref-slot :
      (x : Impl t) (k : ℕ)
      → k < length (stands_for x)
      → deref t x (slot x k) ≡ get_elem? (stands_for x) k
  unfolding deref slot stands_for
  deref-slot empty_impl k h = absurd (omega arith)
  deref-slot (small_iter s) k h = t.deref-place s k h
  deref-slot (large_iter s len) k h =
      ap (λ p. t.deref (walk t k p)) (t.begin-place s)
      ∙ ap t.deref (walk-place s k 0 (omega arith))
      ∙ ap (λ i. t.deref (t.place s i)) (omega arith)
      ∙ t.deref-place s k h

  pub equal-slot :
      (x : Impl t) (k l : ℕ)
      → k ≤ length (stands_for x)
      → l ≤ length (stands_for x)
      → equal t x (slot x k) (slot x l) ≡ some (k == l)
  unfolding equal slot stands_for
  equal-slot empty_impl k l h i = ap some (ground arith)
  equal-slot (small_iter s) k l h i = ap some (t.equal-place s k l h i)
  equal-slot (large_iter s len) k l h i = refl

  -- The iterator of `a` at the place `k`.
  abbrev pub iter_at : AnyBuffers t → ℕ → ConstIterator t
  iter_at a k = record { sp = a.sp; impl = a.impl; storage = slot a.impl k }
