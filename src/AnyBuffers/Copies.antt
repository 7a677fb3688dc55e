-- ===== src/AnyBuffers/Copies.antt =====
-- Copies of a type-erased sequence.
use buffers.Prelude.{
  ℕ, suc, ◌≡◌, ◌≤◌, ◌<◌, ◌⊎◌, inl, inr, refl, [], Bool, true, false, some, ◌==◌, leb, if◌then◌else◌,
  arith, tests, Bool-cases, length,
}
use buffers.Sequence.Laws.{length_agree}
use buffers.AnyBuffers.Range.{SequenceType}
use buffers.AnyBuffers.Places.{stands_for, IsValid}
use buffers.AnyBuffers.Laws.{iterates}
use buffers.AnyBuffers.{
  Impl, empty_impl, small_iter, large_iter, AnyBuffers, place_of, sbo_size, copy_sp, copy_impl,
  copy, impl_begin, equal, begin, end, iter_eq, iterate, iterate_back,
}

module _ (t : SequenceType) where
  -- Whether an implementation is that of the default constructor.
  abbrev pub is_default : Impl t → Bool
  is_default empty_impl = true
  is_default (small_iter s) = false
  is_default (large_iter s len) = false

  copy_impl-stands_for : (x : Impl t) → stands_for t (copy_impl t x) ≡ stands_for t x
  unfolding copy_impl stands_for
  copy_impl-stands_for empty_impl = refl
  copy_impl-stands_for (small_iter s) = refl
  copy_impl-stands_for (large_iter s len) = refl

  copy_impl-IsValid : (x : Impl t) → IsValid t x → IsValid t (copy_impl t x)
  unfolding copy_impl IsValid
  copy_impl-IsValid empty_impl v = v
  copy_impl-IsValid (small_iter s) v = v
  copy_impl-IsValid (large_iter s len) v = ((length_agree (t.visits s) v.1).0, v.1)

  -- Where the copy of an implementation `x` at `sp` is.
  abbrev pub IsPlaced : ℕ → ℕ → ℕ → Impl t → ℕ → Type 0
  IsPlaced storage fresh sp x sp' =
      ((is_default x ≡ true) × (sp' ≡ sp))
      ⊎ (((is_default x ≡ false) × (t.sizeof_impl ≤ 48) × (sp' ≡ storage))
          ⊎ ((is_default x ≡ false) × (48 < t.sizeof_impl) × (sp' ≡ fresh)))

  place_of-fits :
      (storage fresh : ℕ)
      → ((t.sizeof_impl ≤ 48) × (place_of t storage fresh ≡ storage))
        ⊎ ((48 < t.sizeof_impl) × (place_of t storage fresh ≡ fresh))
  place_of-fits storage fresh = elim (Bool-cases (leb t.sizeof_impl sbo_size)) [
    | inl e ↦ inl (omega tests, rw e)
    | inr e ↦ inr (omega tests, rw e)
  ]

  copy_sp-IsPlaced :
      (storage fresh sp : ℕ) (x : Impl t)
      → IsPlaced storage fresh sp x (copy_sp t storage fresh sp x)
  unfolding copy_sp
  copy_sp-IsPlaced storage fresh sp empty_impl = inl (refl, refl)
  copy_sp-IsPlaced storage fresh sp (small_iter s) = elim (place_of-fits storage fresh) [
    | inl (f, e) ↦ inr (inl (refl, f, e))
    | inr (f, e) ↦ inr (inr (refl, f, e))
  ]
  copy_sp-IsPlaced storage fresh sp (large_iter s len) = elim (place_of-fits storage fresh) [
    | inl (f, e) ↦ inr (inl (refl, f, e))
    | inr (f, e) ↦ inr (inr (refl, f, e))
  ]

  begin_eq :
      (storage fresh : ℕ) (a : AnyBuffers t)
      → (storage == a.sp) ≡ false
      → (fresh == a.sp) ≡ false
      → iter_eq t (begin t (copy t storage fresh a)) (begin t a) ≡ some (is_default a.impl)
  unfolding iter_eq begin copy copy_sp copy_impl equal
  begin_eq storage fresh a h k = go a.impl
    where
      same : (p : ℕ) → (p == p) ≡ true
      same p = ground arith

      apart : (place_of t storage fresh == a.sp) ≡ false
      apart = elim (Bool-cases (leb t.sizeof_impl sbo_size)) [ inl e ↦ rw e h | inr e ↦ rw e k ]

      go :
          (x : Impl t)
          → (if copy_sp t storage fresh a.sp x == a.sp
              then equal t (copy_impl t x) (impl_begin t (copy_impl t x)) (impl_begin t x)
              else some false)
            ≡ some (is_default x)
      go empty_impl = rw (same a.sp) refl
      go (small_iter s) = rw apart refl
      go (large_iter s len) = rw apart refl

  -- A copy of a valid sequence, into a `storage_` and new memory other than where the original's
  -- implementation is: the copy's own implementation is in `storage_` where it has at most 48 bytes,
  -- else in the new memory, except that default-made sequences share one. The loops over the copy
  -- visit the buffers that the original stands for, forwards and backwards, and its `begin()`
  -- differs from the original's, unless both are default-made.
  pub iterate-copy :
      (storage fresh : ℕ) (a : AnyBuffers t)
      → IsValid t a.impl
      → (storage == a.sp) ≡ false
      → (fresh == a.sp) ≡ false
      → IsPlaced storage fresh a.sp a.impl (copy t storage fresh a).sp
        × (iterate t
              (suc (length (stands_for t a.impl)))
              (begin t (copy t storage fresh a))
              (end t (copy t storage fresh a))
            ≡ some (stands_for t a.impl))
        × (iterate_back t
              (suc (length (stands_for t a.impl)))
              (end t (copy t storage fresh a))
              (begin t (copy t storage fresh a))
              []
            ≡ some (stands_for t a.impl))
        × (iter_eq t (begin t (copy t storage fresh a)) (begin t a) ≡ some (is_default a.impl))
  unfolding copy
  iterate-copy storage fresh a v h k =
      let w = copy_impl-IsValid a.impl v in
      let (p, q) = rw (copy_impl-stands_for a.impl) at (iterates t (copy t storage fresh a) w) in
      (copy_sp-IsPlaced storage fresh a.sp a.impl, p, q, begin_eq storage fresh a h k)
