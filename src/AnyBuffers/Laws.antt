-- ===== src/AnyBuffers/Laws.antt =====
-- The iterators of a type-erased sequence.
use buffers.Prelude.{
  ℕ, zero, suc, ◌-◌, ◌≤◌, ◌<◌, ◌≡◌, refl, sym, ap, ap₂, ◌∙◌, [], ◌∷◌, true, false, some, leb, ◌==◌,
  Bool-cases, inl, inr, arith, length, drop, get_elem?, size_mod,
}
use buffers.Buffer.{BasicBuffer}
use buffers.Sequence.{BufferSequence}
use buffers.Sequence.Laws.{length_agree}
use buffers.AnyBuffers.Range.{SequenceType}
use buffers.AnyBuffers.{
  iter_sbo_size, AnyBuffers, construct, ConstIterator, begin, end, iter_eq, iter_deref, increment,
  decrement, iterate, iterate_back,
}
use buffers.AnyBuffers.Places.{
  stands_for, IsValid, begin-slot, end-slot, inc-slot, dec-slot, deref-slot, equal-slot, iter_at,
}

module _ (t : SequenceType) (fuel : ℕ) (p q : ConstIterator t) where
  iterate-stop : iter_eq t p q ≡ some true → iterate t (suc fuel) p q ≡ some []
  unfolding iterate
  iterate-stop e = rw (e, iterate)

  iterate-step :
      (p' : ConstIterator t) (b : BasicBuffer) (bs : BufferSequence)
      → iter_eq t p q ≡ some false
      → iter_deref t p ≡ some b
      → increment t p ≡ some p'
      → iterate t fuel p' q ≡ some bs
      → iterate t (suc fuel) p q ≡ some (b ∷ bs)
  unfolding iterate
  iterate-step p' b bs e d i r = rw (e, d, i, r, iterate)

  iterate_back-stop :
      (acc : BufferSequence)
      → iter_eq t p q ≡ some true
      → iterate_back t (suc fuel) p q acc ≡ some acc
  unfolding iterate_back
  iterate_back-stop acc e = rw (e, iterate_back)

  iterate_back-step :
      (acc : BufferSequence) (p' : ConstIterator t) (b : BasicBuffer)
      → iter_eq t p q ≡ some false
      → decrement t p ≡ some p'
      → iter_deref t p' ≡ some b
      → iterate_back t (suc fuel) p q acc ≡ iterate_back t fuel p' q (b ∷ acc)
  unfolding iterate_back
  iterate_back-step acc p' b e d i = rw (e, d, i, iterate_back)

module _ (t : SequenceType) where
  module _ (a : AnyBuffers t) (v : IsValid t a.impl) where
    iter_eq-at :
        (k l : ℕ)
        → k ≤ length (stands_for t a.impl)
        → l ≤ length (stands_for t a.impl)
        → iter_eq t (iter_at t a k) (iter_at t a l) ≡ some (k == l)
    unfolding iter_eq
    iter_eq-at k l h i = rw (same a.sp) (equal-slot t a.impl k l h i)
      where
        same : (p : ℕ) → (p == p) ≡ true
        same p = ground arith

    iter_deref-at :
        (k : ℕ)
        → k < length (stands_for t a.impl)
        → iter_deref t (iter_at t a k) ≡ get_elem? (stands_for t a.impl) k
    unfolding iter_deref
    iter_deref-at k h = deref-slot t a.impl k h

    increment-at :
        (k : ℕ)
        → k < length (stands_for t a.impl)
        → increment t (iter_at t a k) ≡ some (iter_at t a (suc k))
    unfolding increment
    increment-at k h = rw (inc-slot t a.impl k v h)

    decrement-at :
        (k : ℕ)
        → k < length (stands_for t a.impl)
        → decrement t (iter_at t a (suc k)) ≡ some (iter_at t a k)
    unfolding decrement
    decrement-at k h = rw (dec-slot t a.impl k v h)

    get_elem-drop :
        (xs : BufferSequence) (k : ℕ)
        → k < length xs
        → (b : BasicBuffer) × (get_elem? xs k ≡ some b) × (drop k xs ≡ b ∷ drop (suc k) xs)
    get_elem-drop [] k h = absurd (omega arith)
    get_elem-drop (x ∷ xs) zero h = (x, refl, refl)
    get_elem-drop (x ∷ xs) (suc k) h = get_elem-drop xs k (omega arith)

    drop_all : (xs : BufferSequence) → drop (length xs) xs ≡ []
    drop_all [] = refl
    drop_all (x ∷ xs) = drop_all xs

    iterate_back-at :
        (fuel k : ℕ)
        → k ≤ length (stands_for t a.impl)
        → k < fuel
        → iterate_back t fuel (iter_at t a k) (iter_at t a 0) (drop k (stands_for t a.impl))
          ≡ some (stands_for t a.impl)
    iterate_back-at zero k h f = absurd (omega arith)
    iterate_back-at (suc fuel) zero h f = iterate_back-stop t fuel _ _ _ (iter_eq-at 0 0 h h)
    iterate_back-at (suc fuel) (suc k) h f =
        let (b, p, q) = get_elem-drop (stands_for t a.impl) k h in
        iterate_back-step t fuel _ _ _ _ b
          (iter_eq-at (suc k) 0 h (omega arith) ∙ ap some (ground arith)) (decrement-at k h)
          (iter_deref-at k h ∙ p)
        ∙ ap (iterate_back t fuel _ _) (sym q)
        ∙ iterate_back-at fuel k (omega arith) (omega arith)

    iterate-at :
        (fuel k : ℕ)
        → k ≤ length (stands_for t a.impl)
        → length (stands_for t a.impl) - k < fuel
        → iterate t fuel (iter_at t a k) (iter_at t a (length (stands_for t a.impl)))
          ≡ some (drop k (stands_for t a.impl))
    unfolding iterate
    iterate-at zero k h f = absurd (omega arith)
    iterate-at (suc fuel) k h f = elim (Bool-cases (k == length (stands_for t a.impl))) [
      | inl e ↦
          let at_last : k ≡ length (stands_for t a.impl) = ground (arith, e) in
          iterate-stop t fuel _ _
            (iter_eq-at k (length (stands_for t a.impl)) h (omega arith) ∙ ap some e)
          ∙ ap some (
              sym (ap (λ i. drop i (stands_for t a.impl)) at_last ∙ drop_all (stands_for t a.impl)))
      | inr e ↦
          let inside : k < length (stands_for t a.impl) = ground (arith, e, h) in
          let (b, p, q) = get_elem-drop (stands_for t a.impl) k inside in
          iterate-step t fuel _ _ _ b _
            (iter_eq-at k (length (stands_for t a.impl)) h (omega arith) ∙ ap some e)
            (iter_deref-at k inside ∙ p) (increment-at k inside)
            (iterate-at fuel (suc k) (omega arith) (omega arith))
          ∙ ap some (sym q)
    ]

    begin-at : begin t a ≡ iter_at t a 0
    unfolding begin
    begin-at = ap (λ s. record { sp = a.sp; impl = a.impl; storage = s }) (begin-slot t a.impl)

    end-at : end t a ≡ iter_at t a (length (stands_for t a.impl))
    unfolding end
    end-at = ap (λ s. record { sp = a.sp; impl = a.impl; storage = s }) (end-slot t a.impl v)

    pub iterates :
        (iterate t (suc (length (stands_for t a.impl))) (begin t a) (end t a)
          ≡ some (stands_for t a.impl))
        × (iterate_back t (suc (length (stands_for t a.impl))) (end t a) (begin t a) []
            ≡ some (stands_for t a.impl))
    iterates = (
      ap₂ (iterate t (suc (length (stands_for t a.impl)))) begin-at end-at
          ∙ iterate-at _ 0 (omega arith) (omega arith),
      ap₂ (λ p q. iterate_back t (suc (length (stands_for t a.impl))) p q []) end-at begin-at
          ∙ ap (iterate_back t (suc (length (stands_for t a.impl))) _ _)
              (sym (drop_all (stands_for t a.impl)))
          ∙ iterate_back-at _ _ (omega arith) (omega arith),
    )

  construct-stands_for :
      (storage fresh : ℕ) (s : t.Seq) → stands_for t (construct t storage fresh s).impl ≡ t.visits s
  unfolding construct stands_for
  construct-stands_for storage fresh s = elim (Bool-cases (leb t.sizeof_iter iter_sbo_size)) [
    | inl e ↦ rw e
    | inr e ↦ rw e
  ]

  construct-IsValid :
      (storage fresh : ℕ) (s : t.Seq)
      → length (t.visits s) < size_mod
      → IsValid t (construct t storage fresh s).impl
  unfolding construct IsValid
  construct-IsValid storage fresh s h = elim (Bool-cases (leb t.sizeof_iter iter_sbo_size)) [
    | inl e ↦ rw e h
    | inr e ↦ rw e ((length_agree (t.visits s) h).0, h)
  ]

  -- A sequence of buffers that `std::size_t` counts, wrapped, whatever the size of its iterators: the
  -- loop from `begin()` to `end()` ends and visits the same buffers in order, and so does the loop
  -- that goes back by `--`.
  pub iterate-construct :
      (storage fresh : ℕ) (s : t.Seq)
      → length (t.visits s) < size_mod
      → (iterate t
            (suc (length (t.visits s)))
            (begin t (construct t storage fresh s))
            (end t (construct t storage fresh s))
          ≡ some (t.visits s))
        × (iterate_back t
              (suc (length (t.visits s)))
              (end t (construct t storage fresh s))
              (begin t (construct t storage fresh s))
              []
            ≡ some (t.visits s))
  iterate-construct storage fresh s h =
      let a : AnyBuffers t = construct t storage fresh s in
      rw (← construct-stands_for storage fresh s) (iterates a (construct-IsValid storage fresh s h))
