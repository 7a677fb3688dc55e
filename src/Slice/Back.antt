-- ===== src/Slice/Back.antt =====
-- Iterating a slice backwards: from `end()` to `begin()` it visits the same buffers.
use buffers.Prelude.{
  inl, ℕ, zero, suc, ◌+◌, ◌<◌, ◌≡◌, refl, sym, ap, ◌∙◌, [], ◌∷◌, true, false, some, arith, ◌==◌,
  get_elem?, size_mod,
}
use buffers.Buffer.{BasicBuffer}
use buffers.Sequence.{BufferSequence}
use buffers.Slice.{
  SliceOf, ConstIterator, begin, end, iter_eq, deref, decrement, iterate, iterate_back, elements,
}
use buffers.Slice.Window.{window_cons}
use buffers.Slice.Inv.{IsValid, view}
use buffers.Sequence.Laws.{seq_addrs}
use buffers.Slice.Iter.{
  elements-view, begin-iter, iter, iter_eq-end, increment-iter, iterate-step, iterate-end,
}

iter_eq-begin : (s : SliceOf) (i : ℕ) → iter_eq (iter s i) (begin s) ≡ (i == 0)
unfolding iter_eq begin
iter_eq-begin s i = ground arith

decrement-iter :
    (s : SliceOf) (i : ℕ) → suc i < size_mod → decrement (iter s (suc i)) ≡ some (iter s i)
unfolding decrement
decrement-iter s i h = ground arith

deref_some :
    (s : SliceOf) (i : ℕ) (x : BasicBuffer)
    → get_elem? s.bs (s.begin + i) ≡ some x
    → (b : BasicBuffer) × (deref s.bs (iter s i) ≡ some b)
unfolding deref
deref_some s i x at = rw (at, deref) (_, refl)

-- One round of the loop.
iterate_back-step :
    (fuel : ℕ) (bs acc : BufferSequence) (p p' q : ConstIterator) (b : BasicBuffer)
    → iter_eq p q ≡ false
    → decrement p ≡ some p'
    → deref bs p' ≡ some b
    → iterate_back (suc fuel) bs p q acc ≡ iterate_back fuel bs p' q (b ∷ acc)
unfolding iterate_back
iterate_back-step fuel bs acc p p' q b e h f = rw (e, h, f, iterate_back)

iterate_back-end :
    (fuel : ℕ) (bs acc : BufferSequence) (p q : ConstIterator)
    → iter_eq p q ≡ true
    → iterate_back (suc fuel) bs p q acc ≡ some acc
unfolding iterate_back
iterate_back-end fuel bs acc p q e = rw (e, iterate_back)

-- Where the loop forwards from an iterator visits `acc`, the loop back from it ends with what the
-- loop forwards from `begin()` visits.
iterate_back-iterate :
    (i k : ℕ) (s : SliceOf) (acc : BufferSequence)
    → IsValid s
    → i + k ≡ s.len
    → iterate (suc k) s.bs (iter s i) (end s) ≡ some acc
    → iterate_back (suc i) s.bs (iter s i) (begin s) acc
      ≡ iterate (suc s.len) s.bs (iter s 0) (end s)
iterate_back-iterate zero k s acc v e f =
    iterate_back-end zero s.bs acc (iter s 0) (begin s) (iter_eq-begin s 0)
    ∙ sym f
    ∙ ap (λ n. iterate (suc n) s.bs (iter s 0) (end s)) (let n : k ≡ s.len = omega arith in n)
iterate_back-iterate (suc i) k s acc v e f =
    let (x, at, c) = window_cons s.bs (s.begin + i) s.end (omega (arith, v.counted)) v.inside in
    let (b, d) = deref_some s i x at in
    let lt : suc i < size_mod = omega (arith, v.counted, v.inside, v.short) in
    iterate_back-step (suc i) s.bs acc (iter s (suc i)) (iter s i) (begin s) b
      (iter_eq-begin s (suc i) ∙ ground arith) (decrement-iter s i lt) d
    ∙ iterate_back-iterate i (suc k) s (b ∷ acc) v (omega arith) (
        iterate-step (suc k) i s b acc (iter s (suc i))
          (iter_eq-end s i v (omega arith) ∙ ground arith) d
          (increment-iter s i (omega arith) lt
            ∙ ap (λ j. some (iter s j)) (let n : i + 1 ≡ suc i = omega arith in n))
          f)

end-iter : (s : SliceOf) → IsValid s → end s ≡ iter s s.len
unfolding end
end-iter s v =
    ap (λ p. record { it = p; prefix = s.prefix; suffix = s.suffix; i = s.len; n = s.len })
      (omega (arith, v.counted, v.ordered))

iterate_back_eq :
    (s : SliceOf) → IsValid s → iterate_back (suc s.len) s.bs (end s) (begin s) [] ≡ elements s
unfolding elements
iterate_back_eq s v =
    ap (λ p. iterate_back (suc s.len) s.bs p (begin s) []) (end-iter s v)
    ∙ iterate_back-iterate s.len 0 s [] v (omega arith)
        (iterate-end 0 s.len s (iter_eq-end s s.len v (omega arith) ∙ ground arith))
    ∙ ap (λ p. iterate (suc s.len) s.bs p (end s)) (sym (begin-iter s))

-- The loop from `end()` back to `begin()` over a valid slice runs without a fault, with a round for
-- each buffer and one more: it visits the buffers that the loop forwards visits, which cover the
-- addresses that the members of the slice denote, in order.
pub iterate_back-elements :
    (s : SliceOf)
    → IsValid s
    → (bs : BufferSequence) × (iterate_back (suc s.len) s.bs (end s) (begin s) [] ≡ some bs)
      × (elements s ≡ some bs)
      × (seq_addrs bs ≡ view s)
iterate_back-elements s v =
    let (bs, e, u) = elements-view s (inl v) in (bs, iterate_back_eq s v ∙ e, e, u)
