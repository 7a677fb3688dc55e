-- ===== src/AnyBuffers/Objects/Lifetime.antt =====
-- The lifetimes of the iterators of type-erased sequences.
use buffers.Prelude.{ℕ, ◌≡◌, refl, ap, ◌∙◌, Bool, true, not, List, [], ◌∷◌, some}
use buffers.AnyBuffers.Range.{SequenceType}
use buffers.AnyBuffers.{Storage, inc, dec, ConstIterator, increment, decrement}
use buffers.AnyBuffers.Objects.{
  World, Command, defaults, begins, ends, copies, assigns, increments, decrements, destroys,
  perform, perform_all, held, values, all_values, allowed, effect, all_allowed, total_effect,
}
use buffers.AnyBuffers.Objects.Fits.{&&-left, &&-right, not-true, inc-Steps, dec-Steps}
use buffers.AnyBuffers.Objects.Cells.{
  Cell, IsSound, Safe, construct_default-Safe, construct_begin-Safe, construct_end-Safe,
  copy_construct-Safe, copy_assign-Safe, destruct-Safe, step_object-Safe,
}

module _ (t : SequenceType) where
  increment-inc :
      (p : ConstIterator t) (y : Storage t)
      → inc t p.impl p.storage ≡ some y
      → increment t p ≡ some (record p { storage = y })
  unfolding increment
  increment-inc p y h = rw h refl

  decrement-dec :
      (p : ConstIterator t) (y : Storage t)
      → dec t p.impl p.storage ≡ some y
      → decrement t p ≡ some (record p { storage = y })
  unfolding decrement
  decrement-dec p y h = rw h refl

  perform-Safe :
      (c : Command t) (l : ℕ → Bool) (w : World t)
      → IsSound t l w
      → allowed t c l ≡ true
      → Safe t (effect t c l) (perform t c w) (values t c (held t w))
  unfolding perform allowed effect values
  perform-Safe (defaults a) l w s h = construct_default-Safe t l w a s (not-true (l a) h)
  perform-Safe (begins a b) l w s h = construct_begin-Safe t l w a b s (not-true (l a) h)
  perform-Safe (ends a b) l w s h = construct_end-Safe t l w a b s (not-true (l a) h)
  perform-Safe (copies a b) l w s h =
      copy_construct-Safe t l w a b s (not-true (l a) (&&-left (not (l a)) (l b) h))
        (&&-right (not (l a)) (l b) h)
  perform-Safe (assigns a b) l w s h =
      copy_assign-Safe t l w a b s (&&-left (l a) (l b) h) (&&-right (l a) (l b) h)
  perform-Safe (increments a) l w s h =
      step_object-Safe t (inc t) (increment t) l w a increment-inc (inc-Steps t) s h
  perform-Safe (decrements a) l w s h =
      step_object-Safe t (dec t) (decrement t) l w a decrement-dec (dec-Steps t) s h
  perform-Safe (destroys a) l w s h = destruct-Safe t l w a s h

  -- A program that the language allows, where what lives in the storage of every iterator is what
  -- its sequence needs, is defined on iterators of any kind: nothing is made where an object lives,
  -- and no object is destroyed twice or cast to another's type. The iterators end with the values
  -- that they have where iterators are values, their storages again hold what they need, and where
  -- no iterator is alive in the end no object is left.
  pub perform_all-values :
      (cs : List (Command t)) (l : ℕ → Bool) (w : World t)
      → IsSound t l w
      → all_allowed t cs l ≡ true
      → (w' : World t) × (perform_all t cs w ≡ some w')
        × ((a : ℕ) → Cell t (total_effect t cs l a) (w'.vars a) (w'.objects a))
        × (held t w' ≡ all_values t cs (held t w))
  unfolding perform_all all_allowed total_effect all_values
  perform_all-values [] l w s h = (w, refl, s, refl)
  perform_all-values (c ∷ cs) l w s h =
      let this = allowed t c l in
      let others = all_allowed t cs (effect t c l) in
      let (w', e, s', u) = perform-Safe c l w s (&&-left this others h) in
      let (w'', e', s'', u') =
        perform_all-values cs (effect t c l) w' s' (&&-right this others h) in
      (w'', rw e e', s'', u' ∙ ap (all_values t cs) u)
