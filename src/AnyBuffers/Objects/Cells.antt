-- ===== src/AnyBuffers/Objects/Cells.antt =====
-- Each operation on the iterators of type-erased sequences, from a sound world to a sound one.
use buffers.Prelude.{
  ℕ, ◌≡◌, refl, sym, ap, ap₂, ◌∙◌, Bool, true, false, ◌==◌, inl, inr, Bool-cases, Option, none,
  some, arith,
}
use mathlib.Core.Path.{fun_ext, subst}
use buffers.Trim.{◌>>=◌}
use buffers.AnyBuffers.Range.{SequenceType}
use buffers.AnyBuffers.{
  Impl, Storage, nothing, impl_begin, impl_end, AnyBuffers, ConstIterator, default_buffers,
  default_iterator, begin, end,
}
use buffers.AnyBuffers.Objects.{
  put, Pointer, World, no_iterators, set_sp, sp_of, construct_default, construct_begin,
  construct_end, copy_construct, copy_assign, destruct, step_object, with_object, held,
}
use buffers.AnyBuffers.Objects.Fits.{
  put_self, Fits, it_copy-Fits, it_destroy-Fits, it_make-Fits, it_copy-put, default-Fits,
  begin-Fits, end-Fits, Steps,
}

module _ (t : SequenceType) where
  -- At an address with no iterator nothing lives; at one with an iterator what its `sp_` needs.
  pub Cell : Bool → Option (Pointer t) → Storage t → Type 0
  Cell false v x = (v ≡ none) × (x ≡ nothing)
  Cell true v x = (p : Pointer t) × (v ≡ some p) × Fits t p.impl x

  abbrev pub IsSound : (ℕ → Bool) → World t → Type 0
  IsSound l w = (a : ℕ) → Cell (l a) (w.vars a) (w.objects a)

  pub no_iterators-IsSound : IsSound (λ a. false) (no_iterators t)
  unfolding Cell
  no_iterators-IsSound a = (refl, refl)

  -- The iterators by their addresses, as values.
  abbrev pub Values : Type 0
  Values = ℕ → Option (ConstIterator t)

  -- The operation is defined, and leaves a sound world in which these iterators are alive and have
  -- these values.
  abbrev pub Safe : (ℕ → Bool) → Option (World t) → Values → Type 0
  Safe l m u = (w' : World t) × (m ≡ some w') × IsSound l w' × (held t w' ≡ u)

  free :
      (l : ℕ → Bool) (w : World t) (a : ℕ)
      → IsSound l w
      → l a ≡ false
      → Cell false (w.vars a) (w.objects a)
  free l w a s h = subst (λ b. Cell b (w.vars a) (w.objects a)) h (s a)

  pub alive :
      (l : ℕ → Bool) (w : World t) (a : ℕ)
      → IsSound l w
      → l a ≡ true
      → Cell true (w.vars a) (w.objects a)
  alive l w a s h = subst (λ b. Cell b (w.vars a) (w.objects a)) h (s a)

  put-IsSound :
      (l : ℕ → Bool) (w : World t) (a : ℕ) (b : Bool) (v : Option (Pointer t)) (x : Storage t)
      → IsSound l w
      → Cell b v x
      → IsSound (put l a b) (record { vars = put w.vars a v; objects = put w.objects a x })
  put-IsSound l w a b v x s c p = elim (Bool-cases (p == a)) [ inl h ↦ rw h c | inr h ↦ rw h (s p) ]

  held-put :
      (w : World t) (a : ℕ) (v : Option (Pointer t)) (x : Storage t)
      → held t (record { vars = put w.vars a v; objects = put w.objects a x })
        ≡ put (held t w) a (with_object t v x)
  unfolding held
  held-put w a v x =
      fun_ext (λ p. elim (Bool-cases (p == a)) [ inl h ↦ rw h refl | inr h ↦ rw h refl ])

  becomes :
      (l : ℕ → Bool) (w : World t) (a : ℕ) (b : Bool) (v : Option (Pointer t)) (x : Storage t)
      (m : Option (World t)) (u : Option (ConstIterator t))
      → IsSound l w
      → Cell b v x
      → with_object t v x ≡ u
      → m ≡ some (record { vars = put w.vars a v; objects = put w.objects a x })
      → Safe (put l a b) m (put (held t w) a u)
  becomes l w a b v x m u s c k e =
      (_, e, put-IsSound l w a b v x s c, held-put w a v x ∙ ap (put (held t w) a) k)

  pub construct_default-Safe :
      (l : ℕ → Bool) (w : World t) (a : ℕ)
      → IsSound l w
      → l a ≡ false
      → Safe (put l a true) (construct_default t a w) (put (held t w) a (some (default_iterator t)))
  unfolding construct_default set_sp sp_of Cell default_buffers default_iterator begin with_object
      impl_begin
  construct_default-Safe l w a s h =
      let v = sp_of t (default_buffers t 0) in
      becomes l w a true v nothing (construct_default t a w) (some (default_iterator t)) s
        (_, refl, default-Fits t) refl
        (ap (λ o. some (record { vars = put w.vars a v; objects = o }))
          (sym (put_self w.objects a nothing (free l w a s h).1)))

  pub construct_begin-Safe :
      (l : ℕ → Bool) (w : World t) (a : ℕ) (b : AnyBuffers t)
      → IsSound l w
      → l a ≡ false
      → Safe (put l a true) (construct_begin t a b w) (put (held t w) a (some (begin t b)))
  unfolding construct_begin set_sp sp_of Cell begin with_object
  construct_begin-Safe l w a b s h =
      let x = impl_begin t b.impl in
      let f = begin-Fits t b.impl in
      becomes l w a true (sp_of t b) x (construct_begin t a b w) (some (begin t b)) s (_, refl, f)
        refl (rw (it_make-Fits t b.impl w.objects a x (free l w a s h).1 f) refl)

  pub construct_end-Safe :
      (l : ℕ → Bool) (w : World t) (a : ℕ) (b : AnyBuffers t)
      → IsSound l w
      → l a ≡ false
      → Safe (put l a true) (construct_end t a b w) (put (held t w) a (some (end t b)))
  unfolding construct_end set_sp sp_of Cell end with_object
  construct_end-Safe l w a b s h =
      let x = impl_end t b.impl in
      let f = end-Fits t b.impl in
      becomes l w a true (sp_of t b) x (construct_end t a b w) (some (end t b)) s (_, refl, f) refl
        (rw (it_make-Fits t b.impl w.objects a x (free l w a s h).1 f) refl)

  pub copy_construct-Safe :
      (l : ℕ → Bool) (w : World t) (a b : ℕ)
      → IsSound l w
      → l a ≡ false
      → l b ≡ true
      → Safe (put l a true) (copy_construct t a b w) (put (held t w) a (held t w b))
  unfolding copy_construct set_sp Cell held
  copy_construct-Safe l w a b s h k =
      let (q, e, f) = alive l w b s k in
      becomes l w a true (some q) (w.objects b) (copy_construct t a b w) (held t w b) s (q, refl, f)
        (ap (λ v. with_object t v (w.objects b)) (sym e))
        (rw (e, it_copy-Fits t q.impl w.objects a b (free l w a s h).1 f) refl)

  -- The object in the storage that is assigned to, and what the assignment does.
  copy_assign-put :
      (l : ℕ → Bool) (w : World t) (a b : ℕ)
      → IsSound l w
      → l a ≡ true
      → l b ≡ true
      → copy_assign t a b w
        ≡ some (record { vars = put w.vars a (w.vars b); objects = put w.objects a (w.objects b) })
  unfolding copy_assign set_sp Cell
  copy_assign-put l w a b s h k = elim (Bool-cases (a == b)) [
    | inl g ↦
        let n : b ≡ a = ground arith in
        rw g (
          ap₂ (λ v o. some (record { vars = v; objects = o }))
            (sym (put_self w.vars a (w.vars b) (ap w.vars (sym n))))
            (sym (put_self w.objects a (w.objects b) (ap w.objects (sym n)))))
    | inr g ↦
        let (p, e, f) = alive l w a s h in
        let (q, e', f') = alive l w b s k in
        rw
          (
            g,
            e,
            e',
            it_destroy-Fits t p.impl w.objects a f,
            it_copy-put t q.impl w.objects a b g f',
          )
          refl
  ]

  pub copy_assign-Safe :
      (l : ℕ → Bool) (w : World t) (a b : ℕ)
      → IsSound l w
      → l a ≡ true
      → l b ≡ true
      → Safe (put l a true) (copy_assign t a b w) (put (held t w) a (held t w b))
  unfolding held
  copy_assign-Safe l w a b s h k =
      becomes l w a true (w.vars b) (w.objects b) (copy_assign t a b w) (held t w b) s
        (alive l w b s k) refl (copy_assign-put l w a b s h k)

  pub destruct-Safe :
      (l : ℕ → Bool) (w : World t) (a : ℕ)
      → IsSound l w
      → l a ≡ true
      → Safe (put l a false) (destruct t a w) (put (held t w) a none)
  unfolding destruct set_sp Cell with_object
  destruct-Safe l w a s h =
      let (p, e, f) = alive l w a s h in
      becomes l w a false none nothing (destruct t a w) none s (refl, refl) refl
        (rw (e, it_destroy-Fits t p.impl w.objects a f) refl)

  pub step_object-Safe :
      (f : Impl t → Storage t → Option (Storage t)) (g : ConstIterator t → Option (ConstIterator t))
      (l : ℕ → Bool) (w : World t) (a : ℕ)
      → ((p : ConstIterator t) (y : Storage t)
          → f p.impl p.storage ≡ some y
          → g p ≡ some (record p { storage = y }))
      → Steps t f
      → IsSound l w
      → l a ≡ true
      → Safe (put l a true) (step_object t f a w) (put (held t w) a (held t w a >>= g))
  unfolding step_object Cell held with_object
  step_object-Safe f g l w a d r s h =
      let (p, e, i) = alive l w a s h in
      let (y, k, j) = r p.impl (w.objects a) i in
      let q : ConstIterator t = record { sp = p.sp; impl = p.impl; storage = w.objects a } in
      becomes l w a true (some p) y (step_object t f a w) (held t w a >>= g) s (p, refl, j)
        (rw e (sym (d q y k)))
        (rw (e, k)
          (ap (λ v. some (record { vars = v; objects = put w.objects a y }))
            (sym (put_self w.vars a (some p) e))))
