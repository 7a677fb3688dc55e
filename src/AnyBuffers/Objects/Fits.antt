-- ===== src/AnyBuffers/Objects/Fits.antt =====
-- What lives in the storage of an iterator is what its implementation casts it to.
use buffers.Prelude.{
  ℕ, ◌≡◌, refl, sym, ap, ◌∙◌, Bool, true, false, not, ◌&&◌, ◌==◌, inl, inr, Bool-cases, Option,
  some, arith,
}
use mathlib.Core.Path.{fun_ext, subst}
use buffers.AnyBuffers.Range.{SequenceType}
use buffers.AnyBuffers.{
  Impl, empty_impl, small_iter, large_iter, Storage, nothing, iter, index, impl_begin, impl_end,
  inc, dec,
}
use buffers.AnyBuffers.Objects.{put, make, Objects, it_copy, it_destroy, it_make}

same→≡ : (a b : ℕ) → (a == b) ≡ true → a ≡ b
same→≡ a b h = ground arith

pub put_here : {A : Type 0} (f : ℕ → A) (a : ℕ) (x : A) → put f a x a ≡ x
put_here f a x = elim (Bool-cases (a == a)) [ inl h ↦ rw h refl | inr h ↦ ground arith ]

pub put_self : {A : Type 0} (f : ℕ → A) (a : ℕ) (x : A) → f a ≡ x → put f a x ≡ f
put_self f a x e = fun_ext (λ p. elim (Bool-cases (p == a)) [
  | inl h ↦ rw h (sym e ∙ ap f (sym (same→≡ p a h)))
  | inr h ↦ rw h refl
])

pub put-put : {A : Type 0} (f : ℕ → A) (a : ℕ) (x y : A) → put (put f a x) a y ≡ put f a y
put-put f a x y =
    fun_ext (λ p. elim (Bool-cases (p == a)) [ inl h ↦ rw h refl | inr h ↦ rw h refl ])

pub &&-left : (a b : Bool) → (a && b) ≡ true → a ≡ true
&&-left true b h = refl
&&-left false b h = h

pub &&-right : (a b : Bool) → (a && b) ≡ true → b ≡ true
&&-right true b h = h
&&-right false b h = ground arith

pub not-true : (a : Bool) → not a ≡ true → a ≡ false
not-true true h = sym h
not-true false h = refl

module _ (t : SequenceType) where
  -- What an implementation casts the storage of its iterators to lives there.
  pub Fits : Impl t → Storage t → Type 0
  Fits empty_impl x = x ≡ nothing
  Fits (small_iter s) x = (q : t.Iter) × (x ≡ iter q)
  Fits (large_iter s len) x = (i : ℕ) × (x ≡ index i)

  pub it_copy-Fits :
      (i : Impl t) (o : Objects t) (dest src : ℕ)
      → o dest ≡ nothing
      → Fits i (o src)
      → it_copy t i o dest src ≡ some (put o dest (o src))
  unfolding it_copy make Fits
  it_copy-Fits empty_impl o dest src d f = ap some (sym (put_self o dest (o src) (d ∙ sym f)))
  it_copy-Fits (small_iter s) o dest src d (q, f) = rw (f, d, it_copy, make) refl
  it_copy-Fits (large_iter s len) o dest src d (i, f) = rw (f, d, it_copy, make) refl

  pub it_destroy-Fits :
      (i : Impl t) (o : Objects t) (a : ℕ)
      → Fits i (o a)
      → it_destroy t i o a ≡ some (put o a nothing)
  unfolding it_destroy Fits
  it_destroy-Fits empty_impl o a f = ap some (sym (put_self o a nothing f))
  it_destroy-Fits (small_iter s) o a (q, f) = rw (f, it_destroy) refl
  it_destroy-Fits (large_iter s len) o a (i, f) = rw (f, it_destroy) refl

  pub it_make-Fits :
      (i : Impl t) (o : Objects t) (a : ℕ) (x : Storage t)
      → o a ≡ nothing
      → Fits i x
      → it_make t i o a x ≡ some (put o a x)
  unfolding it_make make Fits
  it_make-Fits empty_impl o a x d f = ap some (sym (put_self o a x (d ∙ sym f)))
  it_make-Fits (small_iter s) o a x d f = rw (d, it_make, make) refl
  it_make-Fits (large_iter s len) o a x d f = rw (d, it_make, make) refl

  -- What the assignment does once the old object is destroyed.
  pub it_copy-put :
      (i : Impl t) (o : Objects t) (a b : ℕ)
      → (a == b) ≡ false
      → Fits i (o b)
      → it_copy t i (put o a nothing) a b ≡ some (put o a (o b))
  it_copy-put i o a b g f =
      let n : (b == a) ≡ false = ground arith in
      let k : put o a nothing b ≡ o b = rw n refl in
      it_copy-Fits i (put o a nothing) a b (put_here o a nothing) (subst (Fits i) (sym k) f)
      ∙ ap some (put-put o a nothing (put o a nothing b) ∙ ap (put o a) k)

  pub default-Fits : Fits empty_impl nothing
  unfolding Fits
  default-Fits = refl

  pub begin-Fits : (i : Impl t) → Fits i (impl_begin t i)
  unfolding Fits impl_begin
  begin-Fits empty_impl = refl
  begin-Fits (small_iter s) = (t.begin s, refl)
  begin-Fits (large_iter s len) = (0, refl)

  pub end-Fits : (i : Impl t) → Fits i (impl_end t i)
  unfolding Fits impl_end
  end-Fits empty_impl = refl
  end-Fits (small_iter s) = (t.end s, refl)
  end-Fits (large_iter s len) = (len, refl)

  -- An operation on the storage that is defined wherever the storage fits.
  abbrev pub Steps : (Impl t → Storage t → Option (Storage t)) → Type 0
  Steps f = (i : Impl t) (x : Storage t) → Fits i x → (y : Storage t) × (f i x ≡ some y) × Fits i y

  pub inc-Steps : Steps (inc t)
  unfolding Fits inc
  inc-Steps empty_impl x f = (x, refl, f)
  inc-Steps (small_iter s) x (q, f) = rw f (_, refl, (_, refl))
  inc-Steps (large_iter s len) x (i, f) = rw f (_, refl, (_, refl))

  pub dec-Steps : Steps (dec t)
  unfolding Fits dec
  dec-Steps empty_impl x f = (x, refl, f)
  dec-Steps (small_iter s) x (q, f) = rw f (_, refl, (_, refl))
  dec-Steps (large_iter s len) x (i, f) = rw f (_, refl, (_, refl))
