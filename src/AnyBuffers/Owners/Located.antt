-- ===== src/AnyBuffers/Owners/Located.antt =====
-- That every `sp_` points to an implementation that is there.
use buffers.Prelude.{
  ℕ, ◌≡◌, ◌∙◌, sym, refl, Bool, true, false, leb, ◌==◌, Bool-cases, inl, inr, arith, if◌then◌else◌,
  ◌∷◌, Option, none, some, ◌||◌, ap,
}
use mathlib.Core.Option.{some-injective}
use mathlib.Core.Bool.{or-true}
use mathlib.Core.Path.{subst}
use buffers.AnyBuffers.{sbo_size}
use buffers.AnyBuffers.Objects.{put}
use buffers.AnyBuffers.Owners.{
  Owner, static_instance, null_deleter, make_shared, owns, owner_at, remove, held, World,
  empty_world, make, copy_impl, release,
}
use buffers.AnyBuffers.Owners.Holders.{
  Unique, owner_at-remove_other, owner_at-remove_same, held-remove,
}
use buffers.AnyBuffers.Owners.Sound.{IsSound, make-IsSound}

-- An implementation in a `storage_` is in that of the object itself.
pub Lives : (ℕ → Option ℕ) → ℕ → Owner → Type 0
Lives st b static_instance = Unit {0}
Lives st b (null_deleter a x size) = (a ≡ b) × (st b ≡ some x)
Lives st b (make_shared x size) = Unit {0}

pub Located : World → Type 0
Located w = (b : ℕ) (p : Owner) → owner_at b w.holders ≡ some p → Lives w.storages b p

-- For all but the object at `a`, and for `o` if that becomes its owner.
pub LocatedBut : ℕ → Owner → World → Type 0
LocatedBut a o w =
    Lives w.storages a o
    × ((b : ℕ) (p : Owner)
        → (b == a) ≡ false
        → owner_at b w.holders ≡ some p
        → Lives w.storages b p)

-- Another `storage_` is as it was.
Lives-put :
    (st : ℕ → Option ℕ) (a b : ℕ) (x : Option ℕ) (p : Owner)
    → (b == a) ≡ false
    → Lives st b p
    → Lives (put st a x) b p
unfolding Lives
Lives-put st a b x static_instance e l = tt
Lives-put st a b x (null_deleter c y size) e l = (l.0, rw e l.1)
Lives-put st a b x (make_shared y size) e l = tt

pub static-LocatedBut : (a : ℕ) (w : World) → Located w → LocatedBut a static_instance w
unfolding Located LocatedBut Lives
static-LocatedBut a w l = (tt, λ b p h e. l b p e)

pub make-LocatedBut :
    (a size : ℕ) (w : World) → Located w → LocatedBut a (make a size w).0 (make a size w).1
unfolding Located LocatedBut make Lives
make-LocatedBut a size w l = elim (Bool-cases (leb size sbo_size)) [
  | inl e ↦
      rw e ((refl, ground arith), λ b p h k. Lives-put w.storages a b (some w.made) p h (l b p k))
  | inr e ↦ rw e (tt, λ b p h k. l b p k)
]

-- `copy` through the owner of another object is called on an implementation that is there.
pub copy_impl-Sound :
    (a other : ℕ) (o : Owner) (l : ℕ → Bool) (w : World)
    → IsSound static_instance l w
    → Located w
    → owner_at other w.holders ≡ some o
    → (other == a) ≡ false
    → (o' : Owner) × (w' : World) × (copy_impl a o w ≡ some (o', w'))
      × IsSound o' l w'
      × LocatedBut a o' w'
unfolding copy_impl Located Lives owns
copy_impl-Sound a other static_instance l w s t e h =
    (static_instance, w, refl, s, static-LocatedBut a w t)
copy_impl-Sound a other (null_deleter c x size) l w s t e h =
    let (own, has) = t other (null_deleter c x size) e in
    let has' : w.storages c ≡ some x = rw own has in
    let apart : (c == a) ≡ false = rw own h in
    let same : (x == x) ≡ true = ground arith in
    (
      (make a size w).0,
      (make a size w).1,
      rw (has', copy_impl) (rw (apart, same) refl),
      make-IsSound a size l w s,
      make-LocatedBut a size w t,
    )
copy_impl-Sound a other (make_shared x size) l w s t e h =
    let there : w.undestroyed x ≡ true =
      s.counted x
      ∙ ap (λ h. w.placed x || h) (held-remove x other (make_shared x size) w.holders e ∙ owned)
      ∙ or-true (w.placed x) in
    (
      (make a size w).0,
      (make a size w).1,
      rw there refl,
      make-IsSound a size l w s,
      make-LocatedBut a size w t,
    )
  where
    owned : (owns x (make_shared x size) || held x (remove other w.holders)) ≡ true
    owned = let same : (x == x) ≡ true = ground arith in rw same refl

-- The last share of an implementation leaves every `storage_`.
pub release-Located : (o : Owner) (w : World) → Located w → Located (release o w)
unfolding release Located
release-Located static_instance w t = t
release-Located (null_deleter a x size) w t = t
release-Located (make_shared x size) w t = elim (Bool-cases (held x w.holders)) [
  | inl e ↦ rw e t
  | inr e ↦ rw e t
]

module _ (a : ℕ) (o : Owner) (w : World) (t : LocatedBut a o w) where
  -- With `o` at `a`, and at the other addresses what stood there.
  with_owner :
      (b : ℕ) (p : Owner)
      → (if b == a then some o else owner_at b w.holders) ≡ some p
      → Lives w.storages b p
  unfolding LocatedBut
  with_owner b p k = elim (Bool-cases (b == a)) [
    | inl e ↦
        let here : b ≡ a = ground arith in
        let found : some o ≡ some p = rw e at k in
        rw here (subst (Lives w.storages a) (some-injective o p found) t.0)
    | inr e ↦ t.1 b p e (let found : owner_at b w.holders ≡ some p = rw e at k in found)
  ]

  pub hold-Located : Located (record w { holders = (a, o) ∷ w.holders })
  unfolding Located owner_at
  hold-Located b p k = with_owner b p k

  pub set_sp-Located : Located (record w { holders = (a, o) ∷ remove a w.holders })
  unfolding Located owner_at
  set_sp-Located b p k = elim (Bool-cases (b == a)) [
    | inl e ↦ with_owner b p (rw e (let found : some o ≡ some p = rw e at k in found))
    | inr e ↦ with_owner b p (
        rw e (
          sym (owner_at-remove_other a b w.holders e)
          ∙ (let found : owner_at b (remove a w.holders) ≡ some p = rw e at k in found)))
  ]

pub destroy_sp-Located :
    (a : ℕ) (w : World)
    → Unique w.holders
    → Located w
    → Located (record w { holders = remove a w.holders; storages = put w.storages a none })
unfolding Located
destroy_sp-Located a w u t b p k = elim (Bool-cases (b == a)) [
  | inl e ↦
      let here : b ≡ a = ground arith in
      absurd (
        let gone : owner_at b (remove a w.holders) ≡ none =
          rw here (owner_at-remove_same a w.holders u) in
        let no : none ≡ some p = sym gone ∙ k in cc)
  | inr e ↦
      Lives-put w.storages a b none p e (t b p (sym (owner_at-remove_other a b w.holders e) ∙ k))
]

pub empty_world-Located : Located empty_world
unfolding Located owner_at
empty_world-Located b p k = absurd (let no : none ≡ some p = k in cc)
