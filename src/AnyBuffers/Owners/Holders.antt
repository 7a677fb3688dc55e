-- ===== src/AnyBuffers/Owners/Holders.antt =====
-- The `sp_`s by their addresses.
use buffers.Prelude.{
  ℕ, ◌≡◌, refl, ap, ◌∙◌, Bool, true, false, ◌||◌, ◌==◌, Bool-cases, inl, inr, arith, [], ◌∷◌, none,
  some,
}
use mathlib.Core.Option.{some-injective}
use buffers.AnyBuffers.Owners.{Owner, owns, Holders, owner_at, remove, held}

pub or_swap : (x y z : Bool) → (x || (y || z)) ≡ (y || (x || z))
or_swap true true z = refl
or_swap true false z = refl
or_swap false y z = refl

pub or_again : (x y : Bool) → (x || y) ≡ (x || (x || y))
or_again true y = refl
or_again false y = refl

-- Each address stands once.
abbrev pub Unique : Holders → Type 0
Unique [] = Unit {0}
Unique ((a, o) ∷ hs) = (owner_at a hs ≡ none) × Unique hs

pub owner_at-remove_other :
    (a b : ℕ) (hs : Holders) → (b == a) ≡ false → owner_at b (remove a hs) ≡ owner_at b hs
unfolding owner_at remove
owner_at-remove_other a b [] h = refl
owner_at-remove_other a b ((c, o) ∷ hs) h = ground (arith, owner_at-remove_other a b hs h)

pub owner_at-remove_same : (a : ℕ) (hs : Holders) → Unique hs → owner_at a (remove a hs) ≡ none
unfolding owner_at remove
owner_at-remove_same a [] u = refl
owner_at-remove_same a ((c, o) ∷ hs) u = ground (arith, owner_at-remove_same a hs u.1)

none-remove :
    (a b : ℕ) (hs : Holders) → Unique hs → owner_at b hs ≡ none → owner_at b (remove a hs) ≡ none
none-remove a b hs u h = elim (Bool-cases (b == a)) [
  | inl e ↦ let same : b ≡ a = ground arith in rw same (owner_at-remove_same a hs u)
  | inr e ↦ owner_at-remove_other a b hs e ∙ h
]

pub Unique-remove : (a : ℕ) (hs : Holders) → Unique hs → Unique (remove a hs)
unfolding remove
Unique-remove a [] u = u
Unique-remove a ((c, o) ∷ hs) u = elim (Bool-cases (a == c)) [
  | inl e ↦ rw e u.1
  | inr e ↦ rw e (none-remove a c hs u.1 u.0, Unique-remove a hs u.1)
]

-- What is held is held at the address or at another.
pub held-remove :
    (n a : ℕ) (o : Owner) (hs : Holders)
    → owner_at a hs ≡ some o
    → held n hs ≡ (owns n o || held n (remove a hs))
unfolding owner_at remove held
held-remove n a o [] h = absurd (cc)
held-remove n a o ((c, p) ∷ hs) h = elim (Bool-cases (a == c)) [
  | inl e ↦
      let found : some p ≡ some o = rw e at h in
      rw e (ap (λ q. owns n q || held n hs) (some-injective p o found))
  | inr e ↦
      let found : owner_at a hs ≡ some o = rw e at h in
      rw e (
        ap (λ t. owns n p || t) (held-remove n a o hs found)
        ∙ or_swap (owns n p) (owns n o) (held n (remove a hs)))
]
