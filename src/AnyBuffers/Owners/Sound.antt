-- ===== src/AnyBuffers/Owners/Sound.antt =====
-- What holds of the implementations between two steps of an operation.
use buffers.Prelude.{
  ℕ, ◌<◌, ◌≤◌, ◌≡◌, refl, ap, ◌∙◌, Bool, true, false, ◌||◌, leb, ◌==◌, Bool-cases, inl, inr, arith,
}
use mathlib.Core.Bool.{or-true}
use buffers.AnyBuffers.{sbo_size}
use buffers.AnyBuffers.Owners.{
  Owner, static_instance, null_deleter, make_shared, owns, Holders, held, World, make, release,
  is_alive,
}
use buffers.AnyBuffers.Owners.Holders.{Unique}

-- The world is sound where `o` is one more owner, and objects are alive at the addresses in `l`.
pub record IsSound (o : Owner) (l : ℕ → Bool) (w : World) : Type 0 where
  pub unique : Unique w.holders
  pub known : (a : ℕ) → is_alive w a ≡ l a
  pub counted : (n : ℕ) → w.undestroyed n ≡ (w.placed n || (owns n o || held n w.holders))
  pub shared : (n : ℕ) → (owns n o || held n w.holders) ≡ true → (n < w.made) × (w.placed n ≡ false)
  pub fresh : (n : ℕ) → w.made ≤ n → w.placed n ≡ false

pub make-IsSound :
    (dest size : ℕ) (l : ℕ → Bool) (w : World)
    → IsSound static_instance l w
    → IsSound (make dest size w).0 l (make dest size w).1
unfolding make owns is_alive
make-IsSound dest size l w s = elim (Bool-cases (leb size sbo_size)) [
  | inl e ↦ rw e (record {
    unique = s.unique;
    known = s.known;
    counted = λ n. ground (arith, s.counted n);
    shared = λ n h. ground (arith, s.shared n h);
    fresh = λ n h. ground (arith, s.fresh n);
  })
  | inr e ↦ rw e (record {
    unique = s.unique;
    known = s.known;
    counted = λ n. ground (arith, s.counted n, s.fresh n);
    shared = λ n h. ground (arith, s.shared n, s.fresh n);
    fresh = λ n h. ground (arith, s.fresh n);
  })
]

still_held : (x n : ℕ) (hs : Holders) → held x hs ≡ true → ((n == x) || held n hs) ≡ held n hs
still_held x n hs h = elim (Bool-cases (n == x)) [
  | inl e ↦ let same : n ≡ x = ground arith in rw (same, h) (or-true ((x == x)))
  | inr e ↦ rw e refl
]

pub release-IsSound :
    (o : Owner) (l : ℕ → Bool) (w : World) → IsSound o l w → IsSound static_instance l (release o w)
unfolding release owns is_alive
release-IsSound static_instance l w s = s
release-IsSound (null_deleter a x size) l w s = record {
  unique = s.unique;
  known = s.known;
  counted = s.counted;
  shared = s.shared;
  fresh = s.fresh;
}
release-IsSound (make_shared x size) l w s = elim (Bool-cases (held x w.holders)) [
  | inl e ↦ rw e (record {
    unique = s.unique;
    known = s.known;
    counted = λ n. s.counted n ∙ ap (λ t. w.placed n || t) (still_held x n w.holders e);
    shared = λ n k. s.shared n (still_held x n w.holders e ∙ k);
    fresh = s.fresh;
  })
  | inr e ↦ rw e (record {
    unique = s.unique;
    known = s.known;
    counted = λ n. ground (arith, s.counted n, s.shared x, e);
    shared = λ n k. s.shared n (ground (arith, k));
    fresh = s.fresh;
  })
]
