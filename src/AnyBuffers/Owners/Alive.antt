-- ===== src/AnyBuffers/Owners/Alive.antt =====
-- Which implementations are destroyed.
use buffers.Prelude.{
  Option-cases, ℕ, ◌≡◌, sym, refl, ap, ◌∙◌, Bool, true, false, ◌||◌, not, ◌==◌, Bool-cases, inl,
  inr, arith, List, [], ◌∷◌, Option, none, some,
}
use buffers.AnyBuffers.Objects.{put}
use buffers.AnyBuffers.Objects.Fits.{&&-left, &&-right, not-true}
use buffers.AnyBuffers.Owners.{
  Owner, static_instance, owns, owner_at, remove, held, World, empty_world, make, release, hold,
  set_sp, destroy_sp, copy_construct, copy_assign, Command, defaults, constructs, copies, assigns,
  destroys, perform, perform_all, allowed, effect, all_allowed, total_effect, is_alive,
}
use buffers.AnyBuffers.Owners.Holders.{
  or_swap, owner_at-remove_other, owner_at-remove_same, Unique-remove, held-remove,
}
use buffers.AnyBuffers.Owners.Sound.{IsSound, make-IsSound, release-IsSound}
use buffers.AnyBuffers.Owners.Located.{
  Located, LocatedBut, static-LocatedBut, make-LocatedBut, copy_impl-Sound, release-Located,
  hold-Located, set_sp-Located, destroy_sp-Located, empty_world-Located,
}

-- What is alive has an owner, and what is not has none.
dead-none : (w : World) (a : ℕ) → is_alive w a ≡ false → owner_at a w.holders ≡ none
unfolding is_alive
dead-none w a h = ground arith

alive-some :
    (w : World) (a : ℕ) → is_alive w a ≡ true → (o : Owner) × (owner_at a w.holders ≡ some o)
unfolding is_alive
alive-some w a h = elim (Option-cases (owner_at a w.holders)) [
  | inl e ↦ absurd (ground arith)
  | inr e ↦ e
]

-- The result of an operation that is defined.
Leads : (ℕ → Bool) → Option World → Type 0
Leads l m = (w : World) × (m ≡ some w) × IsSound static_instance l w × Located w

-- The operations on one `sp_`.
module _ (a : ℕ) (o : Owner) (l : ℕ → Bool) (w : World) (s : IsSound o l w)
    (t : LocatedBut a o w) where
  hold-Leads : l a ≡ false → Leads (put l a true) (hold a o w)
  unfolding Leads hold is_alive held owns owner_at
  hold-Leads h =
      let e : owner_at a w.holders ≡ none = dead-none w a (s.known a ∙ h) in
      rw (e, hold)
        (
          record w { holders = (a, o) ∷ w.holders },
          refl,
          record {
            unique = (e, s.unique);
            known = λ b. ground (arith, s.known b);
            counted = s.counted;
            shared = s.shared;
            fresh = s.fresh;
          },
          hold-Located a o w t,
        )

  -- The old owner is counted until it is released.
  set_sp-Leads : l a ≡ true → Leads l (set_sp a o w)
  unfolding Leads set_sp is_alive held owns owner_at
  set_sp-Leads h =
      let (old, e) = alive-some w a (s.known a ∙ h) in
      let w' : World = record w { holders = (a, o) ∷ remove a w.holders } in
      rw e (
        release old w',
        refl,
        release-IsSound old l w' (record {
          unique = (owner_at-remove_same a w.holders s.unique, Unique-remove a w.holders s.unique);
          known = λ b. ground (arith, s.known b, owner_at-remove_other a b w.holders);
          counted = λ n. s.counted n ∙ ap (λ t. w.placed n || t) (turned old e n);
          shared = λ n k. s.shared n (turned old e n ∙ k);
          fresh = s.fresh;
        }),
        release-Located old w' (set_sp-Located a o w t),
      )
    where
      turned :
          (old : Owner)
          → owner_at a w.holders ≡ some old
          → (n : ℕ)
          → (owns n o || held n w.holders)
            ≡ (owns n old || (owns n o || held n (remove a w.holders)))
      turned old e n =
          ap (λ t. owns n o || t) (held-remove n a old w.holders e)
          ∙ or_swap (owns n o) (owns n old) (held n (remove a w.holders))

destroy_sp-Leads :
    (a : ℕ) (l : ℕ → Bool) (w : World)
    → IsSound static_instance l w
    → Located w
    → l a ≡ true
    → Leads (put l a false) (destroy_sp a w)
unfolding Leads destroy_sp is_alive held owns owner_at
destroy_sp-Leads a l w s t h =
    let (old, e) = alive-some w a (s.known a ∙ h) in
    let w' : World = record w { holders = remove a w.holders; storages = put w.storages a none } in
    rw e (
      release old w',
      refl,
      release-IsSound old (put l a false) w' (record {
        unique = Unique-remove a w.holders s.unique;
        known = λ b. ground (
          arith,
          s.known b,
          owner_at-remove_other a b w.holders,
          owner_at-remove_same a w.holders s.unique,
        );
        counted = λ n. s.counted n ∙ ap (λ t. w.placed n || t) (held-remove n a old w.holders e);
        shared = λ n k. s.shared n (held-remove n a old w.holders e ∙ k);
        fresh = s.fresh;
      }),
      release-Located old w' (destroy_sp-Located a w s.unique t),
    )

-- The operations that take the owner from another address.
module _ (a other : ℕ) (l : ℕ → Bool) (w : World) (s : IsSound static_instance l w) (t : Located w)
    (there : l other ≡ true) where
  copy_construct-Leads : l a ≡ false → Leads (put l a true) (copy_construct a other w)
  unfolding copy_construct
  copy_construct-Leads h =
      let (o, e) = alive-some w other (s.known other ∙ there) in
      let (o', w', p, s', t') = copy_impl-Sound a other o l w s t e (others h) in
      rw (e, p) (hold-Leads a o' l w' s' t' h)
    where
      others : l a ≡ false → (other == a) ≡ false
      others k = elim (Bool-cases (other == a)) [
        | inl e ↦
            let same : other ≡ a = ground arith in
            absurd (let no : true ≡ false = sym there ∙ ap l same ∙ k in cc)
        | inr e ↦ e
      ]

  copy_assign-Leads : l a ≡ true → Leads l (copy_assign a other w)
  unfolding copy_assign
  copy_assign-Leads h = elim (Bool-cases (a == other)) [
    | inl same ↦ rw same (unfold Leads in (w, refl, s, t))
    | inr apart ↦
        let (o, e) = alive-some w other (s.known other ∙ there) in
        let (o', w', p, s', t') = copy_impl-Sound a other o l w s t e (ground arith) in
        rw (apart, e, p) (set_sp-Leads a o' l w' s' t' h)
  ]

perform-Leads :
    (c : Command) (l : ℕ → Bool) (w : World)
    → IsSound static_instance l w
    → Located w
    → allowed c l ≡ true
    → Leads (effect c l) (perform c w)
unfolding perform allowed effect
perform-Leads (defaults a) l w s t h =
    hold-Leads a static_instance l w s (static-LocatedBut a w t) (not-true (l a) h)
perform-Leads (constructs a size) l w s t h =
    hold-Leads a (make a size w).0 l (make a size w).1 (make-IsSound a size l w s)
      (make-LocatedBut a size w t) (not-true (l a) h)
perform-Leads (copies a other) l w s t h =
    copy_construct-Leads a other l w s t (&&-right (not (l a)) (l other) h)
      (not-true (l a) (&&-left (not (l a)) (l other) h))
perform-Leads (assigns a other) l w s t h =
    copy_assign-Leads a other l w s t (&&-right (l a) (l other) h) (&&-left (l a) (l other) h)
perform-Leads (destroys a) l w s t h = destroy_sp-Leads a l w s t h

perform_all-Leads :
    (cs : List Command) (l : ℕ → Bool) (w : World)
    → IsSound static_instance l w
    → Located w
    → all_allowed cs l ≡ true
    → Leads (total_effect cs l) (perform_all cs w)
unfolding Leads perform_all all_allowed total_effect
perform_all-Leads [] l w s t h = (w, refl, s, t)
perform_all-Leads (c ∷ cs) l w s t h =
    let this = allowed c l in
    let others = all_allowed cs (effect c l) in
    let (w', e, s', t') = perform-Leads c l w s t (&&-left this others h) in
    rw e (perform_all-Leads cs (effect c l) w' s' t' (&&-right this others h))

empty_world-IsSound : IsSound static_instance (λ a. false) empty_world
unfolding is_alive owner_at owns held
empty_world-IsSound = record {
  unique = tt;
  known = λ a. refl;
  counted = λ n. refl;
  shared = λ n h. absurd (cc);
  fresh = λ n h. refl;
}

-- A program without iterators that makes, copies, assigns and destroys `any_buffers`, each only
-- while it is alive, is defined from the start: no `copy` is called on an implementation that is
-- gone, and none is made over itself. The objects that are alive in the end are those that the
-- program made and did not destroy. Of the implementations that were made, the destructor is still to be called for exactly
-- those that some object still shares, and for all that were made in a `storage_`, none of which is
-- ever destroyed.
pub perform_all-undestroyed :
    (cs : List Command)
    → all_allowed cs (λ a. false) ≡ true
    → (w : World) × (perform_all cs empty_world ≡ some w)
      × ((a : ℕ) → is_alive w a ≡ total_effect cs (λ a. false) a)
      × ((n : ℕ) → w.undestroyed n ≡ (w.placed n || held n w.holders))
unfolding owns Leads
perform_all-undestroyed cs h =
    let (w, e, s, t) =
      perform_all-Leads cs (λ a. false) empty_world empty_world-IsSound empty_world-Located h in
    (w, e, s.known, s.counted)
