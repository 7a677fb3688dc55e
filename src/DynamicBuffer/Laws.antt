-- ===== src/DynamicBuffer/Laws.antt =====
-- What the type-erased dynamic buffer returns, in terms of the one inside.
use buffers.Prelude.{
  ℕ, suc, ◌+◌, ◌-◌, ◌<◌, ◌≡◌, ◌⊎◌, inl, inr, refl, ap, ◌∙◌, [], ◌∷◌, true, false, arith, ◌==◌, take,
  take_at, zero,
}
use buffers.Error.{Exception, ok, throws, fault, Result-cases}
use buffers.Sequence.{BufferSequence}
use buffers.DynamicBuffer.{
  DynamicBuffer, AnyDynamicBuffer, unroll, unroll_loop, max_buffers, data_seq, prepare, commit,
  consume,
}

unroll_loop-take :
    (bs : BufferSequence) (i len k : ℕ) → i + suc k ≡ len → unroll_loop bs i len ≡ take (suc k) bs
unfolding unroll_loop
unroll_loop-take [] i len k e = refl
unroll_loop-take (b ∷ bs) i len zero e = rw (stop, unroll_loop)
  where
    stop : ((i + 1) == len) ≡ true
    stop = ground arith
unroll_loop-take (b ∷ bs) i len (suc k) e =
    rw (go_on, unroll_loop) (ap (λ t. b ∷ t) (unroll_loop-take bs (i + 1) len k (omega arith)))
  where
    go_on : ((i + 1) == len) ≡ false
    go_on = ground arith

-- `unroll` into an array with room stores the first buffers of the sequence, as many as there is
-- room for.
pub unroll-take : (bs : BufferSequence) (len : ℕ) → 0 < len → unroll bs len ≡ take len bs
unfolding unroll
unroll-take bs len h =
    unroll_loop-take bs 0 len (len - 1) (omega arith) ∙ take_at bs (suc (len - 1)) len (omega arith)

module _ (d : DynamicBuffer) (a : AnyDynamicBuffer d) (n : ℕ) where
  -- Of every wrapper and every number: after `commit`, `data()` is what the buffer inside then
  -- returns, cut to eight buffers. `consume` ends as it does inside: it succeeds, with the buffer
  -- that is left inside, and then `data()` is what that returns, cut alike; or it throws the same
  -- exception; or it faults. So does `prepare`: where it succeeds it returns what the buffer inside
  -- returns, cut to eight buffers, and `data()` is what it was.
  pub any_dynamic_lem :
      (data_seq d (commit d a n) ≡ take max_buffers (d.data_seq (d.commit a.inner n)))
      × (((b : d.Carrier) × (c : AnyDynamicBuffer d) × (d.consume a.inner n ≡ ok b)
            × (consume d a n ≡ ok c)
            × (c.inner ≡ b)
            × (data_seq d c ≡ take max_buffers (d.data_seq b)))
          ⊎ (((x : Exception) × (d.consume a.inner n ≡ throws x) × (consume d a n ≡ throws x))
              ⊎ ((d.consume a.inner n ≡ fault) × (consume d a n ≡ fault))))
      × (((b : d.Carrier) × (out : BufferSequence) × (c : AnyDynamicBuffer d) × (d.prepare a.inner n
              ≡ ok (b, out))
            × (prepare d a n ≡ ok (c, take max_buffers out))
            × (c.inner ≡ b)
            × (data_seq d c ≡ data_seq d a))
          ⊎ (((x : Exception) × (d.prepare a.inner n ≡ throws x) × (prepare d a n ≡ throws x))
              ⊎ ((d.prepare a.inner n ≡ fault) × (prepare d a n ≡ fault))))
  unfolding data_seq prepare commit consume
  any_dynamic_lem = (
    unroll-take (d.data_seq (d.commit a.inner n)) max_buffers (omega arith),
    elim (Result-cases (d.consume a.inner n)) [
      | inl (b, e) ↦ inl (
        b,
        record a { inner = b; data_buffers = unroll (d.data_seq b) max_buffers },
        e,
        rw e,
        refl,
        unroll-take (d.data_seq b) max_buffers (omega arith),
      )
      | inr (inl (x, e)) ↦ inr (inl (x, e, rw e))
      | inr (inr e) ↦ inr (inr (e, rw e))
    ],
    elim (Result-cases (d.prepare a.inner n)) [
      | inl ((b, out), e) ↦
          let held : AnyDynamicBuffer d = record a {
            inner = b;
            out_buffers = unroll out max_buffers;
          } in
          inl (
            b,
            out,
            held,
            e,
            rw e (ap (λ t. ok (held, t)) (unroll-take out max_buffers (omega arith))),
            refl,
            refl,
          )
      | inr (inl (x, e)) ↦ inr (inl (x, e, rw e))
      | inr (inr e) ↦ inr (inr (e, rw e))
    ],
  )
