-- ===== src/AnyReadSource/Wrapper.antt =====
-- A wrapped read source does what the source does, up to the first error and again after a rewind.
use buffers.Prelude.{Option-cases, ◌≡◌, refl, ap, ◌∙◌, false, Option, some, inl, inr}
use buffers.Error.{ErrorCodes, ok}
use buffers.Sequence.{BufferSequence, Memory}
use buffers.Reading.{at_end, ReadResult}
use buffers.AnyReadSource.{
  read_in_chunks, OptionalSource, ReadSourceImpl, do_read, remember, rewind,
}
use buffers.AnyReadSource.Simulation.{outcome_map, restate, read_in_chunks-Related}

module _ (e : ErrorCodes) (r : OptionalSource e) where
  -- A source that has reported an error, in the wrapper that keeps it.
  abbrev pub keeping : e.Code → r.State → ReadSourceImpl e r
  keeping ec s = record { source = s; ec = ec }

  -- The outcome of a read of the source as one of the wrapper.
  abbrev pub remembered : Option (ReadResult e r.State) → Option (ReadResult e (ReadSourceImpl e r))
  remembered = outcome_map (restate e keeping)

  -- The wrapper holds this source, and keeps no failure.
  Holds : r.State → ReadSourceImpl e r → Type 0
  Holds s t = (ec : e.Code) × (e.failed ec ≡ false) × (t ≡ keeping ec s)

  do_read-keeping :
      (s : r.State) (c : e.Code) (m : Memory) (dest : BufferSequence) (ec : e.Code)
      → e.failed c ≡ false
      → do_read e r (keeping c s) m dest ec ≡ remembered (r.read s m dest ec)
  unfolding do_read remember
  do_read-keeping s c m dest ec f = elim (Option-cases (r.read s m dest ec)) [
    | inl q ↦ rw (f, q, do_read)
    | inr (x, q) ↦ rw (f, q, do_read)
  ]

  do_read-remembered :
      (s : r.State) (t : ReadSourceImpl e r) (m : Memory) (dest : BufferSequence) (ec : e.Code)
      → Holds s t
      → do_read e r t m dest ec ≡ remembered (r.read s m dest ec)
  unfolding Holds
  do_read-remembered s t m dest ec (c, f, p) =
      ap (λ x. do_read e r x m dest ec) p ∙ do_read-keeping s c m dest ec f

  -- A wrapper that keeps no failure reads into some buffers as its source would by the same loop,
  -- faults included: the same number, `ec`, memory and state of the source, and it keeps that `ec`.
  pub read_in_chunks-remembered :
      (s : ReadSourceImpl e r) (m : Memory) (dest : BufferSequence) (ec : e.Code)
      → at_end dest ≡ false
      → e.failed s.ec ≡ false
      → read_in_chunks e (do_read e r) s m dest ec
        ≡ remembered (read_in_chunks e r.read s.source m dest ec)
  unfolding Holds
  read_in_chunks-remembered s m dest ec p h =
      read_in_chunks-Related e r.read (do_read e r) keeping Holds (λ t c f. (c, f, refl))
        do_read-remembered s.source s m dest ec p (s.ec, h, refl)

  -- Where the source can be rewound, `rewind` succeeds whatever error is kept, and the next read
  -- into some buffers is that of the source, rewound.
  pub read_in_chunks-rewind :
      (f : r.State → r.State) (s : ReadSourceImpl e r) (m : Memory) (dest : BufferSequence)
      (ec : e.Code)
      → r.rewind ≡ some f
      → at_end dest ≡ false
      → (s' : ReadSourceImpl e r) × (rewind e r s ≡ ok s')
        × (read_in_chunks e (do_read e r) s' m dest ec
            ≡ remembered (read_in_chunks e r.read (f s.source) m dest ec))
  unfolding rewind
  read_in_chunks-rewind f s m dest ec h p =
      let s' : ReadSourceImpl e r = record { source = f s.source; ec = e.success } in
      (s', rw (h, rewind), read_in_chunks-remembered s' m dest ec p e.failed-success)
