-- ===== src/AnySource/Models.antt =====
-- The models of read sources: `any_source::read` does what the loop does over the source itself.
use buffers.Prelude.{Option-cases, ℕ, ◌≡◌, refl, sym, ap, ◌∙◌, [], ◌∷◌, Option, inl, inr}
use buffers.Error.{ErrorCodes}
use buffers.Sequence.{BufferSequence, Memory}
use buffers.Reading.{ReadResult, ReadSource}
use buffers.Reading.Data.{DataSource}
use buffers.AnySource.{
  AnyImpl, read_model, sized_read_model, with_state, impl_read, impl_rewind, read_all,
}
use buffers.AnyReadSource.Laws.{read_all-read_in_chunks}
use buffers.AnyReadSource.Simulation.{outcome_map, restate, read_in_chunks-Related}

module _ (e : ErrorCodes) (d : DataSource) (r : ReadSource e) where
  -- The outcome of a read of the source as one of the model.
  abbrev pub alone :
      (r.State → AnyImpl e d r)
      → Option (ReadResult e r.State)
      → Option (ReadResult e (AnyImpl e d r))
  alone f = outcome_map (restate e (λ c. f))

  -- A call of the model is one of its source.
  Calls : (r.State → AnyImpl e d r) → Type 0
  Calls f =
      (s : r.State) (m : Memory) (dest : BufferSequence) (ec : e.Code)
      → impl_read e d r (f s) m dest ec ≡ alone f (r.read s m dest ec)

  read_model-Calls : Calls read_model
  unfolding Calls impl_read with_state
  read_model-Calls s m dest ec = elim (Option-cases (r.read s m dest ec)) [
    | inl p ↦ rw p
    | inr (x, p) ↦ rw p
  ]

  sized_read_model-Calls : (n : ℕ) → Calls (sized_read_model n)
  unfolding Calls impl_read with_state
  sized_read_model-Calls n s m dest ec = elim (Option-cases (r.read s m dest ec)) [
    | inl p ↦ rw p
    | inr (x, p) ↦ rw p
  ]

  of_model :
      (f : r.State → AnyImpl e d r)
      → Calls f
      → (s : r.State) (m : Memory) (dest : BufferSequence) (ec : e.Code)
      → read_all e (impl_read e d r) (f s) m dest ec ≡ alone f (read_all e r.read s m dest ec)
  unfolding Calls read_all
  of_model f c s m [] ec = refl
  of_model f c s m (b ∷ dest) ec =
      read_all-read_in_chunks e (impl_read e d r) (f s) m (b ∷ dest) ec
      ∙ read_in_chunks-Related e r.read (impl_read e d r) (λ c. f) (λ x t. t ≡ f x) (λ x c g. refl)
          (λ x t m dest ec p. ap (λ y. impl_read e d r y m dest ec) p ∙ c x m dest ec) s (f s) m
          (b ∷ dest) ec refl refl
      ∙ ap (alone f) (sym (read_all-read_in_chunks e r.read s m (b ∷ dest) ec))

  -- A read source in either model is read as it would be by itself, rewound or not, by the same
  -- loop: the same number, `ec`, memory and state of the source, and the same faults.
  pub read_all-read_model :
      (n : ℕ) (s : r.State) (m : Memory) (dest : BufferSequence) (ec : e.Code)
      → (read_all e (impl_read e d r) (read_model s) m dest ec
          ≡ alone read_model (read_all e r.read s m dest ec))
        × (read_all e (impl_read e d r) (sized_read_model n s) m dest ec
            ≡ alone (sized_read_model n) (read_all e r.read s m dest ec))
        × (read_all e (impl_read e d r) (impl_rewind e d r (read_model s)) m dest ec
            ≡ alone read_model (read_all e r.read (r.rewind s) m dest ec))
        × (read_all e (impl_read e d r) (impl_rewind e d r (sized_read_model n s)) m dest ec
            ≡ alone (sized_read_model n) (read_all e r.read (r.rewind s) m dest ec))
  unfolding impl_rewind
  read_all-read_model n s m dest ec = (
    of_model read_model read_model-Calls s m dest ec,
    of_model (sized_read_model n) (sized_read_model-Calls n) s m dest ec,
    of_model read_model read_model-Calls (r.rewind s) m dest ec,
    of_model (sized_read_model n) (sized_read_model-Calls n) (r.rewind s) m dest ec,
  )
