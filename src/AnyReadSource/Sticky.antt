-- ===== src/AnyReadSource/Sticky.antt =====
-- The error that a wrapped read source has reported stays until it is rewound.
use buffers.Prelude.{
  Option-cases, ℕ, ◌+◌, ◌≡◌, refl, sym, ap, ◌∙◌, [], ◌∷◌, ◌++◌, true, false, none, some, ltb, inl,
  inr, Bool-cases,
}
use mathlib.Core.Option.{some-injective}
use buffers.Error.{ErrorCodes}
use buffers.Buffer.{BasicBuffer}
use buffers.Sequence.{BufferSequence, Memory}
use buffers.Reading.{max_chunk, at_end, ReadResult, read_agrees, add_count}
use buffers.AnyReadSource.{
  call_chunk, read_while, read_in_chunks, OptionalSource, ReadSourceImpl, do_read, remember,
}
use buffers.AnyReadSource.Steps.{
  read_while-gather, read_while-fault, read_while-stop, read_while-again,
}
use buffers.AnyReadSource.Laws.{call_chunk-some, read_while-one}

module _ (e : ErrorCodes) (r : OptionalSource e) where
  abbrev Impl : Type 0
  Impl = ReadSourceImpl e r

  -- What a call of `do_read` reports it keeps.
  do_read-ec :
      (s : Impl) (m : Memory) (dest : BufferSequence) (ec : e.Code) (x : ReadResult e Impl)
      → do_read e r s m dest ec ≡ some x
      → x.state.ec ≡ x.code
  unfolding do_read
  do_read-ec s m dest ec x h = elim (Bool-cases (e.failed s.ec)) [
    | inl t ↦
        let kept : ReadResult e Impl = record { count = 0; code = s.ec; state = s; mem = m } in
        let q : some kept ≡ some x = rw (t, do_read) at h in
        let same : kept ≡ x = some-injective kept x q in
        sym (ap (λ (z : ReadResult e Impl). z.state.ec) same)
        ∙ ap (λ (z : ReadResult e Impl). z.code) same
    | inr t ↦ elim (Option-cases (r.read s.source m dest ec)) [
      | inl p ↦ absurd (let q : none ≡ some x = rw (t, p, do_read) at h in cc)
      | inr (y, p) ↦
          let q : some (remember e r y) ≡ some x = rw (t, p, do_read) at h in
          let same : remember e r y ≡ x = some-injective (remember e r y) x q in
          sym (ap (λ (z : ReadResult e Impl). z.state.ec) same)
          ∙ ap (λ (z : ReadResult e Impl). z.code) same
    ]
  ]

  call_chunk-ec :
      (out x : ReadResult e Impl) (mb : BufferSequence)
      → call_chunk e (do_read e r) out mb ≡ some x
      → x.state.ec ≡ x.code
  unfolding add_count
  call_chunk-ec out x mb h =
      let (y, p, a, q) = call_chunk-some e (do_read e r) out x mb h in
      ap (λ (z : ReadResult e Impl). z.state.ec) (sym q)
      ∙ do_read-ec out.state out.mem mb out.code y p
      ∙ ap (λ (z : ReadResult e Impl). z.code) q

  -- A chunk that is called once an error is kept.
  call_chunk-failed :
      (s : Impl) (m : Memory) (mb : BufferSequence) (ec : e.Code)
      → e.failed s.ec ≡ true
      → call_chunk e (do_read e r) (record { count = 0; code = ec; state = s; mem = m }) mb
        ≡ some (record { count = 0; code = s.ec; state = s; mem = m })
  unfolding call_chunk do_read read_agrees add_count
  call_chunk-failed s m mb ec h = rw (h, do_read, read_agrees) (rw h refl)

  -- The result of a loop that called a chunk keeps its error.
  read_while-ec :
      (it mb : BufferSequence) (b : BasicBuffer) (n : ℕ) (out x : ReadResult e Impl)
      → read_while e (do_read e r) (b ∷ it) mb n out ≡ some x
      → x.state.ec ≡ x.code
  read_while-ec [] mb b n out x h =
      call_chunk-ec out x (mb ++ b ∷ []) (sym (read_while-one e (do_read e r) b mb n out) ∙ h)
  read_while-ec (c ∷ it) mb b n out x h = elim (Bool-cases (ltb (n + 1) max_chunk)) [
    | inl more ↦
        read_while-ec it (mb ++ b ∷ []) c (n + 1) out x
          (sym (read_while-gather e (do_read e r) b (c ∷ it) mb n out more) ∙ h)
    | inr full ↦ elim (Option-cases (call_chunk e (do_read e r) out (mb ++ b ∷ []))) [
      | inl p ↦ absurd (
          let q : none ≡ some x =
            sym (read_while-fault e (do_read e r) b (c ∷ it) mb n out full p) ∙ h in
          cc)
      | inr (y, p) ↦ elim (Bool-cases (e.failed y.code)) [
        | inl t ↦
            let q : y ≡ x =
              some-injective y x
                (sym (read_while-stop e (do_read e r) b (c ∷ it) mb n out y full p t) ∙ h) in
            rw (← q) (call_chunk-ec out y (mb ++ b ∷ []) p)
        | inr t ↦
            read_while-ec it [] c 0 y x
              (sym (read_while-again e (do_read e r) b (c ∷ it) mb n out y full p t) ∙ h)
      ]
    ]
  ]

  -- A loop over a source with a kept error calls a chunk once.
  read_while-failed :
      (it mb : BufferSequence) (b : BasicBuffer) (n : ℕ) (s : Impl) (m : Memory) (ec : e.Code)
      → e.failed s.ec ≡ true
      → read_while e
          (do_read e r)
          (b ∷ it)
          mb
          n
          (record { count = 0; code = ec; state = s; mem = m })
        ≡ some (record { count = 0; code = s.ec; state = s; mem = m })
  read_while-failed [] mb b n s m ec h =
      read_while-one e (do_read e r) b mb n (record { count = 0; code = ec; state = s; mem = m })
      ∙ call_chunk-failed s m (mb ++ b ∷ []) ec h
  read_while-failed (c ∷ it) mb b n s m ec h = elim (Bool-cases (ltb (n + 1) max_chunk)) [
    | inl more ↦
        read_while-gather e (do_read e r) b (c ∷ it) mb n _ more
        ∙ read_while-failed it (mb ++ b ∷ []) c (n + 1) s m ec h
    | inr full ↦
        read_while-stop e (do_read e r) b (c ∷ it) mb n _ _ full
          (call_chunk-failed s m (mb ++ b ∷ []) ec h) h
  ]

  -- Of a wrapped read source, whatever it does: once a read into some buffers has set `ec` to a
  -- failure, every later read into some buffers returns 0 and sets `ec` to the same failure, and
  -- touches neither the source nor the memory.
  pub read_in_chunks-sticky :
      (s : Impl) (m : Memory) (dest : BufferSequence) (ec : e.Code) (x : ReadResult e Impl)
      (m' : Memory) (dest' : BufferSequence) (ec' : e.Code)
      → at_end dest ≡ false
      → read_in_chunks e (do_read e r) s m dest ec ≡ some x
      → e.failed x.code ≡ true
      → at_end dest' ≡ false
      → read_in_chunks e (do_read e r) x.state m' dest' ec'
        ≡ some (record { count = 0; code = x.code; state = x.state; mem = m' })
  unfolding read_in_chunks
  read_in_chunks-sticky s m [] ec x m' dest' ec' p h f q = cc
  read_in_chunks-sticky s m (b ∷ dest) ec x m' [] ec' p h f q = cc
  read_in_chunks-sticky s m (b ∷ dest) ec x m' (c ∷ dest') ec' p h f q =
      let kept : x.state.ec ≡ x.code = read_while-ec dest [] b 0 _ x h in
      read_while-failed dest' [] c 0 x.state m' ec' (ap e.failed kept ∙ f)
      ∙ ap (λ k. some (record { count = 0; code = k; state = x.state; mem = m' })) kept
