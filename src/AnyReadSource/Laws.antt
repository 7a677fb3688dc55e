-- ===== src/AnyReadSource/Laws.antt =====
-- The loops of `any_read_source::read` and `any_source::read` do the same.
use buffers.Prelude.{
  Option-cases, ℕ, ◌+◌, ◌≡◌, refl, sym, ap, ◌∙◌, [], ◌∷◌, ◌++◌, true, false, ◌&&◌, ◌||◌, not,
  Option, none, some, ltb, inl, inr, arith, Bool-cases, ◌⊎◌,
}
use mathlib.Core.Option.{some-injective}
use buffers.Error.{ErrorCodes}
use buffers.Buffer.{BasicBuffer}
use buffers.Sequence.{BufferSequence, Memory}
use buffers.Reading.{max_chunk, at_end, ReadResult, Reader, read_agrees, add_count}
use buffers.AnySource.{read_loop, read_all}
use buffers.AnySource.Steps.{
  and_false, or_true, read_loop-gather, read_loop-stop, read_loop-again, read_loop-fault,
  read_loop-disagrees,
}
use buffers.AnyReadSource.{check_chunk, call_chunk, read_while, read_in_chunks}
use buffers.AnyReadSource.Steps.{
  read_while-last, read_while-none, read_while-gather, read_while-fault, read_while-stop,
  read_while-again,
}

module _ (e : ErrorCodes) {S : Type 0} (read1 : Reader e S) where
  -- What a successful call of a chunk did.
  check_chunk-some :
      (out x : ReadResult e S) (mb : BufferSequence) (o : Option (ReadResult e S))
      → check_chunk e out mb o ≡ some x
      → (r : ReadResult e S) × (o ≡ some r) × (read_agrees e r mb ≡ true) × (add_count e out r ≡ x)
  unfolding check_chunk
  check_chunk-some out x mb none h = cc
  check_chunk-some out x mb (some r) h = elim (Bool-cases (read_agrees e r mb)) [
    | inl a ↦ (r, refl, a, some-injective (add_count e out r) x (rw a at h))
    | inr a ↦ absurd (let h' : none ≡ some x = rw a at h in cc)
  ]

  -- What an unsuccessful one did.
  check_chunk-none :
      (out : ReadResult e S) (mb : BufferSequence) (o : Option (ReadResult e S))
      → check_chunk e out mb o ≡ none
      → (o ≡ none) ⊎ ((r : ReadResult e S) × (o ≡ some r) × (read_agrees e r mb ≡ false))
  unfolding check_chunk
  check_chunk-none out mb none h = inl refl
  check_chunk-none out mb (some r) h = elim (Bool-cases (read_agrees e r mb)) [
    | inl a ↦ absurd (let h' : some (add_count e out r) ≡ none = rw a at h in cc)
    | inr a ↦ inr (r, refl, a)
  ]

  pub call_chunk-some :
      (out x : ReadResult e S) (mb : BufferSequence)
      → call_chunk e read1 out mb ≡ some x
      → (r : ReadResult e S) × (read1 out.state out.mem mb out.code ≡ some r)
        × (read_agrees e r mb ≡ true)
        × (add_count e out r ≡ x)
  unfolding call_chunk
  call_chunk-some out x mb h = check_chunk-some out x mb (read1 out.state out.mem mb out.code) h

  module _ (b : BasicBuffer) (it mb : BufferSequence) (n : ℕ) (out : ReadResult e S)
      (full : (ltb (n + 1) max_chunk && not (at_end it)) ≡ false) where
    read_loop-faults :
        call_chunk e read1 out (mb ++ b ∷ []) ≡ none → read_loop e read1 (b ∷ it) mb n out ≡ none
    unfolding call_chunk
    read_loop-faults h =
        elim (check_chunk-none out (mb ++ b ∷ []) (read1 out.state out.mem (mb ++ b ∷ []) out.code)
          h) [
            | inl p ↦ read_loop-fault e read1 b it mb n out full p
            | inr (r, p, a) ↦ read_loop-disagrees e read1 b it mb n out full r p a
          ]

    read_loop-ends :
        (x : ReadResult e S)
        → call_chunk e read1 out (mb ++ b ∷ []) ≡ some x
        → (e.failed x.code || at_end it) ≡ true
        → read_loop e read1 (b ∷ it) mb n out ≡ some x
    unfolding add_count
    read_loop-ends x h t =
        let (r, p, a, q) = call_chunk-some out x (mb ++ b ∷ []) h in
        read_loop-stop e read1 b it mb n out r full p a
          (ap (λ y. e.failed y.code || at_end it) q ∙ t)
        ∙ ap some q

    read_loop-goes_on :
        (x : ReadResult e S)
        → call_chunk e read1 out (mb ++ b ∷ []) ≡ some x
        → (e.failed x.code || at_end it) ≡ false
        → read_loop e read1 (b ∷ it) mb n out ≡ read_loop e read1 it [] 0 x
    unfolding add_count
    read_loop-goes_on x h t =
        let (r, p, a, q) = call_chunk-some out x (mb ++ b ∷ []) h in
        read_loop-again e read1 b it mb n out r full p a
          (ap (λ y. e.failed y.code || at_end it) q ∙ t)
        ∙ ap (read_loop e read1 it [] 0) q

  -- A chunk that begins with the last buffer.
  pub read_while-one :
      (b : BasicBuffer) (mb : BufferSequence) (n : ℕ) (out : ReadResult e S)
      → read_while e read1 (b ∷ []) mb n out ≡ call_chunk e read1 out (mb ++ b ∷ [])
  read_while-one b mb n out = elim (Bool-cases (ltb (n + 1) max_chunk)) [
    | inl more ↦
        read_while-gather e read1 b [] mb n out more
        ∙ read_while-last e read1 (mb ++ b ∷ []) (n + 1) out (omega arith)
    | inr full ↦ elim (Option-cases (call_chunk e read1 out (mb ++ b ∷ []))) [
      | inl p ↦ read_while-fault e read1 b [] mb n out full p ∙ sym p
      | inr (x, p) ↦ elim (Bool-cases (e.failed x.code)) [
        | inl t ↦ read_while-stop e read1 b [] mb n out x full p t ∙ sym p
        | inr t ↦
            read_while-again e read1 b [] mb n out x full p t ∙ read_while-none e read1 x ∙ sym p
      ]
    ]
  ]

  read_loop-one :
      (b : BasicBuffer) (mb : BufferSequence) (n : ℕ) (out : ReadResult e S)
      → read_loop e read1 (b ∷ []) mb n out ≡ call_chunk e read1 out (mb ++ b ∷ [])
  read_loop-one b mb n out = elim (Option-cases (call_chunk e read1 out (mb ++ b ∷ []))) [
    | inl p ↦ read_loop-faults b [] mb n out (and_false _) p ∙ sym p
    | inr (x, p) ↦ read_loop-ends b [] mb n out (and_false _) x p (or_true _) ∙ sym p
  ]

  read_loop-read_while :
      (it mb : BufferSequence) (b : BasicBuffer) (n : ℕ) (out : ReadResult e S)
      → read_loop e read1 (b ∷ it) mb n out ≡ read_while e read1 (b ∷ it) mb n out
  read_loop-read_while [] mb b n out = read_loop-one b mb n out ∙ sym (read_while-one b mb n out)
  read_loop-read_while (c ∷ it) mb b n out = elim (Bool-cases (ltb (n + 1) max_chunk)) [
    | inl more ↦
        read_loop-gather e read1 b (c ∷ it) mb n out (rw more refl)
        ∙ read_loop-read_while it (mb ++ b ∷ []) c (n + 1) out
        ∙ sym (read_while-gather e read1 b (c ∷ it) mb n out more)
    | inr full ↦ elim (Option-cases (call_chunk e read1 out (mb ++ b ∷ []))) [
      | inl p ↦
          read_loop-faults b (c ∷ it) mb n out (rw full refl) p
          ∙ sym (read_while-fault e read1 b (c ∷ it) mb n out full p)
      | inr (x, p) ↦ elim (Bool-cases (e.failed x.code)) [
        | inl t ↦
            read_loop-ends b (c ∷ it) mb n out (rw full refl) x p (ap (λ y. y || false) t)
            ∙ sym (read_while-stop e read1 b (c ∷ it) mb n out x full p t)
        | inr t ↦
            read_loop-goes_on b (c ∷ it) mb n out (rw full refl) x p (ap (λ y. y || false) t)
            ∙ read_loop-read_while it [] c 0 x
            ∙ sym (read_while-again e read1 b (c ∷ it) mb n out x full p t)
      ]
    ]
  ]

  -- `any_source::read` and `any_read_source::read` have the same outcome, faults included, over the
  -- same virtual call, for every sequence of buffers.
  pub read_all-read_in_chunks :
      (s : S) (m : Memory) (dest : BufferSequence) (ec : e.Code)
      → read_all e read1 s m dest ec ≡ read_in_chunks e read1 s m dest ec
  unfolding read_all read_in_chunks
  read_all-read_in_chunks s m [] ec = refl
  read_all-read_in_chunks s m (b ∷ dest) ec =
      read_loop-read_while dest [] b 0 (record { count = 0; code = ec; state = s; mem = m })
