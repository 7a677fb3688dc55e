-- ===== src/AnySource/Loop.antt =====
-- The loop of `any_source::read` over a source that reads its own bytes in order: the chunks of
-- sixteen buffers make no difference.
use buffers.Prelude.{
  ℕ, ◌+◌, ◌<◌, ◌≡◌, refl, sym, ap, ◌∙◌, [], ◌∷◌, ◌++◌, append_assoc, true, false, ◌||◌, some, inl,
  inr, arith, ltb, Bool-cases, size_mod,
}
use buffers.Error.{ErrorCodes}
use buffers.Buffer.{BasicBuffer}
use buffers.Sequence.{BufferSequence, Memory}
use buffers.Sequence.Laws.{total, total-append}
use buffers.Reading.{max_chunk, ReadResult, Reader, read_agrees, add_count}
use buffers.Reading.Data.{DataSource}
use buffers.AnySource.{read_loop, DataModel}
use buffers.AnySource.Steps.{and_false, or_true, read_loop-gather, read_loop-stop, read_loop-again}
use buffers.AnySource.After.{
  IsValid, advanced, advanced-IsValid, ends, after, failed-after, agrees-after, after-after,
  after-stop, add_count-after,
}

-- A call of such a source, in the loop or by itself, does the read that is described.
module _ (e : ErrorCodes) (d : DataSource) {S : Type 0} (inj : DataModel d → S) (read1 : Reader e S)
    (reads : (s : DataModel d) (m : Memory) (dest : BufferSequence) (ec : e.Code)
      → IsValid d s
      → total dest < size_mod
      → read1 (inj s) m dest ec ≡ some (after e d inj s m dest 0)) where
  abbrev start : DataModel d → Memory → ℕ → e.Code → ReadResult e S
  start s m count ec = record { count = count; code = ec; state = inj s; mem = m }

  pub read_loop-after :
      (it mb : BufferSequence) (b : BasicBuffer) (n count : ℕ) (s : DataModel d) (m : Memory)
      (ec : e.Code)
      → IsValid d s
      → count + total (mb ++ b ∷ it) < size_mod
      → read_loop e read1 (b ∷ it) mb n (start s m count ec)
        ≡ some (after e d inj s m (mb ++ b ∷ it) count)
  read_loop-after [] mb b n count s m ec v h =
      read_loop-stop e read1 b [] mb n (start s m count ec) (after e d inj s m (mb ++ b ∷ []) 0)
        (and_false (ltb (n + 1) max_chunk)) (reads s m (mb ++ b ∷ []) ec v (omega arith))
        (agrees-after e d inj s m (mb ++ b ∷ []) (omega arith)) (or_true _)
      ∙ ap some (add_count-after e d inj s m (mb ++ b ∷ []) count ec (inj s) m (omega arith))
  read_loop-after (c ∷ it) mb b n count s m ec v h = elim (Bool-cases (ltb (n + 1) max_chunk)) [
    | inl more ↦
        read_loop-gather e read1 b (c ∷ it) mb n (start s m count ec) (rw more refl)
        ∙ read_loop-after it (mb ++ b ∷ []) c (n + 1) count s m ec v (rw whole h)
        ∙ ap (λ t. some (after e d inj s m t count)) whole
    | inr full ↦ elim (Bool-cases (ends e d s (total now))) [
      | inl t ↦
          read_loop-stop e read1 b (c ∷ it) mb n out (after e d inj s m now 0) (rw full refl) call
            agrees (ap (λ x. x || false) (failed-after e d inj s m now 0 ∙ t))
          ∙ ap some (
              counted
              ∙ after-stop e d inj s m now (c ∷ it) count v t
              ∙ ap (λ x. after e d inj s m x count) whole)
      | inr f ↦
          read_loop-again e read1 b (c ∷ it) mb n out (after e d inj s m now 0) (rw full refl) call
            agrees (ap (λ x. x || false) (failed-after e d inj s m now 0 ∙ f))
          ∙ ap (read_loop e read1 (c ∷ it) [] 0) counted
          ∙ read_loop-after it [] c 0 (after e d inj s m now count).count
              (advanced e d s (total now)) (after e d inj s m now count).mem
              (after e d inj s m now count).code (advanced-IsValid e d s (total now) v)
              (omega (arith, lengths))
          ∙ ap some (
              after-after e d inj s m now (c ∷ it) count v
              ∙ ap (λ x. after e d inj s m x count) whole)
    ]
  ]
    where
      whole : (mb ++ b ∷ []) ++ c ∷ it ≡ mb ++ b ∷ c ∷ it
      whole = append_assoc mb (b ∷ []) (c ∷ it)

      now : BufferSequence
      now = mb ++ b ∷ []

      out : ReadResult e S
      out = start s m count ec

      lengths : total now + total (c ∷ it) ≡ total (mb ++ b ∷ c ∷ it)
      lengths = sym (total-append now (c ∷ it)) ∙ ap total whole

      fits : total now < size_mod
      fits = omega (arith, lengths)

      call : read1 (inj s) m now ec ≡ some (after e d inj s m now 0)
      call = reads s m now ec v fits

      agrees : read_agrees e (after e d inj s m now 0) now ≡ true
      agrees = agrees-after e d inj s m now fits

      counted : add_count e out (after e d inj s m now 0) ≡ after e d inj s m now count
      counted = add_count-after e d inj s m now count ec (inj s) m (omega (arith, lengths))
