-- ===== src/AnySource/Steps.antt =====
-- The branches of the loop of `any_source::read`.
use buffers.Prelude.{
  ℕ, ◌+◌, ◌≡◌, refl, [], ◌∷◌, ◌++◌, Bool, true, false, ◌&&◌, ◌||◌, not, none, some, ltb,
}
use buffers.Error.{ErrorCodes}
use buffers.Buffer.{BasicBuffer}
use buffers.Sequence.{BufferSequence}
use buffers.Reading.{max_chunk, at_end, ReadResult, Reader, read_agrees, add_count}
use buffers.AnySource.{read_loop}

pub and_false : (b : Bool) → (b && false) ≡ false
and_false true = refl
and_false false = refl

pub or_true : (b : Bool) → (b || true) ≡ true
or_true true = refl
or_true false = refl

module _ (e : ErrorCodes) {S : Type 0} (read1 : Reader e S) (b : BasicBuffer)
    (it mb : BufferSequence) (n : ℕ) (out : ReadResult e S) where
  -- The chunk takes more buffers.
  pub read_loop-gather :
      (ltb (n + 1) max_chunk && not (at_end it)) ≡ true
      → read_loop e read1 (b ∷ it) mb n out ≡ read_loop e read1 it (mb ++ b ∷ []) (n + 1) out
  unfolding read_loop
  read_loop-gather t = rw (t, read_loop)

  module _ (r : ReadResult e S) (full : (ltb (n + 1) max_chunk && not (at_end it)) ≡ false)
      (call : read1 out.state out.mem (mb ++ b ∷ []) out.code ≡ some r)
      (agrees : read_agrees e r (mb ++ b ∷ []) ≡ true) where
    -- The chunk is read, and the loop ends.
    pub read_loop-stop :
        (e.failed r.code || at_end it) ≡ true
        → read_loop e read1 (b ∷ it) mb n out ≡ some (add_count e out r)
    unfolding read_loop
    read_loop-stop t = rw (full, call, agrees, t, read_loop)

    -- The chunk is read, and the next one begins.
    pub read_loop-again :
        (e.failed r.code || at_end it) ≡ false
        → read_loop e read1 (b ∷ it) mb n out ≡ read_loop e read1 it [] 0 (add_count e out r)
    unfolding read_loop
    read_loop-again t = rw (full, call, agrees, t, read_loop)

  -- The call of a chunk faults, or its assertion fails.
  module _ (full : (ltb (n + 1) max_chunk && not (at_end it)) ≡ false) where
    pub read_loop-fault :
        read1 out.state out.mem (mb ++ b ∷ []) out.code ≡ none
        → read_loop e read1 (b ∷ it) mb n out ≡ none
    unfolding read_loop
    read_loop-fault c = rw (full, c, read_loop)

    pub read_loop-disagrees :
        (r : ReadResult e S)
        → read1 out.state out.mem (mb ++ b ∷ []) out.code ≡ some r
        → read_agrees e r (mb ++ b ∷ []) ≡ false
        → read_loop e read1 (b ∷ it) mb n out ≡ none
    unfolding read_loop
    read_loop-disagrees r c a = rw (full, c, a, read_loop)
