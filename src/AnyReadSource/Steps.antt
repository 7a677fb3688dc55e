-- ===== src/AnyReadSource/Steps.antt =====
-- The branches of the loop of `any_read_source::read`.
use buffers.Prelude.{ℕ, ◌+◌, ◌<◌, ◌≡◌, refl, [], ◌∷◌, ◌++◌, true, false, none, some, ltb, lt→ltb}
use buffers.Error.{ErrorCodes}
use buffers.Buffer.{BasicBuffer}
use buffers.Sequence.{BufferSequence}
use buffers.Reading.{max_chunk, ReadResult, Reader}
use buffers.AnyReadSource.{call_chunk, read_while}

module _ (e : ErrorCodes) {S : Type 0} (read1 : Reader e S) where
  -- A chunk is called for when the buffers have ended.
  pub read_while-last :
      (mb : BufferSequence) (n : ℕ) (out : ReadResult e S)
      → 0 < n
      → read_while e read1 [] mb n out ≡ call_chunk e read1 out mb
  unfolding read_while
  read_while-last mb n out h = rw (lt→ltb 0 n h)

  pub read_while-none : (x : ReadResult e S) → read_while e read1 [] [] 0 x ≡ some x
  unfolding read_while
  read_while-none x = refl

  module _ (b : BasicBuffer) (it mb : BufferSequence) (n : ℕ) (out : ReadResult e S) where
    pub read_while-gather :
        ltb (n + 1) max_chunk ≡ true
        → read_while e read1 (b ∷ it) mb n out ≡ read_while e read1 it (mb ++ b ∷ []) (n + 1) out
    unfolding read_while
    read_while-gather t = rw (t, read_while)

    pub read_while-fault :
        ltb (n + 1) max_chunk ≡ false
        → call_chunk e read1 out (mb ++ b ∷ []) ≡ none
        → read_while e read1 (b ∷ it) mb n out ≡ none
    unfolding read_while
    read_while-fault t c = rw (t, c, read_while)

    module _ (x : ReadResult e S) (full : ltb (n + 1) max_chunk ≡ false)
        (call : call_chunk e read1 out (mb ++ b ∷ []) ≡ some x) where
      pub read_while-stop : e.failed x.code ≡ true → read_while e read1 (b ∷ it) mb n out ≡ some x
      unfolding read_while
      read_while-stop t = rw (full, call, t, read_while)

      pub read_while-again :
          e.failed x.code ≡ false
          → read_while e read1 (b ∷ it) mb n out ≡ read_while e read1 it [] 0 x
      unfolding read_while
      read_while-again t = rw (full, call, t, read_while)
