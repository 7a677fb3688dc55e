-- ===== src/AnyReadSource/Simulation.antt =====
-- Two read sources of which one does what the other does: so do the loops over them.
use buffers.Prelude.{
  Option-cases, ℕ, ◌+◌, ◌≡◌, refl, sym, ap, ◌∙◌, [], ◌∷◌, ◌++◌, false, Option, none, some, ltb, inl,
  inr, Bool-cases,
}
use buffers.Error.{ErrorCodes}
use buffers.Buffer.{BasicBuffer}
use buffers.Sequence.{BufferSequence, Memory}
use buffers.Reading.{max_chunk, at_end, ReadResult, Reader, read_agrees, add_count}
use buffers.AnyReadSource.{check_chunk, call_chunk, read_while, read_in_chunks}
use buffers.AnyReadSource.Steps.{
  read_while-gather, read_while-fault, read_while-stop, read_while-again,
}
use buffers.AnyReadSource.Laws.{read_while-one}

-- An outcome with its result mapped.
abbrev pub outcome_map {ℓ κ} : {A : Type ℓ} {B : Type κ} → (A → B) → Option A → Option B
outcome_map f none = none
outcome_map f (some x) = some (f x)

-- A result with another state, which may keep the code of the error.
module _ (e : ErrorCodes) {S T : Type 0} where
  abbrev pub restate : (e.Code → S → T) → ReadResult e S → ReadResult e T
  restate h x = record { count = x.count; code = x.code; state = h x.code x.state; mem = x.mem }

-- `Related s t` says that a call of the second source in `t` does what one of the first does in `s`,
-- and so again in the states after it if there was no error.
module _ (e : ErrorCodes) {S T : Type 0} (read1 : Reader e S) (read2 : Reader e T)
    (h : e.Code → S → T) (Related : S → T → Type 0)
    (again : (s : S) (c : e.Code) → e.failed c ≡ false → Related s (h c s))
    (call : (s : S) (t : T) (m : Memory) (dest : BufferSequence) (ec : e.Code)
      → Related s t
      → read2 t m dest ec ≡ outcome_map (restate e h) (read1 s m dest ec)) where
  abbrev put : T → ReadResult e S → ReadResult e T
  put t out = record { count = out.count; code = out.code; state = t; mem = out.mem }

  check_chunk-restate :
      (out : ReadResult e S) (t : T) (mb : BufferSequence) (o : Option (ReadResult e S))
      → check_chunk e (put t out) mb (outcome_map (restate e h) o)
        ≡ outcome_map (restate e h) (check_chunk e out mb o)
  unfolding check_chunk read_agrees add_count
  check_chunk-restate out t mb none = refl
  check_chunk-restate out t mb (some x) = elim (Bool-cases (read_agrees e x mb)) [
    | inl a ↦ rw (a, check_chunk)
    | inr a ↦ rw (a, check_chunk)
  ]

  chunk :
      (out : ReadResult e S) (t : T) (mb : BufferSequence)
      → Related out.state t
      → call_chunk e read2 (put t out) mb ≡ outcome_map (restate e h) (call_chunk e read1 out mb)
  unfolding call_chunk
  chunk out t mb w =
      ap (check_chunk e (put t out) mb) (call out.state t out.mem mb out.code w)
      ∙ check_chunk-restate out t mb (read1 out.state out.mem mb out.code)

  read_while-Related :
      (it mb : BufferSequence) (b : BasicBuffer) (n : ℕ) (out : ReadResult e S) (t : T)
      → Related out.state t
      → read_while e read2 (b ∷ it) mb n (put t out)
        ≡ outcome_map (restate e h) (read_while e read1 (b ∷ it) mb n out)
  read_while-Related [] mb b n out t w =
      read_while-one e read2 b mb n (put t out)
      ∙ chunk out t (mb ++ b ∷ []) w
      ∙ ap (outcome_map (restate e h)) (sym (read_while-one e read1 b mb n out))
  read_while-Related (c ∷ it) mb b n out t w = elim (Bool-cases (ltb (n + 1) max_chunk)) [
    | inl more ↦
        read_while-gather e read2 b (c ∷ it) mb n (put t out) more
        ∙ read_while-Related it (mb ++ b ∷ []) c (n + 1) out t w
        ∙ ap (outcome_map (restate e h)) (sym (read_while-gather e read1 b (c ∷ it) mb n out more))
    | inr full ↦
        let call = chunk out t (mb ++ b ∷ []) w in
        elim (Option-cases (call_chunk e read1 out (mb ++ b ∷ []))) [
          | inl p ↦
              read_while-fault e read2 b (c ∷ it) mb n (put t out) full
                (call ∙ ap (outcome_map (restate e h)) p)
              ∙ ap (outcome_map (restate e h))
                  (sym (read_while-fault e read1 b (c ∷ it) mb n out full p))
          | inr (y, p) ↦
              let call' = call ∙ ap (outcome_map (restate e h)) p in
              elim (Bool-cases (e.failed y.code)) [
                | inl f ↦
                    read_while-stop e read2 b (c ∷ it) mb n (put t out) (restate e h y) full call' f
                    ∙ ap (outcome_map (restate e h))
                        (sym (read_while-stop e read1 b (c ∷ it) mb n out y full p f))
                | inr f ↦
                    read_while-again e read2 b (c ∷ it) mb n (put t out) (restate e h y) full call'
                      f
                    ∙ read_while-Related it [] c 0 y (h y.code y.state) (again y.state y.code f)
                    ∙ ap (outcome_map (restate e h))
                        (sym (read_while-again e read1 b (c ∷ it) mb n out y full p f))
              ]
        ]
  ]

  pub read_in_chunks-Related :
      (s : S) (t : T) (m : Memory) (dest : BufferSequence) (ec : e.Code)
      → at_end dest ≡ false
      → Related s t
      → read_in_chunks e read2 t m dest ec
        ≡ outcome_map (restate e h) (read_in_chunks e read1 s m dest ec)
  unfolding read_in_chunks
  read_in_chunks-Related s t m [] ec p w = cc
  read_in_chunks-Related s t m (b ∷ dest) ec p w =
      read_while-Related dest [] b 0 (record { count = 0; code = ec; state = s; mem = m }) t w
