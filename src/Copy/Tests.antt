-- ===== src/Copy/Tests.antt =====
-- Copies between sequences whose buffers end at different places, and the theorems at them.
use buffers.Prelude.{ℕ, Option, refl, sym, ap, ◌∙◌, ◌+◌, ◌≡◌, [], ◌∷◌, some, arith, take}
use mathlib.Core.Quot
use buffers.Buffer.{buffer}
use buffers.Sequence.{BufferSequence, Memory}
use buffers.Sequence.Laws.{seq_addrs}
use buffers.Copy.{copy}
use buffers.Copy.Bytes.{Avoids, Distinct, Apart}
use buffers.Copy.Round.{pass}
use buffers.Copy.Spans.{Sized, Span, copy_spans}
use buffers.Copy.Laws.{copy-pass, copy-frame}

abbrev source : BufferSequence
source = buffer 100 2 ∷ buffer 200 3 ∷ []

abbrev target : BufferSequence
target = buffer 300 1 ∷ buffer 400 3 ∷ []

-- Each address holds its successor.
abbrev memory : Memory
memory a = a + 1

-- The memory after the first three bytes are copied.
abbrev copied : Memory
copied = pass memory 3 (seq_addrs target) (seq_addrs source)

copy-pass_example : copy memory target source 3 ≡ some (3, copied)
copy-pass_example = copy-pass memory target source 3 (omega arith) (omega arith) (omega arith)

copied_bytes : copy memory target source 3 ≡ some (3, copied)
copied_bytes = copy-pass memory target source 3 (omega arith) (omega arith) (omega arith)

target-Distinct : Distinct (seq_addrs target)
target-Distinct = ground arith

target-Apart : Apart (seq_addrs target) (seq_addrs source)
target-Apart = ground arith

-- The last byte of the target was not reached.
outside : Avoids 402 (take 3 (seq_addrs target))
outside = ground arith

copy-frame_example : copied 402 ≡ 403
copy-frame_example =
    copy-frame memory target source 3 3 copied 402 (omega arith) (omega arith) (omega arith)
      copied_bytes outside

-- With a limit of three bytes
copy_spans_example :
    (f : Span → Span → Option (ℕ × Memory)) × ((a c : Sized)
      → f (Quot.mk a) (Quot.mk c) ≡ copy memory a.0 c.0 3)
    × ((g : Span → Span → Option (ℕ × Memory))
        → ((a c : Sized) → g (Quot.mk a) (Quot.mk c) ≡ copy memory a.0 c.0 3)
        → g ≡ f)
copy_spans_example = copy_spans memory 3 (omega arith)

abbrev sized_source : Sized
sized_source = (source, omega arith)

-- The addresses of `target`, in three buffers
abbrev sized_target : Sized
sized_target = (buffer 300 1 ∷ buffer 400 2 ∷ buffer 402 1 ∷ [], omega arith)

-- The two targets are one span.
same_copy : copy memory sized_target.0 source 3 ≡ some (3, copied)
same_copy =
    let (f, h, u) = copy_spans memory 3 (omega arith) in
    let a : Sized = (target, omega arith) in
    sym (h sized_target sized_source)
    ∙ ap (λ p. f p (Quot.mk sized_source)) (Quot.sound refl)
    ∙ h a sized_source
    ∙ copied_bytes
