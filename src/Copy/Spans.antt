-- ===== src/Copy/Spans.antt =====
-- What `copy` sees of its sequences: their addresses, and not how buffers divide them.
use buffers.Prelude.{ℕ, ◌<◌, ◌≡◌, refl, sym, ap, ap₂, ◌∙◌, Option, some, length, size_mod, min}
use mathlib.Core.Path.{fun_ext}
use mathlib.Core.Quot
use mathlib.Core.Quot.{Quot, Quot-set}
use buffers.Sequence.{BufferSequence, Memory}
use buffers.Sequence.Laws.{seq_addrs, total, length-seq_addrs}
use buffers.Copy.{copy}
use buffers.Copy.Laws.{copy-pass}
use buffers.Copy.Round.{pass}

-- A sequence whose size `std::size_t` holds.
abbrev pub Sized : Type 0
Sized = (bs : BufferSequence) × (total bs < size_mod)

abbrev pub SameAddrs : Sized → Sized → Type 0
SameAddrs a b = seq_addrs a.0 ≡ seq_addrs b.0

-- A sequence as it is seen once the bounds of its buffers are forgotten.
abbrev pub Span : Type 0
Span = Quot SameAddrs

pub total_same : (xs ys : BufferSequence) → seq_addrs xs ≡ seq_addrs ys → total xs ≡ total ys
total_same xs ys h = sym (length-seq_addrs xs) ∙ ap length h ∙ length-seq_addrs ys

module _ (m : Memory) (at_most : ℕ) (h : at_most < size_mod) where
  copy_same :
      (a b c d : Sized)
      → SameAddrs a b
      → SameAddrs c d
      → copy m a.0 c.0 at_most ≡ copy m b.0 d.0 at_most
  copy_same a b c d p q =
      copy-pass m a.0 c.0 at_most a.1 c.1 h
      ∙ (λ i. some (sizes i, pass m (sizes i) (p i) (q i)))
      ∙ sym (copy-pass m b.0 d.0 at_most b.1 d.1 h)
    where
      sizes : min at_most (min (total c.0) (total a.0)) ≡ min at_most (min (total d.0) (total b.0))
      sizes = ap₂ (λ x y. min at_most (min x y)) (total_same c.0 d.0 q) (total_same a.0 b.0 p)

  result_set : IsSet (Option (ℕ × Memory))
  result_set = hlevel

  function_set : IsSet (Span → Option (ℕ × Memory))
  function_set = hlevel

  abbrev copy_to : Sized → Span → Option (ℕ × Memory)
  copy_to a = Quot.lift result_set (λ c. copy m a.0 c.0 at_most) (λ c d q. copy_same a a c d refl q)

  -- `copy` on spans.
  abbrev copy_span : Span → Span → Option (ℕ × Memory)
  copy_span =
      Quot.lift function_set copy_to
        (λ a b p. fun_ext (Quot.ind (λ q. result_set _ _) (λ c. copy_same a b c c p refl)))

  -- Where `std::size_t` holds the limit, there is one function of spans, and only one, that `copy` is
  -- on all sequences whose sizes `std::size_t` holds: neither the number of bytes nor the memory
  -- depends on how the addresses are divided into buffers.
  pub copy_spans :
      (f : Span → Span → Option (ℕ × Memory)) × ((a c : Sized)
        → f (Quot.mk a) (Quot.mk c) ≡ copy m a.0 c.0 at_most)
      × ((g : Span → Span → Option (ℕ × Memory))
          → ((a c : Sized) → g (Quot.mk a) (Quot.mk c) ≡ copy m a.0 c.0 at_most)
          → g ≡ f)
  copy_spans = (
    copy_span,
    (λ a c. refl),
    (λ g k. fun_ext (
        Quot.ind (λ q. function_set _ _)
          (λ a. fun_ext (Quot.ind (λ q. result_set _ _) (λ c. k a c))))),
  )
