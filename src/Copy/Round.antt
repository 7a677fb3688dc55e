-- ===== src/Copy/Round.antt =====
-- A round of the copying loop keeps the loop's invariant, takes one step of its measure, and
-- leaves a state from which the same bytes end up copied.
use buffers.Prelude.{
  ℕ, ◌+◌, ◌-◌, ◌<◌, ◌≤◌, min, ◌≡◌, sym, ap, ap₂, ◌∙◌, List, ◌∷◌, some, arith, length, take, drop,
  take-add, length-take, length-drop, size_mod, Option,
}
use buffers.Buffer.{BasicBuffer}
use buffers.Sequence.{BufferSequence, Memory}
use buffers.Sequence.Laws.{seq_addrs, total, length-seq_addrs}
use buffers.Copy.{CopyState}
use buffers.Copy.Bytes.{copy_bytes, copy_bytes_none, copy_bytes-append}
use buffers.Copy.Loop.{
  Within, rest, take-rest, next_lem, after, moved, total-next_it, length-next_it,
}

-- What holds before every round.
pub record Inv (at_most : ℕ) (s : CopyState) : Type 0 where
  pub limit : at_most < size_mod
  pub below : s.total ≤ at_most
  pub within0 : Within s.pos0 s.it0
  pub within1 : Within s.pos1 s.it1
  pub fits0 : total s.it0 < size_mod
  pub fits1 : total s.it1 < size_mod

-- The first `k` bytes of some sources, copied to the first `k` of some destinations.
abbrev pub pass : Memory → ℕ → List ℕ → List ℕ → Memory
pass m k ds ss = copy_bytes m (take k ds) (take k ss)

-- What the loop still copies.
abbrev pub left : ℕ → CopyState → ℕ
left at_most s =
    min (at_most - s.total) (min (length (rest s.pos0 s.it0)) (length (rest s.pos1 s.it1)))

abbrev pub Copies : ℕ → CopyState → Option (ℕ × Memory) → Type 0
Copies at_most s r =
    r
    ≡ some (
      s.total + left at_most s,
      pass s.mem (left at_most s) (rest s.pos1 s.it1) (rest s.pos0 s.it0),
    )

-- The bytes of a round and of the rounds after it are those of one pass.
pub pass-pass :
    (m : Memory) (a k : ℕ) (ds ss : List ℕ)
    → a ≤ length ds
    → a ≤ length ss
    → pass (pass m a ds ss) k (drop a ds) (drop a ss) ≡ pass m (a + k) ds ss
pass-pass m a k ds ss h l = sym (
    ap₂ (copy_bytes m) (take-add a k ds) (take-add a k ss)
    ∙ copy_bytes-append m (take a ds) (take k (drop a ds)) (take a ss) (take k (drop a ss))
        (omega (arith, length-take a ds, length-take a ss)))

-- Nothing is left to copy.
pub done :
    (at_most : ℕ) (s : CopyState) → left at_most s ≡ 0 → Copies at_most s (some (s.total, s.mem))
done at_most s e =
    ap₂ (λ n m. some (n, m)) {x = s.total} (let z = e in omega arith)
      (sym (copy_bytes_none s.mem (left at_most s) (rest s.pos1 s.it1) (rest s.pos0 s.it0) e))

length-rest :
    (b : BasicBuffer) (bs : BufferSequence) (pos : ℕ)
    → pos ≤ b.len
    → b.len - pos ≤ length (rest pos (b ∷ bs))
length-rest b bs pos h =
    omega (arith, length-drop pos (seq_addrs (b ∷ bs)), length-seq_addrs (b ∷ bs))

-- The rounds left: one for each buffer passed, and one for a last part of a buffer.
abbrev pub rounds : ℕ → CopyState → ℕ
rounds at_most s = length s.it0 + length s.it1 + min 1 (at_most - s.total)

-- A round, from a state that stands at the buffers `b` and `c` with room under the limit.
module _ (at_most : ℕ) (s : CopyState) (b : BasicBuffer) (bs : BufferSequence) (c : BasicBuffer)
    (cs : BufferSequence) (limit : at_most < size_mod) (room : s.total < at_most)
    (within0 : s.pos0 ≤ b.len) (within1 : s.pos1 ≤ c.len) (fits0 : total (b ∷ bs) < size_mod)
    (fits1 : total (c ∷ cs) < size_mod) where
  abbrev pub a : ℕ
  a = moved at_most s b bs c cs

  abbrev pub s' : CopyState
  s' = after at_most s b bs c cs

  next0 : Within s'.pos0 s'.it0 × (rest s'.pos0 s'.it0 ≡ drop a (rest s.pos0 (b ∷ bs)))
  next0 = next_lem b bs s.pos0 a within0 (omega arith) (omega arith)

  next1 : Within s'.pos1 s'.it1 × (rest s'.pos1 s'.it1 ≡ drop a (rest s.pos1 (c ∷ cs)))
  next1 = next_lem c cs s.pos1 a within1 (omega arith) (omega arith)

  pub after-Inv : Inv at_most s'
  after-Inv = record {
    limit = limit;
    below = omega arith;
    within0 = next0.0;
    within1 = next1.0;
    fits0 = omega (arith, total-next_it a (b.len - s.pos0) b bs);
    fits1 = omega (arith, total-next_it a (c.len - s.pos1) c cs);
  }

  pub rounds-after : rounds at_most s' < length bs + length cs + 3
  rounds-after =
      ground (arith, length-next_it a (b.len - s.pos0) b bs, length-next_it a (c.len - s.pos1) c cs)

  enough0 : a ≤ length (rest s.pos0 (b ∷ bs))
  enough0 = omega (arith, length-rest b bs s.pos0 within0)

  enough1 : a ≤ length (rest s.pos1 (c ∷ cs))
  enough1 = omega (arith, length-rest c cs s.pos1 within1)

  abbrev pub k : ℕ
  k = min (at_most - s.total) (min (length (rest s.pos0 (b ∷ bs))) (length (rest s.pos1 (c ∷ cs))))

  left-after : a + left at_most s' ≡ k
  left-after = omega (
    arith,
    ap length next0.1,
    ap length next1.1,
    length-drop a (rest s.pos0 (b ∷ bs)),
    length-drop a (rest s.pos1 (c ∷ cs)),
    enough0,
    enough1,
  )

  mem-after :
      pass s'.mem (left at_most s') (rest s'.pos1 s'.it1) (rest s'.pos0 s'.it0)
      ≡ pass s.mem k (rest s.pos1 (c ∷ cs)) (rest s.pos0 (b ∷ bs))
  mem-after =
      ap₂ (λ ds ss. pass s'.mem (left at_most s') ds ss) next1.1 next0.1
      ∙ ap₂
          (λ ds ss.
            pass (copy_bytes s.mem ds ss) (left at_most s') (drop a (rest s.pos1 (c ∷ cs)))
              (drop a (rest s.pos0 (b ∷ bs))))
          (sym (take-rest c cs s.pos1 a within1 (omega arith)))
          (sym (take-rest b bs s.pos0 a within0 (omega arith)))
      ∙ pass-pass s.mem a (left at_most s') (rest s.pos1 (c ∷ cs)) (rest s.pos0 (b ∷ bs)) enough1
          enough0
      ∙ ap (λ n. pass s.mem n (rest s.pos1 (c ∷ cs)) (rest s.pos0 (b ∷ bs))) left-after

  -- What is copied from the next state on, and the round, are one pass from here.
  pub Copies-after :
      (r : Option (ℕ × Memory))
      → Copies at_most s' r
      → r ≡ some (s.total + k, pass s.mem k (rest s.pos1 (c ∷ cs)) (rest s.pos0 (b ∷ bs)))
  Copies-after r e =
      e
      ∙ ap₂ (λ (n : ℕ) (m : Memory). some (n, m))
          (let l : s'.total + left at_most s' ≡ s.total + k = omega (arith, left-after) in l)
          mem-after
