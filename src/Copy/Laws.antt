-- ===== src/Copy/Laws.antt =====
-- What `copy` copies: in one pass the first bytes of the source to the first addresses of the
-- destination, as many as both and the limit allow.
use buffers.Prelude.{
  ℕ, zero, suc, ◌+◌, ◌<◌, ◌≤◌, min, ◌≡◌, refl, sym, ap, ap₂, ◌∙◌, [], ◌∷◌, some, none, inl, inr,
  arith, ltb, Bool-cases, ltb→lt, ltb→le, lt→ltb, le→ltb, length, length-drop, take, length-take,
  size_mod, map,
}
use mathlib.Core.Option.{some-injective}
use buffers.Buffer.{BasicBuffer}
use buffers.Sequence.{BufferSequence, Memory}
use buffers.Sequence.Laws.{seq_addrs, total, length-seq_addrs}
use buffers.Copy.{CopyState, step_at, round, copy_loop, copy}
use buffers.Copy.Bytes.{
  map-copy_bytes, copy_bytes-Avoids, Avoids, Distinct, Apart, Distinct-take, Apart-take,
}
use buffers.Copy.Loop.{Within-zero, round-after, after}
use buffers.Copy.Round.{
  Inv, pass, left, Copies, done, rounds, after-Inv, rounds-after, Copies-after,
}

abbrev state : ℕ → ℕ → ℕ → BufferSequence → BufferSequence → Memory → CopyState
state t p0 p1 it0 it1 m = record { total = t; pos0 = p0; pos1 = p1; it0 = it0; it1 = it1; mem = m }

step_at_more :
    (at_most : ℕ) (s : CopyState) (b : BasicBuffer) (bs : BufferSequence) (c : BasicBuffer)
    (cs : BufferSequence)
    → s.total < at_most
    → step_at at_most s (b ∷ bs) (c ∷ cs) ≡ some (round at_most s b bs c cs)
unfolding step_at
step_at_more at_most s b bs c cs h = rw (lt→ltb s.total at_most h)

step_at_end :
    (at_most : ℕ) (s : CopyState) (b : BasicBuffer) (bs : BufferSequence) (c : BasicBuffer)
    (cs : BufferSequence)
    → at_most ≤ s.total
    → step_at at_most s (b ∷ bs) (c ∷ cs) ≡ none
unfolding step_at
step_at_end at_most s b bs c cs h = rw (le→ltb s.total at_most h)

-- One round of the loop, at two buffers and below the limit.
copy_loop-round :
    (fuel at_most : ℕ) (s : CopyState) (b : BasicBuffer) (bs : BufferSequence) (c : BasicBuffer)
    (cs : BufferSequence) (e0 : s.it0 ≡ b ∷ bs) (e1 : s.it1 ≡ c ∷ cs)
    → s.total < at_most
    → copy_loop (suc fuel) at_most s ≡ copy_loop fuel at_most (round at_most s b bs c cs)
unfolding copy_loop
copy_loop-round fuel at_most s b bs c cs e0 e1 h = rw (e, copy_loop)
  where
    e : step_at at_most s s.it0 s.it1 ≡ some (round at_most s b bs c cs)
    e = ap₂ (step_at at_most s) e0 e1 ∙ step_at_more at_most s b bs c cs h

-- With a round of fuel for each buffer and two more, the loop ends and copies what is left.
copy_loop-Copies :
    (fuel at_most t p0 p1 : ℕ) (it0 it1 : BufferSequence) (m : Memory)
    → Inv at_most (state t p0 p1 it0 it1 m)
    → rounds at_most (state t p0 p1 it0 it1 m) < fuel
    → Copies at_most (state t p0 p1 it0 it1 m) (copy_loop fuel at_most (state t p0 p1 it0 it1 m))
unfolding copy_loop step_at
copy_loop-Copies zero at_most t p0 p1 it0 it1 m v h = absurd (omega arith)
copy_loop-Copies (suc fuel) at_most t p0 p1 [] it1 m v h =
    done at_most (state t p0 p1 [] it1 m) (omega (arith, length-drop {A = ℕ} p0 []))
copy_loop-Copies (suc fuel) at_most t p0 p1 (b ∷ bs) [] m v h =
    done at_most (state t p0 p1 (b ∷ bs) [] m) (omega (arith, length-drop {A = ℕ} p1 []))
copy_loop-Copies (suc fuel) at_most t p0 p1 (b ∷ bs) (c ∷ cs) m v h =
    elim (Bool-cases (ltb t at_most)) [
      | inr e ↦
          rw (step_at_end at_most s b bs c cs (ltb→le t at_most e), copy_loop)
            (done at_most s (let l : at_most ≤ t = ltb→le t at_most e in omega arith))
      | inl e ↦
          let room : t < at_most = ltb→lt t at_most e in
          copy_loop-round fuel at_most s b bs c cs refl refl room
          ∙ ap (copy_loop fuel at_most) (
              round-after at_most s b bs c cs v.within0 v.within1 (omega arith) (omega arith)
                v.limit v.below)
          ∙ Copies-after at_most s b bs c cs v.limit room v.within0 v.within1 v.fits0 v.fits1 _ (
              copy_loop-Copies fuel at_most (next room).total (next room).pos0 (next room).pos1
                (next room).it0 (next room).it1 (next room).mem
                (after-Inv at_most s b bs c cs v.limit room v.within0 v.within1 v.fits0 v.fits1)
                (omega (
                  arith,
                  rounds-after at_most s b bs c cs v.limit room v.within0 v.within1 v.fits0 v.fits1,
                )))
    ]
  where
    s : CopyState
    s = state t p0 p1 (b ∷ bs) (c ∷ cs) m

    next : t < at_most → CopyState
    next room = after at_most s b bs c cs

-- `copy` terminates, returns the least of the limit and both sizes, and leaves the memory in which
-- the first so many addresses of the destination took, in order, the bytes of the first so many
-- addresses of the source. It is stated of sequences whose sizes `std::size_t` holds.
pub copy-pass :
    (m : Memory) (dest src : BufferSequence) (at_most : ℕ)
    → total dest < size_mod
    → total src < size_mod
    → at_most < size_mod
    → let n = min at_most (min (total src) (total dest)) in
      copy m dest src at_most ≡ some (n, pass m n (seq_addrs dest) (seq_addrs src))
unfolding copy
copy-pass m dest src at_most h k l =
    copy_loop-Copies (length src + length dest + 2) at_most 0 0 0 src dest m
      (record {
        limit = l;
        below = omega arith;
        within0 = Within-zero src;
        within1 = Within-zero dest;
        fits0 = k;
        fits1 = h;
      })
      (omega arith)
    ∙ ap₂ (λ x y. some (x, pass m y (seq_addrs dest) (seq_addrs src)))
        (let e : 0 + n ≡ min at_most (min (total src) (total dest)) = omega (arith, sizes) in e)
        (omega (arith, sizes))
  where
    n : ℕ
    n = left at_most (state 0 0 0 src dest m)

    sizes : (length (seq_addrs src) ≡ total src) × (length (seq_addrs dest) ≡ total dest)
    sizes = (length-seq_addrs src, length-seq_addrs dest)

-- The same, of a result that is at hand.
copy_result :
    (m : Memory) (dest src : BufferSequence) (at_most n : ℕ) (m' : Memory)
    → total dest < size_mod
    → total src < size_mod
    → at_most < size_mod
    → copy m dest src at_most ≡ some (n, m')
    → (n ≡ min at_most (min (total src) (total dest)))
      × (m' ≡ pass m n (seq_addrs dest) (seq_addrs src))
copy_result m dest src at_most n m' h k l e =
    let c : ℕ = min at_most (min (total src) (total dest)) in
    let p : ℕ × Memory = (c, pass m c (seq_addrs dest) (seq_addrs src)) in
    let q : ℕ × Memory = (n, m') in
    let same : q ≡ p = some-injective q p (sym e ∙ copy-pass m dest src at_most h k l) in
    let count : n ≡ c = ap (λ (r : ℕ × Memory). r.0) same in
    (
      count,
      ap (λ (r : ℕ × Memory). r.1) same
          ∙ ap (λ x. pass m x (seq_addrs dest) (seq_addrs src)) (sym count),
    )

-- After a copy between sequences that do not overlap, into a destination without an address twice,
-- the destination holds, over the number of bytes returned, what the source held before; that
-- number is the least of the limit and the sizes of both.
map-copy :
    (m : Memory) (dest src : BufferSequence) (at_most n : ℕ) (m' : Memory)
    → total dest < size_mod
    → total src < size_mod
    → at_most < size_mod
    → Distinct (seq_addrs dest)
    → Apart (seq_addrs dest) (seq_addrs src)
    → copy m dest src at_most ≡ some (n, m')
    → (n ≡ min at_most (min (total src) (total dest)))
      × (map m' (take n (seq_addrs dest)) ≡ map m (take n (seq_addrs src)))
map-copy m dest src at_most n m' h k l d u e =
    let r = copy_result m dest src at_most n m' h k l e in
    (
      r.0,
      rw r.1 (
          map-copy_bytes m (take n (seq_addrs dest)) (take n (seq_addrs src))
            (omega (
              arith,
              r.0,
              length-take n (seq_addrs dest),
              length-take n (seq_addrs src),
              length-seq_addrs dest,
              length-seq_addrs src,
            ))
            (Distinct-take n (seq_addrs dest) d)
            (Apart-take n n (seq_addrs dest) (seq_addrs src) u)),
    )

-- `copy` writes nowhere but at the addresses of the destination that it counts.
pub copy-frame :
    (m : Memory) (dest src : BufferSequence) (at_most n : ℕ) (m' : Memory) (a : ℕ)
    → total dest < size_mod
    → total src < size_mod
    → at_most < size_mod
    → copy m dest src at_most ≡ some (n, m')
    → Avoids a (take n (seq_addrs dest))
    → m' a ≡ m a
copy-frame m dest src at_most n m' a h k l e u =
    rw ((copy_result m dest src at_most n m' h k l e).1)
      (copy_bytes-Avoids m (take n (seq_addrs dest)) (take n (seq_addrs src)) a u)
