-- ===== src/Copy/Loop.antt =====
-- One round of the copying loop, on the addresses that are left of both sequences.
use buffers.Prelude.{
  ℕ, ◌+◌, ◌-◌, ◌<◌, ◌≤◌, min, ◌≡◌, refl, sym, ap, ◌∙◌, List, [], ◌∷◌, ◌++◌, inl, inr, suc,
  if◌then◌else◌, arith, ◌==◌, Bool-cases, length, take, drop, drop_at, drop-append_in,
  drop-append_past, drop-drop, take-append_in, size_mod, add_size, sub_size, ◌≢◌,
}
use buffers.Buffer.{BasicBuffer, buffer, advance, advance_const}
use buffers.Buffer.Region.{region, length-region, take-region, drop-region}
use buffers.Buffer.Laws.{addrs}
use buffers.Sequence.{BufferSequence}
use buffers.Sequence.Laws.{seq_addrs, total}
use buffers.Copy.{CopyState, amount, next_pos, next_it, round}
use buffers.Copy.Bytes.{copy_bytes, memcpy-eq}

-- A position lies in the buffer that the iterator stands at.
abbrev pub Within : ℕ → BufferSequence → Type 0
Within pos [] = pos ≡ 0
Within pos (b ∷ bs) = pos ≤ b.len

pub Within-zero : (bs : BufferSequence) → Within 0 bs
Within-zero [] = refl
Within-zero (b ∷ bs) = omega arith

-- The addresses from a position on.
abbrev pub rest : ℕ → BufferSequence → List ℕ
rest pos it = drop pos (seq_addrs it)

drop-seq_addrs :
    (b : BasicBuffer) (bs : BufferSequence) (pos : ℕ)
    → pos ≤ b.len
    → rest pos (b ∷ bs) ≡ region (b.ptr + pos) (b.len - pos) ++ seq_addrs bs
drop-seq_addrs b bs pos h =
    drop-append_in pos (addrs b) (seq_addrs bs) (omega (arith, length-region b.ptr b.len))
    ∙ ap (λ t. t ++ seq_addrs bs) (drop-region pos b.ptr b.len)

-- The next bytes of a sequence stand together, up to the end of the buffer.
pub take-rest :
    (b : BasicBuffer) (bs : BufferSequence) (pos a : ℕ)
    → pos ≤ b.len
    → a ≤ b.len - pos
    → take a (rest pos (b ∷ bs)) ≡ region (b.ptr + pos) a
take-rest b bs pos a h k =
    ap (take a) (drop-seq_addrs b bs pos h)
    ∙ take-append_in a (region (b.ptr + pos) (b.len - pos)) (seq_addrs bs)
        (omega (arith, length-region (b.ptr + pos) (b.len - pos)))
    ∙ take-region a (b.ptr + pos) (b.len - pos)
    ∙ ap (region (b.ptr + pos)) (omega arith)

-- The iterator and position after a round stand `a` addresses further on.
module _ (b : BasicBuffer) (bs : BufferSequence) (pos a : ℕ) where
  pub next_lem :
      pos ≤ b.len
      → b.len < size_mod
      → a ≤ b.len - pos
      → let pos' = next_pos a (b.len - pos) pos in
        let it' = next_it a (b.len - pos) b bs in
        Within pos' it' × (rest pos' it' ≡ drop a (rest pos (b ∷ bs)))
  unfolding next_pos next_it
  next_lem h k l = elim (Bool-cases (a == (b.len - pos))) [
    | inl e ↦ rw e (Within-zero bs, sym (passed (let e' : a ≡ b.len - pos = ground arith in e')))
    | inr e ↦ rw e (
      (let ne : a ≢ b.len - pos = ground arith in omega arith),
      drop_at (seq_addrs (b ∷ bs)) (add_size pos a) (pos + a) (omega arith)
          ∙ sym (drop-drop a pos (seq_addrs (b ∷ bs))),
    )
  ]
    where
      passed : a ≡ b.len - pos → drop a (rest pos (b ∷ bs)) ≡ seq_addrs bs
      passed e =
          drop-drop a pos (seq_addrs (b ∷ bs))
          ∙ drop-append_past (pos + a) (addrs b) (seq_addrs bs) b.len (length-region b.ptr b.len)
              (omega arith)
          ∙ drop_at (seq_addrs bs) (pos + a - b.len) 0 (omega arith)

amount-min : (l0 l1 left : ℕ) → amount l0 l1 left ≡ min (min l0 l1) left
unfolding amount
amount-min l0 l1 left = ground arith

module _ (b : BasicBuffer) (pos : ℕ) (h : pos ≤ b.len) (k : b.len < size_mod) where
  advance-eq : advance b pos ≡ buffer (b.ptr + pos) (b.len - pos)
  unfolding advance
  advance-eq = ground arith

  advance_const-eq : advance_const b pos ≡ buffer (b.ptr + pos) (b.len - pos)
  unfolding advance_const
  advance_const-eq = ground arith

-- The loop never goes back, and passes a buffer that it has used up.
module _ (a l : ℕ) (b : BasicBuffer) (bs : BufferSequence) where
  pub total-next_it : total (next_it a l b bs) ≤ total (b ∷ bs)
  unfolding next_it
  total-next_it = ground arith

  pub length-next_it : length (next_it a l b bs) ≡ (if a == l then length bs else suc (length bs))
  unfolding next_it
  length-next_it = ground arith

-- What a round copies, and the state after it.
module _ (at_most : ℕ) (s : CopyState) (b : BasicBuffer) (bs : BufferSequence) (c : BasicBuffer)
    (cs : BufferSequence) where
  abbrev pub moved : ℕ
  moved = min (min (b.len - s.pos0) (c.len - s.pos1)) (at_most - s.total)

  abbrev pub after : CopyState
  after = record {
    total = s.total + moved;
    pos0 = next_pos moved (b.len - s.pos0) s.pos0;
    pos1 = next_pos moved (c.len - s.pos1) s.pos1;
    it0 = next_it moved (b.len - s.pos0) b bs;
    it1 = next_it moved (c.len - s.pos1) c cs;
    mem = copy_bytes s.mem (region (c.ptr + s.pos1) moved) (region (b.ptr + s.pos0) moved);
  }

-- A round copies the next bytes, as many as both buffers and the limit have left.
module _ (at_most : ℕ) (s : CopyState) (b : BasicBuffer) (bs : BufferSequence) (c : BasicBuffer)
    (cs : BufferSequence) (h0 : s.pos0 ≤ b.len) (h1 : s.pos1 ≤ c.len) (k0 : b.len < size_mod)
    (k1 : c.len < size_mod) (k : at_most < size_mod) (t : s.total ≤ at_most) where
  abbrev a : ℕ
  a = moved at_most s b bs c cs

  amount-moved : amount (b.len - s.pos0) (c.len - s.pos1) (sub_size at_most s.total) ≡ a
  amount-moved =
      amount-min (b.len - s.pos0) (c.len - s.pos1) (sub_size at_most s.total) ∙ omega arith

  pub round-after : round at_most s b bs c cs ≡ after at_most s b bs c cs
  unfolding round
  round-after =
      rw (advance_const-eq b s.pos0 h0 k0, advance-eq c s.pos1 h1 k1, amount-moved)
        (λ i. record (after at_most s b bs c cs) {
          total = sum i;
          mem = memcpy-eq s.mem (c.ptr + s.pos1) (b.ptr + s.pos0) a i;
        })
    where
      sum : add_size s.total a ≡ s.total + a
      sum = omega arith
