-- ===== src/Copy.antt =====
-- include/boost/buffers/copy.hpp: copying between two buffer sequences in a memory. A write is
-- modelled at its address, so buffers may overlap or alias one another.
pub mod Bytes
pub mod Distinct
pub mod Loop
pub mod Round
pub mod Spans
pub mod Laws
mod Tests
use buffers.Prelude.{
  ℕ, zero, suc, ◌+◌, Bool, List, [], ◌∷◌, Option, none, some, ltb, ◌==◌, if◌then◌else◌, length,
  add_size, sub_size, size_max,
}
use buffers.Buffer.{BasicBuffer, advance, advance_const}
use buffers.Sequence.{BufferSequence, Memory}
use Bytes.{memcpy}

-- The variables of the loop: the two iterators as the buffers that they have not passed, the
-- positions `pos0` and `pos1` in the buffers that they stand at, and the memory.
pub record CopyState : Type 0 where
  pub total : ℕ
  pub pos0 : ℕ
  pub pos1 : ℕ
  pub it0 : BufferSequence
  pub it1 : BufferSequence
  pub mem : Memory

-- The lambda's `n`: what is left of both buffers and of `at_most`.
amount : ℕ → ℕ → ℕ → ℕ
amount l0 l1 left = let n = if ltb l1 l0 then l1 else l0 in if ltb left n then left else n

-- `++it; pos = 0`, or `pos += amount`
pub next_pos : ℕ → ℕ → ℕ → ℕ
next_pos a l pos = if a == l then 0 else add_size pos a

pub next_it : ℕ → ℕ → BasicBuffer → BufferSequence → BufferSequence
next_it a l b bs = if a == l then bs else (b ∷ bs)

-- One round of the loop, at the buffers `*it0` and `*it1`.
pub round : ℕ → CopyState → BasicBuffer → BufferSequence → BasicBuffer → BufferSequence → CopyState
round at_most s b bs c cs =
    let b0 = advance_const b s.pos0 in
    let b1 = advance c s.pos1 in
    let a = amount b0.len b1.len (sub_size at_most s.total) in
    record {
      total = add_size s.total a;
      pos0 = next_pos a b0.len s.pos0;
      pos1 = next_pos a b1.len s.pos1;
      it0 = next_it a b0.len b bs;
      it1 = next_it a b1.len c cs;
      mem = if a == 0 then s.mem else memcpy s.mem b1.ptr b0.ptr a;
    }

-- The loop's test with the iterators in sight, and the next state.
step_at : ℕ → CopyState → BufferSequence → BufferSequence → Option CopyState
step_at at_most s [] cs = none
step_at at_most s (b ∷ bs) [] = none
step_at at_most s (b ∷ bs) (c ∷ cs) =
    if ltb s.total at_most then some (round at_most s b bs c cs) else none

-- `none`: the fuel ran out.
copy_loop : ℕ → ℕ → CopyState → Option (ℕ × Memory)
copy_loop zero at_most s = none
copy_loop (suc fuel) at_most s = elim (step_at at_most s s.it0 s.it1) [
  | none ↦ some (s.total, s.mem)
  | some s' ↦ copy_loop fuel at_most s'
]

-- `copy(dest, src, at_most)`: the number of bytes copied, and the memory after.
pub copy : Memory → BufferSequence → BufferSequence → ℕ → Option (ℕ × Memory)
copy m dest src at_most =
    copy_loop (length src + length dest + 2) at_most
      (record { total = 0; pos0 = 0; pos1 = 0; it0 = src; it1 = dest; mem = m })
