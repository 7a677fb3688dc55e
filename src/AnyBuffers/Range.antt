-- ===== src/AnyBuffers/Range.antt =====
-- A type of buffer sequences with its iterators, as the bidirectional ranges that
-- `is_const_buffer_sequence` accepts.
use buffers.Prelude.{
  ℕ, ap, suc, ◌≤◌, ◌<◌, ◌≡◌, refl, Bool, Option, ◌==◌, length, get_elem?, ◌-◌, arith,
}
use buffers.Buffer.{BasicBuffer}
use buffers.Sequence.{BufferSequence}

-- The laws are those of a range: its iterators are the places from the first buffer to past the
-- last, `++` and `--` go from one to its neighbour, and `*` is the buffer at a place. The sizes are
-- `sizeof(impl<T>)` and that of an iterator.
pub record SequenceType : Type 1 where
  pub Seq : Type 0
  pub sizeof_impl : ℕ
  pub sizeof_iter : ℕ
  pub Iter : Type 0
  pub begin : Seq → Iter
  pub end : Seq → Iter
  pub inc : Iter → Iter
  pub dec : Iter → Iter
  pub deref : Iter → Option BasicBuffer
  pub equal : Iter → Iter → Bool
  pub visits : Seq → BufferSequence
  pub place : Seq → ℕ → Iter
  pub begin-place : (s : Seq) → begin s ≡ place s 0
  pub end-place : (s : Seq) → end s ≡ place s (length (visits s))
  pub inc-place : (s : Seq) (i : ℕ) → i < length (visits s) → inc (place s i) ≡ place s (suc i)
  pub dec-place : (s : Seq) (i : ℕ) → i < length (visits s) → dec (place s (suc i)) ≡ place s i
  pub deref-place :
      (s : Seq) (i : ℕ) → i < length (visits s) → deref (place s i) ≡ get_elem? (visits s) i
  pub equal-place :
      (s : Seq) (i j : ℕ)
      → i ≤ length (visits s)
      → j ≤ length (visits s)
      → equal (place s i) (place s j) ≡ (i == j)

pub place_before : (s : BufferSequence) (i : ℕ) → ◌≡◌ {A = BufferSequence × ℕ} (s, suc i - 1) (s, i)
place_before s i = ap (λ (k : ℕ). (s, k)) (omega arith)

-- A list of buffers, whose iterators are the list with a position, with the sizes that are given.
abbrev pub list_sequence : ℕ → ℕ → SequenceType
list_sequence impl_bytes iter_bytes = record {
  Seq = BufferSequence;
  sizeof_impl = impl_bytes;
  sizeof_iter = iter_bytes;
  Iter = BufferSequence × ℕ;
  begin = λ s. (s, 0);
  end = λ s. (s, length s);
  inc = λ p. (p.0, suc p.1);
  dec = λ p. (p.0, p.1 - 1);
  deref = λ p. get_elem? p.0 p.1;
  equal = λ p q. p.1 == q.1;
  visits = λ s. s;
  place = λ s i. (s, i);
  begin-place = λ s. refl;
  end-place = λ s. refl;
  inc-place = λ s i h. refl;
  dec-place = λ s i h. place_before s i;
  deref-place = λ s i h. refl;
  equal-place = λ s i j h k. refl;
}
