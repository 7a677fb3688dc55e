-- ===== src/Slice/Inv.antt =====
-- What a slice covers, and when its members agree with one another.
use buffers.Prelude.{
  ℕ, ◌+◌, ◌-◌, ◌<◌, ◌≤◌, ◌≡◌, refl, List, [], ◌∷◌, ◌++◌, ◌⊎◌, arith, length, length-take,
  length-drop, take, drop, size_mod,
}
use buffers.Buffer.{BasicBuffer}
use buffers.Sequence.{BufferSequence}
use buffers.Sequence.Laws.{seq_addrs, total, length-seq_addrs}
use buffers.Slice.{SliceOf}
use buffers.Slice.Window.{window, total-window-le}

abbrev pub win : SliceOf → BufferSequence
win s = window s.bs s.begin s.end

-- The addresses that the members denote.
abbrev pub view : SliceOf → List ℕ
view s = take s.size (drop s.prefix (seq_addrs (win s)))

-- At most `k` bytes of the first buffer, of the last.
abbrev pub Front : ℕ → BufferSequence → Type 0
Front k [] = k ≡ 0
Front k (x ∷ xs) = k ≤ x.len

abbrev pub Back : ℕ → BufferSequence → Type 0
Back k [] = k ≡ 0
Back k (x ∷ []) = k ≤ x.len
Back k (x ∷ y ∷ ys) = Back k (y ∷ ys)

pub Front-zero : (xs : BufferSequence) → Front 0 xs
Front-zero [] = refl
Front-zero (x ∷ xs) = omega arith

pub Back-zero : (xs : BufferSequence) → Back 0 xs
Back-zero [] = refl
Back-zero (x ∷ []) = omega arith
Back-zero (x ∷ y ∷ ys) = Back-zero (y ∷ ys)

pub Back-tail :
    (k : ℕ) (x : BasicBuffer) (xs : BufferSequence) → Back k (x ∷ xs) → k ≤ total xs → Back k xs
Back-tail k x [] h l = omega arith
Back-tail k x (y ∷ ys) h l = h

pub Back-snoc : (k : ℕ) (xs : BufferSequence) (x : BasicBuffer) → k ≤ x.len → Back k (xs ++ x ∷ [])
Back-snoc k [] x h = h
Back-snoc k (y ∷ []) x h = h
Back-snoc k (y ∷ z ∷ zs) x h = Back-snoc k (z ∷ zs) x h

pub Front-init :
    (k : ℕ) (xs : BufferSequence) (x : BasicBuffer)
    → Front k (xs ++ x ∷ [])
    → 0 < length xs
    → Front k xs
Front-init k [] x h l = elim l [ ]
Front-init k (y ∷ ys) x h l = h

-- The positions lie in the sequence, `len_` counts the buffers between them, `size_` is what the
-- dropped bytes leave of theirs, and the bytes dropped at an end lie in the buffer there.
pub record IsValid (s : SliceOf) : Type 0 where
  pub fits : total s.bs < size_mod
  pub short : length s.bs < size_mod
  pub ordered : s.begin ≤ s.end
  pub inside : s.end ≤ length s.bs
  pub counted : s.len ≡ s.end - s.begin
  pub sum : s.size + s.prefix + s.suffix ≡ total (win s)
  pub front : Front s.prefix (win s)
  pub back : Back s.suffix (win s)

-- The positions have met, and no bytes are counted: an algorithm finds no buffer.
pub record IsEmpty (s : SliceOf) : Type 0 where
  pub met : s.begin ≡ s.end
  pub none_counted : s.len ≡ 0
  pub no_bytes : s.size ≡ 0

-- A slice that an algorithm can iterate.
abbrev pub IsReadable : SliceOf → Type 0
IsReadable s = IsValid s ⊎ IsEmpty s

pub size-lt : (s : SliceOf) → IsValid s → s.size + s.prefix + s.suffix < size_mod
size-lt s v = omega (arith, v.sum, total-window-le s.bs s.begin s.end, v.fits)

pub length-view : (s : SliceOf) → IsValid s → length (view s) ≡ s.size
length-view s v = omega (
  arith,
  length-take s.size (drop s.prefix (seq_addrs (win s))),
  length-drop s.prefix (seq_addrs (win s)),
  length-seq_addrs (win s),
  v.sum,
)
