-- ===== src/Sequence/Laws.antt =====
-- What a sequence covers, and that the algorithms compute it.
use buffers.Prelude.{
  ℕ, zero, suc, ◌+◌, ◌-◌, ◌%◌, ◌<◌, ◌≤◌, ◌≡◌, refl, ap, ◌∙◌, List, [], ◌∷◌, ◌++◌, map, some, arith,
  append-nil, list_laws, length, length-append, size_mod, add_size, sym,
}
use buffers.Buffer.Region.{length-region}
use buffers.Buffer.Laws.{addrs}
use buffers.Sequence.{
  BufferSequence, Memory, bytes, size, size_from, length_by_count, sequence_length, to_string,
  to_string_from,
}

-- The addresses of a sequence, in order.
abbrev pub seq_addrs : BufferSequence → List ℕ
seq_addrs [] = []
seq_addrs (b ∷ bs) = addrs b ++ seq_addrs bs

-- The number of bytes, which may exceed what `std::size_t` holds.
abbrev pub total : BufferSequence → ℕ
total [] = 0
total (b ∷ bs) = b.len + total bs

pub length-seq_addrs : (bs : BufferSequence) → length (seq_addrs bs) ≡ total bs
length-seq_addrs [] = refl
length-seq_addrs (b ∷ bs) =
    omega (
      arith,
      length-append (addrs b) (seq_addrs bs),
      length-region b.ptr b.len,
      length-seq_addrs bs,
    )

pub seq_addrs-append :
    (bs cs : BufferSequence) → seq_addrs (bs ++ cs) ≡ seq_addrs bs ++ seq_addrs cs
seq_addrs-append [] cs = refl
seq_addrs-append (b ∷ bs) cs = simp list_laws (ap (λ t. addrs b ++ t) (seq_addrs-append bs cs))

pub total-append : (bs cs : BufferSequence) → total (bs ++ cs) ≡ total bs + total cs
total-append [] cs = omega arith
total-append (b ∷ bs) cs = omega (arith, total-append bs cs)

size_from-total :
    (n : ℕ) (bs : BufferSequence) → n < size_mod → size_from n bs ≡ (n + total bs) % size_mod
unfolding size_from
size_from-total n [] h = omega arith
size_from-total n (b ∷ bs) h = omega (arith, size_from-total (add_size n b.len) bs (omega arith))

-- `size` is the number of addresses that the sequence covers, modulo 2^64: it is exact for every
-- sequence that fits in the address space.
pub size-length : (bs : BufferSequence) → size bs ≡ length (seq_addrs bs) % size_mod
unfolding size
size-length bs = omega (arith, size_from-total 0 bs (omega arith), length-seq_addrs bs)

pub size-total : (bs : BufferSequence) → total bs < size_mod → size bs ≡ total bs
size-total bs h = omega (arith, size-length bs, length-seq_addrs bs)

length_by_count-eq :
    (fuel first last n : ℕ)
    → first ≤ last
    → last - first < fuel
    → n + (last - first) < size_mod
    → length_by_count fuel first last n ≡ some (n + (last - first))
unfolding length_by_count
length_by_count-eq zero first last n h f b = absurd (omega arith)
length_by_count-eq (suc fuel) first last n h f b =
    ground (arith, length_by_count-eq fuel (first + 1) last (add_size n 1))

-- Both ways to measure the distance of two iterators agree, given a round of fuel for each
-- position between them and one more, and `length` is the number of buffers of the sequence.
pub length_agree :
    (bs : BufferSequence)
    → length bs < size_mod
    → (sequence_length bs ≡ length bs)
      × (length_by_count (suc (length bs)) 0 (length bs) 0 ≡ some (sequence_length bs))
unfolding sequence_length
length_agree bs h = (
  omega arith,
  length_by_count-eq (suc (length bs)) 0 (length bs) 0 (omega arith) (omega arith) (omega arith)
      ∙ ap some (omega arith),
)

to_string_from-append :
    (m : Memory) (s : List ℕ) (bs : BufferSequence)
    → to_string_from m s bs ≡ s ++ map m (seq_addrs bs)
unfolding to_string_from
to_string_from-append m s [] = sym (append-nil s)
to_string_from-append m s (b ∷ bs) = to_string_from-append m (s ++ bytes m b) bs ∙ simp list_laws

-- `to_string` returns the bytes at the addresses of the sequence, in order, none left out.
pub to_string-map : (m : Memory) (bs : BufferSequence) → to_string m bs ≡ map m (seq_addrs bs)
unfolding to_string
to_string-map m bs = to_string_from-append m [] bs
