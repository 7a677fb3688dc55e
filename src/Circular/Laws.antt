-- ===== src/Circular/Laws.antt =====
-- What the operations of a circular buffer do to its readable and writable bytes.
use buffers.Prelude.{
  ℕ, ◌+◌, ◌-◌, ◌%◌, ◌≤◌, ◌<◌, ◌≡◌, refl, sym, ap, ap₂, ◌∙◌, [], ◌++◌, ◌⊎◌, append-nil, inl, inr,
  arith, ltb, leb, ◌==◌, if◌then◌else◌, Bool-cases, leb→le, leb→lt, le→ltb, lt→ltb, false, length,
  take, take-min, min, add_size, sub_size,
}
use native.Mathlib.Nat.{mod-lt}
use buffers.Error.{ok, throws, fault, invalid_argument, length_error}
use buffers.Buffer.Region.{region, region_at}
use buffers.Pair.{pair_sequence, mutable_pair_sequence, MutableBufferPair}
use buffers.Sequence.Laws.{seq_addrs}
use buffers.Circular.{
  CircularBuffer, data_buffers, out_buffers, mod_cap, prepare, commit, init_filled,
}
use buffers.Circular.Ring.{
  ring, ring_straight, ring_round, ring_mod, ring_add, take-ring, length-ring,
}
use native.Mathlib.Decide.{dec_lt}
use buffers.Circular.Inv.{IsValid, max_object, readable, writable}

-- On a valid buffer `data` returns two buffers that cover the readable bytes in order, also where
-- these go round the end of the region.
pub seq_addrs-data_buffers :
    (c : CircularBuffer) → IsValid c → seq_addrs (pair_sequence (data_buffers c)) ≡ readable c
unfolding data_buffers
seq_addrs-data_buffers c v = elim (Bool-cases (leb (add_size c.in_pos c.in_len) c.cap)) [
  | inl e ↦
      let h : add_size c.in_pos c.in_len ≤ c.cap = leb→le _ c.cap e in
      rw e (
        append-nil (region (c.base + c.in_pos) c.in_len)
        ∙ sym (ring_straight c.base c.cap c.in_pos c.in_len (omega (arith, v))))
  | inr e ↦
      let h : c.cap < add_size c.in_pos c.in_len = leb→lt _ c.cap e in
      rw e (
        ap₂ (λ n m. region (c.base + c.in_pos) n ++ (region c.base m ++ []))
          (let x : sub_size c.cap c.in_pos ≡ c.cap - c.in_pos = omega (arith, v) in x)
          (let x : sub_size c.in_len (sub_size c.cap c.in_pos) ≡ c.in_len - (c.cap - c.in_pos) =
              omega (arith, v) in
            x)
        ∙ ap (λ t. region (c.base + c.in_pos) (c.cap - c.in_pos) ++ t)
            (append-nil (region c.base (c.in_len - (c.cap - c.in_pos))))
        ∙ sym (
            ring_round c.base c.cap c.in_pos c.in_len (omega (arith, v)) (omega (arith, v))
              (omega (arith, v))))
]

out_buffers-ring :
    (c : CircularBuffer) (pos n : ℕ)
    → IsValid c
    → pos < c.cap
    → n ≤ c.cap
    → seq_addrs (mutable_pair_sequence (out_buffers c pos n)) ≡ ring c.base c.cap pos n
unfolding out_buffers
out_buffers-ring c pos n v p q = elim (Bool-cases (leb (add_size pos n) c.cap)) [
  | inl e ↦
      let h : add_size pos n ≤ c.cap = leb→le _ c.cap e in
      rw e (
        append-nil (region (c.base + pos) n)
        ∙ sym (ring_straight c.base c.cap pos n (omega (arith, v))))
  | inr e ↦
      let h : c.cap < add_size pos n = leb→lt _ c.cap e in
      rw e (
        ap₂ (λ a b. region (c.base + pos) a ++ (region c.base b ++ []))
          (let x : sub_size c.cap pos ≡ c.cap - pos = omega (arith, v) in x)
          (let x : sub_size n (sub_size c.cap pos) ≡ n - (c.cap - pos) = omega (arith, v) in x)
        ∙ ap (λ t. region (c.base + pos) (c.cap - pos) ++ t)
            (append-nil (region c.base (n - (c.cap - pos))))
        ∙ sym (ring_round c.base c.cap pos n (omega (arith, v)) q (omega (arith, v))))
]

-- On a valid buffer `commit` moves the first `n` writable bytes, all of them where there are fewer, to the end of the
-- readable ones, drops the others, and keeps the members in agreement.
pub readable-commit :
    (c : CircularBuffer) (n : ℕ)
    → IsValid c
    → IsValid (commit c n)
      × (readable (commit c n) ≡ readable c ++ take n (writable c))
      × (writable (commit c n) ≡ [])
unfolding commit
readable-commit c n v = (
  ground (arith, v),
  ap (λ k. ring c.base c.cap c.in_pos k) grown
      ∙ ring_add c.base c.cap c.in_pos c.in_len (min n c.out_size)
      ∙ ap (λ t. readable c ++ t)
          (sym (
              take-ring c.base c.cap (min n c.out_size) (c.in_pos + c.in_len) c.out_size
                (omega arith))
            ∙ take-min n c.out_size (writable c) (omega (arith, all))),
  refl,
)
  where
    grown :
        (if ltb n c.out_size then add_size c.in_len n else add_size c.in_len c.out_size)
        ≡ c.in_len + min n c.out_size
    grown = ground (arith, v)

    all : length (writable c) ≡ c.out_size
    all = length-ring c.base c.cap (c.in_pos + c.in_len) c.out_size (omega (arith, v))

pub mod_cap-ok : (c : CircularBuffer) (x : ℕ) → 0 < c.cap → mod_cap c x ≡ ok (x % c.cap)
unfolding mod_cap
mod_cap-ok c x h = rw (let e : (c.cap == 0) ≡ false = ground arith in e)

prepare_too_much :
    (c : CircularBuffer) (n : ℕ)
    → IsValid c
    → c.cap < c.in_len + n
    → prepare c n ≡ throws length_error
unfolding prepare
prepare_too_much c n v h = rw (lt→ltb (sub_size c.cap c.in_len) n (omega (arith, v)))

prepare_ok :
    (c : CircularBuffer) (n : ℕ)
    → IsValid c
    → 0 < c.cap
    → c.in_len + n ≤ c.cap
    → (c' : CircularBuffer) × (bs : MutableBufferPair) × (prepare c n ≡ ok (c', bs))
      × IsValid c'
      × (seq_addrs (mutable_pair_sequence bs) ≡ writable c')
      × (length (writable c') ≡ n)
      × (readable c' ≡ readable c)
unfolding prepare
prepare_ok c n v p h = (
  record c { out_size = n },
  out_buffers c pos n,
  rw (le→ltb (sub_size c.cap c.in_len) n (omega (arith, v)), mod_cap-ok c x p),
  omega (arith, v),
  out_buffers-ring c pos n v (mod-lt x p) (omega arith)
      ∙ ap (λ y. ring c.base c.cap (y % c.cap) n) sum
      ∙ ring_mod c.base c.cap (c.in_pos + c.in_len) n (omega (arith, v)) (omega (arith, v)),
  length-ring c.base c.cap (c.in_pos + c.in_len) n (omega (arith, v)),
  refl,
)
  where
    x : ℕ
    x = add_size c.in_pos c.in_len

    pos : ℕ
    pos = x % c.cap

    sum : x ≡ c.in_pos + c.in_len
    sum = omega (arith, v)

prepare_without_capacity : (c : CircularBuffer) → IsValid c → c.cap ≡ 0 → prepare c 0 ≡ fault
unfolding prepare mod_cap
prepare_without_capacity c v e = ground (arith, v)

-- On a valid buffer `prepare` of more than the free bytes throws. Of no more it succeeds on a buffer with a capacity:
-- it returns buffers that cover `n` writable bytes in order, and the readable bytes stay. On a
-- buffer without capacity `prepare(0)` divides by zero.
pub readable-prepare :
    (c : CircularBuffer) (n : ℕ)
    → IsValid c
    → ((c.cap < c.in_len + n) × (prepare c n ≡ throws length_error))
      ⊎ ((0 < c.cap)
          × (c.in_len + n ≤ c.cap)
          × (c' : CircularBuffer) × (bs : MutableBufferPair) × (prepare c n ≡ ok (c', bs))
          × IsValid c'
          × (seq_addrs (mutable_pair_sequence bs) ≡ writable c')
          × (length (writable c') ≡ n)
          × (readable c' ≡ readable c))
      ⊎ ((c.cap ≡ 0) × (n ≡ 0) × (prepare c n ≡ fault))
readable-prepare c n v = elim (dec_lt c.cap (c.in_len + n)) [
  | yes l ↦ inl (l, prepare_too_much c n v l)
  | no l ↦ elim (dec_lt 0 c.cap) [
    | yes p ↦
        let (c', bs, r0, r1, r2, r3, r4) = prepare_ok c n v p (omega arith) in
        inr (inl (p, omega arith, c', bs, r0, r1, r2, r3, r4))
    | no p ↦
        let z : n ≡ 0 = omega arith in
        inr (inr (omega arith, z, ap (prepare c) z ∙ prepare_without_capacity c v (omega arith)))
  ]
]

-- The constructor with an initial size accepts up to the capacity, of at most 2^63 bytes: the buffer
-- is valid and its readable bytes are the first of the region. It throws for any other size.
init_filled_lem :
    (base capacity initial_size : ℕ)
    → capacity ≤ max_object
    → ((initial_size ≤ capacity)
        × (c : CircularBuffer) × (init_filled base capacity initial_size ≡ ok c)
        × IsValid c
        × (readable c ≡ region base initial_size))
      ⊎ ((capacity < initial_size)
          × (init_filled base capacity initial_size ≡ throws invalid_argument))
unfolding init_filled
init_filled_lem base capacity initial_size h = elim (dec_lt capacity initial_size) [
  | yes l ↦ inr (l, rw (lt→ltb capacity initial_size l))
  | no l ↦ inl (
    omega arith,
    record { base = base; cap = capacity; in_pos = 0; in_len = initial_size; out_size = 0 },
    rw (le→ltb capacity initial_size (omega arith)),
    omega arith,
    ring_straight base capacity 0 initial_size (omega arith)
        ∙ region_at (base + 0) base initial_size initial_size (omega arith) refl,
  )
]
