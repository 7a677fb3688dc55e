-- ===== src/Flat/Laws.antt =====
-- What the operations of a flat buffer do to its readable and writable bytes.
use buffers.Prelude.{
  ℕ, ◌+◌, ◌-◌, ◌≤◌, ◌<◌, ◌≡◌, refl, sym, ap, ◌∙◌, List, [], ◌++◌, inl, inr, arith, ◌⊎◌, ltb,
  if◌then◌else◌, Bool-cases, ltb→lt, ltb→le, le→ltb, lt→ltb, take, drop, drop_all, min, size_mod,
  add_size, sub_size,
}
use native.Mathlib.Decide.{dec_lt}
use buffers.Error.{ok, throws, invalid_argument}
use buffers.Buffer.{MutableBuffer}
use buffers.Buffer.Region.{region, region_at, region-add, length-region, take-region, drop-region}
use buffers.Buffer.Laws.{addrs}
use buffers.Flat.{FlatBuffer, init, size, max_size, capacity, data_buffer, prepare, commit, consume}

pub record IsValid (f : FlatBuffer) : Type 0 where
  pub small : f.cap < size_mod
  pub held : f.in_pos + f.in_size + f.out_size ≤ f.cap

-- The readable bytes, and those that were prepared and are not committed.
abbrev pub readable : FlatBuffer → List ℕ
readable f = addrs (data_buffer f)

abbrev pub writable : FlatBuffer → List ℕ
writable f = region (f.base + f.in_pos + f.in_size) f.out_size

pub readable-region : (f : FlatBuffer) → readable f ≡ region (f.base + f.in_pos) f.in_size
unfolding data_buffer
readable-region f = refl

-- For a capacity that `std::size_t` holds, the constructor accepts an initial size up to it, which is readable at once; it throws
-- for any other.
init_lem :
    (base capacity initial_size : ℕ)
    → capacity < size_mod
    → ((initial_size ≤ capacity)
        × (f : FlatBuffer) × (init base capacity initial_size ≡ ok f)
        × IsValid f
        × (readable f ≡ region base initial_size))
      ⊎ ((capacity < initial_size) × (init base capacity initial_size ≡ throws invalid_argument))
unfolding init data_buffer
init_lem base capacity initial_size h = elim (dec_lt capacity initial_size) [
  | yes l ↦ inr (l, rw (lt→ltb capacity initial_size l))
  | no l ↦ inl (
    omega arith,
    record { base = base; cap = capacity; in_pos = 0; in_size = initial_size; out_size = 0 },
    rw (le→ltb capacity initial_size (omega arith)),
    omega arith,
    region_at (base + 0) base initial_size initial_size (omega arith) refl,
  )
]

prepare_throws :
    (f : FlatBuffer) (n : ℕ)
    → IsValid f
    → f.cap < f.in_pos + f.in_size + n
    → prepare f n ≡ throws invalid_argument
unfolding prepare
prepare_throws f n v l =
    rw (lt→ltb (sub_size f.cap (add_size f.in_pos f.in_size)) n (omega (arith, v)))

-- On a valid buffer `prepare` succeeds exactly where `n` bytes are free behind the readable ones: then it returns a
-- buffer over `n` writable bytes and leaves the readable bytes; for any other it throws.
pub prepare_lem :
    (f : FlatBuffer) (n : ℕ)
    → IsValid f
    → ((f.in_pos + f.in_size + n ≤ f.cap)
        × (f' : FlatBuffer) × (b : MutableBuffer) × (prepare f n ≡ ok (f', b))
        × IsValid f'
        × (addrs b ≡ writable f')
        × (b.len ≡ n)
        × (readable f' ≡ readable f))
      ⊎ ((f.cap < f.in_pos + f.in_size + n) × (prepare f n ≡ throws invalid_argument))
unfolding prepare data_buffer
prepare_lem f n v = elim (dec_lt f.cap (f.in_pos + f.in_size + n)) [
  | yes l ↦ inr (l, prepare_throws f n v l)
  | no l ↦ inl (
    omega arith,
    record f { out_size = n },
    _,
    rw (le→ltb (sub_size f.cap (add_size f.in_pos f.in_size)) n (omega (arith, v))),
    omega (arith, v),
    refl,
    refl,
    refl,
  )
]

-- On a valid buffer `commit` moves the first `n` writable bytes, all of them where there are fewer, to the end of the
-- readable ones, and drops the others.
pub data_buffer-commit :
    (f : FlatBuffer) (n : ℕ)
    → IsValid f
    → IsValid (commit f n)
      × (readable (commit f n) ≡ readable f ++ take n (writable f))
      × (writable (commit f n) ≡ [])
unfolding commit data_buffer
data_buffer-commit f n v = (
  ground (arith, v),
  ap (region (f.base + f.in_pos)) grown
      ∙ region-add (f.base + f.in_pos) f.in_size (min n f.out_size)
      ∙ ap (λ t. readable f ++ t) (sym (take-region n (f.base + f.in_pos + f.in_size) f.out_size)),
  refl,
)
  where
    grown :
        (if ltb n f.out_size then add_size f.in_size n else add_size f.in_size f.out_size)
        ≡ f.in_size + min n f.out_size
    grown = ground (arith, v)

-- On a valid buffer `consume` removes the first `n` readable bytes, all of them where there are fewer: then the whole
-- region is free again, and else as much as before.
pub data_buffer-consume :
    (f : FlatBuffer) (n : ℕ)
    → IsValid f
    → IsValid (consume f n)
      × (readable (consume f n) ≡ drop n (readable f))
      × (capacity (consume f n) ≡ (if ltb n f.in_size then capacity f else f.cap))
unfolding consume data_buffer capacity
data_buffer-consume f n v = elim (Bool-cases (ltb n f.in_size)) [
  | inl e ↦
      let l : n < f.in_size = ltb→lt n f.in_size e in
      rw e (
        omega (arith, v),
        region_at _ (f.base + f.in_pos + n) _ (f.in_size - n) (omega (arith, v)) (omega (arith, v))
            ∙ sym (drop-region n (f.base + f.in_pos) f.in_size),
        omega (arith, v),
      )
  | inr e ↦
      let l : f.in_size ≤ n = ltb→le n f.in_size e in
      rw e (
        omega (arith, v),
        sym (
            drop_all n (region (f.base + f.in_pos) f.in_size)
              (omega (arith, length-region (f.base + f.in_pos) f.in_size))),
        omega (arith, v),
      )
]

abbrev consumed : FlatBuffer → ℕ → FlatBuffer
consumed f n = record f { in_pos = f.in_pos + n; in_size = f.in_size - n }

consume_some : (f : FlatBuffer) (n : ℕ) → IsValid f → n < f.in_size → consume f n ≡ consumed f n
unfolding consume
consume_some f n v h = rw (lt→ltb n f.in_size h) (ground (arith, v))

-- `consume` of a part of the readable bytes leaves the prepared ones.
pub writable-consume :
    (f : FlatBuffer) (n : ℕ) → IsValid f → n < f.in_size → writable (consume f n) ≡ writable f
writable-consume f n v h =
    ap writable (consume_some f n v h)
    ∙ region_at _ (f.base + f.in_pos + f.in_size) _ f.out_size (omega (arith, v, h)) refl

-- After a part of the bytes of a valid buffer is consumed, but not all, `prepare` of all that `max_size()` leaves beside `size()`
-- throws, and what it throws is `invalid_argument`: the consumed bytes are not reclaimed.
pub prepare_after_consume :
    (f : FlatBuffer) (n : ℕ)
    → IsValid f
    → 0 < n
    → n < size f
    → prepare (consume f n) (max_size (consume f n) - size (consume f n)) ≡ throws invalid_argument
unfolding size max_size
prepare_after_consume f n v p q =
    rw (consume_some f n v q) (
      prepare_throws (consumed f n) (f.cap - (f.in_size - n)) (omega (arith, v)) (omega (arith, v)))

pub data_buffer-prepare :
    (f f' : FlatBuffer) (n : ℕ) (b : MutableBuffer)
    → prepare f n ≡ ok (f', b)
    → data_buffer f' ≡ data_buffer f
unfolding prepare data_buffer
data_buffer-prepare f f' n b h = ground arith
