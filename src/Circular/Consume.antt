-- ===== src/Circular/Consume.antt =====
-- `consume` removes the oldest readable bytes and leaves the prepared ones where they are.
use buffers.Prelude.{
  ℕ, ◌+◌, ◌-◌, ◌%◌, ◌≤◌, ◌<◌, ◌≡◌, ◌≢◌, sym, ap, ◌∙◌, [], inl, inr, arith, ◌==◌, le→ltb, lt→ltb,
  false, true, drop, drop_all, add_size, sub_size,
}
use native.Mathlib.Decide.{dec_lt, ℕ_discrete}
use native.Mathlib.Nat.{mod-lt}
use buffers.Error.{ok}
use buffers.Circular.{CircularBuffer, consume}
use buffers.Circular.Ring.{ring, ring_lap, ring_mod, drop-ring, length-ring, mod_once}
use buffers.Circular.Inv.{IsValid, readable, writable}
use buffers.Circular.Laws.{mod_cap-ok}

-- `k` bytes further on, with `m` left.
abbrev moved : CircularBuffer → ℕ → ℕ → CircularBuffer
moved c k m = record c { in_pos = (c.in_pos + k) % c.cap; in_len = m }

module _ (c : CircularBuffer) (k m : ℕ) (v : IsValid c) (p : 0 < c.cap) (h : k ≤ c.in_len)
    (e : m ≡ c.in_len - k) where
  once : c.in_pos + k < c.cap + c.cap
  once = omega (arith, v)

  moved-IsValid : IsValid (moved c k m)
  moved-IsValid = record {
    small = v.small;
    placed = omega (arith, mod-lt (c.in_pos + k) p);
    held = omega (arith, v);
  }

  readable-moved : readable (moved c k m) ≡ drop k (readable c)
  readable-moved =
      ring_mod c.base c.cap (c.in_pos + k) m once (omega (arith, v))
      ∙ ap (ring c.base c.cap (c.in_pos + k)) e
      ∙ sym (drop-ring c.base c.cap k c.in_pos c.in_len h)

  writable-moved : writable (moved c k m) ≡ writable c
  writable-moved = elim (mod_once (c.in_pos + k) c.cap once) [
    | inl (l, f) ↦
        ap (λ q. ring c.base c.cap q c.out_size)
          (let x : (c.in_pos + k) % c.cap + m ≡ c.in_pos + c.in_len = omega (arith, f, e, h) in x)
    | inr (l, f) ↦
        ap (λ q. ring c.base c.cap q c.out_size)
          (let x : (c.in_pos + k) % c.cap + m ≡ c.in_pos + c.in_len - c.cap =
              omega (arith, f, e, h, l) in
            x)
        ∙ sym (
            ring_lap c.base c.cap (c.in_pos + c.in_len) c.out_size (omega arith) (omega (arith, v)))
  ]

-- The cases of `consume`.
consume_some :
    (c : CircularBuffer) (n : ℕ)
    → IsValid c
    → n < c.in_len
    → consume c n ≡ ok (moved c n (sub_size c.in_len n))
unfolding consume
consume_some c n v h =
    rw (lt→ltb n c.in_len h, mod_cap-ok c (add_size c.in_pos n) (omega (arith, v)))
      (ap (λ q. ok (record c { in_pos = q % c.cap; in_len = sub_size c.in_len n }))
        (omega (arith, v)))

consume_all_prepared :
    (c : CircularBuffer) (n : ℕ)
    → IsValid c
    → c.in_len ≤ n
    → c.out_size ≢ 0
    → consume c n ≡ ok (moved c c.in_len 0)
unfolding consume
consume_all_prepared c n v h ne =
    rw (le→ltb n c.in_len h, prepared, mod_cap-ok c (add_size c.in_pos c.in_len) (omega (arith, v)))
      (ap (λ q. ok (record c { in_pos = q % c.cap; in_len = 0 })) (omega (arith, v)))
  where
    prepared : (c.out_size == 0) ≡ false
    prepared = ground arith

consume_all :
    (c : CircularBuffer) (n : ℕ)
    → c.in_len ≤ n
    → c.out_size ≡ 0
    → consume c n ≡ ok (record c { in_pos = 0; in_len = 0 })
unfolding consume
consume_all c n h e = rw (le→ltb n c.in_len h, none_prepared)
  where
    none_prepared : (c.out_size == 0) ≡ true
    none_prepared = ground arith

-- `consume` on a valid buffer never divides by zero. It removes the first `n` readable bytes, all of
-- them where there are fewer, and the prepared bytes stay where `prepare` said they were.
pub consume-drop :
    (c : CircularBuffer) (n : ℕ)
    → IsValid c
    → (c' : CircularBuffer) × (consume c n ≡ ok c')
      × IsValid c'
      × (readable c' ≡ drop n (readable c))
      × (writable c' ≡ writable c)
consume-drop c n v = elim (dec_lt n c.in_len) [
  | yes l ↦
      let m : ℕ = sub_size c.in_len n in
      let e : m ≡ c.in_len - n = omega (arith, v) in
      (
        moved c n m,
        consume_some c n v l,
        moved-IsValid c n m v (omega (arith, v)) (omega arith) e,
        readable-moved c n m v (omega (arith, v)) (omega arith) e,
        writable-moved c n m v (omega (arith, v)) (omega arith) e,
      )
  | no l ↦ elim (ℕ_discrete c.out_size 0) [
    | yes e ↦ (
      record c { in_pos = 0; in_len = 0 },
      consume_all c n (omega arith) e,
      omega (arith, v),
      sym (gone (omega arith)),
      ap (λ k. ring c.base c.cap 0 k) e
          ∙ sym (ap (λ k. ring c.base c.cap (c.in_pos + c.in_len) k) e),
    )
    | no ne ↦
        let p : 0 < c.cap = omega (arith, v) in
        let z : 0 ≡ c.in_len - c.in_len = omega arith in
        (
          moved c c.in_len 0,
          consume_all_prepared c n v (omega arith) ne,
          moved-IsValid c c.in_len 0 v p (omega arith) z,
          sym (gone (omega arith)),
          writable-moved c c.in_len 0 v p (omega arith) z,
        )
  ]
]
  where
    gone : c.in_len ≤ n → drop n (readable c) ≡ []
    gone h =
        drop_all n (readable c)
          (omega (arith, length-ring c.base c.cap c.in_pos c.in_len (omega (arith, v))))
