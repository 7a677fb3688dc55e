-- ===== src/StringBuffer/Laws.antt =====
-- What the operations of a string buffer do to its readable characters.
use buffers.Prelude.{
  ℕ, zero, suc, ◌+◌, ◌-◌, ◌≤◌, ◌<◌, ◌≡◌, refl, sym, ap, ◌∙◌, List, ◌++◌, some, inl, inr, arith,
  tests, ltb, Bool-cases, ◌⊎◌, lt→ltb, ltb→le, le→ltb, length, length-append, length-take,
  length-drop, take, drop, take_at, take_all, take-append_in, take-append_past, take-take,
  take-drop, drop_all, min, if◌then◌else◌, size_mod, add_size, sub_size,
}
use native.Mathlib.Decide.{dec_lt}
use buffers.Error.{ok, throws, invalid_argument}
use buffers.StringBuffer.{
  StringBuffer, init, replicate, resize, grow, on_string, overwrite, data_chars, prepare, commit,
  consume, fill,
}

length-replicate : (n a : ℕ) → length (replicate n a) ≡ n
length-replicate zero a = refl
length-replicate (suc n) a = ap suc (length-replicate n a)

length-resize : (s : List ℕ) (n : ℕ) → length (resize s n) ≡ n
length-resize s n = omega (
  arith,
  length-append (take n s) (replicate (n - length s) 0),
  length-take n s,
  length-replicate (n - length s) 0,
)

-- The buffer refers to the string `s`, and its members agree.
pub record IsValid (b : StringBuffer) (s : List ℕ) : Type 0 where
  pub string : b.string ≡ some s
  pub small : b.max_size < size_mod
  pub held : b.in_size + b.out_size ≤ length s
  pub bounded : b.in_size + b.out_size ≤ b.max_size

length-cut : (s : List ℕ) (n : ℕ) → length (if ltb n (length s) then resize s n else s) ≤ n
length-cut s n = elim (Bool-cases (ltb n (length s))) [
  | inl e ↦ rw e (omega (arith, length-resize s n))
  | inr e ↦ rw e (omega tests)
]

-- A new buffer is valid, of the string that it cut to its own `max_size`.
pub init-IsValid :
    (s : List ℕ) (limit max_size : ℕ)
    → limit < size_mod
    → (s' : List ℕ) × IsValid (init s limit max_size) s'
unfolding init
init-IsValid s limit max_size h =
    let max : ℕ = if ltb limit max_size then limit else max_size in
    (
      if ltb max (length s) then resize s max else s,
      record {
        string = refl;
        small = ground (arith, h);
        held = omega arith;
        bounded = omega (arith, length-cut s max);
      },
    )

-- Growing a string keeps what it holds.
take-resize : (s : List ℕ) (k n : ℕ) → k ≤ length s → k ≤ n → take k (resize s n) ≡ take k s
take-resize s k n h l =
    take-append_in k (take n s) (replicate (n - length s) 0) (omega (arith, length-take n s))
    ∙ take-take k n s
    ∙ take_at s (min k n) k (omega arith)

grow_lem :
    (s : List ℕ) (k n : ℕ)
    → k ≤ length s
    → k ≤ n
    → (n ≤ length (grow n s)) × (take k (grow n s) ≡ take k s)
grow_lem s k n h l = elim (Bool-cases (ltb (length s) n)) [
  | inl e ↦ rw e (omega (arith, length-resize s n), take-resize s k n h l)
  | inr e ↦ rw e (ltb→le (length s) n e, refl)
]

prepare_ok :
    (b : StringBuffer) (s : List ℕ) (n : ℕ)
    → IsValid b s
    → b.in_size + n ≤ b.max_size
    → (b' : StringBuffer) × (s' : List ℕ) × (prepare b n ≡ ok (b', b.in_size, n))
      × IsValid b' s'
      × (b'.in_size ≡ b.in_size)
      × (b'.out_size ≡ n)
      × (data_chars b' ≡ data_chars b)
unfolding prepare data_chars
prepare_ok b s n v h = (
  record b { string = some (grow (add_size b.in_size n) s); out_size = n },
  grow (add_size b.in_size n) s,
  rw (le→ltb (sub_size b.max_size b.in_size) n (omega (arith, v.small)), v.string),
  record { string = refl; small = v.small; held = omega (arith, g.0, v.small); bounded = h },
  refl,
  refl,
  ap some g.1 ∙ sym (ap (on_string (take b.in_size)) v.string),
)
  where
    g :
        (add_size b.in_size n ≤ length (grow (add_size b.in_size n) s))
        × (take b.in_size (grow (add_size b.in_size n) s) ≡ take b.in_size s)
    g = grow_lem s b.in_size (add_size b.in_size n) (omega (arith, v.held)) (omega (arith, v.small))

-- On a valid buffer `prepare` of more than `max_size()` leaves beside `size()` throws. Of no more it succeeds: the
-- buffer that it returns begins behind the readable characters and lies in the string, and the
-- readable characters stay.
pub data_chars-prepare :
    (b : StringBuffer) (s : List ℕ) (n : ℕ)
    → IsValid b s
    → ((b.max_size < b.in_size + n) × (prepare b n ≡ throws invalid_argument))
      ⊎ ((b.in_size + n ≤ b.max_size)
          × (b' : StringBuffer) × (s' : List ℕ) × (prepare b n ≡ ok (b', b.in_size, n))
          × IsValid b' s'
          × (b'.in_size ≡ b.in_size)
          × (b'.out_size ≡ n)
          × (data_chars b' ≡ data_chars b))
unfolding prepare
data_chars-prepare b s n v = elim (dec_lt b.max_size (b.in_size + n)) [
  | yes l ↦
      inl (l, rw (lt→ltb (sub_size b.max_size b.in_size) n (omega (arith, v.small, v.bounded))))
  | no l ↦
      let (b', s', r0, r1, r2, r3, r4) = prepare_ok b s n v (omega arith) in
      inr (omega arith, b', s', r0, r1, r2, r3, r4)
]

pub take-overwrite :
    (s xs : List ℕ) (i k : ℕ)
    → i + length xs ≤ length s
    → k ≤ length xs
    → take (i + k) (overwrite s i xs) ≡ take i s ++ take k xs
take-overwrite s xs i k h l =
    take-append_past (i + k) (take i s) (xs ++ drop (i + length xs) s) i
      (omega (arith, length-take i s)) (omega arith)
    ∙ ap (λ t. take i s ++ t)
        (take_at (xs ++ drop (i + length xs) s) (i + k - i) k (omega arith)
          ∙ take-append_in k xs (drop (i + length xs) s) l)

-- On a valid buffer, what a caller writes over the whole prepared buffer and commits is appended to
-- the readable characters: the first `n` of them, all where fewer were prepared.
data_chars-commit-fill :
    (b : StringBuffer) (s xs : List ℕ) (n : ℕ)
    → IsValid b s
    → length xs ≡ b.out_size
    → data_chars (commit (fill b b.in_size xs) n) ≡ some (take b.in_size s ++ take n xs)
unfolding data_chars commit fill
data_chars-commit-fill b s xs n v e =
    ap (λ t. on_string (take (commit b n).in_size) (on_string (λ u. overwrite u b.in_size xs) t))
      v.string
    ∙ ap some (elim (Bool-cases (ltb n b.out_size)) [
      | inl l ↦
          rw l (
            take_at (overwrite s b.in_size xs) (add_size b.in_size n) (b.in_size + n)
              (omega (tests, v.small, v.bounded)))
          ∙ take-overwrite s xs b.in_size n (omega (arith, v.held)) (omega tests)
      | inr l ↦
          rw l (
            take_at (overwrite s b.in_size xs) (add_size b.in_size b.out_size)
              (b.in_size + length xs) (omega (arith, v.small, v.bounded)))
          ∙ take-overwrite s xs b.in_size (length xs) (omega (arith, v.held)) (omega arith)
          ∙ ap (λ t. take b.in_size s ++ t)
              (take_all (length xs) xs (omega arith) ∙ sym (take_all n xs (omega tests)))
    ])

-- On a valid buffer `consume` removes the first `n` readable characters, all of them where there are fewer, and
-- leaves a valid buffer.
pub data_chars-consume :
    (b : StringBuffer) (s : List ℕ) (n : ℕ)
    → IsValid b s
    → (b' : StringBuffer) × (s' : List ℕ) × (consume b n ≡ ok b')
      × IsValid b' s'
      × (data_chars b' ≡ some (drop n (take b.in_size s)))
unfolding data_chars consume
data_chars-consume b s n v = elim (Bool-cases (ltb n b.in_size)) [
  | inl e ↦
      let l : n < b.in_size = omega tests in
      (
        record b { string = some (drop n s); in_size = sub_size b.in_size n; out_size = 0 },
        drop n s,
        rw (e, v.string),
        record {
          string = refl;
          small = v.small;
          held = omega (arith, v.small, v.bounded, v.held, length-drop n s);
          bounded = omega (arith, v.small, v.bounded);
        },
        ap some (
            take-drop (sub_size b.in_size n) n s
            ∙ ap (drop n) (
                take_at s (n + sub_size b.in_size n) b.in_size
                  (omega (arith, v.small, v.bounded)))),
      )
  | inr e ↦
      let l : b.in_size ≤ n = omega tests in
      (
        record b { in_size = 0; out_size = 0 },
        s,
        rw e,
        record { string = v.string; small = v.small; held = omega arith; bounded = omega arith },
        ap (on_string (take 0)) v.string
            ∙ ap some
                (sym (drop_all n (take b.in_size s) (omega (arith, length-take b.in_size s)))),
      )
]

-- `commit` of what was written, and `consume`, leave a valid buffer.
pub commit-IsValid : (b : StringBuffer) (s : List ℕ) (n : ℕ) → IsValid b s → IsValid (commit b n) s
unfolding commit
commit-IsValid b s n v = elim (Bool-cases (ltb n b.out_size)) [
  | inl e ↦ rw e (record {
    string = v.string;
    small = v.small;
    held = omega (tests, v.held, v.small, v.bounded);
    bounded = omega (tests, v.small, v.bounded);
  })
  | inr e ↦ rw e (record {
    string = v.string;
    small = v.small;
    held = omega (arith, v.held, v.small, v.bounded);
    bounded = omega (arith, v.small, v.bounded);
  })
]
