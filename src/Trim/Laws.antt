-- ===== src/Trim/Laws.antt =====
-- What the trimming algorithms keep, of every type that is sliced as the interface says.
use buffers.Prelude.{
  ℕ, ◌-◌, ◌<◌, ◌≤◌, min, ◌≡◌, refl, sym, ap, ap₂, ◌∙◌, List, ◌++◌, Option, some, inl, inr, arith,
  ltb, if◌then◌else◌, Bool-cases, ltb→lt, ltb→le, length, take, drop, take_at, drop_at, take_all,
  take-append-drop, sub_size, size_mod,
}
use buffers.Buffer.{SliceHow}
use buffers.Trim.{
  Sliceable, keep_prefix, keep_suffix, remove_prefix, remove_suffix, prefix, suffix, sans_prefix,
  sans_suffix,
}

module _ (t : Sliceable) where
  open t use {Source, Carrier, make, tag_invoke, size, source_addrs, addrs, IsSource, IsFine}

  -- The call returns a slice of exactly these addresses.
  abbrev pub Covers : List ℕ → Option Carrier → Type 0
  Covers xs r = (c : Carrier) × (r ≡ some c) × (addrs c ≡ xs)

  -- On a slice that is fine for the interface, `keep_suffix` leaves the last `n` addresses, all of them where there are fewer.
  keep_suffix-Covers :
      (c : Carrier) (n : ℕ)
      → IsFine c
      → Covers (drop (length (addrs c) - n) (addrs c)) (keep_suffix t c n)
  unfolding keep_suffix
  keep_suffix-Covers c n v = rw (t.size-length c v) (elim (Bool-cases (ltb n (length (addrs c)))) [
    | inr e ↦
        let l : length (addrs c) ≤ n = ltb→le n (length (addrs c)) e in
        rw e (c, refl, drop_at (addrs c) 0 (length (addrs c) - n) (omega arith))
    | inl e ↦
        let l : n < length (addrs c) = ltb→lt n (length (addrs c)) e in
        let (c', r, u) =
          t.tag_invoke-trim c SliceHow.remove_prefix (sub_size (length (addrs c)) n) v
            (omega arith) in
        rw e (
          c',
          r,
          u
              ∙ drop_at (addrs c) (sub_size (length (addrs c)) n) (length (addrs c) - n)
                  (omega (arith, t.length-lt c v)),
        )
  ])

  -- On a slice that is fine for the interface, `remove_suffix` leaves all addresses but the last `n`.
  remove_suffix-Covers :
      (c : Carrier) (n : ℕ)
      → IsFine c
      → Covers (take (length (addrs c) - n) (addrs c)) (remove_suffix t c n)
  unfolding remove_suffix
  remove_suffix-Covers c n v = rw (t.size-length c v) (elim (Bool-cases (ltb 0 n)) [
    | inr e ↦
        let z : n ≤ 0 = ltb→le 0 n e in
        rw e (c, refl, sym (take_all (length (addrs c) - n) (addrs c) (omega arith)))
    | inl e ↦
        let (c', r, u) = t.tag_invoke-trim c SliceHow.keep_prefix _ v (omega arith) in
        rw e (c', r, u ∙ take_at (addrs c) _ (length (addrs c) - n) left)
  ])
    where
      least : (if ltb (length (addrs c)) n then length (addrs c) else n) ≡ min n (length (addrs c))
      least = ground arith

      left :
          sub_size (length (addrs c)) (if ltb (length (addrs c)) n then length (addrs c) else n)
          ≡ length (addrs c) - n
      left = ap (sub_size (length (addrs c))) least ∙ omega (arith, t.length-lt c v)

  -- On a copy: `prefix` and `suffix` are the first and the last `n` addresses, `sans_prefix` and
  -- `sans_suffix` the others.
  prefix-Covers :
      (b : Source) (n : ℕ)
      → IsSource b
      → n < size_mod
      → Covers (take n (source_addrs b)) (prefix t b n)
  unfolding prefix keep_prefix
  prefix-Covers b n v h =
      rw (← t.addrs-make b v)
        (t.tag_invoke-trim (make b) SliceHow.keep_prefix n (t.make-IsFine b v) h)

  sans_prefix-Covers :
      (b : Source) (n : ℕ)
      → IsSource b
      → n < size_mod
      → Covers (drop n (source_addrs b)) (sans_prefix t b n)
  unfolding sans_prefix remove_prefix
  sans_prefix-Covers b n v h =
      rw (← t.addrs-make b v)
        (t.tag_invoke-trim (make b) SliceHow.remove_prefix n (t.make-IsFine b v) h)

  suffix-Covers :
      (b : Source) (n : ℕ)
      → IsSource b
      → Covers (drop (length (source_addrs b) - n) (source_addrs b)) (suffix t b n)
  unfolding suffix
  suffix-Covers b n v = rw (← t.addrs-make b v) (keep_suffix-Covers (make b) n (t.make-IsFine b v))

  sans_suffix-Covers :
      (b : Source) (n : ℕ)
      → IsSource b
      → Covers (take (length (source_addrs b) - n) (source_addrs b)) (sans_suffix t b n)
  unfolding sans_suffix
  sans_suffix-Covers b n v =
      rw (← t.addrs-make b v) (remove_suffix-Covers (make b) n (t.make-IsFine b v))

  -- At an `n` that `std::size_t` holds, and for a source that the interface admits,
  -- `prefix` with `sans_prefix`, and `sans_suffix` with `suffix`, at the same `n`, cut the sequence
  -- in two: together they cover its addresses in order, none twice and none left out.
  pub cut_in_two :
      (b : Source) (n : ℕ)
      → IsSource b
      → n < size_mod
      → (p q r s : Carrier) × (prefix t b n ≡ some p)
        × (sans_prefix t b n ≡ some q)
        × (sans_suffix t b n ≡ some r)
        × (suffix t b n ≡ some s)
        × (addrs p ++ addrs q ≡ source_addrs b)
        × (addrs r ++ addrs s ≡ source_addrs b)
  cut_in_two b n v h =
      let (p, pe, pa) = prefix-Covers b n v h in
      let (q, qe, qa) = sans_prefix-Covers b n v h in
      let (r, re, ra) = sans_suffix-Covers b n v in
      let (s, se, sa) = suffix-Covers b n v in
      (
        p,
        q,
        r,
        s,
        pe,
        qe,
        re,
        se,
        ap₂ ◌++◌ pa qa ∙ take-append-drop n (source_addrs b),
        ap₂ ◌++◌ ra sa ∙ take-append-drop (length (source_addrs b) - n) (source_addrs b),
      )
