-- ===== src/Slice/Prefix.antt =====
-- `remove_prefix_impl`: the loop passes whole buffers, and drops the rest from the one after.
use buffers.Prelude.{
  ℕ, zero, suc, ◌+◌, ◌-◌, ◌<◌, ◌≤◌, min, ◌≡◌, refl, sym, ap, ◌∙◌, Option, some, arith, ltb,
  if◌then◌else◌, take, drop, drop_at, take-drop, drop-drop, drop-min, length-take, size_mod,
  add_size, sub_size,
}
use native.Mathlib.Decide.{dec_lt}
use buffers.Sequence.Laws.{seq_addrs, total}
use buffers.Slice.{SliceOf, remove_prefix_loop, remove_prefix_impl}
use buffers.Slice.Window.{window_empty, window_cons}
use buffers.Slice.Inv.{win, view, Front-zero, IsValid, size-lt}
use buffers.Slice.Pass.{
  loop_end, loop_cut, loop_pass, Start, passed, cut, cut-IsValid, view-cut, passed-Start,
  view-passed,
}

-- A slice that drops `n` addresses of another.
abbrev pub Drops : ℕ → SliceOf → Option SliceOf → Type 0
Drops n s r = (s' : SliceOf) × (r ≡ some s') × IsValid s' × (view s' ≡ drop n (view s))

-- With a round of fuel for each buffer and one more, the loop drops `n` addresses.
loop-Drops :
    (fuel n : ℕ) (s : SliceOf)
    → Start n s
    → s.end - s.begin < fuel
    → Drops n s (remove_prefix_loop fuel n s)
loop-Drops zero n s v h = absurd (omega arith)
loop-Drops (suc fuel) n s v h = elim (dec_lt 0 n) [
  | no z ↦
      let z' : n ≡ 0 = omega arith in
      (s, loop_end fuel n s z', v.valid, drop_at (view s) 0 n (sym z'))
  | yes pos ↦
      let lt : s.begin < s.end = nonempty pos in
      let (x, at, e) = window_cons s.bs s.begin s.end lt v.valid.inside in
      elim (dec_lt n x.len) [
        | yes l ↦ (
          cut s n,
          loop_cut fuel n s x pos (omega arith) at l,
          cut-IsValid n s v x e lt l,
          view-cut n s v x e lt,
        )
        | no l ↦
            let l' : x.len ≤ n = omega arith in
            let (s', r, v', w) =
              loop-Drops fuel (sub_size n x.len) (passed s x) (passed-Start n s v x e lt l')
                (omega arith) in
            (
              s',
              loop_pass fuel n s x pos (omega arith) at l' ∙ r,
              v',
              w ∙ view-passed n s v x e lt l',
            )
      ]
]
  where
    nonempty : 0 < n → s.begin < s.end
    nonempty pos = elim (dec_lt s.begin s.end) [
      | yes lt ↦ lt
      | no ge ↦ absurd (
          omega (
            arith,
            v.valid.sum,
            v.enough,
            ap total (window_empty s.bs s.begin s.end (omega arith)),
          ))
    ]

-- The members that the loop starts from: the bytes dropped before are to be dropped again.
abbrev start : SliceOf → SliceOf
start s = record s { size = add_size s.size s.prefix; prefix = 0 }

module _ (s : SliceOf) (n : ℕ) (v : IsValid s) where
  bound : s.size + s.prefix + s.suffix < size_mod
  bound = size-lt s v

  least : (if ltb s.size n then s.size else n) ≡ min n s.size
  least = ground arith

  again : add_size (if ltb s.size n then s.size else n) s.prefix ≡ s.prefix + min n s.size
  again = ap (λ k. add_size k s.prefix) least ∙ omega (arith, bound)

  start-Start : Start (s.prefix + min n s.size) (start s)
  start-Start = record {
    valid = record {
      fits = v.fits;
      short = v.short;
      ordered = v.ordered;
      inside = v.inside;
      counted = v.counted;
      sum = omega (arith, v.sum, bound);
      front = Front-zero (win s);
      back = v.back;
    };
    whole = refl;
    enough = omega (arith, bound);
  }

  view-start : drop (s.prefix + min n s.size) (view (start s)) ≡ drop n (view s)
  view-start =
      sym (drop-drop (min n s.size) s.prefix (view (start s)))
      ∙ ap (λ k. drop (min n s.size) (drop s.prefix (take k (seq_addrs (win s)))))
          (let e : add_size s.size s.prefix ≡ s.prefix + s.size = omega (arith, bound) in e)
      ∙ ap (drop (min n s.size)) (sym (take-drop s.size s.prefix (seq_addrs (win s))))
      ∙ drop-min n s.size (view s)
          (omega (arith, length-take s.size (drop s.prefix (seq_addrs (win s)))))

-- `remove_prefix_impl` on a valid slice runs without a fault and leaves a valid slice of all
-- addresses but the first `n`.
pub remove_prefix_impl-Drops :
    (s : SliceOf) (n : ℕ) → IsValid s → Drops n s (remove_prefix_impl s n)
unfolding remove_prefix_impl
remove_prefix_impl-Drops s n v =
    let (s', r, v', w) =
      loop-Drops (suc (s.end - s.begin)) (s.prefix + min n s.size) (start s) (start-Start s n v)
        (omega arith) in
    (
      s',
      ap (λ k. remove_prefix_loop (suc (s.end - s.begin)) k (start s)) (again s n v) ∙ r,
      v',
      w ∙ view-start s n v,
    )
