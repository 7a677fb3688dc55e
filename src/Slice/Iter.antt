-- ===== src/Slice/Iter.antt =====
-- Iterating a slice: the buffers from `begin()` to `end()` cover what the members denote.
use buffers.Prelude.{
  ℕ, zero, suc, ◌+◌, ◌-◌, ◌<◌, ◌≤◌, ◌≡◌, sym, ap, ap₂, ◌∙◌, [], ◌∷◌, true, false, some, inl, inr,
  arith, ◌==◌, if◌then◌else◌, length, get_elem?, take, drop, size_mod,
}
use native.Mathlib.Decide.{dec_lt}
use buffers.Buffer.{BasicBuffer}
use buffers.Sequence.{BufferSequence}
use buffers.Sequence.Laws.{seq_addrs, total}
use buffers.Slice.{SliceOf, ConstIterator, begin, end, iter_eq, deref, increment, iterate, elements}
use buffers.Slice.Window.{window, window_empty, window_cons, length-window, total-window-le}
use buffers.Slice.Cuts.{
  head_cut, tail_cut, front_trim, back_trim, Last, seq_addrs-front_trim, seq_addrs-back_trim,
  back_trim_cons, Last-Back, Last-tail, Last-head, Back-front_trim, total-front_trim,
}
use buffers.Slice.Inv.{win, view, IsValid, IsReadable}

-- The iterator at the buffer of number `i`.
abbrev pub iter : SliceOf → ℕ → ConstIterator
iter s i = record { it = s.begin + i; prefix = s.prefix; suffix = s.suffix; i = i; n = s.len }

pub iter_eq-end :
    (s : SliceOf) (i : ℕ) → IsValid s → i ≤ s.len → iter_eq (iter s i) (end s) ≡ (i == s.len)
unfolding iter_eq end
iter_eq-end s i v h = ground arith

pub increment-iter :
    (s : SliceOf) (i : ℕ)
    → i < s.len
    → suc i < size_mod
    → increment (iter s i) ≡ some (iter s (i + 1))
unfolding increment
increment-iter s i l h = ground arith

-- The buffer that `operator*` returns.
abbrev shown : SliceOf → ℕ → BasicBuffer → BasicBuffer
shown s i x =
    let y = if i == 0 then head_cut s.prefix x else x in
    if (i + 1) == s.len then tail_cut s.suffix y else y

deref-iter :
    (s : SliceOf) (i : ℕ) (x : BasicBuffer)
    → get_elem? s.bs (s.begin + i) ≡ some x
    → i < s.len
    → s.len < size_mod
    → x.len < size_mod
    → (if i == 0 then s.prefix else 0) ≤ x.len
    → (if (i + 1) == s.len then s.suffix else 0) ≤ x.len - (if i == 0 then s.prefix else 0)
    → deref s.bs (iter s i) ≡ some (shown s i x)
unfolding deref
deref-iter s i x at h k l p q = rw (at, deref) (ground arith)

-- One round of the loop of an algorithm over the slice.
pub iterate-step :
    (fuel i : ℕ) (s : SliceOf) (b : BasicBuffer) (bs : BufferSequence) (p : ConstIterator)
    → iter_eq (iter s i) (end s) ≡ false
    → deref s.bs (iter s i) ≡ some b
    → increment (iter s i) ≡ some p
    → iterate fuel s.bs p (end s) ≡ some bs
    → iterate (suc fuel) s.bs (iter s i) (end s) ≡ some (b ∷ bs)
unfolding iterate
iterate-step fuel i s b bs p e f h g = rw (e, f, h, g, iterate)

pub iterate-end :
    (fuel i : ℕ) (s : SliceOf)
    → iter_eq (iter s i) (end s) ≡ true
    → iterate (suc fuel) s.bs (iter s i) (end s) ≡ some []
unfolding iterate
iterate-end fuel i s e = rw (e, iterate)

-- The buffer of number `i`, with the window from it on.
module _ (s : SliceOf) (v : IsValid s) (i : ℕ) (x : BasicBuffer) (lt : i < s.len)
    (e : window s.bs (s.begin + i) s.end ≡ x ∷ window s.bs (s.begin + i + 1) s.end) where
  abbrev others : BufferSequence
  others = window s.bs (s.begin + i + 1) s.end

  len-others : length others ≡ s.len - (i + 1)
  len-others = omega (
    arith,
    length-window s.bs (s.begin + i + 1) s.end (omega (arith, v.counted)) v.inside,
    v.counted,
  )

  is_last : ((i + 1) == s.len) ≡ (length others == 0)
  is_last = ground (arith, len-others)

  x-lt : x.len < size_mod
  x-lt = omega (arith, ap total e, total-window-le s.bs (s.begin + i) s.end, v.fits)

  next-window : window s.bs (s.begin + (i + 1)) s.end ≡ others
  next-window = ap (λ b. window s.bs b s.end) (omega arith)

  not_end : iter_eq (iter s i) (end s) ≡ false
  not_end = iter_eq-end s i v (omega arith) ∙ ground arith

  next-iter : increment (iter s i) ≡ some (iter s (i + 1))
  next-iter = increment-iter s i lt (omega (arith, v.counted, v.inside, v.short))

  -- The buffer without the bytes dropped at the front.
  abbrev fronted : BasicBuffer
  fronted = if i == 0 then head_cut s.prefix x else x

  visit :
      (fuel : ℕ)
      → get_elem? s.bs (s.begin + i) ≡ some x
      → (if i == 0 then s.prefix else 0) ≤ x.len
      → Last s.suffix (fronted ∷ others)
      → iterate fuel s.bs (iter s (i + 1)) (end s) ≡ some (back_trim s.suffix others)
      → iterate (suc fuel) s.bs (iter s i) (end s) ≡ some (back_trim s.suffix (fronted ∷ others))
  visit fuel at p l g =
      iterate-step fuel i s _ _ _ not_end
        (deref-iter s i x at lt (omega (arith, v.counted, v.inside, v.short)) x-lt p room
          ∙ ap (λ b. some (if b then tail_cut s.suffix fronted else fronted)) is_last)
        next-iter g
      ∙ ap some (sym (back_trim_cons s.suffix fronted others))
    where
      front_len : fronted.len ≡ x.len - (if i == 0 then s.prefix else 0)
      front_len = ground arith

      room : (if (i + 1) == s.len then s.suffix else 0) ≤ x.len - (if i == 0 then s.prefix else 0)
      room = rw (is_last, ← front_len) (Last-head s.suffix fronted others l)

-- From a buffer other than the first on, the loop visits what is left of the window, without the
-- bytes dropped at its end.
iterate-tail :
    (k i fuel : ℕ) (s : SliceOf)
    → IsValid s
    → i + k ≡ s.len
    → 0 < i
    → k < fuel
    → Last s.suffix (window s.bs (s.begin + i) s.end)
    → iterate fuel s.bs (iter s i) (end s)
      ≡ some (back_trim s.suffix (window s.bs (s.begin + i) s.end))
iterate-tail k i zero s v e p f l = absurd (omega arith)
iterate-tail zero i (suc fuel) s v e p f l =
    iterate-end fuel i s (iter_eq-end s i v (omega arith) ∙ ground arith)
    ∙ ap (λ w. some (back_trim s.suffix w))
        (sym (window_empty s.bs (s.begin + i) s.end (omega (arith, v.counted))))
iterate-tail (suc k) i (suc fuel) s v e p f l =
    let lt : i < s.len = omega arith in
    let (x, at, c) = window_cons s.bs (s.begin + i) s.end (omega (arith, v.counted)) v.inside in
    let y : fronted s v i x lt c ≡ x = ground arith in
    let l' : Last s.suffix (x ∷ others s v i x lt c) = rw c at l in
    let nw = next-window s v i x lt c in
    visit s v i x lt c fuel at (ground arith) (rw y l') (
      iterate-tail k (i + 1) fuel s v (omega arith) (omega arith) (omega arith)
        (rw nw (Last-tail s.suffix x (others s v i x lt c) l'))
      ∙ ap (λ w. some (back_trim s.suffix w)) nw)
    ∙ ap (λ b. some (back_trim s.suffix (b ∷ others s v i x lt c))) y
    ∙ ap (λ w. some (back_trim s.suffix w)) (sym c)

pub begin-iter : (s : SliceOf) → begin s ≡ iter s 0
unfolding begin
begin-iter s = ground arith

-- What an algorithm visits: the window, without the bytes dropped at either end.
abbrev trimmed : SliceOf → BufferSequence
trimmed s = back_trim s.suffix (front_trim s.prefix (win s))

elements-trimmed : (s : SliceOf) → IsValid s → elements s ≡ some (trimmed s)
unfolding elements
elements-trimmed s v = ap (λ p. iterate (suc s.len) s.bs p (end s)) (begin-iter s) ∙ from_first
  where
    from_first : iterate (suc s.len) s.bs (iter s 0) (end s) ≡ some (trimmed s)
    from_first = elim (dec_lt 0 s.len) [
      | no z ↦
          iterate-end s.len 0 s (iter_eq-end s 0 v (omega arith) ∙ ground arith)
          ∙ ap (λ w. some (back_trim s.suffix (front_trim s.prefix w)))
              (sym (window_empty s.bs s.begin s.end (omega (arith, v.counted))))
      | yes lt ↦
          let (x, at, c) =
            window_cons s.bs (s.begin + 0) s.end (omega (arith, v.counted)) v.inside in
          let w : win s ≡ x ∷ others s v 0 x lt c =
            ap (λ b. window s.bs b s.end) (let z : s.begin ≡ s.begin + 0 = omega arith in z) ∙ c in
          let nw = next-window s v 0 x lt c in
          let l = last_fits (others s v 0 x lt c) x w in
          visit s v 0 x lt c s.len at (rw w at v.front) l (
            iterate-tail (s.len - 1) (0 + 1) s.len s v (omega arith) (omega arith) (omega arith)
              (rw nw (Last-tail s.suffix (head_cut s.prefix x) (others s v 0 x lt c) l))
            ∙ ap (λ u. some (back_trim s.suffix u)) nw)
          ∙ ap (λ u. some (back_trim s.suffix (front_trim s.prefix u))) (sym w)
    ]
      where
        last_fits :
            (xs : BufferSequence) (x : BasicBuffer)
            → win s ≡ x ∷ xs
            → Last s.suffix (head_cut s.prefix x ∷ xs)
        last_fits [] x w = omega (arith, ap total w, v.sum)
        last_fits (y ∷ ys) x w = Last-Back s.suffix (y ∷ ys) (rw w at v.back)

seq_addrs-trimmed : (s : SliceOf) → IsValid s → seq_addrs (trimmed s) ≡ view s
seq_addrs-trimmed s v =
    seq_addrs-back_trim s.suffix (front_trim s.prefix (win s))
      (Back-front_trim s.prefix s.suffix (win s) v.front v.back (omega (arith, v.sum)))
    ∙ ap₂ take (omega (arith, total-front_trim s.prefix (win s) v.front, v.sum))
        (seq_addrs-front_trim s.prefix (win s) v.front)

meet : (s : SliceOf) → s.begin ≡ s.end → s.len ≡ 0 → iter_eq (begin s) (end s) ≡ true
unfolding iter_eq begin end
meet s e f = ground arith

-- Where the positions have met the loop ends at once.
pub elements_met : (s : SliceOf) → s.begin ≡ s.end → s.len ≡ 0 → elements s ≡ some []
unfolding elements iterate
elements_met s e f = rw (ends, iterate)
  where
    ends : iter_eq (begin s) (end s) ≡ true
    ends = meet s e f

-- From `begin()` to `end()` a slice that can be read presents, without a fault, buffers that cover
-- the addresses that its members denote, in order.
pub elements-view :
    (s : SliceOf)
    → IsReadable s
    → (bs : BufferSequence) × (elements s ≡ some bs) × (seq_addrs bs ≡ view s)
elements-view s (inl v) = (trimmed s, elements-trimmed s v, seq_addrs-trimmed s v)
elements-view s (inr v) = (
  [],
  elements_met s v.met v.none_counted,
  ap (λ n. take n (drop s.prefix (seq_addrs (win s)))) (sym v.no_bytes),
)
