-- ===== src/Slice/Suffix.antt =====
-- The loop of `remove_suffix_impl`: it passes whole buffers from the end, and
-- drops the rest from the one before.
use buffers.Prelude.{
  ℕ, zero, suc, ◌+◌, ◌-◌, ◌<◌, ◌≤◌, ◌≡◌, refl, sym, ap, ap₂, ◌∙◌, [], ◌∷◌, ◌++◌, Option, some,
  arith, lt→ltb, le→ltb, length, get_elem?, take, drop, take_at, take-drop-append, sub_size,
}
use native.Mathlib.Decide.{dec_lt}
use buffers.Buffer.{BasicBuffer}
use buffers.Sequence.{BufferSequence}
use buffers.Sequence.Laws.{seq_addrs, total, length-seq_addrs, seq_addrs-append, total-append}
use buffers.Slice.{SliceOf, remove_suffix_first, remove_suffix_loop}
use buffers.Slice.Window.{window, window_empty, window_snoc, length-window}
use buffers.Slice.Inv.{win, view, Back-zero, Back-snoc, Front-init, IsValid, size-lt}

-- A valid slice of the first `j` addresses from the dropped prefix on.
abbrev Leaves : ℕ → SliceOf → Option SliceOf → Type 0
Leaves j s r =
    (s' : SliceOf) × (r ≡ some s')
    × IsValid s'
    × (view s' ≡ take j (drop s.prefix (seq_addrs (win s))))

-- What the loop is given, `k` buffers past the first: nothing is dropped from the last buffer, and
-- fewer bytes are to go than there are.
pub record Start (k n : ℕ) (s : SliceOf) : Type 0 where
  pub valid : IsValid s
  pub whole : s.suffix ≡ 0
  pub fewer : n < s.size
  pub last : s.end ≡ s.begin + k + 1

abbrev cut : SliceOf → ℕ → SliceOf
cut s n = record s { suffix = n; size = sub_size s.size n }

abbrev passed : SliceOf → BasicBuffer → SliceOf
passed s x = record s { size = sub_size s.size x.len; end = s.end - 1; len = sub_size s.len 1 }

-- A window that ends with `x`.
module _ (k n : ℕ) (s : SliceOf) (v : Start k n s) (x : BasicBuffer)
    (e : win s ≡ window s.bs s.begin (s.begin + k) ++ x ∷ []) where
  abbrev w : BufferSequence
  w = window s.bs s.begin (s.begin + k)

  cut-IsValid : n ≤ x.len → IsValid (cut s n)
  cut-IsValid h = record {
    fits = v.valid.fits;
    short = v.valid.short;
    ordered = v.valid.ordered;
    inside = v.valid.inside;
    counted = v.valid.counted;
    sum = omega (arith, v.valid.sum, v.whole, v.fewer, size-lt s v.valid);
    front = v.valid.front;
    back = rw e (Back-snoc n w x h);
  }

  view-cut : view (cut s n) ≡ take (s.size - n) (drop s.prefix (seq_addrs (win s)))
  view-cut =
      take_at (drop s.prefix (seq_addrs (win s))) (sub_size s.size n) (s.size - n)
        (omega (arith, v.fewer, size-lt s v.valid))

  sum' : total (win s) ≡ total w + x.len
  sum' = ap total e ∙ total-append w (x ∷ []) ∙ omega arith

  module _ (h : x.len ≤ n) (pos : 0 < k) where
    win-passed : win (passed s x) ≡ w
    win-passed = ap (window s.bs s.begin) (omega (arith, v.last))

    passed-Start : (k' : ℕ) → k ≡ suc k' → Start k' (sub_size n x.len) (passed s x)
    passed-Start k' ek = record {
      valid = record {
        fits = v.valid.fits;
        short = v.valid.short;
        ordered = omega (arith, v.last);
        inside = omega (arith, v.valid.inside);
        counted = omega (arith, v.valid.counted, v.valid.inside, v.valid.short, v.last);
        sum =
            omega
              (arith, ap total win-passed, sum', v.valid.sum, v.whole, v.fewer, size-lt s v.valid);
        front =
            rw win-passed (Front-init s.prefix w x (rw e at v.valid.front) (omega (arith, len)));
        back = rw (v.whole, win-passed) (Back-zero w);
      };
      whole = v.whole;
      fewer = omega (arith, v.fewer, size-lt s v.valid);
      last = omega (arith, v.last, ek);
    }
      where
        len : length w ≡ s.begin + k - s.begin
        len =
            length-window s.bs s.begin (s.begin + k) (omega arith)
              (omega (arith, v.valid.inside, v.last))

    view-passed :
        take
          (sub_size s.size x.len - sub_size n x.len)
          (drop s.prefix (seq_addrs (win (passed s x))))
        ≡ take (s.size - n) (drop s.prefix (seq_addrs (win s)))
    view-passed =
        ap₂ (λ j u. take j (drop s.prefix (seq_addrs u)))
          (let c : sub_size s.size x.len - sub_size n x.len ≡ s.size - n =
              omega (arith, v.fewer, size-lt s v.valid) in
            c)
          win-passed
        ∙ sym (
            ap (λ u. take (s.size - n) (drop s.prefix (seq_addrs u))) e
            ∙ ap (λ t. take (s.size - n) (drop s.prefix t)) (seq_addrs-append w (x ∷ []))
            ∙ take-drop-append (s.size - n) s.prefix (seq_addrs w) (seq_addrs (x ∷ []))
                (omega (arith, length-seq_addrs w, sum', v.valid.sum, v.fewer)))

-- Steps of the loop.
module _ (k n : ℕ) (s : SliceOf) (x : BasicBuffer)
    (at : get_elem? s.bs (s.begin + suc k) ≡ some x) where
  loop_cut : n < x.len → remove_suffix_loop (suc k) n s ≡ some (cut s n)
  unfolding remove_suffix_loop
  loop_cut h = rw (at, lt→ltb n x.len h, remove_suffix_loop)

  loop_pass :
      x.len ≤ n
      → remove_suffix_loop (suc k) n s ≡ remove_suffix_loop k (sub_size n x.len) (passed s x)
  unfolding remove_suffix_loop
  loop_pass h = rw (at, le→ltb n x.len h, remove_suffix_loop)

loop_first :
    (n : ℕ) (s : SliceOf) (x : BasicBuffer)
    → get_elem? s.bs s.begin ≡ some x
    → n < sub_size x.len s.prefix
    → remove_suffix_loop zero n s ≡ some (cut s n)
unfolding remove_suffix_loop remove_suffix_first
loop_first n s x at h =
    rw (at, lt→ltb n (sub_size x.len s.prefix) h, remove_suffix_loop, remove_suffix_first)

-- The window of a slice that the loop stands in, with its last buffer.
last_buffer :
    (k n : ℕ) (s : SliceOf)
    → Start k n s
    → (x : BasicBuffer) × (get_elem? s.bs (s.begin + k) ≡ some x)
      × (win s ≡ window s.bs s.begin (s.begin + k) ++ x ∷ [])
last_buffer k n s v =
    let (x, at, e) = window_snoc s.bs s.begin k (omega (arith, v.valid.inside, v.last)) in
    (x, at, ap (window s.bs s.begin) v.last ∙ e)

-- The loop needs no fuel: it leaves the first `size_ - n` addresses.
pub loop-Leaves :
    (k n : ℕ) (s : SliceOf) → Start k n s → Leaves (s.size - n) s (remove_suffix_loop k n s)
loop-Leaves zero n s v =
    let (x, at, e) = last_buffer zero n s v in
    let one : total (win s) ≡ x.len = omega (
      arith,
      sum' zero n s v x e,
      ap total (window_empty s.bs s.begin (s.begin + 0) (omega arith)),
    ) in
    (
      cut s n,
      loop_first n s x (ap (get_elem? s.bs) (omega arith) ∙ at)
          (omega (arith, one, v.valid.sum, v.whole, v.fewer, size-lt s v.valid)),
      cut-IsValid zero n s v x e (omega (arith, one, v.valid.sum, v.fewer)),
      view-cut zero n s v x e,
    )
loop-Leaves (suc k) n s v =
    let (x, at, e) = last_buffer (suc k) n s v in
    elim (dec_lt n x.len) [
      | yes l ↦ (
        cut s n,
        loop_cut k n s x at l,
        cut-IsValid (suc k) n s v x e (omega arith),
        view-cut (suc k) n s v x e,
      )
      | no l ↦
          let l' : x.len ≤ n = omega arith in
          let (s', r, v', u) =
            loop-Leaves k (sub_size n x.len) (passed s x)
              (passed-Start (suc k) n s v x e l' (omega arith) k refl) in
          (s', loop_pass k n s x at l' ∙ r, v', u ∙ view-passed (suc k) n s v x e l' (omega arith))
    ]
