-- ===== src/Slice/Pass.antt =====
-- The rounds of the loop that drops a prefix: passing a buffer, and cutting into one.
use buffers.Prelude.{
  ℕ, suc, ◌+◌, ◌-◌, ◌<◌, ◌≤◌, ◌≡◌, ◌≢◌, sym, ap, ap₂, ◌∙◌, ◌∷◌, true, false, not, ◌&&◌, some, arith,
  ltb, ◌==◌, lt→ltb, le→ltb, length, get_elem?, take, drop, take_at, drop_at, take-append_past,
  drop-append_past, take-drop, sub_size_lem, size_mod, sub_size,
}
use native.Mathlib.Nat.{le_trans, lt_of_le_of_lt}
use buffers.Buffer.{BasicBuffer}
use buffers.Buffer.Region.{length-region}
use buffers.Buffer.Laws.{addrs}
use buffers.Sequence.{BufferSequence}
use buffers.Sequence.Laws.{seq_addrs, total}
use buffers.Slice.{SliceOf, remove_prefix_loop}
use buffers.Slice.Window.{window}
use buffers.Slice.Inv.{win, view, Front-zero, Back-tail, IsValid, size-lt}

-- Past a whole buffer, dropping goes on in the buffers after it.
drop_past :
    (x : BasicBuffer) (w : BufferSequence) (n k : ℕ)
    → x.len ≤ n
    → n ≤ k
    → drop n (take k (seq_addrs (x ∷ w))) ≡ drop (n - x.len) (take (k - x.len) (seq_addrs w))
drop_past x w n k h l =
    ap (drop n) (take-append_past k (addrs x) (seq_addrs w) x.len len (omega arith))
    ∙ drop-append_past n (addrs x) (take (k - x.len) (seq_addrs w)) x.len len h
  where
    len : length (addrs x) ≡ x.len
    len = length-region x.ptr x.len

-- The loop stops where nothing is left to drop.
pub loop_end : (fuel n : ℕ) (s : SliceOf) → n ≡ 0 → remove_prefix_loop (suc fuel) n s ≡ some s
unfolding remove_prefix_loop
loop_end fuel n s e = rw (stop, remove_prefix_loop)
  where
    stop : (ltb 0 n && not (s.begin == s.end)) ≡ false
    stop = ground arith

module _ (fuel n : ℕ) (s : SliceOf) (x : BasicBuffer) (pos : 0 < n) (ne : s.begin ≢ s.end)
    (at : get_elem? s.bs s.begin ≡ some x) where
  more : (ltb 0 n && not (s.begin == s.end)) ≡ true
  more = ground arith

  pub loop_cut :
      n < x.len
      → remove_prefix_loop (suc fuel) n s ≡ some (record s { prefix = n; size = sub_size s.size n })
  unfolding remove_prefix_loop
  loop_cut h = rw (more, at, lt→ltb n x.len h, remove_prefix_loop)

  pub loop_pass :
      x.len ≤ n
      → remove_prefix_loop (suc fuel) n s
        ≡ remove_prefix_loop fuel
            (sub_size n x.len)
            (record s { size = sub_size s.size x.len; begin = s.begin + 1; len = sub_size s.len 1 })
  unfolding remove_prefix_loop
  loop_pass h = rw (more, at, le→ltb n x.len h, remove_prefix_loop)

-- What the loop is given: nothing is dropped from the first buffer, and `n` bytes are there.
pub record Start (n : ℕ) (s : SliceOf) : Type 0 where
  pub valid : IsValid s
  pub whole : s.prefix ≡ 0
  pub enough : n ≤ s.size

-- The members after the loop has passed a buffer.
abbrev pub passed : SliceOf → BasicBuffer → SliceOf
passed s x = record s { size = sub_size s.size x.len; begin = s.begin + 1; len = sub_size s.len 1 }

abbrev pub cut : SliceOf → ℕ → SliceOf
cut s n = record s { prefix = n; size = sub_size s.size n }

-- A slice whose window begins with `x`.
module _ (n : ℕ) (s : SliceOf) (v : Start n s) (x : BasicBuffer)
    (e : win s ≡ x ∷ window s.bs (s.begin + 1) s.end) (lt : s.begin < s.end) where
  size_lt : s.size < size_mod
  size_lt = omega (arith, size-lt s v.valid)

  pub cut-IsValid : n < x.len → IsValid (cut s n)
  cut-IsValid h = record {
    fits = v.valid.fits;
    short = v.valid.short;
    ordered = v.valid.ordered;
    inside = v.valid.inside;
    counted = v.valid.counted;
    sum = omega (arith, v.valid.sum, v.whole, v.enough, size_lt);
    front = rw e (omega arith);
    back = v.valid.back;
  }

  pub view-cut : view (cut s n) ≡ drop n (view s)
  view-cut =
      take_at (drop n (seq_addrs (win s))) (sub_size s.size n) (s.size - n)
        (omega (arith, v.enough, size_lt))
      ∙ take-drop (s.size - n) n (seq_addrs (win s))
      ∙ ap (drop n) (
          take_at (seq_addrs (win s)) (n + (s.size - n)) s.size (omega (arith, v.enough))
          ∙ ap (take s.size) (drop_at (seq_addrs (win s)) 0 s.prefix (sym v.whole)))

  pub passed-Start : x.len ≤ n → Start (sub_size n x.len) (passed s x)
  passed-Start h = record {
    valid = record {
      fits = v.valid.fits;
      short = v.valid.short;
      ordered = omega arith;
      inside = v.valid.inside;
      counted = omega (arith, v.valid.counted, v.valid.inside, v.valid.short);
      sum = omega (arith, sum', v.valid.sum, v.whole, v.enough, size_lt);
      front = rw v.whole (Front-zero (window s.bs (s.begin + 1) s.end));
      back =
          Back-tail s.suffix x (window s.bs (s.begin + 1) s.end) (rw e at v.valid.back)
            (omega (arith, sum', v.valid.sum, v.whole, v.enough));
    };
    whole = v.whole;
    enough = omega (arith, v.enough, size_lt);
  }
    where
      sum' : total (win s) ≡ x.len + total (window s.bs (s.begin + 1) s.end)
      sum' = ap total e

  pub view-passed : x.len ≤ n → drop (sub_size n x.len) (view (passed s x)) ≡ drop n (view s)
  view-passed h =
      ap₂ (λ i k. drop i (take k (drop s.prefix (seq_addrs w))))
        (sub_size_lem n x.len h (lt_of_le_of_lt v.enough size_lt))
        (sub_size_lem s.size x.len (le_trans h v.enough) size_lt)
      ∙ ap (λ k. drop (n - x.len) (take (s.size - x.len) (drop k (seq_addrs w)))) v.whole
      ∙ sym (drop_past x w n s.size h v.enough)
      ∙ ap₂ (λ k u. drop n (take s.size (drop k (seq_addrs u)))) (sym v.whole) (sym e)
    where
      w : BufferSequence
      w = window s.bs (s.begin + 1) s.end
