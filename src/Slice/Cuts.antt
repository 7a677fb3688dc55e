-- ===== src/Slice/Cuts.antt =====
-- The buffers of a sequence whose first and last buffer are cut, as a slice shows them.
use buffers.Prelude.{
  ℕ, ◌+◌, ◌-◌, ◌≤◌, ◌≡◌, refl, sym, ap, ◌∙◌, [], ◌∷◌, ◌++◌, arith, ◌==◌, if◌then◌else◌, length,
  take, drop, take_at, take-append_past, drop-append_in, append-nil,
}
use buffers.Buffer.{BasicBuffer, buffer}
use buffers.Buffer.Region.{region, length-region, take-region, drop-region}
use buffers.Buffer.Laws.{addrs}
use buffers.Sequence.{BufferSequence}
use buffers.Sequence.Laws.{seq_addrs, total}
use buffers.Slice.Inv.{Front, Back}

-- A buffer without its first `k` bytes, and without its last.
abbrev pub head_cut : ℕ → BasicBuffer → BasicBuffer
head_cut k x = buffer (x.ptr + k) (x.len - k)

abbrev pub tail_cut : ℕ → BasicBuffer → BasicBuffer
tail_cut k x = buffer x.ptr (x.len - k)

abbrev pub front_trim : ℕ → BufferSequence → BufferSequence
front_trim k [] = []
front_trim k (x ∷ xs) = head_cut k x ∷ xs

abbrev pub back_trim : ℕ → BufferSequence → BufferSequence
back_trim k [] = []
back_trim k (x ∷ []) = tail_cut k x ∷ []
back_trim k (x ∷ y ∷ ys) = x ∷ back_trim k (y ∷ ys)

pub seq_addrs-front_trim :
    (k : ℕ) (w : BufferSequence) → Front k w → seq_addrs (front_trim k w) ≡ drop k (seq_addrs w)
seq_addrs-front_trim k [] h = ap (λ n. drop n []) (sym h)
seq_addrs-front_trim k (x ∷ xs) h = sym (
    drop-append_in k (addrs x) (seq_addrs xs) (omega (arith, length-region x.ptr x.len))
    ∙ ap (λ t. t ++ seq_addrs xs) (drop-region k x.ptr x.len))

Back-le-total : (k : ℕ) (w : BufferSequence) → Back k w → k ≤ total w
Back-le-total k [] h = omega arith
Back-le-total k (x ∷ []) h = omega arith
Back-le-total k (x ∷ y ∷ ys) h = omega (arith, Back-le-total k (y ∷ ys) h)

pub seq_addrs-back_trim :
    (k : ℕ) (w : BufferSequence)
    → Back k w
    → seq_addrs (back_trim k w) ≡ take (total w - k) (seq_addrs w)
seq_addrs-back_trim k [] h = ap (λ n. take n []) {x = 0} (omega arith)
seq_addrs-back_trim k (x ∷ []) h =
    append-nil (region x.ptr (x.len - k))
    ∙ ap (region x.ptr) (omega arith)
    ∙ sym (take-region (x.len + 0 - k) x.ptr x.len)
    ∙ ap (take (x.len + 0 - k)) (sym (append-nil (addrs x)))
seq_addrs-back_trim k (x ∷ y ∷ ys) h =
    let w : BufferSequence = y ∷ ys in
    let len : length (addrs x) ≡ x.len = length-region x.ptr x.len in
    let room : k ≤ total w = Back-le-total k w h in
    ap (λ t. addrs x ++ t) (seq_addrs-back_trim k (y ∷ ys) h)
    ∙ sym (
        take-append_past (x.len + total w - k) (addrs x) (seq_addrs w) x.len len (omega arith)
        ∙ ap (λ t. addrs x ++ t)
            (take_at (seq_addrs w) (x.len + total w - k - x.len) (total w - k) (omega arith)))

pub back_trim_cons :
    (k : ℕ) (x : BasicBuffer) (xs : BufferSequence)
    → back_trim k (x ∷ xs) ≡ (if length xs == 0 then tail_cut k x else x) ∷ back_trim k xs
back_trim_cons k x [] = refl
back_trim_cons k x (y ∷ ys) = ground arith

-- At most `k` bytes of the last buffer, if there is one.
abbrev pub Last : ℕ → BufferSequence → Type 0
Last k [] = Unit {0}
Last k (x ∷ []) = k ≤ x.len
Last k (x ∷ y ∷ ys) = Last k (y ∷ ys)

pub Last-Back : (k : ℕ) (w : BufferSequence) → Back k w → Last k w
Last-Back k [] h = tt
Last-Back k (x ∷ []) h = h
Last-Back k (x ∷ y ∷ ys) h = Last-Back k (y ∷ ys) h

pub Last-tail : (k : ℕ) (x : BasicBuffer) (xs : BufferSequence) → Last k (x ∷ xs) → Last k xs
Last-tail k x [] h = tt
Last-tail k x (y ∷ ys) h = h

pub Last-head :
    (k : ℕ) (x : BasicBuffer) (xs : BufferSequence)
    → Last k (x ∷ xs)
    → (if length xs == 0 then k else 0) ≤ x.len
Last-head k x [] h = h
Last-head k x (y ∷ ys) h = ground arith

pub Back-front_trim :
    (p k : ℕ) (w : BufferSequence)
    → Front p w
    → Back k w
    → p + k ≤ total w
    → Back k (front_trim p w)
Back-front_trim p k [] f b h = b
Back-front_trim p k (x ∷ []) f b h = omega arith
Back-front_trim p k (x ∷ y ∷ ys) f b h = b

pub total-front_trim :
    (p : ℕ) (w : BufferSequence) → Front p w → total (front_trim p w) ≡ total w - p
total-front_trim p [] f = omega arith
total-front_trim p (x ∷ xs) f = omega arith
