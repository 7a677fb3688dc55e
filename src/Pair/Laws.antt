-- ===== src/Pair/Laws.antt =====
-- A sliced pair covers what slicing leaves of the addresses of both buffers.
use buffers.Prelude.{
  ℕ, ◌-◌, ◌<◌, ◌≤◌, ◌≡◌, sym, ap, ◌∙◌, [], ◌∷◌, ◌++◌, append-nil, inl, inr, arith, ltb, leb,
  Bool-cases, ltb→lt, ltb→le, leb→le, leb→lt, sub_size_lem, take, drop, list_laws, take-append_in,
  take-append_past, drop-append_in, drop-append_past, size_mod, sub_size,
}
use native.Mathlib.Nat.{le_of_lt}
use buffers.Buffer.{BasicBuffer, null_buffer, SliceHow, remove_prefix, keep_prefix, do_slice}
use buffers.Buffer.Region.{length-region}
use buffers.Buffer.Laws.{addrs, trim, addrs-do_slice, do_slice_agree}
use buffers.Sequence.Laws.{seq_addrs}
use buffers.Pair.{
  ConstBufferPair, MutableBufferPair, pair_sequence, mutable_pair_sequence, slice_pair,
  slice_mutable_pair,
}

-- A cut that the first of two buffers takes, and one that goes on in the second.
module _ (b c : BasicBuffer) (n : ℕ) where
  drop_in_first :
      n ≤ b.len → drop n (seq_addrs (b ∷ c ∷ [])) ≡ drop n (addrs b) ++ seq_addrs (c ∷ [])
  drop_in_first h =
      drop-append_in n (addrs b) (seq_addrs (c ∷ [])) (omega (arith, length-region b.ptr b.len))

  drop_past_first : b.len ≤ n → drop n (seq_addrs (b ∷ c ∷ [])) ≡ drop (n - b.len) (addrs c) ++ []
  drop_past_first h =
      drop-append_past n (addrs b) (seq_addrs (c ∷ [])) b.len (length-region b.ptr b.len) h
      ∙ (simp list_laws)

  take_in_first : n ≤ b.len → take n (seq_addrs (b ∷ c ∷ [])) ≡ take n (addrs b) ++ []
  take_in_first h =
      take-append_in n (addrs b) (seq_addrs (c ∷ [])) (omega (arith, length-region b.ptr b.len))
      ∙ sym (append-nil (take n (addrs b)))

  take_past_first :
      b.len ≤ n → take n (seq_addrs (b ∷ c ∷ [])) ≡ addrs b ++ (take (n - b.len) (addrs c) ++ [])
  take_past_first h =
      take-append_past n (addrs b) (seq_addrs (c ∷ [])) b.len (length-region b.ptr b.len) h
      ∙ (simp list_laws)

-- Slicing the second buffer by what the first has not used of `n`.
rest_of :
    (b c : BasicBuffer) (how : SliceHow) (n : ℕ)
    → b.len ≤ n
    → n < size_mod
    → c.len < size_mod
    → addrs (do_slice c how (sub_size n b.len)) ≡ trim how (n - b.len) (addrs c)
rest_of b c how n h k l =
    addrs-do_slice c how (sub_size n b.len) l
    ∙ ap (λ x. trim how x (addrs c)) (sub_size_lem n b.len h k)

-- Slicing a pair of mutable buffers whose sizes `std::size_t` holds removes the first `n`
-- addresses of the two buffers in order, or keeps only those.
pub seq_addrs-slice_mutable_pair :
    (bs : MutableBufferPair) (how : SliceHow) (n : ℕ)
    → bs.first.len < size_mod
    → bs.second.len < size_mod
    → n < size_mod
    → seq_addrs (mutable_pair_sequence (slice_mutable_pair bs how n))
      ≡ trim how n (seq_addrs (mutable_pair_sequence bs))
unfolding slice_mutable_pair
seq_addrs-slice_mutable_pair bs remove_prefix n h k l = elim (Bool-cases (ltb n bs.first.len)) [
  | inl e ↦ rw e (
      ap (λ t. t ++ seq_addrs (bs.second ∷ [])) (addrs-do_slice bs.first remove_prefix n h)
      ∙ sym (drop_in_first bs.first bs.second n (le_of_lt (ltb→lt n bs.first.len e))))
  | inr e ↦
      let p : bs.first.len ≤ n = ltb→le n bs.first.len e in
      rw e (
        ap (λ t. t ++ []) (rest_of bs.first bs.second remove_prefix n p l k)
        ∙ sym (drop_past_first bs.first bs.second n p))
]
seq_addrs-slice_mutable_pair bs keep_prefix n h k l = elim (Bool-cases (leb n bs.first.len)) [
  | inl e ↦ rw e (
      ap (λ t. t ++ []) (addrs-do_slice bs.first keep_prefix n h)
      ∙ sym (take_in_first bs.first bs.second n (leb→le n bs.first.len e)))
  | inr e ↦
      let p : bs.first.len ≤ n = le_of_lt (leb→lt n bs.first.len e) in
      rw e (
        ap (λ t. addrs bs.first ++ (t ++ [])) (rest_of bs.first bs.second keep_prefix n p l k)
        ∙ sym (take_past_first bs.first bs.second n p))
]

-- Both overloads slice alike.
slice_pair_agree :
    (bs : ConstBufferPair) (how : SliceHow) (n : ℕ)
    → pair_sequence (slice_pair bs how n)
      ≡ mutable_pair_sequence
          (slice_mutable_pair (record { first = bs.first; second = bs.second }) how n)
unfolding slice_pair slice_mutable_pair
slice_pair_agree bs remove_prefix n = elim (Bool-cases (ltb n bs.first.len)) [
  | inl e ↦ rw e (ap (λ b. b ∷ bs.second ∷ []) ((do_slice_agree bs.first remove_prefix n).0))
  | inr e ↦ rw e (
      ap (λ b. b ∷ null_buffer ∷ [])
        ((do_slice_agree bs.second remove_prefix (sub_size n bs.first.len)).0))
]
slice_pair_agree bs keep_prefix n = elim (Bool-cases (leb n bs.first.len)) [
  | inl e ↦ rw e (ap (λ b. b ∷ null_buffer ∷ []) ((do_slice_agree bs.first keep_prefix n).0))
  | inr e ↦ rw e (
      ap (λ b. bs.first ∷ b ∷ [])
        ((do_slice_agree bs.second keep_prefix (sub_size n bs.first.len)).0))
]
