-- ===== src/Slice/Stale.antt =====
-- Members of an emptied slice that keep a stale value.
use buffers.Prelude.{
  ℕ, suc, ◌-◌, ◌<◌, ◌≡◌, [], some, none, false, arith, ltb, ◌==◌, not, ◌&&◌, size_mod, add_size,
}
use buffers.Slice.{
  SliceOf, remove_prefix_loop, remove_prefix_impl, remove_suffix_impl, keep_prefix_impl, elements,
}
use buffers.Slice.Inv.{IsEmpty}
use buffers.Slice.Iter.{elements_met}

loop_met : (fuel n : ℕ) (s : SliceOf) → s.begin ≡ s.end → remove_prefix_loop (suc fuel) n s ≡ some s
unfolding remove_prefix_loop
loop_met fuel n s e = rw (stop, remove_prefix_loop)
  where
    stop : (ltb 0 n && not (s.begin == s.end)) ≡ false
    stop = ground arith

keep_met :
    (s : SliceOf) (m : ℕ) → s.begin ≡ s.end → 0 < m → m < s.size → keep_prefix_impl s m ≡ none
unfolding keep_prefix_impl remove_suffix_impl
keep_met s m e p q = ground arith

-- An empty slice that still has a dropped prefix, as `keep_prefix(s, 0)` leaves it, takes that
-- prefix for its size once `remove_prefix` is called on it, though an iteration still finds no
-- buffer; then `keep_prefix` of fewer bytes, but some, runs into the assertion that the slice has
-- a buffer.
pub stale_prefix :
    (s : SliceOf) (n m : ℕ)
    → IsEmpty s
    → s.prefix < size_mod
    → 0 < m
    → m < s.prefix
    → (s' : SliceOf) × (remove_prefix_impl s n ≡ some s')
      × (s'.size ≡ s.prefix)
      × (elements s' ≡ some [])
      × (keep_prefix_impl s' m ≡ none)
unfolding remove_prefix_impl
stale_prefix s n m v h p q = (
  t,
  loop_met (s.end - s.begin) _ t v.met,
  omega (arith, v.no_bytes),
  elements_met t v.met v.none_counted,
  keep_met t m v.met p (omega (arith, v.no_bytes)),
)
  where
    t : SliceOf
    t = record s { size = add_size s.size s.prefix; prefix = 0 }
