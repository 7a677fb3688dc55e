-- ===== src/Circular/Ring.antt =====
-- The addresses of a region, gone round from a position on.
use buffers.Prelude.{
  ℕ, ◌+◌, ◌-◌, ◌%◌, ◌<◌, ◌≤◌, ◌≡◌, ◌⊎◌, sym, ap, ◌∙◌, List, ◌++◌, inl, inr, arith, length,
  length-append, length-take, length-drop, take, drop, take_at, take-append_past, drop-append_in,
  drop-append_past, take-drop-append, take-add, take-take, drop-drop, take-drop,
}
use native.Mathlib.Decide.{dec_lt}
use native.Mathlib.Nat.{mod-eq_of_lt, mod-eq-sub-mod}
use buffers.Buffer.Region.{region, length-region, take-region, drop-region}

-- The remainder of a position that has gone past the end at most once.
pub mod_once : (x c : ℕ) → x < c + c → ((x < c) × (x % c ≡ x)) ⊎ ((c ≤ x) × (x % c ≡ x - c))
mod_once x c h = elim (dec_lt x c) [
  | yes l ↦ inl (l, mod-eq_of_lt l)
  | no l ↦ inr (
    omega arith,
    mod-eq-sub-mod {n = x} {m = c} (omega arith) ∙ mod-eq_of_lt {n = x - c} {m = c} (omega arith),
  )
]

module _ (base cap : ℕ) where
  -- The region, twice in a row.
  abbrev lap : List ℕ
  lap = region base cap ++ region base cap

  -- `n` addresses from `p` on.
  abbrev pub ring : ℕ → ℕ → List ℕ
  ring p n = take n (drop p lap)

  length-lap : length lap ≡ cap + cap
  length-lap =
      omega (arith, length-append (region base cap) (region base cap), length-region base cap)

  pub length-ring : (p n : ℕ) → p + n ≤ cap + cap → length (ring p n) ≡ n
  length-ring p n h = omega (arith, length-take n (drop p lap), length-drop p lap, length-lap)

  -- Short of the end the addresses stand together.
  pub ring_straight : (p n : ℕ) → p + n ≤ cap → ring p n ≡ region (base + p) n
  ring_straight p n h =
      take-drop-append n p (region base cap) (region base cap)
        (omega (arith, length-region base cap))
      ∙ ap (take n) (drop-region p base cap)
      ∙ take-region n (base + p) (cap - p)
      ∙ ap (region (base + p)) (omega arith)

  -- Past the end they go on at the start.
  pub ring_round :
      (p n : ℕ)
      → p ≤ cap
      → n ≤ cap
      → cap ≤ p + n
      → ring p n ≡ region (base + p) (cap - p) ++ region base (n - (cap - p))
  ring_round p n h k l =
      ap (take n) (
        drop-append_in p (region base cap) (region base cap) (omega (arith, length-region base cap))
        ∙ ap (λ t. t ++ region base cap) (drop-region p base cap))
      ∙ take-append_past n (region (base + p) (cap - p)) (region base cap) (cap - p)
          (length-region (base + p) (cap - p)) (omega arith)
      ∙ ap (λ t. region (base + p) (cap - p) ++ t)
          (take-region (n - (cap - p)) base cap ∙ ap (region base) (omega arith))

  -- A lap further on stand the same addresses.
  pub ring_lap : (q n : ℕ) → cap ≤ q → q - cap + n ≤ cap → ring q n ≡ ring (q - cap) n
  ring_lap q n h k =
      ap (take n)
        (drop-append_past q (region base cap) (region base cap) cap (length-region base cap) h)
      ∙ sym (
          take-drop-append n (q - cap) (region base cap) (region base cap)
            (omega (arith, length-region base cap)))

  -- So for the remainder of a position.
  pub ring_mod : (q n : ℕ) → q < cap + cap → q - cap + n ≤ cap → ring (q % cap) n ≡ ring q n
  ring_mod q n h k = elim (mod_once q cap h) [
    | inl (l, e) ↦ ap (λ x. ring x n) e
    | inr (l, e) ↦ ap (λ x. ring x n) e ∙ sym (ring_lap q n l k)
  ]

  pub ring_add : (p a b : ℕ) → ring p (a + b) ≡ ring p a ++ ring (p + a) b
  ring_add p a b = take-add a b (drop p lap) ∙ ap (λ t. ring p a ++ take b t) (drop-drop a p lap)

  pub take-ring : (k p n : ℕ) → k ≤ n → take k (ring p n) ≡ ring p k
  take-ring k p n h = take-take k n (drop p lap) ∙ take_at (drop p lap) _ k (omega arith)

  pub drop-ring : (k p n : ℕ) → k ≤ n → drop k (ring p n) ≡ ring (p + k) (n - k)
  drop-ring k p n h =
      ap (drop k) (take_at (drop p lap) n (k + (n - k)) (omega arith))
      ∙ sym (take-drop (n - k) k (drop p lap))
      ∙ ap (take (n - k)) (drop-drop k p lap)
