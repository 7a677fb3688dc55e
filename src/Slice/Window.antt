-- ===== src/Slice/Window.antt =====
-- The buffers between two positions of a sequence.
use buffers.Prelude.{
  ℕ, zero, suc, ◌+◌, ◌-◌, ◌<◌, ◌≤◌, ◌≡◌, refl, sym, ap, ◌∙◌, List, [], ◌∷◌, ◌++◌, some, arith,
  length, get_elem?, take, drop, take_at, drop_at, length-take, length-drop, take-append-drop,
}
use buffers.Buffer.{BasicBuffer}
use buffers.Sequence.{BufferSequence}
use buffers.Sequence.Laws.{total, total-append}

module _ {ℓ} {A : Type ℓ} where
  -- The item at a position, and the list cut there.
  drop_cons :
      (xs : List A) (i : ℕ)
      → i < length xs
      → (x : A) × (get_elem? xs i ≡ some x) × (drop i xs ≡ x ∷ drop (i + 1) xs)
  drop_cons [] i h = absurd (omega arith)
  drop_cons (x ∷ xs) zero h = (x, refl, ap (λ t. x ∷ t) (drop_at (x ∷ xs) 1 (0 + 1) (omega arith)))
  drop_cons (x ∷ xs) (suc i) h =
      let (y, e, f) = drop_cons xs i (omega arith) in
      (y, e, f ∙ ap (λ t. y ∷ t) (drop_at (x ∷ xs) (suc (i + 1)) (suc i + 1) (omega arith)))

  take_snoc :
      (xs : List A) (i : ℕ)
      → i < length xs
      → (x : A) × (get_elem? xs i ≡ some x) × (take (i + 1) xs ≡ take i xs ++ x ∷ [])
  take_snoc [] i h = absurd (omega arith)
  take_snoc (x ∷ xs) zero h = (x, refl, take_at (x ∷ xs) (0 + 1) 1 (omega arith))
  take_snoc (x ∷ xs) (suc i) h =
      let (y, e, f) = take_snoc xs i (omega arith) in
      (y, e, take_at (x ∷ xs) (suc i + 1) (suc (i + 1)) (omega arith) ∙ ap (λ t. x ∷ t) f)

  get_elem?-drop : (xs : List A) (b k : ℕ) → get_elem? (drop b xs) k ≡ get_elem? xs (b + k)
  get_elem?-drop xs zero k = ap (get_elem? xs) (omega arith)
  get_elem?-drop [] (suc b) k = refl
  get_elem?-drop (x ∷ xs) (suc b) k =
      get_elem?-drop xs b k
      ∙ ap (get_elem? (x ∷ xs)) (let e : suc (b + k) ≡ suc b + k = omega arith in e)

abbrev pub window : BufferSequence → ℕ → ℕ → BufferSequence
window bs b e = take (e - b) (drop b bs)

module _ (bs : BufferSequence) where
  pub window_empty : (b e : ℕ) → e ≤ b → window bs b e ≡ []
  window_empty b e h = take_at (drop b bs) (e - b) 0 (omega arith)

  pub length-window : (b e : ℕ) → b ≤ e → e ≤ length bs → length (window bs b e) ≡ e - b
  length-window b e h k = omega (arith, length-take (e - b) (drop b bs), length-drop b bs)

  pub total-window-le : (b e : ℕ) → total (window bs b e) ≤ total bs
  total-window-le b e =
      let cut = take-append-drop (e - b) (drop b bs) in
      omega (
        arith,
        ap total cut,
        total-append (take (e - b) (drop b bs)) (drop (e - b) (drop b bs)),
        ap total (take-append-drop b bs),
        total-append (take b bs) (drop b bs),
      )

  -- A window that is not empty, from its first buffer on.
  pub window_cons :
      (b e : ℕ)
      → b < e
      → e ≤ length bs
      → (x : BasicBuffer) × (get_elem? bs b ≡ some x) × (window bs b e ≡ x ∷ window bs (b + 1) e)
  window_cons b e h k =
      let (x, f, g) = drop_cons bs b (omega arith) in
      (
        x,
        f,
        ap (take (e - b)) g
            ∙ take_at (x ∷ drop (b + 1) bs) (e - b) (suc (e - (b + 1))) (omega arith),
      )

  -- The same window, up to its last buffer.
  pub window_snoc :
      (b k : ℕ)
      → b + k < length bs
      → (x : BasicBuffer) × (get_elem? bs (b + k) ≡ some x)
        × (window bs b (b + k + 1) ≡ window bs b (b + k) ++ x ∷ [])
  window_snoc b k h =
      let (x, f, g) = take_snoc (drop b bs) k (omega (arith, length-drop b bs)) in
      (
        x,
        sym (get_elem?-drop bs b k) ∙ f,
        take_at (drop b bs) (b + k + 1 - b) (k + 1) (omega arith)
            ∙ g
            ∙ ap (λ n. take n (drop b bs) ++ x ∷ []) (omega arith),
      )
