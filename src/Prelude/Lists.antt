-- ===== src/Prelude/Lists.antt =====
-- Lists measured, cut and indexed by native numbers, under the library's names.
use Prim.Native.Nat.{ℕ, zero, suc, ◌+◌, ◌-◌, ◌≤◌, min}
use mathlib.Core.Path.{◌≡◌, refl, sym, ap, ap₂, ◌∙◌}
use mathlib.Core.List.{List, [], ◌∷◌, ◌++◌, map, map-append, append-nil, append_assoc}
use mathlib.Core.Option.{Option, none, some}
use native.Mathlib.Decide.{dec_le}
use native.Mathlib.Omega.{arith}

module _ {ℓ} {A : Type ℓ} where
  abbrev pub length : List A → ℕ
  length [] = 0
  length (x ∷ xs) = suc (length xs)

  abbrev pub get_elem? : List A → ℕ → Option A
  get_elem? [] i = none
  get_elem? (x ∷ xs) zero = some x
  get_elem? (x ∷ xs) (suc i) = get_elem? xs i

  abbrev pub take : ℕ → List A → List A
  take zero xs = []
  take (suc n) [] = []
  take (suc n) (x ∷ xs) = x ∷ take n xs

  abbrev pub drop : ℕ → List A → List A
  drop zero xs = xs
  drop (suc n) [] = []
  drop (suc n) (x ∷ xs) = drop n xs

  pub length-append : (xs ys : List A) → length (xs ++ ys) ≡ length xs + length ys
  length-append [] ys = omega arith
  length-append (x ∷ xs) ys = omega (arith, length-append xs ys)

  pub length-take : (n : ℕ) (xs : List A) → length (take n xs) ≡ min n (length xs)
  length-take zero xs = omega arith
  length-take (suc n) [] = omega arith
  length-take (suc n) (x ∷ xs) = omega (arith, length-take n xs)

  pub length-drop : (n : ℕ) (xs : List A) → length (drop n xs) ≡ length xs - n
  length-drop zero xs = omega arith
  length-drop (suc n) [] = omega arith
  length-drop (suc n) (x ∷ xs) = omega (arith, length-drop n xs)

  take_nil : (n : ℕ) → take n [] ≡ []
  take_nil zero = refl
  take_nil (suc n) = refl

  drop_nil : (n : ℕ) → drop n [] ≡ []
  drop_nil zero = refl
  drop_nil (suc n) = refl

  pub take_all : (n : ℕ) (xs : List A) → length xs ≤ n → take n xs ≡ xs
  take_all zero [] h = refl
  take_all zero (x ∷ xs) h = absurd (omega arith)
  take_all (suc n) [] h = refl
  take_all (suc n) (x ∷ xs) h = ap (λ t. x ∷ t) (take_all n xs (omega arith))

  pub drop_all : (n : ℕ) (xs : List A) → length xs ≤ n → drop n xs ≡ []
  drop_all zero [] h = refl
  drop_all zero (x ∷ xs) h = absurd (omega arith)
  drop_all (suc n) [] h = refl
  drop_all (suc n) (x ∷ xs) h = drop_all n xs (omega arith)

  -- Cuts at numbers that are equal.
  pub take_at : (xs : List A) (a b : ℕ) → a ≡ b → take a xs ≡ take b xs
  take_at xs a b e = ap (λ k. take k xs) e

  pub drop_at : (xs : List A) (a b : ℕ) → a ≡ b → drop a xs ≡ drop b xs
  drop_at xs a b e = ap (λ k. drop k xs) e

  -- A cut of an append goes on in the second part by what is left after the first.
  pub take-append :
      (n : ℕ) (xs ys : List A) → take n (xs ++ ys) ≡ take n xs ++ take (n - length xs) ys
  take-append zero xs ys = take_at ys 0 (0 - length xs) (omega arith)
  take-append (suc n) [] ys = take_at ys (suc n) (suc n - 0) (omega arith)
  take-append (suc n) (x ∷ xs) ys =
      ap (λ t. x ∷ t)
        (take-append n xs ys
          ∙ ap (λ t. take n xs ++ t)
              (take_at ys (n - length xs) (suc n - suc (length xs)) (omega arith)))

  pub drop-append :
      (n : ℕ) (xs ys : List A) → drop n (xs ++ ys) ≡ drop n xs ++ drop (n - length xs) ys
  drop-append zero xs ys = ap (λ t. xs ++ t) (drop_at ys 0 (0 - length xs) (omega arith))
  drop-append (suc n) [] ys = drop_at ys (suc n) (suc n - 0) (omega arith)
  drop-append (suc n) (x ∷ xs) ys =
      drop-append n xs ys
      ∙ ap (λ t. drop n xs ++ t)
          (drop_at ys (n - length xs) (suc n - suc (length xs)) (omega arith))

  pub drop-drop : (a b : ℕ) (xs : List A) → drop a (drop b xs) ≡ drop (b + a) xs
  drop-drop a zero xs = drop_at xs a (0 + a) (omega arith)
  drop-drop a (suc b) [] = drop_nil a ∙ sym (drop_nil (suc b + a))
  drop-drop a (suc b) (x ∷ xs) =
      drop-drop a b xs ∙ drop_at (x ∷ xs) (suc (b + a)) (suc b + a) (omega arith)

  pub take-take : (a b : ℕ) (xs : List A) → take a (take b xs) ≡ take (min a b) xs
  take-take zero b xs = take_at xs 0 (min 0 b) (omega arith)
  take-take (suc a) zero xs = take_at xs 0 (min (suc a) 0) (omega arith)
  take-take (suc a) (suc b) [] = sym (take_nil (min (suc a) (suc b)))
  take-take (suc a) (suc b) (x ∷ xs) =
      ap (λ t. x ∷ t) (take-take a b xs)
      ∙ take_at (x ∷ xs) (suc (min a b)) (min (suc a) (suc b)) (omega arith)

  pub take-drop : (a b : ℕ) (xs : List A) → take a (drop b xs) ≡ drop b (take (b + a) xs)
  take-drop a zero xs = take_at xs a (0 + a) (omega arith)
  take-drop a (suc b) [] = take_nil a ∙ sym (ap (drop (suc b)) (take_nil (suc b + a)))
  take-drop a (suc b) (x ∷ xs) =
      take-drop a b xs
      ∙ ap (drop (suc b)) (take_at (x ∷ xs) (suc (b + a)) (suc b + a) (omega arith))

  -- Cutting more than there is.
  pub drop-min : (n k : ℕ) (xs : List A) → length xs ≤ k → drop (min n k) xs ≡ drop n xs
  drop-min n k xs h = elim (dec_le n k) [
    | yes l ↦ drop_at xs (min n k) n (omega arith)
    | no l ↦ drop_all (min n k) xs (omega arith) ∙ sym (drop_all n xs (omega arith))
  ]

  pub take-min : (n k : ℕ) (xs : List A) → length xs ≤ k → take (min n k) xs ≡ take n xs
  take-min n k xs h = elim (dec_le n k) [
    | yes l ↦ take_at xs (min n k) n (omega arith)
    | no l ↦ take_all (min n k) xs (omega arith) ∙ sym (take_all n xs (omega arith))
  ]

  -- A cut in two steps.
  pub take-add : (a b : ℕ) (xs : List A) → take (a + b) xs ≡ take a xs ++ take b (drop a xs)
  take-add zero b xs = take_at xs (0 + b) b (omega arith)
  take-add (suc a) b [] = take_nil (suc a + b) ∙ sym (take_nil b)
  take-add (suc a) b (x ∷ xs) =
      take_at (x ∷ xs) (suc a + b) (suc (a + b)) (omega arith) ∙ ap (λ t. x ∷ t) (take-add a b xs)

  -- A cut of an append, within the first part and past it.
  module _ (n : ℕ) (xs ys : List A) where
    pub take-append_in : n ≤ length xs → take n (xs ++ ys) ≡ take n xs
    take-append_in h =
        take-append n xs ys
        ∙ ap (λ t. take n xs ++ t) (take_at ys (n - length xs) 0 (omega arith))
        ∙ append-nil (take n xs)

    pub drop-append_in : n ≤ length xs → drop n (xs ++ ys) ≡ drop n xs ++ ys
    drop-append_in h =
        drop-append n xs ys ∙ ap (λ t. drop n xs ++ t) (drop_at ys (n - length xs) 0 (omega arith))

    pub take-append_past :
        (k : ℕ) → length xs ≡ k → k ≤ n → take n (xs ++ ys) ≡ xs ++ take (n - k) ys
    take-append_past k e h =
        take-append n xs ys
        ∙ ap₂ ◌++◌ (take_all n xs (omega arith)) (take_at ys (n - length xs) (n - k) (omega arith))

    pub drop-append_past : (k : ℕ) → length xs ≡ k → k ≤ n → drop n (xs ++ ys) ≡ drop (n - k) ys
    drop-append_past k e h =
        drop-append n xs ys
        ∙ ap₂ ◌++◌ (drop_all n xs (omega arith)) (drop_at ys (n - length xs) (n - k) (omega arith))

  -- A piece of the first part of an append.
  pub take-drop-append :
      (j p : ℕ) (xs ys : List A)
      → p + j ≤ length xs
      → take j (drop p (xs ++ ys)) ≡ take j (drop p xs)
  take-drop-append j p xs ys h =
      take-drop j p (xs ++ ys)
      ∙ ap (drop p) (take-append_in (p + j) xs ys h)
      ∙ sym (take-drop j p xs)

  pub take-append-drop : (n : ℕ) (xs : List A) → take n xs ++ drop n xs ≡ xs
  take-append-drop zero xs = refl
  take-append-drop (suc n) [] = refl
  take-append-drop (suc n) (x ∷ xs) = ap (λ t. x ∷ t) (take-append-drop n xs)

module _ {ℓ κ} {A : Type ℓ} {B : Type κ} (f : A → B) where
  pub map-take : (k : ℕ) (xs : List A) → map f (take k xs) ≡ take k (map f xs)
  map-take zero xs = refl
  map-take (suc k) [] = refl
  map-take (suc k) (x ∷ xs) = ap (λ t. f x ∷ t) (map-take k xs)

  pub map-drop : (k : ℕ) (xs : List A) → map f (drop k xs) ≡ drop k (map f xs)
  map-drop zero xs = refl
  map-drop (suc k) [] = refl
  map-drop (suc k) (x ∷ xs) = map-drop k xs

  pub length-map : (xs : List A) → length (map f xs) ≡ length xs
  length-map [] = refl
  length-map (x ∷ xs) = ap suc (length-map xs)

-- How `simp` writes concatenations: the empty list is dropped, and they are bracketed to the right.
pub ruleset list_laws = (append-nil, append_assoc, map-append)

-- What goes into a queue and comes out of it in one step, then in another.
pub then_moves {ℓ} :
    {A : Type ℓ} (xs ys zs p q r s : List A)
    → xs ++ p ≡ r ++ ys
    → ys ++ q ≡ s ++ zs
    → xs ++ (p ++ q) ≡ (r ++ s) ++ zs
then_moves xs ys zs p q r s e f =
    sym (append_assoc xs p q) ∙ ap (λ t. t ++ q) e ∙ simp list_laws (ap (λ t. r ++ t) f)
