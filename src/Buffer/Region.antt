-- ===== src/Buffer/Region.antt =====
-- The addresses of a contiguous region, first to last.
use buffers.Prelude.{
  ℕ, zero, suc, ◌+◌, ◌-◌, min, ◌≡◌, refl, sym, ap, ◌∙◌, List, [], ◌∷◌, ◌++◌, arith, length, take,
  drop,
}

abbrev pub region : ℕ → ℕ → List ℕ
region p zero = []
region p (suc n) = p ∷ region (p + 1) n

-- Regions at equal places are equal.
pub region_at : (p q n m : ℕ) → p ≡ q → n ≡ m → region p n ≡ region q m
region_at p q n m e f = ap (λ x. region x n) e ∙ ap (region q) f

pub region_empty : (p q n m : ℕ) → n ≡ 0 → m ≡ 0 → region p n ≡ region q m
region_empty p q n m e f = ap (region p) e ∙ sym (ap (region q) f)

pub length-region : (p n : ℕ) → length (region p n) ≡ n
length-region p zero = refl
length-region p (suc n) = ap suc (length-region (p + 1) n)

pub take-region : (k p n : ℕ) → take k (region p n) ≡ region p (min k n)
take-region zero p n = region_at p p 0 (min 0 n) refl (omega arith)
take-region (suc k) p zero = region_at p p 0 (min (suc k) 0) refl (omega arith)
take-region (suc k) p (suc n) =
    ap (λ t. p ∷ t) (take-region k (p + 1) n)
    ∙ region_at p p (suc (min k n)) (min (suc k) (suc n)) refl (omega arith)

pub drop-region : (k p n : ℕ) → drop k (region p n) ≡ region (p + k) (n - k)
drop-region zero p n = region_at p (p + 0) n (n - 0) (omega arith) (omega arith)
drop-region (suc k) p zero = ap (region (p + suc k)) {x = 0} {y = 0 - suc k} (omega arith)
drop-region (suc k) p (suc n) =
    drop-region k (p + 1) n
    ∙ region_at (p + 1 + k) (p + suc k) (n - k) (suc n - suc k) (omega arith) (omega arith)

pub region-add : (p a b : ℕ) → region p (a + b) ≡ region p a ++ region (p + a) b
region-add p zero b = region_at p (p + 0) (0 + b) b (omega arith) (omega arith)
region-add p (suc a) b =
    region_at p p (suc a + b) (suc (a + b)) refl (omega arith)
    ∙ ap (λ t. p ∷ t)
        (region-add (p + 1) a b
          ∙ ap (λ t. region (p + 1) a ++ t)
              (region_at (p + 1 + a) (p + suc a) b b (omega arith) refl))
