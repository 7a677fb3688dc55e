-- ===== src/Copy/Distinct.antt =====
-- Regions have no address twice, and lists without one that stand one after the other.
use buffers.Prelude.{
  ℕ, zero, suc, ◌+◌, ◌≤◌, ◌<◌, ◌≡◌, refl, ap₂, map, ◌⊎◌, List, [], ◌∷◌, ◌++◌, arith, take, drop,
  take_all, length,
}
use mathlib.Core.Path.{subst}
use buffers.Buffer.Region.{region}
use buffers.Copy.Bytes.{Avoids, Distinct, Apart, copy_bytes, copy_bytes-Avoids, Apart-take}
use buffers.Sequence.{Memory}

Avoids-append : (a : ℕ) (xs ys : List ℕ) → Avoids a xs → Avoids a ys → Avoids a (xs ++ ys)
Avoids-append a [] ys u v = v
Avoids-append a (x ∷ xs) ys u v = (u.0, Avoids-append a xs ys u.1 v)

-- The two parts of an append.
Avoids-parts : (a : ℕ) (xs ys : List ℕ) → Avoids a (xs ++ ys) → Avoids a xs × Avoids a ys
Avoids-parts a [] ys u = (tt, u)
Avoids-parts a (x ∷ xs) ys u = let (v, w) = Avoids-parts a xs ys u.1 in ((u.0, v), w)

Avoids-region : (a p n : ℕ) → (a < p) ⊎ (p + n ≤ a) → Avoids a (region p n)
Avoids-region a p zero h = tt
Avoids-region a p (suc n) h = (omega (arith, h), Avoids-region a (p + 1) n (omega (arith, h)))

pub Distinct-region : (p n : ℕ) → Distinct (region p n)
Distinct-region p zero = tt
Distinct-region p (suc n) = (Avoids-region p (p + 1) n (omega arith), Distinct-region (p + 1) n)

-- A region behind another one.
pub Distinct-regions : (p n q m : ℕ) → q + m ≤ p → Distinct (region p n ++ region q m)
Distinct-regions p zero q m h = Distinct-region q m
Distinct-regions p (suc n) q m h = (
  Avoids-append p (region (p + 1) n) (region q m) (Avoids-region p (p + 1) n (omega arith))
      (Avoids-region p q m (omega arith)),
  Distinct-regions (p + 1) n q m (omega arith),
)

-- An append without an address twice: its second part has none either, and stands apart from the
-- first.
pub Distinct-parts : (xs ys : List ℕ) → Distinct (xs ++ ys) → Distinct ys × Apart ys xs
Distinct-parts [] ys u = (u, tt)
Distinct-parts (x ∷ xs) ys u =
    let (v, w) = Distinct-parts xs ys u.1 in (v, ((Avoids-parts x xs ys u.0).1, w))

Avoids-drop : (a k : ℕ) (xs : List ℕ) → Avoids a xs → Avoids a (drop k xs)
Avoids-drop a zero xs u = u
Avoids-drop a (suc k) [] u = u
Avoids-drop a (suc k) (x ∷ xs) u = Avoids-drop a k xs u.1

pub Apart-append : (xs ys as' : List ℕ) → Apart xs as' → Apart ys as' → Apart (xs ++ ys) as'
Apart-append xs ys [] u v = tt
Apart-append xs ys (a ∷ as') u v = (Avoids-append a xs ys u.0 v.0, Apart-append xs ys as' u.1 v.1)

-- Any addresses in a row of a list are apart from what the list is apart from.
pub Apart-window : (n k : ℕ) (xs as' : List ℕ) → Apart xs as' → Apart (take n (drop k xs)) as'
Apart-window n k xs as' u =
    subst (Apart (take n (drop k xs))) (take_all (length as') as' (omega arith))
      (Apart-take n (length as') (drop k xs) as' (go as' u))
  where
    go : (bs : List ℕ) → Apart xs bs → Apart (drop k xs) bs
    go [] u = tt
    go (b ∷ bs) u = (Avoids-drop b k xs u.0, go bs u.1)

-- The addresses apart from the written ones keep their bytes.
pub map-copy_bytes-Apart :
    (m : Memory) (ds ss qs : List ℕ) → Apart ds qs → map (copy_bytes m ds ss) qs ≡ map m qs
map-copy_bytes-Apart m ds ss [] u = refl
map-copy_bytes-Apart m ds ss (a ∷ qs) u =
    ap₂ ◌∷◌ (copy_bytes-Avoids m ds ss a u.0) (map-copy_bytes-Apart m ds ss qs u.1)
