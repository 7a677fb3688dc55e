-- ===== src/Copy/Bytes.antt =====
-- Writing bytes into a memory: `std::memcpy`, and a byte at a time over lists of addresses.
use buffers.Prelude.{
  sym, ℕ, zero, suc, ◌≡◌, ◌≢◌, refl, ap, ap₂, ◌∙◌, List, [], ◌∷◌, ◌++◌, map, false, arith, ◌==◌,
  if◌then◌else◌, length, take,
}
use buffers.Buffer.Region.{region}
use buffers.Sequence.{Memory}

abbrev pub write : Memory → ℕ → ℕ → Memory
write m a v = λ p. if p == a then v else m p

-- Each destination takes the byte of its source, in order, until either list ends.
pub copy_bytes : Memory → List ℕ → List ℕ → Memory
copy_bytes m [] ss = m
copy_bytes m (d ∷ ds) [] = m
copy_bytes m (d ∷ ds) (s ∷ ss) = copy_bytes (write m d (m s)) ds ss

-- `std::memcpy(d, s, n)`. Its result is documented for regions that do not overlap; the model
-- gives every call one, that of copying first to last.
pub memcpy : Memory → ℕ → ℕ → ℕ → Memory
memcpy m d s n = copy_bytes m (region d n) (region s n)

pub copy_bytes_none :
    (m : Memory) (n : ℕ) (ds ss : List ℕ) → n ≡ 0 → copy_bytes m (take n ds) (take n ss) ≡ m
unfolding copy_bytes
copy_bytes_none m n ds ss e = ap (λ k. copy_bytes m (take k ds) (take k ss)) e

pub copy_bytes-append :
    (m : Memory) (ds ds' ss ss' : List ℕ)
    → length ds ≡ length ss
    → copy_bytes m (ds ++ ds') (ss ++ ss') ≡ copy_bytes (copy_bytes m ds ss) ds' ss'
unfolding copy_bytes
copy_bytes-append m [] ds' [] ss' e = refl
copy_bytes-append m [] ds' (s ∷ ss) ss' e = absurd (omega arith)
copy_bytes-append m (d ∷ ds) ds' [] ss' e = absurd (omega arith)
copy_bytes-append m (d ∷ ds) ds' (s ∷ ss) ss' e =
    copy_bytes-append (write m d (m s)) ds ds' ss ss' (omega arith)

-- No address of the list is `a`.
abbrev pub Avoids : ℕ → List ℕ → Type 0
Avoids a [] = Unit {0}
Avoids a (d ∷ ds) = (d ≢ a) × Avoids a ds

-- No two addresses of the list are equal.
abbrev pub Distinct : List ℕ → Type 0
Distinct [] = Unit {0}
Distinct (d ∷ ds) = Avoids d ds × Distinct ds

-- No address of the second list is among the first.
abbrev pub Apart : List ℕ → List ℕ → Type 0
Apart ds [] = Unit {0}
Apart ds (s ∷ ss) = Avoids s ds × Apart ds ss

pub copy_bytes-Avoids :
    (m : Memory) (ds ss : List ℕ) (a : ℕ) → Avoids a ds → copy_bytes m ds ss a ≡ m a
unfolding copy_bytes
copy_bytes-Avoids m [] ss a h = refl
copy_bytes-Avoids m (d ∷ ds) [] a h = refl
copy_bytes-Avoids m (d ∷ ds) (s ∷ ss) a h =
    copy_bytes-Avoids (write m d (m s)) ds ss a h.1 ∙ ground arith

-- A write outside a list of addresses leaves the bytes there.
map-write : (m : Memory) (d v : ℕ) (ss : List ℕ) → Avoids d ss → map (write m d v) ss ≡ map m ss
map-write m d v [] h = refl
map-write m d v (s ∷ ss) h = ap₂ ◌∷◌ (ground (arith, h.0)) (map-write m d v ss h.1)

Avoids-of-Apart : (d : ℕ) (ds ss : List ℕ) → Apart (d ∷ ds) ss → Avoids d ss × Apart ds ss
Avoids-of-Apart d ds [] h = (tt, tt)
Avoids-of-Apart d ds (s ∷ ss) h =
    let ih = Avoids-of-Apart d ds ss h.1 in (((λ e. h.0.0 (sym e)), ih.0), (h.0.1, ih.1))

-- Between distinct destinations and sources apart from them, the destinations end up with the
-- bytes that the sources had.
pub map-copy_bytes :
    (m : Memory) (ds ss : List ℕ)
    → length ds ≡ length ss
    → Distinct ds
    → Apart ds ss
    → map (copy_bytes m ds ss) ds ≡ map m ss
unfolding copy_bytes
map-copy_bytes m [] [] e u v = refl
map-copy_bytes m [] (s ∷ ss) e u v = absurd (omega arith)
map-copy_bytes m (d ∷ ds) [] e u v = absurd (omega arith)
map-copy_bytes m (d ∷ ds) (s ∷ ss) e u v =
    let w = Avoids-of-Apart d ds ss v.1 in
    ap₂ ◌∷◌ (copy_bytes-Avoids (write m d (m s)) ds ss d u.0 ∙ ground arith)
      (map-copy_bytes (write m d (m s)) ds ss (omega arith) u.1 w.1 ∙ map-write m d (m s) ss w.0)

Avoids-take : (a n : ℕ) (ds : List ℕ) → Avoids a ds → Avoids a (take n ds)
Avoids-take a zero ds h = tt
Avoids-take a (suc n) [] h = tt
Avoids-take a (suc n) (d ∷ ds) h = (h.0, Avoids-take a n ds h.1)

pub Distinct-take : (n : ℕ) (ds : List ℕ) → Distinct ds → Distinct (take n ds)
Distinct-take zero ds h = tt
Distinct-take (suc n) [] h = tt
Distinct-take (suc n) (d ∷ ds) h = (Avoids-take d n ds h.0, Distinct-take n ds h.1)

pub Apart-take : (n k : ℕ) (ds ss : List ℕ) → Apart ds ss → Apart (take n ds) (take k ss)
Apart-take n zero ds ss h = tt
Apart-take n (suc k) ds [] h = tt
Apart-take n (suc k) ds (s ∷ ss) h = (Avoids-take s n ds h.0, Apart-take n k ds ss h.1)

-- The guard `n != 0` round the call changes nothing.
pub memcpy-eq :
    (m : Memory) (d s a : ℕ)
    → (if a == 0 then m else memcpy m d s a) ≡ copy_bytes m (region d a) (region s a)
unfolding memcpy copy_bytes
memcpy-eq m d s zero = refl
memcpy-eq m d s (suc a) = rw (let e : (suc a == 0) ≡ false = ground arith in e)
