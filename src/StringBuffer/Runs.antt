-- ===== src/StringBuffer/Runs.antt =====
-- What is left in the string after any use of a string buffer.
use buffers.Prelude.{
  ℕ, ◌+◌, ◌≤◌, ◌≡◌, sym, ap, ap₂, ◌∙◌, List, [], ◌++◌, append-nil, Option, none, some, inl, inr,
  arith, tests, ltb, Bool-cases, then_moves, length, length-append, length-take, length-drop, take,
  drop, take_at, take-add, take-take, take-append-drop, min,
}
use mathlib.Core.Option.{some-injective}
use mathlib.Core.Path.{subst}
use buffers.Error.{Exception, ok, throws, ok-injective}
use buffers.StringBuffer.{
  StringBuffer, on_string, overwrite, data_chars, prepare, commit, consume, fill, destroy, resize,
}
use buffers.StringBuffer.Laws.{
  IsValid, data_chars-prepare, data_chars-consume, take-overwrite, commit-IsValid,
}
use buffers.StringBuffer.Move.{resize-take}

-- Of the string, `f`; nothing where there is none.
abbrev of_string : (List ℕ → List ℕ) → Option (List ℕ) → List ℕ
of_string f none = []
of_string f (some s) = f s

-- The readable characters, and those of the buffer that `prepare` returned.
abbrev pub readable : StringBuffer → List ℕ
readable b = of_string (take b.in_size) b.string

abbrev pub prepared : StringBuffer → List ℕ
prepared b = of_string (λ s. take b.out_size (drop b.in_size s)) b.string

-- A step of a client, with the characters that it commits and those that it consumes. It writes
-- only into the buffer that `prepare` returned.
pub data Step (b : StringBuffer) : List ℕ → List ℕ → StringBuffer → Type 0 where
  prepares : (n i k : ℕ) (b' : StringBuffer) → prepare b n ≡ ok (b', i, k) → Step b [] [] b'
  fails : (n : ℕ) (x : Exception) → prepare b n ≡ throws x → Step b [] [] b
  writes : (xs : List ℕ) → length xs ≡ b.out_size → Step b [] [] (fill b b.in_size xs)
  commits : (n : ℕ) → Step b (take n (prepared b)) [] (commit b n)
  consumes : (n : ℕ) (b' : StringBuffer) → consume b n ≡ ok b' → Step b [] (take n (readable b)) b'

-- Steps in a row, with all characters that they commit and all that they consume.
pub data Run (b : StringBuffer) : List ℕ → List ℕ → StringBuffer → Type 0 where
  here : Run b [] [] b
  next :
      {p r p' r' : List ℕ} {t u : StringBuffer}
      → Run b p r t
      → Step t p' r' u
      → Run b (p ++ p') (r ++ r') u

-- The buffer is valid, of some string.
abbrev pub IsSound : StringBuffer → Type 0
IsSound b = (s : List ℕ) × IsValid b s

readable_eq : (b : StringBuffer) (s : List ℕ) → IsValid b s → readable b ≡ take b.in_size s
readable_eq b s v = ap (of_string (take b.in_size)) v.string

data_chars-readable : (b : StringBuffer) → IsSound b → data_chars b ≡ some (readable b)
unfolding data_chars
data_chars-readable b (s, v) =
    ap (on_string (take b.in_size)) v.string ∙ ap some (sym (readable_eq b s v))

destroy-readable : (b : StringBuffer) → IsSound b → destroy b ≡ some (readable b)
unfolding destroy
destroy-readable b (s, v) =
    ap (on_string (λ t. resize t b.in_size)) v.string
    ∙ ap some (resize-take s b.in_size (omega (arith, v.held)) ∙ sym (readable_eq b s v))

Moves : StringBuffer → List ℕ → List ℕ → StringBuffer → Type 0
Moves b p r t = IsSound t × (readable b ++ p ≡ r ++ readable t)

-- Two buffers with the same `data()` have the same readable characters.
same_readable :
    (b b' : StringBuffer)
    → IsSound b
    → IsSound b'
    → data_chars b' ≡ data_chars b
    → readable b' ≡ readable b
same_readable b b' v w e =
    some-injective (readable b') (readable b)
      (sym (data_chars-readable b' w) ∙ e ∙ data_chars-readable b v)

prepares-Moves :
    (b b' : StringBuffer) (n i k : ℕ) → IsSound b → prepare b n ≡ ok (b', i, k) → Moves b [] [] b'
unfolding Moves
prepares-Moves b b' n i k (s, v) h = elim (data_chars-prepare b s n v) [
  | inl (l, e) ↦ absurd (let f : throws _ ≡ ok (b', i, k) = rw e at h in cc)
  | inr (l, c, s', e, w, _, _, f) ↦
      let same : c ≡ b' = ap (λ (x : StringBuffer × ℕ × ℕ). x.0) (ok-injective _ _ (sym e ∙ h)) in
      let v' = subst IsSound same (s', w) in
      (
        v',
        append-nil (readable b) ∙ sym (same_readable b b' (s, v) v' (ap data_chars (sym same) ∙ f)),
      )
]

length-overwrite :
    (s xs : List ℕ) (i : ℕ) → i + length xs ≤ length s → length (overwrite s i xs) ≡ length s
length-overwrite s xs i h = omega (
  arith,
  length-append (take i s) (xs ++ drop (i + length xs) s),
  length-append xs (drop (i + length xs) s),
  length-take i s,
  length-drop (i + length xs) s,
)

writes-Moves :
    (b : StringBuffer) (xs : List ℕ)
    → IsSound b
    → length xs ≡ b.out_size
    → Moves b [] [] (fill b b.in_size xs)
unfolding Moves fill
writes-Moves b xs (s, v) e = (
  (
    overwrite s b.in_size xs,
    record {
      string = ap (on_string (λ u. overwrite u b.in_size xs)) v.string;
      small = v.small;
      held = omega (arith, v.held, length-overwrite s xs b.in_size (omega (arith, v.held)));
      bounded = v.bounded;
    },
  ),
  append-nil (readable b)
      ∙ readable_eq b s v
      ∙ sym (
          ap (λ t. of_string (take b.in_size) (on_string (λ u. overwrite u b.in_size xs) t))
            v.string
          ∙ take_at (overwrite s b.in_size xs) b.in_size (b.in_size + 0) (omega arith)
          ∙ take-overwrite s xs b.in_size 0 (omega (arith, v.held)) (omega arith)
          ∙ append-nil (take b.in_size s)),
)

-- `commit` takes in as much as was prepared, at most.
in_size-commit :
    (b : StringBuffer) (s : List ℕ) (n : ℕ)
    → IsValid b s
    → (commit b n).in_size ≡ b.in_size + min n b.out_size
unfolding commit
in_size-commit b s n v = elim (Bool-cases (ltb n b.out_size)) [
  | inl e ↦ rw e (omega (tests, v.small, v.bounded))
  | inr e ↦ rw e (omega (tests, v.small, v.bounded))
]

commits-Moves :
    (b : StringBuffer) (n : ℕ) → IsSound b → Moves b (take n (prepared b)) [] (commit b n)
unfolding Moves
commits-Moves b n (s, v) = (
  (s, commit-IsValid b s n v),
  ap₂ ◌++◌ (readable_eq b s v) (
        ap (λ t. take n (of_string (λ u. take b.out_size (drop b.in_size u)) t)) v.string
        ∙ take-take n b.out_size (drop b.in_size s))
      ∙ sym (
          readable_eq (commit b n) s (commit-IsValid b s n v)
          ∙ take_at s (commit b n).in_size (b.in_size + min n b.out_size) (in_size-commit b s n v)
          ∙ take-add b.in_size (min n b.out_size) s),
)

consumes-Moves :
    (b b' : StringBuffer) (n : ℕ)
    → IsSound b
    → consume b n ≡ ok b'
    → Moves b [] (take n (readable b)) b'
unfolding Moves
consumes-Moves b b' n (s, v) h =
    let (c, s', e, w, f) = data_chars-consume b s n v in
    let same : c ≡ b' = ok-injective _ _ (sym e ∙ h) in
    let v' : IsSound b' = subst IsSound same (s', w) in
    let rest : readable b' ≡ drop n (take b.in_size s) =
      some-injective (readable b') _
        (sym (data_chars-readable b' v') ∙ ap data_chars (sym same) ∙ f) in
    (
      v',
      append-nil (readable b)
          ∙ sym (
              ap (λ t. take n (readable b) ++ t) (rest ∙ ap (drop n) (sym (readable_eq b s v)))
              ∙ take-append-drop n (readable b)),
    )

Step-Moves : (b t : StringBuffer) (p r : List ℕ) → IsSound b → Step b p r t → Moves b p r t
unfolding Moves
Step-Moves b _ _ _ v (Step.prepares n i k b' h) = prepares-Moves b b' n i k v h
Step-Moves b _ _ _ v (Step.fails n x h) = (v, append-nil (readable b))
Step-Moves b _ _ _ v (Step.writes xs e) = writes-Moves b xs v e
Step-Moves b _ _ _ v (Step.commits n) = commits-Moves b n v
Step-Moves b _ _ _ v (Step.consumes n b' h) = consumes-Moves b b' n v h

Run-Moves : (b t : StringBuffer) (p r : List ℕ) → IsSound b → Run b p r t → Moves b p r t
unfolding Moves
Run-Moves b _ _ _ v Run.here = (v, append-nil (readable b))
Run-Moves b _ _ _ v (Run.next {p} {r} {p'} {r'} {t} {u} run step) =
    let (vt, e) = Run-Moves b t p r v run in
    let (vu, f) = Step-Moves t u p' r' vt step in
    (vu, then_moves (readable b) (readable t) (readable u) p p' r r' e f)

-- From a valid buffer, after any row of calls of `prepare`, writes into the buffer that it
-- returned, and calls of `commit` and `consume`, calls of `prepare` that throw included: the
-- characters that were readable, followed by all that were committed, are all that were consumed,
-- followed by the ones that are readable now, and `data()` returns these and the destructor leaves
-- exactly them in the string.
pub Run-destroy :
    (b t : StringBuffer) (p r : List ℕ)
    → IsSound b
    → Run b p r t
    → (readable b ++ p ≡ r ++ readable t)
      × (data_chars t ≡ some (readable t))
      × (destroy t ≡ some (readable t))
unfolding Moves
Run-destroy b t p r v run =
    let (vt, e) = Run-Moves b t p r v run in (e, data_chars-readable t vt, destroy-readable t vt)
