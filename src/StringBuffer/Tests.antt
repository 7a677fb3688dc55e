-- ===== src/StringBuffer/Tests.antt =====
-- A string buffer between two operations, and the theorems at it.
use buffers.Prelude.{ℕ, ◌+◌, ◌<◌, ◌≤◌, ◌≡◌, ◌⊎◌, refl, List, [], ◌∷◌, ◌++◌, some, none, arith}
use buffers.Error.{ok, throws, invalid_argument}
use buffers.StringBuffer.{
  StringBuffer, init, move, destroy, size, capacity, data_chars, prepare, commit, consume, fill,
}
use buffers.StringBuffer.Laws.{IsValid, init-IsValid, data_chars-prepare}
use buffers.StringBuffer.Runs.{IsSound, Step, Run, readable, Run-destroy}
use buffers.StringBuffer.Move.{move_loses}

abbrev chars : List ℕ
chars = 7 ∷ 8 ∷ 9 ∷ 0 ∷ 0 ∷ []

-- Three characters are readable, and two were prepared.
abbrev filled : StringBuffer
filled = record { string = some chars; max_size = 6; in_size = 3; out_size = 2 }

filled-IsValid : IsValid filled chars
filled-IsValid = record {
  string = refl;
  small = omega arith;
  held = omega arith;
  bounded = omega arith;
}

data_chars-prepare_example :
    ((6 < 3 + 4) × (prepare filled 4 ≡ throws invalid_argument))
    ⊎ ((3 + 4 ≤ 6)
        × (b' : StringBuffer) × (s' : List ℕ) × (prepare filled 4 ≡ ok (b', 3, 4))
        × IsValid b' s'
        × (b'.in_size ≡ 3)
        × (b'.out_size ≡ 4)
        × (data_chars b' ≡ data_chars filled))
data_chars-prepare_example = data_chars-prepare filled chars 4 filled-IsValid

-- After a call of `prepare` that throws, two characters were written over the prepared buffer, one
-- was committed, and two were consumed.
abbrev drained : StringBuffer
drained = record { string = some (9 ∷ 5 ∷ 6 ∷ []); max_size = 6; in_size = 2; out_size = 0 }

drained-Run : Run filled (5 ∷ []) (7 ∷ 8 ∷ []) drained
unfolding commit consume fill
drained-Run =
    Run.next
      (Run.next
        (Run.next (Run.next Run.here (Step.fails 4 invalid_argument too_large))
          (Step.writes (5 ∷ 6 ∷ []) refl))
        (Step.commits 1))
      (Step.consumes 2 drained refl)
  where
    too_large : prepare filled 4 ≡ throws invalid_argument
    too_large = unfold prepare in refl

Run-destroy_example :
    (readable filled ++ (5 ∷ []) ≡ (7 ∷ 8 ∷ []) ++ readable drained)
    × (data_chars drained ≡ some (readable drained))
    × (destroy drained ≡ some (readable drained))
Run-destroy_example =
    Run-destroy filled drained (5 ∷ []) (7 ∷ 8 ∷ []) (chars, filled-IsValid) drained-Run

move_loses_example :
    (data_chars (move filled).0 ≡ some [])
    × (destroy (move filled).0 ≡ some [])
    × (destroy (move filled).1 ≡ none)
    × (destroy filled ≡ some (7 ∷ 8 ∷ 9 ∷ []))
move_loses_example = move_loses filled chars filled-IsValid

first_steps :
    (size (init (1 ∷ 2 ∷ []) 100 10) ≡ 2)
    × (capacity 15 (init (1 ∷ 2 ∷ []) 100 10) ≡ 8)
    × (prepare (init (1 ∷ 2 ∷ []) 100 10) 2
        ≡ ok (
          record { string = some (1 ∷ 2 ∷ 0 ∷ 0 ∷ []); max_size = 10; in_size = 2; out_size = 2 },
          2,
          2,
        ))
unfolding init size capacity prepare
first_steps = (refl, refl, refl)

-- A buffer of a string of two characters, among ten at most.
begun-IsSound : IsSound (init (1 ∷ 2 ∷ []) 100 10)
begun-IsSound = init-IsValid (1 ∷ 2 ∷ []) 100 10 (omega arith)
