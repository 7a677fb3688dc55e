-- ===== src/AnyBuffers/Owners/Tests.antt =====
-- A program with small and large implementations, and the theorem at it.
use buffers.Prelude.{ℕ, ◌≡◌, refl, Bool, true, false, ◌||◌, List, [], ◌∷◌, map, Option, none, some}
use buffers.AnyBuffers.Owners.{
  Command, defaults, constructs, copies, assigns, destroys, held, World, empty_world, perform,
  perform_all, make, hold, copy_construct, copy_assign, destroy_sp, owner_at, owns, remove, release,
  set_sp, copy_impl, all_allowed, total_effect, is_alive,
}
use buffers.AnyBuffers.Owners.Alive.{perform_all-undestroyed}

-- A small sequence at 1 and a large one at 2, whose copy at 3 is replaced by a copy of the small
-- one. That is assigned to itself, and copied to 4 after the original is gone.
abbrev program : List Command
program =
    constructs 1 24
    ∷ constructs 2 100
    ∷ copies 3 2
    ∷ assigns 3 1
    ∷ assigns 3 3
    ∷ destroys 1
    ∷ copies 4 3
    ∷ defaults 5
    ∷ assigns 2 5
    ∷ destroys 3
    ∷ []

program-allowed : all_allowed program (λ a. false) ≡ true
unfolding all_allowed
program-allowed = refl

perform_all-undestroyed_example :
    (w : World) × (perform_all program empty_world ≡ some w)
    × ((a : ℕ) → is_alive w a ≡ total_effect program (λ a. false) a)
    × ((n : ℕ) → w.undestroyed n ≡ (w.placed n || held n w.holders))
perform_all-undestroyed_example = perform_all-undestroyed program program-allowed

-- Of the five implementations that the program makes, the two large ones were destroyed.
abbrev left : List ℕ → Option World → Option (List Bool)
left ns none = none
left ns (some w) = some (map w.undestroyed ns)

left_after :
    left (0 ∷ 1 ∷ 2 ∷ 3 ∷ 4 ∷ []) (perform_all program empty_world)
    ≡ some (true ∷ false ∷ false ∷ true ∷ true ∷ [])
unfolding perform_all perform make hold copy_construct copy_assign destroy_sp owner_at remove owns
    release set_sp copy_impl held
left_after = refl
