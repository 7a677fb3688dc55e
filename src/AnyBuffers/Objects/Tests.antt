-- ===== src/AnyBuffers/Objects/Tests.antt =====
-- A program with two iterators of a type-erased sequence.
use buffers.Prelude.{ℕ, ◌≡◌, refl, List, [], ◌∷◌, Bool, false, some, none}
use buffers.Buffer.{buffer}
use buffers.AnyBuffers.Range.{SequenceType, list_sequence}
use buffers.AnyBuffers.{AnyBuffers, large_iter, index, impl_begin, begin, increment, inc}
use buffers.AnyBuffers.Objects.{
  World, Command, begins, copies, assigns, increments, destroys, no_iterators, perform, perform_all,
  allowed, effect, all_allowed, total_effect, held, all_values, values, construct_begin, it_make,
  make,
}
use buffers.AnyBuffers.Objects.Cells.{Cell, no_iterators-IsSound}
use buffers.AnyBuffers.Objects.Lifetime.{perform_all-values}

-- Iterators of 40 bytes: an index is kept instead.
abbrev wide : SequenceType
wide = list_sequence 64 40

abbrev erased : AnyBuffers wide
erased = record {
  storage = 1000;
  sp = 2000;
  impl = large_iter (buffer 100 2 ∷ buffer 200 0 ∷ []) 2;
}

-- The copy goes on, and is assigned to the original and to itself.
abbrev loop : List (Command wide)
loop =
    begins 10 erased
    ∷ copies 60 10
    ∷ increments 60
    ∷ assigns 10 60
    ∷ assigns 60 60
    ∷ destroys 10
    ∷ []

abbrev none_alive : ℕ → Bool
none_alive a = false

perform_all-values_example :
    (w' : World wide) × (perform_all wide loop (no_iterators wide) ≡ some w')
    × ((a : ℕ) → Cell wide (total_effect wide loop none_alive a) (w'.vars a) (w'.objects a))
    × (held wide w' ≡ all_values wide loop (held wide (no_iterators wide)))
unfolding all_allowed allowed effect
perform_all-values_example =
    perform_all-values wide loop none_alive (no_iterators wide) (no_iterators-IsSound wide) refl

-- The copy is left, at the second buffer.
left :
    all_values wide loop (held wide (no_iterators wide)) 60
    ≡ some (record { sp = 2000; impl = erased.impl; storage = index 1 })
unfolding all_values values increment inc begin impl_begin
left = refl

-- No iterator is made where one lives.
misused : perform_all wide (begins 10 erased ∷ begins 10 erased ∷ []) (no_iterators wide) ≡ none
unfolding perform_all perform construct_begin it_make make impl_begin
misused = refl
