-- ===== src/AnyBuffers/Tests.antt =====
-- Three buffers, type-erased with iterators that fit and with some that do not.
use buffers.Prelude.{◌≡◌, refl, [], ◌∷◌, some, false, true, arith}
use buffers.Buffer.{buffer}
use buffers.Sequence.{BufferSequence}
use buffers.AnyBuffers.Range.{SequenceType, list_sequence}
use buffers.AnyBuffers.{
  AnyBuffers, small_iter, large_iter, construct, copy, begin, end, iter_eq, iterate, iterate_back,
  default_buffers, assign, is_small_iter, is_small_buffers, post_increment, post_decrement,
  default_iterator, iter_deref, increment, decrement, inc, dec, deref, impl_begin,
}
use buffers.AnyBuffers.Places.{stands_for, IsValid}
use buffers.AnyBuffers.Laws.{iterate-construct}
use buffers.AnyBuffers.Copies.{IsPlaced, iterate-copy}

abbrev three : BufferSequence
three = buffer 100 2 ∷ buffer 200 0 ∷ buffer 300 3 ∷ []

-- Iterators of 40 bytes: an index is kept instead.
abbrev wide : SequenceType
wide = list_sequence 64 40

-- Iterators of 16 bytes.
abbrev narrow : SequenceType
narrow = list_sequence 40 16

abbrev original : AnyBuffers wide
original = record { storage = 1000; sp = 2000; impl = large_iter three 3 }

original-IsValid : IsValid wide original.impl
unfolding IsValid
original-IsValid = (refl, omega arith)

iterate-construct_example :
    (iterate wide 4
        (begin wide (construct wide 1000 2000 three))
        (end wide (construct wide 1000 2000 three))
      ≡ some three)
    × (iterate_back wide 4
          (end wide (construct wide 1000 2000 three))
          (begin wide (construct wide 1000 2000 three))
          []
        ≡ some three)
iterate-construct_example = iterate-construct wide 1000 2000 three (omega arith)

iterate-copy_example :
    IsPlaced wide 3000 4000 2000 original.impl (copy wide 3000 4000 original).sp
    × (iterate wide 4
          (begin wide (copy wide 3000 4000 original))
          (end wide (copy wide 3000 4000 original))
        ≡ some three)
    × (iterate_back wide 4
          (end wide (copy wide 3000 4000 original))
          (begin wide (copy wide 3000 4000 original))
          []
        ≡ some three)
    × (iter_eq wide (begin wide (copy wide 3000 4000 original)) (begin wide original) ≡ some false)
unfolding stands_for
iterate-copy_example = iterate-copy wide 3000 4000 original original-IsValid refl refl

-- The kinds of implementation
kinds :
    (is_small_iter wide (construct wide 1000 2000 three).impl ≡ false)
    × ((construct wide 1000 2000 three).sp ≡ 2000)
    × ((construct narrow 1000 2000 three).impl ≡ small_iter three)
    × ((construct narrow 1000 2000 three).sp ≡ 1000)
unfolding construct is_small_iter
kinds = (refl, refl, refl, refl)

fitting :
    (is_small_iter wide original.impl ≡ false)
    × (is_small_buffers wide original.impl ≡ false)
    × (is_small_iter narrow (default_buffers narrow 0).impl ≡ true)
unfolding is_small_iter is_small_buffers default_buffers
fitting = (refl, refl, refl)

-- The assignment makes a copy in new memory, and leaves an object that is assigned to itself.
assigned :
    ((assign wide 5000 (default_buffers wide 3000) original).sp ≡ 5000)
    × ((assign wide 5000 original original).sp ≡ 2000)
unfolding assign copy default_buffers
assigned = (refl, refl)

-- An iterator of the empty sequence stays where it is, and stands for the empty buffer.
at_default :
    (post_increment wide (default_iterator wide)
      ≡ some (default_iterator wide, default_iterator wide))
    × (post_decrement wide (default_iterator wide)
        ≡ some (default_iterator wide, default_iterator wide))
    × (iter_deref wide (default_iterator wide) ≡ some (buffer 0 0))
unfolding post_increment post_decrement increment decrement inc dec deref default_iterator begin
    impl_begin default_buffers iter_deref
at_default = (refl, refl, refl)
