-- ===== src/AnyBuffers/Objects.antt =====
-- include/boost/buffers/any_buffers.hpp and src/any_buffers.cpp: the iterators that live in the
-- storage of a type-erased iterator, and the programs that make, copy, move and destroy iterators.
pub mod Cells
pub mod Fits
pub mod Lifetime
mod Tests
use buffers.Prelude.{
  ℕ, Bool, true, false, not, ◌&&◌, ◌==◌, if◌then◌else◌, List, [], ◌∷◌, Option, none, some,
}
use buffers.Trim.{◌>>=◌}
use buffers.AnyBuffers.Range.{SequenceType}
use buffers.AnyBuffers.{
  Impl, empty_impl, small_iter, large_iter, Storage, nothing, iter, index, impl_begin, impl_end,
  inc, dec, AnyBuffers, ConstIterator, default_buffers, default_iterator, begin, end, increment,
  decrement,
}

-- `f` but for its value at `a`
abbrev pub put : {A : Type 0} → (ℕ → A) → ℕ → A → ℕ → A
put f a x p = if p == a then x else f p

module _ (t : SequenceType) where
  -- What lives in the storage at each address; `nothing` where no iterator of a sequence does.
  abbrev pub Objects : Type 0
  Objects = ℕ → Storage t

  -- A placement `new`, for which no other object may live there.
  pub make : Objects → ℕ → Storage t → Option Objects
  make o a x = elim (o a) [ nothing ↦ some (put o a x) | iter p ↦ none | index i ↦ none ]

  -- Each of these casts the storage to its own type of iterator; of another it is undefined.
  pub it_copy : Impl t → Objects → ℕ → ℕ → Option Objects
  unfolding make
  it_copy empty_impl o dest src = some o
  it_copy (small_iter s) o dest src = elim (o src) [
    | nothing ↦ none
    | iter p ↦ make o dest (iter p)
    | index i ↦ none
  ]
  it_copy (large_iter s len) o dest src = elim (o src) [
    | nothing ↦ none
    | iter p ↦ none
    | index i ↦ make o dest (index i)
  ]

  pub it_destroy : Impl t → Objects → ℕ → Option Objects
  it_destroy empty_impl o p = some o
  it_destroy (small_iter s) o p = elim (o p) [
    | nothing ↦ none
    | iter q ↦ some (put o p nothing)
    | index i ↦ none
  ]
  it_destroy (large_iter s len) o p = elim (o p) [
    | nothing ↦ none
    | iter q ↦ none
    | index i ↦ some (put o p nothing)
  ]

  -- `begin` and `end` of the implementations, with the iterator that each makes.
  pub it_make : Impl t → Objects → ℕ → Storage t → Option Objects
  unfolding make
  it_make empty_impl o p x = some o
  it_make (small_iter s) o p x = make o p x
  it_make (large_iter s len) o p x = make o p x

  -- `sp_` of an iterator: the address that it holds, and what is there.
  pub record Pointer : Type 0 where
    pub sp : ℕ
    pub impl : Impl t

  -- The iterators by the address of their storage, and the objects in the storages.
  pub record World : Type 0 where
    pub vars : ℕ → Option Pointer
    pub objects : Objects

  -- Before any iterator is made
  abbrev pub no_iterators : World
  no_iterators = record { vars = λ a. none; objects = λ a. nothing }

  -- `sp_` at an address becomes this, with these objects.
  pub set_sp : ℕ → Option Pointer → World → Objects → World
  set_sp a v w o = record { vars = put w.vars a v; objects = o }

  pub sp_of : AnyBuffers t → Option Pointer
  sp_of b = some (record { sp = b.sp; impl = b.impl })

  -- The default constructor takes `sp_` from the empty sequence, and makes nothing.
  pub construct_default : ℕ → World → Option World
  unfolding set_sp sp_of
  construct_default a w = some (set_sp a (sp_of (default_buffers t 0)) w w.objects)

  -- The constructors with a tag
  pub construct_begin : ℕ → AnyBuffers t → World → Option World
  unfolding set_sp sp_of
  construct_begin a b w = do
    o ← it_make b.impl w.objects a (impl_begin t b.impl)
    some (set_sp a (sp_of b) w o)

  pub construct_end : ℕ → AnyBuffers t → World → Option World
  unfolding set_sp sp_of
  construct_end a b w = do
    o ← it_make b.impl w.objects a (impl_end t b.impl)
    some (set_sp a (sp_of b) w o)

  -- The copy constructor
  pub copy_construct : ℕ → ℕ → World → Option World
  unfolding set_sp
  copy_construct a other w = do
    q ← w.vars other
    o ← it_copy q.impl w.objects a other
    some (set_sp a (some q) w o)

  -- `operator=`
  pub copy_assign : ℕ → ℕ → World → Option World
  unfolding set_sp
  copy_assign a other w = if a == other then some w else do
    p ← w.vars a
    q ← w.vars other
    o ← it_destroy p.impl w.objects a
    o' ← it_copy q.impl o a other
    some (set_sp a (some q) w o')

  -- The destructor
  pub destruct : ℕ → World → Option World
  unfolding set_sp
  destruct a w = do p ← w.vars a; o ← it_destroy p.impl w.objects a; some (set_sp a none w o)

  -- `operator++` and `operator--`, on the object in the storage.
  pub step_object : (Impl t → Storage t → Option (Storage t)) → ℕ → World → Option World
  step_object f a w = do
    p ← w.vars a
    x ← f p.impl (w.objects a)
    some (record w { objects = put w.objects a x })

  -- What a program does with iterators
  pub data Command : Type 0 where
    defaults : ℕ → Command
    begins : ℕ → AnyBuffers t → Command
    ends : ℕ → AnyBuffers t → Command
    copies : ℕ → ℕ → Command
    assigns : ℕ → ℕ → Command
    increments : ℕ → Command
    decrements : ℕ → Command
    destroys : ℕ → Command

  pub perform : Command → World → Option World
  perform (defaults a) w = construct_default a w
  perform (begins a b) w = construct_begin a b w
  perform (ends a b) w = construct_end a b w
  perform (copies a b) w = copy_construct a b w
  perform (assigns a b) w = copy_assign a b w
  perform (increments a) w = step_object (inc t) a w
  perform (decrements a) w = step_object (dec t) a w
  perform (destroys a) w = destruct a w

  pub perform_all : List Command → World → Option World
  perform_all [] w = some w
  perform_all (c ∷ cs) w = do w' ← perform c w; perform_all cs w'

  -- An iterator with what lives in its storage.
  pub with_object : Option Pointer → Storage t → Option (ConstIterator t)
  with_object v x = do p ← v; some (record { sp = p.sp; impl = p.impl; storage = x })

  pub held : World → ℕ → Option (ConstIterator t)
  unfolding with_object
  held w a = with_object (w.vars a) (w.objects a)

  -- What an operation does where iterators are values.
  pub values : Command → (ℕ → Option (ConstIterator t)) → ℕ → Option (ConstIterator t)
  values (defaults a) m = put m a (some (default_iterator t))
  values (begins a b) m = put m a (some (begin t b))
  values (ends a b) m = put m a (some (end t b))
  values (copies a b) m = put m a (m b)
  values (assigns a b) m = put m a (m b)
  values (increments a) m = put m a (m a >>= increment t)
  values (decrements a) m = put m a (m a >>= decrement t)
  values (destroys a) m = put m a none

  pub all_values : List Command → (ℕ → Option (ConstIterator t)) → ℕ → Option (ConstIterator t)
  all_values [] m = m
  all_values (c ∷ cs) m = all_values cs (values c m)

  -- Whether the language lets a program do this, by which iterators are alive.
  pub allowed : Command → (ℕ → Bool) → Bool
  allowed (defaults a) l = not (l a)
  allowed (begins a b) l = not (l a)
  allowed (ends a b) l = not (l a)
  allowed (copies a b) l = not (l a) && l b
  allowed (assigns a b) l = l a && l b
  allowed (increments a) l = l a
  allowed (decrements a) l = l a
  allowed (destroys a) l = l a

  -- The iterators that are alive afterwards.
  pub effect : Command → (ℕ → Bool) → ℕ → Bool
  effect (defaults a) l = put l a true
  effect (begins a b) l = put l a true
  effect (ends a b) l = put l a true
  effect (copies a b) l = put l a true
  effect (assigns a b) l = put l a true
  effect (increments a) l = put l a true
  effect (decrements a) l = put l a true
  effect (destroys a) l = put l a false

  pub all_allowed : List Command → (ℕ → Bool) → Bool
  all_allowed [] l = true
  all_allowed (c ∷ cs) l = allowed c l && all_allowed cs (effect c l)

  pub total_effect : List Command → (ℕ → Bool) → ℕ → Bool
  total_effect [] l = l
  total_effect (c ∷ cs) l = total_effect cs (effect c l)
