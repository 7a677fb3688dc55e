-- ===== src/AnyBuffers/Owners.antt =====
-- include/boost/buffers/any_buffers.hpp and src/any_buffers.cpp: who owns the implementations. Every
-- `any_buffers` has a `shared_ptr`, `sp_`; an implementation in a `storage_` is owned by none, and one
-- in new memory by those that share it. The iterators, which have an `sp_` too, are left out.
pub mod Alive
pub mod Holders
pub mod Sound
pub mod Located
mod Tests
use buffers.Prelude.{
  ℕ, suc, Bool, true, false, not, ◌&&◌, ◌||◌, leb, ◌==◌, if◌then◌else◌, List, [], ◌∷◌, Option, none,
  some,
}
use buffers.Trim.{◌>>=◌}
use buffers.AnyBuffers.{sbo_size}
use buffers.AnyBuffers.Objects.{put}

-- What an `sp_` holds: the static `instance` with a `null_deleter`; an implementation in a
-- `storage_` with a `null_deleter`, by the address of the `any_buffers`; or a share of one that
-- `make_shared` made. An implementation is numbered, and has the size of its type.
pub data Owner : Type 0 where
  static_instance : Owner
  null_deleter : ℕ → ℕ → ℕ → Owner
  make_shared : ℕ → ℕ → Owner

-- Whether a share of the implementation `n` is held.
pub owns : ℕ → Owner → Bool
owns n static_instance = false
owns n (null_deleter a x size) = false
owns n (make_shared x size) = n == x

-- The `sp_` of every `any_buffers`, by its address.
abbrev pub Holders : Type 0
Holders = List (ℕ × Owner)

pub owner_at : ℕ → Holders → Option Owner
owner_at a [] = none
owner_at a ((b, o) ∷ hs) = let rest = owner_at a hs in if a == b then some o else rest

pub remove : ℕ → Holders → Holders
remove a [] = []
remove a ((b, o) ∷ hs) = let rest = remove a hs in if a == b then hs else (b, o) ∷ rest

-- Whether anything holds a share of the implementation `n`.
pub held : ℕ → Holders → Bool
unfolding owns
held n [] = false
held n ((a, o) ∷ hs) = owns n o || held n hs

-- What is in the `storage_` at each address, the implementations that were made and whose destructor
-- was not called, which of all that were made were made in a `storage_`, and how many were made.
pub record World : Type 0 where
  pub holders : Holders
  pub storages : ℕ → Option ℕ
  pub undestroyed : ℕ → Bool
  pub placed : ℕ → Bool
  pub made : ℕ

abbrev pub empty_world : World
empty_world = record {
  holders = [];
  storages = λ a. none;
  undestroyed = λ n. false;
  placed = λ n. false;
  made = 0;
}

-- `construct`, and what the copies of an implementation do: one that fits is made in the `storage_`
-- at `dest`, over what is there.
pub make : ℕ → ℕ → World → Owner × World
make dest size w =
    if leb size sbo_size
    then (
      null_deleter dest w.made size,
      record w {
        storages = put w.storages dest (some w.made);
        undestroyed = put w.undestroyed w.made true;
        placed = put w.placed w.made true;
        made = suc w.made;
      },
    )
    else (
      make_shared w.made size,
      record w { undestroyed = put w.undestroyed w.made true; made = suc w.made },
    )

-- The virtual `copy`: what `dest.sp_` is set to. `none`: it is called on an implementation that is
-- not there any more, or would make one over itself.
pub copy_impl : ℕ → Owner → World → Option (Owner × World)
unfolding make
copy_impl dest static_instance w = some (static_instance, w)
copy_impl dest (null_deleter a x size) w = elim (w.storages a) [
  | none ↦ none
  | some y ↦ if a == dest then none else if y == x then some (make dest size w) else none
]
copy_impl dest (make_shared x size) w = if w.undestroyed x then some (make dest size w) else none

-- The destructor of a `shared_ptr`: the last share destroys the implementation.
pub release : Owner → World → World
unfolding held
release static_instance w = w
release (null_deleter a x size) w = w
release (make_shared x size) w =
    if held x w.holders then w else record w { undestroyed = put w.undestroyed x false }

-- A new object at the address, with this `sp_`; another cannot live there.
pub hold : ℕ → Owner → World → Option World
unfolding owner_at
hold a o w = elim (owner_at a w.holders) [
  | some p ↦ none
  | none ↦ some (record w { holders = (a, o) ∷ w.holders })
]

-- The assignment of an `sp_`.
pub set_sp : ℕ → Owner → World → Option World
unfolding owner_at remove release
set_sp a o w = do
  old ← owner_at a w.holders
  some (release old (record w { holders = (a, o) ∷ remove a w.holders }))

-- The destructor of `any_buffers`: that of `sp_`; its `storage_` goes with it.
pub destroy_sp : ℕ → World → Option World
unfolding owner_at remove release
destroy_sp a w = do
  old ← owner_at a w.holders
  some (release old (record w { holders = remove a w.holders; storages = put w.storages a none }))

-- The copy constructor of `any_buffers`
pub copy_construct : ℕ → ℕ → World → Option World
unfolding owner_at copy_impl hold
copy_construct a other w = do o ← owner_at other w.holders; p ← copy_impl a o w; hold a p.0 p.1

-- `operator=` of `any_buffers`
pub copy_assign : ℕ → ℕ → World → Option World
unfolding owner_at copy_impl set_sp
copy_assign a other w =
    if a == other
    then some w
    else (do o ← owner_at other w.holders; p ← copy_impl a o w; set_sp a p.0 p.1)

-- What a program does with `any_buffers`, at their addresses.
pub data Command : Type 0 where
  defaults : ℕ → Command
  constructs : ℕ → ℕ → Command
  copies : ℕ → ℕ → Command
  assigns : ℕ → ℕ → Command
  destroys : ℕ → Command

pub perform : Command → World → Option World
unfolding make hold copy_construct copy_assign destroy_sp
perform (defaults a) w = hold a static_instance w
perform (constructs a size) w = hold a (make a size w).0 (make a size w).1
perform (copies a other) w = copy_construct a other w
perform (assigns a other) w = copy_assign a other w
perform (destroys a) w = destroy_sp a w

pub perform_all : List Command → World → Option World
unfolding perform
perform_all [] w = some w
perform_all (c ∷ cs) w = do w' ← perform c w; perform_all cs w'

-- Whether the language lets a program do this, by the addresses where an object is alive.
pub allowed : Command → (ℕ → Bool) → Bool
allowed (defaults a) l = not (l a)
allowed (constructs a size) l = not (l a)
allowed (copies a other) l = not (l a) && l other
allowed (assigns a other) l = l a && l other
allowed (destroys a) l = l a

-- The addresses where an object is alive afterwards.
pub effect : Command → (ℕ → Bool) → ℕ → Bool
effect (defaults a) l = put l a true
effect (constructs a size) l = put l a true
effect (copies a other) l = put l a true
effect (assigns a other) l = l
effect (destroys a) l = put l a false

pub all_allowed : List Command → (ℕ → Bool) → Bool
unfolding allowed effect
all_allowed [] l = true
all_allowed (c ∷ cs) l = allowed c l && all_allowed cs (effect c l)

pub total_effect : List Command → (ℕ → Bool) → ℕ → Bool
unfolding effect
total_effect [] l = l
total_effect (c ∷ cs) l = total_effect cs (effect c l)

-- Whether an object is alive at the address.
pub is_alive : World → ℕ → Bool
unfolding owner_at
is_alive w a = elim (owner_at a w.holders) [ none ↦ false | some o ↦ true ]
