-- ===== src/AnyBuffers.antt =====
-- include/boost/buffers/any_buffers.hpp and src/any_buffers.cpp: the type-erased buffer sequence. Its
-- implementations are constructors of one type, and a virtual call is a function by clauses.
pub mod Copies
pub mod Laws
pub mod Objects
pub mod Owners
pub mod Places
pub mod Range
mod Tests
use buffers.Prelude.{
  ℕ, zero, suc, Bool, true, false, [], ◌∷◌, Option, none, some, leb, ◌==◌, if◌then◌else◌, add_size,
  sub_size,
}
use buffers.Buffer.{BasicBuffer, null_buffer}
use buffers.Sequence.{BufferSequence, sequence_length}
use buffers.Trim.{◌>>=◌}
use buffers.AnyBuffers.Range.{SequenceType}

-- `sbo_size`, six pointers
abbrev pub sbo_size : ℕ
sbo_size = 48

-- `iter_sbo_size`, four pointers
abbrev pub iter_sbo_size : ℕ
iter_sbo_size = 32

module _ (t : SequenceType) where
  -- The empty one, `impl<T, true>` with `t_`, and `impl<T, false>` with `t_` and `len_`
  pub data Impl : Type 0 where
    empty_impl : Impl
    small_iter : t.Seq → Impl
    large_iter : t.Seq → ℕ → Impl

  -- What an iterator has in `storage_`: nothing, an iterator of the sequence, or an index.
  pub data Storage : Type 0 where
    nothing : Storage
    iter : t.Iter → Storage
    index : ℕ → Storage

  -- `impl<T, false>`: its constructor, and what its members do to an index
  abbrev large_impl : t.Seq → Impl
  large_impl s = large_iter s (sequence_length (t.visits s))

  abbrev large_begin : ℕ
  large_begin = 0

  abbrev large_end : ℕ → ℕ
  large_end len = len

  abbrev large_inc : ℕ → ℕ
  large_inc i = add_size i 1

  abbrev large_dec : ℕ → ℕ
  large_dec i = sub_size i 1

  abbrev large_equal : ℕ → ℕ → Bool
  large_equal i j = i == j

  -- The loop of `deref` that counts an index down.
  pub walk : ℕ → t.Iter → t.Iter
  walk zero it = it
  walk (suc i) it = walk i (t.inc it)

  large_deref : t.Seq → ℕ → Option BasicBuffer
  unfolding walk
  large_deref s i = t.deref (walk i (t.begin s))

  pub impl_begin : Impl → Storage
  impl_begin empty_impl = nothing
  impl_begin (small_iter s) = iter (t.begin s)
  impl_begin (large_iter s len) = index large_begin

  pub impl_end : Impl → Storage
  impl_end empty_impl = nothing
  impl_end (small_iter s) = iter (t.end s)
  impl_end (large_iter s len) = index (large_end len)

  -- Each of these casts the storage to its own type of iterator; of another it is undefined.
  pub inc : Impl → Storage → Option Storage
  inc empty_impl p = some p
  inc (small_iter s) (iter p) = some (iter (t.inc p))
  inc (small_iter s) p = none
  inc (large_iter s len) (index i) = some (index (large_inc i))
  inc (large_iter s len) p = none

  pub dec : Impl → Storage → Option Storage
  dec empty_impl p = some p
  dec (small_iter s) (iter p) = some (iter (t.dec p))
  dec (small_iter s) p = none
  dec (large_iter s len) (index i) = some (index (large_dec i))
  dec (large_iter s len) p = none

  pub deref : Impl → Storage → Option BasicBuffer
  unfolding large_deref
  deref empty_impl p = some null_buffer
  deref (small_iter s) (iter p) = t.deref p
  deref (small_iter s) p = none
  deref (large_iter s len) (index i) = large_deref s i
  deref (large_iter s len) p = none

  pub equal : Impl → Storage → Storage → Option Bool
  equal empty_impl p q = some true
  equal (small_iter s) (iter p) (iter q) = some (t.equal p q)
  equal (small_iter s) p q = none
  equal (large_iter s len) (index i) (index j) = some (large_equal i j)
  equal (large_iter s len) p q = none

  -- Whether the implementation's iterators fit.
  pub is_small_iter : Impl → Bool
  is_small_iter empty_impl = true
  is_small_iter (small_iter s) = true
  is_small_iter (large_iter s len) = false

  -- Whether the implementation itself fits.
  pub is_small_buffers : Impl → Bool
  is_small_buffers empty_impl = true
  is_small_buffers (small_iter s) = leb t.sizeof_impl sbo_size
  is_small_buffers (large_iter s len) = leb t.sizeof_impl sbo_size

  -- `any_buffers`: the address of its `storage_`, the address that `sp_` holds, and what is there.
  pub record AnyBuffers : Type 0 where
    pub storage : ℕ
    pub sp : ℕ
    pub impl : Impl

  -- The default constructor: `sp_` points to the static `instance`, whose address is 0 here.
  pub default_buffers : ℕ → AnyBuffers
  default_buffers storage = record { storage = storage; sp = 0; impl = empty_impl }

  -- Where an implementation is made: in `storage_` if it fits, or else in new memory.
  abbrev pub place_of : ℕ → ℕ → ℕ
  place_of storage fresh = if leb t.sizeof_impl sbo_size then storage else fresh

  -- The constructor from a sequence, which makes the implementation that suits its iterators.
  pub construct : ℕ → ℕ → t.Seq → AnyBuffers
  construct storage fresh s = record {
    storage = storage;
    sp = place_of storage fresh;
    impl = if leb t.sizeof_iter iter_sbo_size then small_iter s else large_impl s;
  }

  -- `sp_` after the virtual call of `copy`: a copy of the empty one shares it.
  pub copy_sp : ℕ → ℕ → ℕ → Impl → ℕ
  copy_sp storage fresh sp empty_impl = sp
  copy_sp storage fresh sp (small_iter s) = place_of storage fresh
  copy_sp storage fresh sp (large_iter s len) = place_of storage fresh

  -- The implementation that `copy` makes from `t_`: it counts the buffers again.
  pub copy_impl : Impl → Impl
  copy_impl empty_impl = empty_impl
  copy_impl (small_iter s) = small_iter s
  copy_impl (large_iter s len) = large_impl s

  -- The copy constructor
  pub copy : ℕ → ℕ → AnyBuffers → AnyBuffers
  unfolding copy_sp copy_impl
  copy storage fresh other = record {
    storage = storage;
    sp = copy_sp storage fresh other.sp other.impl;
    impl = copy_impl other.impl;
  }

  -- The assignment; `this == &other` compares the addresses.
  pub assign : ℕ → AnyBuffers → AnyBuffers → AnyBuffers
  unfolding copy
  assign fresh this other =
      if this.storage == other.storage then this else copy this.storage fresh other

  -- `const_iterator`: `sp_`, and `storage_`
  pub record ConstIterator : Type 0 where
    pub sp : ℕ
    pub impl : Impl
    pub storage : Storage

  pub begin : AnyBuffers → ConstIterator
  begin a = record { sp = a.sp; impl = a.impl; storage = impl_begin a.impl }

  pub end : AnyBuffers → ConstIterator
  end a = record { sp = a.sp; impl = a.impl; storage = impl_end a.impl }

  -- `operator==`
  pub iter_eq : ConstIterator → ConstIterator → Option Bool
  iter_eq p q = if p.sp == q.sp then equal p.impl p.storage q.storage else some false

  -- `operator*`
  pub iter_deref : ConstIterator → Option BasicBuffer
  iter_deref p = deref p.impl p.storage

  -- `operator++`
  pub increment : ConstIterator → Option ConstIterator
  increment p = do st ← inc p.impl p.storage; some (record p { storage = st })

  -- `operator--`
  pub decrement : ConstIterator → Option ConstIterator
  decrement p = do st ← dec p.impl p.storage; some (record p { storage = st })

  -- The postfix operators: the iterator after, and the copy that they return.
  pub post_increment : ConstIterator → Option (ConstIterator × ConstIterator)
  post_increment p = do p' ← increment p; some (p', p)

  pub post_decrement : ConstIterator → Option (ConstIterator × ConstIterator)
  post_decrement p = do p' ← decrement p; some (p', p)

  -- The default constructor of an iterator
  pub default_iterator : ConstIterator
  default_iterator = begin (default_buffers 0)

  -- The buffers that a loop from `p` to `q` visits; `none` also where the fuel ran out.
  pub iterate : ℕ → ConstIterator → ConstIterator → Option BufferSequence
  iterate zero p q = none
  iterate (suc fuel) p q = elim (iter_eq p q) [
    | none ↦ none
    | some true ↦ some []
    | some false ↦ elim (iter_deref p) [
      | none ↦ none
      | some b ↦ elim (increment p) [
        | none ↦ none
        | some p' ↦ elim (iterate fuel p' q) [ none ↦ none | some bs ↦ some (b ∷ bs) ]
      ]
    ]
  ]

  -- The loop that goes back from `p` to `q`, putting each buffer before those that it visited.
  pub iterate_back : ℕ → ConstIterator → ConstIterator → BufferSequence → Option BufferSequence
  iterate_back zero p q acc = none
  iterate_back (suc fuel) p q acc = elim (iter_eq p q) [
    | none ↦ none
    | some true ↦ some acc
    | some false ↦ elim (decrement p) [
      | none ↦ none
      | some p' ↦ elim (iter_deref p') [ none ↦ none | some b ↦ iterate_back fuel p' q (b ∷ acc) ]
    ]
  ]
