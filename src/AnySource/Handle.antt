-- ===== src/AnySource/Handle.antt =====
-- The class `any_source`: `sp_`, which copies share. What it points to is a cell of a store; the
-- cell of number 0 is the static `instance` of the default constructor.
pub mod Shared
mod Tests
use buffers.Prelude.{ℕ, ◌+◌, Bool, ◌==◌, if◌then◌else◌, Option, some}
use buffers.Error.{ErrorCodes, Result}
use buffers.Sequence.{BufferSequence, Memory}
use buffers.Trim.{◌>>=◌}
use buffers.Reading.{ReadSource}
use buffers.Reading.Data.{DataSource}
use buffers.AnySource.{
  AnyImpl, data_model, data_source, read_model, sized_read_model, has_size, has_buffers, impl_size,
  impl_data, impl_rewind, impl_read, read_all,
}

-- `sp_`
pub record AnySource : Type 0 where
  pub sp : ℕ

-- The default constructor
abbrev pub default_source : AnySource
default_source = record { sp = 0 }

-- The copy constructor and the copy assignment: the shared pointer is copied.
pub copy_construct : AnySource → AnySource
copy_construct other = record { sp = other.sp }

-- The move constructor: the new source, and `other` after.
pub move_construct : AnySource → AnySource × AnySource
move_construct other = (record { sp = other.sp }, default_source)

-- The move assignment, between two objects: the source that is assigned to, and `other` after.
pub move_assign : AnySource → AnySource → AnySource × AnySource
move_assign this other = (record { sp = other.sp }, default_source)

module _ (e : ErrorCodes) (d : DataSource) (r : ReadSource e) where
  pub record Store : Type 0 where
    pub cell : ℕ → AnyImpl e d r
    pub next : ℕ

  abbrev pub write_cell : Store → ℕ → AnyImpl e d r → Store
  write_cell h p x = record h { cell = λ q. if p == q then x else h.cell q }

  -- `std::make_shared` of a model
  abbrev pub make_shared : Store → AnyImpl e d r → Store × AnySource
  make_shared h x =
      (record { cell = (write_cell h h.next x).cell; next = h.next + 1 }, record { sp = h.next })

  -- The constructors from a data source, a read source, and a read source of a known size
  pub from_data : Store → d.slices.Source → Store × AnySource
  from_data h b = make_shared h (data_source (data_model d b))

  pub from_read : Store → r.State → Store × AnySource
  from_read h s = make_shared h (read_model s)

  pub from_sized_read : Store → ℕ → r.State → Store × AnySource
  from_sized_read h known_size s = make_shared h (sized_read_model known_size s)

  pub source_has_size : Store → AnySource → Bool
  source_has_size h a = has_size e d r (h.cell a.sp)

  pub source_has_buffers : Store → AnySource → Bool
  source_has_buffers h a = has_buffers e d r (h.cell a.sp)

  pub source_size : Store → AnySource → Result ℕ
  source_size h a = impl_size e d r (h.cell a.sp)

  pub source_data : Store → AnySource → Result BufferSequence
  source_data h a = impl_data e d r (h.cell a.sp)

  pub source_rewind : Store → AnySource → Store
  source_rewind h a = write_cell h a.sp (impl_rewind e d r (h.cell a.sp))

  -- `read`: the store, the number that it returns, `ec` and the memory.
  pub source_read :
      Store → AnySource → Memory → BufferSequence → e.Code → Option (Store × ℕ × e.Code × Memory)
  source_read h a m dest ec = do
    x ← read_all e (impl_read e d r) (h.cell a.sp) m dest ec
    some (write_cell h a.sp x.state, x.count, x.code, x.mem)
