-- ===== src/AnySource/Handle/Shared.antt =====
-- Copies of a source share its state, and moving from one leaves an empty source.
use buffers.Prelude.{
  ℕ, ◌+◌, ◌<◌, ◌≡◌, refl, sym, ap, ◌∙◌, [], ◌∷◌, ◌++◌, Bool, true, false, ◌||◌, some, ltb, inl, inr,
  arith, Bool-cases, if◌then◌else◌, ◌==◌, size_mod,
}
use mathlib.Core.Path.{fun_ext}
use buffers.Error.{ErrorCodes, ok, make_error_code, eof, failed-eof}
use buffers.Buffer.{BasicBuffer}
use buffers.Sequence.{BufferSequence, Memory}
use buffers.Sequence.Laws.{total, total-append}
use buffers.Reading.{max_chunk, at_end, ReadResult, Reader, ReadSource, read_agrees, add_count}
use buffers.Reading.Data.{DataSource}
use buffers.AnySource.{
  DataModel, AnyImpl, empty_model, data_source, impl_read, impl_size, impl_data, read_all,
  read_loop,
}
use buffers.AnySource.Steps.{and_false, or_true, read_loop-gather, read_loop-stop}
use buffers.AnySource.After.{IsValid, advanced, after, after-after, advanced-IsValid}
use buffers.AnySource.Laws.{read_all-data_source}
use buffers.AnySource.Handle.{
  AnySource, copy_construct, move_construct, move_assign, Store, write_cell, source_read,
  source_size, source_data,
}

at_end-append : (bs cs : BufferSequence) → at_end bs ≡ false → at_end (bs ++ cs) ≡ false
at_end-append [] cs p = cc
at_end-append (b ∷ bs) cs p = refl

module _ (e : ErrorCodes) (d : DataSource) (r : ReadSource e) where
  empty_result : Memory → ReadResult e (AnyImpl e d r)
  empty_result m = record { count = 0; code = make_error_code e eof; state = empty_model; mem = m }

  abbrev reader : Reader e (AnyImpl e d r)
  reader = impl_read e d r

  abbrev before : Memory → e.Code → ReadResult e (AnyImpl e d r)
  before m ec = record { count = 0; code = ec; state = empty_model; mem = m }

  agrees :
      (m : Memory) (mb : BufferSequence) (b : BasicBuffer)
      → read_agrees e (empty_result m) (mb ++ b ∷ []) ≡ true
  unfolding read_agrees empty_result
  agrees m mb b = rw (failed-eof e) refl

  -- Reading the empty source calls it once.
  read_loop-empty :
      (it mb : BufferSequence) (b : BasicBuffer) (n : ℕ) (m : Memory) (ec : e.Code)
      → read_loop e
          (impl_read e d r)
          (b ∷ it)
          mb
          n
          (record { count = 0; code = ec; state = empty_model; mem = m })
        ≡ some (empty_result m)
  unfolding impl_read read_agrees add_count empty_result
  read_loop-empty [] mb b n m ec =
      read_loop-stop e reader b [] mb n (before m ec) (empty_result m) (and_false _) refl
        (agrees m mb b) (or_true _)
  read_loop-empty (c ∷ it) mb b n m ec = elim (Bool-cases (ltb (n + 1) max_chunk)) [
    | inl more ↦
        read_loop-gather e reader b (c ∷ it) mb n (before m ec) (rw more refl)
        ∙ read_loop-empty it (mb ++ b ∷ []) c (n + 1) m ec
    | inr full ↦
        read_loop-stop e reader b (c ∷ it) mb n (before m ec) (empty_result m) (rw full refl) refl
          (agrees m mb b) (ap (λ x. x || false) (failed-eof e))
  ]

  -- With the empty source in the static cell, a move, by construction or by assignment, hands the
  -- source on and leaves `other` empty: its size is 0, it has no buffers, and a read into some
  -- buffers returns 0, sets `ec` to `error::eof` and leaves the memory.
  pub moved_from_is_empty :
      (h : Store e d r) (this other : AnySource) (m : Memory) (dest : BufferSequence) (ec : e.Code)
      → h.cell 0 ≡ empty_model
      → at_end dest ≡ false
      → ((move_construct other).0.sp ≡ other.sp)
        × (move_assign this other ≡ move_construct other)
        × (source_size e d r h (move_construct other).1 ≡ ok 0)
        × (source_data e d r h (move_construct other).1 ≡ ok [])
        × ((h' : Store e d r) × (source_read e d r h (move_construct other).1 m dest ec
              ≡ some (h', 0, make_error_code e eof, m)))
  unfolding move_construct move_assign source_size source_data source_read impl_size impl_data
      read_all empty_result
  moved_from_is_empty h this other m [] ec z p = cc
  moved_from_is_empty h this other m (b ∷ dest) ec z p = (
    refl,
    refl,
    rw z,
    rw z,
    (write_cell e d r h 0 empty_model, rw (z, read_loop-empty dest [] b 0 m ec) refl),
  )

  abbrev inj : DataModel d → AnyImpl e d r
  inj s = data_source s

  source_read-data :
      (h : Store e d r) (a : AnySource) (s : DataModel d) (m : Memory) (dest : BufferSequence)
      (ec : e.Code)
      → h.cell a.sp ≡ inj s
      → IsValid d s
      → at_end dest ≡ false
      → total dest < size_mod
      → let x = after e d inj s m dest 0 in
        source_read e d r h a m dest ec
        ≡ some (write_cell e d r h a.sp x.state, x.count, x.code, x.mem)
  unfolding source_read
  source_read-data h a s m dest ec k v p l =
      rw (k, read_all-data_source e d r s m dest ec v l, p) refl

  -- The cell that was written.
  written :
      (h : Store e d r) (p : ℕ) (x y : AnyImpl e d r)
      → ((write_cell e d r h p x).cell p ≡ x)
        × (write_cell e d r (write_cell e d r h p x) p y ≡ write_cell e d r h p y)
  written h p x y =
      (ground arith, ap (λ f. record h { cell = f }) (fun_ext λ q. if-if (p == q) y x (h.cell q)))
    where
      if-if :
          (b : Bool) (y x z : AnyImpl e d r)
          → (if b then y else if b then x else z) ≡ (if b then y else z)
      if-if true y x z = refl
      if-if false y x z = refl

  -- Of a valid data source, read twice into some buffers that `std::size_t` counts together, first
  -- through the original and then through a copy: both together return what one read through the
  -- original into all buffers would return, and leave the memory, the `ec` and the source that it
  -- would leave, also where the first read met the end of the source.
  pub source_read-copy_construct :
      (h : Store e d r) (a : AnySource) (s : DataModel d) (m : Memory) (bs cs : BufferSequence)
      (ec ec' : e.Code)
      → h.cell a.sp ≡ data_source s
      → IsValid d s
      → at_end bs ≡ false
      → at_end cs ≡ false
      → total bs + total cs < size_mod
      → (h1 h2 : Store e d r) × (n1 n2 : ℕ) × (c1 c2 : e.Code) × (m1 m2 : Memory) × (source_read e d
            r h a m bs ec
          ≡ some (h1, n1, c1, m1))
        × (source_read e d r h1 (copy_construct a) m1 cs ec' ≡ some (h2, n2, c2, m2))
        × (source_read e d r h a m (bs ++ cs) ec ≡ some (h2, n1 + n2, c2, m2))
  unfolding copy_construct
  source_read-copy_construct h a s m bs cs ec ec' k v p q f =
      let s1 : DataModel d = advanced e d s (total bs) in
      let x = after e d inj s m bs 0 in
      let y = after e d inj s1 x.mem cs 0 in
      let h1 : Store e d r = write_cell e d r h a.sp (inj s1) in
      let one = after-after e d inj s m bs cs 0 v in
      (
        h1,
        write_cell e d r h a.sp y.state,
        x.count,
        y.count,
        x.code,
        y.code,
        x.mem,
        y.mem,
        source_read-data h a s m bs ec k v p (omega arith),
        source_read-data h1 a s1 x.mem cs ec' (written h a.sp (inj s1) (inj s1)).0
              (advanced-IsValid e d s (total bs) v) q (omega arith)
            ∙ ap (λ t. some (t, y.count, y.code, y.mem)) (written h a.sp (inj s1) y.state).1,
        source_read-data h a s m (bs ++ cs) ec k v (at_end-append bs cs p)
              (omega (arith, total-append bs cs))
            ∙ ap
                (λ (t : ReadResult e (AnyImpl e d r)).
                  some (write_cell e d r h a.sp t.state, t.count, t.code, t.mem))
                (sym one)
            ∙ ap (λ n. some (write_cell e d r h a.sp y.state, n, y.code, y.mem)) (omega arith),
      )
