-- ===== src/ByteQueue/Instances.antt =====
-- `circular_buffer` and `flat_buffer` as queues of bytes.
use buffers.Prelude.{
  ℕ, ◌+◌, ◌-◌, ◌≤◌, ◌<◌, ◌≡◌, refl, sym, ap, ◌∙◌, ◌++◌, inl, inr, arith, length, append-nil,
}
use native.Mathlib.Decide.{dec_lt}
use buffers.Error.{ok, throws, fault, length_error, invalid_argument, ok-injective}
use buffers.Buffer.Region.{region-add, length-region}
use buffers.Sequence.{BufferSequence, singleton}
use buffers.Sequence.Laws.{seq_addrs}
use buffers.Pair.{mutable_pair_sequence}
use buffers.Copy.Bytes.{Distinct}
use buffers.Copy.Distinct.{Distinct-region, Distinct-regions}
use buffers.Circular.{CircularBuffer}
use buffers.Circular
use buffers.Circular.Ring.{ring, ring_straight, ring_round, ring_add, length-ring}
use buffers.Circular.Inv
use buffers.Circular.Laws.{seq_addrs-data_buffers, readable-commit, readable-prepare}
use buffers.Circular.Consume.{consume-drop}
use buffers.Flat.{FlatBuffer}
use buffers.Flat
use buffers.Flat.Laws
use buffers.DynamicBuffer.Instances.{circular_dynamic, flat_dynamic}
use buffers.ByteQueue.{ByteQueue}

Distinct-ring : (base cap p n : ℕ) → p ≤ cap → n ≤ cap → Distinct (ring base cap p n)
Distinct-ring base cap p n h k = elim (dec_lt cap (p + n)) [
  | yes l ↦
      rw (ring_round base cap p n h k (omega arith))
        (Distinct-regions (base + p) (cap - p) base (n - (cap - p)) (omega arith))
  | no l ↦ rw (ring_straight base cap p n (omega arith)) (Distinct-region (base + p) n)
]

pub circular_Distinct :
    (c : CircularBuffer)
    → Circular.Inv.IsValid c
    → Distinct (Circular.Inv.readable c ++ Circular.Inv.writable c)
circular_Distinct c v =
    rw (← ring_add c.base c.cap c.in_pos c.in_len c.out_size)
      (Distinct-ring c.base c.cap c.in_pos (c.in_len + c.out_size) (omega (arith, v)) v.held)

pub circular_prepare :
    (c : CircularBuffer) (n : ℕ)
    → Circular.Inv.IsValid c
    → (0 < c.cap) × (c.in_len + n ≤ c.cap)
    → (c' : CircularBuffer) × (out : BufferSequence) × (circular_dynamic.prepare c n ≡ ok (c', out))
      × Circular.Inv.IsValid c'
      × (seq_addrs out ≡ Circular.Inv.writable c')
      × (length (Circular.Inv.writable c') ≡ n)
      × (Circular.Inv.readable c' ≡ Circular.Inv.readable c)
circular_prepare c n v h = elim (readable-prepare c n v) [
  | inl (l, p) ↦ absurd (omega (arith, h))
  | inr (inl (l, k, c', bs, p, w, a, e, r)) ↦ (c', mutable_pair_sequence bs, rw p, w, a, e, r)
  | inr (inr (l, k, p)) ↦ absurd (omega (arith, h))
]

pub circular_prepare-Fits :
    (c : CircularBuffer) (n : ℕ) (x : CircularBuffer × BufferSequence)
    → Circular.Inv.IsValid c
    → circular_dynamic.prepare c n ≡ ok x
    → (0 < c.cap) × (c.in_len + n ≤ c.cap)
circular_prepare-Fits c n x v h = elim (readable-prepare c n v) [
  | inl (l, p) ↦ absurd (let e : throws length_error ≡ ok x = rw p at h in cc)
  | inr (inl (l, k, c', bs, p, w, a, e, r)) ↦ (l, k)
  | inr (inr (l, k, p)) ↦ absurd (let e : fault ≡ ok x = rw p at h in cc)
]

-- `consume` of any number leaves the output sequence, as the comments of `circular_buffer` say.
pub circular_consume :
    (c c' : CircularBuffer) (n : ℕ)
    → Circular.Inv.IsValid c
    → circular_dynamic.consume c n ≡ ok c'
    → Circular.Inv.writable c' ≡ Circular.Inv.writable c
circular_consume c c' n v h =
    let (d, p, _, _, w) = consume-drop c n v in
    ap Circular.Inv.writable (ok-injective c' d (sym h ∙ p)) ∙ w

abbrev pub circular_queue : ByteQueue
circular_queue = record {
  buffer = circular_dynamic;
  IsValid = Circular.Inv.IsValid;
  Fits = λ c n. (0 < c.cap) × (c.in_len + n ≤ c.cap);
  KeepsOutput = λ c n. Unit {0};
  readable = Circular.Inv.readable;
  writable = Circular.Inv.writable;
  Distinct-both = circular_Distinct;
  length-lt = λ c v.
      omega
        (arith, v, length-ring c.base c.cap (c.in_pos + c.in_len) c.out_size (omega (arith, v)));
  data_seq-readable = seq_addrs-data_buffers;
  prepare-Fits = circular_prepare-Fits;
  prepare-writable = circular_prepare;
  commit-readable = λ c n v. let (w, r, _) = readable-commit c n v in (w, r);
  consume-readable = λ c n v. let (c', p, w, r, _) = consume-drop c n v in (c', p, w, r);
  consume-writable = λ c c' n v k h. circular_consume c c' n v h;
}

pub flat_Distinct :
    (f : FlatBuffer) → Flat.Laws.IsValid f → Distinct (Flat.Laws.readable f ++ Flat.Laws.writable f)
flat_Distinct f v =
    rw (Flat.Laws.readable-region f, ← region-add (f.base + f.in_pos) f.in_size f.out_size)
      (Distinct-region (f.base + f.in_pos) (f.in_size + f.out_size))

pub flat_prepare :
    (f : FlatBuffer) (n : ℕ)
    → Flat.Laws.IsValid f
    → f.in_pos + f.in_size + n ≤ f.cap
    → (f' : FlatBuffer) × (out : BufferSequence) × (flat_dynamic.prepare f n ≡ ok (f', out))
      × Flat.Laws.IsValid f'
      × (seq_addrs out ≡ Flat.Laws.writable f')
      × (length (Flat.Laws.writable f') ≡ n)
      × (Flat.Laws.readable f' ≡ Flat.Laws.readable f)
flat_prepare f n v h = elim (Flat.Laws.prepare_lem f n v) [
  | inl (l, f', b, p, w, a, e, r) ↦ (
    f',
    singleton b,
    rw p,
    w,
    append-nil _ ∙ a,
    sym (ap length a) ∙ length-region b.ptr b.len ∙ e,
    r,
  )
  | inr (l, p) ↦ absurd (omega (arith, h))
]

pub flat_prepare-Fits :
    (f : FlatBuffer) (n : ℕ) (x : FlatBuffer × BufferSequence)
    → Flat.Laws.IsValid f
    → flat_dynamic.prepare f n ≡ ok x
    → f.in_pos + f.in_size + n ≤ f.cap
flat_prepare-Fits f n x v h = elim (Flat.Laws.prepare_lem f n v) [
  | inl (l, f', b, p, w, a, e, r) ↦ l
  | inr (l, p) ↦ absurd (let e : throws invalid_argument ≡ ok x = rw p at h in cc)
]

-- `consume` of a part leaves the output sequence; that of all bytes moves it to the front.
pub flat_consume :
    (f f' : FlatBuffer) (n : ℕ)
    → Flat.Laws.IsValid f
    → n < f.in_size
    → flat_dynamic.consume f n ≡ ok f'
    → Flat.Laws.writable f' ≡ Flat.Laws.writable f
flat_consume f f' n v k h =
    ap Flat.Laws.writable (sym (ok-injective _ f' h)) ∙ Flat.Laws.writable-consume f n v k

abbrev pub flat_queue : ByteQueue
flat_queue = record {
  buffer = flat_dynamic;
  IsValid = Flat.Laws.IsValid;
  Fits = λ f n. f.in_pos + f.in_size + n ≤ f.cap;
  KeepsOutput = λ f n. n < f.in_size;
  readable = Flat.Laws.readable;
  writable = Flat.Laws.writable;
  Distinct-both = flat_Distinct;
  length-lt = λ f v. omega (arith, v, length-region (f.base + f.in_pos + f.in_size) f.out_size);
  data_seq-readable = λ f v. append-nil (Flat.Laws.readable f);
  prepare-Fits = flat_prepare-Fits;
  prepare-writable = flat_prepare;
  commit-readable = λ f n v. let (w, r, _) = Flat.Laws.data_buffer-commit f n v in (w, r);
  consume-readable = λ f n v.
      let (w, r, _) = Flat.Laws.data_buffer-consume f n v in (Flat.consume f n, refl, w, r);
  consume-writable = flat_consume;
}
