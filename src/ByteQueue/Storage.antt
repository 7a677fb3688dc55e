-- ===== src/ByteQueue/Storage.antt =====
-- The storage of a queue of bytes: the queue stays in it, and it is free again once all is consumed.
use buffers.Prelude.{ℕ, ◌+◌, ◌-◌, ◌≤◌, ◌<◌, ◌≡◌, refl, ap, ◌∙◌, List, ◌++◌, arith, length, take}
use mathlib.Core.Path.{subst}
use buffers.Error.{ok, ok-injective}
use buffers.Buffer.{MutableBuffer}
use buffers.Buffer.Region.{region, region_at, take-region, drop-region, length-region}
use buffers.Sequence.{BufferSequence, singleton}
use buffers.Copy.Bytes.{Apart}
use buffers.Copy.Distinct.{Apart-append, Apart-window}
use buffers.Pair.{MutableBufferPair, mutable_pair_sequence}
use buffers.Circular.{CircularBuffer}
use buffers.Circular
use buffers.Circular.Ring.{length-ring}
use buffers.Circular.Inv
use buffers.Flat.{FlatBuffer}
use buffers.Flat
use buffers.Flat.Laws
use buffers.DynamicBuffer.Instances.{flat_dynamic}
use buffers.ByteQueue.{ByteQueue}
use buffers.ByteQueue.Instances.{circular_queue, flat_queue}
use buffers.ByteQueue.Steady.{prepared_from}

-- The first address of the storage; it has `max_size()` bytes.
pub record Storage (q : ByteQueue) : Type 0 where
  pub base : q.buffer.Carrier → ℕ
  pub prepare-kept :
      (c c' : q.buffer.Carrier) (n : ℕ) (out : BufferSequence)
      → q.buffer.prepare c n ≡ ok (c', out)
      → (base c' ≡ base c) × (q.buffer.max_size c' ≡ q.buffer.max_size c)
  pub commit-kept :
      (c : q.buffer.Carrier) (n : ℕ)
      → (base (q.buffer.commit c n) ≡ base c)
        × (q.buffer.max_size (q.buffer.commit c n) ≡ q.buffer.max_size c)
  pub consume-kept :
      (c c' : q.buffer.Carrier) (n : ℕ)
      → q.buffer.consume c n ≡ ok c'
      → (base c' ≡ base c) × (q.buffer.max_size c' ≡ q.buffer.max_size c)
  pub writable-inside :
      (c : q.buffer.Carrier) (as' : List ℕ)
      → q.IsValid c
      → Apart (region (base c) (q.buffer.max_size c)) as'
      → Apart (q.writable c) as'
  pub consume-Fits :
      (c c' : q.buffer.Carrier) (k n : ℕ)
      → q.IsValid c
      → q.buffer.consume c k ≡ ok c'
      → length (q.readable c) ≤ k
      → 0 < n
      → n ≤ q.buffer.max_size c
      → q.Fits c' n

pub circular_prepare-kept :
    (c c' : CircularBuffer) (n : ℕ) (bs : MutableBufferPair)
    → Circular.prepare c n ≡ ok (c', bs)
    → (c'.base ≡ c.base) × (Circular.max_size c' ≡ Circular.max_size c)
unfolding Circular.prepare Circular.max_size
circular_prepare-kept c c' n bs h = ground arith

pub circular_consume-kept :
    (c c' : CircularBuffer) (n : ℕ)
    → Circular.consume c n ≡ ok c'
    → (c'.base ≡ c.base) × (Circular.max_size c' ≡ Circular.max_size c)
unfolding Circular.consume Circular.max_size
circular_consume-kept c c' n h = ground arith

circular_consume_all :
    (c c' : CircularBuffer) (k : ℕ)
    → Circular.consume c k ≡ ok c'
    → c.in_len ≤ k
    → (c'.in_len ≡ 0) × (c'.cap ≡ c.cap)
unfolding Circular.consume
circular_consume_all c c' k h l = ground arith

pub circular_commit-kept :
    (c : CircularBuffer) (n : ℕ)
    → ((Circular.commit c n).base ≡ c.base)
      × (Circular.max_size (Circular.commit c n) ≡ Circular.max_size c)
unfolding Circular.commit Circular.max_size
circular_commit-kept c n = (refl, refl)

pub circular_inside :
    (c : CircularBuffer) (as' : List ℕ)
    → Circular.Inv.IsValid c
    → Apart (region c.base (Circular.max_size c)) as'
    → Apart (Circular.Inv.writable c) as'
unfolding Circular.max_size
circular_inside c as' v u =
    let lap = region c.base c.cap in
    Apart-window c.out_size (c.in_pos + c.in_len) (lap ++ lap) as' (Apart-append lap lap as' u u)

pub circular_consume-Fits :
    (c c' : CircularBuffer) (k n : ℕ)
    → Circular.Inv.IsValid c
    → Circular.consume c k ≡ ok c'
    → length (Circular.Inv.readable c) ≤ k
    → 0 < n
    → n ≤ Circular.max_size c
    → (0 < c'.cap) × (c'.in_len + n ≤ c'.cap)
unfolding Circular.max_size
circular_consume-Fits c c' k n v h l m w =
    let e = length-ring c.base c.cap c.in_pos c.in_len (omega (arith, v)) in
    let (x, y) = circular_consume_all c c' k h (omega (arith, v, e)) in
    (omega (arith, y), omega (arith, x, y))

abbrev pub circular_storage : Storage circular_queue
circular_storage = record {
  base = λ c. c.base;
  prepare-kept = λ c c' n out h.
      let (bs, p, _) = prepared_from mutable_pair_sequence (Circular.prepare c n) c' out h in
      circular_prepare-kept c c' n bs p;
  commit-kept = circular_commit-kept;
  consume-kept = circular_consume-kept;
  writable-inside = circular_inside;
  consume-Fits = circular_consume-Fits;
}

pub flat_inside :
    (f : FlatBuffer) (as' : List ℕ)
    → Flat.Laws.IsValid f
    → Apart (region f.base (Flat.max_size f)) as'
    → Apart (Flat.Laws.writable f) as'
unfolding Flat.max_size
flat_inside f as' v u =
    subst (λ ds. Apart ds as')
      (ap (take f.out_size) (drop-region (f.in_pos + f.in_size) f.base f.cap)
        ∙ take-region f.out_size (f.base + (f.in_pos + f.in_size)) (f.cap - (f.in_pos + f.in_size))
        ∙ region_at _ _ _ _ (omega arith) (omega (arith, v)))
      (Apart-window f.out_size (f.in_pos + f.in_size) (region f.base f.cap) as' u)

pub flat_prepare-kept :
    (f f' : FlatBuffer) (n : ℕ) (b : MutableBuffer)
    → Flat.prepare f n ≡ ok (f', b)
    → (f'.base ≡ f.base) × (Flat.max_size f' ≡ Flat.max_size f)
unfolding Flat.prepare Flat.max_size
flat_prepare-kept f f' n b h = ground arith

flat_consume-kept :
    (f : FlatBuffer) (n : ℕ)
    → ((Flat.consume f n).base ≡ f.base) × (Flat.max_size (Flat.consume f n) ≡ Flat.max_size f)
unfolding Flat.consume Flat.max_size
flat_consume-kept f n = ground arith

flat_consume_all :
    (f : FlatBuffer) (k : ℕ)
    → f.in_size ≤ k
    → (Flat.consume f k).in_pos + (Flat.consume f k).in_size ≡ 0
unfolding Flat.consume
flat_consume_all f k l = ground arith

pub flat_commit-kept :
    (f : FlatBuffer) (n : ℕ)
    → ((Flat.commit f n).base ≡ f.base) × (Flat.max_size (Flat.commit f n) ≡ Flat.max_size f)
unfolding Flat.commit Flat.max_size
flat_commit-kept f n = (refl, refl)

pub flat_result-kept :
    (f f' : FlatBuffer) (n : ℕ)
    → flat_dynamic.consume f n ≡ ok f'
    → (f'.base ≡ f.base) × (Flat.max_size f' ≡ Flat.max_size f)
flat_result-kept f f' n h =
    subst (λ (g : FlatBuffer). (g.base ≡ f.base) × (Flat.max_size g ≡ Flat.max_size f))
      (ok-injective (Flat.consume f n) f' h) (flat_consume-kept f n)

pub flat_consume-Fits :
    (f f' : FlatBuffer) (k n : ℕ)
    → Flat.Laws.IsValid f
    → flat_dynamic.consume f k ≡ ok f'
    → length (Flat.Laws.readable f) ≤ k
    → 0 < n
    → n ≤ Flat.max_size f
    → f'.in_pos + f'.in_size + n ≤ f'.cap
unfolding Flat.max_size
flat_consume-Fits f f' k n v h l m w =
    let size =
      ap length (Flat.Laws.readable-region f) ∙ length-region (f.base + f.in_pos) f.in_size in
    let empty = flat_consume_all f k (omega (arith, size)) in
    subst (λ (g : FlatBuffer). g.in_pos + g.in_size + n ≤ g.cap)
      (ok-injective (Flat.consume f k) f' h) (omega (arith, empty, flat_consume-kept f k))

abbrev pub flat_storage : Storage flat_queue
flat_storage = record {
  base = λ f. f.base;
  prepare-kept = λ f f' n out h.
      let (b, p, _) = prepared_from singleton (Flat.prepare f n) f' out h in
      flat_prepare-kept f f' n b p;
  commit-kept = flat_commit-kept;
  consume-kept = flat_result-kept;
  writable-inside = flat_inside;
  consume-Fits = flat_consume-Fits;
}
