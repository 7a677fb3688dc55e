-- ===== src/ByteQueue/Fifo.antt =====
-- The bytes of a queue come out in the order in which they were put in.
use buffers.Prelude.{
  ℕ, ◌≡◌, refl, sym, ap, ap₂, ◌∙◌, List, [], ◌∷◌, ◌++◌, append-nil, list_laws, then_moves, map,
  map-take, map-drop, none, some, take, drop, take-append-drop,
}
use mathlib.Core.Option.{some-injective}
use buffers.Error.{ok, ok-injective}
use buffers.Sequence.{BufferSequence, Memory, to_string}
use buffers.Sequence.Laws.{seq_addrs, to_string-map}
use buffers.Copy.Bytes.{Avoids, Apart}
use buffers.Copy.Distinct.{Distinct-parts}
use buffers.ByteQueue.{ByteQueue}
use buffers.ByteQueue.Prepared.{prepare-IsPrepared}
use buffers.ByteQueue.Steps.{
  Client, Step, prepares, fails, writes, commits, consumes, consumes_before_commit, Run, here, next,
}

module _ (q : ByteQueue) where
  -- The readable bytes.
  abbrev pub contents : Client q → List ℕ
  contents s = to_string s.mem (q.buffer.data_seq s.queue)

  -- The queue is valid, and the output sequence covers its writable addresses.
  pub record IsSound (s : Client q) : Type 0 where
    pub valid : q.IsValid s.queue
    pub covers : (bs : BufferSequence) → s.out ≡ some bs → seq_addrs bs ≡ q.writable s.queue

  contents-map : (s : Client q) → q.IsValid s.queue → contents s ≡ map s.mem (q.readable s.queue)
  contents-map s v =
      to_string-map s.mem (q.buffer.data_seq s.queue)
      ∙ ap (map s.mem) (q.data_seq-readable s.queue v)

  -- Of a queue with other memory.
  map-frame :
      (m m' : Memory) (ds as' : List ℕ)
      → ((a : ℕ) → Avoids a ds → m' a ≡ m a)
      → Apart ds as'
      → map m' as' ≡ map m as'
  map-frame m m' ds [] f u = refl
  map-frame m m' ds (a ∷ as') f u = ap₂ ◌∷◌ (f a u.0) (map-frame m m' ds as' f u.1)

  -- What a step does to the readable bytes.
  Moves : Client q → List ℕ → List ℕ → Client q → Type 0
  Moves s p r t = IsSound t × (contents s ++ p ≡ r ++ contents t)

  -- What `consume` leaves readable.
  consume-moves :
      (s : Client q)
      → q.IsValid s.queue
      → (k : ℕ) (c : q.buffer.Carrier) → q.buffer.consume s.queue k ≡ ok c
      → q.IsValid c
        × (contents s ++ [] ≡ take k (contents s) ++ to_string s.mem (q.buffer.data_seq c))
  consume-moves s v k c e =
      let (d, o, w, r) = q.consume-readable s.queue k v in
      let same : c ≡ d = ok-injective c d (sym e ∙ o) in
      let x : q.IsValid c = rw same w in
      (
        x,
        append-nil (contents s)
            ∙ sym (take-append-drop k (contents s))
            ∙ ap (λ u. take k (contents s) ++ u)
                (ap (drop k) (contents-map s v)
                  ∙ sym (map-drop s.mem k (q.readable s.queue))
                  ∙ ap (map s.mem) (sym r ∙ ap q.readable (sym same))
                  ∙ sym (contents-map (record { queue = c; out = none; mem = s.mem }) x)),
      )

  no_output : {bs : BufferSequence} {A : Type 0} → none ≡ some bs → A
  no_output h = absurd (cc)

  Step-Moves : {s t : Client q} {p r : List ℕ} → IsSound s → Step q s p r t → Moves s p r t
  unfolding Moves
  Step-Moves {s = s} v (prepares n c bs e) =
      let w = prepare-IsPrepared q s.queue c bs n v.valid e in
      (
        record {
          valid = w.valid;
          covers = λ cs h. ap seq_addrs (sym (some-injective bs cs h)) ∙ w.room;
        },
        append-nil (contents s)
            ∙ contents-map s v.valid
            ∙ ap (map s.mem) (sym w.kept)
            ∙ sym (contents-map (record { queue = c; out = some bs; mem = s.mem }) w.valid),
      )
  Step-Moves {s = s} v (fails n x e) = (v, append-nil (contents s))
  Step-Moves {s = s} v (writes bs m h f) = (
    record { valid = v.valid; covers = v.covers },
    append-nil (contents s)
        ∙ contents-map s v.valid
        ∙ sym (
            map-frame s.mem m (seq_addrs bs) (q.readable s.queue) f (
              rw (v.covers bs h)
                (Distinct-parts (q.readable s.queue) (q.writable s.queue)
                  (q.Distinct-both s.queue v.valid)).1))
        ∙ sym (contents-map (record { queue = s.queue; out = s.out; mem = m }) v.valid),
  )
  Step-Moves {s = s} v (commits bs k h) =
      let (w, r) = q.commit-readable s.queue k v.valid in
      (
        record { valid = w; covers = λ cs h. no_output h },
        ap₂ ◌++◌ (contents-map s v.valid) (
              ap (take k) (to_string-map s.mem bs ∙ ap (map s.mem) (v.covers bs h))
              ∙ sym (map-take s.mem k (q.writable s.queue)))
            ∙ (simp list_laws)
            ∙ ap (map s.mem) (sym r)
            ∙ sym (
                contents-map (record { queue = q.buffer.commit s.queue k; out = none; mem = s.mem })
                  w),
      )
  Step-Moves {s = s} v (consumes k c e) =
      let (x, m) = consume-moves s v.valid k c e in
      (record { valid = x; covers = λ cs h. no_output h }, m)
  Step-Moves {s = s} v (consumes_before_commit k c kept e) =
      let (x, m) = consume-moves s v.valid k c e in
      (
        record {
          valid = x;
          covers = λ bs h. v.covers bs h ∙ sym (q.consume-writable s.queue c k v.valid kept e);
        },
        m,
      )

  -- Whatever a client does with a valid queue of bytes, in any order, a commit of what was prepared
  -- before a consume included: it prepares, also more than fits, writes into the output sequence of
  -- the last `prepare`, and commits this once; after a consume it writes and commits it only where
  -- that leaves it, as it always does in a circular buffer, and in a flat one short of all bytes. Then
  -- the queue stays valid, and the bytes that were readable at first, with all that were committed
  -- since, are the bytes that were consumed since, with those that are readable now, in this order.
  pub Run-fifo :
      {s t : Client q} {p r : List ℕ}
      → IsSound s
      → Run q s p r t
      → IsSound t × (contents s ++ p ≡ r ++ contents t)
  unfolding Moves
  Run-fifo {s = s} v here = (v, append-nil (contents s))
  Run-fifo {s = s} v (next {p = p} {r = r} {p' = p'} {r' = r'} {t = t} {u = u} run st) =
      let (w, e) = Run-fifo v run in
      let (x, f) = Step-Moves w st in
      (x, then_moves (contents s) (contents t) (contents u) p p' r r' e f)
