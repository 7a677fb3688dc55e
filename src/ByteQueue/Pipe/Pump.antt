-- ===== src/ByteQueue/Pipe/Pump.antt =====
-- The loop that moves a data source through a queue ends, and everything has come out.
use buffers.Prelude.{
  ℕ, zero, suc, ◌+◌, ◌-◌, ◌<◌, ◌≤◌, ◌≡◌, refl, sym, ap, ◌∙◌, List, [], ◌++◌, some, true, false, inl,
  inr, arith, length, take, drop, take_all, length-drop, length-map, Bool-cases, leb, leb→le,
  leb→lt,
}
use buffers.Error.{ErrorCodes, make_error_code, eof, failed-eof}
use buffers.Sequence.{Memory}
use buffers.Sequence.Laws.{seq_addrs, to_string-map, length-seq_addrs}
use buffers.Reading.{ReadResult, ReadSource}
use buffers.Reading.Data.{DataSource}
use buffers.AnySource.{AnyImpl, data_source}
use buffers.ByteQueue.{ByteQueue}
use buffers.ByteQueue.Storage.{Storage}
use buffers.ByteQueue.Pipe.{Pipe, whole, turn, Pumped, pump}
use buffers.ByteQueue.Pipe.Fill.{moved}
use buffers.ByteQueue.Pipe.Turn.{IsReady, Turned, ready-Filling, turn-Turned}

module _ (e : ErrorCodes) (d : DataSource) (r : ReadSource e) (q : ByteQueue) (st : Storage q)
    (n : ℕ) where
  abbrev pub Ready : Pipe e d r q → Type 0
  Ready = IsReady e d r q st n

  -- The bytes that the source has left.
  abbrev pub remaining : Pipe e d r q → ℕ
  remaining p = p.source.size - p.source.nread

  pump-ends :
      (fuel : ℕ) (c c' : q.buffer.Carrier) (i : AnyImpl e d r) (m : Memory) (ec : e.Code)
      (acc s : List ℕ) (x : ReadResult e (AnyImpl e d r))
      → turn e d r q n c i m ec ≡ some (s, x, c')
      → e.failed x.code ≡ true
      → pump e d r q (suc fuel) n c i m ec acc
        ≡ some (record { out = acc ++ s; code = x.code; queue = c'; source = x.state; mem = x.mem })
  unfolding pump
  pump-ends fuel c c' i m ec acc s x f g = rw (f, pump, g) refl

  pump-goes :
      (fuel : ℕ) (c c' : q.buffer.Carrier) (i : AnyImpl e d r) (m : Memory) (ec : e.Code)
      (acc s : List ℕ) (x : ReadResult e (AnyImpl e d r))
      → turn e d r q n c i m ec ≡ some (s, x, c')
      → e.failed x.code ≡ false
      → pump e d r q (suc fuel) n c i m ec acc
        ≡ pump e d r q fuel n c' x.state x.mem x.code (acc ++ s)
  unfolding pump
  pump-goes fuel c c' i m ec acc s x f g = rw (f, pump, g) refl

  length-whole : (p : Pipe e d r q) → Ready p → length (whole e d r q p) ≡ p.source.size
  length-whole p v =
      ap length (to_string-map p.mem (d.buffers_of p.source.source))
      ∙ length-map p.mem (seq_addrs (d.buffers_of p.source.source))
      ∙ length-seq_addrs (d.buffers_of p.source.source)
      ∙ sym v.sound.source_valid.sized

  -- The loop has ended well.
  pub record IsDone (p : Pipe e d r q) (acc : List ℕ) (t : Pumped e d r q) : Type 0 where
    pub all_out : t.out ≡ acc ++ drop p.source.nread (whole e d r q p)
    pub at_eof : t.code ≡ make_error_code e eof
    pub used_up : t.source ≡ data_source (record p.source { nread = p.source.size })
    pub still_valid : q.IsValid t.queue
    pub now_empty : q.readable t.queue ≡ []

  -- The bytes that are left fit into the last turn, and an earlier one leaves fewer.
  module _ (p : Pipe e d r q) (v : Ready p) (ec : e.Code) (acc : List ℕ)
      (y : Turned e d r q st n p ec) where
    abbrev s : List ℕ
    s = take y.k (drop p.source.nread (whole e d r q p))

    abbrev after_turn : Pipe e d r q
    after_turn = record {
      queue = y.queue;
      source = record p.source { nread = p.source.nread + y.k };
      mem = y.result.mem;
    }

    last_turn :
        (fuel : ℕ)
        → leb p.source.size (p.source.nread + y.k) ≡ true
        → (t : Pumped e d r q) × (pump e d r q
              (suc fuel)
              n
              p.queue
              (data_source p.source)
              p.mem
              ec
              acc
            ≡ some t)
          × IsDone p acc t
    last_turn fuel l =
        let c : y.result.code ≡ make_error_code e eof = y.code ∙ rw l refl in
        let m : p.source.size ≤ p.source.nread + y.k = leb→le _ _ l in
        let whole_len = length-whole p v in
        (
          _,
          pump-ends fuel p.queue y.queue (data_source p.source) p.mem ec acc s y.result y.turned
              (ap e.failed c ∙ failed-eof e),
          record {
            all_out =
                ap (λ z. acc ++ z)
                  (take_all y.k (drop p.source.nread (whole e d r q p))
                    (omega (arith, m, whole_len, length-drop p.source.nread (whole e d r q p))));
            at_eof = c;
            used_up =
                y.state
                ∙ ap (λ z. data_source (record p.source { nread = z }))
                    (omega (arith, m, y.amount, v.sound.source_valid.within));
            still_valid = y.ready.sound.queue_valid;
            now_empty = y.ready.empty;
          },
        )

    more_turns :
        (fuel : ℕ)
        → leb p.source.size (p.source.nread + y.k) ≡ false
        → (t : Pumped e d r q) × (pump e d r q fuel n after_turn.queue
              (data_source after_turn.source)
              after_turn.mem
              y.result.code
              (acc ++ s)
            ≡ some t)
          × IsDone after_turn (acc ++ s) t
        → (t : Pumped e d r q) × (pump e d r q
              (suc fuel)
              n
              p.queue
              (data_source p.source)
              p.mem
              ec
              acc
            ≡ some t)
          × IsDone p acc t
    more_turns fuel l (t, g, w) =
        let c : y.result.code ≡ e.success = y.code ∙ rw l refl in
        (
          t,
          pump-goes fuel p.queue y.queue (data_source p.source) p.mem ec acc s y.result y.turned
                (ap e.failed c ∙ e.failed-success)
              ∙ ap (λ i. pump e d r q fuel n y.queue i y.result.mem y.result.code (acc ++ s))
                  y.state
              ∙ g,
          record {
            all_out =
                w.all_out
                ∙ ap (λ z. (acc ++ s) ++ drop (p.source.nread + y.k) z) y.same_source
                ∙ moved acc (whole e d r q p) p.source.nread y.k;
            at_eof = w.at_eof;
            used_up = w.used_up;
            still_valid = w.still_valid;
            now_empty = w.now_empty;
          },
        )

  -- From an empty queue whose storage lies apart from a valid data source, and which takes `n` bytes,
  -- but some, at a time: the loop of `prepare(n)`, `read`, `commit` and `consume` ends after at most
  -- as many turns as bytes are left and one more, without a fault or an exception. Then the string
  -- that the source had left has come out, the last read reported `error::eof`, the source is used
  -- up, and the queue is valid and empty.
  pub pump-IsDone :
      (fuel : ℕ) (p : Pipe e d r q) (ec : e.Code) (acc : List ℕ)
      → Ready p
      → remaining p < fuel
      → (t : Pumped e d r q) × (pump e d r q fuel n p.queue (data_source p.source) p.mem ec acc
          ≡ some t)
        × IsDone p acc t
  pump-IsDone zero p ec acc v h = absurd (omega arith)
  pump-IsDone (suc fuel) p ec acc v h =
      let (f, fn) = ready-Filling e d r q st n p v in
      let y = turn-Turned e d r q st n p v ec f fn in
      elim (Bool-cases (leb p.source.size (p.source.nread + y.k))) [
        | inl l ↦ last_turn p v ec acc y fuel l
        | inr l ↦
            let m : p.source.nread + y.k < p.source.size = leb→lt _ _ l in
            more_turns p v ec acc y fuel l (
              pump-IsDone fuel (after_turn p v ec acc y) y.result.code (acc ++ s p v ec acc y)
                y.ready (omega (arith, m, y.amount, v.some_bytes, h)))
      ]
