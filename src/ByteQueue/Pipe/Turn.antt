-- ===== src/ByteQueue/Pipe/Turn.antt =====
-- One turn of the loop that moves a data source through a queue.
use buffers.Prelude.{
  ℕ, ◌+◌, ◌<◌, ◌≤◌, ◌≡◌, refl, sym, ap, ap₂, ◌∙◌, [], ◌∷◌, ◌++◌, some, false, arith, length, take,
  drop, length-take, length-append, drop_all, map, leb, if◌then◌else◌,
}
use mathlib.Core.Path.{subst}
use buffers.Error.{ErrorCodes, make_error_code, eof, ok}
use buffers.Buffer.Region.{region}
use buffers.Sequence.{BufferSequence, Memory, to_string}
use buffers.Sequence.Laws.{seq_addrs, total, to_string-map, length-seq_addrs}
use buffers.Copy.Bytes.{Apart}
use buffers.Reading.{at_end, ReadResult, ReadSource}
use buffers.Reading.Data.{DataSource}
use buffers.AnySource.{AnyImpl, data_source, impl_read, read_all}
use buffers.AnySource.After.{taken}
use buffers.ByteQueue.{ByteQueue}
use buffers.ByteQueue.Storage.{Storage}
use buffers.ByteQueue.Pipe.{Pipe, queued, whole, IsSound, Filling, turn}
use buffers.ByteQueue.Pipe.Fill.{
  read, read_eq, filled, filled-IsSound, queued-filled, whole-filled, total-out, is_prepared,
}

some_buffer : (bs : BufferSequence) → 0 < total bs → at_end bs ≡ false
some_buffer [] h = absurd (omega arith)
some_buffer (b ∷ bs) h = refl

module _ (e : ErrorCodes) (d : DataSource) (r : ReadSource e) (q : ByteQueue) (st : Storage q)
    (n : ℕ) where
  -- The queue is empty and takes `n` bytes, and its storage lies apart from the source.
  pub record IsReady (p : Pipe e d r q) : Type 0 where
    pub sound : IsSound e d r q p
    pub empty : q.readable p.queue ≡ []
    pub fits : q.Fits p.queue n
    pub some_bytes : 0 < n
    pub room : n ≤ q.buffer.max_size p.queue
    pub apart :
        Apart
          (region (st.base p.queue) (q.buffer.max_size p.queue))
          (seq_addrs (d.buffers_of p.source.source))

  pub ready-Filling : (p : Pipe e d r q) → IsReady p → (f : Filling e d r q p) × (f.n ≡ n)
  ready-Filling p v =
      let (c, out, pr, w, a, l, _) = q.prepare-writable p.queue n v.sound.queue_valid v.fits in
      let (b, s) = st.prepare-kept p.queue c n out pr in
      let u =
        subst (λ ds. Apart ds (seq_addrs (d.buffers_of p.source.source))) (sym (ap₂ region b s))
          v.apart in
      (
        record {
          n = n;
          queue = c;
          out = out;
          prepared = pr;
          some_room =
              some_buffer out (omega (arith, length-seq_addrs out, ap length a, l, v.some_bytes));
          apart =
              subst (λ ds. Apart ds (seq_addrs (d.buffers_of p.source.source))) (sym a)
                (st.writable-inside c (seq_addrs (d.buffers_of p.source.source)) w u);
        },
        refl,
      )

  -- What one turn does: the next `k` bytes of the source come out, and it can be repeated.
  pub record Turned (p : Pipe e d r q) (ec : e.Code) : Type 0 where
    pub k : ℕ
    pub result : ReadResult e (AnyImpl e d r)
    pub queue : q.buffer.Carrier
    pub turned :
        turn e d r q n p.queue (data_source p.source) p.mem ec
        ≡ some (take k (drop p.source.nread (whole e d r q p)), result, queue)
    pub amount : k ≡ taken e d p.source n
    pub code :
        result.code
        ≡ (if leb p.source.size (p.source.nread + k) then make_error_code e eof else e.success)
    pub state : result.state ≡ data_source (record p.source { nread = p.source.nread + k })
    pub ready : IsReady (record {
      queue = queue;
      source = record p.source { nread = p.source.nread + k };
      mem = result.mem;
    })
    pub same_source : to_string result.mem (d.buffers_of p.source.source) ≡ whole e d r q p

  turn_eq :
      (c c' c'' : q.buffer.Carrier) (out : BufferSequence) (i : AnyImpl e d r) (m : Memory)
      (ec : e.Code) (x : ReadResult e (AnyImpl e d r))
      → q.buffer.prepare c n ≡ ok (c', out)
      → read_all e (impl_read e d r) i m out ec ≡ some x
      → q.buffer.consume (q.buffer.commit c' x.count) x.count ≡ ok c''
      → turn e d r q n c i m ec
        ≡ some (to_string x.mem (q.buffer.data_seq (q.buffer.commit c' x.count)), x, c'')
  unfolding turn
  turn_eq c c' c'' out i m ec x f g h = rw (f, turn, g, h) refl

  queued_none : (p : Pipe e d r q) → IsReady p → queued e d r q p ≡ []
  queued_none p v =
      to_string-map p.mem (q.buffer.data_seq p.queue)
      ∙ ap (map p.mem) (q.data_seq-readable p.queue v.sound.queue_valid ∙ v.empty)

  module _ (p : Pipe e d r q) (v : IsReady p) (ec : e.Code) (f : Filling e d r q p)
      (fn : f.n ≡ n) where
    abbrev t : Pipe e d r q
    t = filled e d r q p v.sound f

    abbrev x : ReadResult e (AnyImpl e d r)
    x = read e d r q p v.sound f

    abbrev j : ℕ
    j = taken e d p.source (total f.out)

    -- After the commit, no more than what was read is readable.
    readable-le : length (q.readable t.queue) ≤ 0 + j
    readable-le =
        let w = is_prepared e d r q p v.sound f in
        let e' = (q.commit-readable f.queue (0 + j) w.valid).1 in
        omega (
          arith,
          ap length e',
          ap length (w.kept ∙ v.empty),
          length-take (0 + j) (q.writable f.queue),
          length-append (q.readable f.queue) (take (0 + j) (q.writable f.queue)),
        )

    storage-kept :
        (c : q.buffer.Carrier)
        → q.buffer.consume t.queue (0 + j) ≡ ok c
        → (st.base c ≡ st.base p.queue) × (q.buffer.max_size c ≡ q.buffer.max_size p.queue)
    storage-kept c h =
        let (a0, b0) = st.prepare-kept p.queue f.queue f.n f.out f.prepared in
        let (a1, b1) = st.commit-kept f.queue (0 + j) in
        let (a2, b2) = st.consume-kept t.queue c (0 + j) h in (a2 ∙ a1 ∙ a0, b2 ∙ b1 ∙ b0)

    pub turn-Turned : Turned p ec
    turn-Turned =
        let (c, o, w, g) =
          q.consume-readable t.queue (0 + j) (filled-IsSound e d r q p v.sound f).queue_valid in
        let (a, b) = storage-kept c o in
        record {
          k = j;
          result = x;
          queue = c;
          turned =
              turn_eq p.queue f.queue c f.out (data_source p.source) p.mem ec x
                (subst (λ i. q.buffer.prepare p.queue i ≡ ok (f.queue, f.out)) fn f.prepared)
                (read_eq e d r q p v.sound f ec) o
              ∙ ap (λ s. some (s, x, c))
                  (queued-filled e d r q p v.sound f
                    ∙ ap (λ s. s ++ take j (drop p.source.nread (whole e d r q p)))
                        (queued_none p v));
          amount = ap (taken e d p.source) (total-out e d r q p v.sound f ∙ fn);
          code = refl;
          state = refl;
          ready = record {
            sound = record {
              queue_valid = w;
              source_valid = (filled-IsSound e d r q p v.sound f).source_valid;
            };
            empty = g ∙ drop_all (0 + j) (q.readable t.queue) readable-le;
            fits =
                st.consume-Fits t.queue c (0 + j) n (filled-IsSound e d r q p v.sound f).queue_valid
                  o readable-le v.some_bytes
                  (omega (
                    arith,
                    (st.commit-kept f.queue (0 + j)).1,
                    (st.prepare-kept p.queue f.queue f.n f.out f.prepared).1,
                    v.room,
                  ));
            some_bytes = v.some_bytes;
            room = omega (arith, b, v.room);
            apart =
                subst (λ ds. Apart ds (seq_addrs (d.buffers_of p.source.source)))
                  (sym (ap₂ region a b)) v.apart;
          };
          same_source = whole-filled e d r q p v.sound f;
        }
