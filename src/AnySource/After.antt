-- ===== src/AnySource/After.antt =====
-- What a read of a data source does: the bytes that it moves, and what it reports.
use buffers.Prelude.{
  ℕ, ◌+◌, ◌-◌, ◌≤◌, ◌<◌, min, ◌≡◌, refl, sym, ap, ap₂, ◌∙◌, List, ◌++◌, Bool, true, false, inl, inr,
  arith, leb, if◌then◌else◌, Bool-cases, leb→le, leb→lt, length, take, drop, drop-drop, drop_at,
  take_at, drop-append_past, take-append_in, length-append, length-drop, size_mod, add_size,
}
use buffers.Error.{ErrorCodes, make_error_code, eof, failed-eof}
use buffers.Sequence.{BufferSequence, Memory}
use buffers.Sequence.Laws.{
  seq_addrs, total, size-total, length-seq_addrs, seq_addrs-append, total-append,
}
use buffers.Copy.Bytes.{copy_bytes, copy_bytes_none}
use buffers.Copy.Round.{pass, pass-pass}
use buffers.Reading.{ReadResult, read_agrees, add_count}
use buffers.Reading.Data.{DataSource}
use buffers.AnySource.{DataModel}

-- The source's members agree.
pub record IsValid (d : DataSource) (s : DataModel d) : Type 0 where
  pub fine : d.slices.IsSource s.source
  pub sized : s.size ≡ total (d.buffers_of s.source)
  pub within : s.nread ≤ s.size

module _ (e : ErrorCodes) (d : DataSource) where
  -- The addresses not yet read.
  abbrev pub unread : DataModel d → List ℕ
  unread s = drop s.nread (seq_addrs (d.buffers_of s.source))

  -- The bytes that a read into `k` bytes moves.
  abbrev pub taken : DataModel d → ℕ → ℕ
  taken s k = min k (s.size - s.nread)

  abbrev pub advanced : DataModel d → ℕ → DataModel d
  advanced s k = record s { nread = s.nread + taken s k }

  pub advanced-IsValid : (s : DataModel d) (k : ℕ) → IsValid d s → IsValid d (advanced s k)
  advanced-IsValid s k v = record {
    fine = v.fine;
    sized = v.sized;
    within = omega (arith, v.within);
  }

  -- The source is used up once a read into `k` bytes is done.
  abbrev pub ends : DataModel d → ℕ → Bool
  ends s k = leb s.size (s.nread + taken s k)

  -- Cuts at the end of the first part of an append.
  take_in : (k : ℕ) (xs ys : List ℕ) → k ≤ length xs → take k xs ≡ take k (xs ++ ys)
  take_in k xs ys h = sym (take-append_in k xs ys h)

  drop_past : (k : ℕ) (xs ys : List ℕ) → k ≡ length xs → drop k (xs ++ ys) ≡ ys
  drop_past k xs ys h =
      drop-append_past k xs ys k (omega arith) (omega arith) ∙ drop_at ys (k - k) 0 (omega arith)

  module _ {S : Type 0} (inj : DataModel d → S) where
    abbrev pub outcome : DataModel d → ℕ → ℕ → Memory → ReadResult e S
    outcome s count nread m = record {
      count = count;
      code = if leb s.size nread then make_error_code e eof else e.success;
      state = inj (record s { nread = nread });
      mem = m;
    }

    -- A read into `dest` moves the next bytes, as many as fit, and reports the end with the last.
    abbrev pub after : DataModel d → Memory → BufferSequence → ℕ → ReadResult e S
    after s m dest count =
        let k = taken s (total dest) in
        outcome s (count + k) (s.nread + k) (pass m k (seq_addrs dest) (unread s))

    pub failed-after :
        (s : DataModel d) (m : Memory) (dest : BufferSequence) (count : ℕ)
        → e.failed (after s m dest count).code ≡ ends s (total dest)
    failed-after s m dest count = elim (Bool-cases (ends s (total dest))) [
      | inl t ↦ rw (t, failed-eof e)
      | inr f ↦ rw (f, e.failed-success)
    ]

    pub agrees-after :
        (s : DataModel d) (m : Memory) (dest : BufferSequence)
        → total dest < size_mod
        → read_agrees e (after s m dest 0) dest ≡ true
    unfolding read_agrees
    agrees-after s m dest h = rw (failed-after s m dest 0, size-total dest h) (ground arith)

    -- Two reads in a row are one.
    after-again :
        (s : DataModel d) (m : Memory) (bs cs : BufferSequence) (count : ℕ)
        → IsValid d s
        → ends s (total bs) ≡ false
        → after (advanced s (total bs)) (after s m bs count).mem cs (after s m bs count).count
          ≡ after s m (bs ++ cs) count
    after-again s m bs cs count v f = λ i. outcome s (counts i) (places i) (mems i)
      where
        l : s.nread + taken s (total bs) < s.size
        l = leb→lt s.size (s.nread + taken s (total bs)) f

        k1 : ℕ
        k1 = taken s (total bs)

        k2 : ℕ
        k2 = taken (advanced s (total bs)) (total cs)

        k : ℕ
        k = taken s (total (bs ++ cs))

        counts : count + k1 + k2 ≡ count + k
        counts = omega (arith, l, total-append bs cs)

        places : s.nread + k1 + k2 ≡ s.nread + k
        places = omega (arith, l, total-append bs cs)

        u : List ℕ
        u = unread s

        src : List ℕ
        src = seq_addrs (d.buffers_of s.source)

        both : List ℕ
        both = seq_addrs bs ++ seq_addrs cs

        mems :
            pass (pass m k1 (seq_addrs bs) u) k2 (seq_addrs cs) (unread (advanced s (total bs)))
            ≡ pass m k (seq_addrs (bs ++ cs)) u
        mems =
            ap₂ (pass (pass m k1 (seq_addrs bs) u) k2)
              (sym (
                drop_past k1 (seq_addrs bs) (seq_addrs cs) (omega (arith, l, length-seq_addrs bs))))
              (drop_at src (s.nread + k1) (s.nread + k1) refl ∙ sym (drop-drop k1 s.nread src))
            ∙ ap (λ ds. pass (copy_bytes m ds (take k1 u)) k2 (drop k1 both) (drop k1 u))
                (take_in k1 (seq_addrs bs) (seq_addrs cs) (omega (arith, l, length-seq_addrs bs)))
            ∙ pass-pass m k1 k2 both u
                (omega (arith, l, length-append (seq_addrs bs) (seq_addrs cs), length-seq_addrs bs))
                (omega (
                  arith,
                  l,
                  v.sized,
                  length-drop s.nread src,
                  length-seq_addrs (d.buffers_of s.source),
                ))
            ∙ ap₂ (λ j ds. pass m j ds u) (omega (arith, l, total-append bs cs))
                (sym (seq_addrs-append bs cs))

    pub after-stop :
        (s : DataModel d) (m : Memory) (bs cs : BufferSequence) (count : ℕ)
        → IsValid d s
        → ends s (total bs) ≡ true
        → after s m bs count ≡ after s m (bs ++ cs) count
    after-stop s m bs cs count v t = λ i. outcome s (counts i) (places i) (mems i)
      where
        l : s.size ≤ s.nread + taken s (total bs)
        l = leb→le s.size (s.nread + taken s (total bs)) t

        k1 : ℕ
        k1 = taken s (total bs)

        k : ℕ
        k = taken s (total (bs ++ cs))

        counts : count + k1 ≡ count + k
        counts = omega (arith, l, total-append bs cs)

        places : s.nread + k1 ≡ s.nread + k
        places = omega (arith, l, total-append bs cs)

        same : k1 ≡ k
        same = omega (arith, l, total-append bs cs)

        mems : pass m k1 (seq_addrs bs) (unread s) ≡ pass m k (seq_addrs (bs ++ cs)) (unread s)
        mems =
            ap₂ (copy_bytes m)
              (take_in k1 (seq_addrs bs) (seq_addrs cs) (omega (arith, l, length-seq_addrs bs))
                ∙ ap (take k1) (sym (seq_addrs-append bs cs))
                ∙ take_at (seq_addrs (bs ++ cs)) k1 k same)
              (take_at (unread s) k1 k same)

    -- Nothing is read behind the end.
    after-end :
        (s : DataModel d) (m : Memory) (bs cs : BufferSequence) (count : ℕ)
        → ends s (total bs) ≡ true
        → after (advanced s (total bs)) m cs count
          ≡ outcome s count (s.nread + taken s (total bs)) m
    after-end s m bs cs count t = λ i. outcome s (counts i) (places i) (mems i)
      where
        l : s.size ≤ s.nread + taken s (total bs)
        l = leb→le s.size (s.nread + taken s (total bs)) t

        k : ℕ
        k = taken (advanced s (total bs)) (total cs)

        none_left : k ≡ 0
        none_left = omega (arith, l)

        counts : count + k ≡ count
        counts = omega (arith, none_left)

        places : s.nread + taken s (total bs) + k ≡ s.nread + taken s (total bs)
        places = omega (arith, none_left)

        mems : pass m k (seq_addrs cs) (unread (advanced s (total bs))) ≡ m
        mems = copy_bytes_none m k (seq_addrs cs) (unread (advanced s (total bs))) none_left

    -- Two reads in a row are one, also where the first has met the end.
    pub after-after :
        (s : DataModel d) (m : Memory) (bs cs : BufferSequence) (count : ℕ)
        → IsValid d s
        → after (advanced s (total bs)) (after s m bs count).mem cs (after s m bs count).count
          ≡ after s m (bs ++ cs) count
    after-after s m bs cs count v = elim (Bool-cases (ends s (total bs))) [
      | inl t ↦
          after-end s (after s m bs count).mem bs cs (after s m bs count).count t
          ∙ after-stop s m bs cs count v t
      | inr f ↦ after-again s m bs cs count v f
    ]

    pub add_count-after :
        (s : DataModel d) (m : Memory) (dest : BufferSequence) (count : ℕ) (code : e.Code) (x : S)
        (m' : Memory)
        → count + taken s (total dest) < size_mod
        → add_count e
            (record { count = count; code = code; state = x; mem = m' })
            (after s m dest 0)
          ≡ after s m dest count
    unfolding add_count
    add_count-after s m dest count code x m' h =
        ap (λ c. record (after s m dest count) { count = c }) sum
      where
        sum : add_size count (0 + taken s (total dest)) ≡ count + taken s (total dest)
        sum = omega arith
