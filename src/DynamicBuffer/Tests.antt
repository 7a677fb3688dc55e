-- ===== src/DynamicBuffer/Tests.antt =====
-- A circular buffer that is wrapped when it already holds bytes, and the theorems at it.
use buffers.Prelude.{◌⊎◌, ◌≡◌, refl, [], ◌∷◌, arith, take}
use buffers.Error.{Exception, ok, throws, fault}
use buffers.Buffer.{buffer}
use buffers.Sequence.{BufferSequence}
use buffers.Sequence.Laws.{seq_addrs}
use buffers.Circular.{CircularBuffer}
use buffers.Circular
use buffers.DynamicBuffer.{
  AnyDynamicBuffer, max_buffers, init, size, data_seq, prepare, commit, consume, unroll,
  unroll_loop,
}
use buffers.DynamicBuffer.Laws.{any_dynamic_lem}
use buffers.DynamicBuffer.Instances.{circular_dynamic, Prepares, here, next, circular_stale_data}

-- Of five bytes at 100 the last two and the first are readable, and the next was prepared.
abbrev wrapped : CircularBuffer
wrapped = record { base = 100; cap = 5; in_pos = 3; in_len = 3; out_size = 1 }

abbrev any : AnyDynamicBuffer circular_dynamic
any = record { inner = wrapped; data_buffers = []; out_buffers = [] }

abbrev consumed : CircularBuffer
consumed = record wrapped { in_pos = 0; in_len = 1 }

abbrev prepared : CircularBuffer
prepared = record wrapped { out_size = 2 }

abbrev out : BufferSequence
out = buffer 101 2 ∷ buffer 100 0 ∷ []

consume_two : circular_dynamic.consume wrapped 2 ≡ ok consumed
unfolding Circular.consume
consume_two = refl

prepare_two : circular_dynamic.prepare wrapped 2 ≡ ok (prepared, out)
unfolding Circular.prepare
prepare_two = refl

-- After two bytes are prepared in the wrapper that was just made.
abbrev any_prepared : AnyDynamicBuffer circular_dynamic
any_prepared = record { inner = prepared; data_buffers = []; out_buffers = out }

prepared-Prepares : Prepares circular_dynamic (init circular_dynamic wrapped) any_prepared
unfolding init prepare Circular.prepare unroll unroll_loop
prepared-Prepares = next 2 out here refl

circular_stale_data_example :
    (size circular_dynamic any_prepared ≡ Circular.size wrapped)
    × (data_seq circular_dynamic any_prepared ≡ [])
    × (seq_addrs (data_seq circular_dynamic (commit circular_dynamic any_prepared 1))
        ≡ 103 ∷ 104 ∷ 100 ∷ 101 ∷ [])
    × ((b' : AnyDynamicBuffer circular_dynamic) × (consume circular_dynamic any_prepared 1 ≡ ok b')
        × (seq_addrs (data_seq circular_dynamic b') ≡ 104 ∷ 100 ∷ []))
circular_stale_data_example =
    circular_stale_data wrapped any_prepared 1 (omega arith) prepared-Prepares

any_dynamic_lem_example :
    (data_seq circular_dynamic (commit circular_dynamic any 2)
      ≡ take max_buffers (circular_dynamic.data_seq (circular_dynamic.commit wrapped 2)))
    × (((b : CircularBuffer) × (c : AnyDynamicBuffer circular_dynamic) × (circular_dynamic.consume
              wrapped 2
            ≡ ok b)
          × (consume circular_dynamic any 2 ≡ ok c)
          × (c.inner ≡ b)
          × (data_seq circular_dynamic c ≡ take max_buffers (circular_dynamic.data_seq b)))
        ⊎ (((x : Exception) × (circular_dynamic.consume wrapped 2 ≡ throws x)
              × (consume circular_dynamic any 2 ≡ throws x))
            ⊎ ((circular_dynamic.consume wrapped 2 ≡ fault)
                × (consume circular_dynamic any 2 ≡ fault))))
    × (((b : CircularBuffer) × (bs : BufferSequence) × (c : AnyDynamicBuffer circular_dynamic)
          × (circular_dynamic.prepare wrapped 2 ≡ ok (b, bs))
          × (prepare circular_dynamic any 2 ≡ ok (c, take max_buffers bs))
          × (c.inner ≡ b)
          × (data_seq circular_dynamic c ≡ data_seq circular_dynamic any))
        ⊎ (((x : Exception) × (circular_dynamic.prepare wrapped 2 ≡ throws x)
              × (prepare circular_dynamic any 2 ≡ throws x))
            ⊎ ((circular_dynamic.prepare wrapped 2 ≡ fault)
                × (prepare circular_dynamic any 2 ≡ fault))))
any_dynamic_lem_example = any_dynamic_lem circular_dynamic any 2
