-- ===== src/Ioqueue/Fifo.antt =====
-- The queue as the sequence of the bytes it holds, the oldest first.
use mcy_os.Prelude.{
  ℕ, suc, ◌+◌, ◌-◌, ◌%◌, ◌<◌, ◌≡◌, refl, ap, ap₂, ◌∙◌, ◌≢◌, false, List, [], ◌∷◌, ◌++◌, arith,
  length, get_or, set, length-set, get_or-set_self, ok,
}
use mcy_os.LinkedList.{Ptr, null}
use mcy_os.Ioqueue.{
  bufsize, Ioqueue, Attempt, done, sleeps, next_pos, init, full, empty, getchar, putchar,
  wait_consumer, wait_producer, wake_consumer, wake_producer,
}
use mcy_os.Ioqueue
use mcy_os.Ioqueue.Ring.{length-segment, segment, segment-set_apart, segment-snoc}

pub record IsValid (q : Ioqueue) : Type 0 where
  pub sized : length q.buf ≡ bufsize
  pub head_in : q.head < bufsize
  pub tail_in : q.tail < bufsize

-- How many bytes it holds.
abbrev pub held : Ioqueue → ℕ
held q = (q.head + bufsize - q.tail) % bufsize

abbrev pub contents : Ioqueue → List ℕ
contents q = segment q.buf q.tail (held q)

pub length-contents : (q : Ioqueue) → length (contents q) ≡ held q
length-contents q = length-segment q.buf q.tail (held q)

-- `ioq_length` is the number of bytes held.
pub length-held : (q : Ioqueue) → IsValid q → Ioqueue.length q ≡ held q
unfolding Ioqueue.length
length-held q v = ground arith

module _ (q : Ioqueue) (v : IsValid q) where
  taken : Ioqueue
  taken = wake_producer (record q { tail = next_pos q.tail })

  contents-taken : held q ≢ 0 → contents q ≡ get_or q.buf q.tail 0 ∷ contents taken
  unfolding taken wake_producer
  contents-taken h = let e : held q ≡ suc (held taken) = omega arith in ap (segment q.buf q.tail) e

  put : ℕ → Ioqueue
  put byte = wake_consumer (record q { buf = set q.buf q.head byte; head = next_pos q.head })

  contents-put : (byte : ℕ) → held q ≢ bufsize - 1 → contents (put byte) ≡ contents q ++ byte ∷ []
  unfolding put wake_consumer
  contents-put byte h =
      let buf = set q.buf q.head byte in
      let e : held (put byte) ≡ suc (held q) = omega arith in
      ap (segment buf q.tail) e
      ∙ segment-snoc buf q.tail (held q) q.head v.tail_in (omega arith)
      ∙ ap₂ (λ s x. s ++ x ∷ [])
          (segment-set_apart q.buf q.head byte q.tail (held q) v.head_in v.tail_in (omega arith))
          (get_or-set_self q.buf q.head byte 0 (omega arith))

  module _ (cur : Ptr) where
    -- With interrupts off, `ioq_getchar` of a valid queue that holds a byte does not wait: it takes
    -- the oldest byte and leaves the others, and no producer is waiting any more.
    pub getchar_lem :
        held q ≢ 0
        → (q' : Ioqueue) × (getchar false cur q ≡ ok (done (get_or q.buf q.tail 0) q'))
          × IsValid q'
          × (contents q ≡ get_or q.buf q.tail 0 ∷ contents q')
          × (q'.producer ≡ null)
          × (q'.consumer ≡ q.consumer)
    unfolding getchar empty taken wake_producer
    getchar_lem h = (
      taken,
      ground arith,
      record { sized = v.sized; head_in = v.head_in; tail_in = omega arith },
      contents-taken h,
      refl,
      refl,
    )

    -- With interrupts off, `ioq_putchar` to a valid queue of fewer than 2047 bytes does not wait: it
    -- puts the byte behind the others, and no consumer is waiting any more.
    pub putchar_lem :
        (byte : ℕ)
        → held q ≢ bufsize - 1
        → (q' : Ioqueue) × (putchar false cur q byte ≡ ok (done tt q'))
          × IsValid q'
          × (contents q' ≡ contents q ++ byte ∷ [])
          × (q'.consumer ≡ null)
          × (q'.producer ≡ q.producer)
    unfolding putchar full put wake_consumer
    putchar_lem byte h = (
      put byte,
      ground arith,
      record {
        sized = length-set q.buf q.head byte ∙ v.sized;
        head_in = omega arith;
        tail_in = v.tail_in;
      },
      contents-put byte h,
      refl,
      refl,
    )

    -- A full queue makes the producer wait, and an empty one the consumer; nothing else changes.
    pub putchar_full :
        (byte : ℕ)
        → held q ≡ bufsize - 1
        → q.producer ≡ null
        → putchar false cur q byte ≡ ok (sleeps (record q { producer = cur }))
    unfolding putchar full wait_producer
    putchar_full byte h e = ground arith

    pub getchar_empty :
        held q ≡ 0
        → q.consumer ≡ null
        → getchar false cur q ≡ ok (sleeps (record q { consumer = cur }))
    unfolding getchar empty wait_consumer
    getchar_empty h e = ground arith
