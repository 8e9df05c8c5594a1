-- ===== src/Ioqueue.antt =====
-- device/ioquene.c, the ring buffer between a producer and a consumer, and the reads and writes of
-- shell/pipe.c over it. Bytes are only moved. A function that has to wait ends in `sleeps`, with
-- the queue as it is when `thread_block` is called; the task tests the queue again when it runs on.
-- The queue's lock, which keeps a second task from waiting on the same side, is not in the model.
pub mod Ring
pub mod Fifo
pub mod Pipe
mod Tests
use mcy_os.Prelude.{
  ℕ, zero, suc, ◌+◌, ◌-◌, ◌%◌, Bool, not, List, [], ◌∷◌, ◌++◌, replicate, get_or, set, ltb, leb,
  ◌==◌, if◌then◌else◌, Result, ok, panic, ◌>>=◌, ◌>>◌, assert,
}
use mcy_os.LinkedList.{Ptr, null}

abbrev pub bufsize : ℕ
bufsize = 2048

-- `struct ioqueue`, with the tasks that were passed to `thread_unblock`, the last one first.
pub record Ioqueue : Type 0 where
  pub producer : Ptr
  pub consumer : Ptr
  pub buf : List ℕ
  pub head : ℕ
  pub tail : ℕ
  pub unblocked : List Ptr

pub data Attempt {ℓ} (A : Type ℓ) : Type ℓ where
  done : A → Ioqueue → Attempt A
  sleeps : Ioqueue → Attempt A

unfoldable pub init : Ioqueue → Ioqueue
init q = record q { producer = null; consumer = null; head = 0; tail = 0 }

-- `pos` is never negative.
abbrev pub next_pos : ℕ → ℕ
next_pos pos = (pos + 1) % bufsize

-- `head` and `tail` lie in the buffer, so neither difference is negative.
unfoldable pub length : Ioqueue → ℕ
length q = if leb q.tail q.head then q.head - q.tail else bufsize - (q.tail - q.head)

-- `if (waiter != NULL) wakeup(&waiter)`: a waiter is unblocked, and in each case none is left.
unfoldable pub wake_producer : Ioqueue → Ioqueue
wake_producer q = record q {
  unblocked = if q.producer == null then q.unblocked else q.producer ∷ q.unblocked;
  producer = null;
}

unfoldable pub wake_consumer : Ioqueue → Ioqueue
wake_consumer q = record q {
  unblocked = if q.consumer == null then q.unblocked else q.consumer ∷ q.unblocked;
  consumer = null;
}

-- `intr_on` is the interrupt flag, and `cur` the running task.
module _ (intr_on : Bool) (cur : Ptr) where
  unfoldable pub full : Ioqueue → Result Bool
  full q = assert (not intr_on) >> ok (next_pos q.head == q.tail)

  unfoldable pub empty : Ioqueue → Result Bool
  empty q = assert (not intr_on) >> ok (q.head == q.tail)

  -- `ioq_wait(&ioq->consumer)` and `ioq_wait(&ioq->producer)`
  unfoldable pub wait_consumer : Ioqueue → Result Ioqueue
  wait_consumer q = assert (q.consumer == null) >> ok (record q { consumer = cur })

  unfoldable pub wait_producer : Ioqueue → Result Ioqueue
  wait_producer q = assert (q.producer == null) >> ok (record q { producer = cur })

  unfoldable pub getchar : Ioqueue → Result (Attempt ℕ)
  getchar q = do
    assert (not intr_on)
    nothing ← empty q
    let byte = get_or q.buf q.tail 0
    let taken = wake_producer (record q { tail = next_pos q.tail })
    let wait = wait_consumer q >>= λ q'. ok (sleeps q')
    if nothing then wait else ok (done byte taken)

  unfoldable pub putchar : Ioqueue → ℕ → Result (Attempt (Unit {0}))
  putchar q byte = do
    assert (not intr_on)
    no_room ← full q
    let put = wake_consumer (record q { buf = set q.buf q.head byte; head = next_pos q.head })
    let wait = wait_producer q >>= λ q'. ok (sleeps q')
    if no_room then wait else ok (done tt put)

  -- The loop of `pipe_read`, with the rounds left: the bytes that it stores.
  unfoldable pub read_loop : ℕ → Ioqueue → List ℕ → Result (Attempt (List ℕ))
  read_loop zero q buffer = ok (done buffer q)
  read_loop (suc left) q buffer = getchar q >>= λ r. elim r [
    | sleeps q' ↦ ok (sleeps q')
    | done byte q' ↦ read_loop left q' (buffer ++ byte ∷ [])
  ]

  unfoldable pub pipe_read : Ioqueue → ℕ → Result (Attempt (List ℕ))
  pipe_read q count =
      let ioq_len = length q in
      let size = if ltb count ioq_len then count else ioq_len in read_loop size q []

  -- The loop of `pipe_write`: `buffer` holds the bytes that are not written yet. The caller owns at
  -- least `count` bytes; a read past them is not modelled and ends the run.
  unfoldable pub write_loop : ℕ → Ioqueue → List ℕ → Result (Attempt (Unit {0}))
  write_loop zero q buffer = ok (done tt q)
  write_loop (suc left) q [] = panic
  write_loop (suc left) q (byte ∷ buffer) = putchar q byte >>= λ r. elim r [
    | sleeps q' ↦ ok (sleeps q')
    | done _ q' ↦ write_loop left q' buffer
  ]

  -- The answer is the number of bytes written.
  unfoldable pub pipe_write : Ioqueue → List ℕ → ℕ → Result (Attempt ℕ)
  pipe_write q buf count =
      let ioq_left = bufsize - length q in
      let size = if ltb count ioq_left then count else ioq_left in
      write_loop size q buf >>= λ r. elim r [
        | sleeps q' ↦ ok (sleeps q')
        | done _ q' ↦ ok (done size q')
      ]
