-- ===== src/Ioqueue/Pipe.antt =====
-- `pipe_read` and `pipe_write` as operations on the sequence of bytes.
use mcy_os.Prelude.{
  ℕ, zero, suc, ◌+◌, ◌-◌, ◌*◌, ◌/◌, ◌%◌, ◌^◌, ◌≤◌, ◌<◌, ◌≡◌, refl, sym, ap, ap₂, subst, ◌∙◌, ◌≢◌,
  ◌↔◌, ◌⊎◌, inl, inr, Bool, true, false, not, ◌&&◌, ◌||◌, Option, none, some, List, [], ◌∷◌, ◌++◌,
  arith, dec_lt, ℕ_discrete, all_below, all_below_sound, ltb, leb, ◌==◌, if◌then◌else◌, ltb→lt,
  lt→ltb, le→not_ltb, ==_iff, ==_refl, ==_ne, Bool-cases, minus_one, add32, sub32, get_or, set,
  take, drop, replicate, length-append, length-set, get_or-set_self, get_or-set_ne, get_or-set,
  get_or_outside, length-replicate, get_or-replicate, Result, ok, panic, ◌>>=◌, ◌>>◌, assert,
}
use mcy_os.Prelude
use Prim.Native.Nat.{min}
use mathlib.Core.List.{append-nil, append_assoc}
use mcy_os.LinkedList.{Ptr, null}
use mcy_os.Ioqueue.{
  bufsize, Ioqueue, Attempt, done, sleeps, getchar, putchar, read_loop, pipe_read, pipe_write,
  write_loop, pipe_write,
}
use mcy_os.Ioqueue
use mcy_os.Ioqueue.Fifo.{
  length-contents, IsValid, held, contents, length-held, getchar_lem, putchar_full, putchar_lem,
}

held_step : (q q' : Ioqueue) (byte : ℕ) → contents q ≡ byte ∷ contents q' → suc (held q') ≡ held q
held_step q q' byte c =
    omega (arith, length-contents q, length-contents q', ap (λ r. Prelude.length r) c)

held_more :
    (q q' : Ioqueue) (byte : ℕ) → contents q' ≡ contents q ++ byte ∷ [] → held q' ≡ held q + 1
held_more q q' byte c = omega (
  arith,
  length-contents q,
  length-contents q',
  ap (λ r. Prelude.length r) c,
  length-append (contents q) (byte ∷ []),
)

module _ (cur : Ptr) where
  -- The rest of a round of the two loops.
  abbrev read_next : ℕ → List ℕ → Attempt ℕ → Result (Attempt (List ℕ))
  read_next n buffer (sleeps q) = ok (sleeps q)
  read_next n buffer (done byte q) = read_loop false cur n q (buffer ++ byte ∷ [])

  abbrev write_next : ℕ → List ℕ → Attempt (Unit {0}) → Result (Attempt (Unit {0}))
  write_next n buffer (sleeps q) = ok (sleeps q)
  write_next n buffer (done _ q) = write_loop false cur n q buffer

  abbrev count_of : ℕ → Attempt (Unit {0}) → Result (Attempt ℕ)
  count_of n (sleeps q) = ok (sleeps q)
  count_of n (done _ q) = ok (done n q)

  -- The loop of `pipe_read` moves the `n` oldest bytes.
  read_loop_lem :
      (n : ℕ) (q : Ioqueue) (buffer : List ℕ)
      → IsValid q
      → n ≤ held q
      → (got : List ℕ) × (q' : Ioqueue) × (read_loop false cur n q buffer
          ≡ ok (done (buffer ++ got) q'))
        × IsValid q'
        × (contents q ≡ got ++ contents q')
        × (Prelude.length got ≡ n)
  unfolding read_loop
  read_loop_lem zero q buffer v h = ([], q, rw append-nil refl, v, refl, refl)
  read_loop_lem (suc n) q buffer v h =
      let byte = get_or q.buf q.tail 0 in
      let (q1, e1, v1, c1, _, _) = getchar_lem q v cur (omega arith) in
      let left : suc (held q1) ≡ held q = held_step q q1 byte c1 in
      let (got, q2, e2, v2, c2, l2) =
        read_loop_lem n q1 (buffer ++ byte ∷ []) v1 (omega (arith, left)) in
      (
        byte ∷ got,
        q2,
        ap (λ m. m >>= read_next n buffer) e1
            ∙ e2
            ∙ ap (λ b. ok (done b q2)) (append_assoc buffer (byte ∷ []) got),
        v2,
        c1 ∙ ap (λ r. byte ∷ r) c2,
        ap suc l2,
      )

  -- With interrupts off, `pipe_read` of a valid queue never waits: it returns the oldest bytes, as
  -- many as are there and no more than `count`, and leaves the others.
  pub pipe_read_lem :
      (q : Ioqueue) (count : ℕ)
      → IsValid q
      → (got : List ℕ) × (q' : Ioqueue) × (pipe_read false cur q count ≡ ok (done got q'))
        × IsValid q'
        × (contents q ≡ got ++ contents q')
        × (Prelude.length got ≡ min count (Prelude.length (contents q)))
  unfolding pipe_read
  pipe_read_lem q count v =
      let size = if ltb count (Ioqueue.length q) then count else Ioqueue.length q in
      let (got, q', e, v', c, l) = read_loop_lem size q [] v (ground (arith, length-held q v)) in
      (got, q', e, v', c, l ∙ ground (arith, length-held q v, length-contents q))

  -- The loop of `pipe_write` puts its bytes behind the others, where there is room.
  write_loop_lem :
      (bytes : List ℕ) (q : Ioqueue) (rest : List ℕ)
      → IsValid q
      → held q + Prelude.length bytes < bufsize
      → (q' : Ioqueue) × (write_loop false cur (Prelude.length bytes) q (bytes ++ rest)
          ≡ ok (done tt q'))
        × IsValid q'
        × (contents q' ≡ contents q ++ bytes)
  unfolding write_loop
  write_loop_lem [] q rest v h = (q, refl, v, sym (append-nil (contents q)))
  write_loop_lem (byte ∷ bytes) q rest v h =
      let (q1, e1, v1, c1, _, _) = putchar_lem q v cur byte (omega arith) in
      let more : held q1 ≡ held q + 1 = held_more q q1 byte c1 in
      let (q2, e2, v2, c2) = write_loop_lem bytes q1 rest v1 (omega (arith, more)) in
      (
        q2,
        ap (λ m. m >>= write_next (Prelude.length bytes) (bytes ++ rest)) e1 ∙ e2,
        v2,
        c2 ∙ ap (λ r. r ++ bytes) c1 ∙ append_assoc (contents q) (byte ∷ []) bytes,
      )

  -- With interrupts off, `pipe_write` of bytes to a valid queue that then holds at most 2047 bytes
  -- does not wait: it returns their number and puts them behind the others.
  pub pipe_write_lem :
      (q : Ioqueue) (bytes rest : List ℕ)
      → IsValid q
      → held q + Prelude.length bytes < bufsize
      → (q' : Ioqueue) × (pipe_write false cur q (bytes ++ rest) (Prelude.length bytes)
          ≡ ok (done (Prelude.length bytes) q'))
        × IsValid q'
        × (contents q' ≡ contents q ++ bytes)
  unfolding pipe_write
  pipe_write_lem q bytes rest v h =
      let n = Prelude.length bytes in
      let (q', e, v', c) = write_loop_lem bytes q rest v h in
      let left = bufsize - Ioqueue.length q in
      let fits : (if ltb n left then n else left) ≡ n = ground (arith, length-held q v) in
      (
        q',
        ap (λ k. write_loop false cur k q (bytes ++ rest) >>= count_of k) fits
            ∙ ap (λ m. m >>= count_of n) e,
        v',
        c,
      )

  -- One byte more than there is room for: the loop fills the queue and waits.
  write_loop_sleeps :
      (bytes : List ℕ) (n : ℕ) (q : Ioqueue) (byte : ℕ) (rest : List ℕ)
      → IsValid q
      → held q + Prelude.length bytes ≡ bufsize - 1
      → Prelude.length bytes < n
      → q.producer ≡ null
      → (q' : Ioqueue) × (write_loop false cur n q (bytes ++ byte ∷ rest) ≡ ok (sleeps q'))
        × (contents q' ≡ contents q ++ bytes)
        × (q'.producer ≡ cur)
  unfolding write_loop
  write_loop_sleeps bytes zero q byte rest v h hn p = absurd (omega arith)
  write_loop_sleeps [] (suc n) q byte rest v h hn p = (
    record q { producer = cur },
    ap (λ m. m >>= write_next n rest) (putchar_full q v cur byte (omega arith) p),
    sym (append-nil (contents q)),
    refl,
  )
  write_loop_sleeps (b ∷ bytes) (suc n) q byte rest v h hn p =
      let (q1, e1, v1, c1, _, p1) = putchar_lem q v cur b (omega arith) in
      let more : held q1 ≡ held q + 1 = held_more q q1 b c1 in
      let (q2, e2, c2, p2) =
        write_loop_sleeps bytes n q1 byte rest v1 (omega (arith, more)) (omega arith) (p1 ∙ p) in
      (
        q2,
        ap (λ m. m >>= write_next n (bytes ++ byte ∷ rest)) e1 ∙ e2,
        c2 ∙ ap (λ r. r ++ bytes) c1 ∙ append_assoc (contents q) (b ∷ []) bytes,
        p2,
      )

  -- The room that `pipe_write` computes, 2048 bytes less those held, is one byte too much: where
  -- `count` is more than what fits, it fills a valid queue and then waits in `ioq_putchar`, as the
  -- only producer, although it means to write no more than fits.
  pub pipe_write_waits :
      (q : Ioqueue) (bytes : List ℕ) (byte : ℕ) (rest : List ℕ) (count : ℕ)
      → IsValid q
      → held q + Prelude.length bytes ≡ bufsize - 1
      → Prelude.length bytes < count
      → q.producer ≡ null
      → (q' : Ioqueue) × (pipe_write false cur q (bytes ++ byte ∷ rest) count ≡ ok (sleeps q'))
        × (contents q' ≡ contents q ++ bytes)
        × (q'.producer ≡ cur)
  unfolding pipe_write
  pipe_write_waits q bytes byte rest count v h hn p =
      let left = bufsize - Ioqueue.length q in
      let size = if ltb count left then count else left in
      let (q', e, c, p') =
        write_loop_sleeps bytes size q byte rest v h (ground (arith, length-held q v)) p in
      (q', ap (λ m. m >>= count_of size) e, c, p')
