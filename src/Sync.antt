-- ===== src/Sync.antt =====
-- thread/sync.c: semaphores and locks, and the tasks that compete for one lock.
-- `sema_down` and `sema_up` run with interrupts off, each in one piece up to where the task blocks.
-- Between those pieces, and between the other statements of `lock_acquire` and `lock_release` that
-- touch the lock, any other task may run: `step` runs a task to the next such place.
pub mod Exclusion
pub mod Schedule
pub mod Runs
mod Tests
use mcy_os.Prelude.{
  ℕ, zero, suc, ◌+◌, ◌-◌, ◌*◌, ◌/◌, ◌%◌, ◌^◌, ◌≤◌, ◌<◌, ◌≡◌, refl, sym, ap, ap₂, subst, ◌∙◌, ◌≢◌,
  ◌↔◌, ◌⊎◌, inl, inr, Bool, true, false, not, ◌&&◌, ◌||◌, Option, none, some, List, [], ◌∷◌, ◌++◌,
  arith, dec_lt, ℕ_discrete, all_below, all_below_sound, ltb, leb, ◌==◌, if◌then◌else◌, ltb→lt,
  lt→ltb, le→not_ltb, ==_iff, ==_refl, ==_ne, Bool-cases, and_left, and_right, minus_one, add32,
  sub32, length, get_or, set, take, drop, replicate, length-append, length-set, get_or-set_self,
  get_or-set_ne, get_or-set, get_or_outside, length-replicate, get_or-replicate, Result, ok, panic,
  ◌>>=◌, ◌>>◌, assert,
}
use mcy_os.LinkedList.{Ptr, null}
use mcy_os.LinkedList.Walk.{mem}

-- `struct semaphore`; `waiters` is the sequence of tasks on the list.
pub record Semaphore : Type 0 where
  pub value : ℕ
  pub waiters : List Ptr

-- `struct lock`
pub record Lock : Type 0 where
  pub holder : Ptr
  pub semaphore : Semaphore
  pub holder_repeat_nr : ℕ

abbrev pub sema_init : ℕ → Semaphore
sema_init value = record { value = value; waiters = [] }

abbrev pub lock_init : Lock
lock_init = record { holder = null; semaphore = sema_init 1; holder_repeat_nr = 0 }

-- A task that is blocked runs the loop's test again when it is woken.
pub data Down : Type 0 where
  passed : Semaphore → Down
  blocks : Semaphore → Down

-- `sema_down` from the test of its loop on. The second test for `cur` among the waiters has the
-- same answer as the assertion before it.
unfoldable pub sema_down : Ptr → Semaphore → Result Down
sema_down cur s =
    let blocked = record s { waiters = s.waiters ++ cur ∷ [] } in
    let down = record s { value = s.value - 1 } in
    if s.value == 0
    then assert (not (mem cur s.waiters)) >> ok (blocks blocked)
    else assert (down.value == 0) >> ok (passed down)

-- `sema_up`, with the task that it passes to `thread_unblock`.
unfoldable pub pop_waiter : Semaphore → Semaphore × Option Ptr
pop_waiter s = elim s.waiters [ [] ↦ (s, none) | t ∷ rest ↦ (record s { waiters = rest }, some t) ]

unfoldable pub sema_up : Semaphore → Result (Semaphore × Option Ptr)
sema_up s = do
  assert (s.value == 0)
  let (popped, woken) = pop_waiter s
  let up = record popped { value = (popped.value + 1) % 2 ^ 8 }
  assert (up.value == 1)
  ok (up, woken)

-- `lock_acquire` behind its `sema_down`
unfoldable pub take_lock : Ptr → Lock → Result Lock
take_lock cur l =
    assert (l.holder_repeat_nr == 0) >> ok (record l { holder = cur; holder_repeat_nr = 1 })

-- `lock_acquire` by the task that holds the lock
unfoldable pub acquire_again : Lock → Lock
acquire_again l = record l { holder_repeat_nr = add32 l.holder_repeat_nr 1 }

pub data Release : Type 0 where
  kept : Lock → Release
  cleared : Lock → Release

-- `lock_release` up to its `sema_up`, which follows where the holder is `cleared`.
unfoldable pub lock_release : Ptr → Lock → Result Release
lock_release cur l =
    let fewer = record l { holder_repeat_nr = l.holder_repeat_nr - 1 } in
    let free = record l { holder = null; holder_repeat_nr = 0 } in
    let release =
      if ltb 1 l.holder_repeat_nr
      then ok (kept fewer)
      else assert (l.holder_repeat_nr == 1) >> ok (cleared free) in
    assert (l.holder == cur) >> release

-- Where a task is: outside, before the test of the loop in `sema_down`, blocked there, behind
-- `sema_down`, in the section that the lock guards, or before `sema_up`.
pub data Place : Type 0 where
  outside testing waiting entering inside leaving : Place

pub record World : Type 0 where
  pub lock : Lock
  pub place : Ptr → Place

abbrev pub move : Ptr → Place → (Ptr → Place) → Ptr → Place
move t p place a = if a == t then p else place a

abbrev pub wake : Option Ptr → (Ptr → Place) → Ptr → Place
wake none place = place
wake (some t) place = move t testing place

abbrev pub after_down : Ptr → World → Down → Result World
after_down t w (passed s) =
    ok (record { lock = record w.lock { semaphore = s }; place = move t entering w.place })
after_down t w (blocks s) =
    ok (record { lock = record w.lock { semaphore = s }; place = move t waiting w.place })

abbrev pub after_release : Ptr → World → Release → Result World
after_release t w (kept l) = ok (record w { lock = l })
after_release t w (cleared l) = ok (record { lock = l; place = move t leaving w.place })

abbrev pub after_up : Ptr → World → Semaphore × Option Ptr → Result World
after_up t w r = ok (record {
  lock = record w.lock { semaphore = r.0 };
  place = wake (r.1) (move t outside w.place);
})

abbrev pub after_take : Ptr → World → Lock → Result World
after_take t w l = ok (record { lock = l; place = move t inside w.place })

-- What task `t` does next at a place. Inside, it acquires the lock once more or releases it.
unfoldable pub step_at : Place → Ptr → Bool → World → Result World
step_at outside t again w =
    if w.lock.holder == t
    then ok (record w { lock = acquire_again w.lock })
    else ok (record w { place = move t testing w.place })
step_at testing t again w = sema_down t w.lock.semaphore >>= after_down t w
step_at waiting t again w = ok w
step_at entering t again w = take_lock t w.lock >>= after_take t w
step_at inside t again w =
    let released = lock_release t w.lock >>= after_release t w in
    if again
    then (if w.lock.holder == t
        then ok (record w { lock = acquire_again w.lock })
        else ok (record w { place = move t testing w.place }))
    else released
step_at leaving t again w = sema_up w.lock.semaphore >>= after_up t w

unfoldable pub step : Ptr → Bool → World → Result World
step t again w = step_at (w.place t) t again w
