-- ===== src/Thread/Dispatch.antt =====
-- The three parts of `schedule`.
use mcy_os.Prelude.{
  ap, subst, List, [], ◌≡◌, refl, ap, subst, ◌≢◌, inl, inr, true, false, List, [], ◌∷◌, ◌++◌, arith,
  if◌then◌else◌, Bool-cases, ok,
}
use mcy_os.LinkedList.{Ptr}
use mcy_os.LinkedList.Walk.{mem}
use mcy_os.Thread.{
  Sched, Task, running, ready, is, set_task, set_status, thread_unblock, requeue, ensure_ready,
  dispatch, dispatch_first, ensure_from, process_activate, may_sleep,
}
use mcy_os.Thread.Queue.{Distinct, Distinct-snoc, mem-snoc}
use mcy_os.Thread.Invariant.{ReadyIsQueue, IsValid, IsHalfway, IsStopped}

-- Putting a task that is not ready at the end of the ready list.
module _ (s : Sched) (t : Ptr) (v : Task) (now : v.status ≡ ready) where
  abbrev pub queued : Sched
  queued = set_task (record s { thread_ready_list = s.thread_ready_list ++ t ∷ [] }) t v

  pub queued-ReadyIsQueue : ReadyIsQueue s → (s.tasks t).status ≢ ready → ReadyIsQueue queued
  queued-ReadyIsQueue q ne = record {
    exact = λ a. ground (arith, q.exact a, mem-snoc a t s.thread_ready_list);
    distinct = Distinct-snoc t s.thread_ready_list q.distinct (ground (arith, q.exact t));
  }

-- The ready list once the current task is back in it, if it only lost the processor.
abbrev pub lined_up : Sched → List Ptr
lined_up s =
    if is (s.tasks s.current).status running
    then s.thread_ready_list ++ s.current ∷ []
    else s.thread_ready_list

-- A task that sleeps, other than the idle task, is left as it is.
abbrev pub Sleeps : Sched → Ptr → Type 0
Sleeps s a = ((s.tasks a).status ≢ running) × ((s.tasks a).status ≢ ready) × (a ≢ s.idle_thread)

-- ... and no guard word at the end of a task's stack changes.
abbrev pub KeepsSleepers : Sched → Sched → Type 0
KeepsSleepers s s' =
    (s'.idle_thread ≡ s.idle_thread)
    × ((a : Ptr) → Sleeps s a → (s'.tasks a).status ≡ (s.tasks a).status)
    × ((a : Ptr) → (s'.tasks a).stack_magic ≡ (s.tasks a).stack_magic)

-- A task that only lost the processor is put at the end of the ready list.
pub requeue-IsStopped :
    (s : Sched)
    → IsHalfway s
    → (s1 : Sched) × (requeue s ≡ ok s1)
      × IsStopped s1
      × (s1.thread_ready_list ≡ lined_up s)
      × KeepsSleepers s s1
unfolding requeue
requeue-IsStopped s h = elim (Bool-cases (is (s.tasks s.current).status running)) [
  | inl e ↦
      let nr : mem s.current s.thread_ready_list ≡ false =
        ground (arith, h.queue.exact s.current) in
      let full : Task = record (s.tasks s.current) {
        ticks = (s.tasks s.current).priority;
        status = ready;
      } in
      rw (e, nr)
        (
          queued s s.current full refl,
          refl,
          record {
            queue = queued-ReadyIsQueue s s.current full refl h.queue (ground arith);
            idle = ground arith;
            off = h.off;
            nobody = λ t. ground (arith, h.none_else t);
          },
          refl,
          (refl, (λ a k. ground arith), λ a. ground arith),
        )
  | inr e ↦ rw e (
    s,
    refl,
    record {
      queue = h.queue;
      idle = h.idle;
      off = h.off;
      nobody = λ t. ground (arith, h.none_else t);
    },
    refl,
    (refl, (λ a k. refl), λ a. refl),
  )
]

-- A sleeping task is put in front of the ready list.
module _ (s : Sched) (t : Ptr) where
  abbrev pub woken : Sched
  woken = set_status (record s { thread_ready_list = t ∷ s.thread_ready_list }) t ready

  pub woken-ReadyIsQueue : ReadyIsQueue s → (s.tasks t).status ≢ ready → ReadyIsQueue woken
  woken-ReadyIsQueue q ne = record {
    exact = λ a. ground (arith, q.exact a, q.exact t);
    distinct = (ground (arith, q.exact t), q.distinct);
  }

  pub thread_unblock-ok :
      ReadyIsQueue s → may_sleep (s.tasks t).status ≡ true → thread_unblock s t ≡ ok woken
  unfolding thread_unblock
  thread_unblock-ok q e =
      let nr : mem t s.thread_ready_list ≡ false = ground (arith, q.exact t) in rw (e, nr)

-- With nothing ready the idle task is blocked, and becomes ready.
ensure_from-IsStopped :
    (s : Sched) (ts : List Ptr)
    → s.thread_ready_list ≡ ts
    → IsStopped s
    → (s2 : Sched) × (ensure_from s ts ≡ ok s2)
      × IsStopped s2
      × ((t : Ptr) × (us : List Ptr) × (s2.thread_ready_list ≡ t ∷ us))
      × KeepsSleepers s s2
unfolding ensure_from
ensure_from-IsStopped s [] e h = (
  woken s s.idle_thread,
  thread_unblock-ok s s.idle_thread h.queue (ground (arith, h.nobody s.idle_thread, unready)),
  record {
    queue = woken-ReadyIsQueue s s.idle_thread h.queue unready;
    idle = ground arith;
    off = h.off;
    nobody = λ t. ground (arith, h.nobody t);
  },
  (s.idle_thread, s.thread_ready_list, refl),
  (refl, (λ a k. ground arith), λ a. ground arith),
)
  where
    unready : (s.tasks s.idle_thread).status ≢ ready
    unready = ground (arith, h.queue.exact s.idle_thread, ap (mem s.idle_thread) e)
ensure_from-IsStopped s (t ∷ ts) e h = (s, refl, h, (t, ts, e), (refl, (λ a k. refl), λ a. refl))

pub ensure_ready-IsStopped :
    (s : Sched)
    → IsStopped s
    → (s2 : Sched) × (ensure_ready s ≡ ok s2)
      × IsStopped s2
      × ((t : Ptr) × (us : List Ptr) × (s2.thread_ready_list ≡ t ∷ us))
      × KeepsSleepers s s2
unfolding ensure_ready
ensure_ready-IsStopped s h = ensure_from-IsStopped s s.thread_ready_list refl h

pub ensure_ready_some :
    (s : Sched) (t : Ptr) (ts : List Ptr) → s.thread_ready_list ≡ t ∷ ts → ensure_ready s ≡ ok s
unfolding ensure_ready ensure_from
ensure_ready_some s t ts e = ap (ensure_from s) e

-- The first ready task becomes current and runs.
module _ (s : Sched) (t : Ptr) (ts : List Ptr) (e : s.thread_ready_list ≡ t ∷ ts) where
  abbrev pub dispatched : Sched
  unfolding process_activate
  dispatched =
      record (process_activate (set_status (record s { thread_ready_list = ts }) t running) t) {
        current = t;
      }

  pub dispatch-ok : dispatch s ≡ ok dispatched
  unfolding dispatch dispatch_first process_activate
  dispatch-ok = ap (dispatch_first s) e

  pub dispatched-IsValid : IsStopped s → IsValid dispatched
  unfolding process_activate
  dispatched-IsValid h = record {
    queue = record {
      exact = λ a. ground (arith, h.queue.exact a, ap (mem a) e, apart);
      distinct = apart.1;
    };
    idle = ground arith;
    alone = λ a. ground (arith, h.nobody a);
  }
    where
      apart : Distinct (t ∷ ts)
      apart = subst Distinct e h.queue.distinct

  pub dispatched-KeepsSleepers : IsStopped s → KeepsSleepers s dispatched
  unfolding process_activate
  dispatched-KeepsSleepers h =
      (refl, (λ a k. ground (arith, h.queue.exact a, ap (mem a) e)), λ a. ground arith)

  pub dispatched_first : (dispatched.current ≡ t) × (dispatched.thread_ready_list ≡ ts)
  unfolding process_activate
  dispatched_first = (refl, refl)
