-- ===== src/Thread/Blocking.antt =====
-- `schedule` and its callers keep the tasks in order and never stop the machine.
use mcy_os.Prelude.{
  ◌-◌, ◌≢◌, ℕ_discrete, ◌≡◌, refl, ◌∙◌, ◌≢◌, true, false, [], ◌∷◌, ◌++◌, arith, Result, ok,
}
use mcy_os.LinkedList.{Ptr}
use mcy_os.LinkedList.Walk.{mem}
use mcy_os.Thread.{
  Sched, TaskStatus, ready, blocked, set_status, thread_unblock, requeue, ensure_ready, dispatch,
  schedule, intr_timer_handler, set_task, may_sleep, thread_block, thread_yield, count_tick,
}
use mcy_os.Thread.Invariant.{IsValid, StacksAreWhole, IsHalfway}
use mcy_os.Thread.Dispatch.{
  queued-ReadyIsQueue, KeepsSleepers, requeue-IsStopped, woken, woken-ReadyIsQueue,
  thread_unblock-ok, ensure_ready-IsStopped, dispatched, dispatch-ok, dispatched-IsValid,
  dispatched-KeepsSleepers,
}

-- What a call of `schedule` from `s` ends in.
abbrev pub Scheduled : Sched → Result Sched → Type 0
Scheduled s r = (s' : Sched) × (r ≡ ok s') × IsValid s' × KeepsSleepers s s'

keeps_trans :
    (s s1 s2 s3 : Sched)
    → KeepsSleepers s s1
    → KeepsSleepers s1 s2
    → KeepsSleepers s2 s3
    → KeepsSleepers s s3
keeps_trans s s1 s2 s3 k l m =
    (m.0 ∙ l.0 ∙ k.0, (λ a h. ground (arith, k.1 a, l.1 a, m.1 a)), λ a. m.2 a ∙ l.2 a ∙ k.2 a)

pub schedule_steps :
    (s s1 s2 : Sched)
    → s.intr_on ≡ false
    → requeue s ≡ ok s1
    → ensure_ready s1 ≡ ok s2
    → schedule s ≡ dispatch s2
unfolding schedule
schedule_steps s s1 s2 off e1 e2 = simp (off, e1, e2)

pub schedule-Scheduled : (s : Sched) → IsHalfway s → Scheduled s (schedule s)
schedule-Scheduled s h =
    let (s1, e1, h1, _, k1) = requeue-IsStopped s h in
    let (s2, e2, h2, (t, ts, e), k2) = ensure_ready-IsStopped s1 h1 in
    (
      dispatched s2 t ts e,
      schedule_steps s s1 s2 h.off e1 e2 ∙ dispatch-ok s2 t ts e,
      dispatched-IsValid s2 t ts e h2,
      keeps_trans s s1 s2 (dispatched s2 t ts e) k1 k2 (dispatched-KeepsSleepers s2 t ts e h2),
    )

-- The current task goes to sleep.
module _ (s : Sched) (stat : TaskStatus) where
  abbrev pub asleep : Sched
  asleep = set_status (record s { intr_on = false }) s.current stat

  asleep-IsHalfway :
      IsValid s
      → may_sleep stat ≡ true
      → (s.current ≡ s.idle_thread → stat ≡ blocked)
      → IsHalfway asleep
  asleep-IsHalfway v e i = record {
    queue = record {
      exact = λ a. ground (arith, v.queue.exact a, v.alone a);
      distinct = v.queue.distinct;
    };
    idle = ground (arith, v.alone s.idle_thread);
    none_else = λ a. ground (arith, v.alone a);
    off = refl;
  }

  pub thread_block-Scheduled :
      IsValid s
      → may_sleep stat ≡ true
      → (s.current ≡ s.idle_thread → stat ≡ blocked)
      → Scheduled asleep (thread_block s stat)
  unfolding thread_block
  thread_block-Scheduled v e i = rw e (schedule-Scheduled asleep (asleep-IsHalfway v e i))

  -- In a sound scheduler, and with one of the statuses TASK_BLOCKED, TASK_WAITING and TASK_HANGING,
  -- which for the idle task is TASK_BLOCKED, `thread_block` does not stop the machine and leaves the
  -- tasks in order: exactly the current task runs, and the ready list holds exactly the ready tasks.
  -- A blocked task that is not the idle task sleeps in the status that was asked for.
  pub thread_block_lem :
      IsValid s
      → may_sleep stat ≡ true
      → (s.current ≡ s.idle_thread → stat ≡ blocked)
      → (s' : Sched) × (thread_block s stat ≡ ok s')
        × IsValid s'
        × (s.current ≢ s.idle_thread → (s'.tasks s.current).status ≡ stat)
  thread_block_lem v e i =
      let (s', r, v', k) = thread_block-Scheduled v e i in
      (s', r, v', λ ne. ground (arith, k.1 s.current))

pub woken-IsValid :
    (s : Sched) (t : Ptr) → IsValid s → may_sleep (s.tasks t).status ≡ true → IsValid (woken s t)
woken-IsValid s t v e = record {
  queue = woken-ReadyIsQueue s t v.queue (ground arith);
  idle = ground arith;
  alone = λ a. ground (arith, v.alone a);
}

-- `thread_unblock` of a sleeping task makes it the next one to run, and keeps the tasks in order.
pub thread_unblock_lem :
    (s : Sched) (t : Ptr)
    → IsValid s
    → may_sleep (s.tasks t).status ≡ true
    → (s' : Sched) × (thread_unblock s t ≡ ok s')
      × IsValid s'
      × (s'.current ≡ s.current)
      × (s'.thread_ready_list ≡ t ∷ s.thread_ready_list)
unfolding thread_unblock
thread_unblock_lem s t v e =
    (woken s t, thread_unblock-ok s t v.queue e, woken-IsValid s t v e, refl, refl)

-- The current task gives the processor up.
module _ (s : Sched) where
  abbrev pub yielding : Sched
  yielding =
      set_status
        (record s { intr_on = false; thread_ready_list = s.thread_ready_list ++ s.current ∷ [] })
        s.current ready

  yielding-IsHalfway : IsValid s → IsHalfway yielding
  yielding-IsHalfway v =
      let quiet : Sched = record s { intr_on = false } in
      record {
        queue =
            queued-ReadyIsQueue quiet s.current (record (s.tasks s.current) { status = ready }) refl
              (record { exact = v.queue.exact; distinct = v.queue.distinct })
              (ground (arith, v.alone s.current));
        idle = ground (arith, v.alone s.idle_thread);
        none_else = λ a. ground (arith, v.alone a);
        off = refl;
      }

  -- `thread_yield` never stops the machine and leaves the tasks in order; tasks that sleep go on
  -- sleeping.
  pub thread_yield_lem : IsValid s → Scheduled yielding (thread_yield s)
  unfolding thread_yield
  thread_yield_lem v =
      let absent : mem s.current s.thread_ready_list ≡ false =
        ground (arith, v.queue.exact s.current, v.alone s.current) in
      simp absent (schedule-Scheduled yielding (yielding-IsHalfway v))

  -- The clock interrupt counts, and may then schedule.
  pub counted-IsHalfway : IsValid s → IsHalfway (count_tick s)
  counted-IsHalfway v = record {
    queue = record { exact = λ a. ground (arith, v.queue.exact a); distinct = v.queue.distinct };
    idle = ground arith;
    none_else = λ a. ground (arith, v.alone a);
    off = refl;
  }

  abbrev pub one_less : Sched
  one_less =
      let cur = (count_tick s).tasks s.current in
      set_task (count_tick s) s.current (record cur { ticks = cur.ticks - 1 })

  pub one_less-IsValid : IsValid s → IsValid one_less
  one_less-IsValid v = record {
    queue = record { exact = λ a. ground (arith, v.queue.exact a); distinct = v.queue.distinct };
    idle = ground arith;
    alone = λ a. ground (arith, v.alone a);
  }

  pub handler-schedules :
      (s.tasks s.current).stack_magic ≡ 0x19870916
      → (s.tasks s.current).ticks ≡ 0
      → intr_timer_handler s ≡ schedule (count_tick s)
  unfolding intr_timer_handler
  handler-schedules g z = ground arith

  pub handler-counts :
      (s.tasks s.current).stack_magic ≡ 0x19870916
      → (s.tasks s.current).ticks ≢ 0
      → intr_timer_handler s ≡ ok one_less
  unfolding intr_timer_handler
  handler-counts g z = ground arith

  -- The clock interrupt keeps the tasks in order and does not stop the machine, as long as the
  -- guard word of the current task's stack is whole.
  pub intr_timer_handler_lem :
      IsValid s
      → (s.tasks s.current).stack_magic ≡ 0x19870916
      → (s' : Sched) × (intr_timer_handler s ≡ ok s') × IsValid s'
  intr_timer_handler_lem v g = elim (ℕ_discrete (s.tasks s.current).ticks 0) [
    | yes z ↦
        let (s', e, v', _) = schedule-Scheduled (count_tick s) (counted-IsHalfway v) in
        (s', handler-schedules g z ∙ e, v')
    | no n ↦ (one_less, handler-counts g n, one_less-IsValid v)
  ]

  pub one_less_lem :
      StacksAreWhole s
      → StacksAreWhole one_less
        × ((one_less.tasks s.current).ticks ≡ (s.tasks s.current).ticks - 1)
        × (one_less.current ≡ s.current)
        × (one_less.thread_ready_list ≡ s.thread_ready_list)
  one_less_lem g = ((λ a. ground (arith, g a, g s.current)), ground arith, refl, refl)

  pub counted_lem :
      StacksAreWhole s
      → StacksAreWhole (count_tick s)
        × (((count_tick s).tasks s.current).status ≡ (s.tasks s.current).status)
  counted_lem g = ((λ a. ground (arith, g a, g s.current)), ground arith)
