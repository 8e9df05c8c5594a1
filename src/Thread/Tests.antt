-- ===== src/Thread/Tests.antt =====
-- Three tasks: one runs, one is ready, and the idle task is blocked.
use mcy_os.Prelude.{ℕ, ◌≡◌, refl, ◌≢◌, inr, true, [], ◌∷◌, arith, ◌==◌, if◌then◌else◌, ok, ◌>>=◌}
use mcy_os.Thread.{
  Sched, Task, TaskStatus, running, ready, blocked, waiting, hanging, died, schedule, thread_block,
  thread_unblock, intr_timer_handler, dispatch, dispatch_first, ensure_ready, ensure_from, requeue,
  process_activate,
}
use mcy_os.Thread.Invariant.{IsValid, StacksAreWhole}
use mcy_os.Thread.Blocking.{thread_block_lem, intr_timer_handler_lem}
use mcy_os.Thread.Fairness.{clock, clock-reaches}

abbrev task : TaskStatus → Task
task st = record {
  status = st;
  priority = 2;
  ticks = 1;
  elapsed_ticks = 0;
  stack_magic = 0x19870916;
  pgdir = 0;
}

abbrev three_tasks : Sched
three_tasks = record {
  current = 1;
  tasks = λ a.
      if a == 1
      then task running
      else if a == 2
      then task ready
      else if a == 3
      then task blocked
      else task died;
  thread_ready_list = 2 ∷ [];
  idle_thread = 3;
  intr_on = true;
  esp0 = 0;
  ticks = 0;
}

three_tasks-IsValid : IsValid three_tasks
three_tasks-IsValid = record {
  queue = record { exact = λ t. ground arith; distinct = (refl, tt) };
  idle = inr refl;
  alone = λ t. ground arith;
}

three_tasks_whole : StacksAreWhole three_tasks
three_tasks_whole t = ground arith

-- The second interrupt ends the slice of task 1, and task 2 runs.
two_interrupts :
    (clock 2 three_tasks >>= λ s. ok (s.current ∷ s.thread_ready_list)) ≡ ok (2 ∷ 1 ∷ [])
unfolding clock intr_timer_handler schedule requeue ensure_ready ensure_from dispatch dispatch_first
    process_activate
two_interrupts = refl

-- With both tasks asleep the idle task runs.
idle_runs :
    (thread_block three_tasks waiting >>= λ s. thread_block s hanging >>= λ s. ok s.current) ≡ ok 3
unfolding thread_block thread_unblock schedule requeue ensure_ready ensure_from dispatch
    dispatch_first process_activate
idle_runs = refl

thread_block_lem_example :
    (s' : Sched) × (thread_block three_tasks waiting ≡ ok s')
    × IsValid s'
    × (three_tasks.current ≢ 3 → (s'.tasks 1).status ≡ waiting)
thread_block_lem_example =
    thread_block_lem three_tasks waiting three_tasks-IsValid refl (λ e. absurd (omega arith))

intr_timer_handler_lem_example :
    (s' : Sched) × (intr_timer_handler three_tasks ≡ ok s') × IsValid s'
intr_timer_handler_lem_example = intr_timer_handler_lem three_tasks three_tasks-IsValid refl

clock-reaches_example :
    (n : ℕ) × (s' : Sched) × (clock n three_tasks ≡ ok s') × IsValid s' × (s'.current ≡ 2)
clock-reaches_example = clock-reaches [] 2 [] three_tasks three_tasks-IsValid three_tasks_whole refl
