-- ===== src/Thread.antt =====
-- thread/thread.c (scheduling) and device/timer.c (the clock): which task runs.
-- A task is named by the address of its `struct task_struct`. The ready list is the sequence of
-- tasks that the nodes `general_tag` stand for; LinkedList/Lists.antt shows that list.c keeps such
-- a sequence. `switch_to` makes the next task current; what a function does behind its call of
-- `schedule` (restoring the interrupt flag) runs when its task is current again.
pub mod Queue
pub mod Invariant
pub mod Dispatch
pub mod Blocking
pub mod Fairness
mod Tests
use mcy_os.Prelude.{
  ℕ, zero, suc, ◌+◌, ◌-◌, ◌%◌, ◌^◌, ◌≡◌, Bool, true, false, not, ◌||◌, List, [], ◌∷◌, ◌++◌, ◌==◌,
  if◌then◌else◌, add32, Result, ok, panic, ◌>>=◌, ◌>>◌, assert,
}
use mcy_os.LinkedList.{Ptr, null}
use mcy_os.LinkedList.Walk.{mem}

-- `enum task_status`
pub data TaskStatus : Type 0 where
  running ready blocked waiting hanging died : TaskStatus

abbrev pub is : TaskStatus → TaskStatus → Bool
is running running = true
is ready ready = true
is blocked blocked = true
is waiting waiting = true
is hanging hanging = true
is died died = true
is _ _ = false

-- The fields of `struct task_struct` that scheduling reads or writes.
pub record Task : Type 0 where
  pub status : TaskStatus
  pub priority : ℕ
  pub ticks : ℕ
  pub elapsed_ticks : ℕ
  pub stack_magic : ℕ
  pub pgdir : Ptr

pub record Sched : Type 0 where
  pub current : Ptr
  pub tasks : Ptr → Task
  pub thread_ready_list : List Ptr
  pub idle_thread : Ptr
  pub intr_on : Bool
  pub esp0 : ℕ
  pub ticks : ℕ

abbrev pub set_task : Sched → Ptr → Task → Sched
set_task s t v = record s { tasks = λ a. if a == t then v else s.tasks a }

abbrev pub set_status : Sched → Ptr → TaskStatus → Sched
set_status s t st = set_task s t (record (s.tasks t) { status = st })

abbrev pub may_sleep : TaskStatus → Bool
may_sleep st = is st blocked || is st waiting || is st hanging

unfoldable pub thread_unblock : Sched → Ptr → Result Sched
thread_unblock s pthread = do
  let old_status = s.intr_on
  let off = record s { intr_on = false }
  assert (may_sleep (off.tasks pthread).status)
  assert (not (mem pthread off.thread_ready_list))
  let pushed = record off { thread_ready_list = pthread ∷ off.thread_ready_list }
  ok (record (set_status pushed pthread ready) { intr_on = old_status })

-- `process_activate`: the kernel stack of a user process goes into the task state segment.
unfoldable pub process_activate : Sched → Ptr → Sched
process_activate s p_thread = record s {
  esp0 = if (s.tasks p_thread).pgdir == null then s.esp0 else add32 p_thread 4096;
}

-- The end of `schedule`: the first ready task becomes current. (`schedule` never gets here with
-- an empty list, of which `list_pop` would return an end node.)
unfoldable pub dispatch_first : Sched → List Ptr → Result Sched
dispatch_first s [] = panic
dispatch_first s (next ∷ others) =
    let popped = record s { thread_ready_list = others } in
    ok (record (process_activate (set_status popped next running) next) { current = next })

unfoldable pub dispatch : Sched → Result Sched
dispatch s = dispatch_first s s.thread_ready_list

-- Its middle: with no task ready, the idle task is made ready.
unfoldable pub ensure_from : Sched → List Ptr → Result Sched
ensure_from s [] = thread_unblock s s.idle_thread
ensure_from s (_ ∷ _) = ok s

unfoldable pub ensure_ready : Sched → Result Sched
ensure_ready s = ensure_from s s.thread_ready_list

-- Its start: a task that was only interrupted goes to the end of the ready list.
unfoldable pub requeue : Sched → Result Sched
requeue s =
    let cur = s.current in
    let queued = record s { thread_ready_list = s.thread_ready_list ++ cur ∷ [] } in
    let full : Task = record (s.tasks cur) { ticks = (s.tasks cur).priority; status = ready } in
    if is (s.tasks cur).status running
    then assert (not (mem cur s.thread_ready_list)) >> ok (set_task queued cur full)
    else ok s

unfoldable pub schedule : Sched → Result Sched
schedule s = do assert (not s.intr_on); s1 ← requeue s; s2 ← ensure_ready s1; dispatch s2

unfoldable pub thread_block : Sched → TaskStatus → Result Sched
thread_block s stat = do
  assert (may_sleep stat)
  schedule (set_status (record s { intr_on = false }) s.current stat)

unfoldable pub thread_yield : Sched → Result Sched
thread_yield s = do
  let off = record s { intr_on = false }
  assert (not (mem off.current off.thread_ready_list))
  let queued = record off { thread_ready_list = off.thread_ready_list ++ off.current ∷ [] }
  schedule (set_status queued off.current ready)

-- `elapsed_ticks++; ticks++;` of the clock interrupt, which runs with interrupts off.
abbrev pub count_tick : Sched → Sched
count_tick s =
    let cur = s.tasks s.current in
    let counted = set_task s s.current (record cur { elapsed_ticks = add32 cur.elapsed_ticks 1 }) in
    record counted { ticks = add32 s.ticks 1; intr_on = false }

unfoldable pub intr_timer_handler : Sched → Result Sched
intr_timer_handler s = do
  assert ((s.tasks s.current).stack_magic == 0x19870916)
  let counted = count_tick s
  let cur = counted.tasks counted.current
  if cur.ticks == 0
      then schedule counted
      else ok (set_task counted counted.current (record cur { ticks = cur.ticks - 1 }))
