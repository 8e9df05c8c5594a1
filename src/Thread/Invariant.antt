-- ===== src/Thread/Invariant.antt =====
-- What holds of the tasks between two steps of the kernel.
use mcy_os.Prelude.{◌≡◌, ◌≢◌, ◌⊎◌, false, ◌==◌}
use mcy_os.LinkedList.{Ptr}
use mcy_os.LinkedList.Walk.{mem}
use mcy_os.Thread.{Sched, running, ready, blocked, is}
use mcy_os.Thread.Queue.{Distinct}

-- The ready list holds exactly the ready tasks, each once.
pub record ReadyIsQueue (s : Sched) : Type 0 where
  pub exact : (t : Ptr) → mem t s.thread_ready_list ≡ is (s.tasks t).status ready
  pub distinct : Distinct s.thread_ready_list

-- The idle task is running, ready or blocked.
abbrev pub IdleIsAlive : Sched → Type 0
IdleIsAlive s =
    (((s.tasks s.idle_thread).status ≡ running) ⊎ ((s.tasks s.idle_thread).status ≡ ready))
    ⊎ ((s.tasks s.idle_thread).status ≡ blocked)

-- Only the current task runs, and it does run.
pub record IsValid (s : Sched) : Type 0 where
  pub queue : ReadyIsQueue s
  pub idle : IdleIsAlive s
  pub alone : (t : Ptr) → is (s.tasks t).status running ≡ (t == s.current)

-- The same while `schedule` is under way: the current task may have stopped running.
pub record IsHalfway (s : Sched) : Type 0 where
  pub queue : ReadyIsQueue s
  pub idle : IdleIsAlive s
  pub none_else : (t : Ptr) → t ≢ s.current → (s.tasks t).status ≢ running
  pub off : s.intr_on ≡ false

-- ... and none runs.
pub record IsStopped (s : Sched) : Type 0 where
  pub queue : ReadyIsQueue s
  pub idle : IdleIsAlive s
  pub nobody : (t : Ptr) → (s.tasks t).status ≢ running
  pub off : s.intr_on ≡ false

-- No task has run over the end of its stack.
abbrev pub StacksAreWhole : Sched → Type 0
StacksAreWhole s = (t : Ptr) → (s.tasks t).stack_magic ≡ 0x19870916
