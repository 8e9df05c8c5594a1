-- ===== src/Process/Starting.antt =====
-- thread/thread.c: init_thread, thread_create and thread_start.
-- The page for the task's structure is an argument: get_kernel_pages gives it out. Of
-- `struct thread_stack` the function and its argument are kept.
use mcy_os.Prelude.{
  ltb, lt→ltb, length, ◌<◌, ℕ, ◌%◌, ◌^◌, ◌≡◌, refl, ◌≢◌, inl, inr, false, not, List, [], ◌∷◌, ◌++◌,
  arith, ℕ_discrete, ◌==◌, if◌then◌else◌, ==_refl, ==_ne, minus_one, add32, sub32, replicate,
  Result, ok, ◌>>=◌, ◌>>◌, assert,
}
use mcy_os.LinkedList.{Ptr, null}
use mcy_os.LinkedList.Walk.{mem}
use mcy_os.Thread.{Sched, Task, TaskStatus, running, ready, set_task}
use mcy_os.Thread.Queue.{mem-snoc, Distinct-snoc}
use mcy_os.Thread.Invariant.{IsValid, StacksAreWhole}
use mcy_os.Thread.Fairness.{clock, clock-reaches}
use mcy_os.Pid.{PidPool, allocate_pid}
use mcy_os.Pid.Numbers.{IsPidPool, HasNumber, in_use, allocate_pid_lem}
use mcy_os.Process.{Process, Processes, set_process, no_parent}

-- The fields that only a new task's set-up writes.
pub record ThreadInfo : Type 0 where
  pub name : List ℕ
  pub fd_table : List ℕ
  pub self_kstack : Ptr
  pub cwd_inode_nr : ℕ

pub record ThreadStack : Type 0 where
  pub function : Ptr
  pub func_arg : Ptr

pub record Threads : Type 0 where
  pub processes : Processes
  pub infos : Ptr → ThreadInfo
  pub stacks : Ptr → ThreadStack

abbrev set_info : Threads → Ptr → ThreadInfo → Threads
set_info s t i = record s { infos = λ a. if a == t then i else s.infos a }

abbrev new_task : TaskStatus → ℕ → Task
new_task st prio = record {
  status = st;
  priority = prio % 2 ^ 8;
  ticks = prio % 2 ^ 8;
  elapsed_ticks = 0;
  stack_magic = 0x19870916;
  pgdir = null;
}

-- What `init_thread` writes. `MAX_FILES_OPEN_PER_PROC` is 8, and a priority has 8 bits.
abbrev inited : TaskStatus → Ptr → List ℕ → ℕ → PidPool → ℕ → Threads → Threads
inited st pthread name prio pool pid s =
    let process : Process = record { pid = pid; parent_pid = no_parent; exit_status = 0 } in
    let info : ThreadInfo = record {
      name = name;
      fd_table = 0 ∷ 1 ∷ 2 ∷ replicate 5 minus_one;
      self_kstack = add32 pthread 4096;
      cwd_inode_nr = 0;
    } in
    let ps = set_process s.processes pthread process in
    set_info
      (record s {
        processes = record ps {
          sched = set_task ps.sched pthread (new_task st prio);
          pid_pool = pool;
        };
      })
      pthread info

-- The array for the name has 16 characters: for a longer one the source writes past it with
-- `strcpy`, and the model stops.
unfoldable pub init_thread : Ptr → Ptr → List ℕ → ℕ → Threads → Result Threads
init_thread main_thread pthread name prio s =
    let status = if pthread == main_thread then running else ready in
    assert (ltb (length name) 16) >> allocate_pid s.processes.pid_pool >>= λ r.
    ok (inited status pthread name prio (r.0) (r.1) s)

-- `struct intr_stack` is 76 bytes and `struct thread_stack` 32.
unfoldable pub thread_create : Ptr → Ptr → Ptr → Threads → Threads
thread_create pthread function func_arg s =
    let top = sub32 (sub32 (s.infos pthread).self_kstack 76) 32 in
    let lowered = set_info s pthread (record (s.infos pthread) { self_kstack = top }) in
    let stack : ThreadStack = record { function = function; func_arg = func_arg } in
    record lowered { stacks = λ a. if a == top then stack else s.stacks a }

-- The task is put into both lists.
unfoldable pub enlist : Ptr → Threads → Result Threads
enlist thread s = do
  let ps = s.processes
  assert (not (mem thread ps.sched.thread_ready_list))
  let queued = record ps.sched { thread_ready_list = ps.sched.thread_ready_list ++ thread ∷ [] }
  assert (not (mem thread ps.thread_all_list))
  ok (record s {
    processes = record ps { sched = queued; thread_all_list = ps.thread_all_list ++ thread ∷ [] };
  })

unfoldable pub thread_start : Ptr → Ptr → List ℕ → ℕ → Ptr → Ptr → Threads → Result Threads
thread_start main_thread thread name prio function func_arg s =
    init_thread main_thread thread name prio s >>= λ s1.
    enlist thread (thread_create thread function func_arg s1)

-- A page that is in no list of tasks and is not the structure of the running or the main task.
pub record IsNew (main_thread thread : Ptr) (s : Threads) : Type 0 where
  pub not_main : thread ≢ main_thread
  pub not_current : thread ≢ s.processes.sched.current
  pub not_ready : mem thread s.processes.sched.thread_ready_list ≡ false
  pub not_listed : mem thread s.processes.thread_all_list ≡ false

-- The scheduler with the new task.
abbrev started : Sched → Ptr → ℕ → Sched
started s thread prio = record (set_task s thread (new_task ready prio)) {
  thread_ready_list = s.thread_ready_list ++ thread ∷ [];
}

-- The state that `thread_start` leaves, with the pool and the number that the task got.
abbrev after_start : Ptr → List ℕ → ℕ → Ptr → Ptr → PidPool → ℕ → Threads → Threads
after_start thread name prio function func_arg pool pid s =
    let s1 = thread_create thread function func_arg (inited ready thread name prio pool pid s) in
    let ps = s1.processes in
    record s1 {
      processes = record ps {
        sched = started s.processes.sched thread prio;
        thread_all_list = ps.thread_all_list ++ thread ∷ [];
      };
    }

started-IsValid :
    (s : Sched)
    → IsValid s
    → (thread : Ptr) (prio : ℕ) → thread ≢ s.current
    → mem thread s.thread_ready_list ≡ false
    → IsValid (started s thread prio)
started-IsValid s v thread prio ne out = record {
  queue = record {
    exact = λ t. ground (arith, mem-snoc t thread s.thread_ready_list, v.queue.exact t);
    distinct = Distinct-snoc thread s.thread_ready_list v.queue.distinct out;
  };
  idle = elim (ℕ_discrete s.idle_thread thread) [
    | yes same ↦ inl (inr (rw (same, ==_refl thread) refl))
    | no apart ↦ rw (==_ne _ _ apart) (v.idle)
  ];
  alone = λ t. ground (arith, v.alone t, ne);
}

-- `thread_start` with a page that is no task's yet and a name of at most 15 characters, in a sound scheduler and with a sound pool of
-- numbers in which one is not in use, does not stop the machine. The tasks are in order after it:
-- the new one stands at the end of the ready list and of the list of all tasks, it has no parent,
-- and its number was not in use before.
pub thread_start_lem :
    (main_thread thread : Ptr) (name : List ℕ) (prio : ℕ) (function func_arg : Ptr) (s : Threads)
    → IsNew main_thread thread s
    → length name < 16
    → IsValid s.processes.sched
    → IsPidPool s.processes.pid_pool
    → HasNumber s.processes.pid_pool
    → (s' : Threads) × (thread_start main_thread thread name prio function func_arg s ≡ ok s')
      × IsValid s'.processes.sched
      × (s'.processes.sched.thread_ready_list ≡ s.processes.sched.thread_ready_list ++ thread ∷ [])
      × (s'.processes.sched.current ≡ s.processes.sched.current)
      × (s'.processes.thread_all_list ≡ s.processes.thread_all_list ++ thread ∷ [])
      × ((s'.processes.procs thread).parent_pid ≡ no_parent)
      × (in_use s.processes.pid_pool (s'.processes.procs thread).pid ≡ false)
unfolding thread_start init_thread thread_create enlist
thread_start_lem main_thread thread name prio function func_arg s new short v pids number =
    let (pool, pid, e, _, _, unused, _, _) = allocate_pid_lem s.processes.pid_pool pids number in
    (
      after_start thread name prio function func_arg pool pid s,
      rw
          (
            lt→ltb (length name) 16 short,
            e,
            ==_ne thread main_thread new.not_main,
            new.not_ready,
            new.not_listed,
          )
          refl,
      started-IsValid s.processes.sched v thread prio new.not_current new.not_ready,
      refl,
      refl,
      refl,
      rw (==_refl thread) refl,
      rw (==_refl thread) unused,
    )

-- `thread_start` with a page that is no task's yet (in no list of tasks, and not the running or the
-- main task's) and a name of at most 15 characters, in a sound scheduler where no task is past the end of its stack, and with a sound
-- pool of process numbers in which one is not in use, does not stop the machine. The new task then
-- runs after some number of clock interrupts, when nothing else happens in between.
pub thread_start-runs :
    (main_thread thread : Ptr) (name : List ℕ) (prio : ℕ) (function func_arg : Ptr) (s : Threads)
    → IsNew main_thread thread s
    → length name < 16
    → IsValid s.processes.sched
    → StacksAreWhole s.processes.sched
    → IsPidPool s.processes.pid_pool
    → HasNumber s.processes.pid_pool
    → (s' : Threads) × (n : ℕ) × (later : Sched) × (thread_start main_thread thread name prio
          function func_arg s
        ≡ ok s')
      × (clock n s'.processes.sched ≡ ok later)
      × (later.current ≡ thread)
unfolding thread_start init_thread thread_create enlist
thread_start-runs main_thread thread name prio function func_arg s new short v whole pids number =
    let (pool, pid, e, _, _, _, _, _) = allocate_pid_lem s.processes.pid_pool pids number in
    let v' = started-IsValid s.processes.sched v thread prio new.not_current new.not_ready in
    let whole' : StacksAreWhole (started s.processes.sched thread prio) =
      λ t. ground (arith, whole t) in
    let (n, later, runs, _, here) =
      clock-reaches s.processes.sched.thread_ready_list thread []
        (started s.processes.sched thread prio) v' whole' refl in
    (
      after_start thread name prio function func_arg pool pid s,
      n,
      later,
      rw
          (
            lt→ltb (length name) 16 short,
            e,
            ==_ne thread main_thread new.not_main,
            new.not_ready,
            new.not_listed,
          )
          refl,
      runs,
      here,
    )
