-- ===== src/Process.antt =====
-- userprog/wait_exit.c (sys_wait, sys_exit) and thread/thread.c (thread_exit, pid2thread): how a
-- process ends and its parent learns of it. Process/Starting.antt has how a task begins.
-- `list_traversal` is the walk over the sequence of tasks that LinkedList/Walk.antt shows it to be.
-- The pages of a process and its open files are not in this state, so release_prog_resource and the
-- calls of mfree_page are left out.
pub mod Walks
pub mod Waiting
pub mod Ending
pub mod Starting
mod Tests
use mcy_os.Prelude.{
  ℕ, zero, suc, ◌+◌, ◌-◌, ◌*◌, ◌/◌, ◌%◌, ◌^◌, ◌≤◌, ◌<◌, ◌≡◌, refl, sym, ap, ap₂, subst, ◌∙◌, ◌≢◌,
  ◌↔◌, ◌⊎◌, inl, inr, Bool, true, false, not, ◌&&◌, ◌||◌, Option, none, some, List, [], ◌∷◌, ◌++◌,
  arith, dec_lt, ℕ_discrete, all_below, all_below_sound, ltb, leb, ◌==◌, if◌then◌else◌, ltb→lt,
  lt→ltb, le→not_ltb, leb→le, ==_iff, ==_refl, ==_ne, Bool-cases, and_left, and_right, minus_one,
  add32, sub32, length, get_or, set, take, drop, replicate, length-append, length-set,
  get_or-set_self, get_or-set_ne, get_or-set, get_or_outside, length-replicate, get_or-replicate,
  Result, ok, panic, ◌>>=◌, ◌>>◌, assert,
}
use mcy_os.LinkedList.{Ptr, null}
use mcy_os.LinkedList.Walk.{mem, first_such}
use mcy_os.Thread.{
  Sched, waiting, hanging, died, is, set_status, schedule, thread_block, thread_unblock,
}
use mcy_os.Pid.{PidPool, release_pid}

-- The fields of `struct task_struct` that this code reads or writes beside its status.
pub record Process : Type 0 where
  pub pid : ℕ
  pub parent_pid : ℕ
  pub exit_status : ℕ

pub record Processes : Type 0 where
  pub sched : Sched
  pub procs : Ptr → Process
  pub thread_all_list : List Ptr
  pub pid_pool : PidPool

abbrev pub set_process : Processes → Ptr → Process → Processes
set_process s t p = record s { procs = λ a. if a == t then p else s.procs a }

-- A `pid_t` has 16 bits: -1 is the pattern of all ones.
abbrev pub no_parent : ℕ
no_parent = 2 ^ 16 - 1

-- The callbacks of `list_traversal`.
abbrev pub find_child : ℕ → Ptr → Processes → Bool × Processes
find_child ppid t s = ((s.procs t).parent_pid == ppid, s)

abbrev pub find_hanging_child : ℕ → Ptr → Processes → Bool × Processes
find_hanging_child ppid t s =
    ((s.procs t).parent_pid == ppid && is (s.sched.tasks t).status hanging, s)

abbrev pub init_adopt_a_child : ℕ → Ptr → Processes → Bool × Processes
init_adopt_a_child pid t s = (
  false,
  if (s.procs t).parent_pid == pid
      then set_process s t (record (s.procs t) { parent_pid = 1 })
      else s,
)

abbrev pub pid_check : ℕ → Ptr → Processes → Bool × Processes
pid_check pid t s = ((s.procs t).pid == pid, s)

unfoldable pub pid2thread : ℕ → Processes → Ptr
pid2thread pid s = (first_such (pid_check pid) s.thread_all_list s).0

-- `list_remove` of a task's node from a list that it is in.
abbrev pub without : Ptr → List Ptr → List Ptr
without t [] = []
without t (x ∷ xs) = if x == t then xs else x ∷ without t xs

abbrev pub leave_ready : Ptr → Sched → Sched
leave_ready t s = record s {
  thread_ready_list =
      if mem t s.thread_ready_list then without t s.thread_ready_list else s.thread_ready_list;
}

unfoldable pub thread_exit : Ptr → Bool → Processes → Result Processes
thread_exit thread_over need_schedule s =
    let stopped = set_status (record s.sched { intr_on = false }) thread_over died in
    release_pid (s.procs thread_over).pid s.pid_pool >>= λ pool.
    let s' = record s {
      sched = leave_ready thread_over stopped;
      thread_all_list = without thread_over s.thread_all_list;
      pid_pool = pool;
    } in
    if need_schedule then schedule s'.sched >> panic else ok s'

-- How a round of the loop of `sys_wait` ends: it returns a child and its status, it returns -1, or
-- the caller sleeps and goes on with another round when it runs again.
pub data WaitRound : Type 0 where
  reaped : (child_pid status : ℕ) → Processes → WaitRound
  childless : WaitRound
  asleep : Processes → WaitRound

-- A byte with its sign as a word: `*status = child_thread->exit_status`
abbrev pub signed_byte : ℕ → ℕ
signed_byte b = if ltb b 128 then b else b + (2 ^ 32 - 2 ^ 8)

unfoldable pub reap : Ptr → Processes → Result WaitRound
reap child_thread s =
    let child = s.procs child_thread in
    thread_exit child_thread false s >>= λ s'.
    ok (reaped child.pid (signed_byte child.exit_status) s')

unfoldable pub wait_for_child : Ptr → Processes → Result WaitRound
wait_for_child child_elem s =
    if child_elem == null
    then ok childless
    else (thread_block s.sched waiting >>= λ sched. ok (asleep (record s { sched = sched })))

unfoldable pub sys_wait : Processes → Result WaitRound
sys_wait s =
    let pid = (s.procs s.sched.current).pid in
    let hanging_child = (first_such (find_hanging_child pid) s.thread_all_list s).0 in
    let child = (first_such (find_child pid) s.thread_all_list s).0 in
    if not (hanging_child == null) then reap hanging_child s else wait_for_child child s

-- The parent is woken if it waits.
unfoldable pub wake_parent : Processes → Result Processes
wake_parent s =
    let parent_thread = pid2thread (s.procs s.sched.current).parent_pid s in
    if is (s.sched.tasks parent_thread).status waiting
    then (thread_unblock s.sched parent_thread >>= λ sched. ok (record s { sched = sched }))
    else ok s

-- `exit_status` is an `int8_t`.
unfoldable pub sys_exit : ℕ → Processes → Result Processes
sys_exit status s =
    let cur = s.sched.current in
    let child = record (s.procs cur) { exit_status = status % 2 ^ 8 } in
    let marked = set_process s cur child in
    let adopted = (first_such (init_adopt_a_child child.pid) s.thread_all_list marked).1 in
    assert (not (child.parent_pid == no_parent))
    >> (wake_parent adopted >>= λ s'.
        thread_block s'.sched hanging >>= λ sched. ok (record s' { sched = sched }))
