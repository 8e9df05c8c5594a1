-- ===== src/Process/Waiting.antt =====
-- How `sys_wait` ends.
use mcy_os.Prelude.{
  ◌≤◌, ◌≡◌, refl, ap, ◌∙◌, ◌≢◌, inl, inr, Bool, true, false, ◌&&◌, arith, ◌==◌, if◌then◌else◌,
  ==_refl, ==_ne, and_right, ok, ◌>>=◌,
}
use mcy_os.LinkedList.{Ptr, null}
use mcy_os.LinkedList.Walk.{mem, first_such}
use mcy_os.Thread.{Sched, waiting, hanging, died, is, set_status}
use mcy_os.Thread.Invariant.{IsValid}
use mcy_os.Thread.Queue.{Distinct}
use mcy_os.Thread.Blocking.{thread_block_lem}
use mcy_os.Pid.{PidPool}
use mcy_os.Pid.Numbers.{IsPidPool, in_use, release_pid_lem}
use mcy_os.Process.{
  signed_byte, Processes, reaped, childless, asleep, find_child, find_hanging_child, without,
  thread_exit, leave_ready, reap, wait_for_child, sys_wait,
}
use mcy_os.Process.Walks.{search_lem, mem-without, Distinct-without}

-- The tasks are in order, and each in the list has a number of its own.
pub record IsProcesses (s : Processes) : Type 0 where
  pub tasks : IsValid s.sched
  pub nodes : mem null s.thread_all_list ≡ false
  pub distinct : Distinct s.thread_all_list
  pub pool : IsPidPool s.pid_pool
  pub low : (t : Ptr) → mem t s.thread_all_list ≡ true → 1 ≤ (s.procs t).pid
  pub high : (t : Ptr) → mem t s.thread_all_list ≡ true → (s.procs t).pid ≤ 1024
  pub used : (t : Ptr) → mem t s.thread_all_list ≡ true → in_use s.pid_pool (s.procs t).pid ≡ true
  pub own :
      (t u : Ptr)
      → mem t s.thread_all_list ≡ true
      → mem u s.thread_all_list ≡ true
      → (s.procs t).pid ≡ (s.procs u).pid
      → t ≡ u

-- The task is in the list and has the current one as its parent.
abbrev pub IsChild : Processes → Ptr → Type 0
IsChild s t =
    (mem t s.thread_all_list ≡ true) × ((s.procs t).parent_pid ≡ (s.procs s.sched.current).pid)

abbrev pub hangs : Processes → Ptr → Bool
hangs s t = is (s.sched.tasks t).status hanging

-- The task is gone and its number is free.
pub record IsGone (s : Processes) (t : Ptr) (s' : Processes) : Type 0 where
  pub order : IsProcesses s'
  pub others :
      (a : Ptr) → mem a s'.thread_all_list ≡ (if t == a then false else mem a s.thread_all_list)
  pub free : in_use s'.pid_pool (s.procs t).pid ≡ false

-- The ways in which a round of `sys_wait` may end.
pub data WaitEnd (s : Processes) : Type 0 where
  child_gone :
      (t : Ptr) (s' : Processes)
      → IsChild s t
      → hangs s t ≡ true
      → sys_wait s ≡ ok (reaped (s.procs t).pid (signed_byte (s.procs t).exit_status) s')
      → IsGone s t s'
      → WaitEnd s
  no_child : ((t : Ptr) → IsChild s t → ⊥) → sys_wait s ≡ ok childless → WaitEnd s
  sleeps :
      (t : Ptr) (s' : Processes)
      → IsChild s t
      → ((t : Ptr) → IsChild s t → hangs s t ≡ false)
      → sys_wait s ≡ ok (asleep s')
      → IsValid s'.sched
      → (s'.sched.tasks s.sched.current).status ≡ waiting
      → WaitEnd s

-- A task that hangs is not in the ready list, so it leaves the list of all tasks only.
module _ (s : Processes) (t : Ptr) where
  abbrev quiet : Sched
  quiet = set_status (record s.sched { intr_on = false }) t died

  quiet-IsValid : IsValid s.sched → hangs s t ≡ true → IsValid quiet
  quiet-IsValid v h = record {
    queue = record { exact = λ a. ground (arith, v.queue.exact a, h); distinct = v.queue.distinct };
    idle = ground (arith, h);
    alone = λ a. ground (arith, v.alone a, h);
  }

  leave_ready-quiet : IsValid s.sched → hangs s t ≡ true → leave_ready t quiet ≡ quiet
  leave_ready-quiet v h =
      let absent : mem t s.sched.thread_ready_list ≡ false = ground (arith, v.queue.exact t, h) in
      let list = s.sched.thread_ready_list in
      ap (λ b. record quiet { thread_ready_list = if b then without t list else list }) absent

  abbrev gone : PidPool → Processes
  gone pool = record s {
    sched = quiet;
    thread_all_list = without t s.thread_all_list;
    pid_pool = pool;
  }

  thread_exit_lem :
      IsProcesses s
      → mem t s.thread_all_list ≡ true
      → hangs s t ≡ true
      → (s' : Processes) × (thread_exit t false s ≡ ok s') × IsGone s t s'
  unfolding thread_exit
  thread_exit_lem v there h =
      let pid = (s.procs t).pid in
      let (pool, released, pool_ok, used) =
        release_pid_lem s.pid_pool pid v.pool (v.low t there) (v.high t there) in
      let still : (a : Ptr)
          → mem a (without t s.thread_all_list)
            ≡ (if t == a then false else mem a s.thread_all_list) =
        λ a. mem-without t a s.thread_all_list v.distinct in
      let old : (a : Ptr)
          → mem a (without t s.thread_all_list) ≡ true
          → mem a s.thread_all_list ≡ true =
        λ a l. ground (arith, still a, l) in
      let apart : (a : Ptr)
          → mem a (without t s.thread_all_list) ≡ true
          → pid ≡ (s.procs a).pid
          → ⊥ =
        λ a l e. absurd (ground (arith, still a, l, v.own t a there (old a l) e)) in
      (
        gone pool,
        ap
              (λ m. m >>= λ pool. ok (record s {
                sched = leave_ready t quiet;
                thread_all_list = without t s.thread_all_list;
                pid_pool = pool;
              }))
              released
            ∙ ap (λ sched. ok (record (gone pool) { sched = sched })) (leave_ready-quiet v.tasks h),
        record {
          order = record {
            tasks = quiet-IsValid v.tasks h;
            nodes = ground (arith, still null, v.nodes);
            distinct = Distinct-without t s.thread_all_list v.distinct;
            pool = pool_ok;
            low = λ a l. v.low a (old a l);
            high = λ a l. v.high a (old a l);
            used = λ a l.
                used (s.procs a).pid (v.low a (old a l))
                ∙ rw (==_ne pid (s.procs a).pid (apart a l)) (v.used a (old a l));
            own = λ a b l l'. v.own a b (old a l) (old b l');
          };
          others = still;
          free = used pid (v.low t there) ∙ rw (==_refl pid);
        },
      )

  reap_lem :
      IsProcesses s
      → mem t s.thread_all_list ≡ true
      → hangs s t ≡ true
      → (s' : Processes) × (reap t s
          ≡ ok (reaped (s.procs t).pid (signed_byte (s.procs t).exit_status) s'))
        × IsGone s t s'
  unfolding reap
  reap_lem v there h =
      let (s', e, g) = thread_exit_lem v there h in
      (
        s',
        ap (λ m. m >>= λ s'. ok (reaped (s.procs t).pid (signed_byte (s.procs t).exit_status) s'))
            e,
        g,
      )

-- A round of `sys_wait`, of a task that is not the idle one, ends in one of these ways: some child
-- hangs, and the number and the exit status of one that hangs are returned, the child is gone and
-- the tasks are in order; there is no child, and -1 is returned; or there are children and none of
-- them hangs, and the caller sleeps in TASK_WAITING.
pub sys_wait_lem :
    (s : Processes) → IsProcesses s → s.sched.current ≢ s.sched.idle_thread → WaitEnd s
unfolding sys_wait wait_for_child
sys_wait_lem s v busy =
    let pid = (s.procs s.sched.current).pid in
    let hanging_test = λ (t : Ptr) (s : Processes).
      (s.procs t).parent_pid == pid && is (s.sched.tasks t).status hanging in
    let child_test = λ (t : Ptr) (s : Processes). (s.procs t).parent_pid == pid in
    let h = (first_such (find_hanging_child pid) s.thread_all_list s).0 in
    let c = (first_such (find_child pid) s.thread_all_list s).0 in
    elim (search_lem hanging_test s.thread_all_list s v.nodes) [
      | inr (found, there, passes) ↦
          let (s', e, g) =
            reap_lem s h v there (and_right ((s.procs h).parent_pid == pid) (hangs s h) passes) in
          child_gone h s' (there, ground (arith, passes)) (ground (arith, passes))
            (rw (==_ne h null found) e) g
      | inl (no_hanging, awake) ↦ elim (search_lem child_test s.thread_all_list s v.nodes) [
        | inl (none_found, strangers) ↦
            no_child (λ t child. absurd (ground (arith, strangers t child.0, child.1)))
              (rw (no_hanging, none_found))
        | inr (found, there, passes) ↦
            let (sched, e, v', asleep_now) =
              thread_block_lem s.sched waiting v.tasks refl (λ same. absurd (busy same)) in
            sleeps c (record s { sched = sched }) (there, ground (arith, passes))
              (λ t child. ground (arith, awake t child.0, child.1))
              (rw (no_hanging, ==_ne c null found)
                (ap (λ m. m >>= λ sched. ok (asleep (record s { sched = sched }))) e))
              v' (asleep_now busy)
      ]
    ]
