-- ===== src/Process/Ending.antt =====
-- How `sys_exit` ends, and the parent's `sys_wait` after it.
use mcy_os.Prelude.{
  ℕ, ◌%◌, ◌^◌, ◌≡◌, refl, sym, ap, ap₂, subst, ◌∙◌, ◌≢◌, inl, inr, true, false, not, List, ◌∷◌,
  arith, ℕ_discrete, ◌==◌, if◌then◌else◌, ==_refl, ==_ne, Bool-cases, ok, panic, ◌>>=◌,
}
use mcy_os.LinkedList.{Ptr, null}
use mcy_os.LinkedList.Walk.{mem, first_such}
use mcy_os.Thread.{Sched, waiting, hanging, is, set_status, requeue, thread_block}
use mcy_os.Thread.Invariant.{IsValid}
use mcy_os.Thread.Dispatch.{
  dispatch-ok, dispatched_first, woken, thread_unblock-ok, dispatched, ensure_ready_some,
}
use mcy_os.Thread.Queue.{Distinct}
use mcy_os.Thread.{may_sleep}
use mcy_os.Pid.Numbers.{IsPidPool, in_use}
use mcy_os.Thread.Blocking.{thread_block-Scheduled, woken-IsValid, schedule_steps}
use mcy_os.Process.{
  signed_byte, Process, Processes, reaped, init_adopt_a_child, set_process, no_parent, pid2thread,
  wake_parent, sys_exit, sys_wait,
}
use mcy_os.Process.Walks.{adopted, adopt_lem, search_lem}
use mcy_os.Process.Waiting.{IsProcesses, IsChild, hangs, child_gone, no_child, sleeps, sys_wait_lem}

-- `pid2thread` finds the task in the list that has the number.
pid2thread_lem :
    (s : Processes) (t : Ptr)
    → IsProcesses s
    → mem t s.thread_all_list ≡ true
    → pid2thread (s.procs t).pid s ≡ t
unfolding pid2thread
pid2thread_lem s t v there =
    let test = λ (a : Ptr) (s' : Processes). (s'.procs a).pid == (s.procs t).pid in
    elim (search_lem test s.thread_all_list s v.nodes) [
      | inl (none_found, others) ↦ absurd (ground (arith, others t there))
      | inr (found, listed, passes) ↦
          v.own (pid2thread (s.procs t).pid s) t listed there (ground (arith, passes))
    ]

ok_injective : {A : Type 0} (a b : A) → ok a ≡ ok b → a ≡ b
ok_injective a b e = ap (λ r. elim r [ panic ↦ a | ok value ↦ value ]) e

-- A task that hangs leaves the processor to the first ready one.
thread_block-next :
    (s s' : Sched) (t : Ptr) (ts : List Ptr)
    → thread_block s hanging ≡ ok s'
    → s.thread_ready_list ≡ t ∷ ts
    → s'.current ≡ t
unfolding thread_block requeue
thread_block-next s s' t ts blocked e =
    let stopped = set_status (record s { intr_on = false }) s.current hanging in
    let quiet : requeue stopped ≡ ok stopped = rw (==_refl s.current) in
    let next : ok s' ≡ ok (dispatched stopped t ts e) =
      sym blocked
      ∙ schedule_steps stopped stopped stopped refl quiet (ensure_ready_some stopped t ts e)
      ∙ dispatch-ok stopped t ts e in
    ap (λ s. s.current) (ok_injective s' (dispatched stopped t ts e) next)
    ∙ (dispatched_first stopped t ts e).0

-- The numbers of the tasks are all that matters of their records.
IsProcesses-same :
    (s s' : Processes)
    → IsProcesses s
    → IsValid s'.sched
    → s'.thread_all_list ≡ s.thread_all_list
    → s'.pid_pool ≡ s.pid_pool
    → ((t : Ptr) → (s'.procs t).pid ≡ (s.procs t).pid)
    → IsProcesses s'
IsProcesses-same s s' v tasks list pool pids =
    let listed : (t : Ptr) → mem t s'.thread_all_list ≡ true → mem t s.thread_all_list ≡ true =
      λ t h. ap (mem t) (sym list) ∙ h in
    record {
      tasks = tasks;
      nodes = ap (mem null) list ∙ v.nodes;
      distinct = subst Distinct (sym list) v.distinct;
      pool = subst IsPidPool (sym pool) v.pool;
      low = λ t h. omega (arith, pids t, v.low t (listed t h));
      high = λ t h. omega (arith, pids t, v.high t (listed t h));
      used = λ t h. ap₂ in_use pool (pids t) ∙ v.used t (listed t h);
      own = λ t u h h' e. v.own t u (listed t h) (listed u h') (sym (pids t) ∙ e ∙ pids u);
    }

-- The parent is woken if it waits, and then it is the first ready task.
abbrev pub Woken : Processes → Ptr → Processes → Type 0
Woken s p s' =
    IsValid s'.sched
    × (s'.procs ≡ s.procs)
    × (s'.thread_all_list ≡ s.thread_all_list)
    × (s'.pid_pool ≡ s.pid_pool)
    × (s'.sched.current ≡ s.sched.current)
    × (s'.sched.idle_thread ≡ s.sched.idle_thread)
    × (is (s.sched.tasks p).status waiting ≡ true
        → s'.sched.thread_ready_list ≡ p ∷ s.sched.thread_ready_list)

wake_parent_lem :
    (s : Processes) (p : Ptr)
    → IsProcesses s
    → mem p s.thread_all_list ≡ true
    → (s.procs s.sched.current).parent_pid ≡ (s.procs p).pid
    → (s' : Processes) × (wake_parent s ≡ ok s') × Woken s p s'
unfolding wake_parent
wake_parent_lem s p v there e =
    let found : pid2thread (s.procs s.sched.current).parent_pid s ≡ p =
      ap (λ n. pid2thread n s) e ∙ pid2thread_lem s p v there in
    elim (Bool-cases (is (s.sched.tasks p).status waiting)) [
      | inl waits ↦
          let sleeps : may_sleep (s.sched.tasks p).status ≡ true = ground (arith, waits) in
          (
            record s { sched = woken s.sched p },
            rw (found, waits)
                (ap (λ m. m >>= λ sched. ok (record s { sched = sched }))
                  (thread_unblock-ok s.sched p v.tasks.queue sleeps)),
            (woken-IsValid s.sched p v.tasks sleeps, refl, refl, refl, refl, refl, λ h. refl),
          )
      | inr busy ↦
          (s, rw (found, busy), (v.tasks, refl, refl, refl, refl, refl, λ h. absurd (ground arith)))
    ]

-- What adoption leaves of a record.
module _ (pid : ℕ) (xs : List Ptr) (procs : Ptr → Process) (t : Ptr) where
  adopted_fields :
      ((adopted pid xs procs t).pid ≡ (procs t).pid)
      × ((adopted pid xs procs t).exit_status ≡ (procs t).exit_status)
      × (mem t xs ≡ true
          → (adopted pid xs procs t).parent_pid
            ≡ (if (procs t).parent_pid == pid then 1 else (procs t).parent_pid))
  adopted_fields = elim (Bool-cases (mem t xs)) [
    | inl there ↦ elim (Bool-cases ((procs t).parent_pid == pid)) [
      | inl e ↦ rw (there, e) (refl, refl, λ h. refl)
      | inr e ↦ rw (there, e) (refl, refl, λ h. refl)
    ]
    | inr absent ↦ rw absent (refl, refl, λ h. absurd (ground arith))
  ]

-- After `sys_exit` of the current task, whose parent is the second one.
pub record Exited (status : ℕ) (s : Processes) (p : Ptr) (s' : Processes) : Type 0 where
  pub order : IsProcesses s'
  pub stopped : (s'.sched.tasks s.sched.current).status ≡ hanging
  pub left_status : (s'.procs s.sched.current).exit_status ≡ status % 2 ^ 8
  pub handed_over :
      (t : Ptr)
      → mem t s.thread_all_list ≡ true
      → (s'.procs t).parent_pid ≡ (
          if (s.procs t).parent_pid == (s.procs s.sched.current).pid
          then 1
          else (s.procs t).parent_pid)
  pub numbers : (t : Ptr) → (s'.procs t).pid ≡ (s.procs t).pid
  pub listed : s'.thread_all_list ≡ s.thread_all_list
  pub idle : s'.sched.idle_thread ≡ s.sched.idle_thread
  pub parent_next : is (s.sched.tasks p).status waiting ≡ true → s'.sched.current ≡ p

module _ (status : ℕ) (s : Processes) (p : Ptr) where
  abbrev me : ℕ
  me = (s.procs s.sched.current).pid

  -- The state before the parent is woken.
  abbrev child : Process
  child = record (s.procs s.sched.current) { exit_status = status % 2 ^ 8 }

  abbrev marked : Processes
  marked = set_process s s.sched.current child

  abbrev handed : Processes
  handed = (first_such (init_adopt_a_child me) s.thread_all_list marked).1

  marked_fields :
      (t : Ptr)
      → ((marked.procs t).pid ≡ (s.procs t).pid)
        × ((marked.procs t).parent_pid ≡ (s.procs t).parent_pid)
  marked_fields t = elim (ℕ_discrete t s.sched.current) [
    | yes e ↦ rw (e, ==_refl s.sched.current) (refl, refl)
    | no ne ↦ rw (==_ne t s.sched.current ne) (refl, refl)
  ]

  handed_fields :
      (t : Ptr)
      → ((handed.procs t).pid ≡ (s.procs t).pid)
        × (mem t s.thread_all_list ≡ true
            → (handed.procs t).parent_pid
              ≡ (if (s.procs t).parent_pid == me then 1 else (s.procs t).parent_pid))
  handed_fields t =
      let (_, _, _, same) = adopt_lem me s.thread_all_list marked in
      let (pid, _, parent) = adopted_fields me s.thread_all_list marked.procs t in
      let (pid', parent') = marked_fields t in
      (
        ap (λ q. q.pid) (same t) ∙ pid ∙ pid',
        λ h.
            ap (λ q. q.parent_pid) (same t) ∙ parent h ∙ ap (λ n. if n == me then 1 else n) parent',
      )

  handed_status : (handed.procs s.sched.current).exit_status ≡ status % 2 ^ 8
  handed_status =
      let (_, _, _, same) = adopt_lem me s.thread_all_list marked in
      let (_, kept, _) = adopted_fields me s.thread_all_list marked.procs s.sched.current in
      ap (λ q. q.exit_status) (same s.sched.current) ∙ kept ∙ rw (==_refl s.sched.current)

  -- The current task, which is not the idle task, has a parent among the tasks other than itself.
  -- Then `sys_exit` stops it in TASK_HANGING with the low byte of the status kept, hands its
  -- children to the process with the number 1, leaves the tasks in order, and lets the parent run
  -- next if that waits.
  pub sys_exit_lem :
      IsProcesses s
      → mem s.sched.current s.thread_all_list ≡ true
      → mem p s.thread_all_list ≡ true
      → (s.procs s.sched.current).parent_pid ≡ (s.procs p).pid
      → p ≢ s.sched.current
      → s.sched.current ≢ s.sched.idle_thread
      → (s' : Processes) × (sys_exit status s ≡ ok s') × Exited status s p s'
  unfolding sys_exit
  sys_exit_lem v there p_there parent other busy =
      let cur = s.sched.current in
      let (d_sched, d_list, d_pool, _) = adopt_lem me s.thread_all_list marked in
      let not_own : (s.procs p).pid ≢ me = λ e. other (v.own p cur p_there there e) in
      let hv : IsProcesses handed =
        IsProcesses-same s handed v (subst IsValid (sym d_sched) v.tasks) d_list d_pool
          (λ t. (handed_fields t).0) in
      let of_cur : (handed.procs cur).parent_pid ≡ (s.procs p).pid =
        (handed_fields cur).1 there
        ∙ ap (λ n. if n == me then 1 else n) parent
        ∙ rw (==_ne (s.procs p).pid me not_own) in
      let of_current : (handed.procs handed.sched.current).parent_pid ≡ (handed.procs p).pid =
        ap (λ sched. (handed.procs sched.current).parent_pid) d_sched
        ∙ of_cur
        ∙ sym (handed_fields p).0 in
      let (s1, woke, (v1, procs, list, pool, current, idle, first)) =
        wake_parent_lem handed p hv (ap (mem p) d_list ∙ p_there) of_current in
      let at : s1.sched.current ≡ cur = current ∙ ap (λ x. x.current) d_sched in
      let at_idle : s1.sched.idle_thread ≡ s.sched.idle_thread =
        idle ∙ ap (λ x. x.idle_thread) d_sched in
      let (sched, blocked, v2, keeps) =
        thread_block-Scheduled s1.sched hanging v1 refl
          (λ e. absurd (busy (sym at ∙ e ∙ at_idle))) in
      let hangs_now : (sched.tasks s1.sched.current).status ≡ hanging =
        ground (arith, keeps.1 s1.sched.current) in
      let has_parent : not ((s.procs cur).parent_pid == no_parent) ≡ true =
        ground (arith, v.high p p_there, parent) in
      let number : (t : Ptr) → (s1.procs t).pid ≡ (s.procs t).pid =
        λ t. ap (λ f. (f t).pid) procs ∙ (handed_fields t).0 in
      (
        record s1 { sched = sched },
        rw has_parent (
            ap
              (λ m. m >>= λ s'.
                thread_block s'.sched hanging >>= λ sched. ok (record s' { sched = sched }))
              woke
            ∙ ap (λ m. m >>= λ sched. ok (record s1 { sched = sched })) blocked),
        record {
          order =
              IsProcesses-same s (record s1 { sched = sched }) v v2 (list ∙ d_list) (pool ∙ d_pool)
                number;
          stopped = ap (λ c. (sched.tasks c).status) (sym at) ∙ hangs_now;
          left_status = ap (λ f. (f cur).exit_status) procs ∙ handed_status;
          handed_over = λ t h. ap (λ f. (f t).parent_pid) procs ∙ (handed_fields t).1 h;
          numbers = number;
          listed = list ∙ d_list;
          idle = keeps.0 ∙ at_idle;
          parent_next = λ waits.
              thread_block-next s1.sched sched p handed.sched.thread_ready_list blocked
                (first (ap (λ x. is (x.tasks p).status waiting) d_sched ∙ waits));
        },
      )

-- A process exits whose parent, neither itself nor idle, waits for its children. The parent runs
-- next, and the next round of its `sys_wait` returns the number and the status of a child that
-- hangs.
pub sys_wait-sys_exit :
    (status : ℕ) (s : Processes) (p : Ptr)
    → IsProcesses s
    → mem s.sched.current s.thread_all_list ≡ true
    → mem p s.thread_all_list ≡ true
    → (s.procs s.sched.current).parent_pid ≡ (s.procs p).pid
    → (s.sched.tasks p).status ≡ waiting
    → s.sched.current ≢ s.sched.idle_thread
    → (s1 : Processes) × (t : Ptr) × (s2 : Processes) × (sys_exit status s ≡ ok s1)
      × (s1.sched.current ≡ p)
      × IsChild s1 t
      × (hangs s1 t ≡ true)
      × (sys_wait s1 ≡ ok (reaped (s1.procs t).pid (signed_byte (s1.procs t).exit_status) s2))
sys_wait-sys_exit status s p v there p_there parent waits busy =
    let cur = s.sched.current in
    let asleep_p : is (s.sched.tasks p).status waiting ≡ true = ground (arith, waits) in
    let other : p ≢ cur = λ e. absurd (ground (arith, v.tasks.alone p, e, waits)) in
    let (s1, e, x) = sys_exit_lem status s p v there p_there parent other busy in
    let now : s1.sched.current ≡ p = x.parent_next asleep_p in
    let p_not_idle : p ≢ s.sched.idle_thread =
      λ e. absurd (ground (arith, v.tasks.idle, e, waits)) in
    let not_own : (s.procs p).pid ≢ (s.procs cur).pid = λ e. other (v.own p cur p_there there e) in
    let hung : hangs s1 cur ≡ true = ground (arith, x.stopped) in
    let child : IsChild s1 cur = (
      ap (mem cur) x.listed ∙ there,
      x.handed_over cur there
          ∙ ap (λ n. if n == (s.procs cur).pid then 1 else n) parent
          ∙ rw (==_ne (s.procs p).pid (s.procs cur).pid not_own) (sym (x.numbers p))
          ∙ ap (λ c. (s1.procs c).pid) (sym now),
    ) in
    elim (sys_wait_lem s1 x.order (λ e. p_not_idle (sym now ∙ e ∙ x.idle))) [
      | child_gone t s2 is_child hanging_t returned gone ↦
          (s1, t, s2, e, now, is_child, hanging_t, returned)
      | no_child none_at_all _ ↦ absurd (none_at_all cur child)
      | sleeps _ _ _ awake _ _ _ ↦ absurd (ground (arith, awake cur child, hung))
    ]
