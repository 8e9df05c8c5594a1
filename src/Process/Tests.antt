-- ===== src/Process/Tests.antt =====
-- Init waits, its child runs, and the idle task is blocked.
use mcy_os.Prelude.{
  false, ℕ, zero, suc, ◌-◌, ◌<◌, ◌≡◌, refl, sym, subst, inr, true, [], ◌∷◌, arith, ◌==◌,
  if◌then◌else◌, get_or, replicate, get_or-replicate, ok,
}
use mcy_os.LinkedList.{Ptr}
use mcy_os.Bitmap
use mcy_os.Bitmap.{scan_test}
use mcy_os.Thread.{Task, TaskStatus, running, waiting, blocked, died}
use mcy_os.Pid.{PidPool}
use mcy_os.Pid.Numbers.{in_use, IsPidPool}
use mcy_os.Process.{signed_byte, Process, Processes, reaped, no_parent, sys_exit, sys_wait}
use mcy_os.Process.Waiting.{IsProcesses, IsChild, hangs, WaitEnd, sys_wait_lem}
use mcy_os.Thread.{Sched}
use mcy_os.Thread.Fairness.{clock}
use mcy_os.Process.Starting.{Threads, IsNew, thread_start, thread_start-runs}
use mcy_os.Process.Ending.{sys_wait-sys_exit}

abbrev task : TaskStatus → Task
task st = record {
  status = st;
  priority = 2;
  ticks = 1;
  elapsed_ticks = 0;
  stack_magic = 0x19870916;
  pgdir = 0;
}

abbrev process : ℕ → ℕ → Process
process pid parent = record { pid = pid; parent_pid = parent; exit_status = 0 }

abbrev zero_byte : ℕ
zero_byte = 0

abbrev pool : PidPool
pool = record {
  pid_bitmap = record { btmp_bytes_len = 128; bits = 7 ∷ replicate 127 zero_byte };
  pid_start = 1;
}

-- The child is task 1 with number 2, init is task 2 with number 1.
abbrev family : Processes
family = record {
  sched = record {
    current = 1;
    tasks = λ a.
        if a == 1
        then task running
        else if a == 2
        then task waiting
        else if a == 3
        then task blocked
        else task died;
    thread_ready_list = [];
    idle_thread = 3;
    intr_on = true;
    esp0 = 0;
    ticks = 0;
  };
  procs = λ a.
      if a == 1 then process 2 1 else if a == 2 then process 1 no_parent else process 3 no_parent;
  thread_all_list = 2 ∷ 1 ∷ 3 ∷ [];
  pid_pool = pool;
}

bytes_small : (i : ℕ) → get_or pool.pid_bitmap.bits i 0 < 256
bytes_small zero = omega arith
bytes_small (suc i) = subst (λ x. x < 256) (sym (get_or-replicate 127 i zero_byte)) (omega arith)

pool-IsPidPool : IsPidPool pool
pool-IsPidPool = record {
  valid = record { sized = refl; small = omega arith; bytes = bytes_small };
  sized = refl;
  start = refl;
}

used_bits : (i : ℕ) → i < 3 → scan_test pool.pid_bitmap i ≡ true
unfolding Bitmap.scan_test
used_bits zero h = refl
used_bits (suc zero) h = refl
used_bits (suc (suc zero)) h = refl
used_bits (suc (suc (suc i))) h = absurd (omega arith)

family-IsProcesses : IsProcesses family
family-IsProcesses = record {
  tasks = record {
    queue = record { exact = λ t. ground arith; distinct = tt };
    idle = inr refl;
    alone = λ t. ground arith;
  };
  nodes = refl;
  distinct = (refl, (refl, (refl, tt)));
  pool = pool-IsPidPool;
  low = λ t h. ground (arith, h);
  high = λ t h. ground (arith, h);
  used = λ t h. used_bits ((family.procs t).pid - 1) (ground (arith, h));
  own = λ t u h h' e. ground (arith, h, h', e);
}

sys_wait_lem_example : WaitEnd family
sys_wait_lem_example = sys_wait_lem family family-IsProcesses (λ e. absurd (omega (arith, e)))

sys_wait-sys_exit_example :
    (s1 : Processes) × (t : Ptr) × (s2 : Processes) × (sys_exit 5 family ≡ ok s1)
    × (s1.sched.current ≡ 2)
    × IsChild s1 t
    × (hangs s1 t ≡ true)
    × (sys_wait s1 ≡ ok (reaped (s1.procs t).pid (signed_byte (s1.procs t).exit_status) s2))
sys_wait-sys_exit_example =
    sys_wait-sys_exit 5 family 2 family-IsProcesses refl refl refl refl
      (λ e. absurd (omega (arith, e)))

abbrev threads : Threads
threads = record {
  processes = family;
  infos = λ a. record { name = []; fd_table = []; self_kstack = 0; cwd_inode_nr = 0 };
  stacks = λ a. record { function = 0; func_arg = 0 };
}

threads-IsNew : IsNew 99 8192 threads
threads-IsNew = record {
  not_main = λ e. absurd (omega (arith, e));
  not_current = λ e. absurd (omega (arith, e));
  not_ready = refl;
  not_listed = refl;
}

fourth_free : in_use pool 4 ≡ false
unfolding Bitmap.scan_test
fourth_free = refl

thread_start-runs_example :
    (s' : Threads) × (n : ℕ) × (later : Sched) × (thread_start 99 8192 [] 10 5 0 threads ≡ ok s')
    × (clock n s'.processes.sched ≡ ok later)
    × (later.current ≡ 8192)
thread_start-runs_example =
    thread_start-runs 99 8192 [] 10 5 0 threads threads-IsNew (omega arith) family-IsProcesses.tasks
      (λ t. ground arith) pool-IsPidPool (4, omega arith, omega arith, fourth_free)
