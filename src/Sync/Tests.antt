-- ===== src/Sync/Tests.antt =====
-- Two tasks compete for a lock.
use mcy_os.Prelude.{◌≡◌, refl, ◌⊎◌, Bool, true, false, List, [], ◌∷◌, arith, ok, ◌>>=◌}
use mcy_os.LinkedList.{Ptr}
use mcy_os.Sync.{testing, waiting, inside, World, step, step_at, sema_down, take_lock}
use mcy_os.Sync.Exclusion.{busy}
use mcy_os.Sync.Runs.{AreTasks, initial, run, run_lem, run_wakes}

-- Task 1 takes the lock, task 2 blocks on it.
abbrev turns : List (Ptr × Bool)
turns = (1, false) ∷ (1, false) ∷ (2, false) ∷ (1, false) ∷ (2, false) ∷ []

turns_block :
    (run turns initial >>= λ w. ok (w.lock.holder ∷ w.lock.semaphore.waiters)) ≡ ok (1 ∷ 2 ∷ [])
unfolding run step step_at sema_down take_lock
turns_block = refl

turns-AreTasks : AreTasks turns
turns-AreTasks = (
  λ h. omega arith,
  (λ h. omega arith, (λ h. omega arith, (λ h. omega arith, (λ h. omega arith, tt)))),
)

run_lem_example :
    (w : World) × (run turns initial ≡ ok w)
    × ((a : Ptr) → w.place a ≡ inside → w.lock.holder ≡ a)
    × ((a b : Ptr) → w.place a ≡ inside → w.place b ≡ inside → a ≡ b)
run_lem_example = run_lem turns turns-AreTasks (omega arith)

run_wakes_example :
    (w : World) × (run turns initial ≡ ok w)
    × ((a : Ptr)
        → w.place a ≡ waiting
        → (t : Ptr) × ((busy (w.place t) ≡ true) ⊎ (w.place t ≡ testing)))
run_wakes_example = run_wakes turns turns-AreTasks (omega arith)
