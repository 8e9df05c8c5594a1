-- ===== src/Sync/Runs.antt =====
-- Runs of any tasks in any order from a lock as `lock_init` leaves it.
use mcy_os.Prelude.{
  ℕ, suc, ◌+◌, ◌^◌, ◌<◌, ◌≡◌, refl, sym, ap, subst, ◌∙◌, ◌≢◌, ◌⊎◌, inl, inr, Bool, true, List, [],
  ◌∷◌, arith, length, Result, ok, ◌>>=◌,
}
use mcy_os.LinkedList.{Ptr, null}
use mcy_os.LinkedList.Walk.{mem}
use mcy_os.Sync.{lock_init, outside, testing, waiting, inside, World, step}
use mcy_os.Sync.Exclusion.{busy, waits, Fields, Fields-busy, free, owned, IsValid, owner_of}
use mcy_os.Sync.Schedule.{step-IsValid}

abbrev pub initial : World
initial = record { lock = lock_init; place = λ _. outside }

-- Each entry runs one task for a step and says whether a task inside takes the lock again.
unfoldable pub run : List (Ptr × Bool) → World → Result World
run [] w = ok w
run ((t, again) ∷ turns) w = step t again w >>= λ w'. run turns w'

abbrev pub AreTasks : List (Ptr × Bool) → Type 0
AreTasks [] = Unit
AreTasks (turn ∷ turns) = (turn.0 ≢ null) × AreTasks turns

initial-IsValid : IsValid 0 initial
initial-IsValid = record {
  owner = free refl refl refl (λ _. refl);
  exact = λ _. refl;
  distinct = tt;
  attended = λ _ some_wait. absurd (some_wait refl);
}

run-IsValid :
    (turns : List (Ptr × Bool)) (n : ℕ) (w : World)
    → AreTasks turns
    → n + length turns < 2 ^ 32
    → IsValid n w
    → (w' : World) × (run turns w ≡ ok w') × IsValid (n + length turns) w'
unfolding run
run-IsValid [] n w tasks few v = (w, refl, subst (λ m. IsValid m w) (omega arith) v)
run-IsValid ((t, again) ∷ turns) n w tasks few v =
    let (w1, e1, v1) = step-IsValid n t w (tasks.0) v (omega arith) again in
    let (w2, e2, v2) = run-IsValid turns (suc n) w1 (tasks.1) (omega arith) v1 in
    (w2, ap (λ m. m >>= run turns) e1 ∙ e2, subst (λ m. IsValid m w2) (omega arith) v2)

from_initial :
    (turns : List (Ptr × Bool))
    → AreTasks turns
    → length turns < 2 ^ 32
    → (w : World) × (run turns initial ≡ ok w) × IsValid (length turns) w
from_initial turns tasks few =
    let (w, e, v) = run-IsValid turns 0 initial tasks (omega arith) initial-IsValid in
    (w, e, subst (λ m. IsValid m w) (omega arith) v)

inside-holds : (n : ℕ) (w : World) (a : Ptr) → IsValid n w → w.place a ≡ inside → w.lock.holder ≡ a
inside-holds n w a v e =
    let (_, f, _) = owner_of n w a v.owner (ap busy e) in
    (subst (λ p. Fields n a p w.lock.holder w.lock.holder_repeat_nr) e f).0

-- However fewer than 2^32 steps of tasks are interleaved, from a fresh lock and all tasks outside,
-- no assertion of the semaphore or the lock fails; a task in the guarded section is the holder, so
-- that no two tasks are in it at once.
pub run_lem :
    (turns : List (Ptr × Bool))
    → AreTasks turns
    → length turns < 2 ^ 32
    → (w : World) × (run turns initial ≡ ok w)
      × ((a : Ptr) → w.place a ≡ inside → w.lock.holder ≡ a)
      × ((a b : Ptr) → w.place a ≡ inside → w.place b ≡ inside → a ≡ b)
run_lem turns tasks few =
    let (w, e, v) = from_initial turns tasks few in
    let holds : (a : Ptr) → w.place a ≡ inside → w.lock.holder ≡ a =
      λ a e. inside-holds (length turns) w a v e in
    (w, e, holds, λ a b ea eb. sym (holds a ea) ∙ holds b eb)

-- No wake-up is lost: after any such run, where a task is blocked on the lock, some task is between
-- `sema_down` and `sema_up`, or some task is about to test the semaphore.
pub run_wakes :
    (turns : List (Ptr × Bool))
    → AreTasks turns
    → length turns < 2 ^ 32
    → (w : World) × (run turns initial ≡ ok w)
      × ((a : Ptr)
          → w.place a ≡ waiting
          → (t : Ptr) × ((busy (w.place t) ≡ true) ⊎ (w.place t ≡ testing)))
run_wakes turns tasks few =
    let (w, e, v) = from_initial turns tasks few in (w, e, λ a ea. somebody w v a ea)
  where
    somebody :
        (w : World) (v : IsValid (length turns) w) (a : Ptr)
        → w.place a ≡ waiting
        → (t : Ptr) × ((busy (w.place t) ≡ true) ⊎ (w.place t ≡ testing))
    somebody w v a ea = elim v.owner [
      | free one _ _ _ ↦
          let (t, e) =
            v.attended one (λ none_wait.
              absurd (ground (arith, ap (mem a) none_wait, v.exact a, ap waits ea))) in
          (t, inr e)
      | owned t _ _ f _ ↦ (
        t,
        inl (Fields-busy (length turns) t (w.place t) w.lock.holder w.lock.holder_repeat_nr f),
      )
    ]
