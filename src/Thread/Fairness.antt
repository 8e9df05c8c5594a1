-- ===== src/Thread/Fairness.antt =====
-- Round robin: where only the clock interrupts, every ready task gets the processor.
use mcy_os.Prelude.{
  ℕ, zero, suc, ◌+◌, ◌≡◌, refl, ap, ◌∙◌, List, [], ◌∷◌, ◌++◌, arith, Result, ok, panic, ◌>>=◌,
}
use Prim.Native.Nat.add
use mathlib.Core.List.{append_assoc}
use mcy_os.LinkedList.{Ptr}
use mcy_os.Thread.{Sched, running, schedule, intr_timer_handler, count_tick}
use mcy_os.Thread.Invariant.{IsValid, IsHalfway, StacksAreWhole}
use mcy_os.Thread.Dispatch.{
  requeue-IsStopped, dispatched, dispatch-ok, dispatched-IsValid, dispatched-KeepsSleepers,
  dispatched_first, ensure_ready_some,
}
use mcy_os.Thread.Blocking.{
  schedule_steps, counted-IsHalfway, one_less, one_less-IsValid, one_less_lem, counted_lem,
  handler-schedules, handler-counts,
}

-- The clock interrupt, `n` times in a row.
unfoldable pub clock : ℕ → Sched → Result Sched
clock zero s = ok s
clock (suc n) s = intr_timer_handler s >>= clock n

-- The running task went to the end of the line, and the first in line runs.
abbrev Switched : Sched → Ptr → List Ptr → Sched → Type 0
Switched s t ts s' =
    IsValid s'
    × StacksAreWhole s'
    × ((s'.current ≡ t) × (s'.thread_ready_list ≡ ts ++ s.current ∷ []))

schedule-Switched :
    (s : Sched) (t : Ptr) (ts : List Ptr)
    → IsHalfway s
    → StacksAreWhole s
    → (s.tasks s.current).status ≡ running
    → s.thread_ready_list ≡ t ∷ ts
    → (s' : Sched) × (schedule s ≡ ok s') × Switched s t ts s'
schedule-Switched s t ts h g r e =
    let (s1, e1, h1, l1, k1) = requeue-IsStopped s h in
    let us : List Ptr = ts ++ s.current ∷ [] in
    let l : s1.thread_ready_list ≡ t ∷ us = l1 ∙ rw (r, e) refl in
    (
      dispatched s1 t us l,
      schedule_steps s s1 s1 h.off e1 (ensure_ready_some s1 t us l) ∙ dispatch-ok s1 t us l,
      (
        dispatched-IsValid s1 t us l h1,
        (λ a. (dispatched-KeepsSleepers s1 t us l h1).2 a ∙ k1.2 a ∙ g a),
        dispatched_first s1 t us l,
      ),
    )

-- With `k` ticks left the switch comes with the interrupt after `k` more.
clock-Switched :
    (k : ℕ) (s : Sched) (t : Ptr) (ts : List Ptr)
    → (s.tasks s.current).ticks ≡ k
    → IsValid s
    → StacksAreWhole s
    → s.thread_ready_list ≡ t ∷ ts
    → (s' : Sched) × (clock (suc k) s ≡ ok s') × Switched s t ts s'
unfolding clock
clock-Switched zero s t ts z v g e =
    let (s', r, w) =
      schedule-Switched (count_tick s) t ts (counted-IsHalfway s v) (counted_lem s g).0
        ((counted_lem s g).1 ∙ runs) e in
    (s', ap (λ m. m >>= ok) (handler-schedules s (g s.current) z ∙ r), w)
  where
    runs : (s.tasks s.current).status ≡ running
    runs = ground (arith, v.alone s.current)
clock-Switched (suc k) s t ts z v g e =
    let (whole, less, _, _) = one_less_lem s g in
    let (s', r, w) =
      clock-Switched k (one_less s) t ts (omega (arith, less)) (one_less-IsValid s v) whole e in
    (s', ap (λ m. m >>= clock (suc k)) (handler-counts s (g s.current) (omega arith)) ∙ r, w)

bind_add :
    (m n : ℕ) (s' : Sched)
    → ((s : Sched) → clock m s ≡ ok s' → clock (m + n) s ≡ clock n s')
    → (r : Result Sched) → (r >>= clock m) ≡ ok s'
    → (r >>= clock (m + n)) ≡ clock n s'
bind_add m n s' ih (ok s) e = ih s e
bind_add m n s' ih panic e = cc

clock_add : (m n : ℕ) (s s' : Sched) → clock m s ≡ ok s' → clock (m + n) s ≡ clock n s'
unfolding clock
clock_add zero n s s' e = cc (ap (λ k. clock k s) (add.zero n))
clock_add (suc m) n s s' e =
    ap (λ k. clock k s) (add.suc m n)
    ∙ bind_add m n s' (λ s. clock_add m n s s') (intr_timer_handler s) e

-- In a sound scheduler where no task is past the end of its stack, and when only clock interrupts
-- occur, a ready task runs after some number of them, whatever stands in line before it.
pub clock-reaches :
    (xs : List Ptr) (t : Ptr) (ys : List Ptr) (s : Sched)
    → IsValid s
    → StacksAreWhole s
    → s.thread_ready_list ≡ xs ++ t ∷ ys
    → (n : ℕ) × (s' : Sched) × (clock n s ≡ ok s') × IsValid s' × (s'.current ≡ t)
clock-reaches [] t ys s v g e =
    let (s', r, (v', _, c)) = clock-Switched (s.tasks s.current).ticks s t ys refl v g e in
    (suc (s.tasks s.current).ticks, s', r, v', c.0)
clock-reaches (x ∷ xs) t ys s v g e =
    let k = (s.tasks s.current).ticks in
    let (s1, r1, (v1, g1, c1)) = clock-Switched k s x (xs ++ t ∷ ys) refl v g e in
    let (n, s2, r2, v2, c2) =
      clock-reaches xs t (ys ++ s.current ∷ []) s1 v1 g1
        (c1.1 ∙ append_assoc xs (t ∷ ys) (s.current ∷ [])) in
    (suc k + n, s2, clock_add (suc k) n s s1 r1 ∙ r2, v2, c2)
