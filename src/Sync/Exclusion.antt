-- ===== src/Sync/Exclusion.antt =====
-- What holds of the lock and of the places of all tasks between two steps.
use mcy_os.Prelude.{
  ℕ, suc, ◌≤◌, ◌≡◌, refl, sym, ap, subst, ◌∙◌, ◌≢◌, ◌⊎◌, inl, inr, Bool, true, false, List, [],
  arith, ℕ_discrete, ◌==◌, ==_refl, ==_ne, Result, ok,
}
use mcy_os.LinkedList.{Ptr, null}
use mcy_os.LinkedList.Walk.{mem}
use mcy_os.Thread.Queue.{Distinct}
use mcy_os.Sync.{Lock, Place, outside, testing, waiting, entering, inside, leaving, World, move}

-- The places between `sema_down` and `sema_up`.
abbrev pub busy : Place → Bool
busy entering = true
busy inside = true
busy leaving = true
busy _ = false

abbrev pub waits : Place → Bool
waits waiting = true
waits _ = false

-- The holder and the number of times it holds the lock, where the owner is at a place; `n` bounds
-- the number.
abbrev pub Fields : ℕ → Ptr → Place → Ptr → ℕ → Type 0
Fields n t entering holder nr = (holder ≡ null) × (nr ≡ 0)
Fields n t inside holder nr = (holder ≡ t) × (1 ≤ nr) × (nr ≤ n)
Fields n t leaving holder nr = (holder ≡ null) × (nr ≡ 0)
Fields n t _ holder nr = ⊥

pub data Owned (n : ℕ) (w : World) : Type 0 where
  free :
      w.lock.semaphore.value ≡ 1
      → w.lock.holder ≡ null
      → w.lock.holder_repeat_nr ≡ 0
      → ((a : Ptr) → busy (w.place a) ≡ false)
      → Owned n w
  owned :
      (t : Ptr)
      → t ≢ null
      → w.lock.semaphore.value ≡ 0
      → Fields n t (w.place t) w.lock.holder w.lock.holder_repeat_nr
      → ((a : Ptr) → a ≢ t → busy (w.place a) ≡ false)
      → Owned n w

-- The waiters are the tasks that wait, each once. While the lock is free, either nobody waits or
-- some task is about to test it.
pub record IsValid (n : ℕ) (w : World) : Type 0 where
  pub owner : Owned n w
  pub exact : (a : Ptr) → mem a w.lock.semaphore.waiters ≡ waits (w.place a)
  pub distinct : Distinct w.lock.semaphore.waiters
  pub attended :
      w.lock.semaphore.value ≡ 1 → w.lock.semaphore.waiters ≢ [] → (t : Ptr) × (w.place t ≡ testing)

abbrev pub Steps : ℕ → Result World → Type 0
Steps n r = (w' : World) × (r ≡ ok w') × IsValid n w'

pub Fields-more :
    (n : ℕ) (t : Ptr) (p : Place) (h : Ptr) (nr : ℕ) → Fields n t p h nr → Fields (suc n) t p h nr
Fields-more n t entering h nr f = f
Fields-more n t inside h nr f = (f.0, f.1, omega (arith, f.2))
Fields-more n t leaving h nr f = f
Fields-more n t outside h nr f = elim f [ ]
Fields-more n t testing h nr f = elim f [ ]
Fields-more n t waiting h nr f = elim f [ ]

pub Fields-busy :
    (n : ℕ) (t : Ptr) (p : Place) (h : Ptr) (nr : ℕ) → Fields n t p h nr → busy p ≡ true
Fields-busy n t entering h nr f = refl
Fields-busy n t inside h nr f = refl
Fields-busy n t leaving h nr f = refl
Fields-busy n t outside h nr f = elim f [ ]
Fields-busy n t testing h nr f = elim f [ ]
Fields-busy n t waiting h nr f = elim f [ ]

-- A test that the move does not change answers the same everywhere.
pub move-same :
    (f : Place → Bool) (t : Ptr) (p : Place) (place : Ptr → Place) (a : Ptr)
    → f p ≡ f (place t)
    → f (move t p place a) ≡ f (place a)
move-same f t p place a e = elim (ℕ_discrete a t) [
  | yes h ↦ rw (h, ==_refl t) e
  | no h ↦ rw (==_ne a t h)
]

pub move_self : (t : Ptr) (p : Place) (place : Ptr → Place) → move t p place t ≡ p
move_self t p place = rw (==_refl t)

pub move-other :
    (t : Ptr) (p : Place) (place : Ptr → Place) (a : Ptr) → a ≢ t → move t p place a ≡ place a
move-other t p place a h = rw (==_ne a t h)

-- The task in a busy place owns the lock.
pub owner_of :
    (n : ℕ) (w : World) (t : Ptr)
    → Owned n w
    → busy (w.place t) ≡ true
    → (w.lock.semaphore.value ≡ 0)
      × Fields n t (w.place t) w.lock.holder w.lock.holder_repeat_nr
      × ((a : Ptr) → a ≢ t → busy (w.place a) ≡ false)
owner_of n w t (free v h r o) b = absurd (ground (arith, o t))
owner_of n w t (owned t' t'≢ v f o) b = elim (ℕ_discrete t t') [
  | yes e ↦
      subst
        (λ x.
          (w.lock.semaphore.value ≡ 0)
          × Fields n x (w.place x) w.lock.holder w.lock.holder_repeat_nr
          × ((a : Ptr) → a ≢ x → busy (w.place a) ≡ false))
        (sym e) (v, f, o)
  | no e ↦ absurd (ground (arith, o t e))
]

-- A task that is not busy and moves to a place that is not busy leaves the owner as it is.
pub Owned-move :
    (n : ℕ) (w : World) (t : Ptr) (p : Place) (waiters : List Ptr)
    → Owned n w
    → busy (w.place t) ≡ false
    → busy p ≡ false
    → Owned (suc n) (record {
      lock = record w.lock { semaphore = record w.lock.semaphore { waiters = waiters } };
      place = move t p w.place;
    })
Owned-move n w t p waiters (free v h r o) b b' =
    free v h r (λ a. move-same busy t p w.place a (b' ∙ sym b) ∙ o a)
Owned-move n w t p waiters (owned t' t'≢ v f o) b b' =
    let other : t' ≢ t = λ e. ground (
      arith,
      Fields-busy n t' (w.place t') w.lock.holder w.lock.holder_repeat_nr f,
      ap (λ x. busy (w.place x)) e,
    ) in
    owned t' t'≢ v
      (subst (λ x. Fields (suc n) t' x w.lock.holder w.lock.holder_repeat_nr)
        (sym (move-other t p w.place t' other))
        (Fields-more n t' (w.place t') w.lock.holder w.lock.holder_repeat_nr f))
      (λ a a≢. move-same busy t p w.place a (b' ∙ sym b) ∙ o a a≢)

-- The owner moves to a busy place with fields that fit it.
pub Owned-step :
    (n : ℕ) (w : World) (t : Ptr) (p : Place) (l : Lock)
    → t ≢ null
    → ((a : Ptr) → a ≢ t → busy (w.place a) ≡ false)
    → l.semaphore.value ≡ 0
    → Fields n t p l.holder l.holder_repeat_nr
    → Owned n (record { lock = l; place = move t p w.place })
Owned-step n w t p l t≢ o z f =
    owned t t≢ z
      (subst (λ x. Fields n t x l.holder l.holder_repeat_nr) (sym (move_self t p w.place)) f)
      (λ a a≢. ap busy (move-other t p w.place a a≢) ∙ o a a≢)

Fields-holder :
    (n : ℕ) (t : Ptr) (p : Place) (h : Ptr) (nr : ℕ) → Fields n t p h nr → (h ≡ null) ⊎ (h ≡ t)
Fields-holder n t entering h nr f = inl (f.0)
Fields-holder n t inside h nr f = inr (f.0)
Fields-holder n t leaving h nr f = inl (f.0)
Fields-holder n t outside h nr f = elim f [ ]
Fields-holder n t testing h nr f = elim f [ ]
Fields-holder n t waiting h nr f = elim f [ ]

-- A task that is not busy does not hold the lock.
pub holder_ne :
    (n : ℕ) (w : World) (t : Ptr)
    → t ≢ null
    → Owned n w
    → busy (w.place t) ≡ false
    → (w.lock.holder == t) ≡ false
holder_ne n w t t≢ (free v h r o) b = ground (arith, h, t≢)
holder_ne n w t t≢ (owned t' t'≢ v f o) b =
    let other : t' ≢ t = λ e. ground (
      arith,
      Fields-busy n t' (w.place t') w.lock.holder w.lock.holder_repeat_nr f,
      ap (λ x. busy (w.place x)) e,
    ) in
    elim (Fields-holder n t' (w.place t') w.lock.holder w.lock.holder_repeat_nr f) [
      | inl h ↦ ==_ne w.lock.holder t (λ e. t≢ (sym e ∙ h))
      | inr h ↦ ==_ne w.lock.holder t (λ e. other (sym h ∙ e))
    ]

pub Owned-more : (n : ℕ) (w : World) → Owned n w → Owned (suc n) w
Owned-more n w (free v h r o) = free v h r o
Owned-more n w (owned t t≢ v f o) =
    owned t t≢ v (Fields-more n t (w.place t) w.lock.holder w.lock.holder_repeat_nr f) o
