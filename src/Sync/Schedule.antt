-- ===== src/Sync/Schedule.antt =====
-- Every step of every task keeps the lock's invariant, and no assertion of sync.c fails.
use mcy_os.Prelude.{
  ℕ, suc, ◌-◌, ◌^◌, ◌≤◌, ◌<◌, ◌≡◌, refl, sym, ap, subst, ◌∙◌, ◌≢◌, Bool, true, false, none, some,
  List, [], ◌∷◌, ◌++◌, arith, dec_lt, ℕ_discrete, ==_refl, ==_ne, add32, Result, ok, ◌>>=◌,
}
use mcy_os.LinkedList.{Ptr, null}
use mcy_os.LinkedList.Walk.{mem}
use mcy_os.Thread.Queue.{Distinct, mem-snoc, Distinct-snoc}
use mcy_os.Sync.{
  Semaphore, sema_down, pop_waiter, sema_up, take_lock, acquire_again, lock_release, Place, outside,
  testing, waiting, entering, inside, leaving, World, move, after_up, step_at, step,
}
use mcy_os.Sync.Exclusion.{
  busy, waits, Fields, free, owned, IsValid, owner_of, holder_ne, Owned-more, Owned-move,
  Owned-step, move-same, move_self, move-other,
}

abbrev pub Steps : ℕ → Result World → Type 0
Steps n r = (w' : World) × (r ≡ ok w') × IsValid n w'

-- A lock that is owned is not free, so nothing is asked of the waiters.
not_free {ℓ} : {A : Type ℓ} (v : ℕ) → v ≡ 0 → v ≡ 1 → A
not_free v z o = absurd (omega arith)

sema_up-nil :
    (s : Semaphore)
    → s.value ≡ 0
    → s.waiters ≡ []
    → sema_up s ≡ ok (record { value = 1; waiters = [] }, none)
unfolding sema_up pop_waiter
sema_up-nil s z e = rw (z, e)

sema_up-cons :
    (s : Semaphore) (t : Ptr) (rest : List Ptr)
    → s.value ≡ 0
    → s.waiters ≡ t ∷ rest
    → sema_up s ≡ ok (record { value = 1; waiters = rest }, some t)
unfolding sema_up pop_waiter
sema_up-cons s t rest z e = rw (z, e)

move-false :
    (f : Place → Bool) (t : Ptr) (p : Place) (place : Ptr → Place) (a : Ptr)
    → f p ≡ false
    → (a ≢ t → f (place a) ≡ false)
    → f (move t p place a) ≡ false
move-false f t p place a e h = elim (ℕ_discrete a t) [
  | yes same ↦ rw (same, ==_refl t) e
  | no other ↦ ap f (move-other t p place a other) ∙ h other
]

not_head : (a x : Ptr) (xs : List Ptr) → a ≢ x → mem a xs ≡ mem a (x ∷ xs)
not_head a x xs h = rw (==_ne x a (λ e. h (sym e)))

module _ (n : ℕ) (t : Ptr) (w : World) (t≢ : t ≢ null) (v : IsValid n w)
    (few : suc n < 2 ^ 32) where
  -- The waiters stay exact where `t` moves and neither waited nor waits.
  stays :
      (p : Place)
      → waits p ≡ false
      → waits (w.place t) ≡ false
      → (a : Ptr) → mem a w.lock.semaphore.waiters ≡ waits (move t p w.place a)
  stays p e e' a = v.exact a ∙ sym (move-same waits t p w.place a (e ∙ sym e'))

  outside-IsValid : (again : Bool) → w.place t ≡ outside → Steps (suc n) (step_at outside t again w)
  unfolding step_at
  outside-IsValid again e = (
    record w { place = move t testing w.place },
    rw (holder_ne n w t t≢ v.owner (ap busy e)),
    record {
      owner = Owned-move n w t testing w.lock.semaphore.waiters v.owner (ap busy e) refl;
      exact = stays testing refl (ap waits e);
      distinct = v.distinct;
      attended = λ _ _. (t, move_self t testing w.place);
    },
  )

  abbrev down_to : ℕ → Place → List Ptr → World
  down_to value p waiters = record {
    lock = record w.lock { semaphore = record { value = value; waiters = waiters } };
    place = move t p w.place;
  }

  testing-IsValid : (again : Bool) → w.place t ≡ testing → Steps (suc n) (step_at testing t again w)
  unfolding step_at sema_down
  testing-IsValid again e = elim v.owner [
    | free one h r o ↦ (
      down_to 0 entering w.lock.semaphore.waiters,
      ground (arith, one),
      record {
        owner =
            Owned-step (suc n) w t entering
              (record w.lock { semaphore = record w.lock.semaphore { value = 0 } }) t≢ (λ a _. o a)
              refl (h, r);
        exact = stays entering refl (ap waits e);
        distinct = v.distinct;
        attended = λ x _. not_free 0 refl x;
      },
    )
    | owned t' t'≢ z f o ↦
        let out : mem t w.lock.semaphore.waiters ≡ false = v.exact t ∙ ap waits e in
        (
          down_to w.lock.semaphore.value waiting (w.lock.semaphore.waiters ++ t ∷ []),
          ground (arith, z, out),
          record {
            owner =
                Owned-move n w t waiting (w.lock.semaphore.waiters ++ t ∷ []) v.owner (ap busy e)
                  refl;
            exact = λ a. mem-snoc a t w.lock.semaphore.waiters ∙ ground (arith, v.exact a);
            distinct = Distinct-snoc t w.lock.semaphore.waiters v.distinct out;
            attended = λ x _. not_free w.lock.semaphore.value z x;
          },
        )
  ]

  waiting-IsValid : (again : Bool) → w.place t ≡ waiting → Steps (suc n) (step_at waiting t again w)
  unfolding step_at
  waiting-IsValid again e = (
    w,
    refl,
    record {
      owner = Owned-more n w v.owner;
      exact = v.exact;
      distinct = v.distinct;
      attended = v.attended;
    },
  )

  entering-IsValid :
      (again : Bool) → w.place t ≡ entering → Steps (suc n) (step_at entering t again w)
  unfolding step_at take_lock
  entering-IsValid again e =
      let (z, f, o) = owner_of n w t v.owner (ap busy e) in
      let fields = subst (λ p. Fields n t p w.lock.holder w.lock.holder_repeat_nr) e f in
      (
        record {
          lock = record w.lock { holder = t; holder_repeat_nr = 1 };
          place = move t inside w.place;
        },
        ground (arith, fields.1),
        record {
          owner =
              Owned-step (suc n) w t inside (record w.lock { holder = t; holder_repeat_nr = 1 }) t≢
                o z (refl, omega arith, omega arith);
          exact = stays inside refl (ap waits e);
          distinct = v.distinct;
          attended = λ x _. not_free w.lock.semaphore.value z x;
        },
      )

  -- The owner stays inside and holds the lock `nr` times.
  held :
      w.place t ≡ inside
      → (nr : ℕ) → ((a : Ptr) → a ≢ t → busy (w.place a) ≡ false)
      → w.lock.semaphore.value ≡ 0
      → w.lock.holder ≡ t
      → 1 ≤ nr
      → nr ≤ suc n
      → IsValid (suc n) (record w { lock = record w.lock { holder_repeat_nr = nr } })
  held e nr o z h lo hi = record {
    owner = owned t t≢ z (subst (λ p. Fields (suc n) t p w.lock.holder nr) (sym e) (h, lo, hi)) o;
    exact = v.exact;
    distinct = v.distinct;
    attended = λ x _. not_free w.lock.semaphore.value z x;
  }

  inside-IsValid : (again : Bool) → w.place t ≡ inside → Steps (suc n) (step_at inside t again w)
  unfolding step_at lock_release acquire_again
  inside-IsValid true e =
      let (z, f, o) = owner_of n w t v.owner (ap busy e) in
      let fields = subst (λ p. Fields n t p w.lock.holder w.lock.holder_repeat_nr) e f in
      let more = add32 w.lock.holder_repeat_nr 1 in
      (
        record w { lock = record w.lock { holder_repeat_nr = more } },
        rw (fields.0, ==_refl t),
        held e more o z (fields.0) (omega (arith, fields)) (omega (arith, fields)),
      )
  inside-IsValid false e =
      let (z, f, o) = owner_of n w t v.owner (ap busy e) in
      let fields = subst (λ p. Fields n t p w.lock.holder w.lock.holder_repeat_nr) e f in
      elim (dec_lt 1 w.lock.holder_repeat_nr) [
        | yes many ↦
            let fewer = w.lock.holder_repeat_nr - 1 in
            (
              record w { lock = record w.lock { holder_repeat_nr = fewer } },
              ground (arith, fields.0, many),
              held e fewer o z (fields.0) (omega (arith, fields)) (omega (arith, fields)),
            )
        | no once ↦
            let free_lock = record w.lock { holder = null; holder_repeat_nr = 0 } in
            (
              record { lock = free_lock; place = move t leaving w.place },
              ground (arith, fields.0, fields.1, once),
              record {
                owner = Owned-step (suc n) w t leaving free_lock t≢ o z (refl, refl);
                exact = stays leaving refl (ap waits e);
                distinct = v.distinct;
                attended = λ x _. not_free w.lock.semaphore.value z x;
              },
            )
      ]

  -- `sema_up` with nobody waiting, and with a task that waits.
  leaving-up :
      (waiters : List Ptr)
      → w.lock.semaphore.waiters ≡ waiters
      → w.place t ≡ leaving
      → w.lock.semaphore.value ≡ 0
      → w.lock.holder ≡ null
      → w.lock.holder_repeat_nr ≡ 0
      → ((a : Ptr) → a ≢ t → busy (w.place a) ≡ false)
      → Steps (suc n) (sema_up w.lock.semaphore >>= after_up t w)
  leaving-up [] ws e z h r o = (
    record {
      lock = record w.lock { semaphore = record { value = 1; waiters = [] } };
      place = move t outside w.place;
    },
    ap (λ m. m >>= after_up t w) (sema_up-nil w.lock.semaphore z ws),
    record {
      owner = free refl h r (λ a. move-false busy t outside w.place a refl (o a));
      exact = λ a. ap (mem a) (sym ws) ∙ stays outside refl (ap waits e) a;
      distinct = tt;
      attended = λ _ some_wait. absurd (some_wait refl);
    },
  )
  leaving-up (t1 ∷ rest) ws e z h r o =
      let out = move t outside w.place in
      let (once, distinct) = subst Distinct ws v.distinct in
      let exact : (a : Ptr) → mem a (t1 ∷ rest) ≡ waits (out a) =
        λ a. ap (mem a) (sym ws) ∙ stays outside refl (ap waits e) a in
      (
        record {
          lock = record w.lock { semaphore = record { value = 1; waiters = rest } };
          place = move t1 testing out;
        },
        ap (λ m. m >>= after_up t w) (sema_up-cons w.lock.semaphore t1 rest z ws),
        record {
          owner = free refl h r (λ a.
              move-false busy t1 testing out a refl
                (λ _. move-false busy t outside w.place a refl (o a)));
          exact = λ a. elim (ℕ_discrete a t1) [
            | yes same ↦
                ap (λ x. mem x rest) same
                ∙ once
                ∙ sym (
                    ap (λ x. waits (move t1 testing out x)) same
                    ∙ ap waits (move_self t1 testing out))
            | no other ↦
                not_head a t1 rest other
                ∙ exact a
                ∙ ap waits (sym (move-other t1 testing out a other))
          ];
          distinct = distinct;
          attended = λ _ _. (t1, move_self t1 testing out);
        },
      )

  leaving-IsValid : (again : Bool) → w.place t ≡ leaving → Steps (suc n) (step_at leaving t again w)
  unfolding step_at
  leaving-IsValid again e =
      let (z, f, o) = owner_of n w t v.owner (ap busy e) in
      let fields = subst (λ p. Fields n t p w.lock.holder w.lock.holder_repeat_nr) e f in
      leaving-up w.lock.semaphore.waiters refl e z (fields.0) (fields.1) o

  pub step-IsValid : (again : Bool) → Steps (suc n) (step t again w)
  unfolding step
  step-IsValid again = at_place (w.place t) refl
    where
      at_place : (p : Place) → w.place t ≡ p → Steps (suc n) (step_at p t again w)
      at_place outside e = outside-IsValid again e
      at_place testing e = testing-IsValid again e
      at_place waiting e = waiting-IsValid again e
      at_place entering e = entering-IsValid again e
      at_place inside e = inside-IsValid again e
      at_place leaving e = leaving-IsValid again e
