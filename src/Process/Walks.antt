-- ===== src/Process/Walks.antt =====
-- The walks over the list of all tasks.
use mcy_os.Prelude.{
  ℕ, ◌≡◌, refl, sym, ap, subst, ◌∙◌, ◌≢◌, ◌⊎◌, inl, inr, Bool, true, false, ◌&&◌, List, [], ◌∷◌,
  arith, ℕ_discrete, ◌==◌, if◌then◌else◌, ==_refl, ==_ne, Bool-cases,
}
use mcy_os.LinkedList.{Ptr, null}
use mcy_os.LinkedList.Walk.{mem, first_such}
use mcy_os.Thread.Queue.{Distinct}
use mcy_os.Process.{Process, Processes, init_adopt_a_child, without, set_process}

-- A search finds a task of the list that passes the test, or null, and then none passes it.
abbrev pub Searched : (Ptr → Bool) → List Ptr → Ptr → Type 0
Searched test xs r =
    ((r ≡ null) × ((t : Ptr) → mem t xs ≡ true → test t ≡ false))
    ⊎ ((r ≢ null) × (mem r xs ≡ true) × (test r ≡ true))

mem_later : (a x : Ptr) (xs : List Ptr) → mem a xs ≡ true → mem a (x ∷ xs) ≡ true
mem_later a x xs h = ground (arith, h)

fails_at :
    (x : Ptr) (xs : List Ptr) (test : Ptr → Bool)
    → test x ≡ false
    → ((t : Ptr) → mem t xs ≡ true → test t ≡ false)
    → (t : Ptr) → mem t (x ∷ xs) ≡ true
    → test t ≡ false
fails_at x xs test e fails t h = elim (ℕ_discrete x t) [
  | yes same ↦ ap test (sym same) ∙ e
  | no other ↦ fails t (ground (arith, h, other))
]

pub search_lem :
    {S : Type 0} (test : Ptr → S → Bool) (xs : List Ptr) (s : S)
    → mem null xs ≡ false
    → Searched (λ t. test t s) xs (first_such (λ t s. (test t s, s)) xs s).0
search_lem test [] s clear = inl (refl, λ t h. ground arith)
search_lem test (x ∷ xs) s clear =
    let search = λ (ys : List Ptr). (first_such (λ t s. (test t s, s)) ys s).0 in
    elim (Bool-cases (test x s)) [
      | inl e ↦
          let here : x ≡ search (x ∷ xs) = sym (rw e) in
          let ne : x ≢ null = ground (arith, clear) in
          subst (Searched (λ t. test t s) (x ∷ xs)) here (inr (ne, rw (==_refl x), e))
      | inr e ↦
          let later : search xs ≡ search (x ∷ xs) = sym (rw e) in
          subst (Searched (λ t. test t s) (x ∷ xs)) later
            (elim (search_lem test xs s (ground (arith, clear))) [
              | inl (none_found, fails) ↦ inl (none_found, fails_at x xs (λ t. test t s) e fails)
              | inr (found, there, passes) ↦ inr (found, mem_later (search xs) x xs there, passes)
            ])
    ]

without-absent : (t : Ptr) (xs : List Ptr) → mem t xs ≡ false → without t xs ≡ xs
without-absent t [] h = refl
without-absent t (x ∷ xs) h = ground (arith, h, without-absent t xs)

pub mem-without :
    (t a : Ptr) (xs : List Ptr)
    → Distinct xs
    → mem a (without t xs) ≡ (if t == a then false else mem a xs)
mem-without t a [] d = ground arith
mem-without t a (x ∷ xs) d = ground (arith, mem-without t a xs d.1, d.0)

pub Distinct-without : (t : Ptr) (xs : List Ptr) → Distinct xs → Distinct (without t xs)
Distinct-without t [] d = tt
Distinct-without t (x ∷ xs) d = elim (ℕ_discrete x t) [
  | yes e ↦ rw (e, ==_refl t) d.1
  | no ne ↦
      rw (==_ne x t ne) (ground (arith, mem-without t x xs d.1, d.0), Distinct-without t xs d.1)
]

-- A child gets the parent 1.
abbrev given_to_init : ℕ → Bool → Process → Process
given_to_init pid listed p =
    if listed && p.parent_pid == pid then record p { parent_pid = 1 } else p

given_twice :
    (pid : ℕ) (b c : Bool) (p : Process)
    → given_to_init pid b (given_to_init pid c p) ≡ given_to_init pid (if c then true else b) p
given_twice pid b false p = refl
given_twice pid false true p = refl
given_twice pid true true p = elim (Bool-cases (p.parent_pid == pid)) [
  | inl e ↦ elim (Bool-cases (1 == pid)) [ inl e' ↦ rw (e, e') | inr e' ↦ rw (e, e') ]
  | inr e ↦ rw (e, e)
]

-- The processes after every child in the list was given to init.
abbrev pub adopted : ℕ → List Ptr → (Ptr → Process) → Ptr → Process
adopted pid xs procs t =
    if mem t xs && (procs t).parent_pid == pid then record (procs t) { parent_pid = 1 } else procs t

abbrev pub SameBut : (Ptr → Process) → Processes → Processes → Type 0
SameBut procs s s' =
    (s'.sched ≡ s.sched)
    × (s'.thread_all_list ≡ s.thread_all_list)
    × (s'.pid_pool ≡ s.pid_pool)
    × ((t : Ptr) → s'.procs t ≡ procs t)

adopt_one :
    (pid : ℕ) (x : Ptr) (s : Processes)
    → SameBut (adopted pid (x ∷ []) s.procs) s (init_adopt_a_child pid x s).1
adopt_one pid x s =
    let child = (s.procs x).parent_pid == pid in
    let given = set_process s x (record (s.procs x) { parent_pid = 1 }) in
    let same = SameBut (adopted pid (x ∷ []) s.procs) s in
    elim (Bool-cases child) [
      | inl e ↦
          let step : given ≡ (if child then given else s) = sym (rw e) in
          subst same step (
            refl,
            refl,
            refl,
            λ t. elim (ℕ_discrete t x) [
              | yes at ↦ rw (at, ==_refl x, e)
              | no ne ↦ rw (==_ne t x ne, ==_ne x t (λ h. ne (sym h)))
            ],
          )
      | inr e ↦
          let step : s ≡ (if child then given else s) = sym (rw e) in
          subst same step (
            refl,
            refl,
            refl,
            λ t. elim (ℕ_discrete t x) [
              | yes at ↦ rw (at, ==_refl x, e)
              | no ne ↦ rw (==_ne x t (λ h. ne (sym h)))
            ],
          )
    ]

pub adopt_lem :
    (pid : ℕ) (xs : List Ptr) (s : Processes)
    → SameBut (adopted pid xs s.procs) s (first_such (init_adopt_a_child pid) xs s).1
adopt_lem pid [] s = (refl, refl, refl, λ t. refl)
adopt_lem pid (x ∷ xs) s =
    let (d1, d2, d3, d4) = adopt_one pid x s in
    let (e1, e2, e3, e4) = adopt_lem pid xs (init_adopt_a_child pid x s).1 in
    (
      e1 ∙ d1,
      e2 ∙ d2,
      e3 ∙ d3,
      λ t.
          let listed : (if mem t (x ∷ []) then true else mem t xs) ≡ mem t (x ∷ xs) =
            ground arith in
          e4 t
          ∙ ap (given_to_init pid (mem t xs)) (d4 t)
          ∙ given_twice pid (mem t xs) (mem t (x ∷ [])) (s.procs t)
          ∙ ap (λ b. given_to_init pid b (s.procs t)) listed,
    )
