-- ===== src/Descriptors/Slots.antt =====
-- Free slots of the two tables.
use mcy_os.Prelude.{
  ℕ, zero, suc, ◌+◌, ◌≤◌, ◌<◌, ◌≡◌, refl, sym, subst, ◌≢◌, ◌⊎◌, inl, inr, Bool, true, false, List,
  arith, ℕ_discrete, ◌==◌, lt→ltb, ==_ne, Bool-cases, minus_one, length, get_or, set,
  get_or-set_self, get_or-set_ne, ok,
}
use mcy_os.LinkedList.{null}
use mcy_os.Descriptors.{
  File, no_file, free_slot_from, get_free_slot_in_global, install_from, pcb_fd_install,
  fd_local2global,
}

abbrev pub is_free : List File → ℕ → Bool
is_free t i = (get_or t i no_file).fd_inode == null

-- The lowest free slot from `i` on, of `n`.
free_slot_from_lem :
    (n i : ℕ) (t : List File)
    → ((i ≤ free_slot_from n i t)
        × (free_slot_from n i t < i + n)
        × (is_free t (free_slot_from n i t) ≡ true)
        × ((j : ℕ) → i ≤ j → j < free_slot_from n i t → is_free t j ≡ false))
      ⊎ ((free_slot_from n i t ≡ minus_one) × ((j : ℕ) → i ≤ j → j < i + n → is_free t j ≡ false))
unfolding free_slot_from
free_slot_from_lem zero i t = inr (refl, λ j lo hi. absurd (omega arith))
free_slot_from_lem (suc n) i t = elim (Bool-cases (is_free t i)) [
  | inl e ↦ rw e (inl (omega arith, omega arith, e, λ j lo hi. absurd (omega arith)))
  | inr e ↦ elim (free_slot_from_lem n (i + 1) t) [
    | inl (lo, hi, at, before) ↦ rw e (
        inl (
          omega (arith, lo),
          omega (arith, hi),
          at,
          λ j l h. elim (ℕ_discrete i j) [
            | yes same ↦ subst (λ x. is_free t x ≡ false) same e
            | no other ↦ before j (omega arith) h
          ],
        ))
    | inr (none_free, all) ↦ rw e (
        inr (
          none_free,
          λ j l h. elim (ℕ_discrete i j) [
            | yes same ↦ subst (λ x. is_free t x ≡ false) same e
            | no other ↦ all j (omega arith) (omega arith)
          ],
        ))
  ]
]

-- `get_free_slot_in_global` answers with the lowest slot from 3 to 31 whose inode is NULL, or with
-- -1 where none of them is free.
pub get_free_slot_in_global_lem :
    (t : List File)
    → ((3 ≤ get_free_slot_in_global t)
        × (get_free_slot_in_global t < 32)
        × (is_free t (get_free_slot_in_global t) ≡ true)
        × ((j : ℕ) → 3 ≤ j → j < get_free_slot_in_global t → is_free t j ≡ false))
      ⊎ ((get_free_slot_in_global t ≡ minus_one) × ((j : ℕ) → 3 ≤ j → j < 32 → is_free t j ≡ false))
unfolding get_free_slot_in_global
get_free_slot_in_global_lem t = free_slot_from_lem 29 3 t

-- A descriptor that was free and now stands for `g`, with all others as they were.
abbrev pub Installed : List ℕ → List ℕ → ℕ → ℕ → Type 0
Installed t t' fd g =
    (get_or t fd 0 ≡ minus_one)
    × (fd_local2global fd t' ≡ ok g)
    × ((j : ℕ) → j ≢ fd → get_or t' j 0 ≡ get_or t j 0)

installed :
    (t : List ℕ) (i g : ℕ)
    → get_or t i 0 ≡ minus_one
    → i < length t
    → g < 32
    → Installed t (set t i g) i g
unfolding fd_local2global
installed t i g e inside small =
    let at : get_or (set t i g) i 0 ≡ g = get_or-set_self t i g 0 inside in
    (e, rw (at, lt→ltb g 32 small), λ j other. get_or-set_ne t i j g 0 (λ same. other (sym same)))

install_from_lem :
    (n i g : ℕ) (t : List ℕ)
    → i + n ≤ length t
    → g < 32
    → (t' : List ℕ) × (fd : ℕ) × (install_from n i g t ≡ (t', fd))
      × (((i ≤ fd) × (fd < i + n) × Installed t t' fd g)
          ⊎ ((fd ≡ minus_one)
              × (t' ≡ t)
              × ((j : ℕ) → i ≤ j → j < i + n → get_or t j 0 ≢ minus_one)))
unfolding install_from
install_from_lem zero i g t fits small =
    (t, minus_one, refl, inr (refl, refl, λ j lo hi. absurd (omega arith)))
install_from_lem (suc n) i g t fits small = elim (ℕ_discrete (get_or t i 0) minus_one) [
  | yes e ↦
      (set t i g, i, rw e, inl (omega arith, omega arith, installed t i g e (omega arith) small))
  | no taken ↦
      let (t', fd, e, outcome) = install_from_lem n (i + 1) g t (omega arith) small in
      (
        t',
        fd,
        rw (==_ne (get_or t i 0) minus_one taken) e,
        elim outcome [
          | inl (lo, hi, inst) ↦ inl (omega (arith, lo), omega (arith, hi), inst)
          | inr (none_free, same, all) ↦ inr (
            none_free,
            same,
            λ j l h. elim (ℕ_discrete i j) [
              | yes here ↦ subst (λ x. get_or t x 0 ≢ minus_one) here taken
              | no other ↦ all j (omega arith) (omega arith)
            ],
          )
        ],
      )
]

-- `pcb_fd_install` of an open file's slot in a table of eight descriptors: it takes one from 3 to 7
-- that was free, which `fd_local2global` then translates to the slot, and changes no other; or it
-- answers -1 and changes nothing, and then 3 to 7 are all taken.
pub pcb_fd_install_lem :
    (g : ℕ) (t : List ℕ)
    → length t ≡ 8
    → g < 32
    → (t' : List ℕ) × (fd : ℕ) × (pcb_fd_install g t ≡ (t', fd))
      × (((3 ≤ fd) × (fd < 8) × Installed t t' fd g)
          ⊎ ((fd ≡ minus_one) × (t' ≡ t) × ((j : ℕ) → 3 ≤ j → j < 8 → get_or t j 0 ≢ minus_one)))
unfolding pcb_fd_install
pcb_fd_install_lem g t sized small = install_from_lem 5 3 g t (omega arith) small
