-- ===== src/Pid/Numbers.antt =====
-- Which numbers the pool gives out.
use mcy_os.Prelude.{
  not, assert, ◌>>◌, ℕ, ◌+◌, ◌-◌, ◌%◌, ◌^◌, ◌≤◌, ◌≡◌, ap, subst, ◌∙◌, Bool, true, false, arith,
  ◌==◌, if◌then◌else◌, minus_one, add32, sub32, Result, ok, ◌>>=◌,
}
use mcy_os.Bitmap.{Bitmap, scan, set, scan_test}
use mcy_os.Bitmap
use mcy_os.Bitmap.Laws.{size, set_lem}
use mcy_os.Bitmap.Take.{bit, none_left, take_bit}
use mcy_os.Pid.{PidPool, allocate_pid, release_pid}

-- The numbers are 1 to 1024.
pub record IsPidPool (p : PidPool) : Type 0 where
  pub valid : Bitmap.IsValid p.pid_bitmap
  pub sized : size p.pid_bitmap ≡ 1024
  pub start : p.pid_start ≡ 1

-- Whether a task has the number.
abbrev pub in_use : PidPool → ℕ → Bool
in_use p pid = scan_test p.pid_bitmap (pid - 1)

-- Some number is not in use.
abbrev pub HasNumber : PidPool → Type 0
HasNumber p = (k : ℕ) × (1 ≤ k) × (k ≤ 1024) × (in_use p k ≡ false)

module _ (p : PidPool) (v : IsPidPool p) where
  abbrev number : ℕ → ℕ
  number bit_idx = add32 bit_idx p.pid_start % 2 ^ 16

  abbrev after_set : ℕ → Bitmap → Result (PidPool × ℕ)
  after_set bit_idx b = ok (record p { pid_bitmap = b }, number bit_idx)

  abbrev after_scan : ℕ → Result (PidPool × ℕ)
  after_scan bit_idx =
      assert (not (bit_idx == minus_one)) >> (set p.pid_bitmap bit_idx 1 >>= after_set bit_idx)

  after_scan-found :
      (i : ℕ) → (i == minus_one) ≡ false → after_scan i ≡ (set p.pid_bitmap i 1 >>= after_set i)
  after_scan-found i found = rw found

  -- While a number from 1 to 1024 is not in use, `allocate_pid` of a sound pool returns such a
  -- number, which is then in use, and the other numbers are as they were.
  pub allocate_pid_lem :
      HasNumber p
      → (p' : PidPool) × (pid : ℕ) × (allocate_pid p ≡ ok (p', pid))
        × (1 ≤ pid)
        × (pid ≤ 1024)
        × (in_use p pid ≡ false)
        × IsPidPool p'
        × ((other : ℕ)
            → 1 ≤ other
            → in_use p' other ≡ (if pid == other then true else in_use p other))
  unfolding allocate_pid
  allocate_pid_lem (free, low, high, unused) = elim (take_bit p.pid_bitmap v.valid) [
    | bit i b found not_none set_ok valid same_size (inside, clear, bits) ↦ (
      record p { pid_bitmap = b },
      i + 1,
      ap (λ m. m >>= after_scan) found
          ∙ after_scan-found i not_none
          ∙ ap (λ m. m >>= after_set i) set_ok
          ∙ ap (λ n. ok (record p { pid_bitmap = b }, n)) (omega (arith, inside, v.sized, v.start)),
      omega arith,
      omega (arith, inside, v.sized),
      subst (λ x. scan_test p.pid_bitmap x ≡ false) (omega arith) clear,
      record { valid = valid; sized = same_size ∙ v.sized; start = v.start },
      λ other pos. ground (arith, bits (other - 1), pos),
    )
    | none_left found all_set ↦
        absurd (ground (arith, all_set (free - 1) (omega (arith, low, high, v.sized)), unused))
  ]

-- A number in use that is released is not in use any more, and the others are as they were.
pub release_pid_lem :
    (p : PidPool) (pid : ℕ)
    → IsPidPool p
    → 1 ≤ pid
    → pid ≤ 1024
    → (p' : PidPool) × (release_pid pid p ≡ ok p')
      × IsPidPool p'
      × ((other : ℕ)
          → 1 ≤ other
          → in_use p' other ≡ (if pid == other then false else in_use p other))
unfolding release_pid
release_pid_lem p pid v pos small =
    let (b, s, valid, same, bits) =
      set_lem p.pid_bitmap (pid - 1) 0 v.valid (omega arith) (omega (arith, v.sized)) in
    let idx : sub32 pid p.pid_start ≡ pid - 1 = omega (arith, v.start) in
    (
      record p { pid_bitmap = b },
      ap (λ i. set p.pid_bitmap i 0 >>= λ b. ok (record p { pid_bitmap = b })) idx
          ∙ ap (λ m. m >>= λ b. ok (record p { pid_bitmap = b })) s,
      record { valid = valid; sized = same ∙ v.sized; start = v.start },
      λ other above. ground (arith, bits (other - 1), above, pos),
    )
