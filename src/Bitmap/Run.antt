-- ===== src/Bitmap/Run.antt =====
-- The third loop of `bitmap_scan`: the first run of clear bits that is long enough.
use mcy_os.Prelude.{
  ℕ, zero, suc, ◌+◌, ◌-◌, ◌≤◌, ◌<◌, ◌^◌, ◌≡◌, ◌≢◌, ◌⊎◌, inl, inr, refl, true, false, arith,
  minus_one, ok, Bool-cases, add32, sub32, ℕ_discrete, dec_lt,
}
use mcy_os.Bitmap.{Bitmap, scan_test, scan_run}
use mcy_os.Bitmap.Laws.{size}

module _ (b : Bitmap) where
  -- `cnt` clear bits stand from `s` on.
  abbrev pub Free : ℕ → ℕ → Type 0
  Free s cnt = (k : ℕ) → k < cnt → scan_test b (s + k) ≡ false

  -- One of the `cnt` bits from `s` on is set.
  abbrev pub Blocked : ℕ → ℕ → Type 0
  Blocked s cnt = (k : ℕ) × (k < cnt) × (scan_test b (s + k) ≡ true)

  -- The first place with `cnt` clear bits, or -1 where there is none.
  abbrev pub FirstFit : ℕ → ℕ → Type 0
  FirstFit cnt r =
      ((r + cnt ≤ size b) × Free r cnt × ((s : ℕ) → s < r → Blocked s cnt))
      ⊎ ((r ≡ minus_one) × ((s : ℕ) → s + cnt ≤ size b → Blocked s cnt))

  module _ (cnt : ℕ) where
    run_hit :
        (n next count : ℕ)
        → next < size b
        → scan_test b next ≡ false
        → count + 1 ≡ cnt
        → scan_run b cnt (suc n) next count ≡ ok (add32 (sub32 next cnt) 1)
    unfolding scan_run
    run_hit n next count h t e = ground arith

    run_more :
        (n next count : ℕ)
        → next < size b
        → scan_test b next ≡ false
        → count + 1 ≢ cnt
        → scan_run b cnt (suc n) next count ≡ scan_run b cnt n (next + 1) (count + 1)
    unfolding scan_run
    run_more n next count h t ne = ground arith

    run_set :
        (n next count : ℕ)
        → next < size b
        → scan_test b next ≡ true
        → 0 < cnt
        → scan_run b cnt (suc n) next count ≡ scan_run b cnt n (next + 1) 0
    unfolding scan_run
    run_set n next count h t pos = ground arith

    Free-extend :
        (lo count next : ℕ)
        → lo + count ≡ next
        → Free lo count
        → scan_test b next ≡ false
        → Free lo (count + 1)
    Free-extend lo count next e free t k hk = elim (dec_lt k count) [
      | yes p ↦ free k p
      | no p ↦ let e' : lo + k ≡ next = omega arith in rw e' t
    ]

    Blocked-extend :
        (lo count next : ℕ)
        → lo + count ≡ next
        → count < cnt
        → ((s : ℕ) → s < lo → Blocked s cnt)
        → scan_test b next ≡ true
        → (s : ℕ) → s < next + 1
        → Blocked s cnt
    Blocked-extend lo count next e small before t s hs = elim (dec_lt s lo) [
      | yes p ↦ before s p
      | no p ↦ let e' : s + (next - s) ≡ next = omega arith in (next - s, omega arith, rw e' t)
    ]

    -- The loop, entered at `next` after `count` clear bits.
    pub scan_run-FirstFit :
        (n next count lo : ℕ)
        → next + n ≡ size b
        → lo + count ≡ next
        → count < cnt
        → size b < 2 ^ 31
        → Free lo count
        → ((s : ℕ) → s < lo → Blocked s cnt)
        → (r : ℕ) × (scan_run b cnt n next count ≡ ok r) × FirstFit cnt r
    unfolding scan_run
    scan_run-FirstFit zero next count lo en el small top free before =
        (minus_one, refl, inr (refl, λ s hs. before s (omega arith)))
    scan_run-FirstFit (suc n) next count lo en el small top free before =
        elim (Bool-cases (scan_test b next)) [
          | inl t ↦ rw (run_set n next count (omega arith) t (omega arith)) (
              scan_run-FirstFit n (next + 1) 0 (next + 1) (omega arith) (omega arith) (omega arith)
                top (λ k hk. absurd (omega arith)) (Blocked-extend lo count next el small before t))
          | inr t ↦ elim (ℕ_discrete (count + 1) cnt) [
            | yes e ↦ (
              lo,
              rw (run_hit n next count (omega arith) t e) (ground arith),
              inl (omega arith, rw (← e) (Free-extend lo count next el free t), before),
            )
            | no ne ↦ rw (run_more n next count (omega arith) t ne) (
                scan_run-FirstFit n (next + 1) (count + 1) lo (omega arith) (omega arith)
                  (omega arith) top (Free-extend lo count next el free t) before)
          ]
        ]
