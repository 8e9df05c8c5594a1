-- ===== src/Bitmap/Scan.antt =====
-- `bitmap_scan` finds the first run of clear bits that is long enough, or answers -1.
use mcy_os.Prelude.{
  ℕ, zero, suc, ◌+◌, ◌-◌, ◌*◌, ◌/◌, ◌%◌, ◌≤◌, ◌<◌, ◌≡◌, refl, ◌≢◌, inl, inr, true, false, not,
  arith, dec_lt, ℕ_discrete, leb, ==_iff, ==_ne, minus_one, get_or, ok,
}
use mcy_os.Bitmap.{Bitmap, IsValid, scan_test, skip_full, first_clear, scan_from, scan}
use mcy_os.Bitmap.Byte.{clear, first_clear_lem, clear_full}
use mcy_os.Bitmap.Laws.{size}
use mcy_os.Bitmap.Run.{Free, Blocked, FirstFit, scan_run-FirstFit}

-- All bytes before `i` are full.
abbrev Full : Bitmap → ℕ → Type 0
Full b i = (j : ℕ) → j < i → get_or b.bits j 0 ≡ 255

Full-suc : (b : Bitmap) (i : ℕ) → Full b i → get_or b.bits i 0 ≡ 255 → Full b (i + 1)
Full-suc b i full f j hj = elim (dec_lt j i) [
  | yes p ↦ full j p
  | no p ↦ let e : j ≡ i = omega arith in rw e f
]

-- The first loop stops at the first byte that is not full, or at the end.
skip_full_lem :
    (b : Bitmap) (n i : ℕ)
    → i + n ≡ b.btmp_bytes_len
    → Full b i
    → let r = skip_full b.bits n i in
      (r ≤ b.btmp_bytes_len) × Full b r × (r ≢ b.btmp_bytes_len → get_or b.bits r 0 ≢ 255)
unfolding skip_full
skip_full_lem b zero i e full = (omega arith, full, λ ne. absurd (ne (omega arith)))
skip_full_lem b (suc n) i e full = elim (ℕ_discrete (get_or b.bits i 0) 255) [
  | yes f ↦ rw ((==_iff _ _).1 f) (skip_full_lem b n (i + 1) (omega arith) (Full-suc b i full f))
  | no ne ↦ rw (==_ne _ _ ne) (omega arith, full, λ _. ne)
]

Full-set : (b : Bitmap) (i s : ℕ) → Full b i → s < i * 8 → scan_test b s ≡ true
unfolding scan_test
Full-set b i s full h = ground (arith, full (s / 8), clear_full (s % 8))

test_at :
    (b : Bitmap) (i p : ℕ) → p < 8 → scan_test b (i * 8 + p) ≡ not (clear (get_or b.bits i 0) p)
unfolding scan_test
test_at b i p h =
    let d : (i * 8 + p) / 8 ≡ i = omega arith in
    let m : (i * 8 + p) % 8 ≡ p = omega arith in rw (d, m)

assert_le : (a c : ℕ) → a ≤ c → leb a c ≡ true
assert_le a c h = ground arith

module _ (b : Bitmap) (v : IsValid b) (cnt : ℕ) (pos : 1 ≤ cnt) where
  module _ (i : ℕ) (hi : i < b.btmp_bytes_len) (full : Full b i)
      (ne : get_or b.bits i 0 ≢ 255) where
    at : ℕ
    at = first_clear 8 (get_or b.bits i 0) 0

    at_lem :
        (q : ℕ)
        → q < 8
        → (at < 8)
          × (clear (get_or b.bits i 0) at ≡ true)
          × (q < at → clear (get_or b.bits i 0) q ≡ false)
    unfolding at
    at_lem q hq = first_clear_lem (get_or b.bits i 0) q (omega (arith, v.bytes i)) hq

    at-lt : at < 8
    at-lt = (at_lem 0 (omega arith)).0

    start_test : scan_test b (i * 8 + at) ≡ false
    start_test = ground (arith, at_lem 0, test_at b i at)

    Free-start : Free b (i * 8 + at) 1
    Free-start k hk = let e : i * 8 + at + k ≡ i * 8 + at = omega arith in rw e start_test

    set_before : (s : ℕ) → s < i * 8 + at → scan_test b s ≡ true
    set_before s hs = elim (dec_lt s (i * 8)) [
      | yes p ↦ Full-set b i s full p
      | no p ↦
          let e : s ≡ i * 8 + (s - i * 8) = omega arith in
          rw e (ground (arith, at-lt, at_lem (s - i * 8), test_at b i (s - i * 8)))
    ]

    before : (s : ℕ) → s < i * 8 + at → Blocked b s cnt
    before s hs = (0, pos, let e : s + 0 ≡ s = omega arith in rw e (set_before s hs))

    scan_from-FirstFit : (r : ℕ) × (scan_from b cnt i ≡ ok r) × FirstFit b cnt r
    unfolding scan_from at
    scan_from-FirstFit = elim (ℕ_discrete cnt 1) [
      | yes one ↦
          rw one (i * 8 + at, refl, inl (omega (arith, at-lt), Free-start, rw one at before))
      | no many ↦ rw (==_ne _ _ many) (
          scan_run-FirstFit b cnt _ (i * 8 + at + 1) 1 (i * 8 + at) (omega (arith, at-lt)) refl
            (omega arith) (omega (arith, v.small)) Free-start before)
    ]

  -- In a valid map, asked for at least one bit, `bitmap_scan` does not stop the machine. It returns
  -- the lowest index from which `cnt` bits are clear, or -1, and then no `cnt` bits in a row are.
  pub scan-FirstFit : (r : ℕ) × (scan b cnt ≡ ok r) × FirstFit b cnt r
  unfolding scan
  scan-FirstFit = rw (assert_le 1 cnt pos) (elim (ℕ_discrete found b.btmp_bytes_len) [
    | yes e ↦ rw ((==_iff _ _).1 e) (minus_one, refl, inr (refl, all_set e))
    | no ne ↦
        rw (==_ne _ _ ne) (scan_from-FirstFit found (omega (arith, first)) first.1 (first.2 ne))
  ])
    where
      found : ℕ
      found = skip_full b.bits b.btmp_bytes_len 0

      first :
          (found ≤ b.btmp_bytes_len)
          × Full b found
          × (found ≢ b.btmp_bytes_len → get_or b.bits found 0 ≢ 255)
      first = skip_full_lem b b.btmp_bytes_len 0 (omega arith) (λ j h. absurd (omega arith))

      all_set : found ≡ b.btmp_bytes_len → (s : ℕ) → s + cnt ≤ size b → Blocked b s cnt
      all_set e s hs =
          let z : s + 0 ≡ s = omega arith in
          (0, pos, rw z (Full-set b found s first.1 (omega arith)))
