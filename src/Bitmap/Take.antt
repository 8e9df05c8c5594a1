-- ===== src/Bitmap/Take.antt =====
-- A single clear bit is looked for and set: what the allocators by bit maps have in common.
use mcy_os.Prelude.{
  ℕ, ◌<◌, ◌≡◌, ap, subst, ◌∙◌, inl, inr, true, false, arith, ◌==◌, if◌then◌else◌, minus_one, ok,
}
use mcy_os.Bitmap.{Bitmap, IsValid, scan, set, scan_test}
use mcy_os.Bitmap.Laws.{size, set_lem}
use mcy_os.Bitmap.Run.{FirstFit}
use mcy_os.Bitmap.Scan.{scan-FirstFit}

-- The bit at `i` was clear and is set, and all others are as they were.
abbrev pub Takes : Bitmap → Bitmap → ℕ → Type 0
Takes b b' i =
    (i < size b)
    × (scan_test b i ≡ false)
    × ((j : ℕ) → scan_test b' j ≡ (if i == j then true else scan_test b j))

abbrev pub AllSet : Bitmap → Type 0
AllSet b = (i : ℕ) → i < size b → scan_test b i ≡ true

-- The two outcomes of a search for one bit.
pub data Found (b : Bitmap) : Type 0 where
  bit :
      (i : ℕ) (b' : Bitmap)
      → scan b 1 ≡ ok i
      → (i == minus_one) ≡ false
      → set b i 1 ≡ ok b'
      → IsValid b'
      → size b' ≡ size b
      → Takes b b' i
      → Found b
  none_left : scan b 1 ≡ ok minus_one → AllSet b → Found b

pub take_bit : (b : Bitmap) → IsValid b → Found b
take_bit b v = let (r, e, fit) = scan-FirstFit b v 1 (omega arith) in found r e fit
  where
    found : (r : ℕ) → scan b 1 ≡ ok r → FirstFit b 1 r → Found b
    found r e (inl (inside, free, _)) =
        let (b', s, v', same, bits) = set_lem b r 1 v (omega arith) (omega (arith, inside)) in
        let clear : scan_test b r ≡ false =
          subst (λ k. scan_test b k ≡ false) (omega arith) (free 0 (omega arith)) in
        bit r b' e (ground (arith, inside, v.small)) s v' same (omega (arith, inside), clear, bits)
    found r e (inr (is_none, blocked)) = none_left (e ∙ ap ok is_none) (λ i below.
        let (k, small, taken) = blocked i (omega arith) in
        subst (λ x. scan_test b x ≡ true) (omega (arith, small)) taken)
