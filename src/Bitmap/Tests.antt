-- ===== src/Bitmap/Tests.antt =====
-- Bit maps of two bytes.
use mcy_os.Prelude.{
  ℕ, zero, suc, ◌<◌, ◌≡◌, refl, false, [], ◌∷◌, arith, minus_one, get_or, ok, panic, ◌>>=◌,
}
use mcy_os.Bitmap.{
  Bitmap, IsValid, scan_test, scan, set, scan_from, scan_run, first_clear, skip_full, set_byte,
}
use mcy_os.Bitmap.Run.{FirstFit}
use mcy_os.Bitmap.Scan.{scan-FirstFit}

-- Bits 0 to 7, 8 and 10 are set.
abbrev some_used : Bitmap
some_used = record { btmp_bytes_len = 2; bits = 0xff ∷ 0x05 ∷ [] }

some_used_bytes : (i : ℕ) → get_or some_used.bits i 0 < 256
some_used_bytes zero = omega arith
some_used_bytes (suc zero) = omega arith
some_used_bytes (suc (suc i)) = omega arith

some_used-IsValid : IsValid some_used
some_used-IsValid = record { sized = refl; small = omega arith; bytes = some_used_bytes }

scan_one : scan some_used 1 ≡ ok 9
unfolding scan scan_from scan_run first_clear skip_full scan_test
scan_one = refl

scan_three : scan some_used 3 ≡ ok 11
unfolding scan scan_from scan_run first_clear skip_full scan_test
scan_three = refl

scan_six : scan some_used 6 ≡ ok minus_one
unfolding scan scan_from scan_run first_clear skip_full scan_test
scan_six = refl

scan_none : scan some_used 0 ≡ panic
unfolding scan
scan_none = refl

clear_then_test : (set some_used 3 0 >>= λ b. ok (scan_test b 3)) ≡ ok false
unfolding set set_byte scan_test
clear_then_test = refl

scan-FirstFit_example : (r : ℕ) × (scan some_used 3 ≡ ok r) × FirstFit some_used 3 r
scan-FirstFit_example = scan-FirstFit some_used some_used-IsValid 3 (omega arith)
