-- ===== src/Prelude/Bytes.antt =====
-- A test run over every number below a limit.
use Prim.Native.Nat.{ℕ, zero, suc, ◌<◌}
use mathlib.Core.Path.{◌≡◌}
use mathlib.Core.Bool.{Bool, true, false}
use native.Mathlib.Omega.{arith}
use mcy_os.Prelude.Tests.{if◌then◌else◌}

unfoldable pub all_below : ℕ → (ℕ → Bool) → Bool
all_below zero test = true
all_below (suc limit) test = if test limit then all_below limit test else false

pub all_below_sound :
    (limit : ℕ) (test : ℕ → Bool) (k : ℕ) → all_below limit test ≡ true → k < limit → test k ≡ true
unfolding all_below
all_below_sound zero test k passed = λ below. elim below [ ]
all_below_sound (suc limit) test k passed =
    let earlier = all_below_sound limit test k in λ below. ground (arith, earlier)
