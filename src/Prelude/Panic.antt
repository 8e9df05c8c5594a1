-- ===== src/Prelude/Panic.antt =====
-- What a kernel function returns that may stop the machine: `ASSERT` and `PANIC` both end in
-- `panic_spin` (lib/kernel/debug.c), which never returns.
use mathlib.Core.Bool.{Bool, true, false}

pub data Result {ℓ} (A : Type ℓ) : Type ℓ where
  panic : Result A
  ok : A → Result A

module _ {ℓ κ} {A : Type ℓ} {B : Type κ} where
  infixl 5 ◌>>=◌ ◌>>◌
  abbrev pub ◌>>=◌ : Result A → (A → Result B) → Result B
  panic >>= next = panic
  ok value >>= next = next value

  abbrev pub ◌>>◌ : Result A → Result B → Result B
  panic >> after = panic
  ok _ >> after = after

-- `ASSERT(condition)`
abbrev pub assert : Bool → Result (Unit {0})
assert condition = elim condition [ true ↦ ok tt | false ↦ panic ]
