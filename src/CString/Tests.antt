-- ===== src/CString/Tests.antt =====
-- The string "hi" at address 100.
use mcy_os.Prelude.{ℕ, refl, List, [], ◌∷◌, arith}
use mcy_os.CString.{Bytes, store}
use mcy_os.CString.Strings.{Holds}

abbrev hi : List ℕ
hi = 104 ∷ 105 ∷ []

abbrev only_i : List ℕ
only_i = 105 ∷ []

abbrev memory : Bytes
memory = store 100 104 (store 101 105 (λ _. 0))

hi_at : Holds memory 100 hi
hi_at = (refl, λ e. omega arith, omega arith, (refl, λ e. omega arith, omega arith, refl))

i_at : Holds memory 101 only_i
i_at = (refl, λ e. omega arith, omega arith, refl)
