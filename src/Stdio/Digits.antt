-- ===== src/Stdio/Digits.antt =====
-- A number is read back from the digits that `itoa` writes.
use mcy_os.Prelude.{
  true, get_or, length, all_below, all_below_sound, refl, ℕ, zero, suc, ◌+◌, ◌-◌, ◌*◌, ◌/◌, ◌%◌,
  ◌^◌, ◌<◌, ◌≡◌, refl, sym, ap, subst, ◌∙◌, ◌⊎◌, inl, inr, [], ◌∷◌, ◌++◌, arith, ltb, ◌==◌,
  if◌then◌else◌, Bool-cases,
}
use mcy_os.Paths.{Text}
use mcy_os.Stdio.{digit, digits_of, itoa}

abbrev pub digit_value : ℕ → ℕ
digit_value c = if ltb c 58 then c - 48 else c - 55

-- The number that digits stand for, behind the digits that have been read.
abbrev pub read_digits : ℕ → Text → ℕ → ℕ
read_digits base [] value = value
read_digits base (c ∷ cs) value = read_digits base cs (value * base + digit_value c)

read_digits-append :
    (base : ℕ) (t : Text) (c value : ℕ)
    → read_digits base (t ++ c ∷ []) value ≡ read_digits base t value * base + digit_value c
read_digits-append base [] c value = refl
read_digits-append base (x ∷ xs) c value =
    read_digits-append base xs c (value * base + digit_value x)

-- More than any number with so many digits.
abbrev above : ℕ → ℕ → ℕ
above base zero = 1
above base (suc n) = above base n * base

-- The bases that the kernel uses.
abbrev pub IsBase : ℕ → Type 0
IsBase base = (base ≡ 10) ⊎ (base ≡ 16)

digit-value : (m : ℕ) → m < 16 → digit_value (digit m) ≡ m
digit-value m h = ground arith

read_step : (base v : ℕ) → IsBase base → v / base * base + digit_value (digit (v % base)) ≡ v
read_step base v (inl e) = rw e (omega (arith, digit-value (v % 10) (omega arith)))
read_step base v (inr e) = rw e (omega (arith, digit-value (v % 16) (omega arith)))

smaller : (base v bound : ℕ) → IsBase base → v < bound * base → v / base < bound
smaller base v bound (inl e) h =
    let h' : v < bound * 10 = subst (λ b. v < bound * b) e h in rw e (omega (arith, h'))
smaller base v bound (inr e) h =
    let h' : v < bound * 16 = subst (λ b. v < bound * b) e h in rw e (omega (arith, h'))

digits_of_lem :
    (fuel v base : ℕ)
    → IsBase base
    → v < above base fuel
    → read_digits base (digits_of fuel v base) 0 ≡ v
unfolding digits_of
digits_of_lem zero v base known h = omega arith
digits_of_lem (suc fuel) v base known h =
    let i = v / base in
    let c = digit (v % base) in
    let higher = digits_of_lem fuel i base known (smaller base v (above base fuel) known h) in
    let front : read_digits base (if i == 0 then [] else digits_of fuel i base) 0 ≡ i =
      elim (Bool-cases (i == 0)) [ inl e ↦ rw e (ground (arith, e)) | inr e ↦ rw e higher ] in
    read_digits-append base (if i == 0 then [] else digits_of fuel i base) c 0
    ∙ ap (λ x. x * base + digit_value c) front
    ∙ read_step base v known

ten_digits : (v base : ℕ) → IsBase base → v < 2 ^ 32 → v < above base 10
ten_digits v base (inl e) h = subst (λ b. v < above b 10) (sym e) (omega (arith, h))
ten_digits v base (inr e) h = subst (λ b. v < above b 10) (sym e) (omega (arith, h))

-- The digit with the value `d`, from `0123456789ABCDEF`.
abbrev pub symbol : ℕ → ℕ
symbol d =
    get_or (48 ∷ 49 ∷ 50 ∷ 51 ∷ 52 ∷ 53 ∷ 54 ∷ 55 ∷ 56 ∷ 57 ∷ 65 ∷ 66 ∷ 67 ∷ 68 ∷ 69 ∷ 70 ∷ []) d 0

-- The numeral of a number: no zero stands before it.
pub data IsNumeral (base : ℕ) : ℕ → Text → Type 0 where
  one_digit : (d : ℕ) → d < base → IsNumeral base d (symbol d ∷ [])
  more_digits :
      (v d : ℕ) (t : Text)
      → 0 < v
      → d < base
      → IsNumeral base v t
      → IsNumeral base (v * base + d) (t ++ symbol d ∷ [])

snoc-some : (t : Text) (c : ℕ) → t ++ c ∷ [] ≡ [] → ⊥
snoc-some [] c e = absurd (ground (arith, ap length e))
snoc-some (x ∷ xs) c e = absurd (ground (arith, ap length e))

empty_numeral : (base v : ℕ) (t : Text) → IsNumeral base v t → t ≡ [] → ⊥
empty_numeral base v t (one_digit d h) e = snoc-some [] (symbol d) e
empty_numeral base v t (more_digits u d t' pos h n) e = snoc-some t' (symbol d) e

pub IsNumeral-some : (base v : ℕ) → IsNumeral base v [] → ⊥
IsNumeral-some base v n = empty_numeral base v [] n refl

digits_agree : all_below 16 (λ d. digit d == symbol d) ≡ true
unfolding all_below
digits_agree = refl

digit-symbol : (d : ℕ) → d < 16 → digit d ≡ symbol d
digit-symbol d h =
    let same = all_below_sound 16 (λ d. digit d == symbol d) d digits_agree h in
    ground (arith, same)

last_digit :
    (base v : ℕ)
    → IsBase base
    → (v % base < base) × (v % base < 16) × (v / base * base + v % base ≡ v)
last_digit base v (inl e) = rw e (omega arith, omega arith, omega arith)
last_digit base v (inr e) = rw e (omega arith, omega arith, omega arith)

IsNumeral-digits_of :
    (fuel v base : ℕ)
    → IsBase base
    → 0 < v + fuel
    → v < above base fuel
    → IsNumeral base v (digits_of fuel v base)
unfolding digits_of
IsNumeral-digits_of zero v base known some_digit h = absurd (omega (arith, some_digit))
IsNumeral-digits_of (suc fuel) v base known some_digit h =
    let (below, in_table, whole) = last_digit base v known in
    let d = v % base in
    elim (Bool-cases (v / base == 0)) [
      | inl e ↦
          let no_more : v / base ≡ 0 = ground (arith, e) in
          let same : d ≡ v = omega (arith, whole, ap (λ q. q * base + d) no_more) in
          rw (e, digit-symbol d in_table)
            (subst (λ w. IsNumeral base w (symbol d ∷ [])) same (one_digit d below))
      | inr e ↦
          let pos : 0 < v / base = ground (arith, e) in
          rw (e, digit-symbol d in_table)
            (subst (λ w. IsNumeral base w (digits_of fuel (v / base) base ++ symbol d ∷ [])) whole
              (more_digits (v / base) d (digits_of fuel (v / base) base) pos below (
                IsNumeral-digits_of fuel (v / base) base known (omega (arith, pos))
                  (smaller base v (above base fuel) known h))))
    ]

-- The digits that `itoa` writes for a word in base 10 or 16 are its numeral.
pub IsNumeral-itoa : (v base : ℕ) → IsBase base → v < 2 ^ 32 → IsNumeral base v (itoa v base)
unfolding itoa
IsNumeral-itoa v base known h =
    IsNumeral-digits_of 10 v base known (omega arith) (ten_digits v base known h)

-- The digits that `itoa` writes for a word in base 10 or 16 stand for that word.
pub read_digits-itoa :
    (v base : ℕ) → IsBase base → v < 2 ^ 32 → read_digits base (itoa v base) 0 ≡ v
unfolding itoa
read_digits-itoa v base known h = digits_of_lem 10 v base known (ten_digits v base known h)
