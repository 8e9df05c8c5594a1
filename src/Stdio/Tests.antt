-- ===== src/Stdio/Tests.antt =====
-- `%d%%` in a format, and the digits of numbers.
use mcy_os.Prelude.{List, ◌-◌, ◌^◌, ◌≡◌, refl, some, [], ◌∷◌, arith}
use mcy_os.Stdio.{word, text, itoa, digits_of, vsprintf, format_from}
use mcy_os.Stdio.Formats.{Part, plain, as_text, as_decimal, as_hex, Shows, vsprintf_lem}
use mcy_os.Paths.{Text}

hex_digits : itoa 0x2f 16 ≡ 50 ∷ 70 ∷ []
unfolding itoa digits_of
hex_digits = refl

-- A second percent sign is not printed: it begins a directive itself.
double_percent : vsprintf (37 ∷ 37 ∷ 100 ∷ []) (word 7 ∷ []) ≡ some (55 ∷ [])
unfolding vsprintf format_from itoa digits_of
double_percent = refl

abbrev parts : List Part
parts =
    as_text (112 ∷ [])
    ∷ plain 61 (λ e. absurd (omega (arith, e)))
    ∷ as_decimal (2 ^ 32 - 5)
    ∷ as_hex 0x2f
    ∷ []

vsprintf_lem_example :
    (out : Text) × (vsprintf
        (37 ∷ 115 ∷ 61 ∷ 37 ∷ 100 ∷ 37 ∷ 120 ∷ [])
        (text (112 ∷ []) ∷ word (2 ^ 32 - 5) ∷ word 0x2f ∷ [])
      ≡ some out)
    × Shows parts out
vsprintf_lem_example = vsprintf_lem parts (omega arith, (omega arith, tt))
