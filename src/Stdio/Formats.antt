-- ===== src/Stdio/Formats.antt =====
-- What `vsprintf` writes for a format made of plain characters and directives.
use mcy_os.Prelude.{
  refl, false, inl, inr, ◌≤◌, ℕ, ◌-◌, ◌%◌, ◌^◌, ◌<◌, ◌≡◌, refl, ap, ◌≢◌, true, false, some, List,
  [], ◌∷◌, ◌++◌, arith, dec_lt, ltb, leb, if◌then◌else◌, lt→ltb, ==_ne, sub32,
}
use mcy_os.Paths.{Text}
use mcy_os.Stdio.Digits.{IsNumeral, IsNumeral-some, IsNumeral-itoa}
use mcy_os.Stdio.{Arg, word, text, written, decimal, itoa, format_from, vsprintf}

-- A part of a format with the argument that it takes.
pub data Part : Type 0 where
  plain : (c : ℕ) → c ≢ 37 → Part
  as_text : Text → Part
  as_hex as_decimal as_char : ℕ → Part

abbrev pub format_of : List Part → Text
format_of [] = []
format_of (plain c _ ∷ ps) = c ∷ format_of ps
format_of (as_text t ∷ ps) = 37 ∷ 115 ∷ format_of ps
format_of (as_hex n ∷ ps) = 37 ∷ 120 ∷ format_of ps
format_of (as_decimal n ∷ ps) = 37 ∷ 100 ∷ format_of ps
format_of (as_char n ∷ ps) = 37 ∷ 99 ∷ format_of ps

abbrev pub args_of : List Part → List Arg
args_of [] = []
args_of (plain _ _ ∷ ps) = args_of ps
args_of (as_text t ∷ ps) = text t ∷ args_of ps
args_of (as_hex n ∷ ps) = word n ∷ args_of ps
args_of (as_decimal n ∷ ps) = word n ∷ args_of ps
args_of (as_char n ∷ ps) = word n ∷ args_of ps

-- A word with its sign, in base 10.
abbrev pub IsDecimal : ℕ → Text → Type 0
IsDecimal n [] = ⊥
IsDecimal n (c ∷ t) =
    if ltb n (2 ^ 31) then IsNumeral 10 n (c ∷ t) else (c ≡ 45) × IsNumeral 10 (2 ^ 32 - n) t

-- What is to be written for the parts.
pub data Shows : List Part → Text → Type 0 where
  nothing : Shows [] []
  one_plain :
      (c : ℕ) (ne : c ≢ 37) (ps : List Part) (out : Text)
      → Shows ps out
      → Shows (plain c ne ∷ ps) (c ∷ out)
  one_text :
      (t : Text) (ps : List Part) (out : Text) → Shows ps out → Shows (as_text t ∷ ps) (t ++ out)
  one_hex :
      (n : ℕ) (t : Text) (ps : List Part) (out : Text)
      → IsNumeral 16 n t
      → Shows ps out
      → Shows (as_hex n ∷ ps) (t ++ out)
  one_decimal :
      (n : ℕ) (t : Text) (ps : List Part) (out : Text)
      → IsDecimal n t
      → Shows ps out
      → Shows (as_decimal n ∷ ps) (t ++ out)
  one_char :
      (n : ℕ) (ps : List Part) (out : Text) → Shows ps out → Shows (as_char n ∷ ps) (n % 256 ∷ out)

abbrev pub AreWords : List Part → Type 0
AreWords [] = Unit
AreWords (as_hex n ∷ ps) = (n < 2 ^ 32) × AreWords ps
AreWords (as_decimal n ∷ ps) = (n < 2 ^ 32) × AreWords ps
AreWords (_ ∷ ps) = AreWords ps

IsDecimal-minus :
    (n : ℕ) (t : Text) → 2 ^ 31 ≤ n → IsNumeral 10 (2 ^ 32 - n) t → IsDecimal n (45 ∷ t)
IsDecimal-minus n t large numeral =
    let test : ltb n (2 ^ 31) ≡ false = ground (arith, large) in rw test (refl, numeral)

IsDecimal-plain : (n : ℕ) (t : Text) → n < 2 ^ 31 → IsNumeral 10 n t → IsDecimal n t
IsDecimal-plain n [] small numeral = IsNumeral-some 10 n numeral
IsDecimal-plain n (c ∷ t) small numeral = rw (lt→ltb n (2 ^ 31) small) numeral

IsDecimal-decimal : (n : ℕ) → n < 2 ^ 32 → IsDecimal n (decimal n)
IsDecimal-decimal n h = elim (dec_lt n (2 ^ 31)) [
  | yes small ↦
      let test : leb (2 ^ 31) n ≡ false = ground (arith, small) in
      rw test (
        IsDecimal-plain n (itoa n 10) small (IsNumeral-itoa n 10 (inl refl) (omega (arith, small))))
  | no large ↦
      let test : leb (2 ^ 31) n ≡ true = ground (arith, large) in
      let magnitude : sub32 0 n ≡ 2 ^ 32 - n = omega (arith, h, large) in
      rw (test, magnitude)
        (IsDecimal-minus n (itoa (2 ^ 32 - n) 10) (omega (arith, large))
          (IsNumeral-itoa (2 ^ 32 - n) 10 (inl refl) (omega (arith, large))))
]

-- The characters that `vsprintf` stores for plain characters and directives whose arguments are of
-- their kind, words of 32 bits among them: a plain character itself, for `%s` the string, for `%x`
-- the digits of the word in base 16, with the letters A to F, for `%d` its digits in base 10 with
-- its sign, and for `%c` its low byte. The number that is returned and a zero byte behind the
-- characters are not looked at.
pub vsprintf_lem :
    (parts : List Part)
    → AreWords parts
    → (out : Text) × (vsprintf (format_of parts) (args_of parts) ≡ some out) × Shows parts out
unfolding vsprintf format_from
vsprintf_lem [] h = ([], refl, nothing)
vsprintf_lem (plain c ne ∷ ps) h =
    let (out, e, s) = vsprintf_lem ps h in
    (c ∷ out, rw (==_ne c 37 ne) (ap (written (c ∷ [])) e), one_plain c ne ps out s)
vsprintf_lem (as_text t ∷ ps) h =
    let (out, e, s) = vsprintf_lem ps h in (t ++ out, ap (written t) e, one_text t ps out s)
vsprintf_lem (as_hex n ∷ ps) h =
    let (out, e, s) = vsprintf_lem ps h.1 in
    let digits = IsNumeral-itoa n 16 (inr refl) (h.0) in
    (itoa n 16 ++ out, ap (written (itoa n 16)) e, one_hex n (itoa n 16) ps out digits s)
vsprintf_lem (as_decimal n ∷ ps) h =
    let (out, e, s) = vsprintf_lem ps h.1 in
    let digits = IsDecimal-decimal n (h.0) in
    (decimal n ++ out, ap (written (decimal n)) e, one_decimal n (decimal n) ps out digits s)
vsprintf_lem (as_char n ∷ ps) h =
    let (out, e, s) = vsprintf_lem ps h in
    (n % 256 ∷ out, ap (written (n % 256 ∷ [])) e, one_char n ps out s)
