-- ===== src/Stdio.antt =====
-- lib/stdio.c: itoa and vsprintf. What is written at `*buf_ptr_addr` or `str` is the list of the
-- characters; the buffer is taken to be long enough. The variable arguments are a list of words and
-- strings, and a directive that finds another kind of argument, or none, is outside the model.
pub mod Digits
pub mod Formats
mod Tests
use mcy_os.Prelude.{
  ℕ, zero, suc, ◌+◌, ◌-◌, ◌*◌, ◌/◌, ◌%◌, ◌^◌, ◌≤◌, ◌<◌, ◌≡◌, refl, sym, ap, ap₂, subst, ◌∙◌, ◌≢◌,
  ◌↔◌, ◌⊎◌, inl, inr, Bool, true, false, not, ◌&&◌, ◌||◌, Option, none, some, List, [], ◌∷◌, ◌++◌,
  arith, dec_lt, ℕ_discrete, all_below, all_below_sound, ltb, leb, ◌==◌, if◌then◌else◌, ltb→lt,
  lt→ltb, le→not_ltb, leb→le, ==_iff, ==_refl, ==_ne, Bool-cases, and_left, and_right, minus_one,
  add32, sub32, length, get_or, set, take, drop, replicate, length-append, length-set,
  get_or-set_self, get_or-set_ne, get_or-set, get_or_outside, length-replicate, get_or-replicate,
  Result, ok, panic, ◌>>=◌, ◌>>◌, assert,
}
use mcy_os.Paths.{Text}

abbrev pub digit : ℕ → ℕ
digit m = if ltb m 10 then m + 48 else m + 65 - 10

-- A call for each digit, so ten are enough for a word in base 10 or 16.
unfoldable pub digits_of : ℕ → ℕ → ℕ → Text
digits_of zero value base = []
digits_of (suc fuel) value base =
    let i = value / base in
    let higher = digits_of fuel i base in
    (if i == 0 then [] else higher) ++ digit (value % base) ∷ []

unfoldable pub itoa : ℕ → ℕ → Text
itoa value base = digits_of 10 value base

pub data Arg : Type 0 where
  word : ℕ → Arg
  text : Text → Arg

-- Nothing when the arguments do not fit the format.
abbrev pub written : Text → Option Text → Option Text
written t none = none
written t (some rest) = some (t ++ rest)

-- A negative word gets a sign.
abbrev pub decimal : ℕ → Text
decimal arg_int = if leb (2 ^ 31) arg_int then 45 ∷ itoa (sub32 0 arg_int) 10 else itoa arg_int 10

-- A directive that takes a word, or one that takes a string.
abbrev pub with_word : (ℕ → Text) → (List Arg → Option Text) → List Arg → Option Text
with_word show rest [] = none
with_word show rest (word n ∷ args) = written (show n) (rest args)
with_word show rest (text t ∷ args) = none

abbrev pub with_text : (List Arg → Option Text) → List Arg → Option Text
with_text rest [] = none
with_text rest (word n ∷ args) = none
with_text rest (text t ∷ args) = written t (rest args)

-- The loop of `vsprintf` at a character of the format, which may stand behind a percent sign. There
-- any character but those of the four directives is looked at again.
unfoldable pub format_from : Bool → Text → List Arg → Option Text
format_from behind [] args = some []
format_from behind (c ∷ cs) args =
    let rest = format_from false cs in
    let percent = format_from true cs args in
    let looked_at = if c == 37 then percent else written (c ∷ []) (rest args) in
    let directive =
      if c == 115
      then with_text rest args
      else if c == 120
      then with_word (λ n. itoa n 16) rest args
      else if c == 100
      then with_word decimal rest args
      else if c == 99
      then with_word (λ n. n % 2 ^ 8 ∷ []) rest args
      else looked_at in
    if behind then directive else looked_at

unfoldable pub vsprintf : Text → List Arg → Option Text
vsprintf format args = format_from false format args
