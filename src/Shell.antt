-- ===== src/Shell.antt =====
-- shell/shell.c: cmd_parse.
-- The command line is the list of its characters. An entry of `argv` is the word that its pointer
-- stands at, up to the zero byte that cmd_parse puts behind it; the entries behind the words are
-- null.
pub mod Words
mod Tests
use mcy_os.Prelude.{
  ℕ, zero, suc, ◌+◌, ◌-◌, ◌*◌, ◌/◌, ◌%◌, ◌^◌, ◌≤◌, ◌<◌, ◌≡◌, refl, sym, ap, ap₂, subst, ◌∙◌, ◌≢◌,
  ◌↔◌, ◌⊎◌, inl, inr, Bool, true, false, not, ◌&&◌, ◌||◌, Option, none, some, List, [], ◌∷◌, ◌++◌,
  arith, dec_lt, ℕ_discrete, all_below, all_below_sound, ltb, leb, ◌==◌, if◌then◌else◌, ltb→lt,
  lt→ltb, le→not_ltb, leb→le, ==_iff, ==_refl, ==_ne, Bool-cases, and_left, and_right, minus_one,
  add32, sub32, length, get_or, set, take, drop, replicate, length-append, length-set,
  get_or-set_self, get_or-set_ne, get_or-set, get_or_outside, length-replicate, get_or-replicate,
  Result, ok, panic, ◌>>=◌, ◌>>◌, assert,
}
use mcy_os.Paths.{Text}

-- `while (*next == token) next++;`
unfoldable pub skip_token : ℕ → Text → Text
skip_token token [] = []
skip_token token (c ∷ cs) = let rest = skip_token token cs in if c == token then rest else c ∷ cs

-- The inner loop: the word, and what is behind it and the character that ends it.
unfoldable pub word_of : ℕ → Text → Text
word_of token [] = []
word_of token (c ∷ cs) = let rest = word_of token cs in if c == token then [] else c ∷ rest

unfoldable pub behind_word : ℕ → Text → Text
behind_word token [] = []
behind_word token (c ∷ cs) = let rest = behind_word token cs in if c == token then cs else rest

-- How `cmd_parse` ends: with the words that it returns, with -1, or by a write behind `argv`.
pub data Parsed : Type 0 where
  parsed : List Text → Parsed
  refused : Parsed
  overrun : Parsed

-- The end of a round, behind the tokens that are skipped. `argv` has MAX_ARG_NR entries, 16.
unfoldable pub take_word : ℕ → (Text → List Text → Parsed) → Text → List Text → Parsed
take_word token next_round [] argv = parsed argv
take_word token next_round (c ∷ cs) argv =
    let next_one = next_round (behind_word token (c ∷ cs)) (argv ++ word_of token (c ∷ cs) ∷ []) in
    if leb 16 (length argv) then overrun else if ltb 16 (length argv) then refused else next_one

-- The outer loop: a round that finds a word reads some characters.
unfoldable pub parse_from : ℕ → ℕ → Text → List Text → Parsed
parse_from zero token next argv = parsed argv
parse_from (suc fuel) token next argv =
    take_word token (parse_from fuel token) (skip_token token next) argv

unfoldable pub cmd_parse : Text → ℕ → Parsed
cmd_parse cmd_str token = parse_from (length cmd_str + 1) token cmd_str []
