-- ===== src/Shell/Words.antt =====
-- The words of a command line.
use mcy_os.Prelude.{
  ℕ, zero, suc, ◌+◌, ◌≤◌, ◌<◌, ◌≡◌, refl, sym, ap, ◌∙◌, inl, inr, true, false, List, [], ◌∷◌, ◌++◌,
  arith, dec_lt, ltb, leb, ◌==◌, if◌then◌else◌, Bool-cases, length, get_or, length-append,
}
use mathlib.Core.List.{append_assoc, append-nil}
use mcy_os.Paths.{Text}
use mcy_os.Paths.Names.{with_name}
use mcy_os.Shell.{
  skip_token, word_of, behind_word, Parsed, parsed, overrun, take_word, parse_from, cmd_parse,
}

module _ (token : ℕ) where
  -- What stands between tokens, where something does.
  abbrev pub words_from : Text → Text → List Text
  words_from cur [] = with_name cur []
  words_from cur (c ∷ cs) =
      if c == token then with_name cur (words_from [] cs) else words_from (cur ++ c ∷ []) cs

  abbrev pub words : Text → List Text
  words = words_from []

  words_from-word_of :
      (cur next : Text)
      → words_from cur next ≡ with_name (cur ++ word_of token next) (words (behind_word token next))
  unfolding word_of behind_word
  words_from-word_of cur [] = ap (λ t. with_name t []) (sym (append-nil cur))
  words_from-word_of cur (c ∷ cs) = elim (Bool-cases (c == token)) [
    | inl e ↦ rw (e, append-nil cur)
    | inr e ↦ rw e (
        words_from-word_of (cur ++ c ∷ []) cs
        ∙ ap (λ t. with_name t (words (behind_word token cs)))
            (append_assoc cur (c ∷ []) (word_of token cs)))
  ]

  words-skip_token : (next : Text) → words (skip_token token next) ≡ words next
  unfolding skip_token
  words-skip_token [] = refl
  words-skip_token (c ∷ cs) = elim (Bool-cases (c == token)) [
    | inl e ↦ rw e (words-skip_token cs)
    | inr e ↦ rw e (rw e)
  ]

  length-skip_token : (next : Text) → length (skip_token token next) ≤ length next
  unfolding skip_token
  length-skip_token [] = omega arith
  length-skip_token (c ∷ cs) = ground (arith, length-skip_token cs)

  length-behind_word :
      (next : Text) → length (behind_word token next) + length (word_of token next) ≤ length next
  unfolding behind_word word_of
  length-behind_word [] = omega arith
  length-behind_word (c ∷ cs) = ground (arith, length-behind_word cs)

  skip_token-head :
      (next : Text) (c : ℕ) (cs : Text) → skip_token token next ≡ c ∷ cs → (c == token) ≡ false
  unfolding skip_token
  skip_token-head [] c cs = λ e. absurd (omega (arith, ap length e))
  skip_token-head (x ∷ xs) c cs = elim (Bool-cases (x == token)) [
    | inl e ↦ rw e (skip_token-head xs c cs)
    | inr e ↦ rw e (λ same. ap (λ t. get_or t 0 token == token) (sym same) ∙ e)
  ]

  -- A line with more words than `argv` has entries is not refused.
  abbrev pub judged : List Text → Parsed
  judged ws = if leb (length ws) 16 then parsed ws else overrun

  first_word :
      (c : ℕ) (cs : Text)
      → (c == token) ≡ false
      → words (c ∷ cs) ≡ word_of token (c ∷ cs) ∷ words (behind_word token (c ∷ cs))
  unfolding word_of
  first_word c cs apart =
      let later = words (behind_word token (c ∷ cs)) in
      let named : word_of token (c ∷ cs) ≡ c ∷ word_of token cs = rw apart in
      words_from-word_of [] (c ∷ cs)
      ∙ ap (λ t. with_name t later) named
      ∙ ap (λ t. t ∷ later) (sym named)

  shorter :
      (c : ℕ) (cs : Text)
      → (c == token) ≡ false
      → length (behind_word token (c ∷ cs)) < length (c ∷ cs)
  unfolding word_of
  shorter c cs apart =
      let named : length (word_of token (c ∷ cs)) ≡ suc (length (word_of token cs)) = rw apart in
      omega (arith, length-behind_word (c ∷ cs), named)

  -- A round, when the later rounds do what they should.
  take_word_lem :
      (fuel : ℕ) (next_round : Text → List Text → Parsed) (next : Text) (argv : List Text)
      (p : Text)
      → ((rest : Text) (argv' : List Text)
          → length rest < fuel
          → length argv' ≤ 16
          → next_round rest argv' ≡ judged (argv' ++ words rest))
      → length next < suc fuel
      → length argv ≤ 16
      → skip_token token next ≡ p
      → take_word token next_round p argv ≡ judged (argv ++ words p)
  unfolding take_word
  take_word_lem fuel next_round next argv [] later enough room e =
      let fits : leb (length argv) 16 ≡ true = ground (arith, room) in rw (append-nil argv, fits)
  take_word_lem fuel next_round next argv (c ∷ cs) later enough room e =
      let apart = skip_token-head next c cs e in
      let w = word_of token (c ∷ cs) in
      let rest = behind_word token (c ∷ cs) in
      let split : argv ++ words (c ∷ cs) ≡ argv ++ w ∷ words rest =
        ap (λ ws. argv ++ ws) (first_word c cs apart) in
      let long : length (c ∷ cs) ≤ length next =
        omega (arith, length-skip_token next, ap length e) in
      elim (dec_lt (length argv) 16) [
        | yes less ↦
            let not_full : leb 16 (length argv) ≡ false = ground (arith, less) in
            let not_over : ltb 16 (length argv) ≡ false = ground (arith, less) in
            rw (not_full, not_over)
              (later rest (argv ++ w ∷ []) (omega (arith, shorter c cs apart, long, enough))
                  (omega (arith, length-append argv (w ∷ []), less))
                ∙ ap judged (append_assoc argv (w ∷ []) (words rest) ∙ sym split))
        | no more ↦
            let full : leb 16 (length argv) ≡ true = ground (arith, more) in
            let number : length (argv ++ words (c ∷ cs)) ≡ length argv + suc (length (words rest)) =
              ap length split ∙ length-append argv (w ∷ words rest) in
            let too_many : leb (length (argv ++ words (c ∷ cs))) 16 ≡ false =
              ground (arith, number, more) in
            rw (full, too_many)
      ]

  parse_from_lem :
      (fuel : ℕ) (next : Text) (argv : List Text)
      → length next < fuel
      → length argv ≤ 16
      → parse_from fuel token next argv ≡ judged (argv ++ words next)
  unfolding parse_from
  parse_from_lem zero next argv enough room = absurd (omega arith)
  parse_from_lem (suc fuel) next argv enough room =
      take_word_lem fuel (parse_from fuel token) next argv (skip_token token next)
        (λ rest argv'. parse_from_lem fuel rest argv') enough room refl
      ∙ ap (λ ws. judged (argv ++ ws)) (words-skip_token next)

  -- `cmd_parse` stores the words of the line, what stands between tokens, if there are no more than
  -- 16, and returns. With more words it writes behind `argv`, and never returns -1 before that.
  pub cmd_parse_lem : (line : Text) → cmd_parse line token ≡ judged (words line)
  unfolding cmd_parse
  cmd_parse_lem line = parse_from_lem (length line + 1) line [] (omega arith) (omega arith)
