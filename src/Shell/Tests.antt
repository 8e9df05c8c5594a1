-- ===== src/Shell/Tests.antt =====
-- `ls  -l ` and a line of 17 words.
use mcy_os.Prelude.{ℕ, zero, suc, ◌≡◌, refl, [], ◌∷◌}
use mcy_os.Paths.{Text}
use mcy_os.Shell.{cmd_parse, parsed, overrun}
use mcy_os.Shell.Words.{words, cmd_parse_lem, judged}

abbrev list_long : Text
list_long = 108 ∷ 115 ∷ 32 ∷ 32 ∷ 45 ∷ 108 ∷ 32 ∷ []

abbrev spaced : ℕ → Text
spaced zero = []
spaced (suc n) = 97 ∷ 32 ∷ spaced n

cmd_parse_lem_example : cmd_parse list_long 32 ≡ parsed ((108 ∷ 115 ∷ []) ∷ (45 ∷ 108 ∷ []) ∷ [])
cmd_parse_lem_example = cmd_parse_lem 32 list_long

seventeen_words : judged 32 (words 32 (spaced 17)) ≡ overrun
seventeen_words = refl
