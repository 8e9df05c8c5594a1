-- ===== src/Paths/Tests.antt =====
-- `/a/./bc//../d`, and `..` seen from `/a`.
use mcy_os.Prelude.{arith, ◌≡◌, refl, some, [], ◌∷◌, ok}
use mcy_os.Paths.{Text, slash, dot, wash_path, path_parse, name_of, behind_name, skip_slashes}
use mcy_os.Paths.Washing.{wash_path_lem}

abbrev long_path : Text
long_path =
    slash ∷ 97 ∷ slash ∷ dot ∷ slash ∷ 98 ∷ 99 ∷ slash ∷ slash ∷ dot ∷ dot ∷ slash ∷ 100 ∷ []

parse_first : path_parse (slash ∷ slash ∷ 97 ∷ slash ∷ 98 ∷ []) ≡ (97 ∷ [], some (slash ∷ 98 ∷ []))
unfolding path_parse name_of behind_name skip_slashes
parse_first = refl

wash_path_lem_example : wash_path long_path ≡ ok (slash ∷ 97 ∷ slash ∷ 100 ∷ [])
wash_path_lem_example =
    wash_path_lem long_path refl
      (omega arith, (omega arith, (omega arith, (omega arith, (omega arith, tt)))))
