-- ===== src/Paths.antt =====
-- Paths: fs/fs.c (path_parse, path_depth_cnt) and shell/buildin_cmd.c (wash_path,
-- make_clear_abs_path).
-- A string is the list of its characters, without the zero byte that ends it, and a pointer into it
-- is what is left from there on. The array for a name has MAX_FILE_NAME_LEN = 16 characters, the
-- zero byte included: where a loop uses a name that is longer, the source has written past it, and
-- the model stops. The other buffers are taken to be long enough.
pub mod Names
pub mod Washing
mod Tests
use mcy_os.Prelude.{
  ℕ, zero, suc, ◌+◌, ◌-◌, ◌*◌, ◌/◌, ◌%◌, ◌^◌, ◌≤◌, ◌<◌, ◌≡◌, refl, sym, ap, ap₂, subst, ◌∙◌, ◌≢◌,
  ◌↔◌, ◌⊎◌, inl, inr, Bool, true, false, not, ◌&&◌, ◌||◌, Option, none, some, List, [], ◌∷◌, ◌++◌,
  arith, dec_lt, ℕ_discrete, all_below, all_below_sound, ltb, leb, ◌==◌, if◌then◌else◌, ltb→lt,
  lt→ltb, le→not_ltb, leb→le, ==_iff, ==_refl, ==_ne, Bool-cases, and_left, and_right, minus_one,
  add32, sub32, length, get_or, set, take, drop, replicate, length-append, length-set,
  get_or-set_self, get_or-set_ne, get_or-set, get_or_outside, length-replicate, get_or-replicate,
  Result, ok, panic, ◌>>=◌, ◌>>◌, assert,
}

abbrev pub Text : Type 0
Text = List ℕ

abbrev pub slash : ℕ
slash = 47

abbrev pub max_file_name_len : ℕ
max_file_name_len = 16

abbrev pub dot : ℕ
dot = 46

-- `while (*pathname == '/')`
unfoldable pub skip_slashes : Text → Text
skip_slashes [] = []
skip_slashes (c ∷ cs) = let rest = skip_slashes cs in if c == slash then rest else c ∷ cs

-- The characters up to the next slash, and what is behind them.
unfoldable pub name_of : Text → Text
name_of [] = []
name_of (c ∷ cs) = let rest = name_of cs in if c == slash then [] else c ∷ rest

unfoldable pub behind_name : Text → Text
behind_name [] = []
behind_name (c ∷ cs) = let rest = behind_name cs in if c == slash then c ∷ cs else rest

abbrev pub null_if_empty : Text → Option Text
null_if_empty [] = none
null_if_empty (c ∷ cs) = some (c ∷ cs)

-- The name that is stored, and the pointer that is returned.
unfoldable pub path_parse : Text → Text × Option Text
path_parse pathname =
    let start = if get_or pathname 0 0 == slash then skip_slashes (drop 1 pathname) else pathname in
    (name_of start, null_if_empty (behind_name start))

-- `if (p) p = path_parse(p, name)` behind the `memset` of `name`.
abbrev pub parse_next : Option Text → Text × Option Text
parse_next none = ([], none)
parse_next (some p) = path_parse p

abbrev pub is_empty : Text → Bool
is_empty [] = true
is_empty (_ ∷ _) = false

-- The loop of `path_depth_cnt`: a round reads at least one character.
unfoldable pub depth_from : ℕ → Option Text → Text → ℕ → Result ℕ
depth_from zero p name depth = ok depth
depth_from (suc fuel) p name depth =
    let (name', p') = parse_next p in
    let rest =
      assert (ltb (length name) max_file_name_len) >> depth_from fuel p' name' (depth + 1) in
    if is_empty name then ok depth else rest

-- The buffer of the name is not cleared at first: `garbage` is what the stack holds there.
unfoldable pub path_depth_cnt : Text → Text → Result ℕ
path_depth_cnt garbage pathname =
    let (name, p) = path_parse pathname in
    depth_from (length pathname + 1) p (if is_empty name then garbage else name) 0

-- `!strcmp(a, b)`
abbrev pub same_text : Text → Text → Bool
same_text [] [] = true
same_text [] (_ ∷ _) = false
same_text (_ ∷ _) [] = false
same_text (x ∷ xs) (y ∷ ys) = x == y && same_text xs ys

-- `strrchr`: the index of the last one, and `last` if there is none.
unfoldable pub strrchr : ℕ → Text → ℕ → Option ℕ → Option ℕ
strrchr ch [] idx last = last
strrchr ch (c ∷ cs) idx last = strrchr ch cs (idx + 1) (if c == ch then some idx else last)

-- The path loses its last name. Without a slash in it the null pointer would be written to.
unfoldable pub cut_last : Text → Result Text
cut_last new_abs_path = elim (strrchr slash new_abs_path 0 none) [
  | none ↦ panic
  | some slash_idx ↦
      ok (if slash_idx == 0 then take 1 new_abs_path else take slash_idx new_abs_path)
]

-- A round of the loop of `wash_path`.
unfoldable pub wash_name : Text → Text → Result Text
wash_name name new_abs_path =
    let slashed =
      if same_text new_abs_path (slash ∷ []) then new_abs_path else new_abs_path ++ slash ∷ [] in
    if same_text (dot ∷ dot ∷ []) name
    then cut_last new_abs_path
    else if same_text (dot ∷ []) name
    then ok new_abs_path
    else ok (slashed ++ name)

unfoldable pub wash_from : ℕ → Option Text → Text → Text → Result Text
wash_from zero p name new_abs_path = ok new_abs_path
wash_from (suc fuel) p name new_abs_path =
    let (name', p') = parse_next p in
    let rest =
      assert (ltb (length name) max_file_name_len)
      >> (wash_name name new_abs_path >>= λ new. wash_from fuel p' name' new) in
    if is_empty name then ok new_abs_path else rest

unfoldable pub wash_path : Text → Result Text
wash_path old_abs_path =
    let (name, sub_path) = path_parse old_abs_path in
    let washed = wash_from (length old_abs_path + 1) sub_path name (slash ∷ []) in
    assert (get_or old_abs_path 0 0 == slash) >> (if is_empty name then ok (slash ∷ []) else washed)

-- The answer of `getcwd` is an argument: the working directory, or nothing.
unfoldable pub make_clear_abs_path : Option Text → Text → Result Text
make_clear_abs_path getcwd path =
    let from_cwd : Text = elim getcwd [
      | none ↦ []
      | some cwd ↦ if same_text cwd (slash ∷ []) then cwd else cwd ++ slash ∷ []
    ] in
    let abs_path = if get_or path 0 0 == slash then [] else from_cwd in wash_path (abs_path ++ path)
