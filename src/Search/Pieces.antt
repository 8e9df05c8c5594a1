-- ===== src/Search/Pieces.antt =====
-- What a call of `path_parse` of fs/fs.c leaves of a path, for the loop of `search_file`.
use mcy_os.Prelude.{
  ◌+◌, ◌≤◌, ◌<◌, ◌≡◌, refl, sym, ap, ◌⊎◌, inl, inr, false, Option, none, some, List, [], ◌∷◌, arith,
  ℕ_discrete, ==_ne, length, get_or,
}
use mcy_os.Paths.{
  name_of, behind_name, null_if_empty, Text, slash, parse_next, path_parse, is_empty,
}
use mcy_os.Directory.{DirEntry}
use mcy_os.Search.{is_root_path}
use mcy_os.Paths.Names.{begin, begin-skip_slashes, with_name, left_of, path_parse-shorter}

-- A pointer behind a name is null or at a slash.
abbrev pub Behind : Option Text → Type 0
Behind p = (p ≡ none) ⊎ ((q : Text) × (p ≡ some (slash ∷ q)))

pub behind_name-slash : (path : Text) → Behind (null_if_empty (behind_name path))
unfolding behind_name
behind_name-slash [] = inl refl
behind_name-slash (c ∷ cs) = elim (ℕ_discrete c slash) [
  | yes e ↦ inr (cs, rw e refl)
  | no apart ↦ rw (==_ne c slash apart) (behind_name-slash cs)
]

pub parse_next-Behind : (p : Option Text) → Behind (parse_next p).1
unfolding path_parse
parse_next-Behind none = inl refl
parse_next-Behind (some path) = behind_name-slash (begin path)

pub path_parse-slash : (q : Text) → path_parse (slash ∷ q) ≡ path_parse q
unfolding path_parse
path_parse-slash q =
    ap (λ t. (name_of t, null_if_empty (behind_name t))) (sym (begin-skip_slashes q))

pub parse_next-shorter :
    (p : Option Text) → left_of (parse_next p).1 + length (parse_next p).0 ≤ left_of p
parse_next-shorter none = omega arith
parse_next-shorter (some path) = path_parse-shorter path

pub path_parse-slash_shorter :
    (q : Text) → left_of (path_parse (slash ∷ q)).1 + length (path_parse (slash ∷ q)).0 ≤ length q
path_parse-slash_shorter q = rw (path_parse-slash q) (path_parse-shorter q)

-- A name that is not empty has a slash before it.
pub parse_next-slash :
    (p : Option Text)
    → Behind p
    → is_empty (parse_next p).0 ≡ false
    → left_of (parse_next p).1 + length (parse_next p).0 + 1 ≤ left_of p
parse_next-slash p (inl e) h = absurd (ground (arith, ap (λ p. is_empty (parse_next p).0) e, h))
parse_next-slash p (inr (q, e)) h = rw e (omega (arith, path_parse-slash_shorter q))

pub with_name-some :
    (name : Text) (rest : List Text) → is_empty name ≡ false → with_name name rest ≡ name ∷ rest
with_name-some [] rest h = absurd (ground arith)
with_name-some (c ∷ cs) rest h = refl

pub slashed : (path : Text) → get_or path 0 0 ≡ slash → Behind (some path)
slashed [] h = absurd (ground (arith, h))
slashed (c ∷ cs) h = inr (cs, ap (λ c. some (c ∷ cs)) h)

pub longer : (path : Text) → get_or path 0 0 ≡ slash → is_root_path path ≡ false → 1 < length path
longer [] h other = absurd (ground (arith, h))
longer (c ∷ []) h other = absurd (ground (arith, h, other))
longer (c ∷ b ∷ cs) h other = omega arith

pub nonempty : (name : Text) → is_empty name ≡ false → 1 ≤ length name
nonempty [] h = absurd (ground arith)
nonempty (c ∷ cs) h = omega arith

pub Option-cases : (e : Option DirEntry) → (e ≡ none) ⊎ ((x : DirEntry) × (e ≡ some x))
Option-cases none = inl refl
Option-cases (some x) = inr (x, refl)
