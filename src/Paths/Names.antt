-- ===== src/Paths/Names.antt =====
-- The names of a path.
use mcy_os.Prelude.{
  ok, assert, ◌>>◌, lt→ltb, subst, ℕ, zero, suc, ◌+◌, ◌≤◌, ◌<◌, ◌≡◌, refl, sym, ap, ◌∙◌, ◌≢◌, ◌⊎◌,
  inl, inr, true, Option, none, some, List, [], ◌∷◌, ◌++◌, arith, ◌==◌, if◌then◌else◌, Bool-cases,
  length, get_or, drop,
}
use mathlib.Core.List.{append_assoc, append-nil}
use mcy_os.Paths.{
  Text, slash, skip_slashes, name_of, behind_name, null_if_empty, path_parse, parse_next, is_empty,
  depth_from, path_depth_cnt,
}

-- The names are what stands between slashes, where something does.
abbrev pub with_name : Text → List Text → List Text
with_name [] names = names
with_name (c ∷ cs) names = (c ∷ cs) ∷ names

abbrev pub names_from : Text → Text → List Text
names_from cur [] = with_name cur []
names_from cur (c ∷ cs) =
    if c == slash then with_name cur (names_from [] cs) else names_from (cur ++ c ∷ []) cs

abbrev pub names : Text → List Text
names = names_from []

-- Names that fit into the array for a name.
abbrev pub AreShort : List Text → Type 0
AreShort [] = Unit
AreShort (n ∷ ns) = (length n < 16) × AreShort ns

pub AreShort-append : (xs ys : List Text) → AreShort xs → AreShort ys → AreShort (xs ++ ys)
AreShort-append [] ys h h' = h'
AreShort-append (x ∷ xs) ys h h' = (h.0, AreShort-append xs ys h.1 h')

abbrev pub names_left : Option Text → List Text
names_left none = []
names_left (some p) = names p

names_from-name :
    (cur path : Text)
    → names_from cur path ≡ with_name (cur ++ name_of path) (names (behind_name path))
unfolding name_of behind_name
names_from-name cur [] = ap (λ t. with_name t []) (sym (append-nil cur))
names_from-name cur (c ∷ cs) = elim (Bool-cases (c == slash)) [
  | inl e ↦ rw (e, append-nil cur) (rw e)
  | inr e ↦ rw e (
      names_from-name (cur ++ c ∷ []) cs
      ∙ ap (λ t. with_name t (names (behind_name cs))) (append_assoc cur (c ∷ []) (name_of cs)))
]

names-skip_slashes : (path : Text) → names (skip_slashes path) ≡ names path
unfolding skip_slashes
names-skip_slashes [] = refl
names-skip_slashes (c ∷ cs) = elim (Bool-cases (c == slash)) [
  | inl e ↦ rw e (names-skip_slashes cs)
  | inr e ↦ rw e (rw e)
]

-- Where `path_parse` begins.
abbrev pub begin : Text → Text
begin pathname = if get_or pathname 0 0 == slash then skip_slashes (drop 1 pathname) else pathname

pub begin-skip_slashes : (path : Text) → begin path ≡ skip_slashes path
unfolding skip_slashes
begin-skip_slashes [] = refl
begin-skip_slashes (c ∷ cs) = refl

names_left-null : (path : Text) → names_left (null_if_empty path) ≡ names path
names_left-null [] = refl
names_left-null (c ∷ cs) = refl

-- A call splits the first name off.
pub path_parse_lem :
    (path : Text) → names path ≡ with_name (path_parse path).0 (names_left (path_parse path).1)
unfolding path_parse
path_parse_lem path =
    sym (names-skip_slashes path)
    ∙ ap names (sym (begin-skip_slashes path))
    ∙ names_from-name [] (begin path)
    ∙ ap (with_name (name_of (begin path))) (sym (names_left-null (behind_name (begin path))))

length-skip_slashes : (path : Text) → length (skip_slashes path) ≤ length path
unfolding skip_slashes
length-skip_slashes [] = omega arith
length-skip_slashes (c ∷ cs) = ground (arith, length-skip_slashes cs)

length-name_of : (path : Text) → length (name_of path) + length (behind_name path) ≡ length path
unfolding name_of behind_name
length-name_of [] = refl
length-name_of (c ∷ cs) = ground (arith, length-name_of cs)

-- No name is found only at the end.
behind_nothing :
    (path : Text)
    → is_empty (name_of (skip_slashes path)) ≡ true
    → behind_name (skip_slashes path) ≡ []
unfolding skip_slashes name_of behind_name
behind_nothing [] = λ h. refl
behind_nothing (c ∷ cs) = elim (Bool-cases (c == slash)) [
  | inl e ↦ rw e (behind_nothing cs)
  | inr e ↦ rw e (rw e (λ h. absurd (ground arith)))
]

pub path_parse-end :
    (path : Text) → is_empty (path_parse path).0 ≡ true → (path_parse path).1 ≡ none
unfolding path_parse
path_parse-end path h =
    ap (λ p. null_if_empty (behind_name p)) (begin-skip_slashes path)
    ∙ ap null_if_empty
        (behind_nothing path (ap (λ p. is_empty (name_of p)) (sym (begin-skip_slashes path)) ∙ h))

-- How much is left to read.
abbrev pub left_of : Option Text → ℕ
left_of none = 0
left_of (some p) = length p

left_of-null : (p : Text) → left_of (null_if_empty p) ≡ length p
left_of-null [] = refl
left_of-null (c ∷ cs) = refl

pub path_parse-shorter :
    (path : Text) → left_of (path_parse path).1 + length (path_parse path).0 ≤ length path
unfolding path_parse
path_parse-shorter path = omega (
  arith,
  left_of-null (behind_name (begin path)),
  length-name_of (begin path),
  ap length (begin-skip_slashes path),
  length-skip_slashes path,
)

-- What a loop over the names knows: with no name there is nothing left either.
abbrev pub Reads : Option Text → Text → Type 0
Reads p name = is_empty name ≡ true → p ≡ none

pub Reads-parse_next : (p : Option Text) → Reads (parse_next p).1 (parse_next p).0
Reads-parse_next none h = refl
Reads-parse_next (some path) h = path_parse-end path h

pub parse_next_lem :
    (p : Option Text) → names_left p ≡ with_name (parse_next p).0 (names_left (parse_next p).1)
parse_next_lem none = refl
parse_next_lem (some path) = path_parse_lem path

-- A round that is not the last one leaves less to read.
pub parse_next-less :
    (p : Option Text) (fuel : ℕ)
    → left_of p < suc fuel
    → (is_empty (parse_next p).0 ≡ true) ⊎ (left_of (parse_next p).1 < fuel)
parse_next-less none fuel h = inl refl
parse_next-less (some path) fuel h = named (path_parse path).0 refl
  where
    named :
        (name : Text)
        → (path_parse path).0 ≡ name
        → (is_empty (path_parse path).0 ≡ true) ⊎ (left_of (path_parse path).1 < fuel)
    named [] e = inl (ap is_empty e)
    named (c ∷ cs) e = inr (omega (arith, path_parse-shorter path, ap length e))

pub with_name-empty :
    (name : Text) (rest : List Text) → is_empty name ≡ true → with_name name rest ≡ rest
with_name-empty [] rest h = refl
with_name-empty (c ∷ cs) rest h = absurd (ground arith)

pub names_left-none : (p : Option Text) → is_empty (parse_next p).0 ≡ true → names_left p ≡ []
names_left-none p h =
    parse_next_lem p
    ∙ with_name-empty (parse_next p).0 (names_left (parse_next p).1) h
    ∙ ap names_left (Reads-parse_next p h)

-- A loop that has read no name stops with any fuel.
depth_from-stop :
    (fuel : ℕ) (p : Option Text) (name : Text) (depth : ℕ)
    → is_empty name ≡ true
    → depth_from fuel p name depth ≡ ok depth
unfolding depth_from
depth_from-stop zero p name depth h = refl
depth_from-stop (suc fuel) p name depth h = rw h

depth_from_lem :
    (fuel : ℕ) (p : Option Text) (name : Text) (depth : ℕ)
    → left_of p < fuel
    → Reads p name
    → AreShort (with_name name (names_left p))
    → depth_from fuel p name depth ≡ ok (depth + length (with_name name (names_left p)))
unfolding depth_from
depth_from_lem zero p name depth enough reads short = absurd (omega arith)
depth_from_lem (suc fuel) p [] depth enough reads short =
    let no_names : length (names_left p) ≡ 0 = ap (λ p. length (names_left p)) (reads refl) in
    ap ok (omega (arith, no_names))
depth_from_lem (suc fuel) p (c ∷ cs) depth enough reads short =
    let (name', p') = parse_next p in
    ap (λ b. assert b >> depth_from fuel p' name' (depth + 1))
      (lt→ltb (length (c ∷ cs)) 16 (short.0))
    ∙ elim (parse_next-less p fuel enough) [
      | inl e ↦
          let no_names : length (names_left p) ≡ 0 = ap length (names_left-none p e) in
          depth_from-stop fuel (parse_next p).1 (parse_next p).0 (depth + 1) e
          ∙ ap ok (omega (arith, no_names))
      | inr less ↦
          let number : length (names_left p)
              ≡ length (with_name (parse_next p).0 (names_left (parse_next p).1)) =
            ap length (parse_next_lem p) in
          depth_from_lem fuel (parse_next p).1 (parse_next p).0 (depth + 1) less
            (Reads-parse_next p) (subst AreShort (parse_next_lem p) (short.1))
          ∙ ap ok (omega (arith, number))
    ]

-- `path_depth_cnt` counts the names of a path that has some, none of 16 or more characters, whatever the stack held before.
pub path_depth_cnt_lem :
    (garbage path : Text)
    → names path ≢ []
    → AreShort (names path)
    → path_depth_cnt garbage path ≡ ok (length (names path))
unfolding path_depth_cnt
path_depth_cnt_lem garbage path some_names short =
    let (name, p) = path_parse path in
    elim (Bool-cases (is_empty name)) [
      | inl e ↦ absurd (some_names (names_left-none (some path) e))
      | inr e ↦ rw e (
          depth_from_lem (length path + 1) p name 0 (omega (arith, path_parse-shorter path))
            (path_parse-end path) (subst AreShort (path_parse_lem path) short)
          ∙ ap (λ ns. ok (0 + length ns)) (sym (path_parse_lem path))
          ∙ ap ok (omega arith))
    ]
