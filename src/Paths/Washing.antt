-- ===== src/Paths/Washing.antt =====
-- `wash_path` resolves the names of a path one after the other on a stack.
use mcy_os.Prelude.{
  ℕ, zero, suc, ◌+◌, ◌<◌, ◌≡◌, refl, sym, ap, ◌∙◌, inl, inr, true, false, Option, none, some, List,
  [], ◌∷◌, ◌++◌, arith, ◌==◌, if◌then◌else◌, Bool-cases, and_right, length, get_or, take,
  length-append, ok, ◌>>=◌, ◌>>◌, assert, lt→ltb, subst,
}
use mathlib.Core.List.{append_assoc}
use mcy_os.Paths.{
  Text, slash, dot, name_of, path_parse, parse_next, is_empty, same_text, strrchr, cut_last,
  wash_name, wash_from, wash_path,
}
use mcy_os.Paths.Names.{
  with_name, names, names_left, begin, left_of, Reads, path_parse_lem, path_parse-end, AreShort,
  path_parse-shorter, Reads-parse_next, parse_next_lem, parse_next-less, names_left-none,
}

-- The stack of the names that are kept, the last one first.
abbrev pub pop_name : List Text → List Text
pop_name [] = []
pop_name (n ∷ ns) = ns

abbrev pub apply_name : Text → List Text → List Text
apply_name name kept =
    if same_text (dot ∷ dot ∷ []) name
    then pop_name kept
    else if same_text (dot ∷ []) name
    then kept
    else name ∷ kept

abbrev pub resolve : List Text → List Text → List Text
resolve [] kept = kept
resolve (n ∷ ns) kept = resolve ns (apply_name n kept)

-- The absolute path of a stack.
abbrev pub joined : List Text → Text
joined [] = []
joined (n ∷ ns) = joined ns ++ slash ∷ n

abbrev pub render : List Text → Text
render [] = slash ∷ []
render (n ∷ ns) = joined (n ∷ ns)

abbrev NoSlash : Text → Type 0
NoSlash [] = Unit
NoSlash (c ∷ cs) = ((c == slash) ≡ false) × NoSlash cs

-- Names of a path: not empty and without a slash.
abbrev AreNames : List Text → Type 0
AreNames [] = Unit
AreNames (n ∷ ns) = (is_empty n ≡ false) × NoSlash n × AreNames ns

strrchr-none : (n : Text) (idx : ℕ) (last : Option ℕ) → NoSlash n → strrchr slash n idx last ≡ last
unfolding strrchr
strrchr-none [] idx last h = refl
strrchr-none (c ∷ cs) idx last h =
    ap (λ b. strrchr slash cs (idx + 1) (if b then some idx else last)) h.0
    ∙ strrchr-none cs (idx + 1) last h.1

strrchr-last :
    (w n : Text) (idx : ℕ) (last : Option ℕ)
    → NoSlash n
    → strrchr slash (w ++ slash ∷ n) idx last ≡ some (idx + length w)
unfolding strrchr
strrchr-last [] n idx last h = strrchr-none n (idx + 1) (some idx) h ∙ ap some (omega arith)
strrchr-last (c ∷ cs) n idx last h =
    strrchr-last cs n (idx + 1) (if c == slash then some idx else last) h ∙ ap some (omega arith)

take-append : (w r : Text) → take (length w) (w ++ r) ≡ w
take-append [] r = refl
take-append (c ∷ cs) r = ap (λ t. c ∷ t) (take-append cs r)

name_of-NoSlash : (path : Text) → NoSlash (name_of path)
unfolding name_of
name_of-NoSlash [] = tt
name_of-NoSlash (c ∷ cs) = elim (Bool-cases (c == slash)) [
  | inl e ↦ rw e tt
  | inr e ↦ rw e (e, name_of-NoSlash cs)
]

joined-long : (n : Text) (ns : List Text) → 0 < length (joined (n ∷ ns))
joined-long n ns = omega (arith, length-append (joined ns) (slash ∷ n))

length-same_text : (a b : Text) → same_text a b ≡ true → length a ≡ length b
length-same_text [] [] h = refl
length-same_text [] (y ∷ ys) h = absurd (ground arith)
length-same_text (x ∷ xs) [] h = absurd (ground arith)
length-same_text (x ∷ xs) (y ∷ ys) h =
    ap suc (length-same_text xs ys (and_right (x == y) (same_text xs ys) h))

length-name : (n : Text) → is_empty n ≡ false → 0 < length n
length-name [] h = absurd (ground arith)
length-name (c ∷ cs) h = omega arith

cut_last-root : cut_last (slash ∷ []) ≡ ok (slash ∷ [])
unfolding cut_last strrchr
cut_last-root = refl

-- The last name is cut off.
cut_last-render :
    (kept : List Text) → AreNames kept → cut_last (render kept) ≡ ok (render (pop_name kept))
unfolding cut_last
cut_last-render [] good = cut_last-root
cut_last-render (n ∷ []) good =
    let e : strrchr slash (slash ∷ n) 0 none ≡ some (0 + 0) = strrchr-last [] n 0 none good.1 in
    rw (cut_last, e)
cut_last-render (n ∷ m ∷ ms) good =
    let w = joined (m ∷ ms) in
    let e : strrchr slash (w ++ slash ∷ n) 0 none ≡ some (length w) =
      strrchr-last w n 0 none good.1 ∙ ap some (omega arith) in
    let long : length w == 0 ≡ false = ground (arith, joined-long m ms) in
    rw (cut_last, e, long, take-append w (slash ∷ n))

-- A name is appended behind a slash.
append_name :
    (name : Text) (kept : List Text)
    → AreNames kept
    → (if same_text (render kept) (slash ∷ []) then render kept else render kept ++ slash ∷ [])
        ++ name
      ≡ render (name ∷ kept)
append_name name [] good = refl
append_name name (n ∷ ns) good =
    let w = joined (n ∷ ns) in
    let other : same_text w (slash ∷ []) ≡ false = elim (Bool-cases (same_text w (slash ∷ []))) [
      | inr e ↦ e
      | inl e ↦ absurd (
          omega (
            arith,
            length-same_text w (slash ∷ []) e,
            length-append (joined ns) (slash ∷ n),
            length-name n good.0,
          ))
    ] in
    rw other (append_assoc w (slash ∷ []) name)

wash_name_lem :
    (name : Text) (kept : List Text)
    → AreNames kept
    → wash_name name (render kept) ≡ ok (render (apply_name name kept))
unfolding wash_name
wash_name_lem name kept good = elim (Bool-cases (same_text (dot ∷ dot ∷ []) name)) [
  | inl e ↦ rw e (cut_last-render kept good)
  | inr e ↦ elim (Bool-cases (same_text (dot ∷ []) name)) [
    | inl e' ↦ rw (e, e')
    | inr e' ↦ rw (e, e') (ap ok (append_name name kept good))
  ]
]

-- The names on the stack stay names.
apply_name-AreNames :
    (name : Text) (kept : List Text)
    → is_empty name ≡ false
    → NoSlash name
    → AreNames kept
    → AreNames (apply_name name kept)
apply_name-AreNames name kept some_name clear good =
    elim (Bool-cases (same_text (dot ∷ dot ∷ []) name)) [
      | inl e ↦ rw e (popped kept good)
      | inr e ↦ elim (Bool-cases (same_text (dot ∷ []) name)) [
        | inl e' ↦ rw (e, e') good
        | inr e' ↦ rw (e, e') (some_name, clear, good)
      ]
    ]
  where
    popped : (kept : List Text) → AreNames kept → AreNames (pop_name kept)
    popped [] h = tt
    popped (n ∷ ns) h = h.2

parse_next-NoSlash : (p : Option Text) → NoSlash (parse_next p).0
unfolding path_parse
parse_next-NoSlash none = tt
parse_next-NoSlash (some path) = name_of-NoSlash (begin path)

wash_from-stop :
    (fuel : ℕ) (p : Option Text) (name new : Text)
    → is_empty name ≡ true
    → wash_from fuel p name new ≡ ok new
unfolding wash_from
wash_from-stop zero p name new h = refl
wash_from-stop (suc fuel) p name new h = rw h

wash_from_lem :
    (fuel : ℕ) (p : Option Text) (name : Text) (kept : List Text)
    → left_of p < fuel
    → Reads p name
    → NoSlash name
    → AreNames kept
    → AreShort (with_name name (names_left p))
    → wash_from fuel p name (render kept)
      ≡ ok (render (resolve (with_name name (names_left p)) kept))
unfolding wash_from
wash_from_lem zero p name kept enough reads clear good short = absurd (omega arith)
wash_from_lem (suc fuel) p [] kept enough reads clear good short =
    ap (λ ns. ok (render (resolve ns kept))) (sym (ap names_left (reads refl)))
wash_from_lem (suc fuel) p (c ∷ cs) kept enough reads clear good short =
    let name = c ∷ cs in
    let kept' = apply_name name kept in
    let (name', p') = parse_next p in
    let short' = subst AreShort (parse_next_lem p) (short.1) in
    ap (λ b. assert b >> (wash_name name (render kept) >>= λ new. wash_from fuel p' name' new))
      (lt→ltb (length name) 16 (short.0))
    ∙ ap (λ m. m >>= λ new. wash_from fuel p' name' new) (wash_name_lem name kept good)
    ∙ elim (parse_next-less p fuel enough) [
      | inl e ↦
          wash_from-stop fuel p' name' (render kept') e
          ∙ ap (λ ns. ok (render (resolve ns kept'))) (sym (names_left-none p e))
      | inr less ↦
          wash_from_lem fuel p' name' kept' less (Reads-parse_next p) (parse_next-NoSlash p)
            (apply_name-AreNames name kept refl clear good) short'
          ∙ ap (λ ns. ok (render (resolve ns kept'))) (sym (parse_next_lem p))
    ]

-- `wash_path` of a path that begins with a slash and has no name of 16 or more characters gives the absolute path of the names that are left
-- when the names of the path are taken one after the other: `..` drops the last one that was kept,
-- if there is one, `.` is passed over, and any other name is kept.
pub wash_path_lem :
    (path : Text)
    → get_or path 0 0 ≡ slash
    → AreShort (names path)
    → wash_path path ≡ ok (render (resolve (names path) []))
unfolding wash_path
wash_path_lem path absolute short =
    let (name, p) = path_parse path in
    let begins : get_or path 0 0 == slash ≡ true = ground (arith, absolute) in
    let washed : wash_from (length path + 1) p name (slash ∷ [])
        ≡ ok (render (resolve (names path) [])) =
      wash_from_lem (length path + 1) p name [] (omega (arith, path_parse-shorter path))
        (path_parse-end path) (parse_next-NoSlash (some path)) tt
        (subst AreShort (path_parse_lem path) short)
      ∙ ap (λ ns. ok (render (resolve ns []))) (sym (path_parse_lem path)) in
    elim (Bool-cases (is_empty name)) [
      | inl e ↦
          rw (begins, e) (sym (wash_from-stop (length path + 1) p name (slash ∷ []) e) ∙ washed)
      | inr e ↦ rw (begins, e) washed
    ]
