-- ===== src/LinkedList/Chain.antt =====
-- A chain of nodes linked both ways, and what leaves it alone.
use mcy_os.Prelude.{◌≡◌, sym, ◌∙◌, ◌≢◌, List, [], ◌∷◌, ◌++◌}
use mcy_os.LinkedList.{Ptr, Links}

-- `a` is none of the nodes.
abbrev pub NotIn : Ptr → List Ptr → Type 0
NotIn a [] = Unit
NotIn a (x ∷ xs) = (a ≢ x) × NotIn a xs

abbrev pub Distinct : List Ptr → Type 0
Distinct [] = Unit
Distinct (x ∷ xs) = NotIn x xs × Distinct xs

-- From `p` the nodes `xs` lead to `q`, and back.
abbrev pub Chain : Links → Ptr → List Ptr → Ptr → Type 0
Chain m p [] q = (m.next p ≡ q) × (m.prev q ≡ p)
Chain m p (x ∷ xs) q = (m.next p ≡ x) × (m.prev x ≡ p) × Chain m x xs q

-- The last of `p` and `xs`.
abbrev pub last : Ptr → List Ptr → Ptr
last p [] = p
last p (x ∷ xs) = last x xs

pub prev-last :
    (m : Links) (p : Ptr) (xs : List Ptr) (q : Ptr) → Chain m p xs q → m.prev q ≡ last p xs
prev-last m p [] q c = c.1
prev-last m p (x ∷ xs) q c = prev-last m x xs q c.2

pub NotIn-last : (a p : Ptr) (xs : List Ptr) → a ≢ p → NotIn a xs → a ≢ last p xs
NotIn-last a p [] ne h = ne
NotIn-last a p (x ∷ xs) ne h = NotIn-last a x xs h.0 h.1

-- Two memories agree on what a chain reads.
abbrev pub Same : Links → Links → Ptr → List Ptr → Ptr → Type 0
Same m m' p [] q = (m'.next p ≡ m.next p) × (m'.prev q ≡ m.prev q)
Same m m' p (x ∷ xs) q = (m'.next p ≡ m.next p) × (m'.prev x ≡ m.prev x) × Same m m' x xs q

pub Chain-Same :
    (m m' : Links) (p : Ptr) (xs : List Ptr) (q : Ptr)
    → Same m m' p xs q
    → Chain m p xs q
    → Chain m' p xs q
Chain-Same m m' p [] q s c = (s.0 ∙ c.0, s.1 ∙ c.1)
Chain-Same m m' p (x ∷ xs) q s c = (s.0 ∙ c.0, s.1 ∙ c.1, Chain-Same m m' x xs q s.2 c.2)

pub NotIn-append : (a : Ptr) (xs ys : List Ptr) → NotIn a xs → NotIn a ys → NotIn a (xs ++ ys)
NotIn-append a [] ys hx hy = hy
NotIn-append a (x ∷ xs) ys hx hy = (hx.0, NotIn-append a xs ys hx.1 hy)

pub NotIn-append_left : (a : Ptr) (xs ys : List Ptr) → NotIn a (xs ++ ys) → NotIn a xs
NotIn-append_left a [] ys h = tt
NotIn-append_left a (x ∷ xs) ys h = (h.0, NotIn-append_left a xs ys h.1)

pub NotIn-append_right : (a : Ptr) (xs ys : List Ptr) → NotIn a (xs ++ ys) → NotIn a ys
NotIn-append_right a [] ys h = h
NotIn-append_right a (x ∷ xs) ys h = NotIn-append_right a xs ys h.1

-- Every node of `xs` is apart from `a`: `Distinct` of the list with `a` behind it.
pub Distinct-snoc : (xs : List Ptr) (a : Ptr) → Distinct xs → NotIn a xs → Distinct (xs ++ a ∷ [])
Distinct-snoc [] a d n = (tt, tt)
Distinct-snoc (x ∷ xs) a d n =
    (NotIn-append x xs (a ∷ []) d.0 ((λ e. n.0 (sym e)), tt), Distinct-snoc xs a d.1 n.1)

pub NotIn-middle : (a x : Ptr) (xs ys : List Ptr) → NotIn a (xs ++ x ∷ ys) → NotIn a (xs ++ ys)
NotIn-middle a x [] ys h = h.1
NotIn-middle a x (z ∷ xs) ys h = (h.0, NotIn-middle a x xs ys h.1)

pub Distinct-middle : (x : Ptr) (xs ys : List Ptr) → Distinct (xs ++ x ∷ ys) → Distinct (xs ++ ys)
Distinct-middle x [] ys d = d.1
Distinct-middle x (z ∷ xs) ys d = (NotIn-middle z x xs ys d.0, Distinct-middle x xs ys d.1)

pub NotIn-of_middle : (x : Ptr) (xs ys : List Ptr) → Distinct (xs ++ x ∷ ys) → NotIn x (xs ++ ys)
NotIn-of_middle x [] ys d = d.0
NotIn-of_middle x (z ∷ xs) ys d =
    ((λ e. (NotIn-append_right z xs (x ∷ ys) d.0).0 (sym e)), NotIn-of_middle x xs ys d.1)
