-- ===== src/Thread/Queue.antt =====
-- The ready list as a sequence with no repetition, by the test `elem_find`.
use mcy_os.Prelude.{◌≡◌, refl, false, ◌||◌, List, [], ◌∷◌, ◌++◌, arith, ◌==◌}
use mcy_os.LinkedList.{Ptr}
use mcy_os.LinkedList.Walk.{mem}

abbrev pub Distinct : List Ptr → Type 0
Distinct [] = Unit
Distinct (x ∷ xs) = (mem x xs ≡ false) × Distinct xs

pub mem-append : (a : Ptr) (xs ys : List Ptr) → mem a (xs ++ ys) ≡ (mem a xs || mem a ys)
mem-append a [] ys = refl
mem-append a (x ∷ xs) ys = ground (arith, mem-append a xs ys)

pub mem-snoc : (a x : Ptr) (xs : List Ptr) → mem a (xs ++ x ∷ []) ≡ (mem a xs || (x == a))
mem-snoc a x [] = ground arith
mem-snoc a x (y ∷ xs) = ground (arith, mem-snoc a x xs)

pub Distinct-snoc :
    (a : Ptr) (xs : List Ptr) → Distinct xs → mem a xs ≡ false → Distinct (xs ++ a ∷ [])
Distinct-snoc a [] d n = (refl, tt)
Distinct-snoc a (x ∷ xs) d n =
    (ground (arith, mem-snoc x a xs), Distinct-snoc a xs d.1 (ground arith))
