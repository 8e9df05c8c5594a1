-- ===== src/LinkedList/Walk.antt =====
-- The loops over a list: `elem_find`, `list_traversal` and `list_len` end and see every node.
use mcy_os.Prelude.{
  ℕ, zero, suc, ◌+◌, ◌^◌, ◌<◌, ◌≡◌, sym, inl, inr, Bool, true, false, some, List, [], ◌∷◌, arith,
  ◌==◌, if◌then◌else◌, ==_refl, ==_ne, Bool-cases, add32, length,
}
use mcy_os.LinkedList.{Ptr, null, Links, find_from, len_from, traverse_from}
use mcy_os.LinkedList.Chain.{Chain, NotIn}

abbrev pub mem : Ptr → List Ptr → Bool
mem a [] = false
mem a (x ∷ xs) = if x == a then true else mem a xs

-- `func` called on the nodes in order until it answers true.
abbrev pub first_such : {S : Type 0} → (Ptr → S → Bool × S) → List Ptr → S → Ptr × S
first_such func [] s = (null, s)
first_such func (x ∷ xs) s =
    let (stop, s') = func x s in let rest = first_such func xs s' in if stop then (x, s') else rest

module _ (m : Links) (q : Ptr) where
  pub find_from-mem :
      (a : Ptr) (fuel : ℕ) (p : Ptr) (xs : List Ptr)
      → Chain m p xs q
      → NotIn q xs
      → length xs < fuel
      → find_from fuel m q a (m.next p) ≡ some (mem a xs)
  unfolding find_from
  find_from-mem a zero p xs c n h = absurd (omega arith)
  find_from-mem a (suc fuel) p [] c n h = ground arith
  find_from-mem a (suc fuel) p (x ∷ xs) c n h =
      rw c.0 (ground (arith, find_from-mem a fuel x xs c.2 n.1))

  pub len_from-length :
      (fuel : ℕ) (p : Ptr) (xs : List Ptr) (k : ℕ)
      → Chain m p xs q
      → NotIn q xs
      → length xs < fuel
      → k + length xs < 2 ^ 32
      → len_from fuel m q (m.next p) k ≡ some (k + length xs)
  unfolding len_from
  len_from-length zero p xs k c n h small = absurd (omega arith)
  len_from-length (suc fuel) p [] k c n h small = ground arith
  len_from-length (suc fuel) p (x ∷ xs) k c n h small =
      rw c.0 (ground (arith, len_from-length fuel x xs (add32 k 1) c.2 n.1))

  pub traverse_from-first :
      {S : Type 0} (func : Ptr → S → Bool × S) (fuel : ℕ) (p : Ptr) (xs : List Ptr) (s : S)
      → Chain m p xs q
      → NotIn q xs
      → length xs < fuel
      → traverse_from func fuel m q (m.next p) s ≡ some (first_such func xs s)
  unfolding traverse_from
  traverse_from-first func zero p xs s c n h = absurd (omega arith)
  traverse_from-first func (suc fuel) p [] s c n h = rw c.0 (rw (==_refl q))
  traverse_from-first func (suc fuel) p (x ∷ xs) s c n h =
      rw (c.0, ==_ne x q (λ e. n.0 (sym e)))
        (elim (Bool-cases (func x s).0) [
          | inl e ↦ rw e
          | inr e ↦ rw e (traverse_from-first func fuel x xs (func x s).1 c.2 n.1 (omega arith))
        ])
