-- ===== src/LinkedList/Lists.antt =====
-- A `struct list` in memory as the sequence of its nodes: what each function of list.c does to it.
use mcy_os.Prelude.{
  sym, suc, ==_ne, ℕ, suc, ◌^◌, ◌<◌, ◌≡◌, sym, ap, ◌∙◌, ◌≢◌, Bool, some, List, [], ◌∷◌, ◌++◌, arith,
  ◌==◌, ==_ne, length,
}
use mcy_os.LinkedList.{
  Ptr, Links, head_of, tail_of, init, push, append, remove, pop, empty, elem_find, len, traversal,
}
use mcy_os.LinkedList.Chain.{
  Chain, NotIn, Distinct, NotIn-append, Distinct-snoc, NotIn-middle, Distinct-middle,
}
use mcy_os.LinkedList.Insert.{Chain-insert, Chain-insert_first}
use mcy_os.LinkedList.Remove.{Chain-remove}
use mcy_os.LinkedList.Walk.{mem, first_such, find_from-mem, len_from-length, traverse_from-first}

-- The list at `l` holds the distinct nodes `xs`, and its two end nodes are not among them.
pub record IsList (m : Links) (l : Ptr) (xs : List Ptr) : Type 0 where
  pub chain : Chain m (head_of l) xs (tail_of l)
  pub distinct : Distinct (head_of l ∷ xs)
  pub behind : NotIn (tail_of l) xs

-- A node that is neither in the list nor one of its ends.
abbrev pub Outside : Ptr → Ptr → List Ptr → Type 0
Outside e l xs = (tail_of l ≢ e) × NotIn e (head_of l ∷ xs)

-- `list_init` leaves an empty list.
pub init-IsList : (m : Links) (l : Ptr) → IsList (init m l) l []
unfolding init
init-IsList m l = record { chain = (ground arith, ground arith); distinct = (tt, tt); behind = tt }

module _ {m : Links} {l : Ptr} where
  -- `list_append` puts a node that is not in the list behind the others.
  pub append-IsList :
      (xs : List Ptr) (e : Ptr)
      → IsList m l xs
      → Outside e l xs
      → IsList (append m l e) l (xs ++ e ∷ [])
  unfolding append
  append-IsList xs e v o = record {
    chain = Chain-insert m (tail_of l) e o.0 (head_of l) xs v.chain v.distinct o.1 v.behind;
    distinct = Distinct-snoc (head_of l ∷ xs) e v.distinct o.1;
    behind = NotIn-append (tail_of l) xs (e ∷ []) v.behind (o.0, tt);
  }

  -- `list_push` puts it in front of the others.
  pub push-IsList :
      (xs : List Ptr) (e : Ptr) → IsList m l xs → Outside e l xs → IsList (push m l e) l (e ∷ xs)
  unfolding push append
  push-IsList [] e v o = rw v.chain.0 (append-IsList [] e v o)
  push-IsList (x ∷ xs) e v o = rw v.chain.0 (record {
    chain =
        Chain-insert_first m x e (λ z. o.1.1.0 (sym z)) (head_of l) xs (tail_of l) v.chain
          v.distinct.0 o.1 ((λ z. o.0 (sym z)), tt)
          (NotIn-append x xs (tail_of l ∷ []) v.distinct.1.0 ((λ z. v.behind.0 (sym z)), tt));
    distinct = (((λ z. o.1.0 (sym z)), v.distinct.0), (o.1.1, v.distinct.1));
    behind = (o.0, v.behind);
  })

  -- `list_remove` takes a node of the list out and keeps the order of the others.
  pub remove-IsList :
      (xs : List Ptr) (e : Ptr) (ys : List Ptr)
      → IsList m l (xs ++ e ∷ ys)
      → IsList (remove m e) l (xs ++ ys)
  remove-IsList xs e ys v = record {
    chain = Chain-remove m e (head_of l) xs ys (tail_of l) v.chain v.distinct v.behind;
    distinct = Distinct-middle e (head_of l ∷ xs) ys v.distinct;
    behind = NotIn-middle (tail_of l) e xs ys v.behind;
  }

  -- `list_pop` returns the first node and leaves the others.
  pub pop-IsList :
      (x : Ptr) (xs : List Ptr) → IsList m l (x ∷ xs) → ((pop m l).0 ≡ x) × IsList (pop m l).1 l xs
  unfolding pop
  pop-IsList x xs v = (v.chain.0, rw v.chain.0 (remove-IsList [] x xs v))

  -- `list_empty` is true of the list with no node, and of no other.
  pub empty_lem : (xs : List Ptr) → IsList m l xs → empty m l ≡ (length xs == 0)
  unfolding empty
  empty_lem [] v = ground (arith, v.chain.0)
  empty_lem (x ∷ xs) v = ground (arith, v.chain.0, v.behind.0)

  -- With fuel for each node and one more round, `elem_find` says whether a node is in the list.
  pub elem_find-mem :
      (xs : List Ptr) (a : Ptr) (fuel : ℕ)
      → IsList m l xs
      → length xs < fuel
      → elem_find fuel m l a ≡ some (mem a xs)
  unfolding elem_find
  elem_find-mem xs a fuel v h = find_from-mem m (tail_of l) a fuel (head_of l) xs v.chain v.behind h

  -- `list_len` counts the nodes.
  pub len-length :
      (xs : List Ptr) (fuel : ℕ)
      → IsList m l xs
      → length xs < fuel
      → length xs < 2 ^ 32
      → len fuel m l ≡ some (length xs)
  unfolding len
  len-length xs fuel v h small =
      len_from-length m (tail_of l) fuel (head_of l) xs 0 v.chain v.behind h (omega arith)
      ∙ ap some (omega arith)

  -- `list_traversal` calls `func` on the nodes in order until it answers true.
  pub traversal-first :
      {S : Type 0} (func : Ptr → S → Bool × S) (xs : List Ptr) (fuel : ℕ) (s : S)
      → IsList m l xs
      → length xs < fuel
      → traversal func fuel m l s ≡ some (first_such func xs s)
  unfolding traversal
  traversal-first func [] fuel s v h = rw (empty_lem [] v)
  traversal-first func (x ∷ xs) fuel s v h =
      rw (empty_lem (x ∷ xs) v, ==_ne (suc (length xs)) 0 (λ e. omega arith))
        (traverse_from-first m (tail_of l) func fuel (head_of l) (x ∷ xs) s v.chain v.behind h)
