-- ===== src/LinkedList/Remove.antt =====
-- `list_remove` takes a node out of a chain.
use mcy_os.Prelude.{subst, sym, ◌≡◌, sym, ◌≢◌, List, [], ◌∷◌, ◌++◌, arith, ◌==◌, if◌then◌else◌}
use mcy_os.LinkedList.{Ptr, Links, remove}
use mcy_os.LinkedList.Chain.{
  Chain, NotIn, Distinct, last, NotIn-last, NotIn-append_right, NotIn-append_left, NotIn-of_middle,
  NotIn-append,
}

module _ (m : Links) (e : Ptr) where
  -- The two fields that change, where the two neighbours differ from the node.
  next_remove : (a : Ptr) → (remove m e).next a ≡ (if a == m.prev e then m.next e else m.next a)
  unfolding remove
  next_remove a = ground arith

  prev_remove :
      (a : Ptr)
      → e ≢ m.prev e
      → (remove m e).prev a ≡ (if a == m.next e then m.prev e else m.prev a)
  unfolding remove
  prev_remove a ne = ground arith

  -- A chain without the two neighbours stays as it is.
  pub Chain-remove_apart :
      (p : Ptr) (xs : List Ptr) (q : Ptr)
      → Chain m p xs q
      → e ≢ m.prev e
      → NotIn (m.prev e) (p ∷ xs)
      → NotIn (m.next e) (xs ++ q ∷ [])
      → Chain (remove m e) p xs q
  Chain-remove_apart p [] q c ne bp bq =
      (ground (arith, next_remove p), ground (arith, prev_remove q))
  Chain-remove_apart p (x ∷ xs) q c ne bp bq = (
    ground (arith, next_remove p),
    ground (arith, prev_remove x),
    Chain-remove_apart x xs q c.2 ne bp.1 bq.1,
  )

  next-of_Chain :
      (p : Ptr) (xs ys : List Ptr) (q : Ptr) → Chain m p (xs ++ e ∷ ys) q → Chain m e ys q
  next-of_Chain p [] ys q c = c.2
  next-of_Chain p (x ∷ xs) ys q c = next-of_Chain x xs ys q c.2

  pub prev-of_Chain :
      (p : Ptr) (xs ys : List Ptr) (q : Ptr) → Chain m p (xs ++ e ∷ ys) q → m.prev e ≡ last p xs
  prev-of_Chain p [] ys q c = c.1
  prev-of_Chain p (x ∷ xs) ys q c = prev-of_Chain x xs ys q c.2

  next_ne : (a : Ptr) (ys : List Ptr) (q : Ptr) → Chain m e ys q → NotIn a ys → a ≢ q → a ≢ m.next e
  next_ne a [] q c h ne = ground arith
  next_ne a (y ∷ ys) q c h ne = ground arith

  end_ne : (x : Ptr) (xs ys : List Ptr) → Distinct (x ∷ (xs ++ e ∷ ys)) → e ≢ last x xs
  end_ne x xs ys d =
      let h : NotIn e (x ∷ xs) =
        NotIn-append_left e (x ∷ xs) ys (NotIn-of_middle e (x ∷ xs) ys d) in
      NotIn-last e x xs h.0 h.1

  -- The nodes before and behind it are joined.
  pub Chain-remove :
      (p : Ptr) (xs ys : List Ptr) (q : Ptr)
      → Chain m p (xs ++ e ∷ ys) q
      → Distinct (p ∷ (xs ++ e ∷ ys))
      → NotIn q (xs ++ e ∷ ys)
      → Chain (remove m e) p (xs ++ ys) q
  Chain-remove p [] [] q c d n = (ground (arith, next_remove p), ground (arith, prev_remove q))
  Chain-remove p [] (y ∷ ys) q c d n = (
    ground (arith, next_remove p),
    ground (arith, prev_remove y),
    Chain-remove_apart y ys q c.2.2 (ground arith) (subst (λ z. NotIn z (y ∷ ys)) (sym c.1) d.0.1) (
        subst (λ z. NotIn z (ys ++ q ∷ [])) (sym c.2.0)
          (NotIn-append y ys (q ∷ []) d.1.1.0 ((λ z. n.1.0 (sym z)), tt))),
  )
  Chain-remove p (x ∷ xs) ys q c d n = (
    ground (
      arith,
      next_remove p,
      prev-of_Chain x xs ys q c.2,
      NotIn-last p x xs d.0.0 (NotIn-append_left p xs (e ∷ ys) d.0.1),
    ),
    ground (
      arith,
      prev_remove x,
      prev-of_Chain x xs ys q c.2,
      end_ne x xs ys d.1,
      next_ne x ys q (next-of_Chain x xs ys q c.2) ((NotIn-append_right x xs (e ∷ ys) d.1.0).1)
          (λ z. n.0 (sym z)),
    ),
    Chain-remove x xs ys q c.2 d.1 n.1,
  )
