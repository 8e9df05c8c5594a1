-- ===== src/LinkedList/Insert.antt =====
-- `list_insert_before` puts a node into a chain.
use mcy_os.Prelude.{subst, sym, ◌≡◌, ◌≢◌, List, [], ◌∷◌, ◌++◌, arith, ◌==◌, if◌then◌else◌}
use mcy_os.LinkedList.{Ptr, Links, insert_before}
use mcy_os.LinkedList.Chain.{Chain, NotIn, Distinct, prev-last, NotIn-last, NotIn-append}

module _ (m : Links) (b e : Ptr) (apart : b ≢ e) where
  -- The four fields that change.
  next_insert :
      (a : Ptr)
      → (insert_before m b e).next a ≡ (if a == e then b else if a == m.prev b then e else m.next a)
  unfolding insert_before
  next_insert a = ground arith

  prev_insert :
      (a : Ptr)
      → (insert_before m b e).prev a ≡ (if a == b then e else if a == e then m.prev b else m.prev a)
  unfolding insert_before
  prev_insert a = ground arith

  -- In front of `b`, at the end of a chain that leads to `b`.
  pub Chain-insert :
      (p : Ptr) (xs : List Ptr)
      → Chain m p xs b
      → Distinct (p ∷ xs)
      → NotIn e (p ∷ xs)
      → NotIn b xs
      → Chain (insert_before m b e) p (xs ++ e ∷ []) b
  Chain-insert p [] c d n h = (
    ground (arith, next_insert p),
    ground (arith, prev_insert e),
    (ground (arith, next_insert e), ground (arith, prev_insert b)),
  )
  Chain-insert p (x ∷ xs) c d n h = (
    ground (arith, next_insert p, prev-last m p (x ∷ xs) b c, NotIn-last p x xs d.0.0 d.0.1),
    ground (arith, prev_insert x),
    Chain-insert x xs c.2 d.1 n.1 h.1,
  )

  -- A chain that has none of the nodes that change stays as it is.
  pub Chain-insert_apart :
      (p : Ptr) (xs : List Ptr) (q : Ptr)
      → Chain m p xs q
      → NotIn e (p ∷ xs)
      → NotIn (m.prev b) (p ∷ xs)
      → NotIn e (xs ++ q ∷ [])
      → NotIn b (xs ++ q ∷ [])
      → Chain (insert_before m b e) p xs q
  Chain-insert_apart p [] q c ep bp eq bq =
      (ground (arith, next_insert p), ground (arith, prev_insert q))
  Chain-insert_apart p (x ∷ xs) q c ep bp eq bq = (
    ground (arith, next_insert p),
    ground (arith, prev_insert x),
    Chain-insert_apart x xs q c.2 ep.1 bp.1 eq.1 bq.1,
  )

  -- In front of the first node of a chain from `p`.
  pub Chain-insert_first :
      (p : Ptr) (xs : List Ptr) (q : Ptr)
      → Chain m p (b ∷ xs) q
      → NotIn p (b ∷ xs)
      → NotIn e (p ∷ b ∷ xs)
      → NotIn e (q ∷ [])
      → NotIn b (xs ++ q ∷ [])
      → Chain (insert_before m b e) p (e ∷ b ∷ xs) q
  Chain-insert_first p xs q c d n nq hb = (
    ground (arith, next_insert p),
    ground (arith, prev_insert e),
    (
      ground (arith, next_insert e),
      ground (arith, prev_insert b),
      Chain-insert_apart b xs q c.2 (n.1.0, n.1.1) (subst (λ z. NotIn z (b ∷ xs)) (sym c.1) d)
          (NotIn-append e xs (q ∷ []) n.1.1 nq) hb,
    ),
  )
