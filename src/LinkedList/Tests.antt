-- ===== src/LinkedList/Tests.antt =====
-- A list of two nodes in memory.
use mcy_os.Prelude.{ℕ, ◌+◌, ◌≡◌, refl, Bool, true, some, [], ◌∷◌, arith, ◌==◌}
use mcy_os.LinkedList.{Ptr, Links, init, insert_before, append, remove, elem_find, find_from, len}
use mcy_os.LinkedList.Lists.{
  IsList, init-IsList, append-IsList, remove-IsList, elem_find-mem, len-length,
}

abbrev no_links : Links
no_links = record { prev = λ _. 0; next = λ _. 0 }

-- The list at 100 with the nodes 200 and 300.
two_nodes : Links
unfolding init append insert_before
two_nodes = append (append (init no_links 100) 100 200) 100 300

two_nodes-IsList : IsList two_nodes 100 (200 ∷ 300 ∷ [])
unfolding two_nodes
two_nodes-IsList =
    append-IsList (200 ∷ []) 300 (append-IsList [] 200 (init-IsList no_links 100) (omega arith))
      (omega arith)

find_300 : elem_find 3 two_nodes 100 300 ≡ some true
unfolding two_nodes elem_find find_from
find_300 = refl

remove-IsList_example : IsList (remove two_nodes 300) 100 (200 ∷ [])
remove-IsList_example = remove-IsList (200 ∷ []) 300 [] two_nodes-IsList

elem_find-mem_example : elem_find 3 two_nodes 100 300 ≡ some true
elem_find-mem_example = elem_find-mem (200 ∷ 300 ∷ []) 300 3 two_nodes-IsList (omega arith)

len-length_example : len 3 two_nodes 100 ≡ some 2
len-length_example = len-length (200 ∷ 300 ∷ []) 3 two_nodes-IsList (omega arith) (omega arith)

-- Counts the nodes it sees and stops at 300.
count_to : Ptr → ℕ → Bool × ℕ
count_to p n = (p == 300, n + 1)
