-- ===== src/LinkedList.antt =====
-- lib/kernel/list.c: doubly linked lists through `struct list_elem` nodes inside other structures.
-- An address is a number; the memory gives every address a `prev` and a `next` field. The two end
-- nodes of a `struct list` stand at its own address and 8 bytes behind it. Interrupts are off while
-- a function changes links, so it is one step.
pub mod Chain
pub mod Insert
pub mod Remove
pub mod Walk
pub mod Lists
mod Tests
use mcy_os.Prelude.{
  ℕ, zero, suc, ◌+◌, Bool, true, false, Option, none, some, ◌==◌, if◌then◌else◌, add32,
}

abbrev pub Ptr : Type 0
Ptr = ℕ

abbrev pub null : Ptr
null = 0

-- The `prev` and `next` fields of every `struct list_elem`.
pub record Links : Type 0 where
  pub prev : Ptr → Ptr
  pub next : Ptr → Ptr

abbrev pub update : (Ptr → Ptr) → Ptr → Ptr → Ptr → Ptr
update f p v a = if a == p then v else f a

-- `p->prev = v` and `p->next = v`
abbrev pub set_prev : Links → Ptr → Ptr → Links
set_prev m p v = record m { prev = update m.prev p v }

abbrev pub set_next : Links → Ptr → Ptr → Links
set_next m p v = record m { next = update m.next p v }

-- `&plist->head` and `&plist->tail`
abbrev pub head_of : Ptr → Ptr
head_of l = l

abbrev pub tail_of : Ptr → Ptr
tail_of l = l + 8

unfoldable pub init : Links → Ptr → Links
init m l =
    let m1 = set_prev m (head_of l) null in
    let m2 = set_next m1 (head_of l) (tail_of l) in
    let m3 = set_prev m2 (tail_of l) (head_of l) in set_next m3 (tail_of l) null

unfoldable pub insert_before : Links → Ptr → Ptr → Links
insert_before m before elem =
    let m1 = set_next m (m.prev before) elem in
    let m2 = set_prev m1 elem (m1.prev before) in
    let m3 = set_next m2 elem before in set_prev m3 before elem

unfoldable pub push : Links → Ptr → Ptr → Links
push m plist elem = insert_before m (m.next (head_of plist)) elem

unfoldable pub append : Links → Ptr → Ptr → Links
append m plist elem = insert_before m (tail_of plist) elem

unfoldable pub remove : Links → Ptr → Links
remove m pelem =
    let m1 = set_next m (m.prev pelem) (m.next pelem) in set_prev m1 (m1.next pelem) (m1.prev pelem)

unfoldable pub pop : Links → Ptr → Ptr × Links
pop m plist = let elem = m.next (head_of plist) in (elem, remove m elem)

unfoldable pub empty : Links → Ptr → Bool
empty m plist = if m.next (head_of plist) == tail_of plist then true else false

-- The loops run on fuel; `none` says that it ran out.
unfoldable pub find_from : ℕ → Links → Ptr → Ptr → Ptr → Option Bool
find_from zero m tail obj_elem elem = none
find_from (suc fuel) m tail obj_elem elem =
    let rest = find_from fuel m tail obj_elem (m.next elem) in
    if elem == tail then some false else if elem == obj_elem then some true else rest

unfoldable pub elem_find : ℕ → Links → Ptr → Ptr → Option Bool
elem_find fuel m plist obj_elem = find_from fuel m (tail_of plist) obj_elem (m.next (head_of plist))

-- `func` may change other memory, of type `S`. The answer is a node or NULL, with that memory.
module _ {S : Type 0} (func : Ptr → S → Bool × S) where
  unfoldable pub traverse_from : ℕ → Links → Ptr → Ptr → S → Option (Ptr × S)
  traverse_from zero m tail elem s = none
  traverse_from (suc fuel) m tail elem s =
      let (stop, s') = func elem s in
      let rest = traverse_from fuel m tail (m.next elem) s' in
      if elem == tail then some (null, s) else if stop then some (elem, s') else rest

  unfoldable pub traversal : ℕ → Links → Ptr → S → Option (Ptr × S)
  traversal fuel m plist s =
      if empty m plist
      then some (null, s)
      else traverse_from fuel m (tail_of plist) (m.next (head_of plist)) s

unfoldable pub len_from : ℕ → Links → Ptr → Ptr → ℕ → Option ℕ
len_from zero m tail elem length = none
len_from (suc fuel) m tail elem length =
    let rest = len_from fuel m tail (m.next elem) (add32 length 1) in
    if elem == tail then some length else rest

unfoldable pub len : ℕ → Links → Ptr → Option ℕ
len fuel m plist = len_from fuel m (tail_of plist) (m.next (head_of plist)) 0
