-- ===== src/Heap.antt =====
-- lib/kernel/memory.c: sys_malloc and sys_free, over the pages of Memory and the places of blocks of
-- Memory/Arena. The free lists are those of the running task: `k_block_descs` for a task that has no
-- page directory of its own, and `u_block_desc` for a process. A list is the sequence of its blocks
-- (LinkedList/Lists has what the nodes in memory do), the head of an arena is kept by the address of
-- its page, and what the blocks hold is left out, as are the locks of the pools.
pub mod Blocks
pub mod Counts
pub mod Invariant
pub mod Moving
pub mod Growing
pub mod Taking
pub mod Shrinking
pub mod Giving
mod Tests
use mcy_os.Prelude.{
  ℕ, zero, suc, ◌+◌, ◌-◌, ◌*◌, ◌/◌, ◌%◌, ◌^◌, ◌≤◌, ◌<◌, ◌≡◌, refl, sym, ap, ap₂, subst, ◌∙◌, ◌≢◌,
  ◌↔◌, ◌⊎◌, inl, inr, Bool, true, false, not, ◌&&◌, ◌||◌, Option, none, some, List, [], ◌∷◌, ◌++◌,
  arith, dec_lt, ℕ_discrete, all_below, all_below_sound, ltb, leb, ◌==◌, if◌then◌else◌, ltb→lt,
  lt→ltb, le→not_ltb, leb→le, ==_iff, ==_refl, ==_ne, Bool-cases, and_left, and_right, minus_one,
  add32, sub32, length, get_or, set, take, drop, replicate, length-append, length-set,
  get_or-set_self, get_or-set_ne, get_or-set, get_or_outside, length-replicate, get_or-replicate,
  Result, ok, panic, ◌>>=◌, ◌>>◌, assert,
}
use mcy_os.Memory.{null, PoolFlags, pf_kernel, pf_user, Memory, frame_pool, malloc_page}
use mcy_os.Memory.Frames.{mfree_page}
use mcy_os.Memory.Arena.{MemBlockDesc, arena_size, desc_at, arena2block, block2arena}

-- `struct arena`; the descriptor is its index, and null for a large block
pub record ArenaHead : Type 0 where
  pub desc : Option ℕ
  pub cnt : ℕ
  pub large : Bool

-- `arenas` is `none` at a page at which no arena begins.
pub record HeapState : Type 0 where
  pub memory : Memory
  pub free_list : ℕ → List ℕ
  pub arenas : ℕ → Option ArenaHead

abbrev pub with_free_list : ℕ → List ℕ → HeapState → HeapState
with_free_list i blocks h = record h { free_list = λ j. if j == i then blocks else h.free_list j }

abbrev pub with_arena : ℕ → Option ArenaHead → HeapState → HeapState
with_arena a head h = record h { arenas = λ b. if b == a then head else h.arenas b }

-- `elem_find`, and `list_remove` of a block of the list
abbrev pub elem : ℕ → List ℕ → Bool
elem b [] = false
elem b (c ∷ cs) = c == b || elem b cs

abbrev pub remove : ℕ → List ℕ → List ℕ
remove b [] = []
remove b (c ∷ cs) = let rest = remove b cs in if c == b then cs else c ∷ rest

abbrev pub pool_of : HeapState → PoolFlags
pool_of h = if h.memory.has_pgdir then pf_user else pf_kernel

-- The search for the first descriptor whose blocks are large enough, with the rounds left.
unfoldable pub desc_idx_from : ℕ → ℕ → ℕ → ℕ
desc_idx_from zero desc_idx size = desc_idx
desc_idx_from (suc left) desc_idx size =
    let rest = desc_idx_from left (desc_idx + 1) size in
    if leb size (desc_at desc_idx).block_size then desc_idx else rest

-- The loop that puts the blocks of a new arena into the free list.
unfoldable pub add_blocks : ℕ → ℕ → ℕ → ℕ → List ℕ → Result (List ℕ)
add_blocks zero a i block_idx free_list = ok free_list
add_blocks (suc left) a i block_idx free_list =
    let b = arena2block a (desc_at i) block_idx in
    let rest = add_blocks left a i (block_idx + 1) (free_list ++ b ∷ []) in
    assert (not (elem b free_list)) >> rest

abbrev pub small_arena : ℕ → ArenaHead
small_arena i = record { desc = some i; cnt = (desc_at i).block_per_arena; large = false }

-- A new arena for a descriptor, and whether there was a page for it.
unfoldable pub new_arena : ℕ → HeapState → Result (HeapState × Bool)
new_arena i h = do
  r ← malloc_page (pool_of h) 1 h.memory
  let h1 = with_arena (r.1) (some (small_arena i)) (record h { memory = r.0 })
  let filled = add_blocks (desc_at i).block_per_arena (r.1) i 0 (h.free_list i) >>= λ blocks.
      ok (with_free_list i blocks h1, true)
  if r.1 == null then ok (record h { memory = r.0 }, false) else filled

-- The head of the arena of `b` with another count. There is no arena behind a bad pointer.
unfoldable pub count_head :
    (ℕ → ℕ) → ℕ → HeapState → Option ArenaHead → Result (HeapState × ArenaHead)
count_head f b h none = panic
count_head f b h (some a) =
    let a' = record a { cnt = f a.cnt } in ok (with_arena (block2arena b) (some a') h, a')

abbrev pub count_block : (ℕ → ℕ) → ℕ → HeapState → Result (HeapState × ArenaHead)
count_block f b h = count_head f b h (h.arenas (block2arena b))

-- `list_pop` of a list that has a block, which is the rest of `sys_malloc`
unfoldable pub pop_from : ℕ → HeapState → List ℕ → Result (HeapState × ℕ)
pop_from i h [] = panic
pop_from i h (b ∷ rest) =
    count_block (λ n. sub32 n 1) b (with_free_list i rest h) >>= λ r. ok (r.0, b)

abbrev pub pop_block : ℕ → HeapState → Result (HeapState × ℕ)
pop_block i h = pop_from i h (h.free_list i)

abbrev pub is_empty : List ℕ → Bool
is_empty [] = true
is_empty (_ ∷ _) = false

unfoldable pub malloc_small : ℕ → HeapState → Result (HeapState × ℕ)
malloc_small size h =
    let i = desc_idx_from 7 0 size in
    let from_new = new_arena i h >>= λ r.
    let popped = pop_block i (r.0) in if r.1 then popped else ok (r.0, null) in
    if is_empty (h.free_list i) then from_new else pop_block i h

-- `DIV_ROUND_UP(size + sizeof(struct arena), PG_SIZE)`
unfoldable pub malloc_large : ℕ → HeapState → Result (HeapState × ℕ)
malloc_large size h = do
  let page_cnt = add32 (add32 size arena_size) 4095 / 4096
  r ← malloc_page (pool_of h) page_cnt h.memory
  let h1 = record h { memory = r.0 }
  let a : ArenaHead = record { desc = none; cnt = page_cnt; large = true }
  ok (if r.1 == null then (h1, null) else (with_arena (r.1) (some a) h1, add32 (r.1) arena_size))

unfoldable pub sys_malloc : ℕ → HeapState → Result (HeapState × ℕ)
sys_malloc size h =
    let pool_size = (frame_pool (pool_of h) h.memory).pool_size in
    if not (ltb 0 size && ltb size pool_size)
    then ok (h, null)
    else if ltb 1024 size
    then malloc_large size h
    else malloc_small size h

-- The loop that takes the blocks of an arena out of the free list.
unfoldable pub take_blocks : ℕ → ℕ → ℕ → ℕ → List ℕ → Result (List ℕ)
take_blocks zero a i block_idx free_list = ok free_list
take_blocks (suc left) a i block_idx free_list =
    let b = arena2block a (desc_at i) block_idx in
    assert (elem b free_list) >> take_blocks left a i (block_idx + 1) (remove b free_list)

-- The pages go back to the pool, and no arena begins there any more.
unfoldable pub free_arena : ℕ → ℕ → HeapState → Result HeapState
free_arena a pg_cnt h = mfree_page (pool_of h) a pg_cnt h.memory >>= λ m.
    ok (with_arena a none (record h { memory = m }))

unfoldable pub free_small : ℕ → ℕ → HeapState → Result HeapState
free_small b i h = do
  r ← count_block (λ n. add32 n 1) b (with_free_list i (h.free_list i ++ b ∷ []) h)
  let per_arena = (desc_at i).block_per_arena
  let emptied = take_blocks per_arena (block2arena b) i 0 ((r.0).free_list i) >>= λ blocks.
      free_arena (block2arena b) 1 (with_free_list i blocks (r.0))
  if (r.1).cnt == per_arena then emptied else ok (r.0)

-- The part of `sys_free` after the head of the arena is known.
unfoldable pub free_desc : ℕ → HeapState → ArenaHead → Option ℕ → Result HeapState
free_desc ptr h a (some i) = free_small ptr i h
free_desc ptr h a none = if a.large then free_arena (block2arena ptr) a.cnt h else panic

unfoldable pub free_head : ℕ → HeapState → Option ArenaHead → Result HeapState
free_head ptr h none = panic
free_head ptr h (some a) = free_desc ptr h a a.desc

unfoldable pub sys_free : ℕ → HeapState → Result HeapState
sys_free ptr h = do
  assert (not (ptr == null))
  assert (h.memory.has_pgdir || leb 0xc0100000 ptr)
  free_head ptr h (h.arenas (block2arena ptr))
