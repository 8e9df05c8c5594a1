-- ===== src/Heap/Taking.antt =====
-- `sys_malloc` of a small block.
use mcy_os.Prelude.{
  ℕ, ◌≤◌, ◌<◌, ◌≡◌, refl, sym, ap, subst, ◌∙◌, ◌≢◌, Bool, true, false, not, ◌&&◌, Option, List, [],
  ◌∷◌, arith, all_below, all_below_sound, ltb, leb, ◌==◌, if◌then◌else◌, ltb→lt, lt→ltb, leb→le,
  ==_ne, and_left, and_right, sub32, length, Result, ok, ◌>>=◌,
}
use mcy_os.Memory.{Memory, frame_pool}
use mcy_os.Memory.Arena.{desc_at, block2arena, block_desc_init, descs_from}
use mcy_os.Heap.{
  ArenaHead, HeapState, with_free_list, elem, pool_of, desc_idx_from, count_head, pop_from,
  pop_block, is_empty, malloc_small, sys_malloc,
}
use mcy_os.Heap.Counts.{Nodup, count_where, count_where-more, count_where-le}
use mcy_os.Heap.Blocks.{blocks, length-blocks, blocks-Nodup, per_arena_bounds}
use mcy_os.Heap.Invariant.{IsArena, InArena, IsHeap, is_out, out_in, out_of}
use mcy_os.Heap.Moving.{moved, head_self, moved-IsHeap, moved-is_out_self, moved-is_out_other}
use mcy_os.Heap.Growing.{NewPage, grown, new_arena-ok, list_self, grown-IsHeap, grown-is_out}

and_false : (x : Bool) → (x && false) ≡ false
and_false true = refl
and_false false = refl

-- A call has given out a block that was not out: one of an arena with the descriptor `i`. The heap
-- is sound, the block is out now, and every other block is out as before.
pub record Given (h : HeapState) (call : Result (HeapState × ℕ)) (i : ℕ) : Type 0 where
  pub after : HeapState
  pub block : ℕ
  pub result : call ≡ ok (after, block)
  pub sound : IsHeap after
  pub of_desc : InArena after i block
  pub was_in : is_out h block ≡ false
  pub is_out_now : is_out after block ≡ true
  pub others : (c : ℕ) → block ≢ c → is_out after c ≡ is_out h c

-- The block on top of a free list is taken off it.
module _ (h : HeapState) (v : IsHeap h) (i b : ℕ) (rest : List ℕ)
    (top : h.free_list i ≡ b ∷ rest) where
  is_member : elem b (h.free_list i) ≡ true
  is_member = rw top (ground arith)

  abbrev place : InArena h i b
  place = v.in_arena i b is_member

  abbrev head : ArenaHead
  head = (place).0

  fresh : elem b rest ≡ false
  fresh = (subst Nodup top (v.distinct i)).0

  arena : IsArena h (block2arena b) head i
  arena = v.heads (block2arena b) i head (place.1) (place.2)

  -- The test of the free list before and after.
  before : (c : ℕ) → elem c (h.free_list i) ≡ (if b == c then true else elem c rest)
  before c = rw top (ground arith)

  one_less : sub32 head.cnt 1 ≡ count_where (λ c. elem c rest) (blocks (block2arena b) i)
  one_less =
      let bs = blocks (block2arena b) i in
      let uniq = blocks-Nodup (block2arena b) i arena.aligned arena.word arena.small in
      omega (
        arith,
        arena.counted,
        count_where-more (λ c. elem c rest) (λ c. elem c (h.free_list i)) b before bs fresh uniq
            (place.3),
        count_where-le (λ c. elem c rest) bs,
        length-blocks (block2arena b) i,
        (per_arena_bounds i arena.small).1,
      )

  change : (c : ℕ) → b ≢ c → elem c rest ≡ elem c (h.free_list i)
  change c ne = sym (before c ∙ rw (==_ne b c ne) refl)

  rest-Nodup : Nodup rest
  rest-Nodup = (subst Nodup top (v.distinct i)).1

  abbrev taken : HeapState
  taken = moved h v i b rest (sub32 head.cnt 1) place rest-Nodup change one_less

  pop_block-ok : pop_block i h ≡ ok (taken, b)
  unfolding pop_from count_head
  pop_block-ok =
      ap (pop_from i h) top
      ∙ ap
          (λ (x : Option ArenaHead).
            count_head (λ n. sub32 n 1) b (with_free_list i rest h) x >>= λ r. ok (r.0, b))
          (place.1)

  was_in : is_out h b ≡ false
  unfolding is_out
  was_in =
      ap (out_in h b) (place.1)
      ∙ ap (out_of h b) (place.2)
      ∙ ap (λ (x : Bool). elem b (blocks (block2arena b) i) && not x) is_member
      ∙ and_false (elem b (blocks (block2arena b) i))

  -- What taking the top of a list does.
  pop_block_lem : Given h (pop_block i h) i
  pop_block_lem = record {
    after = taken;
    block = b;
    result = pop_block-ok;
    sound = moved-IsHeap h v i b rest (sub32 head.cnt 1) place rest-Nodup change one_less;
    of_desc = (
      record head { cnt = sub32 head.cnt 1 },
      head_self h v i b rest (sub32 head.cnt 1) place rest-Nodup change one_less,
      place.2,
      place.3,
    );
    was_in = was_in;
    is_out_now =
        moved-is_out_self h v i b rest (sub32 head.cnt 1) place rest-Nodup change one_less
        ∙ ap not fresh;
    others = moved-is_out_other h v i b rest (sub32 head.cnt 1) place rest-Nodup change one_less;
  }

fits_desc : ℕ → Bool
fits_desc size =
    ltb (desc_idx_from 7 0 size) 7 && leb size (desc_at (desc_idx_from 7 0 size)).block_size

all_fits_desc : all_below 1025 fits_desc ≡ true
unfolding all_below fits_desc desc_idx_from block_desc_init descs_from
all_fits_desc = refl

-- The descriptor that is found for a size.
pub desc_idx_lem :
    (size : ℕ)
    → size ≤ 1024
    → (desc_idx_from 7 0 size < 7) × (size ≤ (desc_at (desc_idx_from 7 0 size)).block_size)
unfolding fits_desc
desc_idx_lem size small =
    let fine = all_below_sound 1025 fits_desc size all_fits_desc (omega arith) in
    (ltb→lt _ _ (and_left _ _ fine), leb→le _ _ (and_right _ _ fine))

-- Where the free list of a descriptor is empty, there is a page for a new arena.
abbrev pub PageIfEmpty : HeapState → ℕ → Type 0
PageIfEmpty h i = h.free_list i ≡ [] → (m : Memory) × (a : ℕ) × NewPage h m a

first_of : (bs : List ℕ) → 1 ≤ length bs → (b : ℕ) × (rest : List ℕ) × (bs ≡ b ∷ rest)
first_of [] long = absurd (omega arith)
first_of (b ∷ rest) long = (b, rest, refl)

module _ (h : HeapState) (v : IsHeap h) (size : ℕ) (small : size ≤ 1024) where
  abbrev desc_idx : ℕ
  desc_idx = desc_idx_from 7 0 size

  malloc_small_lem :
      (l : List ℕ)
      → h.free_list desc_idx ≡ l
      → PageIfEmpty h desc_idx
      → Given h (malloc_small size h) desc_idx
  unfolding malloc_small
  malloc_small_lem (b ∷ rest) top page =
      let g = pop_block_lem h v desc_idx b rest top in
      record {
        after = g.after;
        block = g.block;
        result = rw (ap is_empty top) (g.result);
        sound = g.sound;
        of_desc = g.of_desc;
        was_in = g.was_in;
        is_out_now = g.is_out_now;
        others = g.others;
      }
  malloc_small_lem [] empty page =
      let (m, a, p) = page empty in
      let in_range = (desc_idx_lem size small).0 in
      let h1 = grown h v desc_idx in_range empty m a p in
      let (b, rest, top) =
        first_of (blocks a desc_idx)
          (omega (arith, length-blocks a desc_idx, (per_arena_bounds desc_idx in_range).0)) in
      let g =
        pop_block_lem h1 (grown-IsHeap h v desc_idx in_range empty m a p) desc_idx b rest
          (list_self h v desc_idx in_range empty m a p ∙ top) in
      record {
        after = g.after;
        block = g.block;
        result = rw (ap is_empty empty, new_arena-ok h v desc_idx in_range empty m a p) (g.result);
        sound = g.sound;
        of_desc = g.of_desc;
        was_in = sym (grown-is_out h v desc_idx in_range empty m a p g.block) ∙ g.was_in;
        is_out_now = g.is_out_now;
        others = λ c ne. g.others c ne ∙ grown-is_out h v desc_idx in_range empty m a p c;
      }

-- In a sound heap, `sys_malloc` of 1 to 1024 bytes, fewer than the pool has, returns a block where
-- the free list of its descriptor has one or a page for a new arena is given. The block is at least
-- as large as asked for and lies in an arena of that descriptor; it had not been given out and now
-- is, every other block is out as before, and the heap is sound.
pub sys_malloc_lem :
    (h : HeapState) (size : ℕ)
    → IsHeap h
    → 0 < size
    → size ≤ 1024
    → size < (frame_pool (pool_of h) h.memory).pool_size
    → PageIfEmpty h (desc_idx_from 7 0 size)
    → (h' : HeapState) × (b : ℕ) × (sys_malloc size h ≡ ok (h', b))
      × IsHeap h'
      × (size ≤ (desc_at (desc_idx_from 7 0 size)).block_size)
      × InArena h' (desc_idx_from 7 0 size) b
      × (is_out h b ≡ false)
      × (is_out h' b ≡ true)
      × ((c : ℕ) → b ≢ c → is_out h' c ≡ is_out h c)
unfolding sys_malloc
sys_malloc_lem h size v pos small room page =
    let i = desc_idx_from 7 0 size in
    let g = malloc_small_lem h v size small (h.free_list i) refl page in
    let wanted : (ltb 0 size && ltb size (frame_pool (pool_of h) h.memory).pool_size) ≡ true =
      rw (lt→ltb 0 size pos) (lt→ltb _ _ room) in
    let is_small : ltb 1024 size ≡ false = ground arith in
    (
      g.after,
      g.block,
      rw (wanted, is_small) (g.result),
      g.sound,
      (desc_idx_lem size small).1,
      g.of_desc,
      g.was_in,
      g.is_out_now,
      g.others,
    )
