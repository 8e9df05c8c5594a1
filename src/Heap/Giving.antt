-- ===== src/Heap/Giving.antt =====
-- `sys_free` of a small block.
use mcy_os.Prelude.{
  ℕ, ◌≡◌, refl, ap, ◌∙◌, ◌≢◌, true, false, not, ◌||◌, Option, none, some, List, [], ◌∷◌, ◌++◌,
  arith, ℕ_discrete, leb, ◌==◌, if◌then◌else◌, ==_refl, ==_ne, add32, Result, ok, ◌>>=◌,
}
use mcy_os.Memory.{Memory}
use mcy_os.Memory.Frames.{mfree_page}
use mcy_os.Memory.Arena.{desc_at, block2arena}
use mcy_os.Heap.{
  ArenaHead, HeapState, with_free_list, elem, pool_of, count_head, take_blocks, free_arena,
  free_small, free_desc, free_head, sys_free,
}
use mcy_os.Heap.Counts.{
  Nodup, Nodup-snoc, elem-append, count_where, count_where-more, count_where-le,
}
use mcy_os.Heap.Blocks.{blocks, length-blocks, elem-pos, blocks-Nodup, per_arena_bounds}
use mcy_os.Heap.Invariant.{IsArena, InArena, IsHeap, is_out, out_in, out_of}
use mcy_os.Heap.Moving.{moved, head_self, moved-IsHeap, moved-is_out_self, moved-is_out_other}
use mcy_os.Heap.Shrinking.{shrink, shrunk, free_arena-ok, shrunk-IsHeap, shrunk-is_out}

-- What it means that a block is out.
record IsOut (h : HeapState) (b : ℕ) : Type 0 where
  i : ℕ
  head : ArenaHead
  found : h.arenas (block2arena b) ≡ some head
  of_desc : head.desc ≡ some i
  block : elem b (blocks (block2arena b) i) ≡ true
  not_free : elem b (h.free_list i) ≡ false

is_out-IsOut : (h : HeapState) (b : ℕ) → is_out h b ≡ true → IsOut h b
unfolding is_out
is_out-IsOut h b out = of_head (h.arenas (block2arena b)) refl out
  where
    of_index :
        (head : ArenaHead) (d : Option ℕ)
        → h.arenas (block2arena b) ≡ some head
        → head.desc ≡ d
        → out_of h b d ≡ true
        → IsOut h b
    of_index head none found e o = absurd cc
    of_index head (some j) found e o = record {
      i = j;
      head = head;
      found = found;
      of_desc = e;
      block = ground (arith, o);
      not_free = ground (arith, o);
    }

    of_head :
        (x : Option ArenaHead) → h.arenas (block2arena b) ≡ x → out_in h b x ≡ true → IsOut h b
    of_head none found o = absurd cc
    of_head (some head) found o = of_index head head.desc found refl o

-- The page of the block's arena can be given back.
abbrev pub PageGoesBack : HeapState → ℕ → Type 0
PageGoesBack h b = (m : Memory) × (mfree_page (pool_of h) (block2arena b) 1 h.memory ≡ ok m)

record Back (h : HeapState) (call : Result HeapState) (b : ℕ) : Type 0 where
  after : HeapState
  result : call ≡ ok after
  sound : IsHeap after
  is_in : is_out after b ≡ false
  others : (c : ℕ) → b ≢ c → is_out after c ≡ is_out h c

module _ (h : HeapState) (v : IsHeap h) (b : ℕ) (o : IsOut h b) where
  abbrev i : ℕ
  i = o.i

  abbrev place : InArena h i b
  place = (o.head, o.found, o.of_desc, o.block)

  arena : IsArena h (block2arena b) (o.head) i
  arena = v.heads (block2arena b) i (o.head) (o.found) (o.of_desc)

  longer : List ℕ
  longer = h.free_list i ++ b ∷ []

  now_in : (c : ℕ) → elem c longer ≡ (if b == c then true else elem c (h.free_list i))
  unfolding longer
  now_in c = elem-append c (h.free_list i) (b ∷ []) ∙ ground arith

  one_more : add32 (o.head).cnt 1 ≡ count_where (λ c. elem c longer) (blocks (block2arena b) i)
  one_more =
      let bs = blocks (block2arena b) i in
      let uniq = blocks-Nodup (block2arena b) i arena.aligned arena.word arena.small in
      omega (
        arith,
        arena.counted,
        count_where-more (λ c. elem c (h.free_list i)) (λ c. elem c longer) b now_in bs (o.not_free)
            uniq (o.block),
        count_where-le (λ c. elem c (h.free_list i)) bs,
        length-blocks (block2arena b) i,
        (per_arena_bounds i arena.small).1,
      )

  longer-Nodup : Nodup longer
  unfolding longer
  longer-Nodup = Nodup-snoc b (h.free_list i) (v.distinct i) (o.not_free)

  change : (c : ℕ) → b ≢ c → elem c longer ≡ elem c (h.free_list i)
  change c ne = now_in c ∙ rw (==_ne b c ne) refl

  abbrev put : HeapState
  put = moved h v i b longer (add32 (o.head).cnt 1) place longer-Nodup change one_more

  put-IsHeap : IsHeap put
  put-IsHeap = moved-IsHeap h v i b longer (add32 (o.head).cnt 1) place longer-Nodup change one_more

  put_head : put.arenas (block2arena b) ≡ some (record (o.head) { cnt = add32 (o.head).cnt 1 })
  put_head = head_self h v i b longer (add32 (o.head).cnt 1) place longer-Nodup change one_more

  put_in : is_out put b ≡ false
  put_in =
      let within : elem b longer ≡ true = now_in b ∙ rw (==_refl b) refl in
      moved-is_out_self h v i b longer (add32 (o.head).cnt 1) place longer-Nodup change one_more
      ∙ ap not within

  put_others : (c : ℕ) → b ≢ c → is_out put c ≡ is_out h c
  put_others =
      moved-is_out_other h v i b longer (add32 (o.head).cnt 1) place longer-Nodup change one_more

  -- The rest of the call, from the heap with the block in its list.
  abbrev after_put : HeapState × ArenaHead → Result HeapState
  after_put r =
      let per_arena = (desc_at i).block_per_arena in
      let emptied = take_blocks per_arena (block2arena b) i 0 ((r.0).free_list i) >>= λ bs.
      free_arena (block2arena b) 1 (with_free_list i bs (r.0)) in
      if (r.1).cnt == per_arena then emptied else ok (r.0)

  free_small-ok : free_small b i h ≡ after_put (put, record (o.head) { cnt = add32 (o.head).cnt 1 })
  unfolding free_small count_head longer
  free_small-ok =
      ap
        (λ (x : Option ArenaHead).
          count_head (λ n. add32 n 1) b (with_free_list i (h.free_list i ++ b ∷ []) h) x
          >>= after_put)
        (o.found)

  free_small_lem : PageGoesBack h b → Back h (free_small b i h) b
  free_small_lem (m, back) = elim (ℕ_discrete (add32 (o.head).cnt 1) (desc_at i).block_per_arena) [
    | no some_out ↦ record {
      after = put;
      result = free_small-ok ∙ rw (==_ne _ _ some_out) refl;
      sound = put-IsHeap;
      is_in = put_in;
      others = put_others;
    }
    | yes full ↦
        let now = record (o.head) { cnt = add32 (o.head).cnt 1 } in
        let s = shrink put put-IsHeap i (block2arena b) now put_head (o.of_desc) full m back in
        let gone = shrunk put put-IsHeap i (block2arena b) now put_head (o.of_desc) full m back in
        let kept =
          shrunk-is_out put put-IsHeap i (block2arena b) now put_head (o.of_desc) full m back in
        record {
          after = gone;
          result =
              free_small-ok
              ∙ rw
                  (
                    ap (λ n. n == (desc_at i).block_per_arena) full,
                    ==_refl (desc_at i).block_per_arena,
                    s.result,
                  )
                  (free_arena-ok put put-IsHeap i (block2arena b) now put_head (o.of_desc) full m
                    back);
          sound =
              shrunk-IsHeap put put-IsHeap i (block2arena b) now put_head (o.of_desc) full m back;
          is_in = kept b ∙ put_in;
          others = λ c ne. kept c ∙ put_others c ne;
        }
  ]

-- In a sound heap, `sys_free` of a block that is out, from the kernel's heap where the task has no
-- page directory, does not stop the machine where the page of the block's arena can be given back.
-- The block is then no longer out, every other block is out as before, and the heap is sound.
pub sys_free_lem :
    (h : HeapState) (b : ℕ)
    → IsHeap h
    → is_out h b ≡ true
    → (h.memory.has_pgdir || leb 0xc0100000 b) ≡ true
    → PageGoesBack h b
    → (h' : HeapState) × (sys_free b h ≡ ok h')
      × IsHeap h'
      × (is_out h' b ≡ false)
      × ((c : ℕ) → b ≢ c → is_out h' c ≡ is_out h c)
unfolding sys_free free_head free_desc
sys_free_lem h b v out of_heap back =
    let o = is_out-IsOut h b out in
    let r = free_small_lem h v b o back in
    let arena = v.heads (block2arena b) (o.i) (o.head) (o.found) (o.of_desc) in
    let pos = elem-pos (block2arena b) (o.i) arena.aligned arena.word arena.small b (o.block) in
    let not_null : (b == 0) ≡ false = ground (arith, pos) in
    (
      r.after,
      rw (not_null, of_heap)
          (ap (free_head b h) (o.found) ∙ ap (free_desc b h (o.head)) (o.of_desc) ∙ r.result),
      r.sound,
      r.is_in,
      r.others,
    )
