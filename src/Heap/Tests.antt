-- ===== src/Heap/Tests.antt =====
-- The kernel's heap with one arena of three blocks of 1024 bytes, of which the first one is out.
use mcy_os.Prelude.{
  ℕ, ◌+◌, ◌≤◌, ◌≡◌, refl, sym, ap, subst, ◌∙◌, ◌≢◌, ◌⊎◌, inl, inr, true, false, not, ◌&&◌, none,
  some, List, [], ◌∷◌, arith, ℕ_discrete, ◌==◌, if◌then◌else◌, ==_ne, Bool-cases, Result, ok, panic,
}
use mcy_os.Bitmap.{Bitmap, scan_test, set_byte}
use mcy_os.Bitmap
use mcy_os.Memory.{Memory, set_bits}
use mcy_os.Memory.Frames.{mfree_page, free_pages, pfree, page_table_pte_remove, vaddr_remove}
use mcy_os.Memory.Arena.{desc_at, arena2block, block2arena, block_desc_init, descs_from}
use mcy_os.Heap.{ArenaHead, HeapState, elem, pool_of, desc_idx_from, sys_malloc, sys_free}
use mcy_os.Heap.Counts.{Nodup, count_where}
use mcy_os.Heap.Blocks.{blocks, blocks_from}
use mcy_os.Heap.Invariant.{IsArena, InArena, IsHeap, is_out}
use mcy_os.Heap.Taking.{PageIfEmpty, sys_malloc_lem}
use mcy_os.Heap.Giving.{PageGoesBack, sys_free_lem}

abbrev one_used : Bitmap
one_used = record { btmp_bytes_len = 1; bits = 1 ∷ [] }

abbrev page : ℕ
page = 0xc0100000

abbrev memory : Memory
memory = record {
  kernel_pool = record { pool_bitmap = one_used; phy_addr_start = 0x200000; pool_size = 0x8000 };
  user_pool = record { pool_bitmap = one_used; phy_addr_start = 0x400000; pool_size = 0x8000 };
  kernel_vaddr = record { vaddr_bitmap = one_used; vaddr_start = page };
  userprog_vaddr = record { vaddr_bitmap = one_used; vaddr_start = 0x8048000 };
  has_pgdir = false;
  pde = λ d. 0x300007;
  pte = λ d t. 0x200007;
}

abbrev two_free : ArenaHead
two_free = record { desc = some 6; cnt = 2; large = false }

abbrev first_block : ℕ
first_block = page + 12

abbrev free_blocks : List ℕ
free_blocks = (page + 12 + 1024) ∷ (page + 12 + 2048) ∷ []

abbrev heap : HeapState
heap = record {
  memory = memory;
  free_list = λ i. if i == 6 then free_blocks else [];
  arenas = λ a. if a == page then some two_free else none;
}

blocks_lem : blocks page 6 ≡ first_block ∷ free_blocks
unfolding blocks blocks_from arena2block block_desc_init descs_from
blocks_lem = refl

heap-distinct : (i : ℕ) → Nodup (heap.free_list i)
heap-distinct i = elim (Bool-cases (i == 6)) [ inl e ↦ rw e (refl, (refl, tt)) | inr e ↦ rw e tt ]

two_cases : (b : ℕ) → elem b free_blocks ≡ true → (b ≡ page + 12 + 1024) ⊎ (b ≡ page + 12 + 2048)
two_cases b within = ground (arith, within)

in_arena_page : (b : ℕ) → elem b free_blocks ≡ true → InArena heap 6 b
unfolding block2arena
in_arena_page b within = elim (two_cases b within) [
  | inl e ↦
      subst (InArena heap 6) (sym e) (two_free, refl, refl, ap (elem (page + 12 + 1024)) blocks_lem)
  | inr e ↦
      subst (InArena heap 6) (sym e) (two_free, refl, refl, ap (elem (page + 12 + 2048)) blocks_lem)
]

heap-in_arena : (i b : ℕ) → elem b (heap.free_list i) ≡ true → InArena heap i b
heap-in_arena i b within = elim (ℕ_discrete i 6) [
  | yes e ↦
      subst (λ k. InArena heap k b) (sym e)
        (in_arena_page b (ap (λ (k : ℕ). elem b (heap.free_list k)) (sym e) ∙ within))
  | no ne ↦
      let nothing : heap.free_list i ≡ [] = rw (==_ne i 6 ne) refl in
      let empty : elem b (heap.free_list i) ≡ false = ap (elem b) nothing in absurd cc
]

heap-IsArena : IsArena heap page two_free 6
unfolding count_where
heap-IsArena = record {
  small = omega arith;
  aligned = refl;
  word = omega arith;
  counted = ap (count_where (λ b. elem b (heap.free_list 6))) (sym blocks_lem);
}

heap-heads :
    (a i : ℕ) (head : ArenaHead)
    → heap.arenas a ≡ some head
    → head.desc ≡ some i
    → IsArena heap a head i
heap-heads a i head e d = elim (ℕ_discrete a page) [
  | yes same ↦
      let both : some two_free ≡ some head = sym (ap heap.arenas same) ∙ e in
      let one : two_free ≡ head = cc in
      let which : some 6 ≡ some i = ap (λ (x : ArenaHead). x.desc) one ∙ d in
      let which' : 6 ≡ i = cc in
      subst (λ x. IsArena heap x head i) (sym same)
        (subst (λ x. IsArena heap page x i) one
          (subst (λ k. IsArena heap page two_free k) which' heap-IsArena))
  | no ne ↦ let nothing : heap.arenas a ≡ none = rw (==_ne a page ne) refl in absurd cc
]

heap-IsHeap : IsHeap heap
heap-IsHeap = record { distinct = heap-distinct; in_arena = heap-in_arena; heads = heap-heads }

first_block-is_out : is_out heap first_block ≡ true
unfolding is_out block2arena
first_block-is_out =
    ap (λ (bs : List ℕ). elem first_block bs && not (elem first_block free_blocks)) blocks_lem

abbrev memory_of : Result Memory → Memory
memory_of panic = memory
memory_of (ok m) = m

first_block-PageGoesBack : PageGoesBack heap first_block
unfolding mfree_page free_pages pfree page_table_pte_remove vaddr_remove set_bits block2arena
    Bitmap.set set_byte
first_block-PageGoesBack =
    (memory_of (mfree_page (pool_of heap) (block2arena first_block) 1 memory), refl)

abbrev idx : ℕ
idx = desc_idx_from 7 0 600

idx-eq-6 : desc_idx_from 7 0 600 ≡ 6
unfolding desc_idx_from block_desc_init descs_from
idx-eq-6 = refl

not_empty : PageIfEmpty heap idx
not_empty e =
    let both : heap.free_list 6 ≡ [] = ap heap.free_list (sym idx-eq-6) ∙ e in
    let both' : free_blocks ≡ [] = both in absurd cc

sys_malloc_lem_example :
    (h' : HeapState) × (b : ℕ) × (sys_malloc 600 heap ≡ ok (h', b))
    × IsHeap h'
    × (600 ≤ (desc_at idx).block_size)
    × InArena h' idx b
    × (is_out heap b ≡ false)
    × (is_out h' b ≡ true)
    × ((c : ℕ) → b ≢ c → is_out h' c ≡ is_out heap c)
sys_malloc_lem_example =
    sys_malloc_lem heap 600 heap-IsHeap (omega arith) (omega arith) (omega arith) not_empty

sys_free_lem_example :
    (h' : HeapState) × (sys_free first_block heap ≡ ok h')
    × IsHeap h'
    × (is_out h' first_block ≡ false)
    × ((c : ℕ) → first_block ≢ c → is_out h' c ≡ is_out heap c)
sys_free_lem_example =
    sys_free_lem heap first_block heap-IsHeap first_block-is_out refl first_block-PageGoesBack
