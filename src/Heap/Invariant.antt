-- ===== src/Heap/Invariant.antt =====
-- What holds of the heap between calls, and the blocks that have been given out.
use mcy_os.Prelude.{ℕ, ◌%◌, ◌^◌, ◌<◌, ◌≡◌, Bool, true, false, not, ◌&&◌, Option, none, some}
use mcy_os.Memory.{pg_size}
use mcy_os.Memory.Arena.{block2arena}
use mcy_os.Heap.{ArenaHead, HeapState, elem}
use mcy_os.Heap.Counts.{Nodup, count_where}
use mcy_os.Heap.Blocks.{blocks}

-- An arena of blocks lies at a page, and its count is that of its blocks in the free list.
pub record IsArena (h : HeapState) (a : ℕ) (head : ArenaHead) (i : ℕ) : Type 0 where
  pub small : i < 7
  pub aligned : a % pg_size ≡ 0
  pub word : a < 2 ^ 32
  pub counted : head.cnt ≡ count_where (λ b. elem b (h.free_list i)) (blocks a i)

-- A free block belongs to an arena with the descriptor of its list.
abbrev pub InArena : HeapState → ℕ → ℕ → Type 0
InArena h i b =
    (head : ArenaHead) × (h.arenas (block2arena b) ≡ some head)
    × (head.desc ≡ some i)
    × (elem b (blocks (block2arena b) i) ≡ true)

pub record IsHeap (h : HeapState) : Type 0 where
  pub distinct : (i : ℕ) → Nodup (h.free_list i)
  pub in_arena : (i b : ℕ) → elem b (h.free_list i) ≡ true → InArena h i b
  pub heads :
      (a i : ℕ) (head : ArenaHead)
      → h.arenas a ≡ some head
      → head.desc ≡ some i
      → IsArena h a head i

-- Whether a block of an arena has been given out: it is one of the arena's and not in its free list.
abbrev pub out_of : HeapState → ℕ → Option ℕ → Bool
out_of h b none = false
out_of h b (some i) = elem b (blocks (block2arena b) i) && not (elem b (h.free_list i))

abbrev pub out_in : HeapState → ℕ → Option ArenaHead → Bool
out_in h b none = false
out_in h b (some head) = out_of h b head.desc

unfoldable pub is_out : HeapState → ℕ → Bool
is_out h b = out_in h b (h.arenas (block2arena b))

-- The free list of an arena's descriptor, as a test.
abbrev pub is_free : HeapState → ℕ → ℕ → Bool
is_free h i b = elem b (h.free_list i)
