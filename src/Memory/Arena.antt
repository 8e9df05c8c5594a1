-- ===== src/Memory/Arena.antt =====
-- Arenas of lib/kernel/memory.c: the pages that `sys_malloc` cuts into blocks. `struct arena` is 12
-- bytes. The lists of free blocks start empty, and Heap has the heap that uses them.
use mcy_os.Prelude.{
  ℕ, zero, suc, ◌+◌, ◌-◌, ◌*◌, ◌/◌, ◌%◌, ◌^◌, ◌≤◌, ◌<◌, ◌≡◌, refl, Bool, true, ◌&&◌, List, [], ◌∷◌,
  arith, all_below, all_below_sound, leb, leb→le, and_left, and_right, get_or,
}
use native.Mathlib.Nat.{mul-le-mul_right}
use mcy_os.Memory.{pg_size}

-- `struct mem_block_desc`, without its list
pub record MemBlockDesc : Type 0 where
  pub block_size : ℕ
  pub block_per_arena : ℕ

abbrev pub arena_size : ℕ
arena_size = 12

-- The loop of `block_desc_init`, with the descriptors that are left; `block_size` has 16 bits.
unfoldable pub descs_from : ℕ → ℕ → List MemBlockDesc
descs_from zero block_size = []
descs_from (suc left) block_size =
    record { block_size = block_size; block_per_arena = (pg_size - arena_size) / block_size }
    ∷ descs_from left (block_size * 2 % 2 ^ 16)

-- `DESC_CNT` is 7.
unfoldable pub block_desc_init : List MemBlockDesc
block_desc_init = descs_from 7 16

unfoldable pub arena2block : ℕ → MemBlockDesc → ℕ → ℕ
arena2block a desc idx = (a + arena_size + idx * desc.block_size) % 2 ^ 32

-- `b & 0xfffff000`
unfoldable pub block2arena : ℕ → ℕ
block2arena b = b / 2 ^ 12 * 2 ^ 12

abbrev pub no_desc : MemBlockDesc
no_desc = record { block_size = 0; block_per_arena = 0 }

-- The descriptor at an index is that of blocks of 16 bytes, doubled as often.
abbrev pub desc_at : ℕ → MemBlockDesc
desc_at i = get_or block_desc_init i no_desc

-- A descriptor's blocks fit behind the head of a page, and are never empty.
abbrev fits : ℕ → Bool
fits i =
    leb (arena_size + (desc_at i).block_per_arena * (desc_at i).block_size) pg_size
    && leb 16 (desc_at i).block_size

all_fit : all_below 7 fits ≡ true
unfolding all_below block_desc_init descs_from
all_fit = refl

-- Blocks up to the one before another end where that one starts, or earlier.
blocks_before : (size idx other : ℕ) → idx < other → idx * size + size ≤ other * size
blocks_before size idx other h =
    let more : suc idx * size ≤ other * size = mul-le-mul_right size h in omega (arith, more)

pub record Fits (desc : MemBlockDesc) : Type 0 where
  pub total : arena_size + desc.block_per_arena * desc.block_size ≤ pg_size
  pub block_pos : 16 ≤ desc.block_size

pub desc_at-Fits : (i : ℕ) → i < 7 → Fits (desc_at i)
desc_at-Fits i h =
    let fine = all_below_sound 7 fits i all_fit h in
    record { total = leb→le _ _ (and_left _ _ fine); block_pos = leb→le _ _ (and_right _ _ fine) }

-- Where a block starts, and that it ends in the page.
block_place :
    (a idx : ℕ) (desc : MemBlockDesc)
    → Fits desc
    → a % pg_size ≡ 0
    → a < 2 ^ 32
    → idx < desc.block_per_arena
    → (arena2block a desc idx ≡ a + arena_size + idx * desc.block_size)
      × (a + arena_size + idx * desc.block_size + desc.block_size ≤ a + pg_size)
unfolding arena2block
block_place a idx desc f aligned word below =
    let before = blocks_before desc.block_size idx desc.block_per_arena below in
    (omega (arith, before, f.total, f.block_pos), omega (arith, before, f.total))

page_of : (b a : ℕ) → a % pg_size ≡ 0 → a ≤ b → b < a + pg_size → b / 2 ^ 12 * 2 ^ 12 ≡ a
page_of b a aligned lo hi = omega arith

-- For an arena at the start of a page, with one of the seven descriptors that `block_desc_init`
-- makes, every block lies in the arena's page behind its head, `block2arena` finds the arena from
-- the block, and two blocks with different indices do not overlap.
pub block2arena-arena2block :
    (a i idx : ℕ)
    → a % pg_size ≡ 0
    → a < 2 ^ 32
    → i < 7
    → idx < (desc_at i).block_per_arena
    → (block2arena (arena2block a (desc_at i) idx) ≡ a)
      × (a + arena_size ≤ arena2block a (desc_at i) idx)
      × (arena2block a (desc_at i) idx + (desc_at i).block_size ≤ a + pg_size)
      × ((other : ℕ)
          → idx < other
          → other < (desc_at i).block_per_arena
          → arena2block a (desc_at i) idx + (desc_at i).block_size
            ≤ arena2block a (desc_at i) other)
unfolding block2arena
block2arena-arena2block a i idx aligned word small below =
    let desc = desc_at i in
    let f = desc_at-Fits i small in
    let (at, ends) = block_place a idx desc f aligned word below in
    (
      page_of (arena2block a desc idx) a aligned (omega (arith, at))
          (omega (arith, at, ends, f.block_pos)),
      omega (arith, at),
      omega (arith, at, ends),
      λ other later inside.
          let (at', _) = block_place a other desc f aligned word inside in
          omega (arith, at, at', blocks_before desc.block_size idx other later),
    )
