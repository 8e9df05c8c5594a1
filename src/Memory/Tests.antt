-- ===== src/Memory/Tests.antt =====
-- A machine with eight frames and eight virtual pages in each pool.
use mcy_os.Prelude.{
  ℕ, zero, suc, ◌+◌, ◌*◌, ◌≤◌, ◌<◌, ◌≡◌, refl, ◌⊎◌, inl, true, false, ◌&&◌, [], ◌∷◌, arith, ltb,
  leb, if◌then◌else◌, get_or, ok,
}
use mcy_os.Bitmap.{Bitmap, scan_test}
use mcy_os.Bitmap
use mcy_os.Bitmap.Run.{Free, Blocked}
use mcy_os.Memory.{null, pg_size, Pool, VirtualAddr, Memory, palloc, vaddr_get_in, page_table_add}
use mcy_os.Memory.Arena.{block_desc_init, descs_from, desc_at}
use mcy_os.Memory.Frames.{pfree}
use mcy_os.Memory.Pools.{IsPool, pfree-palloc}
use mcy_os.Memory.Vaddr.{IsVaddrPool, vaddr_get_lem}
use mcy_os.Memory.Pages.{Maps, page_table_add_lem}

-- Bits 0 and 2 are set.
abbrev two_used : Bitmap
two_used = record { btmp_bytes_len = 1; bits = 0x05 ∷ [] }

two_used_bytes : (i : ℕ) → get_or two_used.bits i 0 < 256
two_used_bytes zero = omega arith
two_used_bytes (suc i) = omega arith

two_used-IsValid : Bitmap.IsValid two_used
two_used-IsValid = record { sized = refl; small = omega arith; bytes = two_used_bytes }

abbrev frames : Pool
frames = record { pool_bitmap = two_used; phy_addr_start = 0x200000; pool_size = 0x8000 }

frames-IsPool : IsPool frames
frames-IsPool = record {
  valid = two_used-IsValid;
  above_null = omega arith;
  in_memory = omega arith;
}

abbrev pages : VirtualAddr
pages = record { vaddr_bitmap = two_used; vaddr_start = 0xc0100000 }

pages-IsVaddrPool : IsVaddrPool pages
pages-IsVaddrPool = record {
  valid = two_used-IsValid;
  above_null = omega arith;
  in_memory = omega arith;
}

abbrev machine : Memory
machine = record {
  kernel_pool = frames;
  user_pool = frames;
  kernel_vaddr = pages;
  userprog_vaddr = pages;
  has_pgdir = false;
  pde = λ _. 0;
  pte = λ _ _. 0;
}

pfree-palloc_example :
    (p' : Pool) × (a : ℕ) × (palloc frames ≡ ok (p', a))
    × ((a ≡ null)
        ⊎ ((m' : Memory) × (pfree a (record machine { user_pool = p' }) ≡ ok m')
            × IsPool m'.user_pool
            × ((j : ℕ) → scan_test m'.user_pool.pool_bitmap j ≡ scan_test two_used j)))
pfree-palloc_example = pfree-palloc machine frames-IsPool

-- Three pages in a row are there, from page 3 on.
vaddr_get_lem_example :
    (v' : VirtualAddr) × (a : ℕ) × (vaddr_get_in pages 3 ≡ ok (v', a))
    × (((a ≡ null) × (v' ≡ pages) × ((s : ℕ) → s + 3 ≤ 8 → Blocked two_used s 3))
        ⊎ ((i : ℕ) × (a ≡ 0xc0100000 + i * pg_size)
            × (i + 3 ≤ 8)
            × Free two_used i 3
            × ((s : ℕ) → s < i → Blocked two_used s 3)
            × IsVaddrPool v'
            × ((j : ℕ)
                → scan_test v'.vaddr_bitmap j
                  ≡ (if leb i j && ltb j (i + 3) then true else scan_test two_used j))))
vaddr_get_lem_example = vaddr_get_lem pages pages-IsVaddrPool 3 (omega arith)

second_clear : scan_test two_used 1 ≡ false
unfolding Bitmap.scan_test
second_clear = refl

page_table_add_lem_example :
    (m' : Memory) × (page_table_add 0xc0101000 0x201000 machine ≡ ok m')
    × Maps machine m' 0xc0101000 0x201000
page_table_add_lem_example =
    page_table_add_lem machine 0xc0101000 0x201000 frames-IsPool refl (inl refl)
      (λ _ full. absurd (ground (arith, full 1 (omega arith), second_clear)))

fourth_block : 3 < (desc_at 0).block_per_arena
unfolding block_desc_init descs_from
fourth_block = omega arith
