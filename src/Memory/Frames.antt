-- ===== src/Memory/Frames.antt =====
-- The rest of lib/kernel/memory.c that takes and gives back pages.
use mcy_os.Prelude.{
  ℕ, zero, suc, ◌+◌, ◌-◌, ◌*◌, ◌/◌, ◌%◌, ◌^◌, Bool, not, ◌&&◌, [], ltb, leb, ◌==◌, if◌then◌else◌,
  add32, sub32, Result, ok, ◌>>=◌, ◌>>◌, assert,
}
use mcy_os.Bitmap.{set, init}
use mcy_os.Memory.{
  null, pg_size, Pool, PoolFlags, pf_kernel, pf_user, Memory, set_bits, vaddr_pool, with_vaddr,
  frame_pool, with_frames, palloc, pde_idx, pte_idx, with_pte, page_table_add, addr_v2p,
}

-- `pfree` and `free_a_phy_page`, which have the same body.
unfoldable pub pfree : ℕ → Memory → Result Memory
pfree pg_phy_addr m =
    let idx = λ (p : Pool). sub32 pg_phy_addr p.phy_addr_start / pg_size in
    let free : Pool → Result Pool =
      λ p. set p.pool_bitmap (idx p) 0 >>= λ b. ok (record p { pool_bitmap = b }) in
    if leb m.user_pool.phy_addr_start pg_phy_addr
    then (free m.user_pool >>= λ p. ok (record m { user_pool = p }))
    else (free m.kernel_pool >>= λ p. ok (record m { kernel_pool = p }))

-- `*pte &= ~PG_P_1`
unfoldable pub page_table_pte_remove : ℕ → Memory → Memory
page_table_pte_remove vaddr m = with_pte vaddr (m.pte (pde_idx vaddr) (pte_idx vaddr) / 2 * 2) m

unfoldable pub vaddr_remove : PoolFlags → ℕ → ℕ → Memory → Result Memory
vaddr_remove pf vaddr pg_cnt m =
    let v = vaddr_pool pf m in
    set_bits pg_cnt v.vaddr_bitmap (sub32 vaddr v.vaddr_start / pg_size) 0 >>= λ b.
    ok (with_vaddr pf m (record v { vaddr_bitmap = b }))

-- The two loops of `mfree_page`: `in_pool` is the assertion on the frame's address.
unfoldable pub free_pages : (ℕ → Bool) → ℕ → ℕ → Memory → Result Memory
free_pages in_pool zero vaddr m = ok m
free_pages in_pool (suc left) vaddr m = do
  assert (addr_v2p m vaddr % pg_size == 0 && in_pool (addr_v2p m vaddr))
  m' ← pfree (addr_v2p m vaddr) m
  free_pages in_pool left (add32 vaddr pg_size) (page_table_pte_remove vaddr m')

unfoldable pub mfree_page : PoolFlags → ℕ → ℕ → Memory → Result Memory
mfree_page pf vaddr pg_cnt m =
    let pg_phy_addr = addr_v2p m vaddr in
    let user : ℕ → Bool = λ a. leb m.user_pool.phy_addr_start a in
    let kernel : ℕ → Bool =
      λ a. leb m.kernel_pool.phy_addr_start a && ltb a m.user_pool.phy_addr_start in
    assert (leb 1 pg_cnt && vaddr % pg_size == 0)
    >> (assert (pg_phy_addr % pg_size == 0 && leb 0x102000 pg_phy_addr)
        >> (free_pages (if user pg_phy_addr then user else kernel) pg_cnt vaddr m
            >>= vaddr_remove pf vaddr pg_cnt))

-- The bit of `vaddr` in the pool of virtual pages.
unfoldable pub mark_vaddr : PoolFlags → ℕ → Memory → Result Memory
mark_vaddr pf vaddr m =
    let v = vaddr_pool pf m in
    set v.vaddr_bitmap (sub32 vaddr v.vaddr_start / pg_size) 1 >>= λ b.
    ok (with_vaddr pf m (record v { vaddr_bitmap = b }))

-- The frame and the entry for one page.
unfoldable pub get_a_page_without_opvaddrbitmap : PoolFlags → ℕ → Memory → Result (Memory × ℕ)
get_a_page_without_opvaddrbitmap pf vaddr m = do
  r ← palloc (frame_pool pf m)
  let m' = with_frames pf m (r.0)
  let mapped = page_table_add vaddr (r.1) m' >>= λ m''. ok (m'', vaddr)
  if r.1 == null then ok (m', null) else mapped

-- A task with a page directory marks its own pool, one without the kernel's; the index, at most
-- 2^20, is never negative.
unfoldable pub get_a_page : PoolFlags → ℕ → Memory → Result (Memory × ℕ)
get_a_page pf_user vaddr m =
    assert m.has_pgdir
    >> (mark_vaddr pf_user vaddr m >>= get_a_page_without_opvaddrbitmap pf_user vaddr)
get_a_page pf_kernel vaddr m =
    assert (not m.has_pgdir)
    >> (mark_vaddr pf_kernel vaddr m >>= get_a_page_without_opvaddrbitmap pf_kernel vaddr)

-- `mem_pool_init`: `uint16_t` page counts, and maps of whole bytes.
unfoldable pub mem_pool_init : ℕ → Memory → Memory
mem_pool_init all_mem m =
    let used_mem = pg_size * 256 + 0x100000 in
    let free_mem = sub32 all_mem used_mem in
    let all_free_pages = free_mem / pg_size % 2 ^ 16 in
    let kernel_free_pages = all_free_pages / 2 in
    let user_free_pages = all_free_pages - kernel_free_pages in
    let kbm_length = kernel_free_pages / 8 in
    let ubm_length = user_free_pages / 8 in
    record m {
      kernel_pool = record {
        pool_bitmap = init (record { btmp_bytes_len = kbm_length; bits = [] });
        phy_addr_start = used_mem;
        pool_size = kernel_free_pages * pg_size;
      };
      user_pool = record {
        pool_bitmap = init (record { btmp_bytes_len = ubm_length; bits = [] });
        phy_addr_start = (used_mem + kernel_free_pages * pg_size) % 2 ^ 32;
        pool_size = user_free_pages * pg_size;
      };
      kernel_vaddr = record {
        vaddr_bitmap = init (record { btmp_bytes_len = kbm_length; bits = [] });
        vaddr_start = 0xc0100000;
      };
    }
