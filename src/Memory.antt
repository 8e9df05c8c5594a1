-- ===== src/Memory.antt =====
-- lib/kernel/memory.c: the pools of page frames, the pools of virtual pages, and the page tables
-- that connect them. An address is a 32-bit pattern and 0 is NULL. The locks of the pools and the
-- lines printed at the start are left out, and so is the contents of the pages.
pub mod Frames
pub mod Arena
pub mod Pools
pub mod Vaddr
pub mod Pages
mod Tests
use mcy_os.Prelude.{
  ℕ, zero, suc, ◌+◌, ◌-◌, ◌*◌, ◌/◌, ◌%◌, ◌^◌, ◌≤◌, ◌<◌, ◌≡◌, refl, sym, ap, ap₂, subst, ◌∙◌, ◌≢◌,
  ◌↔◌, ◌⊎◌, inl, inr, Bool, true, false, not, ◌&&◌, ◌||◌, Option, none, some, List, [], ◌∷◌, ◌++◌,
  arith, dec_lt, ℕ_discrete, all_below, all_below_sound, ltb, leb, ◌==◌, if◌then◌else◌, ltb→lt,
  lt→ltb, le→not_ltb, ==_iff, ==_refl, ==_ne, Bool-cases, and_left, and_right, minus_one, add32,
  sub32, length, get_or, take, drop, replicate, length-append, length-set, get_or-set_self,
  get_or-set_ne, get_or-set, get_or_outside, length-replicate, get_or-replicate, Result, ok, panic,
  ◌>>=◌, ◌>>◌, assert,
}
use mcy_os.Bitmap.{Bitmap, scan, set, init}

abbrev pub null : ℕ
null = 0

abbrev pub pg_size : ℕ
pg_size = 4096

-- `struct pool`
pub record Pool : Type 0 where
  pub pool_bitmap : Bitmap
  pub phy_addr_start : ℕ
  pub pool_size : ℕ

-- `struct virtual_addr`
pub record VirtualAddr : Type 0 where
  pub vaddr_bitmap : Bitmap
  pub vaddr_start : ℕ

-- `enum pool_flags`
pub data PoolFlags : Type 0 where
  pf_kernel pf_user : PoolFlags

-- The globals, the pool of the running task's `userprog_vaddr` and whether it has a page directory
-- of its own, the directory and the tables: `pte` takes the indices in the two of them.
pub record Memory : Type 0 where
  pub kernel_pool : Pool
  pub user_pool : Pool
  pub kernel_vaddr : VirtualAddr
  pub userprog_vaddr : VirtualAddr
  pub has_pgdir : Bool
  pub pde : ℕ → ℕ
  pub pte : ℕ → ℕ → ℕ

-- The loops `bitmap_set(..., bit_idx_start + cnt++, value)`, with the rounds left.
unfoldable pub set_bits : ℕ → Bitmap → ℕ → ℕ → Result Bitmap
set_bits zero b bit_idx value = ok b
set_bits (suc left) b bit_idx value =
    set b bit_idx value >>= λ b'. set_bits left b' (bit_idx + 1) value

-- `vaddr_get` in either pool: the pool after it and the address.
unfoldable pub vaddr_get_in : VirtualAddr → ℕ → Result (VirtualAddr × ℕ)
vaddr_get_in v pg_cnt = do
  bit_idx_start ← scan v.vaddr_bitmap pg_cnt
  let start = (v.vaddr_start + bit_idx_start * pg_size) % 2 ^ 32
  let taken = set_bits pg_cnt v.vaddr_bitmap bit_idx_start 1 >>= λ b.
      ok (record v { vaddr_bitmap = b }, start)
  if bit_idx_start == minus_one then ok (v, null) else taken

-- The pool that a flag selects, and the memory with that pool changed.
abbrev pub vaddr_pool : PoolFlags → Memory → VirtualAddr
vaddr_pool pf_kernel m = m.kernel_vaddr
vaddr_pool pf_user m = m.userprog_vaddr

abbrev pub with_vaddr : PoolFlags → Memory → VirtualAddr → Memory
with_vaddr pf_kernel m v = record m { kernel_vaddr = v }
with_vaddr pf_user m v = record m { userprog_vaddr = v }

abbrev pub frame_pool : PoolFlags → Memory → Pool
frame_pool pf_kernel m = m.kernel_pool
frame_pool pf_user m = m.user_pool

abbrev pub with_frames : PoolFlags → Memory → Pool → Memory
with_frames pf_kernel m p = record m { kernel_pool = p }
with_frames pf_user m p = record m { user_pool = p }

unfoldable pub vaddr_get : PoolFlags → ℕ → Memory → Result (Memory × ℕ)
vaddr_get pf pg_cnt m =
    vaddr_get_in (vaddr_pool pf m) pg_cnt >>= λ r. ok (with_vaddr pf m (r.0), r.1)

unfoldable pub palloc : Pool → Result (Pool × ℕ)
palloc p = do
  bit_idx ← scan p.pool_bitmap 1
  let page_phyaddr = (bit_idx * pg_size + p.phy_addr_start) % 2 ^ 32
  let taken = set p.pool_bitmap bit_idx 1 >>= λ b. ok (record p { pool_bitmap = b }, page_phyaddr)
  if bit_idx == minus_one then ok (p, null) else taken

-- `PDE_IDX` and `PTE_IDX`
abbrev pub pde_idx : ℕ → ℕ
pde_idx addr = addr / 2 ^ 22

abbrev pub pte_idx : ℕ → ℕ
pte_idx addr = addr / 2 ^ 12 % 2 ^ 10

-- `page | PG_US_U | PG_RW_W | PG_P_1`, and `entry & 0x00000001`
abbrev pub present_user_write : ℕ → ℕ
present_user_write page = page / 8 * 8 + 7

abbrev pub is_present : ℕ → Bool
is_present entry = entry % 2 == 1

abbrev pub with_pte : ℕ → ℕ → Memory → Memory
with_pte vaddr entry m = record m {
  pte = λ d t. if d == pde_idx vaddr && t == pte_idx vaddr then entry else m.pte d t;
}

-- A new table in the directory, cleared.
abbrev pub with_table : ℕ → ℕ → Memory → Memory
with_table vaddr entry m = record m {
  pde = λ d. if d == pde_idx vaddr then entry else m.pde d;
  pte = λ d t. if d == pde_idx vaddr then 0 else m.pte d t;
}

-- The entry for the page, which has to be absent.
unfoldable pub add_pte : ℕ → ℕ → Memory → Result Memory
add_pte vaddr page_phyaddr m =
    assert (not (is_present (m.pte (pde_idx vaddr) (pte_idx vaddr))))
    >> ok (with_pte vaddr (present_user_write page_phyaddr) m)

-- The frame for a new table is not tested for NULL: without a frame the source makes the frame at
-- address 0 the table, which other tables may then share, and the model stops.
unfoldable pub page_table_add : ℕ → ℕ → Memory → Result Memory
page_table_add vaddr page_phyaddr m =
    let add_table = palloc m.kernel_pool >>= λ r.
    assert (not (r.1 == null))
    >> add_pte vaddr page_phyaddr
        (with_table vaddr (present_user_write (r.1)) (record m { kernel_pool = r.0 })) in
    if is_present (m.pde (pde_idx vaddr)) then add_pte vaddr page_phyaddr m else add_table

-- One round of the loop of `malloc_page`: whether a frame was there.
unfoldable pub map_page : PoolFlags → ℕ → Memory → Result (Memory × Bool)
map_page pf vaddr m = do
  r ← palloc (frame_pool pf m)
  let m' = with_frames pf m (r.0)
  let mapped = page_table_add vaddr (r.1) m' >>= λ m''. ok (m'', true)
  if r.1 == null then ok (m', false) else mapped

unfoldable pub map_pages : ℕ → PoolFlags → ℕ → Memory → Result (Memory × Bool)
map_pages zero pf vaddr m = ok (m, true)
map_pages (suc cnt) pf vaddr m = map_page pf vaddr m >>= λ r.
    let rest = map_pages cnt pf (add32 vaddr pg_size) (r.0) in if r.1 then rest else ok (r.0, false)

unfoldable pub malloc_page : PoolFlags → ℕ → Memory → Result (Memory × ℕ)
malloc_page pf pg_cnt m = do
  assert (ltb 0 pg_cnt && ltb pg_cnt 3840)
  r ← vaddr_get pf pg_cnt m
  let mapped = map_pages pg_cnt pf (r.1) (r.0) >>= λ s. ok (s.0, if s.1 then r.1 else null)
  if r.1 == null then ok (r.0, null) else mapped

-- `addr_v2p`
abbrev pub addr_v2p : Memory → ℕ → ℕ
addr_v2p m vaddr = m.pte (pde_idx vaddr) (pte_idx vaddr) / 2 ^ 12 * 2 ^ 12 + vaddr % 2 ^ 12
