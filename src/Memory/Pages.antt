-- ===== src/Memory/Pages.antt =====
-- A page that is entered in the tables is found by `addr_v2p`, and no other page moves.
use mcy_os.Prelude.{
  ℕ, ◌+◌, ◌*◌, ◌/◌, ◌%◌, ◌^◌, ◌≡◌, ap, ◌∙◌, ◌≢◌, ◌⊎◌, inl, inr, true, false, arith, ℕ_discrete,
  ==_refl, ==_ne, Bool-cases, Result, ok, ◌>>=◌, ◌>>◌, assert, not, ◌==◌,
}
use mcy_os.Bitmap.Take.{AllSet}
use mcy_os.Memory.{
  null, palloc, pg_size, Pool, Memory, pde_idx, pte_idx, present_user_write, is_present, with_pte,
  with_table, add_pte, page_table_add, addr_v2p,
}
use mcy_os.Memory.Pools.{IsPool, palloc_lem}

-- Where the directory has no table, its entries are not looked at: `page_table_add` clears them.
abbrev pub IsMapped : Memory → ℕ → Type 0
IsMapped m vaddr =
    (is_present (m.pde (pde_idx vaddr)) ≡ true)
    × (is_present (m.pte (pde_idx vaddr) (pte_idx vaddr)) ≡ true)

-- What an entry for the page at `vaddr` does to the translation of addresses.
abbrev pub Maps : Memory → Memory → ℕ → ℕ → Type 0
Maps m m' vaddr page =
    IsMapped m' vaddr
    × (addr_v2p m' vaddr ≡ page + vaddr % 2 ^ 12)
    × ((a : ℕ)
        → a / 2 ^ 12 ≢ vaddr / 2 ^ 12
        → IsMapped m a
        → IsMapped m' a × (addr_v2p m' a ≡ addr_v2p m a))

same_page : (a b : ℕ) → pde_idx a ≡ pde_idx b → pte_idx a ≡ pte_idx b → a / 2 ^ 12 ≡ b / 2 ^ 12
same_page a b d t = omega (arith, d, t)

entry_address : (page : ℕ) → page % pg_size ≡ 0 → present_user_write page / 2 ^ 12 * 2 ^ 12 ≡ page
entry_address page h = omega (arith, h)

present_is : (page : ℕ) → is_present (present_user_write page) ≡ true
present_is page = ground arith

pte_self :
    (m : Memory) (vaddr entry : ℕ)
    → (with_pte vaddr entry m).pte (pde_idx vaddr) (pte_idx vaddr) ≡ entry
pte_self m vaddr entry = rw (==_refl (pde_idx vaddr), ==_refl (pte_idx vaddr))

pte_other :
    (m : Memory) (vaddr entry a : ℕ)
    → a / 2 ^ 12 ≢ vaddr / 2 ^ 12
    → (with_pte vaddr entry m).pte (pde_idx a) (pte_idx a) ≡ m.pte (pde_idx a) (pte_idx a)
pte_other m vaddr entry a other = elim (ℕ_discrete (pde_idx a) (pde_idx vaddr)) [
  | yes d ↦
      let apart : pte_idx a ≢ pte_idx vaddr = λ t. other (same_page a vaddr d t) in
      rw (==_ne (pte_idx a) (pte_idx vaddr) apart) (ground arith)
  | no d ↦ rw (==_ne (pde_idx a) (pde_idx vaddr) d)
]

-- The address that an entry gives.
abbrev at_entry : ℕ → ℕ → ℕ
at_entry vaddr entry = entry / 2 ^ 12 * 2 ^ 12 + vaddr % 2 ^ 12

add_pte_lem :
    (m : Memory) (vaddr page : ℕ)
    → page % pg_size ≡ 0
    → is_present (m.pde (pde_idx vaddr)) ≡ true
    → is_present (m.pte (pde_idx vaddr) (pte_idx vaddr)) ≡ false
    → (m' : Memory) × (add_pte vaddr page m ≡ ok m') × Maps m m' vaddr page
unfolding add_pte
add_pte_lem m vaddr page aligned table absent =
    let entry = present_user_write page in
    let here = pte_self m vaddr entry in
    (
      with_pte vaddr entry m,
      rw absent,
      (
        (table, ap is_present here ∙ present_is page),
        ap (at_entry vaddr) here ∙ ap (λ e. e + vaddr % 2 ^ 12) (entry_address page aligned),
        λ a other mapped.
            let there = pte_other m vaddr entry a other in
            ((mapped.0, ap is_present there ∙ mapped.1), ap (at_entry a) there),
      ),
    )

-- Adding a new table keeps what other tables map.
with_table_keeps :
    (m : Memory) (vaddr entry a : ℕ)
    → is_present (m.pde (pde_idx vaddr)) ≡ false
    → IsMapped m a
    → IsMapped (with_table vaddr entry m) a × (addr_v2p (with_table vaddr entry m) a ≡ addr_v2p m a)
with_table_keeps m vaddr entry a absent mapped =
    let apart : pde_idx a ≢ pde_idx vaddr =
      λ e. absurd (ground (arith, ap (λ d. is_present (m.pde d)) e, absent, mapped.0)) in
    let no_table = ==_ne (pde_idx a) (pde_idx vaddr) apart in
    ((rw no_table (mapped.0), rw no_table (mapped.1)), rw no_table)

abbrev after_palloc : ℕ → ℕ → Memory → Pool × ℕ → Result Memory
after_palloc vaddr page m r =
    assert (not (r.1 == null))
    >> add_pte vaddr page
        (with_table vaddr (present_user_write (r.1)) (record m { kernel_pool = r.0 }))

after_palloc-frame :
    (vaddr page : ℕ) (m : Memory) (p : Pool) (a : ℕ)
    → a ≢ null
    → after_palloc vaddr page m (p, a)
      ≡ add_pte vaddr page (with_table vaddr (present_user_write a) (record m { kernel_pool = p }))
after_palloc-frame vaddr page m p a frame = rw (==_ne a null frame)

-- A pool that is not full gives out a frame.
palloc-frame :
    (p : Pool)
    → IsPool p
    → (AllSet p.pool_bitmap → ⊥)
    → (p' : Pool) × (a : ℕ) × (palloc p ≡ ok (p', a)) × (a ≢ null)
palloc-frame p v free =
    let (p', a, e, ways) = palloc_lem p v in
    (
      p',
      a,
      e,
      elim ways [
        | inl (_, _, full) ↦ absurd (free full)
        | inr (i, address, _, _, _, _) ↦ λ is_null. omega (arith, address, is_null, v.above_null)
      ],
    )

-- Where the page's directory entry is absent, or its table entry, and the kernel pool is sound and
-- has a free frame if the directory entry is absent, `page_table_add` of a whole frame does not stop
-- the machine. Then `addr_v2p` translates the page to the
-- frame, and every other page that was mapped still is, to the same address.
pub page_table_add_lem :
    (m : Memory) (vaddr page : ℕ)
    → IsPool m.kernel_pool
    → page % pg_size ≡ 0
    → (is_present (m.pde (pde_idx vaddr)) ≡ false)
      ⊎ (is_present (m.pte (pde_idx vaddr) (pte_idx vaddr)) ≡ false)
    → (is_present (m.pde (pde_idx vaddr)) ≡ false → AllSet m.kernel_pool.pool_bitmap → ⊥)
    → (m' : Memory) × (page_table_add vaddr page m ≡ ok m') × Maps m m' vaddr page
unfolding page_table_add
page_table_add_lem m vaddr page v aligned absent free =
    elim (Bool-cases (is_present (m.pde (pde_idx vaddr)))) [
      | inl table ↦
          let free_entry : is_present (m.pte (pde_idx vaddr) (pte_idx vaddr)) ≡ false =
            elim absent [ inl no_table ↦ absurd (ground (arith, table, no_table)) | inr e ↦ e ] in
          let (m', e, maps) = add_pte_lem m vaddr page aligned table free_entry in
          (m', rw table e, maps)
      | inr no_table ↦
          let (p, a, e, frame) = palloc-frame m.kernel_pool v (free no_table) in
          let m1 = with_table vaddr (present_user_write a) (record m { kernel_pool = p }) in
          let present : is_present (m1.pde (pde_idx vaddr)) ≡ true =
            rw (==_refl (pde_idx vaddr)) (present_is a) in
          let cleared : is_present (m1.pte (pde_idx vaddr) (pte_idx vaddr)) ≡ false =
            rw (==_refl (pde_idx vaddr)) in
          let (m', e', (mapped, address, others)) =
            add_pte_lem m1 vaddr page aligned present cleared in
          (
            m',
            rw no_table (
                ap (λ r. r >>= after_palloc vaddr page m) e
                ∙ after_palloc-frame vaddr page m p a frame
                ∙ e'),
            (
              mapped,
              address,
              λ b other was.
                  let (still, same) =
                    with_table_keeps (record m { kernel_pool = p }) vaddr (present_user_write a) b
                      no_table was in
                  let (now, same') = others b other still in (now, same' ∙ same),
            ),
          )
    ]
