-- ===== src/Memory/Pools.antt =====
-- What the pools give and take back, as statements on their bit maps.
use mcy_os.Prelude.{
  ℕ, ◌+◌, ◌*◌, ◌/◌, ◌%◌, ◌^◌, ◌≤◌, ◌<◌, ◌≡◌, refl, sym, ap, ◌∙◌, ◌⊎◌, inl, inr, true, false, arith,
  ℕ_discrete, leb, ◌==◌, if◌then◌else◌, minus_one, sub32, Result, ok, ◌>>=◌,
}
use mcy_os.Bitmap.{Bitmap, scan, set, scan_test}
use mcy_os.Bitmap
use mcy_os.Bitmap.Laws.{size, set_lem}
use mcy_os.Bitmap.Take.{Takes, AllSet, bit, none_left, take_bit}
use mcy_os.Memory.Frames.{pfree}
use mcy_os.Memory.{null, pg_size, Pool, Memory, palloc}

-- The frames of a pool are addresses that are not NULL.
pub record IsPool (p : Pool) : Type 0 where
  pub valid : Bitmap.IsValid p.pool_bitmap
  pub above_null : 0 < p.phy_addr_start
  pub in_memory : p.phy_addr_start + size p.pool_bitmap * pg_size ≤ 2 ^ 32

module _ (p : Pool) (v : IsPool p) where
  abbrev after_scan : ℕ → Result (Pool × ℕ)
  after_scan bit_idx =
      let page_phyaddr = (bit_idx * pg_size + p.phy_addr_start) % 2 ^ 32 in
      let taken =
        set p.pool_bitmap bit_idx 1 >>= λ b. ok (record p { pool_bitmap = b }, page_phyaddr) in
      if bit_idx == minus_one then ok (p, null) else taken

  after_scan_taken :
      (i : ℕ) (b : Bitmap)
      → (i == minus_one) ≡ false
      → set p.pool_bitmap i 1 ≡ ok b
      → after_scan i ≡ ok (record p { pool_bitmap = b }, (i * pg_size + p.phy_addr_start) % 2 ^ 32)
  after_scan_taken i b n s = rw (n, s)

  -- `palloc` of a sound pool does not stop the machine. It returns the address of a frame that was
  -- free, now taken, and changes nothing else; or NULL, and then every frame is taken and the pool
  -- is as it was.
  pub palloc_lem :
      (p' : Pool) × (a : ℕ) × (palloc p ≡ ok (p', a))
      × (((a ≡ null) × (p' ≡ p) × AllSet p.pool_bitmap)
          ⊎ ((i : ℕ) × (a ≡ p.phy_addr_start + i * pg_size)
              × (p' ≡ record p { pool_bitmap = p'.pool_bitmap })
              × (size p'.pool_bitmap ≡ size p.pool_bitmap)
              × IsPool p'
              × Takes p.pool_bitmap p'.pool_bitmap i))
  unfolding palloc
  palloc_lem = elim (take_bit p.pool_bitmap v.valid) [
    | bit i b found not_none set_ok valid same_size takes ↦ (
      record p { pool_bitmap = b },
      p.phy_addr_start + i * pg_size,
      ap (λ m. m >>= after_scan) found
          ∙ after_scan_taken i b not_none set_ok
          ∙ ap (λ a. ok (record p { pool_bitmap = b }, a)) (omega (arith, v.in_memory, takes.0)),
      inr (
        i,
        refl,
        refl,
        same_size,
        record {
          valid = valid;
          above_null = v.above_null;
          in_memory = omega (arith, v.in_memory, same_size);
        },
        takes,
      ),
    )
    | none_left found all_set ↦
        (p, null, ap (λ m. m >>= after_scan) found, inl (refl, refl, all_set))
  ]

-- `pfree` of the frame at `i`.
free_user :
    (m : Memory) (p : Pool) (i : ℕ)
    → IsPool p
    → i < size p.pool_bitmap
    → (m' : Memory) × (pfree (p.phy_addr_start + i * pg_size) (record m { user_pool = p }) ≡ ok m')
      × IsPool m'.user_pool
      × ((j : ℕ)
          → scan_test m'.user_pool.pool_bitmap j
            ≡ (if i == j then false else scan_test p.pool_bitmap j))
unfolding pfree
free_user m p i v below =
    let (b, s, valid, same, bits) = set_lem p.pool_bitmap i 0 v.valid (omega arith) below in
    let user : leb p.phy_addr_start (p.phy_addr_start + i * pg_size) ≡ true = ground arith in
    let idx : sub32 (p.phy_addr_start + i * pg_size) p.phy_addr_start / pg_size ≡ i =
      omega (arith, v.in_memory, below) in
    (
      record m { user_pool = record p { pool_bitmap = b } },
      rw (user, idx, s),
      record {
        valid = valid;
        above_null = v.above_null;
        in_memory = omega (arith, v.in_memory, same);
      },
      bits,
    )

-- A bit that was clear, set and cleared again.
undone :
    (b b' : Bitmap) (i j : ℕ)
    → scan_test b' j ≡ (if i == j then true else scan_test b j)
    → scan_test b i ≡ false
    → (if i == j then false else scan_test b' j) ≡ scan_test b j
undone b b' i j set_j clear = elim (ℕ_discrete i j) [
  | yes e ↦ ground (arith, set_j, e, ap (scan_test b) e, clear)
  | no ne ↦ ground (arith, set_j, ne)
]

-- A frame that `palloc` takes from a sound user pool, given back by `pfree`, is free again: neither
-- call stops the machine, and the pool has the same free frames as before.
pub pfree-palloc :
    (m : Memory)
    → IsPool m.user_pool
    → (p' : Pool) × (a : ℕ) × (palloc m.user_pool ≡ ok (p', a))
      × ((a ≡ null)
          ⊎ ((m' : Memory) × (pfree a (record m { user_pool = p' }) ≡ ok m')
              × IsPool m'.user_pool
              × ((j : ℕ)
                  → scan_test m'.user_pool.pool_bitmap j ≡ scan_test m.user_pool.pool_bitmap j)))
pfree-palloc m v =
    let (p', a, e, outcome) = palloc_lem m.user_pool v in
    elim outcome [
      | inl (is_null, _, _) ↦ (p', a, e, inl is_null)
      | inr (i, address, same, same_size, v', (inside, clear, bits)) ↦
          let start : p'.phy_addr_start ≡ m.user_pool.phy_addr_start =
            ap (λ p. p.phy_addr_start) same in
          let (m', freed, v'', bits') = free_user m p' i v' (omega (arith, inside, same_size)) in
          (
            p',
            a,
            e,
            inr (
              m',
              ap (λ x. pfree x (record m { user_pool = p' }))
                    (address ∙ ap (λ s. s + i * pg_size) (sym start))
                  ∙ freed,
              v'',
              λ j. bits' j ∙ undone m.user_pool.pool_bitmap p'.pool_bitmap i j (bits j) clear,
            ),
          )
    ]
