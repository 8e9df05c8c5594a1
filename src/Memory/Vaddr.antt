-- ===== src/Memory/Vaddr.antt =====
-- `vaddr_get` on the bit map of its pool.
use mcy_os.Prelude.{
  ℕ, zero, suc, ◌+◌, ◌*◌, ◌%◌, ◌^◌, ◌≤◌, ◌<◌, ◌≡◌, refl, ap, ◌∙◌, ◌⊎◌, inl, inr, true, false, not,
  ◌&&◌, arith, ltb, leb, ◌==◌, if◌then◌else◌, minus_one, Result, ok, ◌>>=◌,
}
use mcy_os.Bitmap.{Bitmap, scan, set, scan_test}
use mcy_os.Bitmap
use mcy_os.Bitmap.Laws.{size, set_lem}
use mcy_os.Bitmap.Run.{Free, Blocked}
use mcy_os.Bitmap.Scan.{scan-FirstFit}
use mcy_os.Memory.{null, pg_size, VirtualAddr, set_bits, vaddr_get_in}

-- A run of bits is set one by one.
set_bits_lem :
    (n : ℕ) (b : Bitmap) (i value : ℕ)
    → Bitmap.IsValid b
    → value < 2
    → i + n ≤ size b
    → (b' : Bitmap) × (set_bits n b i value ≡ ok b')
      × Bitmap.IsValid b'
      × (size b' ≡ size b)
      × ((j : ℕ)
          → scan_test b' j ≡ (if leb i j && ltb j (i + n) then not (value == 0) else scan_test b j))
unfolding set_bits
set_bits_lem zero b i value v small fits = (b, refl, v, refl, λ j. ground arith)
set_bits_lem (suc n) b i value v small fits =
    let (b1, e1, v1, same1, bits1) = set_lem b i value v small (omega arith) in
    let (b2, e2, v2, same2, bits2) =
      set_bits_lem n b1 (i + 1) value v1 small (omega (arith, same1)) in
    (
      b2,
      ap (λ m. m >>= λ b'. set_bits n b' (i + 1) value) e1 ∙ e2,
      v2,
      same2 ∙ same1,
      λ j. ground (arith, bits2 j, bits1 j),
    )

pub record IsVaddrPool (v : VirtualAddr) : Type 0 where
  pub valid : Bitmap.IsValid v.vaddr_bitmap
  pub above_null : 0 < v.vaddr_start
  pub in_memory : v.vaddr_start + size v.vaddr_bitmap * pg_size ≤ 2 ^ 32

module _ (v : VirtualAddr) (h : IsVaddrPool v) (pg_cnt : ℕ) where
  abbrev after_run : ℕ → Result (VirtualAddr × ℕ)
  after_run i =
      let start = (v.vaddr_start + i * pg_size) % 2 ^ 32 in
      let taken =
        set_bits pg_cnt v.vaddr_bitmap i 1 >>= λ b. ok (record v { vaddr_bitmap = b }, start) in
      if i == minus_one then ok (v, null) else taken

  after_run_taken :
      (i : ℕ) (b : Bitmap)
      → (i == minus_one) ≡ false
      → set_bits pg_cnt v.vaddr_bitmap i 1 ≡ ok b
      → after_run i ≡ ok (record v { vaddr_bitmap = b }, (v.vaddr_start + i * pg_size) % 2 ^ 32)
  after_run_taken i b n s = rw (n, s)

  -- `vaddr_get` of at least one page in a sound pool does not stop the machine. It returns the
  -- start of the lowest run of that many free pages and takes just those, or NULL where there is no
  -- such run, and then the pool is as it was.
  pub vaddr_get_lem :
      1 ≤ pg_cnt
      → (v' : VirtualAddr) × (a : ℕ) × (vaddr_get_in v pg_cnt ≡ ok (v', a))
        × (((a ≡ null)
              × (v' ≡ v)
              × ((s : ℕ) → s + pg_cnt ≤ size v.vaddr_bitmap → Blocked v.vaddr_bitmap s pg_cnt))
            ⊎ ((i : ℕ) × (a ≡ v.vaddr_start + i * pg_size)
                × (i + pg_cnt ≤ size v.vaddr_bitmap)
                × Free v.vaddr_bitmap i pg_cnt
                × ((s : ℕ) → s < i → Blocked v.vaddr_bitmap s pg_cnt)
                × IsVaddrPool v'
                × ((j : ℕ)
                    → scan_test v'.vaddr_bitmap j ≡ (
                        if leb i j && ltb j (i + pg_cnt)
                        then true
                        else scan_test v.vaddr_bitmap j))))
  unfolding vaddr_get_in
  vaddr_get_lem pos =
      let (r, e, fit) = scan-FirstFit v.vaddr_bitmap h.valid pg_cnt pos in
      elim fit [
        | inl (inside, is_free, first) ↦
            let (b, s, valid, same, bits) =
              set_bits_lem pg_cnt v.vaddr_bitmap r 1 h.valid (omega arith) inside in
            (
              record v { vaddr_bitmap = b },
              v.vaddr_start + r * pg_size,
              ap (λ m. m >>= after_run) e
                  ∙ after_run_taken r b (ground (arith, inside, h.valid.small, pos)) s
                  ∙ ap (λ a. ok (record v { vaddr_bitmap = b }, a))
                      (omega (arith, h.in_memory, inside, pos)),
              inr (
                r,
                refl,
                inside,
                is_free,
                first,
                record {
                  valid = valid;
                  above_null = h.above_null;
                  in_memory = omega (arith, h.in_memory, same);
                },
                bits,
              ),
            )
        | inr (is_none, blocked) ↦
            (v, null, ap (λ m. m >>= after_run) (e ∙ ap ok is_none), inl (refl, refl, blocked))
      ]
