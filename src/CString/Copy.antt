-- ===== src/CString/Copy.antt =====
-- Copying a string.
use mcy_os.Prelude.{
  ℕ, zero, suc, ◌+◌, ◌<◌, ◌≡◌, sym, ◌∙◌, ◌≢◌, ◌⊎◌, inl, some, List, [], ◌∷◌, arith, ==_refl, ==_ne,
  length, ok,
}
use mcy_os.CString.{Bytes, store, copy_loop, strcpy}
use mcy_os.CString.Strings.{Holds}

store_other : (p v : ℕ) (m : Bytes) (a : ℕ) → a ≢ p → store p v m a ≡ m a
store_other p v m a h = rw (==_ne a p h)

-- A byte stored outside of a string leaves the string.
Holds-store :
    (s : List ℕ) (p q v : ℕ) (m : Bytes)
    → Holds m p s
    → (q < p) ⊎ (p + length s < q)
    → Holds (store q v m) p s
Holds-store [] p q v m h out = store_other q v m p (λ e. absurd (ground (arith, out, e))) ∙ h
Holds-store (c ∷ s) p q v m h out = (
  store_other q v m p (λ e. absurd (ground (arith, out, e))) ∙ h.0,
  h.1,
  h.2,
  Holds-store s (p + 1) q v m (h.3) (ground (arith, out)),
)

copy_loop_lem :
    (s : List ℕ) (fuel dst src : ℕ) (m : Bytes)
    → Holds m src s
    → (dst + length s < src) ⊎ (src + length s < dst)
    → length s < fuel
    → (m' : Bytes) × (copy_loop fuel dst src m ≡ some m')
      × Holds m' dst s
      × ((a : ℕ) → (a < dst) ⊎ (dst + length s < a) → m' a ≡ m a)
unfolding copy_loop
copy_loop_lem s zero dst src m h apart enough = absurd (omega arith)
copy_loop_lem [] (suc fuel) dst src m h apart enough = (
  store dst (m src) m,
  rw h,
  rw (==_refl dst) h,
  λ a out. store_other dst (m src) m a (λ e. absurd (ground (arith, out, e))),
)
copy_loop_lem (c ∷ s) (suc fuel) dst src m h apart enough =
    let copied = store dst (m src) m in
    let (m', e, held, others) =
      copy_loop_lem s fuel (dst + 1) (src + 1) copied
        (Holds-store s (src + 1) dst (m src) m (h.3) (ground (arith, apart)))
        (ground (arith, apart)) (omega arith) in
    (
      m',
      copy_step fuel dst src m (λ z. h.1 (sym (h.0) ∙ z)) ∙ e,
      (others dst (inl (omega arith)) ∙ first dst src m ∙ h.0, h.1, h.2, held),
      λ a out.
          others a (ground (arith, out))
          ∙ store_other dst (m src) m a (λ eq. absurd (ground (arith, out, eq))),
    )
  where
    first : (dst src : ℕ) (m : Bytes) → store dst (m src) m dst ≡ m src
    first dst src m = rw (==_refl dst)

    copy_step :
        (fuel dst src : ℕ) (m : Bytes)
        → m src ≢ 0
        → copy_loop (suc fuel) dst src m ≡ copy_loop fuel (dst + 1) (src + 1) (store dst (m src) m)
    copy_step fuel dst src m h = rw (==_ne (m src) 0 h)

-- On fuel for more rounds than characters, `strcpy` of a string to a place that does not overlap
-- it, neither of them at NULL, ends; then the string stands there, and no other byte has changed.
pub strcpy_lem :
    (s : List ℕ) (fuel dst src : ℕ) (m : Bytes)
    → dst ≢ 0
    → src ≢ 0
    → Holds m src s
    → (dst + length s < src) ⊎ (src + length s < dst)
    → length s < fuel
    → (m' : Bytes) × (strcpy fuel dst src m ≡ ok (some m'))
      × Holds m' dst s
      × ((a : ℕ) → (a < dst) ⊎ (dst + length s < a) → m' a ≡ m a)
unfolding strcpy
strcpy_lem s fuel dst src m dst_ok src_ok h apart enough =
    let (m', e, held, others) = copy_loop_lem s fuel dst src m h apart enough in
    (m', rw (==_ne dst 0 dst_ok, ==_ne src 0 src_ok, e), held, others)
