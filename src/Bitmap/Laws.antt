-- ===== src/Bitmap/Laws.antt =====
-- `bitmap_set` and `bitmap_scan_test`: a bit map as a map from indices to bits.
use mcy_os.Prelude.{
  refl, ℕ, ◌*◌, ◌/◌, ◌%◌, ◌<◌, ◌≡◌, false, not, arith, ◌==◌, if◌then◌else◌, get_or, get_or-set, ◌∙◌,
  length-set, get_or-replicate, ok, set as set_at,
}
use mcy_os.Bitmap.{Bitmap, IsValid, init, scan_test, set, set_byte}
use mcy_os.Bitmap.Byte.{clear-set_byte, set_byte-lt, clear_zero}

-- The number of bits.
abbrev pub size : Bitmap → ℕ
size b = b.btmp_bytes_len * 8

-- The map after `bitmap_set`, as a value.
abbrev pub updated : Bitmap → ℕ → ℕ → Bitmap
updated b i v = record b {
  bits = set_at b.bits (i / 8) (set_byte (get_or b.bits (i / 8) 0) (i % 8) v);
}

pub set-ok : (b : Bitmap) (i v : ℕ) → v < 2 → set b i v ≡ ok (updated b i v)
unfolding set
set-ok b i v h = ground arith

bytes_updated :
    (b : Bitmap) (i v : ℕ) → IsValid b → v < 2 → (j : ℕ) → get_or (updated b i v).bits j 0 < 256
bytes_updated b i v h hv j = ground (
  arith,
  get_or-set b.bits (i / 8) j (set_byte (get_or b.bits (i / 8) 0) (i % 8) v) 0,
  set_byte-lt v (get_or b.bits (i / 8) 0) (i % 8),
  h.bytes (i / 8),
  h.bytes j,
)

pub updated-IsValid : (b : Bitmap) (i v : ℕ) → IsValid b → v < 2 → IsValid (updated b i v)
updated-IsValid b i v h hv = record {
  sized = length-set b.bits _ _ ∙ h.sized;
  small = h.small;
  bytes = bytes_updated b i v h hv;
}

pub test-updated :
    (b : Bitmap) (i j v : ℕ)
    → IsValid b
    → v < 2
    → i < size b
    → scan_test (updated b i v) j ≡ (if i == j then not (v == 0) else scan_test b j)
unfolding scan_test
test-updated b i j v h hv hi = ground (
  arith,
  get_or-set b.bits (i / 8) (j / 8) (set_byte (get_or b.bits (i / 8) 0) (i % 8) v) 0,
  clear-set_byte v (get_or b.bits (i / 8) 0) (i % 8) (j % 8),
  h.bytes (i / 8),
)

-- A cleared map has no bit set.
pub test-init : (b : Bitmap) (i : ℕ) → scan_test (init b) i ≡ false
unfolding scan_test init
test-init b i = rw (get_or-replicate {A = ℕ} b.btmp_bytes_len (i / 8) 0) (rw (clear_zero (i % 8)))

-- Setting a bit inside a valid map to 0 or 1 does not stop the machine and leaves a valid map of
-- the same size, in which that bit has the new value and every other bit its old one.
pub set_lem :
    (b : Bitmap) (i v : ℕ)
    → IsValid b
    → v < 2
    → i < size b
    → (b' : Bitmap) × (set b i v ≡ ok b')
      × IsValid b'
      × (size b' ≡ size b)
      × ((j : ℕ) → scan_test b' j ≡ (if i == j then not (v == 0) else scan_test b j))
set_lem b i v h hv hi = (
  updated b i v,
  set-ok b i v hv,
  updated-IsValid b i v h hv,
  refl,
  λ j. test-updated b i j v h hv hi,
)
