-- ===== src/Bitmap.antt =====
-- lib/kernel/bitmap.c: bit maps over an array of bytes.
-- A read past the array gives 0 and a write past it changes nothing; `IsValid` and the theorems'
-- bounds rule both out.
pub mod Byte
pub mod Laws
pub mod Run
pub mod Scan
pub mod Take
mod Tests
use Prim.Native.Nat.{bit_and, bit_or}
use mcy_os.Prelude.{
  ℕ, zero, suc, ◌+◌, ◌-◌, ◌*◌, ◌/◌, ◌%◌, ◌^◌, ◌<◌, ◌≡◌, Bool, not, ◌||◌, List, replicate, length,
  get_or, set as set_at, ltb, leb, ◌==◌, if◌then◌else◌, minus_one, add32, sub32, Result, ok, ◌>>=◌,
  ◌>>◌, assert,
}

-- `struct bitmap`: `bits` is the array behind the pointer.
pub record Bitmap : Type 0 where
  pub btmp_bytes_len : ℕ
  pub bits : List ℕ

pub record IsValid (b : Bitmap) : Type 0 where
  pub sized : length b.bits ≡ b.btmp_bytes_len
  pub small : 8 * b.btmp_bytes_len < 2 ^ 31
  pub bytes : (i : ℕ) → get_or b.bits i 0 < 256

-- `BITMAP_MASK << byte_pos`
abbrev pub mask : ℕ → ℕ
mask byte_pos = 1 * 2 ^ byte_pos

-- The whole array is cleared: it is `btmp_bytes_len` bytes long.
unfoldable pub init : Bitmap → Bitmap
init b = record b { bits = replicate b.btmp_bytes_len 0 }

unfoldable pub scan_test : Bitmap → ℕ → Bool
scan_test b bit_idx = not (bit_and (get_or b.bits (bit_idx / 8) 0) (mask (bit_idx % 8)) == 0)

-- The first loop of `bitmap_scan`, with the bytes that are left.
unfoldable pub skip_full : List ℕ → ℕ → ℕ → ℕ
skip_full bits zero byte_idx = byte_idx
skip_full bits (suc left) byte_idx =
    let rest = skip_full bits left (byte_idx + 1) in
    if get_or bits byte_idx 0 == 0xff then rest else byte_idx

-- The second loop: a byte that is not full has a clear bit within 8 rounds.
unfoldable pub first_clear : ℕ → ℕ → ℕ → ℕ
first_clear zero byte byte_pos = byte_pos
first_clear (suc fuel) byte byte_pos =
    let rest = first_clear fuel byte (byte_pos + 1) in
    if bit_and byte (mask byte_pos) == 0 then byte_pos else rest

-- The third loop, with `bits_left` rounds.
unfoldable pub scan_run : Bitmap → ℕ → ℕ → ℕ → ℕ → Result ℕ
scan_run b cnt zero next_bit count = ok minus_one
scan_run b cnt (suc bits_left) next_bit count =
    let count' = if not (scan_test b next_bit) then count + 1 else 0 in
    let rest = scan_run b cnt bits_left (next_bit + 1) count' in
    assert (ltb next_bit (b.btmp_bytes_len * 8))
    >> (if count' == cnt then ok (add32 (sub32 next_bit cnt) 1) else rest)

-- What `bitmap_scan` does from the first byte that is not full on.
unfoldable pub scan_from : Bitmap → ℕ → ℕ → Result ℕ
scan_from b cnt byte_idx =
    let start = byte_idx * 8 + first_clear 8 (get_or b.bits byte_idx 0) 0 in
    if cnt == 1 then ok start else scan_run b cnt (b.btmp_bytes_len * 8 - (start + 1)) (start + 1) 1

unfoldable pub scan : Bitmap → ℕ → Result ℕ
scan b cnt = do
  assert (leb 1 cnt)
  let byte_idx = skip_full b.bits b.btmp_bytes_len 0
  if byte_idx == b.btmp_bytes_len then ok minus_one else scan_from b cnt byte_idx

-- `|= mask` or `&= ~mask`, cut to the byte that is stored.
unfoldable pub set_byte : ℕ → ℕ → ℕ → ℕ
set_byte byte byte_pos value =
    if value == 0 then bit_and byte (255 - mask byte_pos) else bit_or byte (mask byte_pos)

unfoldable pub set : Bitmap → ℕ → ℕ → Result Bitmap
set b bit_idx value = do
  assert (value == 1 || value == 0)
  let byte = get_or b.bits (bit_idx / 8) 0
  ok (record b { bits = set_at b.bits (bit_idx / 8) (set_byte byte (bit_idx % 8) value) })
