-- ===== src/Format/Maps.antt =====
-- The bits of the maps that partition_format of fs/fs.c makes.
use mcy_os.Prelude.{
  ℕ, zero, suc, ◌+◌, ◌-◌, ◌*◌, ◌/◌, ◌%◌, ◌≤◌, ◌<◌, ◌≡◌, refl, sym, ap, ◌∙◌, inl, Bool, true, not,
  ◌||◌, List, arith, dec_lt, ℕ_discrete, all_below, all_below_sound, ltb, leb, ◌==◌, if◌then◌else◌,
  length, get_or, set, replicate, length-set, get_or-set_self, get_or-set, length-replicate,
  get_or-replicate,
}
use mcy_os.Bitmap.{set_byte}
use mcy_os.Bitmap.Byte.{clear, clear_full, clear_zero}
use mcy_os.Inode.{copy_at}
use mcy_os.Inode.Layout.{length-copy_at, get_or-copy_at_outside, get_or-copy_at_inside}
use mcy_os.Format.{SuperBlock, buf_size, cleared, clear_bits, block_map}

replicated : (n i : ℕ) → i < n → get_or (replicate {A = ℕ} n 0xff) i 0 ≡ 0xff
replicated zero i h = absurd (omega arith)
replicated (suc n) zero h = refl
replicated (suc n) (suc i) h = replicated n i (omega arith)

check_one : ℕ → Bool
check_one q = if q == 0 then not (clear 1 q) else clear 1 q

all_one : all_below 8 check_one ≡ true
unfolding all_below check_one
all_one = refl

clear_one : (q : ℕ) → q < 8 → clear 1 q ≡ not (q == 0)
unfolding check_one
clear_one q small = ground (arith, all_below_sound 8 check_one q all_one small)

check_last : ℕ → ℕ → Bool
check_last m q =
    if leb q m then clear (clear_bits (m + 1) 0 255) q else not (clear (clear_bits (m + 1) 0 255) q)

all_last : all_below 8 (λ m. all_below 8 (check_last m)) ≡ true
unfolding all_below check_last clear_bits set_byte
all_last = refl

-- In the last byte the bits up to the one behind the last block are clear.
clear_last : (m q : ℕ) → m < 8 → q < 8 → clear (clear_bits (m + 1) 0 255) q ≡ leb q m
unfolding check_last
clear_last m q low small = ground (
  arith,
  all_below_sound 8 (check_last m) q
      (all_below_sound 8 (λ m'. all_below 8 (check_last m')) m all_last low) small,
)

-- What the buffer holds, for `bit_len` blocks and a map of `sects` sectors that covers them.
module _ (sb : SuperBlock) (bit_len sects : ℕ) (some_bytes : 8 ≤ bit_len)
    (covered : bit_len ≤ sects * 4096) (close : sects * 4096 < bit_len + 4096)
    (long : sects * 512 + 512 ≤ buf_size sb) where
  abbrev last_byte : ℕ
  last_byte = bit_len / 8

  abbrev last_size : ℕ
  last_size = 512 - last_byte % 512

  abbrev marked : List ℕ
  marked = set (cleared sb) 0 1

  abbrev filled : List ℕ
  filled = copy_at marked last_byte (replicate last_size 0xff)

  sized : length marked ≡ buf_size sb
  sized = length-set (cleared sb) 0 1 ∙ length-replicate {A = ℕ} (buf_size sb) 0

  ones : length (replicate {A = ℕ} last_size 0xff) ≡ last_size
  ones = length-replicate {A = ℕ} last_size 0xff

  byte_marked : (k : ℕ) → get_or marked k 0 ≡ (if k == 0 then 1 else 0)
  byte_marked k = ground (
    arith,
    get_or-set (cleared sb) 0 k 1 0,
    get_or-replicate {A = ℕ} (buf_size sb) k 0,
    length-replicate {A = ℕ} (buf_size sb) 0,
    long,
  )

  byte_before : (k : ℕ) → k < last_byte → get_or filled k 0 ≡ (if k == 0 then 1 else 0)
  byte_before k before =
      get_or-copy_at_outside marked last_byte (replicate last_size 0xff) k (inl before)
      ∙ byte_marked k

  byte_filled : (k : ℕ) → last_byte ≤ k → k < last_byte + last_size → get_or filled k 0 ≡ 0xff
  byte_filled k from below =
      let at : k ≡ last_byte + (k - last_byte) = omega (arith, from) in
      ap (λ (x : ℕ). get_or filled x 0) at
      ∙ get_or-copy_at_inside marked last_byte (replicate last_size 0xff) (k - last_byte)
          (omega (arith, ones, from, below)) (omega (arith, ones, sized, long, covered))
      ∙ get_or_ones (k - last_byte) (omega (arith, from, below))
    where
      get_or_ones : (i : ℕ) → i < last_size → get_or (replicate {A = ℕ} last_size 0xff) i 0 ≡ 0xff
      get_or_ones i small = replicated last_size i small

  byte_lem :
      (k : ℕ)
      → k < sects * 512
      → get_or (block_map bit_len sb) k 0 ≡ (
          if ltb k last_byte
          then (if k == 0 then 1 else 0)
          else if k == last_byte
          then clear_bits (bit_len % 8 + 1) 0 255
          else 255)
  unfolding block_map
  byte_lem k below =
      let last = clear_bits (bit_len % 8 + 1) 0 (get_or filled last_byte 0) in
      let changed = get_or-set filled last_byte k last 0 in
      let full = length-copy_at marked last_byte (replicate last_size 0xff) in
      elim (dec_lt k last_byte) [
        | yes before ↦ ground (arith, changed, byte_before k before, before)
        | no from ↦
            let value : get_or filled k 0 ≡ 0xff =
              byte_filled k (omega (arith, from)) (omega (arith, from, below, close)) in
            elim (ℕ_discrete last_byte k) [
              | yes here ↦
                  let value' : get_or filled last_byte 0 ≡ 0xff =
                    ap (λ (x : ℕ). get_or filled x 0) here ∙ value in
                  let inside : last_byte < length filled =
                    omega (arith, full, sized, long, below, here) in
                  let there : get_or (set filled last_byte last) k 0
                      ≡ clear_bits (bit_len % 8 + 1) 0 255 =
                    ap (λ (x : ℕ). get_or (set filled last_byte last) x 0) (sym here)
                    ∙ get_or-set_self filled last_byte last 0 inside
                    ∙ ap (clear_bits (bit_len % 8 + 1) 0) value' in
                  ground (arith, there, here)
              | no other ↦ ground (arith, changed, value, from, other)
            ]
      ]

  -- The bits that are set are that of the first block, and those behind the one that follows the
  -- last block.
  pub block_map_lem :
      (j : ℕ)
      → j < sects * 4096
      → not (clear (get_or (block_map bit_len sb) (j / 8) 0) (j % 8)) ≡ (j == 0 || ltb bit_len j)
  block_map_lem j below =
      let byte = byte_lem (j / 8) (omega (arith, below)) in
      let q : j % 8 < 8 = omega arith in
      let r : bit_len % 8 < 8 = omega arith in
      elim (dec_lt (j / 8) last_byte) [
        | yes before ↦ elim (ℕ_discrete (j / 8) 0) [
          | yes first ↦
              let value : get_or (block_map bit_len sb) (j / 8) 0 ≡ 1 =
                ground (arith, byte, before, first) in
              rw value (ground (arith, clear_one (j % 8) q, before, first))
          | no later ↦
              let value : get_or (block_map bit_len sb) (j / 8) 0 ≡ 0 =
                ground (arith, byte, before, later) in
              rw value (ground (arith, clear_zero (j % 8), before, later))
        ]
        | no from ↦ elim (ℕ_discrete (j / 8) last_byte) [
          | yes here ↦
              let value : get_or (block_map bit_len sb) (j / 8) 0
                  ≡ clear_bits (bit_len % 8 + 1) 0 255 =
                ground (arith, byte, from, here) in
              rw value (ground (arith, clear_last (bit_len % 8) (j % 8) r q, here, some_bytes))
          | no behind ↦
              let value : get_or (block_map bit_len sb) (j / 8) 0 ≡ 255 =
                ground (arith, byte, from, behind) in
              rw value (ground (arith, clear_full (j % 8) q, from, behind))
        ]
      ]

-- The map of inodes has the bit of the root directory only.
pub inode_map_lem :
    (sb : SuperBlock) (j : ℕ)
    → 512 ≤ buf_size sb
    → not (clear (get_or (set (cleared sb) 0 1) (j / 8) 0) (j % 8)) ≡ (j == 0)
inode_map_lem sb j long =
    let byte = get_or-set (cleared sb) 0 (j / 8) 1 0 in
    let zero_byte = get_or-replicate {A = ℕ} (buf_size sb) (j / 8) 0 in
    let sized = length-replicate {A = ℕ} (buf_size sb) 0 in
    let q : j % 8 < 8 = omega arith in
    elim (ℕ_discrete (j / 8) 0) [
      | yes first ↦
          let value : get_or (set (cleared sb) 0 1) (j / 8) 0 ≡ 1 =
            ground (arith, byte, first, sized, long) in
          rw value (ground (arith, clear_one (j % 8) q, first))
      | no later ↦
          let value : get_or (set (cleared sb) 0 1) (j / 8) 0 ≡ 0 =
            ground (arith, byte, later, zero_byte) in
          rw value (ground (arith, clear_zero (j % 8), later))
    ]
