-- ===== src/Format/Regions.antt =====
-- What partition_format of fs/fs.c leaves in its regions of the disk, as it is read back.
use mcy_os.Prelude.{
  ℕ, zero, suc, ◌+◌, ◌*◌, ◌^◌, ◌≤◌, ◌<◌, ◌≡◌, refl, ap, ◌∙◌, inl, List, [], ◌∷◌, ◌++◌, arith, add32,
  length, get_or, set, length-append, length-set, length-replicate,
}
use mcy_os.Inode.{Disk, ide_read, word_at, word_bytes}
use mcy_os.Inode.Layout.{length-word_bytes, word_at-word_bytes, word_at_same, length-copy_at}
use mcy_os.Inode.Fields.{get_or-append}
use mcy_os.Format.{
  SuperBlock, block_bitmap_bit_len, block_bitmap_sects, layout, super_words, buf_size, cleared,
  block_map, root_inode_buf, root_dir_buf, write_sectors, partition_format, super_at,
}
use mcy_os.Format.Layout.{HasRoom, bit_len, sects, layout_lem}
use mcy_os.Format.Written.{write_sectors-inside, write_sectors-outside, get_or-ide_read}

abbrev AllWords : List ℕ → Type 0
AllWords [] = Unit
AllWords (w ∷ ws) = (w < 2 ^ 32) × AllWords ws

get_or-AllWords : (ws : List ℕ) → AllWords ws → (i : ℕ) → get_or ws i 0 < 2 ^ 32
get_or-AllWords [] all i = omega arith
get_or-AllWords (w ∷ ws) (first, later) zero = first
get_or-AllWords (w ∷ ws) (first, later) (suc i) = get_or-AllWords ws later i

-- A super block is read from a buffer that holds its words.
super_at-words :
    (buf : List ℕ) (sb : SuperBlock)
    → ((k : ℕ) → k < 13 → word_at buf (k * 4) ≡ get_or (super_words sb) k 0)
    → super_at buf ≡ sb
unfolding super_at
super_at-words buf sb words =
    let e0 = words 0 (omega arith) in
    let e1 = words 1 (omega arith) in
    let e2 = words 2 (omega arith) in
    let e3 = words 3 (omega arith) in
    let e4 = words 4 (omega arith) in
    let e5 = words 5 (omega arith) in
    let e6 = words 6 (omega arith) in
    let e7 = words 7 (omega arith) in
    let e8 = words 8 (omega arith) in
    let e9 = words 9 (omega arith) in
    let e10 = words 10 (omega arith) in
    let e11 = words 11 (omega arith) in
    let e12 = words 12 (omega arith) in
    λ i. record {
      magic = e0 i;
      sec_cnt = e1 i;
      inode_cnt = e2 i;
      part_lba_base = e3 i;
      block_bitmap_lba = e4 i;
      block_bitmap_sects = e5 i;
      inode_bitmap_lba = e6 i;
      inode_bitmap_sects = e7 i;
      inode_table_lba = e8 i;
      inode_table_sects = e9 i;
      data_start_lba = e10 i;
      root_inode_no = e11 i;
      dir_entry_size = e12 i;
    }

module _ (pad : List ℕ) (start_lba sec_cnt : ℕ) (d : Disk) (r : HasRoom start_lba sec_cnt)
    (padded : length pad ≡ 460) where
  abbrev pub sb : SuperBlock
  sb = layout start_lba sec_cnt

  abbrev pub bits : ℕ
  bits = block_bitmap_bit_len sec_cnt

  abbrev pub formatted : Disk
  formatted = partition_format pad start_lba sec_cnt d

  small : block_bitmap_sects sec_cnt ≤ 40
  small = omega (arith, sects start_lba sec_cnt r, bit_len start_lba sec_cnt r, r.large, r.inside)

  -- The buffer is as long as the table of inodes, the longest region, and has room to spare.
  pub long :
      (sb.block_bitmap_sects * 512 + 512 ≤ buf_size sb)
      × (sb.inode_bitmap_sects ≡ 1)
      × (sb.inode_table_sects ≡ 608)
      × (buf_size sb ≡ 608 * 512)
  unfolding layout buf_size
  long = ground (arith, small)

  sized : length (cleared sb) ≡ buf_size sb
  sized = length-replicate {A = ℕ} (buf_size sb) 0

  abbrev words : List ℕ
  words = word_bytes (super_words sb)

  words-AllWords : AllWords (super_words sb)
  unfolding layout block_bitmap_sects
  words-AllWords = omega (arith, r.large, r.inside)

  length-words : length words ≡ 52
  unfolding layout
  length-words = length-word_bytes (super_words sb)

  length-super : length (words ++ pad) ≡ 512
  length-super = omega (arith, length-append words pad, length-words, padded)

  length-block_map : length (block_map bits sb) ≡ buf_size sb
  unfolding block_map
  length-block_map = simp (length-set, length-copy_at) sized

  length-inode_map : length (set (cleared sb) 0 1) ≡ buf_size sb
  length-inode_map = length-set (cleared sb) 0 1 ∙ sized

  length-root_inode : length (root_inode_buf sb) ≡ buf_size sb
  unfolding root_inode_buf
  length-root_inode = simp (length-set) sized

  length-root_dir : length (root_dir_buf sb) ≡ buf_size sb
  unfolding root_dir_buf
  length-root_dir = simp (length-set) sized

  -- The disk after each of the five writes.
  abbrev d1 : Disk
  d1 = write_sectors d (add32 start_lba 1) (words ++ pad) 1

  abbrev d2 : Disk
  d2 = write_sectors d1 sb.block_bitmap_lba (block_map bits sb) sb.block_bitmap_sects

  abbrev d3 : Disk
  d3 = write_sectors d2 sb.inode_bitmap_lba (set (cleared sb) 0 1) sb.inode_bitmap_sects

  abbrev d4 : Disk
  d4 = write_sectors d3 sb.inode_table_lba (root_inode_buf sb) sb.inode_table_sects

  formatted_lem : formatted ≡ write_sectors d4 sb.data_start_lba (root_dir_buf sb) 1
  unfolding partition_format
  formatted_lem = refl

  regions :
      (add32 start_lba 1 ≡ start_lba + 1)
      × (sb.block_bitmap_lba ≡ start_lba + 2)
      × (sb.inode_bitmap_lba ≡ sb.block_bitmap_lba + sb.block_bitmap_sects)
      × (sb.inode_table_lba ≡ sb.inode_bitmap_lba + sb.inode_bitmap_sects)
      × (sb.data_start_lba ≡ sb.inode_table_lba + sb.inode_table_sects)
  regions =
      let l = layout_lem start_lba sec_cnt r in
      (omega (arith, r.large, r.inside), l.0, l.1, l.2, l.3)

  fits_block_map : sb.block_bitmap_sects * 512 ≤ length (block_map bits sb)
  fits_block_map = omega (arith, long, length-block_map)

  fits_inode_map : sb.inode_bitmap_sects * 512 ≤ length (set (cleared sb) 0 1)
  fits_inode_map = omega (arith, long, length-inode_map)

  fits_table : sb.inode_table_sects * 512 ≤ length (root_inode_buf sb)
  fits_table = omega (arith, long, length-root_inode)

  fits_dir : 1 * 512 ≤ length (root_dir_buf sb)
  fits_dir = omega (arith, long, length-root_dir)

  -- A byte of the sectors before the table of inodes stays as the first three writes left it.
  byte_before :
      (lba n i : ℕ)
      → lba + n ≤ sb.inode_table_lba
      → i < n * 512
      → formatted (lba * 512 + i) ≡ d3 (lba * 512 + i)
  byte_before lba n i before below =
      ap (λ (x : Disk). x (lba * 512 + i)) formatted_lem
      ∙ write_sectors-outside d4 sb.data_start_lba (root_dir_buf sb) 1 fits_dir lba n i
          (inl (omega (arith, before, regions))) below
      ∙ write_sectors-outside d3 sb.inode_table_lba (root_inode_buf sb) sb.inode_table_sects
          fits_table lba n i (inl before) below

  pub inode_byte :
      (k : ℕ)
      → k < 512
      → get_or (ide_read formatted sb.inode_bitmap_lba sb.inode_bitmap_sects) k 0
        ≡ get_or (set (cleared sb) 0 1) k 0
  inode_byte k below =
      let inside : k < sb.inode_bitmap_sects * 512 = omega (arith, long, below) in
      get_or-ide_read formatted sb.inode_bitmap_lba sb.inode_bitmap_sects k inside
      ∙ byte_before sb.inode_bitmap_lba sb.inode_bitmap_sects k (omega (arith, regions)) inside
      ∙ write_sectors-inside d2 sb.inode_bitmap_lba (set (cleared sb) 0 1) sb.inode_bitmap_sects
          fits_inode_map k inside

  pub block_byte :
      (k : ℕ)
      → k < sb.block_bitmap_sects * 512
      → get_or (ide_read formatted sb.block_bitmap_lba sb.block_bitmap_sects) k 0
        ≡ get_or (block_map bits sb) k 0
  block_byte k inside =
      get_or-ide_read formatted sb.block_bitmap_lba sb.block_bitmap_sects k inside
      ∙ byte_before sb.block_bitmap_lba sb.block_bitmap_sects k (omega (arith, regions)) inside
      ∙ write_sectors-outside d2 sb.inode_bitmap_lba (set (cleared sb) 0 1) sb.inode_bitmap_sects
          fits_inode_map sb.block_bitmap_lba sb.block_bitmap_sects k (inl (omega (arith, regions)))
          inside
      ∙ write_sectors-inside d1 sb.block_bitmap_lba (block_map bits sb) sb.block_bitmap_sects
          fits_block_map k inside

  super_byte :
      (k : ℕ) → k < 52 → get_or (ide_read formatted (add32 start_lba 1) 1) k 0 ≡ get_or words k 0
  super_byte k below =
      let lba = add32 start_lba 1 in
      let inside : k < 1 * 512 = omega (arith, below) in
      get_or-ide_read formatted lba 1 k inside
      ∙ byte_before lba 1 k (omega (arith, regions)) inside
      ∙ write_sectors-outside d2 sb.inode_bitmap_lba (set (cleared sb) 0 1) sb.inode_bitmap_sects
          fits_inode_map lba 1 k (inl (omega (arith, regions))) inside
      ∙ write_sectors-outside d1 sb.block_bitmap_lba (block_map bits sb) sb.block_bitmap_sects
          fits_block_map lba 1 k (inl (omega (arith, regions))) inside
      ∙ write_sectors-inside d lba (words ++ pad) 1 (omega (arith, length-super)) k inside
      ∙ get_or-append words pad k (omega (arith, length-words, below))

  pub super_read : super_at (ide_read formatted (add32 start_lba 1) 1) ≡ sb
  super_read = super_at-words (ide_read formatted (add32 start_lba 1) 1) sb λ k below.
      word_at_same (ide_read formatted (add32 start_lba 1) 1) words (k * 4) (k * 4)
        (λ i low. super_byte (k * 4 + i) (omega (arith, below, low)))
      ∙ word_at-word_bytes (super_words sb) k (get_or-AllWords (super_words sb) words-AllWords)
