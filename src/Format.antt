-- ===== src/Format.antt =====
-- fs/fs.c: partition_format, and mount_partition of a partition that has been found.
-- A disk is its bytes (Inode). The buffers are taken to be there, and what partition_format leaves
-- of its super block as it was on the stack is an argument. Printed lines are left out.
pub mod Layout
pub mod Written
pub mod Maps
pub mod Regions
pub mod Mounting
mod Tests
use mcy_os.Prelude.{
  ℕ, zero, suc, ◌+◌, ◌-◌, ◌*◌, ◌/◌, ◌%◌, ◌^◌, ◌≤◌, ◌<◌, ◌≡◌, refl, sym, ap, ap₂, subst, ◌∙◌, ◌≢◌,
  ◌↔◌, ◌⊎◌, inl, inr, Bool, true, false, not, ◌&&◌, ◌||◌, Option, none, some, List, [], ◌∷◌, ◌++◌,
  arith, dec_lt, ℕ_discrete, all_below, all_below_sound, ltb, leb, ◌==◌, if◌then◌else◌, ltb→lt,
  lt→ltb, le→not_ltb, leb→le, ==_iff, ==_refl, ==_ne, Bool-cases, and_left, and_right, minus_one,
  add32, sub32, length, get_or, set, take, drop, replicate, length-append, length-set,
  get_or-set_self, get_or-set_ne, get_or-set, get_or_outside, length-replicate, get_or-replicate,
  Result, ok, panic, ◌>>=◌, ◌>>◌, assert,
}
use mcy_os.Bitmap.{Bitmap, set_byte}
use mcy_os.Inode.{Disk, ide_read, ide_write, copy_at, word_bytes, word_at, Inode}

-- `struct super_block`, without its padding
pub record SuperBlock : Type 0 where
  pub magic : ℕ
  pub sec_cnt : ℕ
  pub inode_cnt : ℕ
  pub part_lba_base : ℕ
  pub block_bitmap_lba : ℕ
  pub block_bitmap_sects : ℕ
  pub inode_bitmap_lba : ℕ
  pub inode_bitmap_sects : ℕ
  pub inode_table_lba : ℕ
  pub inode_table_sects : ℕ
  pub data_start_lba : ℕ
  pub root_inode_no : ℕ
  pub dir_entry_size : ℕ

abbrev pub div_round_up : ℕ → ℕ → ℕ
div_round_up x step = add32 x (step - 1) / step

abbrev pub inode_bitmap_sects : ℕ
inode_bitmap_sects = 4096 / 4096

abbrev pub inode_table_sects : ℕ
inode_table_sects = (76 * 4096 + 511) / 512

-- The sectors that are left for blocks and their map, and the blocks that are counted.
unfoldable pub free_sects : ℕ → ℕ
free_sects sec_cnt = sub32 sec_cnt (1 + 1 + inode_bitmap_sects + inode_table_sects)

unfoldable pub block_bitmap_bit_len : ℕ → ℕ
block_bitmap_bit_len sec_cnt = sub32 (free_sects sec_cnt) (div_round_up (free_sects sec_cnt) 4096)

unfoldable pub block_bitmap_sects : ℕ → ℕ
block_bitmap_sects sec_cnt = div_round_up (block_bitmap_bit_len sec_cnt) 4096

-- The fields that `partition_format` fills in.
unfoldable pub layout : ℕ → ℕ → SuperBlock
layout start_lba sec_cnt =
    let block_bitmap_lba = add32 start_lba 2 in
    let inode_bitmap_lba = add32 block_bitmap_lba (block_bitmap_sects sec_cnt) in
    let inode_table_lba = add32 inode_bitmap_lba inode_bitmap_sects in
    record {
      magic = 0x19590318;
      sec_cnt = sec_cnt;
      inode_cnt = 4096;
      part_lba_base = start_lba;
      block_bitmap_lba = block_bitmap_lba;
      block_bitmap_sects = block_bitmap_sects sec_cnt;
      inode_bitmap_lba = inode_bitmap_lba;
      inode_bitmap_sects = inode_bitmap_sects;
      inode_table_lba = inode_table_lba;
      inode_table_sects = inode_table_sects;
      data_start_lba = add32 inode_table_lba inode_table_sects;
      root_inode_no = 0;
      dir_entry_size = 24;
    }

abbrev pub super_words : SuperBlock → List ℕ
super_words sb =
    sb.magic ∷ sb.sec_cnt ∷ sb.inode_cnt ∷ sb.part_lba_base ∷ sb.block_bitmap_lba
    ∷ sb.block_bitmap_sects ∷ sb.inode_bitmap_lba ∷ sb.inode_bitmap_sects ∷ sb.inode_table_lba
    ∷ sb.inode_table_sects ∷ sb.data_start_lba ∷ sb.root_inode_no ∷ sb.dir_entry_size ∷ []

abbrev pub larger : ℕ → ℕ → ℕ
larger a b = if leb b a then a else b

-- `buf_size`, and the buffer as it is given out: cleared.
unfoldable pub buf_size : SuperBlock → ℕ
buf_size sb = larger (larger sb.block_bitmap_sects sb.inode_bitmap_sects) sb.inode_table_sects * 512

abbrev pub cleared : SuperBlock → List ℕ
cleared sb = replicate (buf_size sb) 0

-- `while (bit_idx <= block_bitmap_last_bit)`, with the rounds left.
unfoldable pub clear_bits : ℕ → ℕ → ℕ → ℕ
clear_bits zero bit_idx byte = byte
clear_bits (suc left) bit_idx byte = clear_bits left (bit_idx + 1) (set_byte byte bit_idx 0)

-- The buffer with the map of blocks.
unfoldable pub block_map : ℕ → SuperBlock → List ℕ
block_map bit_len sb =
    let last_byte = bit_len / 8 in
    let last_bit = bit_len % 8 in
    let last_size = 512 - last_byte % 512 in
    let marked = set (cleared sb) 0 1 in
    let filled = copy_at marked last_byte (replicate last_size 0xff) in
    set filled last_byte (clear_bits (last_bit + 1) 0 (get_or filled last_byte 0))

-- The first inode: its size, its number and its first block.
unfoldable pub root_inode_buf : SuperBlock → List ℕ
root_inode_buf sb =
    copy_at (copy_at (cleared sb) 0 (word_bytes (0 ∷ sb.dir_entry_size * 2 ∷ []))) 16
      (word_bytes (sb.data_start_lba ∷ []))

-- The entries `.` and `..`, both of the directory 0; `FT_DIRECTORY` is 2.
unfoldable pub root_dir_buf : SuperBlock → List ℕ
root_dir_buf sb =
    let here = copy_at (cleared sb) 0 (46 ∷ []) in
    let here' = copy_at here 16 (word_bytes (0 ∷ 2 ∷ [])) in
    let above = copy_at here' 24 (46 ∷ 46 ∷ []) in copy_at above 40 (word_bytes (0 ∷ 2 ∷ []))

-- `ide_write(hd, lba, buf, sec_cnt)`
abbrev pub write_sectors : Disk → ℕ → List ℕ → ℕ → Disk
write_sectors d lba buf sec_cnt = ide_write d lba (take (sec_cnt * 512) buf)

unfoldable pub partition_format : List ℕ → ℕ → ℕ → Disk → Disk
partition_format pad start_lba sec_cnt d =
    let sb = layout start_lba sec_cnt in
    let d1 = write_sectors d (add32 start_lba 1) (word_bytes (super_words sb) ++ pad) 1 in
    let d2 =
      write_sectors d1 sb.block_bitmap_lba (block_map (block_bitmap_bit_len sec_cnt) sb)
        sb.block_bitmap_sects in
    let d3 = write_sectors d2 sb.inode_bitmap_lba (set (cleared sb) 0 1) sb.inode_bitmap_sects in
    let d4 = write_sectors d3 sb.inode_table_lba (root_inode_buf sb) sb.inode_table_sects in
    write_sectors d4 sb.data_start_lba (root_dir_buf sb) 1

-- `memcpy(cur_part->sb, sb_buf, sizeof(struct super_block))`
unfoldable pub super_at : List ℕ → SuperBlock
super_at buf = record {
  magic = word_at buf (0 * 4);
  sec_cnt = word_at buf (1 * 4);
  inode_cnt = word_at buf (2 * 4);
  part_lba_base = word_at buf (3 * 4);
  block_bitmap_lba = word_at buf (4 * 4);
  block_bitmap_sects = word_at buf (5 * 4);
  inode_bitmap_lba = word_at buf (6 * 4);
  inode_bitmap_sects = word_at buf (7 * 4);
  inode_table_lba = word_at buf (8 * 4);
  inode_table_sects = word_at buf (9 * 4);
  data_start_lba = word_at buf (10 * 4);
  root_inode_no = word_at buf (11 * 4);
  dir_entry_size = word_at buf (12 * 4);
}

-- What `mount_partition` sets of `struct partition`.
pub record Mounted : Type 0 where
  pub sb : SuperBlock
  pub block_bitmap : Bitmap
  pub inode_bitmap : Bitmap
  pub open_inodes : List Inode

unfoldable pub mount_partition : ℕ → Disk → Mounted
mount_partition start_lba d =
    let sb = super_at (ide_read d (add32 start_lba 1) 1) in
    record {
      sb = sb;
      block_bitmap = record {
        btmp_bytes_len = sb.block_bitmap_sects * 512;
        bits = ide_read d sb.block_bitmap_lba sb.block_bitmap_sects;
      };
      inode_bitmap = record {
        btmp_bytes_len = sb.inode_bitmap_sects * 512;
        bits = ide_read d sb.inode_bitmap_lba sb.inode_bitmap_sects;
      };
      open_inodes = [];
    }
