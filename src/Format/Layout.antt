-- ===== src/Format/Layout.antt =====
-- The regions that partition_format of fs/fs.c lays out.
use mcy_os.Prelude.{ℕ, ◌+◌, ◌-◌, ◌*◌, ◌/◌, ◌≤◌, ◌<◌, ◌≡◌, arith}
use mcy_os.Format.{div_round_up, free_sects, block_bitmap_bit_len, block_bitmap_sects, layout}

-- A partition that has room for a file system, on a disk of at most 80 MB, which is what the driver
-- reaches.
pub record HasRoom (start_lba sec_cnt : ℕ) : Type 0 where
  pub large : 620 ≤ sec_cnt
  pub inside : start_lba + sec_cnt ≤ 163840

module _ (start_lba sec_cnt : ℕ) (r : HasRoom start_lba sec_cnt) where
  free : free_sects sec_cnt ≡ sec_cnt - 611
  unfolding free_sects
  free = omega (arith, r.large, r.inside)

  abbrev pub first_round : ℕ
  first_round = (sec_cnt - 611 + 4095) / 4096

  pub rounded : div_round_up (free_sects sec_cnt) 4096 ≡ first_round
  rounded = rw free (omega (arith, r.large, r.inside))

  pub bit_len : block_bitmap_bit_len sec_cnt ≡ sec_cnt - 611 - first_round
  unfolding block_bitmap_bit_len
  bit_len = rw (rounded, free) (omega (arith, r.large, r.inside))

  pub sects : block_bitmap_sects sec_cnt ≡ (block_bitmap_bit_len sec_cnt + 4095) / 4096
  unfolding block_bitmap_sects
  sects = omega (arith, bit_len, r.large, r.inside)

  -- The regions follow one another: the super block, the two maps, the table of inodes and the
  -- blocks that are counted, all of them inside the partition. The map of blocks has a bit for each
  -- of these blocks and no sector more than it takes.
  pub layout_lem :
      let sb = layout start_lba sec_cnt in
      let bits = block_bitmap_bit_len sec_cnt in
      (sb.block_bitmap_lba ≡ start_lba + 2)
      × (sb.inode_bitmap_lba ≡ sb.block_bitmap_lba + sb.block_bitmap_sects)
      × (sb.inode_table_lba ≡ sb.inode_bitmap_lba + sb.inode_bitmap_sects)
      × (sb.data_start_lba ≡ sb.inode_table_lba + sb.inode_table_sects)
      × (8 ≤ bits)
      × (sb.data_start_lba + bits ≤ start_lba + sec_cnt)
      × (bits ≤ sb.block_bitmap_sects * 4096)
      × (sb.block_bitmap_sects * 4096 < bits + 4096)
  unfolding layout
  layout_lem = omega (arith, bit_len, sects, r.large, r.inside)
