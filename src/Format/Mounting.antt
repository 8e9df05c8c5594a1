-- ===== src/Format/Mounting.antt =====
-- A partition that has been formatted is mounted: fs/fs.c reads back what it wrote.
use mcy_os.Prelude.{
  ℕ, ◌+◌, ◌*◌, ◌/◌, ◌%◌, ◌≤◌, ◌<◌, ◌≡◌, ap, ◌∙◌, ◌≢◌, false, not, ◌||◌, List, [], arith, ltb, ◌==◌,
  length,
}
use mcy_os.Bitmap.{scan_test}
use mcy_os.Bitmap.Byte.{clear}
use mcy_os.Inode.{Disk, ide_read}
use mcy_os.Format.{
  SuperBlock, div_round_up, free_sects, block_bitmap_bit_len, block_bitmap_sects, layout,
  partition_format, Mounted, mount_partition,
}
use mcy_os.Format.Layout.{HasRoom, rounded, bit_len, layout_lem}
use mcy_os.Format.Maps.{block_map_lem, inode_map_lem}
use mcy_os.Format.Regions.{long, inode_byte, block_byte, super_read}

module _ (pad : List ℕ) (start_lba sec_cnt : ℕ) (d : Disk) (r : HasRoom start_lba sec_cnt)
    (padded : length pad ≡ 460) where
  abbrev sb : SuperBlock
  sb = layout start_lba sec_cnt

  abbrev bits : ℕ
  bits = block_bitmap_bit_len sec_cnt

  abbrev formatted : Disk
  formatted = partition_format pad start_lba sec_cnt d

  -- What is mounted, from the super block.
  abbrev mounted_from : SuperBlock → Mounted
  mounted_from s = record {
    sb = s;
    block_bitmap = record {
      btmp_bytes_len = s.block_bitmap_sects * 512;
      bits = ide_read formatted s.block_bitmap_lba s.block_bitmap_sects;
    };
    inode_bitmap = record {
      btmp_bytes_len = s.inode_bitmap_sects * 512;
      bits = ide_read formatted s.inode_bitmap_lba s.inode_bitmap_sects;
    };
    open_inodes = [];
  }

  pub mounted_lem : mount_partition start_lba formatted ≡ mounted_from sb
  unfolding mount_partition
  mounted_lem = ap mounted_from (super_read pad start_lba sec_cnt d r padded)

  pub block_bit :
      (j : ℕ)
      → j < sb.block_bitmap_sects * 4096
      → scan_test (mounted_from sb).block_bitmap j ≡ (j == 0 || ltb bits j)
  unfolding scan_test
  block_bit j below =
      let l = layout_lem start_lba sec_cnt r in
      ap (λ (x : ℕ). not (clear x (j % 8)))
        (block_byte pad start_lba sec_cnt d r padded (j / 8) (omega (arith, below)))
      ∙ block_map_lem sb bits sb.block_bitmap_sects (l.4) (l.6) (l.7)
          ((long pad start_lba sec_cnt d r padded).0) j below

  pub inode_bit : (j : ℕ) → j < 4096 → scan_test (mounted_from sb).inode_bitmap j ≡ (j == 0)
  unfolding scan_test
  inode_bit j below =
      ap (λ (x : ℕ). not (clear x (j % 8)))
        (inode_byte pad start_lba sec_cnt d r padded (j / 8) (omega (arith, below)))
      ∙ inode_map_lem sb j (omega (arith, long pad start_lba sec_cnt d r padded))

-- A partition with room for a file system is formatted and then mounted. The mounted super block
-- is the one that was laid out. In the map of inodes the bit of the root directory is set, of 4096.
-- In the map of blocks the bits that are set are that of the first block, and those above the number
-- of blocks; so the bit at that number itself, which stands for no block, is clear where the map
-- has one. No inode is open.
pub mount_partition-partition_format :
    (pad : List ℕ) (start_lba sec_cnt : ℕ) (d : Disk)
    → HasRoom start_lba sec_cnt
    → length pad ≡ 460
    → let m = mount_partition start_lba (partition_format pad start_lba sec_cnt d) in
      (m.sb ≡ layout start_lba sec_cnt)
      × ((j : ℕ) → j < 4096 → scan_test m.inode_bitmap j ≡ (j == 0))
      × ((j : ℕ)
          → j < block_bitmap_sects sec_cnt * 4096
          → scan_test m.block_bitmap j ≡ (j == 0 || ltb (block_bitmap_bit_len sec_cnt) j))
      × (m.open_inodes ≡ [])
unfolding layout
mount_partition-partition_format pad start_lba sec_cnt d r padded =
    let m = mounted_lem pad start_lba sec_cnt d r padded in
    (
      ap (λ (x : Mounted). x.sb) m,
      λ j below.
          ap (λ (x : Mounted). scan_test x.inode_bitmap j) m
          ∙ inode_bit pad start_lba sec_cnt d r padded j below,
      λ j below.
          ap (λ (x : Mounted). scan_test x.block_bitmap j) m
          ∙ block_bit pad start_lba sec_cnt d r padded j below,
      ap (λ (x : Mounted). x.open_inodes) m,
    )

-- On a partition of at least 620 sectors that lies within the first 80 MB of the disk, where the map of
-- blocks takes as many sectors as were set aside for it and is not full to its last bit: after
-- formatting and mounting, the bit behind the last block is clear, and the sector that it stands for
-- is the first one behind the partition.
pub partition_format-outside :
    (pad : List ℕ) (start_lba sec_cnt : ℕ) (d : Disk)
    → HasRoom start_lba sec_cnt
    → length pad ≡ 460
    → div_round_up (free_sects sec_cnt) 4096 ≡ block_bitmap_sects sec_cnt
    → block_bitmap_bit_len sec_cnt % 4096 ≢ 0
    → let m = mount_partition start_lba (partition_format pad start_lba sec_cnt d) in
      (scan_test m.block_bitmap (block_bitmap_bit_len sec_cnt) ≡ false)
      × (m.sb.data_start_lba + block_bitmap_bit_len sec_cnt ≡ start_lba + sec_cnt)
unfolding layout
partition_format-outside pad start_lba sec_cnt d r padded same partial =
    let (super, _, blocks, _) = mount_partition-partition_format pad start_lba sec_cnt d r padded in
    let l = layout_lem start_lba sec_cnt r in
    let n = block_bitmap_bit_len sec_cnt in
    let some_blocks : 8 ≤ n = l.4 in
    (
      blocks n (omega (arith, partial, l)) ∙ ground (arith, some_blocks),
      ap (λ (x : SuperBlock). x.data_start_lba + n) super
          ∙ omega (
            arith,
            l,
            same,
            rounded start_lba sec_cnt r,
            bit_len start_lba sec_cnt r,
            r.large,
            r.inside,
          ),
    )
