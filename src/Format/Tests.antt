-- ===== src/Format/Tests.antt =====
-- A partition of 5000 sectors from sector 63 on, on an empty disk.
use mcy_os.Prelude.{
  ℕ, ◌+◌, ◌*◌, ◌<◌, ◌≡◌, refl, false, ◌||◌, List, [], arith, ltb, ◌==◌, replicate, length-replicate,
}
use mcy_os.Bitmap.{scan_test}
use mcy_os.Inode.{Disk}
use mcy_os.Format.{
  div_round_up, free_sects, block_bitmap_bit_len, block_bitmap_sects, layout, partition_format,
  mount_partition,
}
use mcy_os.Format.Layout.{HasRoom}
use mcy_os.Format.Mounting.{mount_partition-partition_format, partition_format-outside}

abbrev empty_disk : Disk
empty_disk = λ a. 0

abbrev padding : List ℕ
padding = replicate 460 0

small-HasRoom : HasRoom 63 5000
small-HasRoom = record { large = omega arith; inside = omega arith }

small_map : block_bitmap_bit_len 5000 ≡ 4387
unfolding block_bitmap_bit_len free_sects
small_map = refl

mount_partition-partition_format_example :
    let m = mount_partition 63 (partition_format padding 63 5000 empty_disk) in
    (m.sb ≡ layout 63 5000)
    × ((j : ℕ) → j < 4096 → scan_test m.inode_bitmap j ≡ (j == 0))
    × ((j : ℕ)
        → j < block_bitmap_sects 5000 * 4096
        → scan_test m.block_bitmap j ≡ (j == 0 || ltb (block_bitmap_bit_len 5000) j))
    × (m.open_inodes ≡ [])
mount_partition-partition_format_example =
    mount_partition-partition_format padding 63 5000 empty_disk small-HasRoom
      (length-replicate {A = ℕ} 460 0)

same_sects : div_round_up (free_sects 5000) 4096 ≡ block_bitmap_sects 5000
unfolding free_sects block_bitmap_sects block_bitmap_bit_len
same_sects = refl

partition_format-outside_example :
    let m = mount_partition 63 (partition_format padding 63 5000 empty_disk) in
    (scan_test m.block_bitmap (block_bitmap_bit_len 5000) ≡ false)
    × (m.sb.data_start_lba + block_bitmap_bit_len 5000 ≡ 5063)
partition_format-outside_example =
    partition_format-outside padding 63 5000 empty_disk small-HasRoom
      (length-replicate {A = ℕ} 460 0) same_sects (omega (arith, small_map))
