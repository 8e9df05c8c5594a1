-- ===== src/FileIo/Volume.antt =====
-- fs/file.c: the allocation of inodes and blocks in the mounted partition, and the bit maps on the
-- disk (inode_bitmap_alloc, block_bitmap_alloc, bitmap_sync).
use mcy_os.Prelude.{
  ℕ, ◌+◌, ◌*◌, ◌/◌, List, ◌==◌, if◌then◌else◌, minus_one, add32, take, drop, Result, ok, ◌>>=◌,
}
use mcy_os.Bitmap.{Bitmap, scan}
use mcy_os.Bitmap.{set as set_bit}
use mcy_os.Inode.{Disk, ide_write, Partition}

-- What the functions use of `cur_part`, its super block and its disk.
pub record Volume : Type 0 where
  pub part : Partition
  pub block_bitmap : Bitmap
  pub inode_bitmap : Bitmap
  pub block_bitmap_lba : ℕ
  pub inode_bitmap_lba : ℕ
  pub data_start_lba : ℕ
  pub disk : Disk

-- `enum bitmap_type`
pub data BitmapType : Type 0 where
  inode_bitmap_type : BitmapType
  block_bitmap_type : BitmapType

unfoldable pub inode_bitmap_alloc : Volume → Result (Volume × ℕ)
inode_bitmap_alloc v = do
  bit_idx ← scan v.inode_bitmap 1
  let taken = set_bit v.inode_bitmap bit_idx 1 >>= λ b. ok (record v { inode_bitmap = b }, bit_idx)
  if bit_idx == minus_one then ok (v, minus_one) else taken

unfoldable pub block_bitmap_alloc : Volume → Result (Volume × ℕ)
block_bitmap_alloc v = do
  bit_idx ← scan v.block_bitmap 1
  let block_lba = add32 v.data_start_lba bit_idx
  let taken =
      set_bit v.block_bitmap bit_idx 1 >>= λ b. ok (record v { block_bitmap = b }, block_lba)
  if bit_idx == minus_one then ok (v, minus_one) else taken

-- 512 bytes of a map from an offset on.
abbrev pub map_sector : Bitmap → ℕ → List ℕ
map_sector b off_size = take 512 (drop off_size b.bits)

unfoldable pub bitmap_sync : ℕ → BitmapType → Volume → Volume
bitmap_sync bit_idx btmp v =
    let off_sec = bit_idx / 4096 in
    let off_size = off_sec * 512 in
    elim btmp [
      | inode_bitmap_type ↦ record v {
        disk = ide_write v.disk (v.inode_bitmap_lba + off_sec) (map_sector v.inode_bitmap off_size);
      }
      | block_bitmap_type ↦ record v {
        disk = ide_write v.disk (v.block_bitmap_lba + off_sec) (map_sector v.block_bitmap off_size);
      }
    ]
