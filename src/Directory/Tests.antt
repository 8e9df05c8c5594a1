-- ===== src/Directory/Tests.antt =====
-- A directory with one block: an entry `.`, an unused one, and an entry `a`.
use mcy_os.Prelude.{
  ℕ, ◌+◌, ◌*◌, ◌≤◌, ◌<◌, ◌≡◌, refl, ◌⊎◌, true, false, some, [], ◌∷◌, arith, ◌==◌, if◌then◌else◌,
  length, get_or, replicate, ok, panic,
}
use mcy_os.Inode.{Disk, Inode}
use mcy_os.FileIo.{no_blocks, direct_blocks}
use mcy_os.Directory.{DirEntry, dir_blocks, dir_entry_size, moved, dir_read, create_dir_entry}
use mcy_os.FileIo.Volume.{Volume}
use mcy_os.Directory.Change.{free_entry, entry_bytes, with_disk, grow, sync_dir_entry}
use mcy_os.Directory.Adding.{FirstFree, sync_dir_entry-over}
use mcy_os.Directory.Reading.{sector_used, used_from, used_entries, nth, dir_read_lem}

-- The bytes that are not 0: the names, the inode number of `a`, and the types.
abbrev disk : Disk
disk a =
    if a == 358400
    then 46
    else if a == 358420
    then 2
    else if a == 358448
    then 97
    else if a == 358464
    then 7
    else if a == 358468
    then 1
    else 0

abbrev dir : Inode
dir = record {
  i_no = 0;
  i_size = 48;
  i_open_cnts = 1;
  write_deny = false;
  i_sectors = 700 ∷ 0 ∷ 0 ∷ 0 ∷ 0 ∷ 0 ∷ 0 ∷ 0 ∷ 0 ∷ 0 ∷ 0 ∷ 0 ∷ 0 ∷ [];
  prev = 0;
  next = 0;
}

abbrev zero_byte : ℕ
zero_byte = 0

abbrev entry_a : DirEntry
entry_a = record { filename = 97 ∷ replicate 15 zero_byte; i_no = 7; f_type = 1 }

-- A name of 17 characters is refused.
create_long : create_dir_entry (replicate 17 97) 7 1 ≡ panic
unfolding create_dir_entry
create_long = refl

size_counts : dir.i_size ≡ length (used_entries dir disk) * dir_entry_size
unfolding used_from sector_used dir_blocks direct_blocks no_blocks
size_counts = refl

second_used : nth (used_entries dir disk) 1 ≡ some entry_a
unfolding used_from sector_used dir_blocks direct_blocks no_blocks
second_used = refl

dir_read_lem_example : dir_read dir disk 24 ≡ ok (moved 24 (nth (used_entries dir disk) 1))
dir_read_lem_example = dir_read_lem dir disk 1 size_counts

abbrev vol : Volume
vol = record {
  part = record { inode_table_lba = 10; start_lba = 5; sec_cnt = 1000 };
  block_bitmap = record { btmp_bytes_len = 0; bits = [] };
  inode_bitmap = record { btmp_bytes_len = 0; bits = [] };
  block_bitmap_lba = 7;
  inode_bitmap_lba = 8;
  data_start_lba = 699;
  disk = disk;
}

-- The unused entry is the second one.
second_free : FirstFree dir disk 0 700 1
unfolding free_entry direct_blocks no_blocks
second_free = record {
  known = omega arith;
  block = refl;
  there = λ e. absurd (omega (arith, e));
  free = refl;
  before = λ j h. absurd (omega arith);
  full = λ j h. absurd (omega arith);
}

abbrev entry_b : DirEntry
entry_b = record { filename = 98 ∷ replicate 15 zero_byte; i_no = 9; f_type = 1 }

sync_dir_entry-over_example :
    (d : Disk) × (sync_dir_entry entry_b dir vol ≡ ok (with_disk vol d, grow dir, true))
    × ((k : ℕ) → k < 24 → d (700 * 512 + 1 * 24 + k) ≡ get_or (entry_bytes entry_b) k 0)
    × ((a : ℕ) → (a < 700 * 512 + 1 * 24) ⊎ (700 * 512 + 1 * 24 + 24 ≤ a) → d a ≡ disk a)
sync_dir_entry-over_example = sync_dir_entry-over entry_b dir vol 0 700 1 second_free refl refl
