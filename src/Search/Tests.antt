-- ===== src/Search/Tests.antt =====
-- The root directory has an entry `.`, an unused one, and the regular file `a` with the inode 7.
use mcy_os.Prelude.{
  ℕ, ◌≡◌, refl, Bool, true, false, ◌&&◌, Option, none, some, List, [], ◌∷◌, ◌==◌, if◌then◌else◌,
}
use mcy_os.Inode.{Disk, Inode, Partition}
use mcy_os.FileIo.{no_blocks, direct_blocks}
use mcy_os.Directory.{DirEntry, dir_blocks}
use mcy_os.Directory.Entries.{Slot, slots_from, sector_slots}
use mcy_os.Paths.Names.{names}
use mcy_os.Search.{PathSearchRecord}
use mcy_os.Search.Walk.{walk, walk_entry}

abbrev disk : Disk
disk a =
    if a == 5124
    then 48
    else if a == 5136
    then 188
    else if a == 5137
    then 2
    else if a == 358400
    then 46
    else if a == 358420
    then 2
    else if a == 358448
    then 97
    else if a == 358464
    then 7
    else if a == 358468
    then 1
    else 0

abbrev part : Partition
part = record { inode_table_lba = 10; start_lba = 5; sec_cnt = 1000 }

abbrev root : Inode
root = record {
  i_no = 0;
  i_size = 48;
  i_open_cnts = 0;
  write_deny = false;
  i_sectors = 700 ∷ 0 ∷ 0 ∷ 0 ∷ 0 ∷ 0 ∷ 0 ∷ 0 ∷ 0 ∷ 0 ∷ 0 ∷ 0 ∷ 0 ∷ [];
  prev = 0;
  next = 0;
}

abbrev is_dir : ℕ → Bool
is_dir n = n == 0

abbrev inodes : ℕ → Inode
inodes n = root

abbrev all_listed : List Slot → Bool
all_listed [] = true
all_listed (s ∷ ss) = (if s.entry.f_type == 2 then is_dir s.entry.i_no else true) && all_listed ss

abbrev kind_of : Option DirEntry → ℕ
kind_of none = 0
kind_of (some e) = e.f_type

abbrev number_of : Option DirEntry → ℕ
number_of none = 0
number_of (some e) = e.i_no

abbrev unset : DirEntry
unset = record { filename = []; i_no = 4660; f_type = 0 }

abbrev empty_record : PathSearchRecord
empty_record = record {
  searched_path = [];
  parent_dir = record { is_root_dir = true; inode = root };
  file_type = 0;
}

-- The file `a` is found in the root.
walks_to_a :
    walk part disk is_dir inodes (names (47 ∷ 97 ∷ [])) 0 0 unset []
    ≡ record { answer = 7; path = 47 ∷ 97 ∷ []; parent = 0; kind = 1 }
unfolding walk walk_entry slots_from sector_slots dir_blocks direct_blocks no_blocks
walks_to_a = refl
