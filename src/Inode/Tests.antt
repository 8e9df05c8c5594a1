-- ===== src/Inode/Tests.antt =====
-- A partition whose table starts at sector 10, on a disk of zeros.
use mcy_os.Prelude.{
  ℕ, ◌^◌, ◌<◌, ◌≡◌, refl, sym, subst, ◌≢◌, true, false, arith, replicate, get_or-replicate, ok,
}
use mcy_os.Inode.{Disk, Inode, Partition, inode_locate, inode_load, inode_sync, pure}
use mcy_os.Inode.Fields.{IsInode}
use mcy_os.Inode.Sync.{inode_sync_lem}

abbrev part : Partition
part = record { inode_table_lba = 10; start_lba = 5; sec_cnt = 1000 }

abbrev zeros : Disk
zeros a = 0

abbrev zero_word : ℕ
zero_word = 0

-- Its number needs nine bits.
abbrev file : Inode
file = record {
  i_no = 262;
  i_size = 600;
  i_open_cnts = 1;
  write_deny = true;
  i_sectors = replicate 13 zero_word;
  prev = 0;
  next = 0;
}

file-IsInode : IsInode file
file-IsInode = record {
  number = omega arith;
  size = omega arith;
  addresses = λ k. subst (λ x. x < 2 ^ 32) (sym (get_or-replicate 13 k zero_word)) (omega arith);
  sectors = refl;
}

-- Inode 6 lies across two sectors.
locate_six : inode_locate part 6 ≡ ok (record { two_sec = true; sec_lba = 10; off_size = 456 })
unfolding inode_locate
locate_six = refl

inode_sync_lem_example :
    (d' : Disk) × (inode_sync part file zeros ≡ ok d')
    × (inode_load part 6 d' ≡ ok (pure file))
    × ((n : ℕ) → n < 4096 → n ≢ 6 → inode_load part n d' ≡ inode_load part n zeros)
inode_sync_lem_example = inode_sync_lem part file zeros (omega arith) file-IsInode

abbrev root : Inode
root = record {
  i_no = 0;
  i_size = 0;
  i_open_cnts = 0;
  write_deny = false;
  i_sectors = replicate 13 zero_word;
  prev = 0;
  next = 0;
}

load_root : inode_load part 0 zeros ≡ ok root
unfolding inode_load inode_locate
load_root = refl
