-- ===== src/FileIo/Tests.antt =====
-- A file of 100 bytes in block 700, on a disk of zeros.
use mcy_os.Prelude.{
  ℕ, zero, suc, ◌+◌, ◌/◌, ◌^◌, ◌≤◌, ◌<◌, ◌≡◌, refl, sym, subst, ◌∙◌, true, List, [], ◌∷◌, arith,
  minus_one, get_or, replicate, get_or-replicate, ok, panic,
}
use mcy_os.Inode.{Disk, Inode}
use mcy_os.Descriptors.{File, no_file, get_free_slot_in_global, free_slot_from}
use mcy_os.Inode.Open.{count_of}
use mcy_os.FileIo.Opening.{Files, write_deny_of, file_open}
use mcy_os.FileIo.Writers.{file_open-second_writer}
use mcy_os.FileIo.{file_read}
use mcy_os.FileIo.Volume.{Volume}
use mcy_os.FileIo.Write.{file_write}
use mcy_os.FileIo.Blocks.{block_of}
use mcy_os.FileIo.Reading.{file_read_lem}
use mcy_os.FileIo.Append.{IsFile, Appended, file_write_appends}
use mcy_os.FileIo.RoundTrip.{file_read-file_write, file_write_limit}

abbrev zeros : Disk
zeros a = 0

abbrev vol : Volume
vol = record {
  part = record { inode_table_lba = 10; start_lba = 5; sec_cnt = 1000 };
  block_bitmap = record { btmp_bytes_len = 0; bits = [] };
  inode_bitmap = record { btmp_bytes_len = 0; bits = [] };
  block_bitmap_lba = 7;
  inode_bitmap_lba = 8;
  data_start_lba = 699;
  disk = zeros;
}

abbrev sectors : List ℕ
sectors = 700 ∷ 0 ∷ 0 ∷ 0 ∷ 0 ∷ 0 ∷ 0 ∷ 0 ∷ 0 ∷ 0 ∷ 0 ∷ 0 ∷ 0 ∷ []

abbrev file_of : ℕ → Inode
file_of size = record {
  i_no = 3;
  i_size = size;
  i_open_cnts = 1;
  write_deny = true;
  i_sectors = sectors;
  prev = 0;
  next = 0;
}

abbrev small_file : Inode
small_file = file_of 100

abbrev at : ℕ → File
at pos = record { fd_pos = pos; fd_flag = 2; fd_inode = 1 }

sector_below : (k : ℕ) → get_or sectors k 0 < 2 ^ 32
sector_below zero = omega arith
sector_below (suc k) = later 12 k
  where
    later : (n k : ℕ) → get_or (replicate n zero) k 0 < 2 ^ 32
    later n k = subst (λ x. x < 2 ^ 32) (sym (get_or-replicate n k 0)) (omega arith)

first_only : (k : ℕ) → k ≤ 100 / 512 → k ≡ 0
first_only k h = omega arith

small_file-IsFile : IsFile vol.part small_file zeros
small_file-IsFile = record {
  inode = record {
    number = omega arith;
    size = omega arith;
    addresses = sector_below;
    sectors = refl;
  };
  one_sector = omega arith;
  table_held = omega arith;
  first = λ e. absurd (omega (arith, e));
  in_data = λ k h.
      subst (λ k. 10 + 608 ≤ block_of small_file zeros k) (sym (first_only k h)) (omega arith);
  distinct = λ j k h h' e. first_only j h ∙ sym (first_only k h');
  table = λ h. absurd (omega (arith, h));
  table_apart = λ k h. absurd (omega (arith, h));
  table_in_data = λ h. absurd (omega (arith, h));
}

-- A read over the end gives what is left.
file_read_lem_example : file_read true (at 97) small_file 10 zeros ≡ ok (at 100, 0 ∷ 0 ∷ 0 ∷ [], 3)
file_read_lem_example =
    file_read_lem (at 97) small_file 10 zeros (omega arith) (λ h. absurd (omega (arith, h)))
      (omega arith) (omega arith)

abbrev bytes : List ℕ
bytes = 7 ∷ 8 ∷ 9 ∷ []

file_write_appends_example :
    (d : Disk) × (file' : File) × (file_write true (at 0) small_file bytes 2 vol
      ≡ ok (record vol { disk = d }, file_of 102, file', 2))
    × Appended vol small_file bytes 2 d
file_write_appends_example =
    file_write_appends vol small_file bytes 2 small_file-IsFile refl (omega arith) (omega arith)
      (at 0)

file_read-file_write_example :
    (v' : Volume) × (i' : Inode) × (file' : File) × (file_write true (at 0) small_file bytes 2 vol
      ≡ ok (v', i', file', 2))
    × (file_read true (record file' { fd_pos = 100 }) i' 2 v'.disk
        ≡ ok (record file' { fd_pos = 102 }, 7 ∷ 8 ∷ [], 2))
file_read-file_write_example =
    file_read-file_write vol small_file bytes 2 (at 0) small_file-IsFile refl (omega arith)
      (omega arith)

file_write_limit_example : file_write true (at 0) small_file bytes 71580 vol ≡ panic
file_write_limit_example =
    file_write_limit vol small_file bytes 71580 (at 0) (λ e. absurd (omega (arith, e)))
      (omega arith) (omega arith)

abbrev written_to : Files
written_to = record {
  part = vol.part;
  disk = zeros;
  open_inodes = small_file ∷ [];
  file_table = replicate 32 no_file;
  fd_table = 0 ∷ 1 ∷ 2 ∷ minus_one ∷ minus_one ∷ minus_one ∷ minus_one ∷ minus_one ∷ [];
}

slot_three : get_free_slot_in_global written_to.file_table ≡ 3
unfolding get_free_slot_in_global free_slot_from
slot_three = refl

file_open-second_writer_example :
    (s' : Files) × (file_open (λ n. n + 5000) 3 2 written_to ≡ ok (s', minus_one))
    × (s'.fd_table ≡ written_to.fd_table)
    × (write_deny_of 3 s'.open_inodes ≡ true)
    × (count_of 3 s'.open_inodes ≡ 2)
file_open-second_writer_example =
    file_open-second_writer (λ n. n + 5000) 3 2 written_to refl refl
      (λ e. absurd (omega (arith, e, slot_three)))
