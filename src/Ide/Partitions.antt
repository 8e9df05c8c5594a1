-- ===== src/Ide/Partitions.antt =====
-- device/ide.c: partition_scan over the bytes of a disk.
-- A partition stands in the list of partitions as its sectors and the number behind the disk's name.
-- The buffer for the boot sector is taken to be there.
use mcy_os.Prelude.{
  ℕ, zero, suc, ◌+◌, ◌*◌, ◌%◌, ◌^◌, not, List, [], ◌∷◌, ◌++◌, ltb, leb, ◌==◌, if◌then◌else◌, add32,
  get_or, set, Result, ok, panic, ◌>>=◌, ◌>>◌, assert,
}
use mcy_os.Inode.{Disk, word_at}
use mcy_os.Inode
use mcy_os.Ide.{max_lba}

-- What is read of `struct partition_table_entry`.
pub record TableEntry : Type 0 where
  pub fs_type : ℕ
  pub entry_lba : ℕ
  pub entry_cnt : ℕ

-- `bs->partition_table[part_idx]`
unfoldable pub table_entry : Disk → ℕ → ℕ → TableEntry
table_entry d ext_lba part_idx =
    let bs = Inode.ide_read d ext_lba 1 in
    let at = 446 + part_idx * 16 in
    record {
      fs_type = get_or bs (at + 4) 0;
      entry_lba = word_at bs (at + 8);
      entry_cnt = word_at bs (at + 12);
    }

-- What `partition_scan` sets of `struct partition`, with the number in its name.
pub record DiskPart : Type 0 where
  pub part_lba : ℕ
  pub part_cnt : ℕ
  pub number : ℕ

abbrev pub no_part : DiskPart
no_part = record { part_lba = 0; part_cnt = 0; number = 0 }

-- The globals and the partitions of the disk.
pub record PartScan : Type 0 where
  pub ext_lba_base : ℕ
  pub p_no : ℕ
  pub l_no : ℕ
  pub prim_parts : List DiskPart
  pub logic_parts : List DiskPart
  pub partition_list : List DiskPart

unfoldable pub add_primary : TableEntry → ℕ → PartScan → Result PartScan
add_primary p ext_lba s =
    let part : DiskPart = record {
      part_lba = add32 ext_lba p.entry_lba;
      part_cnt = p.entry_cnt;
      number = s.p_no + 1;
    } in
    let s' = record s {
      prim_parts = set s.prim_parts s.p_no part;
      partition_list = s.partition_list ++ part ∷ [];
      p_no = (s.p_no + 1) % 2 ^ 8;
    } in
    assert (ltb s'.p_no 4) >> ok s'

unfoldable pub add_logical : TableEntry → ℕ → PartScan → PartScan
add_logical p ext_lba s =
    let part : DiskPart = record {
      part_lba = add32 ext_lba p.entry_lba;
      part_cnt = p.entry_cnt;
      number = s.l_no + 5;
    } in
    record s {
      logic_parts = set s.logic_parts s.l_no part;
      partition_list = s.partition_list ++ part ∷ [];
      l_no = (s.l_no + 1) % 2 ^ 8;
    }

-- The base of an extended partition is kept from the first one on.
abbrev pub link_target : TableEntry → PartScan → PartScan × ℕ
link_target p s =
    if not (s.ext_lba_base == 0)
    then (s, add32 p.entry_lba s.ext_lba_base)
    else (record s { ext_lba_base = p.entry_lba }, p.entry_lba)

-- The loop over the entries of one table, with those that are left; `scan` is the recursive call.
-- It ends early where eight logical partitions have been found.
unfoldable pub scan_entries :
    (ℕ → PartScan → Result PartScan) → Disk → ℕ → ℕ → ℕ → PartScan → Result PartScan
scan_entries scan d ext_lba zero part_idx s = ok s
scan_entries scan d ext_lba (suc left) part_idx s =
    let p = table_entry d ext_lba part_idx in
    let next : PartScan → Result PartScan =
      λ s'. scan_entries scan d ext_lba left (part_idx + 1) s' in
    let logical = add_logical p ext_lba s in
    let linked = scan ((link_target p s).1) ((link_target p s).0) >>= next in
    let primary = add_primary p ext_lba s >>= next in
    let last_or_next = if leb 8 logical.l_no then ok logical else next logical in
    if p.fs_type == 0x5
    then linked
    else if not (p.fs_type == 0)
    then (if ext_lba == 0 then primary else last_or_next)
    else next s

-- `fuel` bounds how deep the tables are nested; the kernel stack of a task bounds it on the machine.
unfoldable pub partition_scan : ℕ → Disk → ℕ → PartScan → Result PartScan
partition_scan zero d ext_lba s = panic
partition_scan (suc fuel) d ext_lba s =
    let scan = partition_scan fuel d in
    assert (leb ext_lba max_lba) >> scan_entries scan d ext_lba 4 0 s
