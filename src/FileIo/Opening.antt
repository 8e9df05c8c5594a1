-- ===== src/FileIo/Opening.antt =====
-- fs/file.c: file_open and file_close over the open inodes and the tables of files.
-- An open inode is known by its number, and `address` gives the address of each.
use mcy_os.Prelude.{
  ℕ, ◌/◌, ◌%◌, Bool, true, false, ◌||◌, List, [], ◌∷◌, ◌==◌, if◌then◌else◌, minus_one, get_or, set,
  Result, ok, ◌>>=◌,
}
use mcy_os.LinkedList.{Ptr, null}
use mcy_os.Inode.{Disk, Inode, Partition, inode_open, inode_close}
use mcy_os.Descriptors.{File, no_file, get_free_slot_in_global, pcb_fd_install}

pub record Files : Type 0 where
  pub part : Partition
  pub disk : Disk
  pub open_inodes : List Inode
  pub file_table : List File
  pub fd_table : List ℕ

-- The field `write_deny` of the open inode with a number.
abbrev pub write_deny_of : ℕ → List Inode → Bool
write_deny_of inode_no [] = false
write_deny_of inode_no (i ∷ rest) =
    let later = write_deny_of inode_no rest in if i.i_no == inode_no then i.write_deny else later

abbrev pub set_write_deny : ℕ → Bool → List Inode → List Inode
set_write_deny inode_no b [] = []
set_write_deny inode_no b (i ∷ rest) =
    let later = set_write_deny inode_no b rest in
    if i.i_no == inode_no then record i { write_deny = b } ∷ rest else i ∷ later

-- `flag & O_WRONLY || flag & O_RDWR`
abbrev pub for_writing : ℕ → Bool
for_writing flag = flag % 2 == 1 || flag / 2 % 2 == 1

unfoldable pub install : ℕ → Files → Result (Files × ℕ)
install fd_idx s =
    let (fd_table, fd) = pcb_fd_install fd_idx s.fd_table in
    ok (record s { fd_table = fd_table }, fd)

-- The file has been put into its slot; a writer must be the only one.
unfoldable pub claim : ℕ → ℕ → ℕ → Files → Result (Files × ℕ)
claim inode_no flag fd_idx s =
    let freed = record (get_or s.file_table fd_idx no_file) { fd_inode = null } in
    let claimed = record s { open_inodes = set_write_deny inode_no true s.open_inodes } in
    let refused = ok (record s { file_table = set s.file_table fd_idx freed }, minus_one) in
    if for_writing flag
    then (if write_deny_of inode_no s.open_inodes then refused else install fd_idx claimed)
    else install fd_idx s

unfoldable pub file_open : (ℕ → Ptr) → ℕ → ℕ → Files → Result (Files × ℕ)
file_open address inode_no flag s =
    let fd_idx = get_free_slot_in_global s.file_table in
    let file : File = record { fd_pos = 0; fd_flag = flag; fd_inode = address inode_no } in
    let opened = inode_open s.part inode_no s.disk s.open_inodes >>= λ open_inodes.
    claim inode_no flag fd_idx
      (record s { open_inodes = open_inodes; file_table = set s.file_table fd_idx file }) in
    if fd_idx == minus_one then ok (s, minus_one) else opened

-- `file_close` of the file in a slot, whose inode has the number. The null pointer is no slot.
unfoldable pub file_close : ℕ → ℕ → Files → Files × ℕ
file_close inode_no fd_idx s =
    let freed = record (get_or s.file_table fd_idx no_file) { fd_inode = null } in
    (
      record s {
        open_inodes = inode_close inode_no (set_write_deny inode_no false s.open_inodes);
        file_table = set s.file_table fd_idx freed;
      },
      0,
    )
