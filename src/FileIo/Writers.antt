-- ===== src/FileIo/Writers.antt =====
-- A file is open for one writer.
use mcy_os.Prelude.{
  ℕ, ◌≡◌, refl, ◌≢◌, inl, inr, true, some, List, [], ◌∷◌, arith, ◌==◌, ==_ne, Bool-cases, minus_one,
  add32, get_or, set, ok,
}
use mcy_os.LinkedList.{Ptr, null}
use mcy_os.Inode.{Disk, Partition, Inode, reopen, inode_open}
use mcy_os.Inode.Open.{count_of}
use mcy_os.Descriptors.{File, no_file, get_free_slot_in_global}
use mcy_os.FileIo.Opening.{Files, write_deny_of, for_writing, claim, file_open}

-- An open inode is found again with its count raised and its mark kept.
reopen_writer :
    (n : ℕ) (opens : List Inode)
    → write_deny_of n opens ≡ true
    → (r : List Inode) × (reopen n opens ≡ some r)
      × (write_deny_of n r ≡ true)
      × (count_of n r ≡ add32 (count_of n opens) 1)
unfolding reopen
reopen_writer n [] = λ marked. absurd (ground arith)
reopen_writer n (i ∷ rest) = elim (Bool-cases (i.i_no == n)) [
  | inl e ↦
      rw e (λ marked.
        (record i { i_open_cnts = add32 i.i_open_cnts 1 } ∷ rest, refl, rw e marked, rw e))
  | inr e ↦ rw e (λ marked.
      let (r, found, kept, counted) = reopen_writer n rest marked in
      (i ∷ r, rw found, rw e kept, rw e counted))
]

inode_open-found :
    (part : Partition) (n : ℕ) (d : Disk) (opens r : List Inode)
    → reopen n opens ≡ some r
    → inode_open part n d opens ≡ ok r
unfolding inode_open
inode_open-found part n d opens r found = rw (found, inode_open)

claim-refused :
    (n flag fd_idx : ℕ) (s : Files)
    → for_writing flag ≡ true
    → write_deny_of n s.open_inodes ≡ true
    → claim n flag fd_idx s
      ≡ ok (
        record s {
          file_table =
              set s.file_table fd_idx
                (record (get_or s.file_table fd_idx no_file) { fd_inode = null });
        },
        minus_one,
      )
unfolding claim
claim-refused n flag fd_idx s writes marked = rw (writes, marked)

-- While the open inode is marked by a writer and there is a free slot, `file_open` of it for
-- writing fails: it returns -1 and leaves the descriptors of the task and the mark as they are.
-- Yet the count of the inode is one more than before.
pub file_open-second_writer :
    (address : ℕ → Ptr) (n flag : ℕ) (s : Files)
    → write_deny_of n s.open_inodes ≡ true
    → for_writing flag ≡ true
    → get_free_slot_in_global s.file_table ≢ minus_one
    → (s' : Files) × (file_open address n flag s ≡ ok (s', minus_one))
      × (s'.fd_table ≡ s.fd_table)
      × (write_deny_of n s'.open_inodes ≡ true)
      × (count_of n s'.open_inodes ≡ add32 (count_of n s.open_inodes) 1)
unfolding file_open
file_open-second_writer address n flag s marked writes free =
    let (r, found, kept, counted) = reopen_writer n s.open_inodes marked in
    let slot = get_free_slot_in_global s.file_table in
    let file : File = record { fd_pos = 0; fd_flag = flag; fd_inode = address n } in
    let opened = set s.file_table slot file in
    let freed = record (get_or opened slot no_file) { fd_inode = null } in
    (
      record s { open_inodes = r; file_table = set opened slot freed },
      rw (==_ne slot minus_one free, inode_open-found s.part n s.disk s.open_inodes r found)
          (claim-refused n flag slot (record s { open_inodes = r; file_table = opened }) writes
            kept),
      refl,
      kept,
      counted,
    )
