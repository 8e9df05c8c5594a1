-- ===== src/Inode/Delete.antt =====
-- fs/inode.c: inode_delete, which clears an inode in the table.
use mcy_os.Prelude.{
  ℕ, ◌+◌, ◌*◌, ◌/◌, ◌<◌, ◌≡◌, ap, ◌∙◌, ◌≢◌, true, List, arith, ltb, leb, lt→ltb, length, replicate,
  length-replicate, Result, ok, ◌>>=◌, ◌>>◌, assert,
}
use mcy_os.Inode.{
  Disk, ide_read, ide_write, copy_at, InodePosition, Partition, inode_size, inode_locate, inode_at,
  inode_load, sectors_of,
}
use mcy_os.Inode.Patch.{HoldsTable, located, inode_locate-ok, patched}
use mcy_os.Inode.Sync.{with_inode, with_inode_lem}

unfoldable pub inode_delete : Partition → ℕ → Disk → Result Disk
inode_delete part inode_no d = do
  assert (ltb inode_no 4096)
  pos ← inode_locate part inode_no
  assert (leb pos.sec_lba (part.start_lba + part.sec_cnt))
  let buf = ide_read d pos.sec_lba (sectors_of pos)
  ok (ide_write d pos.sec_lba (copy_at buf pos.off_size (replicate inode_size 0)))

abbrev zeros : List ℕ
zeros = replicate inode_size 0

abbrev after_locate : Partition → Disk → InodePosition → Result Disk
after_locate part d pos =
    assert (leb pos.sec_lba (part.start_lba + part.sec_cnt)) >> ok (patched d pos zeros)

-- `inode_delete` of an inode of a table that the partition holds does not stop the machine. The
-- inode that is then loaded is one of 76 zero bytes, and every other number loads what it loaded
-- before.
pub inode_delete_lem :
    (part : Partition) (n : ℕ) (d : Disk)
    → HoldsTable part
    → n < 4096
    → (d' : Disk) × (inode_delete part n d ≡ ok d')
      × (inode_load part n d' ≡ ok (inode_at (replicate inode_size 0) 0))
      × ((m : ℕ) → m < 4096 → m ≢ n → inode_load part m d' ≡ inode_load part m d)
unfolding inode_delete located patched
inode_delete_lem part n d holds small =
    let l : length zeros ≡ 76 = length-replicate {A = ℕ} inode_size 0 in
    let (loaded, others) = with_inode_lem part n d zeros l small in
    let inside : leb (part.inode_table_lba + n * inode_size / 512) (part.start_lba + part.sec_cnt)
        ≡ true =
      ground (arith, holds, small) in
    (
      with_inode part n d zeros l,
      rw (lt→ltb n 4096 small)
          (ap (λ m. m >>= after_locate part d) (inode_locate-ok part n small) ∙ rw inside),
      loaded,
      others,
    )
