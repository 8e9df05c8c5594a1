-- ===== src/Inode/Patch.antt =====
-- Where an inode lies, and a buffer of sectors that is read, patched and written back.
use mcy_os.Prelude.{
  ℕ, ◌+◌, ◌-◌, ◌*◌, ◌/◌, ◌%◌, ◌≤◌, ◌<◌, ◌≡◌, ap, ◌∙◌, ◌⊎◌, List, arith, dec_lt, ltb, lt→ltb, length,
  get_or, ok,
}
use mcy_os.Inode.{
  Disk, ide_read, ide_write, copy_at, InodePosition, Partition, inode_size, inode_locate,
  sectors_of,
}
use mcy_os.Inode.Layout.{
  length-read_bytes, get_or-read_bytes, length-copy_at, get_or-copy_at_outside,
  get_or-copy_at_inside,
}

-- The table of 4096 inodes lies in the partition.
abbrev pub HoldsTable : Partition → Type 0
HoldsTable part = part.inode_table_lba + 608 ≤ part.start_lba + part.sec_cnt

-- The address of an inode on the disk.
abbrev pub address : Partition → ℕ → ℕ
address part n = part.inode_table_lba * 512 + n * inode_size

unfoldable pub located : Partition → ℕ → InodePosition
located part n = record {
  two_sec = ltb (512 - n * inode_size % 512) inode_size;
  sec_lba = part.inode_table_lba + n * inode_size / 512;
  off_size = n * inode_size % 512;
}

pub inode_locate-ok :
    (part : Partition) (n : ℕ) → n < 4096 → inode_locate part n ≡ ok (located part n)
unfolding inode_locate located
inode_locate-ok part n h = rw (lt→ltb n 4096 h)

-- The sectors that are read hold the whole inode.
pub located-fits :
    (part : Partition) (n : ℕ)
    → (located part n).off_size + inode_size ≤ sectors_of (located part n) * 512
unfolding located
located-fits part n = ground arith

pub located-address :
    (part : Partition) (n : ℕ)
    → (located part n).sec_lba * 512 + (located part n).off_size ≡ address part n
unfolding located
located-address part n = omega arith

-- A patch of the sectors that a position names.
module _ (d : Disk) (pos : InodePosition) (bytes : List ℕ) where
  unfoldable pub patched : Disk
  patched =
      ide_write d pos.sec_lba (copy_at (ide_read d pos.sec_lba (sectors_of pos)) pos.off_size bytes)

  module _ (fits : pos.off_size + length bytes ≤ sectors_of pos * 512) where
    read : List ℕ
    read = ide_read d pos.sec_lba (sectors_of pos)

    filled : List ℕ
    filled = copy_at read pos.off_size bytes

    length-read : length read ≡ sectors_of pos * 512
    unfolding read
    length-read = length-read_bytes d (pos.sec_lba * 512) (sectors_of pos * 512)

    length-filled : length filled ≡ sectors_of pos * 512
    unfolding filled
    length-filled = length-copy_at read pos.off_size bytes ∙ length-read

    pub patched_inside :
        (k : ℕ)
        → k < length bytes
        → patched (pos.sec_lba * 512 + pos.off_size + k) ≡ get_or bytes k 0
    unfolding patched filled read
    patched_inside k below =
        let at : pos.sec_lba * 512 + pos.off_size + k - pos.sec_lba * 512 ≡ pos.off_size + k =
          omega arith in
        ground (
          arith,
          length-filled,
          at,
          get_or-copy_at_inside read pos.off_size bytes k below (omega (arith, length-read)),
        )

    pub patched_outside :
        (a : ℕ)
        → (a < pos.sec_lba * 512 + pos.off_size)
          ⊎ (pos.sec_lba * 512 + pos.off_size + length bytes ≤ a)
        → patched a ≡ d a
    unfolding patched filled read
    patched_outside a apart =
        let start = pos.sec_lba * 512 in
        elim (dec_lt a start) [
          | yes before ↦ ground (arith, before)
          | no after ↦ elim (dec_lt a (start + sectors_of pos * 512)) [
            | no behind ↦ ground (arith, behind, length-filled)
            | yes within ↦
                let from : get_or filled (a - start) 0 ≡ d a =
                  get_or-copy_at_outside read pos.off_size bytes (a - start)
                    (ground (arith, apart, after))
                  ∙ get_or-read_bytes d start (sectors_of pos * 512) (a - start)
                      (omega (arith, within))
                  ∙ ap d (omega (arith, after)) in
                ground (arith, after, within, length-filled, from)
          ]
        ]
