-- ===== src/Inode/Sync.antt =====
-- An inode written by `inode_sync` and read again.
use mcy_os.Prelude.{
  ℕ, ◌+◌, ◌*◌, ◌/◌, ◌%◌, ◌≤◌, ◌<◌, ◌≡◌, sym, ap, ◌∙◌, ◌≢◌, ◌⊎◌, inr, true, List, [], ◌∷◌, arith,
  leb, length, get_or, length-append, Result, ok, ◌>>=◌, ◌>>◌, assert,
}
use mcy_os.Inode.{
  Disk, ide_read, word_bytes, Inode, InodePosition, Partition, inode_size, inode_words, inode_at,
  pure, sectors_of, inode_sync, inode_load,
}
use mcy_os.Inode.Layout.{get_or-read_bytes, length-word_bytes}
use mcy_os.Inode.Fields.{IsInode, inode_at_same, inode_at-pure}
use mcy_os.Inode.Patch.{
  HoldsTable, address, located, inode_locate-ok, located-fits, located-address, patched,
  patched_inside, patched_outside,
}

inode_load-ok :
    (part : Partition) (n : ℕ) (d : Disk)
    → n < 4096
    → inode_load part n d
      ≡ ok (
          inode_at
            (ide_read d (located part n).sec_lba (sectors_of (located part n)))
            (located part n).off_size)
unfolding inode_load
inode_load-ok part n d h =
    ap (λ m. m >>= λ pos. ok (inode_at (ide_read d pos.sec_lba (sectors_of pos)) pos.off_size))
      (inode_locate-ok part n h)

-- A byte of the inode in the sectors that are read.
loaded_byte :
    (part : Partition) (n : ℕ) (d : Disk) (i : ℕ)
    → i < 76
    → get_or
        (ide_read d (located part n).sec_lba (sectors_of (located part n)))
        ((located part n).off_size + i)
        0
      ≡ d (address part n + i)
loaded_byte part n d i below =
    get_or-read_bytes d ((located part n).sec_lba * 512) (sectors_of (located part n) * 512)
      ((located part n).off_size + i) (omega (arith, located-fits part n))
    ∙ ap d (omega (arith, located-address part n))

-- Two disks with the same bytes at an inode's place load the same inode.
load_same :
    (part : Partition) (n : ℕ) (d d' : Disk)
    → n < 4096
    → ((i : ℕ) → i < 76 → d (address part n + i) ≡ d' (address part n + i))
    → inode_load part n d ≡ inode_load part n d'
load_same part n d d' h same =
    inode_load-ok part n d h
    ∙ ap ok (
        inode_at_same (ide_read d (located part n).sec_lba (sectors_of (located part n)))
          (ide_read d' (located part n).sec_lba (sectors_of (located part n)))
          (located part n).off_size (located part n).off_size
          (λ i below.
            loaded_byte part n d i below ∙ same i below ∙ sym (loaded_byte part n d' i below)))
    ∙ sym (inode_load-ok part n d' h)

abbrev stored : Inode → List ℕ
stored i = word_bytes (inode_words (pure i))

length-stored : (i : Inode) → IsInode i → length (stored i) ≡ 76
length-stored i v = omega (
  arith,
  length-word_bytes (inode_words (pure i)),
  length-append i.i_sectors (0 ∷ 0 ∷ []),
  v.sectors,
)

abbrev after_locate : Partition → Inode → Disk → InodePosition → Result Disk
after_locate part i d pos =
    assert (leb pos.sec_lba (part.start_lba + part.sec_cnt)) >> ok (patched d pos (stored i))

inode_sync-ok :
    (part : Partition) (i : Inode) (d : Disk)
    → HoldsTable part
    → IsInode i
    → inode_sync part i d ≡ ok (patched d (located part (i.i_no % 256)) (stored i))
unfolding inode_sync located patched
inode_sync-ok part i d holds v =
    let inside : leb (part.inode_table_lba + i.i_no % 256 * inode_size / 512)
          (part.start_lba + part.sec_cnt)
        ≡ true =
      ground (arith, holds) in
    ap (λ m. m >>= after_locate part i d) (inode_locate-ok part (i.i_no % 256) (omega arith))
    ∙ rw inside

-- 76 bytes at the place of an inode are that inode, and no other.
module _ (part : Partition) (n : ℕ) (d : Disk) (bytes : List ℕ) (l : length bytes ≡ 76) where
  abbrev pub with_inode : Disk
  with_inode = patched d (located part n) bytes

  apart :
      (m k : ℕ)
      → m ≢ n
      → k < 76
      → (address part m + k < (located part n).sec_lba * 512 + (located part n).off_size)
        ⊎ ((located part n).sec_lba * 512 + (located part n).off_size + length bytes
            ≤ address part m + k)
  apart m k other below = ground (arith, located-address part n, l, other, below)

  pub with_inode_lem :
      n < 4096
      → (inode_load part n with_inode ≡ ok (inode_at bytes 0))
        × ((m : ℕ) → m < 4096 → m ≢ n → inode_load part m with_inode ≡ inode_load part m d)
  with_inode_lem small =
      let pos = located part n in
      let fits : pos.off_size + length bytes ≤ sectors_of pos * 512 =
        omega (arith, located-fits part n, l) in
      (
        inode_load-ok part n with_inode small
            ∙ ap ok (
                inode_at_same (ide_read with_inode pos.sec_lba (sectors_of pos)) bytes pos.off_size
                  0
                  (λ k below.
                    loaded_byte part n with_inode k below
                    ∙ ap with_inode (omega (arith, located-address part n))
                    ∙ patched_inside d pos bytes fits k (omega (arith, l))
                    ∙ ap (λ j. get_or bytes j 0) (omega arith))),
        λ m m_small other. load_same part m with_inode d m_small (λ k below.
            patched_outside d pos bytes fits (address part m + k) (apart m k other below)),
      )

-- What lies behind the table is left as it was.
pub inode_sync-behind :
    (part : Partition) (i : Inode) (d : Disk)
    → HoldsTable part
    → IsInode i
    → (d' : Disk) × (inode_sync part i d ≡ ok d')
      × ((a : ℕ) → (part.inode_table_lba + 608) * 512 ≤ a → d' a ≡ d a)
inode_sync-behind part i d holds v =
    let n = i.i_no % 256 in
    let pos = located part n in
    let fits : pos.off_size + length (stored i) ≤ sectors_of pos * 512 =
      omega (arith, located-fits part n, length-stored i v) in
    (
      patched d pos (stored i),
      inode_sync-ok part i d holds v,
      λ a behind.
          patched_outside d pos (stored i) fits a
            (inr (omega (arith, behind, located-address part n, length-stored i v))),
    )

-- In a partition that holds its table, `inode_sync` of any inode does not stop the machine. The
-- inode that is then loaded under its number modulo 256 is the one that was stored, without its
-- fields for the memory, and every other number loads what it loaded before. So an inode with a
-- number of 256 or more is stored over another one.
pub inode_sync_lem :
    (part : Partition) (i : Inode) (d : Disk)
    → HoldsTable part
    → IsInode i
    → (d' : Disk) × (inode_sync part i d ≡ ok d')
      × (inode_load part (i.i_no % 256) d' ≡ ok (pure i))
      × ((n : ℕ) → n < 4096 → n ≢ i.i_no % 256 → inode_load part n d' ≡ inode_load part n d)
inode_sync_lem part i d holds v =
    let n = i.i_no % 256 in
    let (loaded, others) = with_inode_lem part n d (stored i) (length-stored i v) (omega arith) in
    (
      with_inode part n d (stored i) (length-stored i v),
      inode_sync-ok part i d holds v,
      loaded ∙ ap ok (inode_at-pure i v),
      others,
    )
