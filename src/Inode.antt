-- ===== src/Inode.antt =====
-- fs/inode.c: inodes on the disk and the list of open inodes.
-- The disk is the bytes of its sectors, and `ide_read` and `ide_write` move whole sectors between it
-- and a buffer; the ports of the drive are not in the model. `struct inode` is 76 bytes: nineteen
-- words, of which the fourth is the byte `write_deny` and its padding. An open inode is known by
-- its number; the memory that it lies in is not modelled, and of its links only the order is.
pub mod Layout
pub mod Fields
pub mod Patch
pub mod Sync
pub mod Delete
pub mod Open
mod Tests
use mcy_os.Prelude.{
  ℕ, zero, suc, ◌+◌, ◌-◌, ◌*◌, ◌/◌, ◌%◌, ◌^◌, ◌≤◌, ◌<◌, ◌≡◌, refl, sym, ap, ap₂, subst, ◌∙◌, ◌≢◌,
  ◌↔◌, ◌⊎◌, inl, inr, Bool, true, false, not, ◌&&◌, ◌||◌, Option, none, some, List, [], ◌∷◌, ◌++◌,
  arith, dec_lt, ℕ_discrete, all_below, all_below_sound, ltb, leb, ◌==◌, if◌then◌else◌, ltb→lt,
  lt→ltb, le→not_ltb, ==_iff, ==_refl, ==_ne, Bool-cases, and_left, and_right, minus_one, add32,
  sub32, length, get_or, set, take, drop, replicate, length-append, length-set, get_or-set_self,
  get_or-set_ne, get_or-set, get_or_outside, length-replicate, get_or-replicate, Result, ok, panic,
  ◌>>=◌, ◌>>◌, assert,
}

abbrev pub Disk : Type 0
Disk = ℕ → ℕ

-- `n` bytes from an address on, and the disk with a buffer stored at an address.
abbrev pub read_bytes : Disk → ℕ → ℕ → List ℕ
read_bytes d start zero = []
read_bytes d start (suc n) = d start ∷ read_bytes d (start + 1) n

abbrev pub ide_read : Disk → ℕ → ℕ → List ℕ
ide_read d lba sec_cnt = read_bytes d (lba * 512) (sec_cnt * 512)

abbrev pub ide_write : Disk → ℕ → List ℕ → Disk
ide_write d lba buf a =
    if leb (lba * 512) a && ltb a (lba * 512 + length buf)
    then get_or buf (a - lba * 512) 0
    else d a

-- `memcpy(buf + at, bytes, ...)`
abbrev pub copy_at : List ℕ → ℕ → List ℕ → List ℕ
copy_at buf at [] = buf
copy_at buf at (byte ∷ bytes) = copy_at (set buf at byte) (at + 1) bytes

-- `struct inode_position`
pub record InodePosition : Type 0 where
  pub two_sec : Bool
  pub sec_lba : ℕ
  pub off_size : ℕ

-- `struct inode`
pub record Inode : Type 0 where
  pub i_no : ℕ
  pub i_size : ℕ
  pub i_open_cnts : ℕ
  pub write_deny : Bool
  pub i_sectors : List ℕ
  pub prev : ℕ
  pub next : ℕ

-- What the functions read of `struct partition`.
pub record Partition : Type 0 where
  pub inode_table_lba : ℕ
  pub start_lba : ℕ
  pub sec_cnt : ℕ

abbrev pub inode_size : ℕ
inode_size = 76

-- The table lies low enough on the disk that `sec_lba` does not wrap.
unfoldable pub inode_locate : Partition → ℕ → Result InodePosition
inode_locate part inode_no =
    let off_size = inode_no * inode_size in
    let left_in_sec = 512 - off_size % 512 in
    assert (ltb inode_no 4096)
    >> ok (record {
      two_sec = ltb left_in_sec inode_size;
      sec_lba = part.inode_table_lba + off_size / 512;
      off_size = off_size % 512;
    })

-- The bytes of words, the lowest byte first.
abbrev pub word_bytes : List ℕ → List ℕ
word_bytes [] = []
word_bytes (w ∷ ws) =
    w % 256 ∷ w / 2 ^ 8 % 256 ∷ w / 2 ^ 16 % 256 ∷ w / 2 ^ 24 % 256 ∷ word_bytes ws

abbrev pub inode_words : Inode → List ℕ
inode_words i =
    i.i_no
    ∷ i.i_size
    ∷ i.i_open_cnts
    ∷ (if i.write_deny then 1 else 0)
    ∷ (i.i_sectors ++ i.prev ∷ i.next ∷ [])

abbrev pub word_at : List ℕ → ℕ → ℕ
word_at buf a =
    get_or buf a 0
    + get_or buf (a + 1) 0 * 2 ^ 8
    + get_or buf (a + 2) 0 * 2 ^ 16
    + get_or buf (a + 3) 0 * 2 ^ 24

abbrev pub words_at : List ℕ → ℕ → ℕ → List ℕ
words_at buf a zero = []
words_at buf a (suc n) = word_at buf a ∷ words_at buf (a + 4) n

-- `memcpy(inode_found, inode_buf + off_size, sizeof(struct inode))`
abbrev pub inode_at : List ℕ → ℕ → Inode
inode_at buf a = record {
  i_no = word_at buf a;
  i_size = word_at buf (a + 4);
  i_open_cnts = word_at buf (a + 8);
  write_deny = not (get_or buf (a + 12) 0 == 0);
  i_sectors = words_at buf (a + 16) 13;
  prev = word_at buf (a + 68);
  next = word_at buf (a + 72);
}

-- `pure_inode`, without what is only of use in memory
abbrev pub pure : Inode → Inode
pure i = record i { i_open_cnts = 0; write_deny = false; prev = 0; next = 0 }

abbrev pub sectors_of : InodePosition → ℕ
sectors_of pos = if pos.two_sec then 2 else 1

-- `inode_no` is a `uint8_t` here.
unfoldable pub inode_sync : Partition → Inode → Disk → Result Disk
inode_sync part inode d = do
  pos ← inode_locate part (inode.i_no % 2 ^ 8)
  assert (leb pos.sec_lba (part.start_lba + part.sec_cnt))
  let buf = ide_read d pos.sec_lba (sectors_of pos)
  let filled = copy_at buf pos.off_size (word_bytes (inode_words (pure inode)))
  ok (ide_write d pos.sec_lba filled)

-- The part of `inode_open` that reads the inode from the disk.
unfoldable pub inode_load : Partition → ℕ → Disk → Result Inode
inode_load part inode_no d = inode_locate part inode_no >>= λ pos.
    ok (inode_at (ide_read d pos.sec_lba (sectors_of pos)) pos.off_size)

unfoldable pub inode_init : ℕ → Inode → Inode
inode_init inode_no i = record i {
  i_no = inode_no;
  i_size = 0;
  i_open_cnts = 0;
  write_deny = false;
  i_sectors = replicate 13 0;
}

-- The search of the open inodes: the list with the count of the one found raised.
unfoldable pub reopen : ℕ → List Inode → Option (List Inode)
reopen inode_no [] = none
reopen inode_no (i ∷ rest) =
    let found = record i { i_open_cnts = add32 i.i_open_cnts 1 } ∷ rest in
    let later : Option (List Inode) = elim (reopen inode_no rest) [
      | none ↦ none
      | some r ↦ some (i ∷ r)
    ] in
    if i.i_no == inode_no then some found else later

-- `inode_open`: the list of open inodes after it.
unfoldable pub inode_open : Partition → ℕ → Disk → List Inode → Result (List Inode)
inode_open part inode_no d open_inodes = elim (reopen inode_no open_inodes) [
  | some r ↦ ok r
  | none ↦ inode_load part inode_no d >>= λ i. ok (record i { i_open_cnts = 1 } ∷ open_inodes)
]

-- `inode_close` of the open inode with the number.
unfoldable pub inode_close : ℕ → List Inode → List Inode
inode_close inode_no [] = []
inode_close inode_no (i ∷ rest) =
    let fewer = record i { i_open_cnts = sub32 i.i_open_cnts 1 } in
    let later = inode_close inode_no rest in
    if i.i_no == inode_no
    then (if fewer.i_open_cnts == 0 then rest else fewer ∷ rest)
    else i ∷ later
