-- ===== src/FileIo/Append.antt =====
-- A write that needs no new block, and the file after it.
use mcy_os.Prelude.{
  ◌>>◌, assert, ℕ, zero, suc, ◌+◌, ◌-◌, ◌*◌, ◌/◌, ◌%◌, ◌≤◌, ◌<◌, ◌≡◌, refl, sym, ap, ap₂, subst,
  ◌∙◌, ◌≢◌, inl, true, false, not, List, ◌∷◌, arith, dec_lt, ℕ_discrete, ltb, leb, ◌==◌,
  if◌then◌else◌, add32, sub32, length, get_or, set, get_or-set_self, Result, ok, ◌>>=◌,
}
use mcy_os.Inode.{Disk, ide_read, read_bytes, Inode, word_at}
use mcy_os.Inode.Fields.{IsInode}
use mcy_os.Inode.Patch.{HoldsTable}
use mcy_os.Inode.Sync.{inode_sync-behind}
use mcy_os.Inode.{inode_sync, inode_size}
use mcy_os.Inode.Patch.{located, inode_locate-ok}
use mcy_os.Inode.{Partition}
use mcy_os.Descriptors.{File}
use mcy_os.FileIo.{no_blocks, read_table}
use mcy_os.FileIo.Volume.{Volume}
use mcy_os.FileIo.Write.{
  store_inode, ChunkState, write_chunks, write_data, first_block, same_blocks, keep_block,
  load_table, blocks_to_write, write_file, file_write,
}
use mcy_os.FileIo.Blocks.{block_of, length-no_blocks, with_table}
use mcy_os.FileIo.Reading.{file_byte}
use mcy_os.FileIo.Writing.{place, Wrote, write_chunks_lem}

-- The blocks of a file on a disk: behind the table of inodes, each for one use.
pub record IsFile (part : Partition) (i : Inode) (d : Disk) : Type 0 where
  pub inode : IsInode i
  pub one_sector : i.i_no % 256 * inode_size % 512 + inode_size ≤ 512
  pub table_held : HoldsTable part
  pub first : get_or i.i_sectors 0 0 ≢ 0
  pub in_data : (k : ℕ) → k ≤ i.i_size / 512 → part.inode_table_lba + 608 ≤ block_of i d k
  pub distinct :
      (j k : ℕ) → j ≤ i.i_size / 512 → k ≤ i.i_size / 512 → block_of i d j ≡ block_of i d k → j ≡ k
  pub table : 12 ≤ i.i_size / 512 → get_or i.i_sectors 12 0 ≢ 0
  pub table_apart :
      (k : ℕ) → 12 ≤ i.i_size / 512 → k ≤ i.i_size / 512 → block_of i d k ≢ get_or i.i_sectors 12 0
  pub table_in_data : 12 ≤ i.i_size / 512 → part.inode_table_lba + 608 ≤ get_or i.i_sectors 12 0

-- An inode in one sector fits into the buffer of `file_write`.
store_inode-one :
    (part : Partition) (i : Inode) (d : Disk)
    → i.i_no % 256 * inode_size % 512 + inode_size ≤ 512
    → store_inode part i d ≡ inode_sync part i d
unfolding store_inode located
store_inode-one part i d one =
    let n = i.i_no % 256 in
    let fits : ltb (512 - n * inode_size % 512) inode_size ≡ false = ground (arith, one) in
    ap (λ m. m >>= λ pos. assert (not pos.two_sec) >> inode_sync part i d)
      (inode_locate-ok part n (omega arith))
    ∙ rw fits

-- The last block of the file is in the table that `blocks_to_write` fills.
same_blocks_lem :
    (i : Inode) (v : Volume) (q : ℕ)
    → q < 140
    → (12 ≤ q → get_or i.i_sectors 12 0 ≢ 0)
    → (all : List ℕ) × (blocks_to_write
          (q + 1)
          (q + 1)
          (record { vol = v; inode = i; all_blocks = no_blocks })
        ≡ ok (record { vol = v; inode = i; all_blocks = all }, true))
      × (get_or all q 0 ≡ block_of i v.disk q)
unfolding blocks_to_write same_blocks keep_block load_table
same_blocks_lem i v q small table =
    let t = get_or i.i_sectors 12 0 in
    elim (dec_lt q 12) [
      | yes direct ↦
          let idx : q + 1 - 1 ≡ q = omega arith in
          (
            set no_blocks q (get_or i.i_sectors q 0),
            ground (arith, direct, idx),
            get_or-set_self no_blocks q (get_or i.i_sectors q 0) 0
                  (omega (arith, length-no_blocks, small))
                ∙ ground (arith, direct),
          )
      | no indirect ↦
          let has_table : not (t == 0) ≡ true = ground (arith, table (omega (arith, indirect))) in
          (
            read_table v.disk t no_blocks,
            ground (arith, indirect, has_table),
            with_table i v.disk no_blocks 12 q length-no_blocks (λ j h h'. absurd (omega arith))
                (omega (arith, indirect)) small,
          )
    ]

read_bytes_same :
    (d d' : Disk) (start n : ℕ)
    → ((a : ℕ) → start ≤ a → a < start + n → d' a ≡ d a)
    → read_bytes d' start n ≡ read_bytes d start n
read_bytes_same d d' start zero same = refl
read_bytes_same d d' start (suc n) same =
    ap₂ ◌∷◌ (same start (omega arith) (omega arith))
      (read_bytes_same d d' (start + 1) n (λ a from below. same a (omega arith) (omega arith)))

-- Blocks are found where they were when the table is.
block_of_same :
    (i i' : Inode) (d d' : Disk) (k : ℕ)
    → i'.i_sectors ≡ i.i_sectors
    → (12 ≤ k → (a : ℕ) → a / 512 ≡ get_or i.i_sectors 12 0 → d' a ≡ d a)
    → block_of i' d' k ≡ block_of i d k
block_of_same i i' d d' k e same = elim (dec_lt k 12) [
  | yes direct ↦
      let s : get_or i'.i_sectors k 0 ≡ get_or i.i_sectors k 0 = ap (λ xs. get_or xs k 0) e in
      ground (arith, direct, s)
  | no indirect ↦
      let t = get_or i.i_sectors 12 0 in
      let s : get_or i'.i_sectors 12 0 ≡ t = ap (λ xs. get_or xs 12 0) e in
      let bytes : read_bytes d' (t * 512) 512 ≡ read_bytes d (t * 512) 512 =
        read_bytes_same d d' (t * 512) 512
          (λ a from below. same (omega (arith, indirect)) a (omega arith)) in
      let w : word_at (ide_read d' (get_or i'.i_sectors 12 0) 1) ((k - 12) * 4)
          ≡ word_at (ide_read d t 1) ((k - 12) * 4) =
        ap (λ b. word_at b ((k - 12) * 4)) (ap (λ lba. ide_read d' lba 1) s ∙ bytes) in
      ground (arith, indirect, w)
]

-- The inode and the file after the write: its bytes, and that its blocks are still in order.
abbrev pub grown : Inode → ℕ → Inode
grown i count = record i { i_size = i.i_size + count }

abbrev pub Appended : Volume → Inode → List ℕ → ℕ → Disk → Type 0
Appended v i buf count d =
    ((p : ℕ)
      → p < i.i_size + count
      → file_byte (grown i count) d p
        ≡ (if ltb p i.i_size then file_byte i v.disk p else get_or buf (p - i.i_size) 0))
    × IsFile v.part (grown i count) d

module _ (v : Volume) (i : Inode) (buf : List ℕ) (count : ℕ) (f : IsFile v.part i v.disk)
    (same : (i.i_size + count) / 512 ≡ i.i_size / 512) (small : i.i_size + count < 140 * 512)
    (enough : count ≤ length buf) where
  -- The bytes of the file on a disk on which the loop has written, after the inode is stored.
  module _ (all : List ℕ)
      (last : get_or all (i.i_size / 512) 0 ≡ block_of i v.disk (i.i_size / 512))
      (s s' : ChunkState) (begun : (s.disk ≡ v.disk) × (s.i_size ≡ i.i_size) × (s.src ≡ buf))
      (w : Wrote all (i.i_size / 512) (i.i_size / 512) s count s') (d : Disk)
      (behind : (a : ℕ) → (v.part.inode_table_lba + 608) * 512 ≤ a → d a ≡ s'.disk a) where
    q : ℕ
    q = i.i_size / 512

    untouched :
        (a : ℕ)
        → (v.part.inode_table_lba + 608) * 512 ≤ a
        → a / 512 ≢ block_of i v.disk q
        → d a ≡ v.disk a
    unfolding q
    untouched a from other =
        behind a from
        ∙ w.elsewhere a
            (λ k above below e. other (e ∙ ap (λ j. get_or all j 0) (omega arith) ∙ last))
        ∙ ap (λ d. d a) (begun.0)

    same_block : (k : ℕ) → k ≤ q → block_of (grown i count) d k ≡ block_of i v.disk k
    unfolding q
    same_block k below = block_of_same i (grown i count) v.disk d k refl (λ indirect a at.
        untouched a (omega (arith, f.table_in_data (omega (arith, indirect, below)), at))
          (λ e. f.table_apart q (omega (arith, indirect, below)) (omega arith) (sym e ∙ at)))

    appended_byte :
        (p : ℕ)
        → p < i.i_size + count
        → file_byte (grown i count) d p
          ≡ (if ltb p i.i_size then file_byte i v.disk p else get_or buf (p - i.i_size) 0)
    unfolding q
    appended_byte p below =
        let k = p / 512 in
        let top : k ≤ q = omega (arith, same, below) in
        let region : v.part.inode_table_lba + 608 ≤ block_of i v.disk k = f.in_data k top in
        let at : file_byte (grown i count) d p ≡ d (block_of i v.disk k * 512 + p % 512) =
          ap (λ b. d (b * 512 + p % 512)) (same_block k top) in
        elim (ℕ_discrete k q) [
          | yes in_last ↦
              let address : block_of i v.disk k * 512 + p % 512 ≡ place all p =
                ap (λ b. b * 512 + p % 512)
                  (ap (block_of i v.disk) in_last
                    ∙ sym last
                    ∙ ap (λ j. get_or all j 0) (sym in_last)) in
              let stored : d (block_of i v.disk k * 512 + p % 512) ≡ s'.disk (place all p) =
                behind (block_of i v.disk k * 512 + p % 512) (omega (arith, region))
                ∙ ap s'.disk address in
              elim (dec_lt p i.i_size) [
                | yes old ↦
                    let e : file_byte (grown i count) d p ≡ file_byte i v.disk p =
                      at
                      ∙ stored
                      ∙ w.old_bytes p (omega (arith, in_last)) (omega (arith, begun.1, old))
                      ∙ ap (λ d. d (place all p)) (begun.0)
                      ∙ ap v.disk (sym address) in
                    ground (arith, old, e)
                | no new ↦
                    let pos : p ≡ s.i_size + (p - i.i_size) = omega (arith, begun.1, new) in
                    let e : file_byte (grown i count) d p ≡ get_or buf (p - i.i_size) 0 =
                      at
                      ∙ stored
                      ∙ ap (λ p. s'.disk (place all p)) pos
                      ∙ w.new_bytes (p - i.i_size) (omega (arith, new, below))
                      ∙ ap (λ xs. get_or xs (p - i.i_size) 0) (begun.2) in
                    ground (arith, new, e)
              ]
          | no earlier ↦
              let old : p < i.i_size = ground (arith, earlier, top) in
              let e : file_byte (grown i count) d p ≡ file_byte i v.disk p =
                at
                ∙ untouched (block_of i v.disk k * 512 + p % 512) (omega (arith, region))
                    (λ e. earlier (f.distinct k q top (omega arith) (omega (arith, e)))) in
              ground (arith, old, e)
        ]

    appended-IsFile : IsFile v.part (grown i count) d
    unfolding q
    appended-IsFile =
        let below : (k : ℕ) → k ≤ (i.i_size + count) / 512 → k ≤ i.i_size / 512 =
          λ k h. omega (arith, same) in
        record {
          inode = record {
            number = f.inode.number;
            size = omega (arith, small);
            addresses = f.inode.addresses;
            sectors = f.inode.sectors;
          };
          one_sector = f.one_sector;
          table_held = f.table_held;
          first = f.first;
          in_data = λ k h.
              subst (λ b. v.part.inode_table_lba + 608 ≤ b) (sym (same_block k (below k h)))
                (f.in_data k (below k h));
          distinct = λ j k h h' e.
              f.distinct j k (below j h) (below k h')
                (sym (same_block j (below j h)) ∙ e ∙ same_block k (below k h'));
          table = λ h. f.table (omega (arith, same));
          table_apart = λ k h h' e.
              f.table_apart k (omega (arith, same)) (below k h')
                (sym (same_block k (below k h')) ∙ e);
          table_in_data = λ h. f.table_in_data (omega (arith, same));
        }

  write_data_lem :
      (file : File) (all : List ℕ)
      → get_or all (i.i_size / 512) 0 ≡ block_of i v.disk (i.i_size / 512)
      → (d : Disk) × (file' : File) × (write_data file buf count
            (record { vol = v; inode = i; all_blocks = all })
          ≡ ok (record v { disk = d }, (grown i count), file', count))
        × Appended v i buf count d
  unfolding write_data
  write_data_lem file all last =
      let q = i.i_size / 512 in
      let s : ChunkState = record {
        disk = v.disk;
        i_size = i.i_size;
        fd_pos = sub32 i.i_size 1;
        bytes_written = 0;
        src = buf;
        first_write_block = true;
      } in
      let s' = write_chunks count count all s in
      let w : Wrote all q q s (count - 0) s' =
        write_chunks_lem count all q q (λ j k a b c e h. omega arith) count s (omega arith)
          (omega (arith, enough)) (omega arith) (omega (arith, same)) (λ h. inl refl) in
      let w : Wrote all q q s count s' = subst (λ n. Wrote all q q s n s') (omega arith) w in
      let size : s'.i_size ≡ i.i_size + count = w.size in
      let written : s'.bytes_written ≡ count = w.written ∙ omega arith in
      let valid : IsInode (record i { i_size = i.i_size + count }) = record {
        number = f.inode.number;
        size = omega (arith, small);
        addresses = f.inode.addresses;
        sectors = f.inode.sectors;
      } in
      let stored : ℕ → ℕ → Disk → Result (Volume × Inode × File × ℕ) = λ n m d.
        ok
          (record v { disk = d }, record i { i_size = n }, record file { fd_pos = s'.fd_pos }, m) in
      let outcome : ℕ → ℕ → Result (Volume × Inode × File × ℕ) =
        λ n m. store_inode v.part (record i { i_size = n }) s'.disk >>= stored n m in
      let (d, synced, behind) =
        inode_sync-behind v.part (record i { i_size = i.i_size + count }) s'.disk f.table_held
          valid in
      (
        d,
        record file { fd_pos = s'.fd_pos },
        ap₂ outcome size written
            ∙ ap (λ m. m >>= stored (i.i_size + count) count)
                (store_inode-one v.part (record i { i_size = i.i_size + count }) s'.disk
                    f.one_sector
                  ∙ synced),
        (
          appended_byte all last s s' (refl, refl, refl) w d behind,
          appended-IsFile all last s s' (refl, refl, refl) w d behind,
        ),
      )

  -- A write of `count` bytes, which the buffer holds, that stay in the last block of a file whose
  -- blocks are in order, whose inode lies in one sector, and that stays below 140 blocks, with the
  -- buffers allocated, returns `count` and adds that to the size. The bytes of the file are those
  -- that it had, with the first `count` bytes of the buffer behind them, and its blocks are in order
  -- again.
  pub file_write_appends :
      (file : File)
      → (d : Disk) × (file' : File) × (file_write true file i buf count v
          ≡ ok (record v { disk = d }, (grown i count), file', count))
        × Appended v i buf count d
  unfolding file_write write_file first_block
  file_write_appends file =
      let q = i.i_size / 512 in
      let (all, collected, last) = same_blocks_lem i v q (omega (arith, small)) (λ h. f.table h) in
      let (d, file', wrote, appended) = write_data_lem file all last in
      let has_first : get_or i.i_sectors 0 0 == 0 ≡ false = ground (arith, f.first) in
      let sum : add32 i.i_size count ≡ i.i_size + count = omega (arith, small) in
      let guard : ltb (512 * 140) (add32 i.i_size count) ≡ false = ground (arith, small) in
      let will : add32 i.i_size count / 512 + 1 ≡ q + 1 = omega (arith, sum, same) in
      let bound : leb (q + 1) 140 ≡ true = ground (arith, small) in
      (d, file', rw (guard, has_first, will, bound, collected) wrote, appended)
