-- ===== src/FileIo/Write.antt =====
-- fs/file.c: file_write. The state of a call is the volume, the inode and the table of block
-- addresses; a phase that runs out of blocks returns -1 with the state that it has come to.
use mcy_os.Prelude.{
  ◌^◌, ℕ, zero, suc, ◌+◌, ◌-◌, ◌*◌, ◌/◌, ◌%◌, Bool, true, false, not, List, ltb, leb, ◌==◌,
  if◌then◌else◌, minus_one, add32, sub32, get_or, set, take, drop, replicate, Result, ok, ◌>>=◌,
  ◌>>◌, assert,
}
use mcy_os.Inode.{
  Disk, ide_read, ide_write, copy_at, word_bytes, Inode, Partition, inode_locate, inode_sync,
}
use mcy_os.Descriptors.{File}
use mcy_os.FileIo.{no_blocks, read_table, chunk_size}
use mcy_os.FileIo.Volume.{Volume, block_bitmap_type, block_bitmap_alloc, bitmap_sync}

pub record WriteState : Type 0 where
  pub vol : Volume
  pub inode : Inode
  pub all_blocks : List ℕ

-- The state after a phase, and whether it found the blocks that it wanted.
abbrev pub Phase : Type 0
Phase = Result (WriteState × Bool)

infixl 5 ◌then_phase◌
abbrev pub ◌then_phase◌ : Phase → (WriteState → Phase) → Phase
m then_phase next = m >>= λ (w, found). if found then next w else ok (w, false)

abbrev pub set_sector : ℕ → ℕ → Inode → Inode
set_sector idx lba i = record i { i_sectors = set i.i_sectors idx lba }

-- `bitmap_sync` of the bit of a block that has been allocated.
unfoldable pub sync_block : ℕ → WriteState → WriteState
sync_block block_lba w = record w {
  vol = bitmap_sync (sub32 block_lba w.vol.data_start_lba) block_bitmap_type w.vol;
}

-- A block is allocated and handed to what follows.
unfoldable pub with_block : (ℕ → WriteState → Phase) → WriteState → Phase
with_block next w = block_bitmap_alloc w.vol >>= λ (v, block_lba).
    let w' = record w { vol = v } in
    if block_lba == minus_one then ok (w', false) else next block_lba w'

-- The first block of a file that has none.
unfoldable pub first_block : WriteState → Phase
first_block w =
    let allocate =
      with_block
        (λ block_lba w'.
          let w'' = record w' { inode = set_sector 0 block_lba w'.inode } in
          assert (not (sub32 block_lba w'.vol.data_start_lba == 0))
          >> ok (sync_block block_lba w'', true))
        w in
    if get_or w.inode.i_sectors 0 0 == 0 then allocate else ok (w, true)

-- Where a new block is noted: in the inode and the table, or in the table alone.
unfoldable pub place_direct : ℕ → ℕ → WriteState → Result WriteState
place_direct block_idx block_lba w =
    assert (get_or w.inode.i_sectors block_idx 0 == 0)
    >> ok (record w {
      inode = set_sector block_idx block_lba w.inode;
      all_blocks = set w.all_blocks block_idx block_lba;
    })

unfoldable pub place_indirect : ℕ → ℕ → WriteState → Result WriteState
place_indirect block_idx block_lba w =
    ok (record w { all_blocks = set w.all_blocks block_idx block_lba })

unfoldable pub place_mixed : ℕ → ℕ → WriteState → Result WriteState
place_mixed block_idx block_lba w =
    if ltb block_idx 12
    then place_direct block_idx block_lba w
    else place_indirect block_idx block_lba w

-- The loops that allocate blocks, so many from an index on.
unfoldable pub add_new_blocks :
    (ℕ → ℕ → WriteState → Result WriteState) → ℕ → ℕ → WriteState → Phase
add_new_blocks place zero block_idx w = ok (w, true)
add_new_blocks place (suc left) block_idx w =
    with_block
      (λ block_lba w'. place block_idx block_lba w' >>= λ w''.
        add_new_blocks place left (block_idx + 1) (sync_block block_lba w''))
      w

-- The last block that is in use is noted in the table.
unfoldable pub keep_block : ℕ → WriteState → WriteState
keep_block block_idx w = record w {
  all_blocks = set w.all_blocks block_idx (get_or w.inode.i_sectors block_idx 0);
}

unfoldable pub load_table : ℕ → WriteState → WriteState
load_table table w = record w { all_blocks = read_table w.vol.disk table w.all_blocks }

-- `ide_write(cur_part->my_disk, indirect_block_table, all_blocks + 12, 1)`
unfoldable pub store_table : ℕ → WriteState → WriteState
store_table table w = record w {
  vol = record w.vol { disk = ide_write w.vol.disk table (word_bytes (drop 12 w.all_blocks)) };
}

-- No new blocks are needed.
unfoldable pub same_blocks : ℕ → WriteState → Phase
same_blocks has w =
    let table = get_or w.inode.i_sectors 12 0 in
    if leb has 12
    then ok (keep_block (has - 1) w, true)
    else assert (not (table == 0)) >> ok (load_table table w, true)

-- The three situations in which blocks are added.
unfoldable pub stay_direct : ℕ → ℕ → WriteState → Phase
stay_direct has will w =
    assert (not (get_or w.inode.i_sectors (has - 1) 0 == 0))
    >> add_new_blocks place_direct (will - has) has (keep_block (has - 1) w)

unfoldable pub become_indirect : ℕ → ℕ → WriteState → Phase
become_indirect has will w =
    with_block
      (λ table w'.
        assert (get_or w'.inode.i_sectors 12 0 == 0)
        >> (add_new_blocks place_mixed (will - has) has
              (record w' { inode = set_sector 12 table w'.inode })
            then_phase λ w''. ok (store_table table w'', true)))
      (keep_block (has - 1) w)

unfoldable pub stay_indirect : ℕ → ℕ → WriteState → Phase
stay_indirect has will w =
    let table = get_or w.inode.i_sectors 12 0 in
    assert (not (table == 0))
    >> (add_new_blocks place_indirect (will - has) has (load_table table w) then_phase λ w'.
        ok (store_table table w', true))

unfoldable pub blocks_to_write : ℕ → ℕ → WriteState → Phase
blocks_to_write has will w =
    if will == has
    then same_blocks has w
    else if leb will 12
    then stay_direct has will w
    else if leb has 12
    then become_indirect has will w
    else stay_indirect has will w

-- The variables of the loop that writes: `src` is the bytes that are left in the buffer.
pub record ChunkState : Type 0 where
  pub disk : Disk
  pub i_size : ℕ
  pub fd_pos : ℕ
  pub bytes_written : ℕ
  pub src : List ℕ
  pub first_write_block : Bool

unfoldable pub write_chunk : ℕ → List ℕ → ChunkState → ChunkState
write_chunk count all_blocks s =
    let sec_lba = get_or all_blocks (s.i_size / 512) 0 in
    let sec_off_bytes = s.i_size % 512 in
    let chunk = chunk_size (count - s.bytes_written) (512 - sec_off_bytes) in
    let io_buf = if s.first_write_block then ide_read s.disk sec_lba 1 else replicate 512 0 in
    record {
      disk = ide_write s.disk sec_lba (copy_at io_buf sec_off_bytes (take chunk s.src));
      i_size = s.i_size + chunk;
      fd_pos = add32 s.fd_pos chunk;
      bytes_written = s.bytes_written + chunk;
      src = drop chunk s.src;
      first_write_block = false;
    }

-- A round writes at least one byte, so `count` rounds are enough.
unfoldable pub write_chunks : ℕ → ℕ → List ℕ → ChunkState → ChunkState
write_chunks zero count all_blocks s = s
write_chunks (suc fuel) count all_blocks s =
    let rest = write_chunks fuel count all_blocks (write_chunk count all_blocks s) in
    if ltb s.bytes_written count then rest else s

-- `inode_sync` with the `io_buf` of `file_write`, which has BLOCK_SIZE = 512 bytes. For an inode
-- that lies in two sectors the source reads and writes behind it, and the model stops.
unfoldable pub store_inode : Partition → Inode → Disk → Result Disk
store_inode part inode d = inode_locate part (inode.i_no % 2 ^ 8) >>= λ pos.
    assert (not pos.two_sec) >> inode_sync part inode d

-- What `file_write` does when the blocks are in the table: the loop, and the inode stored.
unfoldable pub write_data : File → List ℕ → ℕ → WriteState → Result (Volume × Inode × File × ℕ)
write_data file buf count w =
    let begun : ChunkState = record {
      disk = w.vol.disk;
      i_size = w.inode.i_size;
      fd_pos = sub32 w.inode.i_size 1;
      bytes_written = 0;
      src = buf;
      first_write_block = true;
    } in
    let s = write_chunks count count w.all_blocks begun in
    let i = record w.inode { i_size = s.i_size } in
    store_inode w.vol.part i s.disk >>= λ d.
    ok (record w.vol { disk = d }, i, record file { fd_pos = s.fd_pos }, s.bytes_written)

-- `file_write` behind its first test.
unfoldable pub write_file : File → Inode → List ℕ → ℕ → Volume → Result (Volume × Inode × File × ℕ)
write_file file i buf count v = do
  (w, found) ← first_block (record { vol = v; inode = i; all_blocks = no_blocks })
  let has = w.inode.i_size / 512 + 1
  let will = add32 w.inode.i_size count / 512 + 1
  let blocks = assert (leb will 140) >> blocks_to_write has will w
  (w', found') ← if found then blocks else ok (w, false)
  if found' then write_data file buf count w' else ok (w'.vol, w'.inode, file, minus_one)

-- The buffers are allocated or not; `buf` holds `count` bytes or more.
unfoldable pub file_write :
    Bool → File → Inode → List ℕ → ℕ → Volume → Result (Volume × Inode × File × ℕ)
file_write allocated file i buf count v =
    if ltb (512 * 140) (add32 i.i_size count)
    then ok (v, i, file, minus_one)
    else if allocated
    then write_file file i buf count v
    else ok (v, i, file, minus_one)
