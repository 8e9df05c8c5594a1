-- ===== src/FileIo.antt =====
-- fs/file.c: reading a file through the blocks of its inode. Volume and Write have the operations
-- that allocate blocks and write.
-- A file is its inode, a position in it and the disk. Whether the table of block addresses could be
-- allocated is an argument; the buffer of one sector is taken to be there.
pub mod Blocks
pub mod Reading
pub mod Volume
pub mod Write
pub mod Writing
pub mod Append
pub mod RoundTrip
pub mod Opening
pub mod Writers
mod Tests
use mcy_os.Prelude.{
  ℕ, zero, suc, ◌+◌, ◌-◌, ◌*◌, ◌/◌, ◌%◌, ◌^◌, ◌≤◌, ◌<◌, ◌≡◌, refl, sym, ap, ap₂, subst, ◌∙◌, ◌≢◌,
  ◌↔◌, ◌⊎◌, inl, inr, Bool, true, false, not, ◌&&◌, ◌||◌, Option, none, some, List, [], ◌∷◌, ◌++◌,
  arith, dec_lt, ℕ_discrete, all_below, all_below_sound, ltb, leb, ◌==◌, if◌then◌else◌, ltb→lt,
  lt→ltb, le→not_ltb, leb→le, ==_iff, ==_refl, ==_ne, Bool-cases, and_left, and_right, minus_one,
  add32, sub32, length, get_or, set, take, drop, replicate, length-append, length-set,
  get_or-set_self, get_or-set_ne, get_or-set, get_or_outside, length-replicate, get_or-replicate,
  Result, ok, panic, ◌>>=◌, ◌>>◌, assert,
}
use mcy_os.Inode.{Disk, ide_read, copy_at, words_at, Inode}
use mcy_os.Descriptors.{File}

-- `all_blocks` as `sys_malloc` gives it out: 140 words that are 0.
unfoldable pub no_blocks : List ℕ
no_blocks = replicate 140 zero

-- The direct blocks from an index on, so many of them.
unfoldable pub direct_blocks : ℕ → ℕ → List ℕ → List ℕ → List ℕ
direct_blocks zero block_idx i_sectors all_blocks = all_blocks
direct_blocks (suc left) block_idx i_sectors all_blocks =
    direct_blocks left (block_idx + 1) i_sectors
      (set all_blocks block_idx (get_or i_sectors block_idx 0))

-- `ide_read(cur_part->my_disk, indirect_block_table, all_blocks + 12, 1)`
unfoldable pub read_table : Disk → ℕ → List ℕ → List ℕ
read_table d indirect_block_table all_blocks =
    copy_at all_blocks 12 (words_at (ide_read d indirect_block_table 1) 0 128)

-- The addresses of the blocks from the first to the last one that are read.
unfoldable pub blocks_to_read : Inode → Disk → ℕ → ℕ → Result (List ℕ)
blocks_to_read i d start_idx end_idx =
    let table = get_or i.i_sectors 12 0 in
    let indirect = read_table d table in
    if start_idx == end_idx
    then (if ltb end_idx 12
        then ok (set no_blocks end_idx (get_or i.i_sectors end_idx 0))
        else ok (indirect no_blocks))
    else if ltb end_idx 12
    then ok (direct_blocks (end_idx + 1 - start_idx) start_idx i.i_sectors no_blocks)
    else if ltb start_idx 12 && leb 12 end_idx
    then assert (not (table == 0))
      >> ok (indirect (direct_blocks (12 - start_idx) start_idx i.i_sectors no_blocks))
    else assert (not (table == 0)) >> ok (indirect no_blocks)

-- The variables of the loop of `file_read`, and the bytes that it has stored at `buf`.
pub record ReadState : Type 0 where
  pub fd_pos : ℕ
  pub bytes_read : ℕ
  pub size_left : ℕ
  pub stored : List ℕ

abbrev pub chunk_size : ℕ → ℕ → ℕ
chunk_size size_left sec_left_bytes =
    if ltb size_left sec_left_bytes then size_left else sec_left_bytes

unfoldable pub read_chunk : Disk → List ℕ → ReadState → ReadState
read_chunk d all_blocks r =
    let sec_lba = get_or all_blocks (r.fd_pos / 512) 0 in
    let sec_off_bytes = r.fd_pos % 512 in
    let chunk = chunk_size r.size_left (512 - sec_off_bytes) in
    record {
      fd_pos = r.fd_pos + chunk;
      bytes_read = r.bytes_read + chunk;
      size_left = r.size_left - chunk;
      stored = r.stored ++ take chunk (drop sec_off_bytes (ide_read d sec_lba 1));
    }

-- The loop of `file_read`: a round reads at least one byte, so `size` rounds are enough.
unfoldable pub read_chunks : ℕ → ℕ → Disk → List ℕ → ReadState → ReadState
read_chunks zero size d all_blocks r = r
read_chunks (suc fuel) size d all_blocks r =
    let rest = read_chunks fuel size d all_blocks (read_chunk d all_blocks r) in
    if ltb r.bytes_read size then rest else r

-- The part of `file_read` after the size is known.
unfoldable pub read_size : Bool → File → Inode → ℕ → Disk → Result (File × List ℕ × ℕ)
read_size allocated file i size d =
    let start_idx = file.fd_pos / 512 in
    let end_idx = add32 file.fd_pos size / 512 in
    let begun : ReadState = record {
      fd_pos = file.fd_pos;
      bytes_read = 0;
      size_left = size;
      stored = [];
    } in
    if allocated
    then (assert (ltb start_idx 139 && ltb end_idx 139)
        >> (blocks_to_read i d start_idx end_idx >>= λ all_blocks.
            let r = read_chunks size size d all_blocks begun in
            ok (record file { fd_pos = r.fd_pos }, r.stored, r.bytes_read)))
    else ok (file, [], minus_one)

-- The file after the call, the bytes stored at `buf`, and the answer.
unfoldable pub file_read : Bool → File → Inode → ℕ → Disk → Result (File × List ℕ × ℕ)
file_read allocated file i count d =
    let left = sub32 i.i_size file.fd_pos in
    if ltb i.i_size (add32 file.fd_pos count)
    then (if left == 0 then ok (file, [], minus_one) else read_size allocated file i left d)
    else read_size allocated file i count d
