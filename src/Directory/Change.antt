-- ===== src/Directory/Change.antt =====
-- fs/dir.c: sync_dir_entry and delete_dir_entry. The state is the volume and the inode of the
-- directory; the buffer of the caller holds what is read into it.
use mcy_os.Prelude.{
  ℕ, zero, suc, ◌+◌, ◌-◌, ◌*◌, ◌%◌, Bool, true, false, not, ◌&&◌, Option, none, some, List, [], ◌∷◌,
  ◌++◌, ltb, leb, ◌==◌, if◌then◌else◌, minus_one, add32, sub32, get_or, set, drop, replicate,
  Result, ok, ◌>>=◌, ◌>>◌, assert,
}
use mcy_os.Bitmap.{set as set_bit}
use mcy_os.Inode.{Disk, ide_read, ide_write, copy_at, word_bytes, Inode, inode_sync}
use mcy_os.FileIo.{no_blocks, direct_blocks}
use mcy_os.FileIo.Volume.{Volume, block_bitmap_type, block_bitmap_alloc, bitmap_sync}
use mcy_os.FileIo.Write.{set_sector}
use mcy_os.Paths.{dot, same_text}
use mcy_os.Directory.{DirEntry, dir_entry_size, dir_entry_cnt, entry_at, text_of, dir_blocks}

-- The bytes of an entry.
abbrev pub entry_bytes : DirEntry → List ℕ
entry_bytes e = e.filename ++ word_bytes (e.i_no ∷ e.f_type ∷ [])

-- The first unused entry of a sector.
unfoldable pub free_entry : ℕ → List ℕ → ℕ → Option ℕ
free_entry zero buf idx = none
free_entry (suc left) buf idx =
    let rest = free_entry left buf (idx + 1) in
    if (entry_at buf (idx * dir_entry_size)).f_type == 0 then some idx else rest

abbrev pub with_disk : Volume → Disk → Volume
with_disk v d = record v { disk = d }

abbrev pub grow : Inode → Inode
grow i = record i { i_size = add32 i.i_size dir_entry_size }

-- The state after `sync_dir_entry`, and its answer.
abbrev pub Synced : Type 0
Synced = Result (Volume × Inode × Bool)

-- The new entry is written to a block of its own.
unfoldable pub write_new : ℕ → DirEntry → Volume → Inode → Synced
write_new lba p_de v i =
    let buf = copy_at (replicate 512 0) 0 (entry_bytes p_de) in
    ok (with_disk v (ide_write v.disk lba buf), grow i, true)

-- A block is allocated and its bit synchronised, and then used.
unfoldable pub allocate_synced : (Volume → Synced) → (ℕ → Volume → Synced) → Volume → Synced
allocate_synced failed next v = block_bitmap_alloc v >>= λ (v', block_lba).
    let block_bitmap_idx = sub32 block_lba v'.data_start_lba in
    let go =
      assert (not (block_bitmap_idx == minus_one))
      >> next block_lba (bitmap_sync block_bitmap_idx block_bitmap_type v') in
    if block_lba == minus_one then failed v' else go

abbrev pub store_indirect : ℕ → List ℕ → Volume → Volume
store_indirect table all_blocks v =
    with_disk v (ide_write v.disk table (word_bytes (drop 12 all_blocks)))

-- The table of indirect blocks gets its place, and then the first of them.
unfoldable pub begin_indirect : ℕ → List ℕ → DirEntry → Inode → Volume → Synced
begin_indirect table all_blocks p_de i v =
    let failed : Volume → Synced = λ v'.
      set_bit v'.block_bitmap (sub32 table v'.data_start_lba) 0 >>= λ b.
      ok (record v' { block_bitmap = b }, set_sector 12 0 i, false) in
    allocate_synced failed
      (λ block_lba v'.
        write_new block_lba p_de (store_indirect table (set all_blocks 12 block_lba) v')
          (set_sector 12 table i))
      v

unfoldable pub add_block : ℕ → List ℕ → DirEntry → Inode → Volume → Synced
add_block block_idx all_blocks p_de i v =
    allocate_synced (λ v'. ok (v', i, false))
      (λ block_lba v'.
        if ltb block_idx 12
        then write_new block_lba p_de v' (set_sector block_idx block_lba i)
        else if block_idx == 12
        then begin_indirect block_lba all_blocks p_de i v'
        else write_new block_lba p_de
            (store_indirect (get_or i.i_sectors 12 0) (set all_blocks block_idx block_lba) v') i)
      v

-- The new entry takes the place of an unused one.
unfoldable pub write_over : ℕ → ℕ → DirEntry → Inode → Volume → Synced
write_over lba idx p_de i v =
    let buf = copy_at (ide_read v.disk lba 1) (idx * dir_entry_size) (entry_bytes p_de) in
    ok (with_disk v (ide_write v.disk lba buf), grow i, true)

-- The loop over the blocks; at the end the directory is full.
unfoldable pub sync_blocks : ℕ → ℕ → List ℕ → DirEntry → Inode → Volume → Synced
sync_blocks zero block_idx all_blocks p_de i v = ok (v, i, false)
sync_blocks (suc left) block_idx all_blocks p_de i v =
    let lba = get_or all_blocks block_idx 0 in
    let rest = sync_blocks left (block_idx + 1) all_blocks p_de i v in
    let here : Synced = elim (free_entry dir_entry_cnt (ide_read v.disk lba 1) 0) [
      | some idx ↦ write_over lba idx p_de i v
      | none ↦ rest
    ] in
    if lba == 0 then add_block block_idx all_blocks p_de i v else here

-- The table of the indirect blocks is not read.
unfoldable pub sync_dir_entry : DirEntry → Inode → Volume → Synced
sync_dir_entry p_de i v =
    assert (i.i_size % dir_entry_size == 0)
    >> sync_blocks 140 0 (direct_blocks 12 0 i.i_sectors no_blocks) p_de i v

-- What the walk over a sector knows: how many entries there are but `.` and `..`, whether `.` is
-- among them, and where the entry is.
pub record Scan : Type 0 where
  pub dir_entry_cnt : ℕ
  pub is_dir_first_block : Bool
  pub dir_entry_found : Option ℕ

abbrev pub is_none : Option ℕ → Bool
is_none none = true
is_none (some _) = false

unfoldable pub scan_entry : List ℕ → ℕ → ℕ → Scan → Result Scan
scan_entry buf idx inode_no s =
    let p = idx * dir_entry_size in
    let e = entry_at buf p in
    let name = text_of (drop p buf) in
    let counted : Scan = record s { dir_entry_cnt = s.dir_entry_cnt + 1 } in
    let found : Result Scan =
      assert (is_none s.dir_entry_found) >> ok (record counted { dir_entry_found = some idx }) in
    if e.f_type == 0
    then ok s
    else if same_text name (dot ∷ [])
    then ok (record s { is_dir_first_block = true })
    else if same_text name (dot ∷ dot ∷ [])
    then ok s
    else if e.i_no == inode_no
    then found
    else ok counted

unfoldable pub scan_sector : ℕ → List ℕ → ℕ → ℕ → Scan → Result Scan
scan_sector zero buf idx inode_no s = ok s
scan_sector (suc left) buf idx inode_no s =
    scan_entry buf idx inode_no s >>= λ s'. scan_sector left buf (idx + 1) inode_no s'

-- The state after `delete_dir_entry` and its answer, or nothing when it does not return.
abbrev pub Deleted : Type 0
Deleted = Result (Option (Volume × Inode × Bool))

-- The inode is made smaller and stored.
unfoldable pub shrink : Inode → Volume → Deleted
shrink i v =
    let i' = record i { i_size = i.i_size - dir_entry_size } in
    assert (leb dir_entry_size i.i_size)
    >> (inode_sync v.part i' v.disk >>= λ d. ok (some (with_disk v d, i', true)))

-- A block without other entries is given back. Of an indirect block the loop that counts the
-- indirect blocks does not move its index, so it does not end.
unfoldable pub give_back : ℕ → ℕ → Inode → Volume → Deleted
give_back block_idx lba i v =
    let block_bitmap_idx = sub32 lba v.data_start_lba in
    set_bit v.block_bitmap block_bitmap_idx 0 >>= λ b.
    let v' = bitmap_sync block_bitmap_idx block_bitmap_type (record v { block_bitmap = b }) in
    if ltb block_idx 12 then shrink (set_sector block_idx 0 i) v' else ok none

unfoldable pub clear_entry : ℕ → ℕ → List ℕ → Inode → Volume → Deleted
clear_entry lba idx buf i v =
    let cleared = copy_at buf (idx * dir_entry_size) (replicate dir_entry_size 0) in
    shrink i (with_disk v (ide_write v.disk lba cleared))

unfoldable pub delete_found : ℕ → ℕ → ℕ → List ℕ → Scan → Inode → Volume → Deleted
delete_found block_idx lba idx buf s i v =
    assert (leb 1 s.dir_entry_cnt)
    >> (if s.dir_entry_cnt == 1 && not s.is_dir_first_block
        then give_back block_idx lba i v
        else clear_entry lba idx buf i v)

unfoldable pub delete_blocks : ℕ → ℕ → List ℕ → ℕ → Inode → Volume → Deleted
delete_blocks zero block_idx all_blocks inode_no i v = ok (some (v, i, false))
delete_blocks (suc left) block_idx all_blocks inode_no i v =
    let lba = get_or all_blocks block_idx 0 in
    let buf = ide_read v.disk lba 1 in
    let rest = delete_blocks left (block_idx + 1) all_blocks inode_no i v in
    let begun : Scan = record {
      dir_entry_cnt = 0;
      is_dir_first_block = false;
      dir_entry_found = none;
    } in
    let decide : Scan → Deleted = λ s. elim s.dir_entry_found [
      | none ↦ rest
      | some idx ↦ delete_found block_idx lba idx buf s i v
    ] in
    if lba == 0 then rest else (scan_sector dir_entry_cnt buf 0 inode_no begun >>= decide)

unfoldable pub delete_dir_entry : ℕ → Inode → Volume → Deleted
delete_dir_entry inode_no i v = delete_blocks 140 0 (dir_blocks i v.disk) inode_no i v
