-- ===== src/Directory.antt =====
-- fs/dir.c: directories as the entries in the blocks of an inode.
-- `struct dir_entry` is 24 bytes, which is also the size that the super block records, so a sector
-- holds 21 entries. The table of blocks is the one of files. The allocation of the buffers of
-- search_dir_entry may fail and is an argument.
pub mod Entries
pub mod Reading
pub mod Change
pub mod Adding
mod Tests
use mcy_os.Prelude.{
  ℕ, zero, suc, ◌+◌, ◌-◌, ◌*◌, ◌/◌, ◌%◌, ◌^◌, ◌≤◌, ◌<◌, ◌≡◌, refl, sym, ap, ap₂, subst, ◌∙◌, ◌≢◌,
  ◌↔◌, ◌⊎◌, inl, inr, Bool, true, false, not, ◌&&◌, ◌||◌, Option, none, some, List, [], ◌∷◌, ◌++◌,
  arith, dec_lt, ℕ_discrete, all_below, all_below_sound, ltb, leb, ◌==◌, if◌then◌else◌, ltb→lt,
  lt→ltb, le→not_ltb, leb→le, ==_iff, ==_refl, ==_ne, Bool-cases, and_left, and_right, minus_one,
  add32, sub32, length, get_or, set, take, drop, replicate, length-append, length-set,
  get_or-set_self, get_or-set_ne, get_or-set, get_or_outside, length-replicate, get_or-replicate,
  Result, ok, panic, ◌>>=◌, ◌>>◌, assert,
}
use mcy_os.Inode.{Disk, ide_read, Inode, word_at}
use mcy_os.FileIo.{no_blocks, direct_blocks, read_table}
use mcy_os.Paths.{Text, same_text}

-- `struct dir_entry`, the name as its 16 bytes
pub record DirEntry : Type 0 where
  pub filename : List ℕ
  pub i_no : ℕ
  pub f_type : ℕ

abbrev pub dir_entry_size : ℕ
dir_entry_size = 24

abbrev pub dir_entry_cnt : ℕ
dir_entry_cnt = 512 / 24

abbrev pub entry_at : List ℕ → ℕ → DirEntry
entry_at buf p = record {
  filename = take 16 (drop p buf);
  i_no = word_at buf (p + 16);
  f_type = word_at buf (p + 20);
}

-- A string of the buffer, up to its zero byte.
abbrev pub text_of : List ℕ → Text
text_of [] = []
text_of (c ∷ cs) = let rest = text_of cs in if c == 0 then [] else c ∷ rest

-- The addresses of all blocks of a directory.
unfoldable pub dir_blocks : Inode → Disk → List ℕ
dir_blocks i d =
    let direct = direct_blocks 12 0 i.i_sectors no_blocks in
    let table = get_or i.i_sectors 12 0 in if table == 0 then direct else read_table d table direct

-- What has been found, or else what is found later.
abbrev pub or_else : Option DirEntry → Option DirEntry → Option DirEntry
or_else (some e) later = some e
or_else none later = later

-- The loops of `search_dir_entry`: over the entries of a sector, and over the blocks.
unfoldable pub search_sector : ℕ → List ℕ → ℕ → Text → Option DirEntry
search_sector zero buf p_de name = none
search_sector (suc left) buf p_de name =
    let rest = search_sector left buf (p_de + dir_entry_size) name in
    if same_text (text_of (drop p_de buf)) name then some (entry_at buf p_de) else rest

unfoldable pub search_blocks : ℕ → ℕ → List ℕ → Disk → Text → Option DirEntry
search_blocks zero block_idx all_blocks d name = none
search_blocks (suc left) block_idx all_blocks d name =
    let lba = get_or all_blocks block_idx 0 in
    let rest = search_blocks left (block_idx + 1) all_blocks d name in
    let here = search_sector dir_entry_cnt (ide_read d lba 1) 0 name in
    if lba == 0 then rest else or_else here rest

unfoldable pub search_dir_entry : Bool → Inode → Disk → Text → Option DirEntry
search_dir_entry allocated i d name =
    if allocated then search_blocks 140 0 (dir_blocks i d) d name else none

-- The entry is given with its name cleared.
unfoldable pub create_dir_entry : Text → ℕ → ℕ → Result DirEntry
create_dir_entry filename inode_no file_type =
    assert (leb (length filename) 16)
    >> ok (record {
      filename = filename ++ replicate (16 - length filename) 0;
      i_no = inode_no;
      f_type = file_type;
    })

-- The loops of `dir_read`: an entry if it is the one at the position, and else the position of the
-- entries that have been passed.
unfoldable pub read_sector : ℕ → List ℕ → ℕ → ℕ → ℕ → Result (ℕ × Option DirEntry)
read_sector zero buf p cur_pos dir_pos = ok (cur_pos, none)
read_sector (suc left) buf p cur_pos dir_pos =
    let e = entry_at buf p in
    let unused = read_sector left buf (p + dir_entry_size) cur_pos dir_pos in
    let passed = read_sector left buf (p + dir_entry_size) (cur_pos + dir_entry_size) dir_pos in
    if e.f_type == 0
    then unused
    else if ltb cur_pos dir_pos
    then passed
    else assert (cur_pos == dir_pos) >> ok (cur_pos, some e)

abbrev pub found_or : Option DirEntry → Result (Option DirEntry) → Result (Option DirEntry)
found_or (some e) later = ok (some e)
found_or none later = later

unfoldable pub read_blocks : ℕ → ℕ → List ℕ → Disk → ℕ → ℕ → ℕ → Result (Option DirEntry)
read_blocks zero block_idx all_blocks d i_size cur_pos dir_pos = ok none
read_blocks (suc left) block_idx all_blocks d i_size cur_pos dir_pos =
    let lba = get_or all_blocks block_idx 0 in
    let rest : ℕ → Result (Option DirEntry) =
      λ cur. read_blocks left (block_idx + 1) all_blocks d i_size cur dir_pos in
    let here = read_sector dir_entry_cnt (ide_read d lba 1) 0 cur_pos dir_pos >>= λ (cur, found).
    found_or found (rest cur) in
    if leb i_size dir_pos then ok none else if lba == 0 then rest cur_pos else here

-- The position is moved behind an entry that is returned.
abbrev pub moved : ℕ → Option DirEntry → ℕ × Option DirEntry
moved dir_pos none = (dir_pos, none)
moved dir_pos (some e) = (dir_pos + dir_entry_size, some e)

-- The position after the call, and the entry or null.
unfoldable pub dir_read : Inode → Disk → ℕ → Result (ℕ × Option DirEntry)
dir_read i d dir_pos =
    let block_cnt = if get_or i.i_sectors 12 0 == 0 then 12 else 140 in
    read_blocks block_cnt 0 (dir_blocks i d) d i.i_size 0 dir_pos >>= λ found.
    ok (moved dir_pos found)

unfoldable pub dir_is_empty : Inode → Bool
dir_is_empty i = i.i_size == dir_entry_size * 2
