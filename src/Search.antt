-- ===== src/Search.antt =====
-- fs/fs.c (search_file) and fs/dir.c (dir_open, dir_close): from a path to an inode number.
-- An opened directory is known by its inode as it was read, and the counts are those of the list of
-- open inodes. `allocated` tells of each round, by the rounds that are left, whether the buffers of
-- search_dir_entry are there. The structure of an opened directory is taken to be allocated.
pub mod Pieces
pub mod Opening
pub mod Walk
pub mod Rounds
mod Tests
use mcy_os.Prelude.{
  ℕ, zero, suc, ◌+◌, ◌-◌, ◌*◌, ◌/◌, ◌%◌, ◌^◌, ◌≤◌, ◌<◌, ◌≡◌, refl, sym, ap, ap₂, subst, ◌∙◌, ◌≢◌,
  ◌↔◌, ◌⊎◌, inl, inr, Bool, true, false, not, ◌&&◌, ◌||◌, Option, none, some, List, [], ◌∷◌, ◌++◌,
  arith, dec_lt, ℕ_discrete, all_below, all_below_sound, ltb, leb, ◌==◌, if◌then◌else◌, ltb→lt,
  lt→ltb, le→not_ltb, leb→le, ==_iff, ==_refl, ==_ne, Bool-cases, and_left, and_right, minus_one,
  add32, sub32, length, get_or, set, take, drop, replicate, length-append, length-set,
  get_or-set_self, get_or-set_ne, get_or-set, get_or_outside, length-replicate, get_or-replicate,
  Result, ok, panic, ◌>>=◌, ◌>>◌, assert,
}
use mcy_os.Inode.{Disk, Inode, Partition, inode_load, inode_open, inode_close}
use mcy_os.Paths.{max_file_name_len, Text, slash, dot, parse_next, path_parse, is_empty, same_text}
use mcy_os.Directory.{DirEntry, search_dir_entry}

-- `struct dir`: whether it is `root_dir`, and its inode.
pub record Dir : Type 0 where
  pub is_root_dir : Bool
  pub inode : Inode

-- `struct path_search_record`
pub record PathSearchRecord : Type 0 where
  pub searched_path : Text
  pub parent_dir : Dir
  pub file_type : ℕ

abbrev pub ft_regular : ℕ
ft_regular = 1

abbrev pub ft_directory : ℕ
ft_directory = 2

-- The first of the open inodes with the number.
unfoldable pub find_open : ℕ → List Inode → Option Inode
find_open inode_no [] = none
find_open inode_no (i ∷ rest) =
    let later = find_open inode_no rest in if i.i_no == inode_no then some i else later

abbrev pub open_or_load : Partition → ℕ → Disk → Option Inode → Result Inode
open_or_load part inode_no d (some i) = ok i
open_or_load part inode_no d none = inode_load part inode_no d

-- The directory, and the open inodes after it.
unfoldable pub dir_open : Partition → ℕ → Disk → List Inode → Result (Dir × List Inode)
dir_open part inode_no d opened = inode_open part inode_no d opened >>= λ opened'.
    open_or_load part inode_no d (find_open inode_no opened) >>= λ i.
    ok (record { is_root_dir = false; inode = i }, opened')

unfoldable pub dir_close : Dir → List Inode → List Inode
dir_close dir opened = if dir.is_root_dir then opened else inode_close dir.inode.i_no opened

-- The inode number or -1, the record, and the open inodes.
abbrev pub Searched : Type 0
Searched = Result (ℕ × PathSearchRecord × List Inode)

-- Behind the loop of `search_file`.
unfoldable pub search_end :
    Partition → Disk → ℕ → DirEntry → PathSearchRecord → List Inode → Searched
search_end part d parent_inode_no dir_e r opened =
    dir_open part parent_inode_no d (dir_close r.parent_dir opened) >>= λ o.
    ok (dir_e.i_no, record r { parent_dir = o.0; file_type = ft_directory }, o.1)

-- What the loop of `search_file` keeps.
pub record Cursor : Type 0 where
  pub sub_path : Option Text
  pub name : Text
  pub parent_dir : Dir
  pub parent_inode_no : ℕ
  pub dir_e : DirEntry

unfoldable pub search_from :
    ℕ → (ℕ → Bool) → Partition → Disk → Cursor → PathSearchRecord → List Inode → Searched
search_from zero allocated part d c r opened = panic
search_from (suc fuel) allocated part d c r opened =
    let r' = record r { searched_path = r.searched_path ++ slash ∷ c.name } in
    let (name', sub_path') = parse_next c.sub_path in
    let found : DirEntry → Searched = λ e.
      let next = record c { sub_path = sub_path'; name = name'; dir_e = e } in
      let enter = dir_open part e.i_no d (dir_close c.parent_dir opened) >>= λ o.
      search_from fuel allocated part d
        (record next { parent_dir = o.0; parent_inode_no = c.parent_dir.inode.i_no })
        (record r' { parent_dir = o.0 }) (o.1) in
      let other = search_from fuel allocated part d next r' opened in
      if e.f_type == ft_directory
      then enter
      else if e.f_type == ft_regular
      then ok (e.i_no, record r' { file_type = ft_regular }, opened)
      else other in
    let round : Searched =
      assert (ltb (length c.name) max_file_name_len)
      >> assert (ltb (length r.searched_path) 512)
      >> elim (search_dir_entry (allocated fuel) c.parent_dir.inode d c.name) [
        | none ↦ ok (minus_one, r', opened)
        | some e ↦ found e
      ] in
    if is_empty c.name then search_end part d c.parent_inode_no c.dir_e r opened else round

abbrev pub is_root_path : Text → Bool
is_root_path p =
    same_text p (slash ∷ [])
    || same_text p (slash ∷ dot ∷ [])
    || same_text p (slash ∷ dot ∷ dot ∷ [])

-- `garbage` is what `dir_e` holds at first.
unfoldable pub search_file :
    (ℕ → Bool)
    → Partition
    → Disk
    → Inode
    → DirEntry
    → Text
    → PathSearchRecord
    → List Inode
    → Searched
search_file allocated part d root garbage pathname r opened =
    let root_dir : Dir = record { is_root_dir = true; inode = root } in
    let (name, sub_path) = path_parse pathname in
    let at_root : PathSearchRecord = record {
      searched_path = [];
      parent_dir = root_dir;
      file_type = ft_directory;
    } in
    let c : Cursor = record {
      sub_path = sub_path;
      name = name;
      parent_dir = root_dir;
      parent_inode_no = 0;
      dir_e = garbage;
    } in
    let search : Searched =
      assert (get_or pathname 0 0 == slash && ltb 1 (length pathname) && ltb (length pathname) 512)
      >> search_from (length pathname + 1) allocated part d c
          (record r { parent_dir = root_dir; file_type = 0 }) opened in
    if is_root_path pathname then ok (0, at_root, opened) else search
