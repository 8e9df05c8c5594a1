-- ===== src/Search/Rounds.antt =====
-- `search_file` of fs/fs.c is the walk over the names of the path.
use mcy_os.Prelude.{ℕ, suc, ◌≡◌, Bool, true, false, Option, List, ◌∷◌}
use mcy_os.Inode.{Disk, Inode, Partition}
use mcy_os.Paths.{is_empty}
use mcy_os.Directory.{DirEntry}
use mcy_os.Search.{PathSearchRecord, Cursor, search_from}
use mcy_os.Paths.Names.{names_left, with_name}
use mcy_os.Directory.Entries.{slots, first_named}
use mcy_os.Search.Opening.{IsTree, AllAgree}
use mcy_os.Search.Walk.{walk, Finds, Ready}

module _ (part : Partition) (d : Disk) (is_dir : ℕ → Bool) (inodes : ℕ → Inode) where
  module _ (tree : IsTree part d is_dir inodes) where
    -- What is known of the rounds that are left.
    abbrev Rest : ℕ → Type 0
    Rest fuel =
        (c : Cursor) (r : PathSearchRecord) (o : List Inode) (cur above : ℕ)
        → Ready part d is_dir inodes fuel c r cur above
        → AllAgree part d is_dir inodes o
        → Finds part d is_dir inodes (search_from fuel (λ _. true) part d c r o) (
            walk part d is_dir inodes (with_name c.name (names_left c.sub_path)) cur above c.dir_e
              r.searched_path)

    module _ (fuel : ℕ) (c : Cursor) (r : PathSearchRecord) (o : List Inode) (cur above : ℕ)
        (k : Ready part d is_dir inodes (suc fuel) c r cur above)
        (agree : AllAgree part d is_dir inodes o) (named : is_empty c.name ≡ false) where
      abbrev entry : Option DirEntry
      entry = first_named c.name (slots (inodes cur) d)

      abbrev Round : Type 0
      Round = Finds part d is_dir inodes (search_from (suc fuel) (λ _. true) part d c r o) (
          walk part d is_dir inodes (c.name ∷ names_left c.sub_path) cur above c.dir_e
            r.searched_path)
