-- ===== src/Search/Walk.antt =====
-- The walk over the names of a path, and what `search_file` of fs/fs.c keeps between two names.
use mcy_os.Prelude.{
  ℕ, suc, ◌+◌, ◌≤◌, ◌<◌, ◌≡◌, refl, subst, Bool, true, false, Option, none, some, List, [], ◌∷◌,
  ◌++◌, arith, ◌==◌, if◌then◌else◌, minus_one, length, length-append, ok,
}
use mcy_os.Inode.{Disk, Inode, Partition}
use mcy_os.Paths.{Text, slash, parse_next, is_empty}
use mcy_os.Directory.{DirEntry}
use mcy_os.Search.{Dir, PathSearchRecord, dir_close, Searched, search_end, Cursor}
use mcy_os.Paths.Names.{
  AreShort, names_left, with_name, parse_next_lem, left_of, Reads, Reads-parse_next,
}
use mcy_os.Directory.Entries.{slots, first_named}
use mcy_os.Search.Pieces.{
  Behind, parse_next-Behind, parse_next-shorter, parse_next-slash, nonempty, with_name-some,
}
use mcy_os.Search.Opening.{IsTree, AllAgree, IsAt, dir_open_lem, dir_close-AllAgree}

-- How a search ends.
pub record Outcome : Type 0 where
  pub answer : ℕ
  pub path : Text
  pub parent : ℕ
  pub kind : ℕ

module _ (part : Partition) (d : Disk) (is_dir : ℕ → Bool) (inodes : ℕ → Inode) where
  -- The walk over the names: from the directory `cur`, which was found in `above`.
  unfoldable pub walk_entry :
      (DirEntry → Outcome) → (DirEntry → Outcome) → ℕ → Text → Option DirEntry → Outcome
  walk_entry enter pass cur seen none = record {
    answer = minus_one;
    path = seen;
    parent = cur;
    kind = 0;
  }
  walk_entry enter pass cur seen (some e) =
      let regular : Outcome = record { answer = e.i_no; path = seen; parent = cur; kind = 1 } in
      if e.f_type == 2 then enter e else if e.f_type == 1 then regular else pass e

  unfoldable pub walk : List Text → ℕ → ℕ → DirEntry → Text → Outcome
  walk [] cur above last seen = record { answer = last.i_no; path = seen; parent = above; kind = 2 }
  walk (n ∷ ns) cur above last seen =
      let seen' = seen ++ slash ∷ n in
      walk_entry (λ e. walk ns e.i_no cur e seen') (λ e. walk ns cur above e seen') cur seen'
        (first_named n (slots (inodes cur) d))

  abbrev pub Finds : Searched → Outcome → Type 0
  Finds s w =
      (r : PathSearchRecord) × (o : List Inode) × (s ≡ ok (w.answer, r, o))
      × (r.searched_path ≡ w.path)
      × (r.parent_dir.inode.i_no ≡ w.parent)
      × (r.file_type ≡ w.kind)
      × AllAgree part d is_dir inodes o

  -- What holds before a round.
  pub record Ready (fuel : ℕ) (c : Cursor) (r : PathSearchRecord) (cur above : ℕ) : Type 0 where
    pub enough : left_of c.sub_path + length c.name < fuel
    pub reads : Reads c.sub_path c.name
    pub behind : Behind c.sub_path
    pub here : IsAt part d is_dir inodes c.parent_dir cur
    pub listed : is_dir above ≡ true
    pub before : c.parent_inode_no ≡ above
    pub same : r.parent_dir ≡ c.parent_dir
    pub kind : r.file_type ≡ 0
    pub short : AreShort (with_name c.name (names_left c.sub_path))
    pub room :
        is_empty c.name ≡ false
        → length r.searched_path + 1 + length c.name + left_of c.sub_path ≤ 511

  abbrev pub advance : Cursor → DirEntry → Dir → ℕ → Cursor
  advance c e dir back = record {
    sub_path = (parse_next c.sub_path).1;
    name = (parse_next c.sub_path).0;
    parent_dir = dir;
    parent_inode_no = back;
    dir_e = e;
  }

  abbrev pub seen_more : PathSearchRecord → Text → Dir → PathSearchRecord
  seen_more r name dir = record r {
    searched_path = r.searched_path ++ slash ∷ name;
    parent_dir = dir;
  }

  pub Ready-advance :
      (fuel : ℕ) (c : Cursor) (r : PathSearchRecord) (cur above : ℕ)
      → Ready (suc fuel) c r cur above
      → is_empty c.name ≡ false
      → (e : DirEntry) (dir shown : Dir) (back cur' above' : ℕ) → IsAt part d is_dir inodes dir cur'
      → is_dir above' ≡ true
      → back ≡ above'
      → shown ≡ dir
      → Ready fuel (advance c e dir back) (seen_more r c.name shown) cur' above'
  Ready-advance fuel c r cur above k filled e dir shown back cur' above' here listed before same =
      record {
        enough = omega (arith, k.enough, parse_next-shorter c.sub_path, nonempty c.name filled);
        reads = Reads-parse_next c.sub_path;
        behind = parse_next-Behind c.sub_path;
        here = here;
        listed = listed;
        before = before;
        same = same;
        kind = k.kind;
        short =
            subst AreShort (parse_next_lem c.sub_path)
              (subst AreShort (with_name-some c.name (names_left c.sub_path) filled) k.short).1;
        room = λ h. omega (
          arith,
          k.room filled,
          parse_next-slash c.sub_path k.behind h,
          length-append r.searched_path (slash ∷ c.name),
        );
      }

  pub search_end_lem :
      IsTree part d is_dir inodes
      → (fuel : ℕ) (c : Cursor) (r : PathSearchRecord) (o : List Inode) (cur above : ℕ)
      → Ready fuel c r cur above
      → AllAgree part d is_dir inodes o
      → Finds
          (search_end part d c.parent_inode_no c.dir_e r o)
          (walk [] cur above c.dir_e r.searched_path)
  unfolding search_end walk
  search_end_lem tree fuel c r o cur above k agree =
      let (dir, o', e, at, agree') =
        dir_open_lem part d is_dir inodes tree above (dir_close r.parent_dir o) k.listed
          (dir_close-AllAgree part d is_dir inodes r.parent_dir o agree) in
      (
        record r { parent_dir = dir; file_type = 2 },
        o',
        rw (k.before, e) refl,
        refl,
        at.number,
        refl,
        agree',
      )
