-- ===== src/Search/Opening.antt =====
-- dir_open and dir_close of fs/dir.c over the directories of a disk.
use mcy_os.Prelude.{
  ℕ, ◌≡◌, refl, sym, ap, ◌∙◌, inl, inr, Bool, true, false, none, some, List, [], ◌∷◌, arith,
  ℕ_discrete, ◌==◌, ==_ne, Bool-cases, add32, sub32, ok,
}
use mcy_os.Inode.{Disk, Inode, Partition, inode_load, inode_open, inode_close, reopen}
use mcy_os.Paths.{Text}
use mcy_os.Directory.{DirEntry, dir_blocks, search_dir_entry}
use mcy_os.Search.{Dir, find_open, dir_open, dir_close}
use mcy_os.Directory.Entries.{slots, first_named, search_dir_entry_lem}

module _ (part : Partition) (d : Disk) (is_dir : ℕ → Bool) (inodes : ℕ → Inode) where
  -- The directories have numbers of their own inodes on the disk, and their entries that are
  -- directories are among them.
  pub record IsTree : Type 0 where
    pub root : is_dir 0 ≡ true
    pub load : (n : ℕ) → is_dir n ≡ true → inode_load part n d ≡ ok (inodes n)
    pub number : (n : ℕ) → is_dir n ≡ true → (inodes n).i_no ≡ n
    pub closed :
        (n : ℕ) (name : Text) (e : DirEntry)
        → is_dir n ≡ true
        → first_named name (slots (inodes n) d) ≡ some e
        → e.f_type ≡ 2
        → is_dir e.i_no ≡ true

  -- An inode that is open has the blocks that it has on the disk.
  abbrev pub Agrees : Inode → Type 0
  Agrees i = is_dir i.i_no ≡ true → i.i_sectors ≡ (inodes i.i_no).i_sectors

  abbrev pub AllAgree : List Inode → Type 0
  AllAgree [] = Unit
  AllAgree (i ∷ is) = Agrees i × AllAgree is

  -- What the search of the open inodes finds is what `inode_open` gives another user.
  data Opens (n : ℕ) (o : List Inode) : Type 0 where
    closed_yet : reopen n o ≡ none → find_open n o ≡ none → Opens n o
    open_yet :
        (o' : List Inode) (i : Inode)
        → reopen n o ≡ some o'
        → find_open n o ≡ some i
        → i.i_no ≡ n
        → Agrees i
        → AllAgree o'
        → Opens n o

  Opens-always : (n : ℕ) (o : List Inode) → AllAgree o → Opens n o
  unfolding reopen find_open
  Opens-always n [] agree = closed_yet refl refl
  Opens-always n (i ∷ o) agree = elim (ℕ_discrete i.i_no n) [
    | yes e ↦
        let here : (i.i_no == n) ≡ true = ground (arith, e) in
        open_yet (record i { i_open_cnts = add32 i.i_open_cnts 1 } ∷ o) i (rw here refl)
          (rw here refl) e (agree.0) agree
    | no apart ↦
        let there : (i.i_no == n) ≡ false = ==_ne i.i_no n apart in
        elim (Opens-always n o (agree.1)) [
          | closed_yet r f ↦ closed_yet (rw (there, r) refl) (rw (there, f) refl)
          | open_yet o' j r f same agrees agree' ↦
              open_yet (i ∷ o') j (rw (there, r) refl) (rw (there, f) refl) same agrees
                (agree.0, agree')
        ]
  ]

  inode_close-AllAgree : (n : ℕ) (o : List Inode) → AllAgree o → AllAgree (inode_close n o)
  unfolding inode_close
  inode_close-AllAgree n [] agree = tt
  inode_close-AllAgree n (i ∷ o) agree = elim (Bool-cases (i.i_no == n)) [
    | inr there ↦ rw there (agree.0, inode_close-AllAgree n o (agree.1))
    | inl here ↦ elim (Bool-cases (sub32 i.i_open_cnts 1 == 0)) [
      | inl last ↦ rw (here, last) (agree.1)
      | inr more ↦ rw (here, more) agree
    ]
  ]

  pub dir_close-AllAgree : (dir : Dir) (o : List Inode) → AllAgree o → AllAgree (dir_close dir o)
  unfolding dir_close
  dir_close-AllAgree dir o agree = elim (Bool-cases dir.is_root_dir) [
    | inl root ↦ rw root agree
    | inr other ↦ rw other (inode_close-AllAgree dir.inode.i_no o agree)
  ]

  -- The directory is the one with the number.
  pub record IsAt (dir : Dir) (n : ℕ) : Type 0 where
    pub number : dir.inode.i_no ≡ n
    pub sectors : dir.inode.i_sectors ≡ (inodes n).i_sectors
    pub listed : is_dir n ≡ true

  pub dir_open_lem :
      IsTree
      → (n : ℕ) (o : List Inode) → is_dir n ≡ true
      → AllAgree o
      → (dir : Dir) × (o' : List Inode) × (dir_open part n d o ≡ ok (dir, o'))
        × IsAt dir n
        × AllAgree o'
  unfolding dir_open inode_open
  dir_open_lem tree n o listed agree = elim (Opens-always n o agree) [
    | closed_yet r f ↦ (
      record { is_root_dir = false; inode = inodes n },
      record (inodes n) { i_open_cnts = 1 } ∷ o,
      rw (r, f, tree.load n listed, inode_open),
      record { number = tree.number n listed; sectors = refl; listed = listed },
      (λ h. ap (λ m. (inodes m).i_sectors) (sym (tree.number n listed)), agree),
    )
    | open_yet o' i r f same agrees agree' ↦ (
      record { is_root_dir = false; inode = i },
      o',
      rw (r, f, inode_open),
      record {
        number = same;
        sectors = agrees (ap is_dir same ∙ listed) ∙ ap (λ m. (inodes m).i_sectors) same;
        listed = listed;
      },
      agree',
    )
  ]

  pub search_dir_entry-at :
      (dir : Dir) (n : ℕ) (name : Text)
      → IsAt dir n
      → search_dir_entry true dir.inode d name ≡ first_named name (slots (inodes n) d)
  unfolding dir_blocks
  search_dir_entry-at dir n name here =
      search_dir_entry_lem dir.inode d name ∙ (rw (here.sectors) refl)
