-- ===== src/Directory/Entries.antt =====
-- The entries of a directory as a list, and the search in it.
use mcy_os.Prelude.{
  ℕ, zero, suc, ◌+◌, ◌≡◌, refl, sym, ap, ap₂, ◌∙◌, inl, inr, true, Option, none, some, List, [],
  ◌∷◌, ◌++◌, ◌==◌, if◌then◌else◌, Bool-cases, get_or, drop,
}
use mcy_os.Inode.{Disk, ide_read, Inode}
use mcy_os.Paths.{Text, same_text}
use mcy_os.Directory.{
  DirEntry, dir_entry_size, dir_entry_cnt, entry_at, text_of, or_else, dir_blocks, search_sector,
  search_blocks, search_dir_entry,
}

-- An entry with the string that its name begins.
pub record Slot : Type 0 where
  pub name : Text
  pub entry : DirEntry

unfoldable pub sector_slots : ℕ → List ℕ → ℕ → List Slot
sector_slots zero buf p = []
sector_slots (suc left) buf p =
    record { name = text_of (drop p buf); entry = entry_at buf p }
    ∷ sector_slots left buf (p + dir_entry_size)

unfoldable pub slots_from : ℕ → ℕ → List ℕ → Disk → List Slot
slots_from zero block_idx all d = []
slots_from (suc left) block_idx all d =
    let lba = get_or all block_idx 0 in
    (if lba == 0 then [] else sector_slots dir_entry_cnt (ide_read d lba 1) 0)
    ++ slots_from left (block_idx + 1) all d

-- All entries of a directory in the order of its blocks.
abbrev pub slots : Inode → Disk → List Slot
slots i d = slots_from 140 0 (dir_blocks i d) d

abbrev pub first_named : Text → List Slot → Option DirEntry
first_named name [] = none
first_named name (s ∷ ss) = if same_text s.name name then some s.entry else first_named name ss

first_named-append :
    (name : Text) (xs ys : List Slot)
    → first_named name (xs ++ ys) ≡ or_else (first_named name xs) (first_named name ys)
first_named-append name [] ys = refl
first_named-append name (s ∷ ss) ys = elim (Bool-cases (same_text s.name name)) [
  | inl e ↦ rw e
  | inr e ↦ rw e (first_named-append name ss ys)
]

search_sector-first :
    (left : ℕ) (buf : List ℕ) (p : ℕ) (name : Text)
    → search_sector left buf p name ≡ first_named name (sector_slots left buf p)
unfolding search_sector sector_slots
search_sector-first zero buf p name = refl
search_sector-first (suc left) buf p name =
    ap (λ r. if same_text (text_of (drop p buf)) name then some (entry_at buf p) else r)
      (search_sector-first left buf (p + dir_entry_size) name)

search_blocks-first :
    (left idx : ℕ) (all : List ℕ) (d : Disk) (name : Text)
    → search_blocks left idx all d name ≡ first_named name (slots_from left idx all d)
unfolding search_blocks slots_from
search_blocks-first zero idx all d name = refl
search_blocks-first (suc left) idx all d name =
    let lba = get_or all idx 0 in
    let buf = ide_read d lba 1 in
    let later = slots_from left (idx + 1) all d in
    let rest = search_blocks-first left (idx + 1) all d name in
    elim (Bool-cases (lba == 0)) [
      | inl e ↦ rw e rest
      | inr e ↦ rw e (
          ap₂ or_else (search_sector-first dir_entry_cnt buf 0 name) rest
          ∙ sym (first_named-append name (sector_slots dir_entry_cnt buf 0) later))
    ]

-- With its buffers allocated, `search_dir_entry` gives the first entry of the directory, in the
-- order of its blocks, whose name is the one that is looked for, and fails if there is none.
pub search_dir_entry_lem :
    (i : Inode) (d : Disk) (name : Text)
    → search_dir_entry true i d name ≡ first_named name (slots i d)
unfolding search_dir_entry
search_dir_entry_lem i d name = search_blocks-first 140 0 (dir_blocks i d) d name
