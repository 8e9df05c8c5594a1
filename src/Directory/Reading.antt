-- ===== src/Directory/Reading.antt =====
-- `dir_read` goes through the entries that are in use.
use mcy_os.Prelude.{
  ℕ, zero, suc, ◌+◌, ◌-◌, ◌*◌, ◌≤◌, ◌<◌, ◌≡◌, refl, sym, ap, ◌∙◌, inl, inr, true, false, Option,
  none, some, List, [], ◌∷◌, ◌++◌, arith, dec_lt, ltb, leb, ◌==◌, if◌then◌else◌, Bool-cases, length,
  get_or, Result, ok, ◌>>=◌,
}
use mcy_os.Inode.{Disk, ide_read, Inode}
use mcy_os.Directory.{
  DirEntry, dir_entry_size, dir_entry_cnt, entry_at, found_or, moved, dir_blocks, read_sector,
  read_blocks, dir_read,
}

-- The entries in use of a sector, and of the blocks from an index on.
unfoldable pub sector_used : ℕ → List ℕ → ℕ → List DirEntry
sector_used zero buf p = []
sector_used (suc left) buf p =
    let e = entry_at buf p in
    let rest = sector_used left buf (p + dir_entry_size) in if e.f_type == 0 then rest else e ∷ rest

unfoldable pub used_from : ℕ → ℕ → List ℕ → Disk → List DirEntry
used_from zero block_idx all d = []
used_from (suc left) block_idx all d =
    let lba = get_or all block_idx 0 in
    (if lba == 0 then [] else sector_used dir_entry_cnt (ide_read d lba 1) 0)
    ++ used_from left (block_idx + 1) all d

-- The entries in use of a directory, in the blocks that it can have.
abbrev pub used_entries : Inode → Disk → List DirEntry
used_entries i d = used_from (if get_or i.i_sectors 12 0 == 0 then 12 else 140) 0 (dir_blocks i d) d

abbrev pub nth : {A : Type 0} → List A → ℕ → Option A
nth [] n = none
nth (x ∷ xs) zero = some x
nth (x ∷ xs) (suc n) = nth xs n

nth-append :
    (xs ys : List DirEntry) (n : ℕ)
    → length xs ≤ n
    → (nth xs n ≡ none) × (nth (xs ++ ys) n ≡ nth ys (n - length xs))
nth-append [] ys n h = let e : n ≡ n - 0 = omega arith in (refl, ap (nth ys) e)
nth-append (x ∷ xs) ys zero h = absurd (omega arith)
nth-append (x ∷ xs) ys (suc n) h =
    let (absent, later) = nth-append xs ys n (omega arith) in
    let e : n - length xs ≡ suc n - suc (length xs) = omega arith in (absent, later ∙ ap (nth ys) e)

nth-append_left :
    (xs ys : List DirEntry) (n : ℕ)
    → n < length xs
    → (e : DirEntry) × (nth xs n ≡ some e) × (nth (xs ++ ys) n ≡ some e)
nth-append_left [] ys n h = absurd (omega arith)
nth-append_left (x ∷ xs) ys zero h = (x, refl, refl)
nth-append_left (x ∷ xs) ys (suc n) h = nth-append_left xs ys n (omega arith)

-- What a sector gives when `c` entries have been passed and the one with the number `n` is wanted.
abbrev of_sector : ℕ → ℕ → Option DirEntry → ℕ → Result (ℕ × Option DirEntry)
of_sector n c (some e) count = ok (n * 24, some e)
of_sector n c none count = ok ((c + count) * 24, none)

of_sector_shift :
    (n c : ℕ) (found : Option DirEntry) (count : ℕ)
    → of_sector n (c + 1) found count ≡ of_sector n c found (suc count)
of_sector_shift n c (some e) count = refl
of_sector_shift n c none count =
    let e : (c + 1 + count) * 24 ≡ (c + suc count) * 24 = omega arith in ap (λ k. ok (k, none)) e

read_sector_lem :
    (left : ℕ) (buf : List ℕ) (p c n : ℕ)
    → c ≤ n
    → read_sector left buf p (c * 24) (n * 24)
      ≡ of_sector n c (nth (sector_used left buf p) (n - c)) (length (sector_used left buf p))
unfolding read_sector sector_used
read_sector_lem zero buf p c n h =
    let e : c * 24 ≡ (c + 0) * 24 = omega arith in ap (λ k. ok (k, none)) e
read_sector_lem (suc left) buf p c n h =
    let e = entry_at buf p in
    let rest = sector_used left buf (p + dir_entry_size) in
    elim (Bool-cases (e.f_type == 0)) [
      | inl unused ↦ rw unused (read_sector_lem left buf (p + dir_entry_size) c n h)
      | inr used ↦ elim (dec_lt c n) [
        | yes before ↦
            let test : ltb (c * 24) (n * 24) ≡ true = ground (arith, before) in
            let next : c * 24 + 24 ≡ (c + 1) * 24 = omega arith in
            let k : n - c ≡ suc (n - (c + 1)) = omega (arith, before) in
            rw (used, test, k)
              (ap (λ x. read_sector left buf (p + dir_entry_size) x (n * 24)) next
                ∙ read_sector_lem left buf (p + dir_entry_size) (c + 1) n (omega (arith, before))
                ∙ of_sector_shift n c (nth rest (n - (c + 1))) (length rest))
        | no at ↦
            let same : c * 24 ≡ n * 24 = omega (arith, h, at) in
            let k : n - c ≡ 0 = omega (arith, h, at) in
            let not_before : ltb (c * 24) (n * 24) ≡ false = ground (arith, at) in
            let here : c * 24 == n * 24 ≡ true = ground (arith, same) in
            rw (used, not_before, k, here) (ap (λ x. ok (x, some e)) same)
      ]
    ]

read_blocks_lem :
    (left idx : ℕ) (all : List ℕ) (d : Disk) (i_size c n : ℕ)
    → c ≤ n
    → n * 24 < i_size
    → read_blocks left idx all d i_size (c * 24) (n * 24)
      ≡ ok (nth (used_from left idx all d) (n - c))
unfolding read_blocks used_from
read_blocks_lem zero idx all d i_size c n h inside = refl
read_blocks_lem (suc left) idx all d i_size c n h inside =
    let lba = get_or all idx 0 in
    let more : leb i_size (n * 24) ≡ false = ground (arith, inside) in
    let used = sector_used dir_entry_cnt (ide_read d lba 1) 0 in
    let later = used_from left (idx + 1) all d in
    let rest : ℕ → Result (Option DirEntry) =
      λ cur. read_blocks left (idx + 1) all d i_size cur (n * 24) in
    let of_found : Result (ℕ × Option DirEntry) → Result (Option DirEntry) =
      λ m. m >>= λ (cur, found). found_or found (rest cur) in
    let sector = read_sector_lem dir_entry_cnt (ide_read d lba 1) 0 c n h in
    elim (Bool-cases (lba == 0)) [
      | inl e ↦ rw (more, e) (read_blocks_lem left (idx + 1) all d i_size c n h inside)
      | inr e ↦ elim (dec_lt (n - c) (length used)) [
        | yes here ↦
            let (entry, found, found') = nth-append_left used later (n - c) here in
            rw (more, e)
              (ap of_found (sector ∙ ap (λ o. of_sector n c o (length used)) found)
                ∙ ap ok (sym found'))
        | no behind ↦
            let (absent, found') = nth-append used later (n - c) (omega (arith, behind)) in
            let idx' : n - (c + length used) ≡ n - c - length used = omega arith in
            rw (more, e)
              (ap of_found (sector ∙ ap (λ o. of_sector n c o (length used)) absent)
                ∙ read_blocks_lem left (idx + 1) all d i_size (c + length used) n
                    (omega (arith, behind, h)) inside
                ∙ ap ok (ap (nth later) idx' ∙ sym found'))
      ]
    ]

read_blocks-end :
    (left idx : ℕ) (all : List ℕ) (d : Disk) (i_size cur pos : ℕ)
    → i_size ≤ pos
    → read_blocks left idx all d i_size cur pos ≡ ok none
unfolding read_blocks
read_blocks-end zero idx all d i_size cur pos h = refl
read_blocks-end (suc left) idx all d i_size cur pos h =
    let over : leb i_size pos ≡ true = ground (arith, h) in rw over

-- When the size of a directory counts the entries that are in use, a call of `dir_read` at the
-- position behind `n` entries returns the entry with the number `n` among those in use and moves
-- the position behind it. When there are no more than `n` it returns null and stays.
pub dir_read_lem :
    (i : Inode) (d : Disk) (n : ℕ)
    → i.i_size ≡ length (used_entries i d) * dir_entry_size
    → dir_read i d (n * dir_entry_size) ≡ ok (moved (n * dir_entry_size) (nth (used_entries i d) n))
unfolding dir_read
dir_read_lem i d n size =
    let used = used_entries i d in
    let cnt : ℕ = if get_or i.i_sectors 12 0 == 0 then 12 else 140 in
    let start : n - 0 ≡ n = omega arith in
    elim (dec_lt n (length used)) [
      | yes more ↦
          ap (λ m. m >>= λ found. ok (moved (n * 24) found))
            (read_blocks_lem cnt 0 (dir_blocks i d) d i.i_size 0 n (omega arith)
              (omega (arith, size, more)))
          ∙ ap (λ k. ok (moved (n * 24) (nth used k))) start
      | no over ↦
          ap (λ m. m >>= λ found. ok (moved (n * 24) found))
            (read_blocks-end cnt 0 (dir_blocks i d) d i.i_size 0 (n * 24)
              (omega (arith, size, over)))
          ∙ ap (λ o. ok (moved (n * 24) o)) (sym (nth-append used [] n (omega (arith, over))).0)
    ]
