-- ===== src/Directory/Adding.antt =====
-- An entry that takes the place of an unused one.
use mcy_os.Prelude.{
  ℕ, zero, suc, ◌+◌, ◌*◌, ◌%◌, ◌≤◌, ◌<◌, ◌≡◌, ap, ◌∙◌, ◌≢◌, ◌⊎◌, inl, inr, true, false, Option,
  none, some, List, [], ◌∷◌, arith, ℕ_discrete, ◌==◌, ==_ne, Bool-cases, length, get_or,
  length-append, ok,
}
use mcy_os.Inode.{Disk, ide_read, word_bytes, Inode, InodePosition}
use mcy_os.Inode.Patch.{patched, patched_inside, patched_outside}
use mcy_os.FileIo.{no_blocks, direct_blocks}
use mcy_os.FileIo.Volume.{Volume}
use mcy_os.Directory.{DirEntry, dir_entry_size, dir_entry_cnt, entry_at}
use mcy_os.Directory.Change.{
  entry_bytes, free_entry, with_disk, grow, write_over, sync_blocks, sync_dir_entry,
}

-- The blocks that `sync_dir_entry` knows of.
abbrev pub known_blocks : Inode → List ℕ
known_blocks i = direct_blocks 12 0 i.i_sectors no_blocks

-- The first unused entry of the directory has the number `idx` in its block with the number `q`.
pub record FirstFree (i : Inode) (d : Disk) (q lba idx : ℕ) : Type 0 where
  pub known : q < 140
  pub block : get_or (known_blocks i) q 0 ≡ lba
  pub there : lba ≢ 0
  pub free : free_entry dir_entry_cnt (ide_read d lba 1) 0 ≡ some idx
  pub before : (j : ℕ) → j < q → get_or (known_blocks i) j 0 ≢ 0
  pub full :
      (j : ℕ)
      → j < q
      → free_entry dir_entry_cnt (ide_read d (get_or (known_blocks i) j 0) 1) 0 ≡ none

none-some : (a : ℕ) → none ≡ some a → ⊥
none-some a e =
    absurd (omega (arith, ap {B = ℕ} (λ (o : Option ℕ). elim o [ none ↦ 0 | some _ ↦ 1 ]) e))

some_injective : (a b : ℕ) → some a ≡ some b → a ≡ b
some_injective a b e = ap (λ o. elim o [ none ↦ a | some x ↦ x ]) e

free_entry-inside :
    (left : ℕ) (buf : List ℕ) (from idx : ℕ)
    → free_entry left buf from ≡ some idx
    → (from ≤ idx) × (idx < from + left)
unfolding free_entry
free_entry-inside zero buf from idx = λ e. absurd (none-some idx e)
free_entry-inside (suc left) buf from idx =
    elim (Bool-cases ((entry_at buf (from * dir_entry_size)).f_type == 0)) [
      | inl free ↦ rw free (λ e.
          let same : from ≡ idx = some_injective from idx e in
          (omega (arith, same), omega (arith, same)))
      | inr used ↦ rw used (λ e.
          let (low, high) = free_entry-inside left buf (from + 1) idx e in
          (omega (arith, low), omega (arith, high)))
    ]

module _ (p_de : DirEntry) (i : Inode) (v : Volume) (q lba idx : ℕ)
    (f : FirstFree i v.disk q lba idx) where
  sync_blocks-over :
      (left j : ℕ)
      → j ≤ q
      → q < j + left
      → sync_blocks left j (known_blocks i) p_de i v ≡ write_over lba idx p_de i v
  unfolding sync_blocks
  sync_blocks-over zero j h h' = absurd (omega arith)
  sync_blocks-over (suc left) j h h' = elim (ℕ_discrete j q) [
    | yes at ↦
        let here : get_or (known_blocks i) j 0 ≡ lba =
          ap (λ k. get_or (known_blocks i) k 0) at ∙ f.block in
        rw (here, ==_ne lba 0 f.there, f.free) (ap (λ l. write_over l idx p_de i v) here)
    | no ne ↦
        let earlier : j < q = ground (arith, h, ne) in
        rw (==_ne (get_or (known_blocks i) j 0) 0 (f.before j earlier), f.full j earlier)
          (sync_blocks-over left (j + 1) (omega (arith, earlier)) (omega arith))
  ]

  -- Where the entry goes.
  abbrev pub entry_place : ℕ
  entry_place = lba * 512 + idx * dir_entry_size

  -- In a directory whose size is a number of whole entries, an entry with a name of 16 bytes is
  -- written over the first unused entry of the direct blocks, if all blocks before the one that
  -- has it are there and full: `sync_dir_entry` succeeds, the size grows by one entry, the 24 bytes
  -- of the place are those of the entry, and no other byte of the disk has changed.
  pub sync_dir_entry-over :
      i.i_size % dir_entry_size ≡ 0
      → length p_de.filename ≡ 16
      → (d : Disk) × (sync_dir_entry p_de i v ≡ ok (with_disk v d, grow i, true))
        × ((k : ℕ) → k < 24 → d (entry_place + k) ≡ get_or (entry_bytes p_de) k 0)
        × ((a : ℕ) → (a < entry_place) ⊎ (entry_place + 24 ≤ a) → d a ≡ v.disk a)
  unfolding sync_dir_entry write_over patched
  sync_dir_entry-over whole named =
      let bytes = entry_bytes p_de in
      let l : length bytes ≡ 24 =
        omega
          (arith, length-append p_de.filename (word_bytes (p_de.i_no ∷ p_de.f_type ∷ [])), named) in
      let inside = free_entry-inside dir_entry_cnt (ide_read v.disk lba 1) 0 idx f.free in
      let pos : InodePosition = record {
        two_sec = false;
        sec_lba = lba;
        off_size = idx * dir_entry_size;
      } in
      let fits : idx * 24 + length bytes ≤ 1 * 512 = omega (arith, l, inside.1) in
      let test : i.i_size % 24 == 0 ≡ true = ground (arith, whole) in
      (
        patched v.disk pos bytes,
        rw test (sync_blocks-over 140 0 (omega arith) (omega (arith, f.known))),
        (λ k below. patched_inside v.disk pos bytes fits k (omega (arith, l))),
        λ a apart. patched_outside v.disk pos bytes fits a (ground (arith, apart, l)),
      )
