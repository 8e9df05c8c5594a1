-- ===== src/Ide/Chains.antt =====
-- What `partition_scan` of device/ide.c finds: the primary partitions of a table, and the logical
-- partitions of a chain of extended tables.
use mcy_os.Prelude.{
  ℕ, suc, ◌+◌, ◌≤◌, ◌<◌, ◌≡◌, refl, ap, ◌∙◌, ◌≢◌, Bool, true, false, List, [], ◌∷◌, ◌++◌, arith,
  leb, if◌then◌else◌, ==_ne, add32, length, Result, ok, panic,
}
use mathlib.Core.List.{append_assoc}
use mcy_os.Inode.{Disk}
use mcy_os.Ide.{max_lba}
use mcy_os.Ide.Partitions.{
  TableEntry, table_entry, DiskPart, PartScan, add_primary, add_logical, scan_entries,
  partition_scan,
}

-- A logical partition behind the table at `at`, the one with the index `n`.
unfoldable pub logical : ℕ → ℕ → TableEntry → DiskPart
logical at n p = record { part_lba = add32 at p.entry_lba; part_cnt = p.entry_cnt; number = n + 5 }

abbrev pub IsUsed : TableEntry → Type 0
IsUsed p = (p.fs_type ≢ 0) × (p.fs_type ≢ 5)

-- The tables at these sectors are a chain: each has a partition and then the place of the next
-- table, from the base of the extended partition on; the last one has no next table.
abbrev pub Chain : Disk → ℕ → ℕ → List ℕ → Type 0
Chain d base at [] =
    IsUsed (table_entry d at 0)
    × ((table_entry d at 1).fs_type ≡ 0)
    × ((table_entry d at 2).fs_type ≡ 0)
    × ((table_entry d at 3).fs_type ≡ 0)
    × (at ≢ 0)
    × (at ≤ max_lba)
Chain d base at (next ∷ rest) =
    IsUsed (table_entry d at 0)
    × ((table_entry d at 1).fs_type ≡ 5)
    × (add32 (table_entry d at 1).entry_lba base ≡ next)
    × ((table_entry d at 2).fs_type ≡ 0)
    × ((table_entry d at 3).fs_type ≡ 0)
    × (at ≢ 0)
    × (at ≤ max_lba)
    × Chain d base next rest

-- The partitions of a chain, numbered from `n` on.
unfoldable pub chain_parts : Disk → ℕ → ℕ → List ℕ → List DiskPart
chain_parts d n at [] = logical at n (table_entry d at 0) ∷ []
chain_parts d n at (next ∷ rest) =
    logical at n (table_entry d at 0) ∷ chain_parts d (n + 1) next rest

-- The loop of a scan at an entry of each kind.
module _ (scan : ℕ → PartScan → Result PartScan) (d : Disk) (at left i : ℕ) (s : PartScan) where
  at_unused :
      (table_entry d at i).fs_type ≡ 0
      → scan_entries scan d at (suc left) i s ≡ scan_entries scan d at left (i + 1) s
  unfolding scan_entries
  at_unused e = rw e refl

  at_logical :
      IsUsed (table_entry d at i)
      → at ≢ 0
      → scan_entries scan d at (suc left) i s ≡ (
          if leb 8 (add_logical (table_entry d at i) at s).l_no
          then ok (add_logical (table_entry d at i) at s)
          else scan_entries scan d at left (i + 1) (add_logical (table_entry d at i) at s))
  unfolding scan_entries
  at_logical (some_type, no_link) ne =
      rw (==_ne _ _ no_link, ==_ne _ _ some_type, ==_ne _ _ ne) refl

  at_link :
      (s' : PartScan)
      → (table_entry d at i).fs_type ≡ 5
      → s.ext_lba_base ≢ 0
      → scan (add32 (table_entry d at i).entry_lba s.ext_lba_base) s ≡ ok s'
      → scan_entries scan d at (suc left) i s ≡ scan_entries scan d at left (i + 1) s'
  unfolding scan_entries
  at_link s' e based found = rw (e, ==_ne _ _ based, found) refl

scan_start :
    (fuel : ℕ) (d : Disk) (at : ℕ) (s : PartScan)
    → at ≤ max_lba
    → partition_scan (suc fuel) d at s ≡ scan_entries (partition_scan fuel d) d at 4 0 s
unfolding partition_scan
scan_start fuel d at s low = let inside : leb at max_lba ≡ true = ground arith in rw inside refl

scan_end :
    (scan : ℕ → PartScan → Result PartScan) (d : Disk) (at i : ℕ) (s : PartScan)
    → scan_entries scan d at 0 i s ≡ ok s
unfolding scan_entries
scan_end scan d at i s = refl

if-same {ℓ} : {A : Type ℓ} (b : Bool) (x y : A) → x ≡ y → (if b then x else y) ≡ y
if-same true x y e = e
if-same false x y e = refl

-- The scan of a chain of tables, whose extended partition begins at a sector that is not 0, and
-- whose partitions are at most eight with those found before, does not stop the machine. It appends
-- the partitions of the chain to the list in the order of the tables, each at its place behind its
-- table, and numbers them from 5 on.
pub partition_scan-Chain :
    (d : Disk) (rest : List ℕ) (at : ℕ) (s : PartScan)
    → s.ext_lba_base ≢ 0
    → Chain d s.ext_lba_base at rest
    → s.l_no + length rest < 8
    → (s' : PartScan) × (partition_scan (suc (length rest)) d at s ≡ ok s')
      × (s'.partition_list ≡ s.partition_list ++ chain_parts d s.l_no at rest)
      × (s'.l_no ≡ s.l_no + length rest + 1)
      × (s'.p_no ≡ s.p_no)
unfolding add_logical chain_parts logical
partition_scan-Chain d [] at s based (used, e1, e2, e3, ne, low) room =
    let s1 = add_logical (table_entry d at 0) at s in
    let scan = partition_scan 0 d in
    let tail : scan_entries scan d at 3 1 s1 ≡ ok s1 =
      at_unused scan d at 2 1 s1 e1
      ∙ at_unused scan d at 1 2 s1 e2
      ∙ at_unused scan d at 0 3 s1 e3
      ∙ scan_end scan d at 4 s1 in
    (
      s1,
      scan_start 0 d at s low
          ∙ at_logical scan d at 3 0 s used ne
          ∙ ap (λ (r : Result PartScan). if leb 8 s1.l_no then ok s1 else r) tail
          ∙ if-same (leb 8 s1.l_no) (ok s1) (ok s1) refl,
      refl,
      omega (arith, room),
      refl,
    )
partition_scan-Chain d (next ∷ rest) at s based (used, e1, link, e2, e3, ne, low, chain) room =
    let s1 = add_logical (table_entry d at 0) at s in
    let (s', e, parts, count, prim) =
      partition_scan-Chain d rest next s1 based chain (omega (arith, room)) in
    let scan = partition_scan (suc (length rest)) d in
    let more : leb 8 s1.l_no ≡ false = ground (arith, room) in
    let numbered : s1.l_no ≡ s.l_no + 1 = omega (arith, room) in
    (
      s',
      scan_start (suc (length rest)) d at s low
          ∙ at_logical scan d at 3 0 s used ne
          ∙ rw more (
              at_link scan d at 2 1 s1 s' e1 based (ap (λ (a : ℕ). scan a s1) link ∙ e)
              ∙ at_unused scan d at 1 2 s' e2
              ∙ at_unused scan d at 0 3 s' e3
              ∙ scan_end scan d at 4 s'),
      parts
          ∙ append_assoc s.partition_list (logical at s.l_no (table_entry d at 0) ∷ []) _
          ∙ ap
              (λ (n : ℕ).
                s.partition_list
                ++ logical at s.l_no (table_entry d at 0) ∷ chain_parts d n next rest)
              numbered,
      omega (arith, count, room),
      prim,
    )

-- A table at sector 0 whose four entries are primary partitions stops the machine, whatever else
-- the disk holds.
pub partition_scan_four :
    (d : Disk) (fuel : ℕ) (s : PartScan)
    → s.p_no ≡ 0
    → ((i : ℕ) → i < 4 → IsUsed (table_entry d 0 i))
    → partition_scan (suc fuel) d 0 s ≡ panic
unfolding partition_scan scan_entries add_primary
partition_scan_four d fuel s fresh used =
    ground (
      arith,
      used 0 (omega arith),
      used 1 (omega arith),
      used 2 (omega arith),
      used 3 (omega arith),
    )
