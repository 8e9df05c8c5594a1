-- ===== src/Inode/Open.antt =====
-- Opening and closing on the list of open inodes.
use mcy_os.Prelude.{
  ℕ, ◌+◌, ◌-◌, ◌^◌, ◌≤◌, ◌<◌, ◌≡◌, refl, ap, inl, inr, true, false, none, some, List, [], ◌∷◌,
  arith, ◌==◌, if◌then◌else◌, Bool-cases, add32, sub32, ok,
}
use mcy_os.Inode.{Disk, Inode, Partition, inode_load, reopen, inode_open, inode_close}

-- How often an inode is open.
abbrev pub count_of : ℕ → List Inode → ℕ
count_of n [] = 0
count_of n (i ∷ rest) = if i.i_no == n then i.i_open_cnts else count_of n rest

-- Each open inode is open at least once, and one more does not wrap.
abbrev pub Counted : List Inode → Type 0
Counted [] = Unit
Counted (i ∷ rest) = (1 ≤ i.i_open_cnts) × (i.i_open_cnts < 2 ^ 32 - 1) × Counted rest

abbrev raised : Inode → Inode
raised i = record i { i_open_cnts = add32 i.i_open_cnts 1 }

-- One close undoes one count.
close_head :
    (i : Inode) (n : ℕ) (rest : List Inode)
    → 1 ≤ i.i_open_cnts
    → i.i_open_cnts < 2 ^ 32 - 1
    → (i.i_no == n) ≡ true
    → inode_close n (raised i ∷ rest) ≡ i ∷ rest
unfolding inode_close
close_head i n rest lo hi e =
    let back : sub32 (add32 i.i_open_cnts 1) 1 ≡ i.i_open_cnts = omega arith in
    let still : (i.i_open_cnts == 0) ≡ false = ground arith in rw (e, back, still)

-- The search raises the count of the inode or does not find it.
data Searched (n : ℕ) (opens : List Inode) : Type 0 where
  hit :
      (r : List Inode)
      → reopen n opens ≡ some r
      → inode_close n r ≡ opens
      → count_of n r ≡ count_of n opens + 1
      → Searched n opens
  miss : reopen n opens ≡ none → count_of n opens ≡ 0 → Searched n opens

search : (n : ℕ) (opens : List Inode) → Counted opens → Searched n opens
unfolding reopen inode_close
search n [] c = miss refl refl
search n (i ∷ rest) c = elim (Bool-cases (i.i_no == n)) [
  | inl e ↦
      hit (raised i ∷ rest) (rw e) (close_head i n rest (c.0) (c.1) e)
        (rw e (omega (arith, c.0, c.1)))
  | inr e ↦ elim (search n rest (c.2)) [
    | hit r found closed counted ↦
        hit (i ∷ r) (rw (e, found)) (rw e (ap (λ x. i ∷ x) closed)) (rw e counted)
    | miss not_found zero_count ↦ miss (rw (e, not_found)) (rw e zero_count)
  ]
]

-- Where the inode on the disk has the number it is stored under, and each open inode is open at
-- least once and fewer than 2^32 - 1 times, `inode_open` raises the number of times that the inode is
-- open by one, and `inode_close` then puts the list of open inodes back as it was.
pub inode_close-inode_open :
    (part : Partition) (n : ℕ) (d : Disk) (opens : List Inode) (i : Inode)
    → Counted opens
    → inode_load part n d ≡ ok i
    → i.i_no ≡ n
    → (r : List Inode) × (inode_open part n d opens ≡ ok r)
      × (count_of n r ≡ count_of n opens + 1)
      × (inode_close n r ≡ opens)
unfolding inode_open inode_close
inode_close-inode_open part n d opens i c loaded named = elim (search n opens c) [
  | hit r found closed counted ↦ (r, rw (found, inode_open), counted, closed)
  | miss not_found zero_count ↦
      let same : (i.i_no == n) ≡ true = ground (arith, named) in
      (
        record i { i_open_cnts = 1 } ∷ opens,
        rw (not_found, loaded, inode_open),
        rw same (omega (arith, zero_count)),
        rw same,
      )
]
