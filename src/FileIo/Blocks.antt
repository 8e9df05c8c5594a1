-- ===== src/FileIo/Blocks.antt =====
-- The addresses of the blocks of an inode, and what `blocks_to_read` collects of them.
use mcy_os.Prelude.{
  ℕ, zero, suc, ◌+◌, ◌-◌, ◌*◌, ◌≤◌, ◌<◌, ◌≡◌, refl, sym, ap, ◌∙◌, ◌≢◌, ◌⊎◌, inl, true, not, List,
  arith, dec_lt, ℕ_discrete, ltb, ◌==◌, if◌then◌else◌, length, get_or, set, length-set,
  get_or-set_self, get_or-set_ne, length-replicate, ok,
}
use mcy_os.Inode.{Disk, ide_read, words_at, word_at, Inode}
use mcy_os.Inode.Layout.{length-copy_at, get_or-copy_at_outside, get_or-copy_at_inside}
use mcy_os.FileIo.{no_blocks, direct_blocks, read_table, blocks_to_read}

-- The address of a block: in the inode, or in the table that its last sector holds.
abbrev pub block_of : Inode → Disk → ℕ → ℕ
block_of i d idx =
    if ltb idx 12
    then get_or i.i_sectors idx 0
    else word_at (ide_read d (get_or i.i_sectors 12 0) 1) ((idx - 12) * 4)

length-words_at : (buf : List ℕ) (a n : ℕ) → length (words_at buf a n) ≡ n
length-words_at buf a zero = refl
length-words_at buf a (suc n) = ap suc (length-words_at buf (a + 4) n)

get_or-words_at :
    (buf : List ℕ) (a n k : ℕ) → k < n → get_or (words_at buf a n) k 0 ≡ word_at buf (a + k * 4)
get_or-words_at buf a zero k h = absurd (omega arith)
get_or-words_at buf a (suc n) zero h = ap (word_at buf) (omega arith)
get_or-words_at buf a (suc n) (suc k) h =
    get_or-words_at buf (a + 4) n k (omega arith) ∙ ap (word_at buf) (omega arith)

pub length-direct_blocks :
    (left idx : ℕ) (i_sectors all : List ℕ)
    → length (direct_blocks left idx i_sectors all) ≡ length all
unfolding direct_blocks
length-direct_blocks zero idx i_sectors all = refl
length-direct_blocks (suc left) idx i_sectors all =
    length-direct_blocks left (idx + 1) i_sectors (set all idx (get_or i_sectors idx 0))
    ∙ length-set all idx (get_or i_sectors idx 0)

direct_blocks_outside :
    (left idx : ℕ) (i_sectors all : List ℕ) (k : ℕ)
    → (k < idx) ⊎ (idx + left ≤ k)
    → get_or (direct_blocks left idx i_sectors all) k 0 ≡ get_or all k 0
unfolding direct_blocks
direct_blocks_outside zero idx i_sectors all k h = refl
direct_blocks_outside (suc left) idx i_sectors all k h =
    direct_blocks_outside left (idx + 1) i_sectors (set all idx (get_or i_sectors idx 0)) k
      (ground arith)
    ∙ get_or-set_ne all idx k (get_or i_sectors idx 0) 0 (λ e. absurd (ground (arith, h, e)))

direct_blocks_inside :
    (left idx : ℕ) (i_sectors all : List ℕ) (k : ℕ)
    → idx + left ≤ length all
    → idx ≤ k
    → k < idx + left
    → get_or (direct_blocks left idx i_sectors all) k 0 ≡ get_or i_sectors k 0
unfolding direct_blocks
direct_blocks_inside zero idx i_sectors all k fits h h' = absurd (omega arith)
direct_blocks_inside (suc left) idx i_sectors all k fits h h' =
    let all' = set all idx (get_or i_sectors idx 0) in
    elim (ℕ_discrete k idx) [
      | yes e ↦
          direct_blocks_outside left (idx + 1) i_sectors all' k (inl (omega arith))
          ∙ ap (λ j. get_or all' j 0) e
          ∙ get_or-set_self all idx (get_or i_sectors idx 0) 0 (omega arith)
          ∙ ap (λ j. get_or i_sectors j 0) (sym e)
      | no ne ↦
          direct_blocks_inside left (idx + 1) i_sectors all' k
            (omega (arith, length-set all idx (get_or i_sectors idx 0))) (ground (arith, ne))
            (omega arith)
    ]

pub length-read_table :
    (d : Disk) (table : ℕ) (all : List ℕ) → length (read_table d table all) ≡ length all
unfolding read_table
length-read_table d table all = length-copy_at all 12 (words_at (ide_read d table 1) 0 128)

pub read_table_direct :
    (d : Disk) (table : ℕ) (all : List ℕ) (k : ℕ)
    → k < 12
    → get_or (read_table d table all) k 0 ≡ get_or all k 0
unfolding read_table
read_table_direct d table all k h =
    get_or-copy_at_outside all 12 (words_at (ide_read d table 1) 0 128) k (inl h)

pub read_table_indirect :
    (d : Disk) (table : ℕ) (all : List ℕ) (k : ℕ)
    → length all ≡ 140
    → k < 128
    → get_or (read_table d table all) (12 + k) 0 ≡ word_at (ide_read d table 1) (k * 4)
unfolding read_table
read_table_indirect d table all k l h =
    let ws = words_at (ide_read d table 1) 0 128 in
    let size : length ws ≡ 128 = length-words_at (ide_read d table 1) 0 128 in
    get_or-copy_at_inside all 12 ws k (omega (arith, size)) (omega (arith, size))
    ∙ get_or-words_at (ide_read d table 1) 0 128 k h
    ∙ ap (word_at (ide_read d table 1)) {x = 0 + k * 4} {y = k * 4} (omega arith)

pub length-no_blocks : length no_blocks ≡ 140
unfolding no_blocks
length-no_blocks = length-replicate 140 zero

-- A table read behind direct blocks.
pub with_table :
    (i : Inode) (d : Disk) (all : List ℕ) (s k : ℕ)
    → length all ≡ 140
    → ((j : ℕ) → s ≤ j → j < 12 → get_or all j 0 ≡ get_or i.i_sectors j 0)
    → s ≤ k
    → k < 140
    → get_or (read_table d (get_or i.i_sectors 12 0) all) k 0 ≡ block_of i d k
with_table i d all s k l direct from below = elim (dec_lt k 12) [
  | yes h ↦
      ground (arith, read_table_direct d (get_or i.i_sectors 12 0) all k h, direct k from h, h)
  | no h ↦
      let at : 12 + (k - 12) ≡ k = omega (arith, h) in
      let e : get_or (read_table d (get_or i.i_sectors 12 0) all) k 0
          ≡ word_at (ide_read d (get_or i.i_sectors 12 0) 1) ((k - 12) * 4) =
        ap (λ j. get_or (read_table d (get_or i.i_sectors 12 0) all) j 0) (sym at)
        ∙ read_table_indirect d (get_or i.i_sectors 12 0) all (k - 12) l (omega (arith, h)) in
      ground (arith, e, h)
]

-- `blocks_to_read` collects the address of every block that is read.
pub blocks_to_read_lem :
    (i : Inode) (d : Disk) (s e : ℕ)
    → s ≤ e
    → e < 139
    → (12 ≤ e → get_or i.i_sectors 12 0 ≢ 0)
    → (all : List ℕ) × (blocks_to_read i d s e ≡ ok all)
      × ((k : ℕ) → s ≤ k → k ≤ e → get_or all k 0 ≡ block_of i d k)
unfolding blocks_to_read
blocks_to_read_lem i d s e order small table =
    let t = get_or i.i_sectors 12 0 in
    let l = length-no_blocks in
    elim (dec_lt e 12) [
      | yes direct ↦ elim (ℕ_discrete s e) [
        | yes same ↦ (
          set no_blocks e (get_or i.i_sectors e 0),
          ground (arith, same, direct),
          λ k above below.
              let at : k ≡ e = omega (arith, same) in
              ap (λ j. get_or (set no_blocks e (get_or i.i_sectors e 0)) j 0) at
              ∙ get_or-set_self no_blocks e (get_or i.i_sectors e 0) 0 (omega (arith, l, direct))
              ∙ ground (arith, direct, at),
        )
        | no other ↦ (
          direct_blocks (e + 1 - s) s i.i_sectors no_blocks,
          ground (arith, other, direct),
          λ k above below.
              direct_blocks_inside (e + 1 - s) s i.i_sectors no_blocks k (omega (arith, l, direct))
                above (omega (arith, order))
              ∙ ground (arith, direct),
        )
      ]
      | no indirect ↦
          let has_table : not (t == 0) ≡ true = ground (arith, table (omega (arith, indirect))) in
          elim (ℕ_discrete s e) [
            | yes same ↦ (
              read_table d t no_blocks,
              ground (arith, same, indirect),
              λ k above below.
                  with_table i d no_blocks 12 k l (λ j h h'. absurd (omega arith))
                    (omega (arith, same, indirect)) (omega arith),
            )
            | no other ↦ elim (dec_lt s 12) [
              | yes across ↦ (
                read_table d t (direct_blocks (12 - s) s i.i_sectors no_blocks),
                ground (arith, other, indirect, across, has_table),
                λ k above below.
                    with_table i d (direct_blocks (12 - s) s i.i_sectors no_blocks) s k
                      (length-direct_blocks (12 - s) s i.i_sectors no_blocks ∙ l)
                      (λ j h h'.
                        direct_blocks_inside (12 - s) s i.i_sectors no_blocks j
                          (omega (arith, l, across)) h (omega (arith, h', across)))
                      above (omega arith),
              )
              | no behind ↦ (
                read_table d t no_blocks,
                ground (arith, other, indirect, behind, has_table),
                λ k above below.
                    with_table i d no_blocks 12 k l (λ j h h'. absurd (omega arith))
                      (omega (arith, behind)) (omega arith),
              )
            ]
          ]
    ]
