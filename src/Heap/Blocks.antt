-- ===== src/Heap/Blocks.antt =====
-- The blocks of an arena as a list: they lie in its page, and none is listed twice.
use mcy_os.Prelude.{
  ℕ, zero, suc, ◌+◌, ◌%◌, ◌^◌, ◌≤◌, ◌<◌, ◌≡◌, refl, sym, ap, ◌∙◌, inl, inr, Bool, true, false, ◌&&◌,
  List, [], ◌∷◌, arith, ℕ_discrete, all_below, all_below_sound, leb, leb→le, Bool-cases, and_left,
  and_right, length,
}
use mcy_os.Memory.{pg_size}
use mcy_os.Memory.Arena.{
  desc_at-Fits, desc_at, block_desc_init, descs_from, arena2block, block2arena,
  block2arena-arena2block,
}
use mcy_os.Heap.{elem}
use mcy_os.Heap.Counts.{Nodup}

unfoldable pub blocks_from : ℕ → ℕ → ℕ → ℕ → List ℕ
blocks_from zero a i block_idx = []
blocks_from (suc left) a i block_idx =
    arena2block a (desc_at i) block_idx ∷ blocks_from left a i (block_idx + 1)

unfoldable pub blocks : ℕ → ℕ → List ℕ
blocks a i = blocks_from (desc_at i).block_per_arena a i 0

pub length-blocks_from : (left a i idx : ℕ) → length (blocks_from left a i idx) ≡ left
unfolding blocks_from
length-blocks_from zero a i idx = refl
length-blocks_from (suc left) a i idx = ap suc (length-blocks_from left a i (idx + 1))

elem-blocks_from :
    (b left a i idx : ℕ)
    → elem b (blocks_from left a i idx) ≡ true
    → (k : ℕ) × (idx ≤ k) × (k < idx + left) × (arena2block a (desc_at i) k ≡ b)
unfolding blocks_from
elem-blocks_from b zero a i idx within = cc
elem-blocks_from b (suc left) a i idx within = elim (ℕ_discrete (arena2block a (desc_at i) idx) b) [
  | yes here ↦ (idx, omega arith, omega arith, here)
  | no other ↦
      let (k, above, below, at) =
        elem-blocks_from b left a i (idx + 1) (ground (arith, within, other)) in
      (k, omega (arith, above), omega (arith, below), at)
]

module _ (a i : ℕ) (aligned : a % pg_size ≡ 0) (word : a < 2 ^ 32) (small : i < 7) where
  pub block2arena-elem : (b : ℕ) → elem b (blocks a i) ≡ true → block2arena b ≡ a
  unfolding blocks
  block2arena-elem b within =
      let (k, _, below, at) = elem-blocks_from b (desc_at i).block_per_arena a i 0 within in
      ap block2arena (sym at)
      ∙ (block2arena-arena2block a i k aligned word small (omega (arith, below))).0

  -- A block behind the head of its page is not null.
  pub elem-pos : (b : ℕ) → elem b (blocks a i) ≡ true → 0 < b
  unfolding blocks
  elem-pos b within =
      let (k, _, below, at) = elem-blocks_from b (desc_at i).block_per_arena a i 0 within in
      let behind = (block2arena-arena2block a i k aligned word small (omega (arith, below))).1 in
      omega (arith, behind, at)

  blocks_from-Nodup :
      (left idx : ℕ) → idx + left ≤ (desc_at i).block_per_arena → Nodup (blocks_from left a i idx)
  unfolding blocks_from
  blocks_from-Nodup zero idx fits = tt
  blocks_from-Nodup (suc left) idx fits =
      let b = arena2block a (desc_at i) idx in
      let new : elem b (blocks_from left a i (idx + 1)) ≡ false =
        elim (Bool-cases (elem b (blocks_from left a i (idx + 1)))) [
          | inr e ↦ e
          | inl within ↦
              let (k, above, below, at) = elem-blocks_from b left a i (idx + 1) within in
              let apart =
                (block2arena-arena2block a i idx aligned word small (omega (arith, fits))).3 k
                  (omega (arith, above)) (omega (arith, below, fits)) in
              absurd (omega (arith, apart, at, (desc_at-Fits i small).block_pos))
        ] in
      (new, blocks_from-Nodup left (idx + 1) (omega (arith, fits)))

  pub blocks-Nodup : Nodup (blocks a i)
  unfolding blocks
  blocks-Nodup = blocks_from-Nodup (desc_at i).block_per_arena 0 (omega arith)

pub length-blocks : (a i : ℕ) → length (blocks a i) ≡ (desc_at i).block_per_arena
unfolding blocks
length-blocks a i = length-blocks_from (desc_at i).block_per_arena a i 0

abbrev counts_fit : ℕ → Bool
counts_fit i = leb 1 (desc_at i).block_per_arena && leb (desc_at i).block_per_arena 255

all_counts_fit : all_below 7 counts_fit ≡ true
unfolding all_below block_desc_init descs_from
all_counts_fit = refl

pub per_arena_bounds :
    (i : ℕ) → i < 7 → (1 ≤ (desc_at i).block_per_arena) × ((desc_at i).block_per_arena ≤ 255)
per_arena_bounds i small =
    let fine = all_below_sound 7 counts_fit i all_counts_fit small in
    (leb→le _ _ (and_left _ _ fine), leb→le _ _ (and_right _ _ fine))
