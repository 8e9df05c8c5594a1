-- ===== src/Inode/Fields.antt =====
-- The fields of an inode in a buffer.
use mcy_os.Prelude.{
  ℕ, zero, suc, ◌+◌, ◌*◌, ◌^◌, ◌≤◌, ◌<◌, ◌≡◌, refl, sym, ap, ap₂, ◌∙◌, List, [], ◌∷◌, ◌++◌, arith,
  length, get_or,
}
use mcy_os.Inode.{word_bytes, word_at, words_at, Inode, inode_words, inode_at, pure}
use mcy_os.Inode.Layout.{word_at-word_bytes, word_at_same}

-- The words of an inode fit, and it has thirteen sectors.
pub record IsInode (i : Inode) : Type 0 where
  pub number : i.i_no < 2 ^ 32
  pub size : i.i_size < 2 ^ 32
  pub addresses : (k : ℕ) → get_or i.i_sectors k 0 < 2 ^ 32
  pub sectors : length i.i_sectors ≡ 13

pub get_or-append : (xs ys : List ℕ) (k : ℕ) → k < length xs → get_or (xs ++ ys) k 0 ≡ get_or xs k 0
get_or-append [] ys k h = absurd (omega arith)
get_or-append (x ∷ xs) ys zero h = refl
get_or-append (x ∷ xs) ys (suc k) h = get_or-append xs ys k (omega arith)

-- The two words behind the sectors, which are 0.
tail_below :
    (xs : List ℕ)
    → ((k : ℕ) → get_or xs k 0 < 2 ^ 32)
    → (k : ℕ) → get_or (xs ++ 0 ∷ 0 ∷ []) k 0 < 2 ^ 32
tail_below [] h zero = omega arith
tail_below [] h (suc zero) = omega arith
tail_below [] h (suc (suc k)) = omega arith
tail_below (x ∷ xs) h zero = h 0
tail_below (x ∷ xs) h (suc k) = tail_below xs (λ j. h (suc j)) k

tail_zero : (xs : List ℕ) (k : ℕ) → length xs ≤ k → get_or (xs ++ 0 ∷ 0 ∷ []) k 0 ≡ 0
tail_zero [] zero h = refl
tail_zero [] (suc zero) h = refl
tail_zero [] (suc (suc k)) h = refl
tail_zero (x ∷ xs) zero h = absurd (omega arith)
tail_zero (x ∷ xs) (suc k) h = tail_zero xs k (omega arith)

tail_word :
    (i : Inode) (k : ℕ)
    → get_or (inode_words (pure i)) (4 + k) 0 ≡ get_or (i.i_sectors ++ 0 ∷ 0 ∷ []) k 0
tail_word i k =
    let e : 4 + k ≡ suc (suc (suc (suc k))) = omega arith in
    ap (λ j. get_or (inode_words (pure i)) j 0) e

pure_below : (i : Inode) → IsInode i → (k : ℕ) → get_or (inode_words (pure i)) k 0 < 2 ^ 32
pure_below i v zero = v.number
pure_below i v (suc zero) = v.size
pure_below i v (suc (suc zero)) = omega arith
pure_below i v (suc (suc (suc zero))) = omega arith
pure_below i v (suc (suc (suc (suc k)))) = tail_below i.i_sectors v.addresses k

words_at-is :
    (buf ws : List ℕ) (a : ℕ)
    → ((k : ℕ) → k < length ws → word_at buf (a + k * 4) ≡ get_or ws k 0)
    → words_at buf a (length ws) ≡ ws
words_at-is buf [] a h = refl
words_at-is buf (w ∷ ws) a h = ap₂ ◌∷◌ (ap (word_at buf) (omega arith) ∙ h 0 (omega arith)) (
    words_at-is buf ws (a + 4)
      (λ k below. ap (word_at buf) (omega arith) ∙ h (suc k) (omega arith)))

words_at_same :
    (b b' : List ℕ) (a a' n : ℕ)
    → ((i : ℕ) → i < n * 4 → get_or b (a + i) 0 ≡ get_or b' (a' + i) 0)
    → words_at b a n ≡ words_at b' a' n
words_at_same b b' a a' zero h = refl
words_at_same b b' a a' (suc n) h =
    ap₂ ◌∷◌ (word_at_same b b' a a' (λ i below. h i (omega arith))) (
      words_at_same b b' (a + 4) (a' + 4) n (λ i below.
        ap (λ j. get_or b j 0) (omega arith)
        ∙ h (4 + i) (omega arith)
        ∙ ap (λ j. get_or b' j 0) (omega arith)))

-- An inode is its 76 bytes.
pub inode_at_same :
    (b b' : List ℕ) (a a' : ℕ)
    → ((i : ℕ) → i < 76 → get_or b (a + i) 0 ≡ get_or b' (a' + i) 0)
    → inode_at b a ≡ inode_at b' a'
inode_at_same b b' a a' h =
    let shifted : (o i : ℕ) → o + i < 76 → get_or b (a + o + i) 0 ≡ get_or b' (a' + o + i) 0 =
      λ o i below.
        ap (λ j. get_or b j 0) (omega arith)
        ∙ h (o + i) below
        ∙ ap (λ j. get_or b' j 0) (omega arith) in
    rw (
      word_at_same b b' a a' (λ i below. h i (omega arith)),
      word_at_same b b' (a + 4) (a' + 4) (λ i below. shifted 4 i (omega arith)),
      word_at_same b b' (a + 8) (a' + 8) (λ i below. shifted 8 i (omega arith)),
      h 12 (omega arith),
      words_at_same b b' (a + 16) (a' + 16) 13 (λ i below. shifted 16 i (omega arith)),
      word_at_same b b' (a + 68) (a' + 68) (λ i below. shifted 68 i (omega arith)),
      word_at_same b b' (a + 72) (a' + 72) (λ i below. shifted 72 i (omega arith)),
    )

-- What `inode_sync` stores is read as the inode without its fields for the memory.
pub inode_at-pure :
    (i : Inode) → IsInode i → inode_at (word_bytes (inode_words (pure i))) 0 ≡ pure i
inode_at-pure i v =
    let bytes = word_bytes (inode_words (pure i)) in
    let word : (k : ℕ) → word_at bytes (k * 4) ≡ get_or (inode_words (pure i)) k 0 =
      λ k. word_at-word_bytes (inode_words (pure i)) k (pure_below i v) in
    let sectors : words_at bytes 16 13 ≡ i.i_sectors =
      ap (words_at bytes 16) (sym v.sectors)
      ∙ words_at-is bytes i.i_sectors 16 (λ k below.
        ap (word_at bytes) (omega arith)
        ∙ word (4 + k)
        ∙ tail_word i k
        ∙ get_or-append i.i_sectors (0 ∷ 0 ∷ []) k below) in
    rw (
      word 0,
      word 1,
      word 2,
      sectors,
      word 17 ∙ tail_zero i.i_sectors 13 (omega (arith, v.sectors)),
      word 18 ∙ tail_zero i.i_sectors 14 (omega (arith, v.sectors)),
    )
