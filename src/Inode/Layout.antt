-- ===== src/Inode/Layout.antt =====
-- Bytes of buffers and of the disk, and the words of an inode among them.
use mcy_os.Prelude.{
  ℕ, zero, suc, ◌+◌, ◌*◌, ◌/◌, ◌%◌, ◌^◌, ◌≤◌, ◌<◌, ◌≡◌, refl, ap, ◌∙◌, ◌⊎◌, inl, List, [], ◌∷◌,
  arith, length, get_or, set, length-set, get_or-set_self, get_or-set_ne,
}
use mcy_os.Inode.{Disk, read_bytes, copy_at, word_bytes, word_at}

pub length-read_bytes : (d : Disk) (start n : ℕ) → length (read_bytes d start n) ≡ n
length-read_bytes d start zero = refl
length-read_bytes d start (suc n) = ap suc (length-read_bytes d (start + 1) n)

pub get_or-read_bytes :
    (d : Disk) (start n i : ℕ) → i < n → get_or (read_bytes d start n) i 0 ≡ d (start + i)
get_or-read_bytes d start zero i h = absurd (omega arith)
get_or-read_bytes d start (suc n) zero h = ap d (omega arith)
get_or-read_bytes d start (suc n) (suc i) h =
    get_or-read_bytes d (start + 1) n i (omega arith) ∙ ap d (omega arith)

pub length-copy_at :
    (buf : List ℕ) (at : ℕ) (bytes : List ℕ) → length (copy_at buf at bytes) ≡ length buf
length-copy_at buf at [] = refl
length-copy_at buf at (b ∷ bytes) =
    length-copy_at (set buf at b) (at + 1) bytes ∙ length-set buf at b

pub get_or-copy_at_outside :
    (buf : List ℕ) (at : ℕ) (bytes : List ℕ) (j : ℕ)
    → (j < at) ⊎ (at + length bytes ≤ j)
    → get_or (copy_at buf at bytes) j 0 ≡ get_or buf j 0
get_or-copy_at_outside buf at [] j h = refl
get_or-copy_at_outside buf at (b ∷ bytes) j h =
    get_or-copy_at_outside (set buf at b) (at + 1) bytes j (ground arith)
    ∙ get_or-set_ne buf at j b 0 (λ e. absurd (ground (arith, h, e)))

pub get_or-copy_at_inside :
    (buf : List ℕ) (at : ℕ) (bytes : List ℕ) (i : ℕ)
    → i < length bytes
    → at + length bytes ≤ length buf
    → get_or (copy_at buf at bytes) (at + i) 0 ≡ get_or bytes i 0
get_or-copy_at_inside buf at [] i below h = absurd (omega arith)
get_or-copy_at_inside buf at (b ∷ bytes) zero below h =
    get_or-copy_at_outside (set buf at b) (at + 1) bytes (at + 0) (inl (omega arith))
    ∙ ap (λ j. get_or (set buf at b) j 0) (omega arith)
    ∙ get_or-set_self buf at b 0 (omega arith)
get_or-copy_at_inside buf at (b ∷ bytes) (suc i) below h =
    ap (λ j. get_or (copy_at (set buf at b) (at + 1) bytes) j 0) (omega arith)
    ∙ get_or-copy_at_inside (set buf at b) (at + 1) bytes i (omega arith)
        (omega (arith, length-set buf at b))

pub length-word_bytes : (ws : List ℕ) → length (word_bytes ws) ≡ length ws * 4
length-word_bytes [] = refl
length-word_bytes (w ∷ ws) = omega (arith, length-word_bytes ws)

four_later :
    (a b c d : ℕ) (rest : List ℕ) (i j : ℕ)
    → j ≡ 4 + i
    → get_or (a ∷ b ∷ c ∷ d ∷ rest) j 0 ≡ get_or rest i 0
four_later a b c d rest i j e =
    let e' : j ≡ suc (suc (suc (suc i))) = omega arith in
    ap (λ x. get_or (a ∷ b ∷ c ∷ d ∷ rest) x 0) e'

word_at_later :
    (a b c d : ℕ) (rest : List ℕ) (i j : ℕ)
    → j ≡ 4 + i
    → word_at (a ∷ b ∷ c ∷ d ∷ rest) j ≡ word_at rest i
word_at_later a b c d rest i j e = omega (
  arith,
  four_later a b c d rest i j e,
  four_later a b c d rest (i + 1) (j + 1) (omega arith),
  four_later a b c d rest (i + 2) (j + 2) (omega arith),
  four_later a b c d rest (i + 3) (j + 3) (omega arith),
)

-- The words of a list of words are found in their bytes.
pub word_at-word_bytes :
    (ws : List ℕ) (k : ℕ)
    → ((i : ℕ) → get_or ws i 0 < 2 ^ 32)
    → word_at (word_bytes ws) (k * 4) ≡ get_or ws k 0
word_at-word_bytes [] k h = refl
word_at-word_bytes (w ∷ ws) zero h = omega (arith, h 0)
word_at-word_bytes (w ∷ ws) (suc k) h =
    word_at_later (w % 256) (w / 2 ^ 8 % 256) (w / 2 ^ 16 % 256) (w / 2 ^ 24 % 256) (word_bytes ws)
      (k * 4) (suc k * 4) (omega arith)
    ∙ word_at-word_bytes ws k (λ i. h (suc i))

-- Two buffers with the same bytes hold the same words.
pub word_at_same :
    (b b' : List ℕ) (a a' : ℕ)
    → ((i : ℕ) → i < 4 → get_or b (a + i) 0 ≡ get_or b' (a' + i) 0)
    → word_at b a ≡ word_at b' a'
word_at_same b b' a a' h =
    let e0 : get_or b a 0 ≡ get_or b' a' 0 =
      ap (λ x. get_or b x 0) (omega arith)
      ∙ h 0 (omega arith)
      ∙ ap (λ x. get_or b' x 0) (omega arith) in
    omega (arith, e0, h 1 (omega arith), h 2 (omega arith), h 3 (omega arith))
