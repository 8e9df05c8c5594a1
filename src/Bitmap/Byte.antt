-- ===== src/Bitmap/Byte.antt =====
-- One byte of a bit map: what setting and testing a bit do to it, checked over all values.
use Prim.Native.Nat.{bit_and, bit_and-bitwise}
use mcy_os.Prelude.{
  ℕ, ◌<◌, ◌≡◌, refl, Bool, true, false, ◌&&◌, ◌||◌, not, arith, ltb, ltb→lt, ◌==◌, if◌then◌else◌,
  all_below, all_below_sound,
}
use mcy_os.Bitmap.{mask, first_clear, set_byte}

same : Bool → Bool → Bool
same true b = b
same false b = not b

same_sound : (a b : Bool) → same a b ≡ true → a ≡ b
unfolding same
same_sound a b h = ground arith

-- Bit `q` of a byte is clear.
abbrev pub clear : ℕ → ℕ → Bool
clear x q = bit_and x (mask q) == 0

check_set : ℕ → ℕ → ℕ → ℕ → Bool
unfolding set_byte same
check_set v x p q = same (clear (set_byte x p v) q) (if p == q then v == 0 else clear x q)

table_set :
    all_below 2 (λ v. all_below 256 (λ x. all_below 8 (λ p. all_below 8 (check_set v x p)))) ≡ true
unfolding all_below check_set
table_set = refl

pub clear-set_byte :
    (v x p q : ℕ)
    → v < 2
    → x < 256
    → p < 8
    → q < 8
    → clear (set_byte x p v) q ≡ (if p == q then v == 0 else clear x q)
unfolding check_set
clear-set_byte v x p q hv hx hp hq = same_sound _ _ (
    all_below_sound 8 (check_set v x p) q
      (all_below_sound 8 (λ p. all_below 8 (check_set v x p)) p
        (all_below_sound 256 (λ x. all_below 8 (λ p. all_below 8 (check_set v x p))) x
          (all_below_sound 2 _ v table_set hv) hx)
        hp)
      hq)

table_set_byte :
    all_below 2 (λ v. all_below 256 (λ x. all_below 8 (λ p. ltb (set_byte x p v) 256))) ≡ true
unfolding all_below set_byte
table_set_byte = refl

pub set_byte-lt : (v x p : ℕ) → v < 2 → x < 256 → p < 8 → set_byte x p v < 256
set_byte-lt v x p hv hx hp = ltb→lt _ _ (
    all_below_sound 8 (λ p. ltb (set_byte x p v) 256) p
      (all_below_sound 256 (λ x. all_below 8 (λ p. ltb (set_byte x p v) 256)) x
        (all_below_sound 2 _ v table_set_byte hv) hx)
      hp)

-- A byte that is not full: the position found is clear, and those below it are set.
check_first : ℕ → ℕ → Bool
unfolding first_clear
check_first x q =
    let p = first_clear 8 x 0 in ltb p 8 && clear x p && (not (ltb q p) || not (clear x q))

split_first :
    (p x q : ℕ)
    → (ltb p 8 && clear x p && (not (ltb q p) || not (clear x q))) ≡ true
    → (p < 8) × (clear x p ≡ true) × (q < p → clear x q ≡ false)
split_first p x q h = ground arith

table_first : all_below 255 (λ x. all_below 8 (check_first x)) ≡ true
unfolding all_below check_first
table_first = refl

pub first_clear_lem :
    (x q : ℕ)
    → x < 255
    → q < 8
    → let p = first_clear 8 x 0 in (p < 8) × (clear x p ≡ true) × (q < p → clear x q ≡ false)
unfolding check_first
first_clear_lem x q hx hq =
    split_first (first_clear 8 x 0) x q (all_below_sound 8 (check_first x) q row hq)
  where
    row : all_below 8 (check_first x) ≡ true
    row = all_below_sound 255 (λ x. all_below 8 (check_first x)) x table_first hx

table_full : all_below 8 (λ q. not (clear 255 q)) ≡ true
unfolding all_below
table_full = refl

pub clear_full : (q : ℕ) → q < 8 → clear 255 q ≡ false
clear_full q h = ground (arith, all_below_sound 8 (λ q. not (clear 255 q)) q table_full)

pub clear_zero : (q : ℕ) → clear 0 q ≡ true
clear_zero q = rw (bit_and-bitwise 0 (mask q))
