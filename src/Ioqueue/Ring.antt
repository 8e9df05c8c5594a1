-- ===== src/Ioqueue/Ring.antt =====
-- The bytes between two positions of the ring.
use mcy_os.Prelude.{
  ℕ, zero, suc, ◌+◌, ◌-◌, ◌%◌, ◌≤◌, ◌<◌, ◌≡◌, refl, ap, ap₂, List, [], ◌∷◌, ◌++◌, arith, length,
  get_or, set, get_or-set_ne,
}
use mcy_os.Ioqueue.{bufsize, next_pos}

-- `k` bytes from `pos` on, going round at the end of the buffer.
abbrev pub segment : List ℕ → ℕ → ℕ → List ℕ
segment buf pos zero = []
segment buf pos (suc k) = get_or buf pos 0 ∷ segment buf (next_pos pos) k

pub length-segment : (buf : List ℕ) (pos k : ℕ) → length (segment buf pos k) ≡ k
length-segment buf pos zero = refl
length-segment buf pos (suc k) = ap suc (length-segment buf (next_pos pos) k)

-- A write at a place that lies `k` or more steps behind `pos` is not seen.
pub segment-set_apart :
    (buf : List ℕ) (i v pos k : ℕ)
    → i < bufsize
    → pos < bufsize
    → k ≤ (i + bufsize - pos) % bufsize
    → segment (set buf i v) pos k ≡ segment buf pos k
segment-set_apart buf i v pos zero hi hp h = refl
segment-set_apart buf i v pos (suc k) hi hp h =
    ap₂ ◌∷◌ (get_or-set_ne buf i pos v 0 (omega arith))
      (segment-set_apart buf i v (next_pos pos) k hi (omega arith) (omega arith))

-- One byte more at the end.
pub segment-snoc :
    (buf : List ℕ) (pos k e : ℕ)
    → pos < bufsize
    → e ≡ (pos + k) % bufsize
    → segment buf pos (suc k) ≡ segment buf pos k ++ get_or buf e 0 ∷ []
segment-snoc buf pos zero e hp h = let same : pos ≡ e = omega arith in rw same
segment-snoc buf pos (suc k) e hp h =
    ap (λ r. get_or buf pos 0 ∷ r) (segment-snoc buf (next_pos pos) k e (omega arith) (omega arith))
