-- ===== src/Pid.antt =====
-- thread/thread.c: the pool of process numbers. The lock around each operation is left out, so an
-- operation is one step.
pub mod Numbers
mod Tests
use mcy_os.Prelude.{
  ℕ, zero, suc, ◌+◌, ◌-◌, ◌*◌, ◌/◌, ◌%◌, ◌^◌, ◌≤◌, ◌<◌, ◌≡◌, refl, sym, ap, ap₂, subst, ◌∙◌, ◌≢◌,
  ◌↔◌, ◌⊎◌, inl, inr, Bool, true, false, not, ◌&&◌, ◌||◌, Option, none, some, List, [], ◌∷◌, ◌++◌,
  arith, dec_lt, ℕ_discrete, all_below, all_below_sound, ltb, leb, ◌==◌, if◌then◌else◌, ltb→lt,
  lt→ltb, le→not_ltb, ==_iff, ==_refl, ==_ne, Bool-cases, and_left, and_right, minus_one, add32,
  sub32, length, get_or, take, drop, replicate, length-append, length-set, get_or-set_self,
  get_or-set_ne, get_or-set, get_or_outside, length-replicate, get_or-replicate, Result, ok, panic,
  ◌>>=◌, ◌>>◌, assert,
}
use mcy_os.Bitmap.{Bitmap, scan, set, init}

-- `struct pid_pool`
pub record PidPool : Type 0 where
  pub pid_bitmap : Bitmap
  pub pid_start : ℕ

-- `pid_bitmap_bits` is an array of 128 zeros.
abbrev pub pid_pool_init : PidPool
pid_pool_init = record {
  pid_bitmap = init (record { btmp_bytes_len = 128; bits = replicate 128 0 });
  pid_start = 1;
}

-- The index is not tested for -1: with all numbers in use the source sets a bit far outside the map,
-- and the model stops. The number is a `pid_t` of 16 bits.
unfoldable pub allocate_pid : PidPool → Result (PidPool × ℕ)
allocate_pid p = do
  bit_idx ← scan p.pid_bitmap 1
  assert (not (bit_idx == minus_one))
  b ← set p.pid_bitmap bit_idx 1
  ok (record p { pid_bitmap = b }, add32 bit_idx p.pid_start % 2 ^ 16)

unfoldable pub release_pid : ℕ → PidPool → Result PidPool
release_pid pid p =
    set p.pid_bitmap (sub32 pid p.pid_start) 0 >>= λ b. ok (record p { pid_bitmap = b })
