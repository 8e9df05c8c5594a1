-- ===== src/Pid/Tests.antt =====
-- A pool in which number 1 is in use.
use mcy_os.Prelude.{
  ℕ, zero, suc, ◌<◌, refl, sym, ap, subst, ◌∷◌, arith, get_or, replicate, length-replicate,
  get_or-replicate,
}
use mcy_os.Pid.{PidPool}
use mcy_os.Pid.Numbers.{IsPidPool}

abbrev zero_byte : ℕ
zero_byte = 0

abbrev one_used : PidPool
one_used = record {
  pid_bitmap = record { btmp_bytes_len = 128; bits = 0x01 ∷ replicate 127 zero_byte };
  pid_start = 1;
}

one_used_bytes : (i : ℕ) → get_or one_used.pid_bitmap.bits i 0 < 256
one_used_bytes zero = omega arith
one_used_bytes (suc i) = subst (λ b. b < 256) (sym (get_or-replicate 127 i zero_byte)) (omega arith)

one_used-IsPidPool : IsPidPool one_used
one_used-IsPidPool = record {
  valid = record {
    sized = ap suc (length-replicate 127 zero_byte);
    small = omega arith;
    bytes = one_used_bytes;
  };
  sized = refl;
  start = refl;
}
