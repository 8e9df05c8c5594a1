-- ===== src/Descriptors/Seek.antt =====
-- Where `sys_lseek` moves a file.
use mcy_os.Prelude.{ℕ, ◌^◌, ◌≤◌, ◌<◌, ◌≡◌, arith, minus_one, ok}
use mcy_os.Descriptors.{File, new_pos_of, lseek_file}

-- For a file of fewer than 2^31 bytes and one of the three modes: the new position is the sum of
-- the mode's base and the offset as 32-bit words. `sys_lseek` moves there and answers with it
-- exactly if it lies inside the file; otherwise it answers -1 and the file does not move.
pub lseek_file_lem :
    (size offset whence : ℕ) (pf : File)
    → size < 2 ^ 31
    → 1 ≤ whence
    → whence ≤ 3
    → offset < 2 ^ 32
    → (new_pos_of size offset whence pf < size
        → lseek_file size offset whence pf
          ≡ ok (
            record pf { fd_pos = new_pos_of size offset whence pf },
            new_pos_of size offset whence pf,
          ))
      × (size ≤ new_pos_of size offset whence pf
          → lseek_file size offset whence pf ≡ ok (pf, minus_one))
unfolding lseek_file new_pos_of
lseek_file_lem size offset whence pf small lo hi word = (λ h. ground arith, λ h. ground arith)
