-- ===== src/Descriptors.antt =====
-- The tables of open files: fs/file.c (the slots), fs/fs.c (fd_local2global, sys_lseek) and
-- shell/pipe.c (is_pipe, sys_fd_redirect). A table is the list of its entries; -1 marks a free local
-- descriptor. The size of an inode is a parameter of `sys_lseek`.
pub mod Slots
pub mod Seek
mod Tests
use mcy_os.Prelude.{
  ℕ, zero, suc, ◌+◌, ◌-◌, ◌*◌, ◌/◌, ◌%◌, ◌^◌, ◌≤◌, ◌<◌, ◌≡◌, refl, sym, ap, ap₂, subst, ◌∙◌, ◌≢◌,
  ◌↔◌, ◌⊎◌, inl, inr, Bool, true, false, not, ◌&&◌, ◌||◌, Option, none, some, List, [], ◌∷◌, ◌++◌,
  arith, dec_lt, ℕ_discrete, all_below, all_below_sound, ltb, leb, ◌==◌, if◌then◌else◌, ltb→lt,
  lt→ltb, le→not_ltb, ==_iff, ==_refl, ==_ne, Bool-cases, and_left, and_right, minus_one, add32,
  sub32, length, get_or, set, take, drop, replicate, length-append, length-set, get_or-set_self,
  get_or-set_ne, get_or-set, get_or_outside, length-replicate, get_or-replicate, Result, ok, panic,
  ◌>>=◌, ◌>>◌, assert,
}
use mcy_os.LinkedList.{Ptr, null}

-- `struct file`
pub record File : Type 0 where
  pub fd_pos : ℕ
  pub fd_flag : ℕ
  pub fd_inode : Ptr

abbrev pub no_file : File
no_file = record { fd_pos = 0; fd_flag = 0; fd_inode = null }

-- The loop of `get_free_slot_in_global`, with the rounds left.
unfoldable pub free_slot_from : ℕ → ℕ → List File → ℕ
free_slot_from zero fd_idx file_table = minus_one
free_slot_from (suc left) fd_idx file_table =
    let rest = free_slot_from left (fd_idx + 1) file_table in
    if (get_or file_table fd_idx no_file).fd_inode == null then fd_idx else rest

-- `MAX_FILE_OPEN` is 32.
unfoldable pub get_free_slot_in_global : List File → ℕ
get_free_slot_in_global file_table = free_slot_from 29 3 file_table

-- The loop of `pcb_fd_install`: the table after it and the descriptor.
unfoldable pub install_from : ℕ → ℕ → ℕ → List ℕ → List ℕ × ℕ
install_from zero local_fd_idx global_fd_idx fd_table = (fd_table, minus_one)
install_from (suc left) local_fd_idx global_fd_idx fd_table =
    let rest = install_from left (local_fd_idx + 1) global_fd_idx fd_table in
    if get_or fd_table local_fd_idx 0 == minus_one
    then (set fd_table local_fd_idx global_fd_idx, local_fd_idx)
    else rest

-- `MAX_FILES_OPEN_PER_PROC` is 8.
unfoldable pub pcb_fd_install : ℕ → List ℕ → List ℕ × ℕ
pcb_fd_install global_fd_idx fd_table = install_from 5 3 global_fd_idx fd_table

-- A negative entry is a pattern of at least 2^31.
unfoldable pub fd_local2global : ℕ → List ℕ → Result ℕ
fd_local2global local_fd fd_table =
    let global_fd = get_or fd_table local_fd 0 in assert (ltb global_fd 32) >> ok global_fd

unfoldable pub is_pipe : ℕ → List ℕ → List File → Result Bool
is_pipe local_fd fd_table file_table =
    fd_local2global local_fd fd_table >>= λ g. ok ((get_or file_table g no_file).fd_flag == 0xffff)

unfoldable pub sys_fd_redirect : ℕ → ℕ → List ℕ → List ℕ
sys_fd_redirect old_local_fd new_local_fd fd_table =
    if ltb new_local_fd 3
    then set fd_table old_local_fd new_local_fd
    else set fd_table old_local_fd (get_or fd_table new_local_fd 0)

-- Signed words are compared by their patterns moved up by 2^31.
abbrev pub signed_lt : ℕ → ℕ → Bool
signed_lt a b = ltb ((a + 2 ^ 31) % 2 ^ 32) ((b + 2 ^ 31) % 2 ^ 32)

-- `sys_lseek` on the file of the descriptor: the file after it and the answer.
unfoldable pub new_pos_of : ℕ → ℕ → ℕ → File → ℕ
new_pos_of file_size offset whence pf =
    if whence == 1
    then offset
    else if whence == 2
    then add32 pf.fd_pos offset
    else add32 file_size offset

unfoldable pub lseek_file : ℕ → ℕ → ℕ → File → Result (File × ℕ)
lseek_file file_size offset whence pf =
    let new_pos = new_pos_of file_size offset whence pf in
    assert (ltb 0 whence && ltb whence 4)
    >> (if signed_lt new_pos 0 || signed_lt (sub32 file_size 1) new_pos
        then ok (pf, minus_one)
        else ok (record pf { fd_pos = new_pos }, new_pos))

-- A negative descriptor is refused before anything else.
unfoldable pub sys_lseek : (Ptr → ℕ) → ℕ → ℕ → ℕ → List ℕ → List File → Result (List File × ℕ)
sys_lseek i_size fd offset whence fd_table file_table =
    let seek = fd_local2global fd fd_table >>= λ g.
    let pf = get_or file_table g no_file in
    lseek_file (i_size pf.fd_inode) offset whence pf >>= λ r. ok (set file_table g (r.0), r.1) in
    if signed_lt fd 0 then ok (file_table, minus_one) else seek
