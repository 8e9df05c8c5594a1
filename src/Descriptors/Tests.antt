-- ===== src/Descriptors/Tests.antt =====
-- A task with the three standard descriptors and one open file.
use mcy_os.Prelude.{ℕ, ◌≡◌, refl, List, [], ◌∷◌, minus_one}
use mcy_os.Descriptors.{File, sys_fd_redirect}

abbrev descriptors : List ℕ
descriptors = 0 ∷ 1 ∷ 2 ∷ 5 ∷ minus_one ∷ minus_one ∷ minus_one ∷ minus_one ∷ []

abbrev file : File
file = record { fd_pos = 10; fd_flag = 2; fd_inode = 0x5000 }

-- Standard output goes where descriptor 3 goes.
redirect_out :
    sys_fd_redirect 1 3 descriptors
    ≡ 0 ∷ 5 ∷ 2 ∷ 5 ∷ minus_one ∷ minus_one ∷ minus_one ∷ minus_one ∷ []
unfolding sys_fd_redirect
redirect_out = refl
