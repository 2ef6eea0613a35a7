-- ===== src/Kernel/Errno.antt =====
-- kernel/include/klibc/errno.h
use ziemniak.Base.{ℕ}

abbrev pub eio : ℕ
eio = 1

abbrev pub einval : ℕ
einval = 2

abbrev pub eperm : ℕ
eperm = 3

abbrev pub enotsup : ℕ
enotsup = 4
