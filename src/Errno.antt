-- ===== src/Errno.antt =====
-- include/errno.h: the error codes that the kernel returns, as the patterns of negative `int`s.
use zeos_soa.Base.{ℕ, neg}

abbrev pub esrch : ℕ
esrch = neg 3

abbrev pub ebadf : ℕ
ebadf = neg 9

abbrev pub eagain : ℕ
eagain = neg 11

abbrev pub enomem : ℕ
enomem = neg 12

abbrev pub eacces : ℕ
eacces = neg 13

abbrev pub efault : ℕ
efault = neg 14

abbrev pub einval : ℕ
einval = neg 22

abbrev pub enosys : ℕ
enosys = neg 38
