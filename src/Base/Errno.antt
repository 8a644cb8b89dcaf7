-- ===== src/Base/Errno.antt =====
-- Error numbers. A status 0 is success, and a status n stands for the C return value -n.
use Prim.Native.Nat.{ℕ}

abbrev pub enoent : ℕ
enoent = 2

abbrev pub eagain : ℕ
eagain = 11

abbrev pub enomem : ℕ
enomem = 12

abbrev pub enodev : ℕ
enodev = 19

abbrev pub einval : ℕ
einval = 22

abbrev pub erange : ℕ
erange = 34

abbrev pub etimedout : ℕ
etimedout = 110
