-- ===== src/Errno.antt =====
-- include/errno.h: the error numbers, which the code returns negated.
use mathlib.Core.Bool.{Bool, true, false}

pub data Errno : Type 0 where
  success enomem ebusy eagain einval eexist enoent esubenoent eucheck efault eperm ecorrupt eio :
      Errno

-- `if (ret)`
abbrev pub failed : Errno → Bool
failed Errno.success = false
failed _ = true
