-- ===== src/Nucleus/Ldep.antt =====
-- The lock dependency tracker, cp/nucleus/ldep.c and cp/include/ldep.h, for one task. Its messages
-- and its spin lock are left out. `none` is a write past the end of `lock_stack`.
pub mod Order
use hvf.Base.{
  ℕ, zero, suc, ◌+◌, ◌-◌, ◌*◌, ◌/◌, ◌%◌, ◌^◌, Bool, true, false, List, [], ◌∷◌, Option, none, some,
  ltb, ◌==◌, if◌then◌else◌, length, get_or, set, min,
}

-- `LDEP_STACK_SIZE`
abbrev pub ldep_stack_size : ℕ
ldep_stack_size = 10

-- `struct held_lock`, four pointers.
pub record HeldLock : Type 0 where
  pub ra : ℕ
  pub lock : ℕ
  pub lockname : ℕ
  pub lclass : ℕ

-- `ldep_enabled`, and `nr_locks` and `lock_stack` of the current task.
pub record Ldep : Type 0 where
  pub enabled : Bool
  pub nr_locks : ℕ
  pub lock_stack : List HeldLock

abbrev pub no_lock : HeldLock
no_lock = record { ra = 0; lock = 0; lockname = 0; lclass = 0 }

-- Whether a lock of the class is among the `n` from slot `i` on.
unfoldable pub class_held : ℕ → List HeldLock → ℕ → ℕ → Bool
class_held c slots zero i = false
class_held c slots (suc n) i =
    let rest = class_held c slots n (i + 1) in
    if (get_or slots i no_lock).lclass == c then true else rest

-- `__get_stack_slot`: what it returns, and the number of locks.
abbrev pub get_stack_slot : ℕ → Bool × ℕ
get_stack_slot nr_locks = ((nr_locks + 1) == ldep_stack_size, nr_locks + 1)

-- The slot at `nr_locks - 1` is written.
unfoldable pub push_lock : HeldLock → Bool × ℕ → Ldep → Option Ldep
push_lock h slot s =
    if slot.0
    then some (record s { nr_locks = slot.1 })
    else if ltb (slot.1 - 1) ldep_stack_size
    then some (record s { nr_locks = slot.1; lock_stack = set s.lock_stack (slot.1 - 1) h })
    else none

unfoldable pub ldep_lock : HeldLock → Ldep → Option Ldep
ldep_lock h s =
    if s.enabled
    then if class_held h.lclass s.lock_stack s.nr_locks 0
      then some (record s { enabled = false })
      else push_lock h (get_stack_slot s.nr_locks) s
    else some s

-- The first of the `n` slots from `i` on that has the lock.
unfoldable pub find_lock : ℕ → List HeldLock → ℕ → ℕ → Option ℕ
find_lock lock slots zero i = none
find_lock lock slots (suc n) i =
    let rest = find_lock lock slots n (i + 1) in
    if (get_or slots i no_lock).lock == lock then some i else rest

-- A pointer of which the first `n` bytes, at most 8, are those of another.
abbrev pub mix : ℕ → ℕ → ℕ → ℕ
mix n new old = let low = 256 ^ (8 - min 8 n) in new / low * low + old % low

-- `memcpy` of the first `n` bytes of a slot, for `n` up to the size of a slot.
abbrev pub copy_slot : ℕ → HeldLock → HeldLock → HeldLock
copy_slot n new old = record {
  ra = mix n new.ra old.ra;
  lock = mix (n - 8) new.lock old.lock;
  lockname = mix (n - 16) new.lockname old.lockname;
  lclass = mix (n - 24) new.lclass old.lclass;
}

-- From the label `found` of `ldep_unlock`.
unfoldable pub drop_lock : ℕ → Ldep → Ldep
drop_lock i s = record s {
  nr_locks = s.nr_locks - 1;
  lock_stack =
      if i == (s.nr_locks - 1)
      then s.lock_stack
      else set s.lock_stack i (
          copy_slot (s.nr_locks - i - 1) (get_or s.lock_stack (i + 1) no_lock)
            (get_or s.lock_stack i no_lock));
}

unfoldable pub ldep_unlock : ℕ → Ldep → Ldep
ldep_unlock lock s =
    if s.enabled
    then elim (find_lock lock s.lock_stack s.nr_locks 0) [
      | none ↦ record s { enabled = false }
      | some i ↦ drop_lock i s
    ]
    else s

unfoldable pub ldep_no_locks : Ldep → Ldep
ldep_no_locks s =
    if s.enabled then if s.nr_locks == 0 then s else record s { enabled = false } else s

-- `ldep_on`
abbrev pub ldep_on : Ldep → Ldep
ldep_on s = record s { enabled = true }
