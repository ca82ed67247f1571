-- ===== src/Nucleus/Io.antt =====
-- The queue of I/O operations of one device, cp/nucleus/io.c. The instructions behind `start_sch`
-- and `test_sch` are parameters: each event comes with what they return if they are called, and
-- with the error that a handler leaves.
pub mod Fifo
use hvf.Base.{
  ℕ, ◌+◌, ◌%◌, Bool, true, false, not, ◌&&◌, List, [], ◌∷◌, ◌++◌, Option, none, some, ◌==◌,
  if◌then◌else◌, bit_and,
}
use hvf.Errno.{Errno, success, eagain, eucheck, failed}

-- `struct io_op`: the parameter of its ORB, `err`, `done`, and whether it has a handler.
pub record IoOp : Type 0 where
  pub param : ℕ
  pub err : Errno
  pub done : Bool
  pub handler : Bool

-- The parts of `struct device` that the queue uses, and `op_id_counter`; an operation is its
-- address.
pub record Io : Type 0 where
  pub ops : ℕ → IoOp
  pub q_out : List ℕ
  pub q_cur : Option ℕ
  pub attention : ℕ
  pub op_id_counter : ℕ

abbrev pub with_op : ℕ → IoOp → (ℕ → IoOp) → ℕ → IoOp
with_op p op ops q = if p == q then op else ops q

-- `__submit_io`, where `start_sch` returns `err`.
unfoldable pub start_next : Errno → Io → Io
start_next err s = elim s.q_cur [
  | some cur ↦ s
  | none ↦ elim s.q_out [
    | [] ↦ s
    | op ∷ rest ↦
        if failed err
        then record s { ops = with_op op (record (s.ops op) { err = err }) s.ops }
        else record s { q_out = rest; q_cur = some op }
  ]
]

-- The operation is set up and goes to the end of the queue.
abbrev pub queued : ℕ → Io → Io
queued op s =
    let id = (s.op_id_counter + 1) % 4294967296 in
    record s {
      ops = with_op op (record (s.ops op) { param = id; err = success; done = false }) s.ops;
      q_out = s.q_out ++ op ∷ [];
      op_id_counter = id;
    }

-- `submit_io` up to the loop that waits for `done`.
unfoldable pub submit_io : ℕ → Errno → Io → Io
submit_io op err s = start_next err (queued op s)

-- `default_io_handler`
unfoldable pub default_io_handler : ℕ → Errno
default_io_handler dev_status =
    if not (bit_and dev_status 0x04 == 0)
    then success
    else if not (bit_and dev_status 0x02 == 0)
    then eucheck
    else eagain

-- An I/O interruption: its code, what `test_sch` returns, the device status of the IRB, the error
-- that the operation's own handler leaves, and what `start_sch` returns.
pub record Interrupt : Type 0 where
  pub int_param : ℕ
  pub tested : Errno
  pub dev_status : ℕ
  pub handled : Errno
  pub started : Errno

-- `ioop->err` behind the handlers of `__cpu_initiated_io`.
unfoldable pub op_err : Bool → Interrupt → Errno
op_err has_handler i =
    if failed i.tested
    then i.tested
    else if has_handler
    then i.handled
    else default_io_handler i.dev_status

unfoldable pub is_eagain : Errno → Bool
is_eagain eagain = true
is_eagain e = false

-- `__cpu_initiated_io`
unfoldable pub cpu_initiated_io : ℕ → Interrupt → Io → Io
cpu_initiated_io op i s =
    let err = op_err (s.ops op).handler i in
    let s1 = record s { ops = with_op op (record (s.ops op) { err = err }) s.ops } in
    if is_eagain err
    then s1
    else let s2 = start_next i.started (record s1 { q_cur = none }) in
      record s2 { ops = with_op op (record (s2.ops op) { done = true }) s2.ops }

-- The part of `__io_int_handler` for an operation that CP did not start; `none` is the BUG where
-- `test_sch` fails. What the device does about it is left out.
unfoldable pub unsolicited : Interrupt → Io → Option Io
unsolicited i s = if failed i.tested then none else some (record s { attention = s.attention + 1 })

-- `__io_int_handler` for this device.
unfoldable pub io_int_handler : Interrupt → Io → Option Io
io_int_handler i s = elim s.q_cur [
  | none ↦ unsolicited i s
  | some op ↦
      if (s.ops op).param == i.int_param then some (cpu_initiated_io op i s) else unsolicited i s
]
