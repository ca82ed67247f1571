-- ===== src/Guest/Intercept.antt =====
-- Dispatch of SIE interceptions, cp/guest/intercept.c and instruction.c, with the tables at the end
-- of cp/guest/instruction_priv.c, and the BEGIN and STOP operations of cp/guest/system.c.
use hvf.Base.{
  ℕ, ◌-◌, ◌/◌, ◌%◌, ◌<◌, ◌≡◌, ◌≢◌, ◌⊎◌, ◌&&◌, ◌||◌, Option, none, some, leb, ◌==◌, if◌then◌else◌,
  bit_and, Bytes, arith,
}
use hvf.Errno.{Errno, success, einval, failed}
use hvf.Guest.{stopped, operating, Vdev, Sys, Handled, set_state}
use hvf.Guest.Priv.{handle_msch, handle_ssch, handle_stsch, handle_tsch}

-- The handlers that only stop the CPU: program, instruction and program, external request and
-- interrupt, I/O request, validity, operation exception, expedited run and timer.
pub stop_cpu : Sys → Handled
stop_cpu sys = some (success, set_state stopped sys)

-- `handle_stop`: clears CPUSTAT_STOP_INT.
pub handle_stop : Sys → Handled
handle_stop sys = some (
  success,
  record sys {
    cpu = record sys.cpu { cpuflags = bit_and sys.cpu.cpuflags (0xffff_ffff - 0x0400_0000) };
  },
)

module _ (lra : ℕ → Option ℕ) (stack : Bytes) (exec : Sys → Vdev → Handled) where
  -- `handle_instruction_priv`: the second byte of the instruction.
  pub handle_instruction_priv : Sys → Handled
  handle_instruction_priv sys =
      let op = sys.cpu.ipa % 256 in
      if op == 0x32
      then handle_msch lra stack sys
      else if op == 0x33
      then handle_ssch lra stack exec sys
      else if op == 0x34
      then handle_stsch lra stack sys
      else if op == 0x35
      then handle_tsch sys
      else some (einval, sys)

  -- `handle_instruction`: the first byte.
  pub handle_instruction : Sys → Handled
  handle_instruction sys =
      if sys.cpu.ipa / 256 == 0xb2 then handle_instruction_priv sys else some (einval, sys)

  -- `intercept_funcs`; a NULL entry gives -EINVAL, and `none` is an index past the table's end.
  pub intercept : ℕ → Sys → Handled
  unfolding stop_cpu handle_stop
  intercept i sys =
      if leb 19 i
      then none
      else if i == 0 || (i == 7)
      then some (success, sys)
      else if i == 1
      then handle_instruction sys
      else if i == 10
      then handle_stop sys
      else if i == 9 || (leb 12 i && leb i 16)
      then some (einval, sys)
      else stop_cpu sys

  -- `handle_interception`: an error stops the CPU.
  pub handle_interception : Sys → Option Sys
  unfolding intercept
  handle_interception sys = elim (intercept (sys.cpu.icptcode / 4) sys) [
    | none ↦ none
    | some (err, sys') ↦ some (if failed err then set_state stopped sys' else sys')
  ]

  -- Every interception code of the table other than no-op, instruction, wait and stop stops the CPU
  -- and changes nothing else, whether the table has a handler for it or not; so does an instruction
  -- that the tables of instructions do not have.
  pub unhandled_stops :
      (sys : Sys)
      → sys.cpu.icptcode < 0x4c
      → (sys.cpu.icptcode / 4 ≢ 0) × (sys.cpu.icptcode / 4 ≢ 7) × (sys.cpu.icptcode / 4 ≢ 10)
      → (sys.cpu.icptcode / 4 ≡ 1
          → (sys.cpu.ipa / 256 ≢ 0xb2) ⊎ (sys.cpu.ipa % 256 < 0x32) ⊎ (0x35 < sys.cpu.ipa % 256))
      → handle_interception sys ≡ some (set_state stopped sys)
  unfolding handle_interception handle_instruction handle_instruction_priv
  unhandled_stops sys small codes op = ground arith

-- `guest_begin` and `guest_stop`
pub guest_begin : Sys → Errno × Sys
guest_begin sys = elim sys.cpu.state [
  | stopped ↦ (success, set_state operating sys)
  | operating ↦ (success, set_state operating sys)
  | _ ↦ (einval, sys)
]

pub guest_stop : Sys → Errno × Sys
guest_stop sys = elim sys.cpu.state [
  | stopped ↦ (success, set_state stopped sys)
  | operating ↦ (success, set_state stopped sys)
  | _ ↦ (einval, sys)
]
