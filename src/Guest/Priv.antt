-- ===== src/Guest/Priv.antt =====
-- The channel instructions that CP simulates, cp/guest/instruction_priv.c, and what they share of
-- cp/include/vcpu.h and cp/guest/exception.c.
pub mod Codes
pub mod Modify
pub mod Store
use hvf.Base.{
  ℕ, ◌+◌, ◌-◌, ◌*◌, ◌/◌, ◌%◌, ◌^◌, Bool, true, false, not, ◌&&◌, ◌||◌, List, [], ◌∷◌, ◌++◌, Option,
  none, some, ltb, leb, ◌==◌, if◌then◌else◌, Bytes, bit_and, set, get_or,
}
use hvf.Errno.{Errno, success, enomem}
use hvf.Mm.Dat.{Copy, to_guest, from_guest, memcpy_tofrom_guest}
use hvf.Guest.{
  has, CpuState, Psw, VioInt, Cpu, Pmcw, Scsw, zero_scsw, Orb, VdevType, Vdev, Sys, Handled,
  set_state, set_cc, find_vdev, set_vdev,
}
use hvf.Guest.Layout.{decode_pmcw, encode_pmcw, encode_scsw, decode_orb}

-- CPUSTAT_ZARCH
abbrev pub zarch : Cpu → Bool
zarch cpu = has cpu.cpuflags 0x800

-- `__guest_gpr`
unfoldable pub guest_gpr : Cpu → ℕ → ℕ
guest_gpr cpu i = if zarch cpu then cpu.gpr i else cpu.gpr i % 2 ^ 32

-- `__guest_addr`: the mask by the addressing mode. `none` is its BUG.
unfoldable pub guest_addr : Cpu → ℕ → ℕ → ℕ → Option ℕ
unfolding guest_gpr
guest_addr cpu disp x b =
    let index = if x == 0 then 0 else guest_gpr cpu x in
    let base = if b == 0 then 0 else guest_gpr cpu b in
    let sum = (disp + index + base) % 2 ^ 64 in
    let mode = cpu.gpsw.ea * 2 + cpu.gpsw.ba in
    if mode == 3
    then some sum
    else if mode == 1
    then some (sum % 2 ^ 31)
    else if mode == 0
    then some (sum % 2 ^ 24)
    else none

-- `RAW_S_1`: the operand address of an S-format instruction.
unfoldable pub raw_s_1 : Cpu → Option ℕ
unfolding guest_addr
raw_s_1 cpu =
    let raw = cpu.ipa * 2 ^ 32 + cpu.ipb in
    guest_addr cpu (raw / 2 ^ 16 % 2 ^ 12) (raw / 2 ^ 28 % 16) 0

-- `queue_prog_exception`: for now it stops the guest's CPU.
abbrev pub queue_prog_exception : Sys → Sys
queue_prog_exception sys = set_state CpuState.stopped sys

-- `queue_io_interrupt`; the allocation of the `vio_int` is taken to succeed.
unfoldable pub queue_io_interrupt : Sys → ℕ → ℕ → ℕ → ℕ → Option Sys
queue_io_interrupt sys ssid param a isc =
    let int_ : VioInt = record { ssid = ssid; param = param; intid = a * 2 ^ 31 + isc * 2 ^ 27 } in
    let queues = sys.cpu.int_io in
    if leb 8 isc
    then none
    else if ltb 1 a
    then none
    else some (record sys {
      cpu = record sys.cpu { int_io = set queues isc (get_or queues isc [] ++ int_ ∷ []) };
    })

-- The first part of all four handlers: the subchannel number in general register 1, the operand
-- address, and the device. Condition code 3 says that there is none.
unfoldable pub with_vdev : Sys → (ℕ → Vdev → Handled) → Handled
unfolding raw_s_1
with_vdev sys rest =
    let r1 = guest_gpr sys.cpu 1 in
    elim (raw_s_1 sys.cpu) [
      | none ↦ none
      | some addr ↦
          if not (r1 / 2 ^ 16 % 2 ^ 16 == 1)
          then some (success, queue_prog_exception sys)
          else if not (addr % 4 == 0)
          then some (success, queue_prog_exception sys)
          else elim (find_vdev (r1 % 2 ^ 32) sys.virt_devs) [
            | none ↦ some (success, set_cc 3 sys)
            | some vdev ↦ rest addr vdev
          ]
    ]

abbrev pub sc_status : ℕ
sc_status = 0x01

abbrev pub sc_intermed : ℕ
sc_intermed = 0x08

-- FC_START, FC_HALT and FC_CLEAR
abbrev pub fc_any : ℕ
fc_any = 0x7

abbrev pub status_pending : Vdev → Bool
status_pending v = has v.scsw.sc sc_status

abbrev pub in_progress : Vdev → Bool
in_progress v = has v.scsw.fc fc_any

-- What MSCH takes over from the guest's PMCW.
unfoldable pub modify_pmcw : Pmcw → Pmcw → Pmcw
modify_pmcw p g = record p {
  interrupt_param = g.interrupt_param;
  e = g.e;
  isc = g.isc;
  d = g.d;
  lpm = g.lpm;
  pom = g.pom;
  lm = g.lm;
  mm = g.mm;
  f = g.f;
  x = g.x;
  s = g.s;
  mbi = g.mbi;
}

-- The subchannel as SSCH sets it up for the I/O.
unfoldable pub start_vdev : Orb → Vdev → Vdev
start_vdev gorb vdev = record vdev {
  scsw = record zero_scsw { fc = 0x4; ac = 0x20 };
  pmcw = record vdev.pmcw { interrupt_param = gorb.param };
  orb = gorb;
}

-- `lra` translates guest addresses; `stack` is what the handlers' local variables hold at first.
module _ (lra : ℕ → Option ℕ) (stack : Bytes) where
  unfoldable pub handle_msch : Sys → Handled
  unfolding with_vdev modify_pmcw
  handle_msch sys = with_vdev sys λ addr vdev.
      let copy = memcpy_tofrom_guest lra from_guest addr 0 52 sys.storage stack in
      let gpmcw = decode_pmcw copy.buffer 0 in
      if copy.fault
      then some (success, queue_prog_exception sys)
      else if status_pending vdev
      then some (success, set_cc 1 sys)
      else if in_progress vdev
      then some (success, set_cc 2 sys)
      else if gpmcw.v == 0
      then some (success, set_cc 0 sys)
      else some
          (success, set_cc 0 (set_vdev (record vdev { pmcw = modify_pmcw vdev.pmcw gpmcw }) sys))

  -- `exec` is `spool_exec`, on the system and the device.
  unfoldable pub handle_ssch : (Sys → Vdev → Handled) → Sys → Handled
  unfolding with_vdev start_vdev
  handle_ssch exec sys = with_vdev sys λ addr vdev.
      let copy = memcpy_tofrom_guest lra from_guest addr 0 32 sys.storage stack in
      let started = start_vdev (decode_orb copy.buffer 0) vdev in
      let run : Handled = elim (exec (set_vdev started sys) started) [
        | none ↦ none
        | some (ret, sys') ↦ some (ret, set_cc 0 sys')
      ] in
      if copy.fault
      then some (success, queue_prog_exception sys)
      else if status_pending vdev
      then some (success, set_cc 1 sys)
      else if in_progress vdev
      then some (success, set_cc 2 sys)
      else elim vdev.vtype [
        | VdevType.cons ↦ run
        | VdevType.spool ↦ run
        | _ ↦ some (success, set_state CpuState.stopped (set_vdev started sys))
      ]

  -- The PMCW goes to offset 0 and the SCSW to offset 28 of the guest's SCHIB.
  pub handle_stsch : Sys → Handled
  unfolding with_vdev
  handle_stsch sys = with_vdev sys λ addr vdev.
      let first = memcpy_tofrom_guest lra to_guest addr 0 28 sys.storage (encode_pmcw vdev.pmcw) in
      let second =
        memcpy_tofrom_guest lra to_guest (addr + 28) 0 12 first.guest (encode_scsw vdev.scsw) in
      let stored = record sys { storage = second.guest } in
      if first.fault
      then some (success, queue_prog_exception (record sys { storage = first.guest }))
      else if second.fault
      then some (success, queue_prog_exception stored)
      else some (success, set_cc 0 stored)

-- How TSCH clears the function, activity and status control of a subchannel with status pending.
pub clear_status : Scsw → Scsw
clear_status w =
    let no_intermed = not (has w.sc sc_intermed) in
    let fc = if no_intermed || (has w.fc 0x2 && has w.ac 0x01) then 0 else w.fc in
    let ac =
      if no_intermed
      then bit_and w.ac (0x7f - 0x78)
      else if has w.ac 0x01 && has w.fc 0x4
      then (if has w.fc 0x2 then bit_and w.ac (0x7f - 0x78) else bit_and w.ac (0x7f - 0x40))
      else w.ac in
    record w { fc = fc; ac = ac; sc = bit_and w.sc (0x1f - 0x01) }

pub handle_tsch : Sys → Handled
unfolding with_vdev clear_status
handle_tsch sys = with_vdev sys λ addr vdev.
    if status_pending vdev
    then some (success, set_cc 0 (set_vdev (record vdev { scsw = clear_status vdev.scsw }) sys))
    else some (success, set_cc 1 sys)
