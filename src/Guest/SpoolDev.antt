-- ===== src/Guest/SpoolDev.antt =====
-- The control unit of spool devices, cp/drivers/spooldev.c and cp/drivers/spooldev_cons.c, with the
-- formats of channel command words of include/channel.h.
pub mod Ends
pub mod Keeps
pub mod Start
pub mod Unchained
use hvf.Base.{
  ℕ, zero, suc, ◌+◌, ◌-◌, ◌*◌, ◌/◌, ◌%◌, ◌^◌, Bool, true, false, not, ◌&&◌, ◌||◌, List, [], ◌∷◌,
  Option, none, some, min, ltb, leb, ◌==◌, if◌then◌else◌, Bytes, bit_and, bit_or,
}
use hvf.Errno.{Errno, success, enomem, failed}
use hvf.Mm.Dat.{Copy, to_guest, from_guest, memcpy_tofrom_guest}
use hvf.Fs.Spool.{SpoolFile, alloc_spool, Appended, spool_append_rec}
use hvf.Guest.{has, Scsw, Vdev, Sys, Handled, set_vdev}
use hvf.Guest.Layout.{be16, be32}
use hvf.Guest.Priv.{queue_io_interrupt}

-- `struct ccw`
pub record Ccw : Type 0 where
  pub cmd : ℕ
  pub flags : ℕ
  pub count : ℕ
  pub addr : ℕ

-- A format-1 CCW in storage.
unfoldable pub decode_ccw : Bytes → ℕ → Ccw
decode_ccw m a = record {
  cmd = m a;
  flags = m (a + 1);
  count = be16 m (a + 2);
  addr = be32 m (a + 4);
}

-- `struct ccw0` in storage, put through `ccw0_to_ccw1`: a TIC may have any upper half byte.
unfoldable pub decode_ccw0 : Bytes → ℕ → Ccw
decode_ccw0 m a = record {
  cmd = if m a % 16 == 0x08 then 0x08 else m a;
  flags = m (a + 4);
  count = be16 m (a + 6);
  addr = m (a + 1) * 2 ^ 16 + be16 m (a + 2);
}

-- SC_STATUS_CE | SC_STATUS_DE; with SC_STATUS_UC
abbrev pub normal_end : ℕ
normal_end = 0x0c

abbrev pub unit_check : ℕ
unit_check = 0x0e

abbrev pub prog_chk : ℕ
prog_chk = 0x20

abbrev pub prot_chk : ℕ
prot_chk = 0x10

-- `struct spdev_state` with what the loop works on: the system, the device, the buffer's storage,
-- and how many pages the allocator still grants.
pub record St : Type 0 where
  pub sys : Sys
  pub vdev : Vdev
  pub dev_status : ℕ
  pub sch_status : ℕ
  pub addr : ℕ
  pub f : ℕ
  pub rem : ℕ
  pub pos : ℕ
  pub cd : Bool
  pub tic2tic : Bool
  pub iobuf : Bytes
  pub avail : ℕ

-- What CP has from elsewhere: the LRA instruction, the contents of fresh storage and of local
-- variables, the allocator's answers, and where the channel buffer lies.
pub record Host : Type 0 where
  pub lra : ℕ → Option ℕ
  pub stack : Bytes
  pub fresh : Bytes
  pub avail : ℕ
  pub grants_buffer : Bool
  pub grants_file : Bool
  pub iobuf : ℕ

-- `spooldev_cmdrej`; SENSE_CMDREJ is 0.
abbrev pub cmdrej : St → St
cmdrej st = record st { dev_status = unit_check; vdev = record st.vdev { sense = 0x00 } }

-- How a round of the loop ends: the channel program is over, goes on, or CP stops at a BUG.
pub data Round : Type 0 where
  done : St → Round
  next : St → Round
  bug : Round

module _ (host : Host) where
  -- `open_spoolfile`
  unfoldable pub open_spoolfile : Vdev → Option Vdev
  open_spoolfile vdev = elim vdev.file [
    | some file ↦ some vdev
    | none ↦ if host.grants_file then some (record vdev { file = some alloc_spool }) else none
  ]

  -- The end of `cons_write`, after `spool_append_rec`.
  unfoldable pub cons_written : St → ℕ → Appended → St
  cons_written st len a =
      let st' = record st { vdev = record st.vdev { file = some a.file }; avail = a.avail } in
      if failed a.ret then cmdrej st' else record st' {
        dev_status = normal_end;
        rem = (st.rem + 2 ^ 32 - len) % 2 ^ 32;
        pos = (st.pos + len) % 2 ^ 32;
      }

  -- `none` is a BUG of the spool file.
  unfoldable pub cons_write : Ccw → St → Option St
  unfolding open_spoolfile cons_written
  cons_write ccw st =
      let len = min ccw.count 150 in
      if not (ccw.cmd == 0x01) then some (cmdrej st) else elim (open_spoolfile st.vdev) [
        | none ↦ some (cmdrej st)
        | some vdev ↦ elim vdev.file [
          | none ↦ none
          | some file ↦ elim (spool_append_rec host.fresh st.avail file st.iobuf host.iobuf len) [
            | none ↦ none
            | some a ↦ some (cons_written (record st { vdev = vdev }) len a)
          ]
        ]
      ]

  -- The operations vector: consoles have `cons_write` at 1 and nothing else.
  unfoldable pub execute : Ccw → St → Option St
  unfolding cons_write
  execute ccw st =
      if st.vdev.has_ops && (ccw.cmd % 16 == 0x1) then cons_write ccw st else some (cmdrej st)

  -- `__xfer_storage`, which always returns 0.
  unfoldable pub xfer_storage : Bool → Ccw → St → St
  xfer_storage write ccw st =
      let way = if write then from_guest else to_guest in
      let c =
        memcpy_tofrom_guest host.lra way ccw.addr host.iobuf ccw.count st.sys.storage st.iobuf in
      if ccw.count == 0
      then st
      else if ltb st.sys.storage_size ccw.addr
      then record st { sch_status = prog_chk }
      else record st {
        sys = record st.sys { storage = c.guest };
        iobuf = c.buffer;
        sch_status = if c.fault then prot_chk else st.sch_status;
        pos = 0;
        rem = c.copied;
      }

  -- `__get_ccw`: the address must fit the format and be a multiple of 8.
  unfoldable pub get_ccw : St → St × Ccw
  get_ccw st =
      let c = memcpy_tofrom_guest host.lra from_guest st.addr 0 8 st.sys.storage host.stack in
      let ccw = if st.f == 0 then decode_ccw0 c.buffer 0 else decode_ccw c.buffer 0 in
      let high = if st.f == 0 then st.addr / 2 ^ 24 else st.addr / 2 ^ 31 in
      if not (high == 0) || not (st.addr % 8 == 0)
      then (record st { sch_status = prog_chk }, ccw)
      else if c.fault
      then (record st { sch_status = prot_chk }, ccw)
      else (st, ccw)

  -- The checks between TIC and the operation; a true one is a program check. The last mask is every
  -- flag but chain-command and suppress-length-indication.
  unfoldable pub invalid : Ccw → St → Bool
  invalid ccw st =
      (not st.cd && (ccw.cmd % 16 == 0))
      || (st.f == 0 && (ccw.count == 0))
      || (not (st.f == 0) && st.cd && (ccw.count == 0))
      || (not (st.f == 0) && leb (2 ^ 31) ccw.addr)
      || has ccw.flags 0x9f

  -- What follows the operation: its status, a read's transfer, and chaining.
  unfoldable pub after_execute : Ccw → Option St → Round
  after_execute ccw none = bug
  after_execute ccw (some st) =
      let st' = if ccw.cmd % 4 == 0x2 then xfer_storage false ccw st else st in
      if not (st.dev_status == normal_end)
      then done st
      else if not (has ccw.flags 0xc0)
      then done st'
      else next (record st' { cd = has ccw.flags 0x80; addr = (st'.addr + 8) % 2 ^ 31 })

  -- From a write's transfer on; the command has passed the checks.
  unfoldable pub operate : Ccw → St → Round
  operate ccw st =
      after_execute ccw (execute ccw (if ccw.cmd % 4 == 0x1 then xfer_storage true ccw st else st))

  -- TIC, the checks, or the operation, once the CCW is there.
  unfoldable pub interpret : Ccw → St → Round
  interpret ccw st =
      if not (st.sch_status == 0)
      then done st
      else if ccw.cmd == 0x08
      then (if st.tic2tic || (not (st.f == 0) && (not (ccw.flags == 0) || not (ccw.count == 0)))
          then done (record st { sch_status = prog_chk })
          else next (record st { addr = ccw.addr; tic2tic = true }))
      else if invalid ccw st
      then done (record st { tic2tic = false; sch_status = prog_chk })
      else operate ccw (record st { tic2tic = false })

  -- One round: fetch, step, interpret.
  unfoldable pub round : St → Round
  round st =
      let (st', ccw) = get_ccw st in interpret ccw (record st' { addr = (st'.addr + 8) % 2 ^ 32 })

  -- The loop of `spool_exec`, on fuel: a channel program may go round for ever. `none` is a BUG or
  -- the end of the fuel.
  unfoldable pub run : ℕ → St → Option St
  run zero st = none
  run (suc fuel) st = elim (round st) [ done st' ↦ some st' | next st' ↦ run fuel st' | bug ↦ none ]

  -- The subchannel while the channel program runs, and what the loop starts from.
  unfoldable pub begin : Sys → Vdev → St
  begin sys vdev =
      let ac = bit_or (bit_and vdev.scsw.ac (0x7f - 0x20)) 0x06 in
      let vdev' = record vdev { scsw = record vdev.scsw { ac = ac } } in
      record {
        sys = set_vdev vdev' sys;
        vdev = vdev';
        dev_status = 0;
        sch_status = 0;
        addr = vdev.orb.addr;
        f = vdev.orb.f;
        rem = 0;
        pos = 0;
        cd = false;
        tic2tic = false;
        iobuf = host.fresh;
        avail = host.avail;
      }

  -- The subchannel status of a channel program that has ended.
  pub end_scsw : St → Scsw
  end_scsw st =
      let w = st.vdev.scsw in
      let sc = bit_or w.sc 0x07 in
      let alert = not (st.sch_status == 0) || not (st.dev_status == normal_end) in
      record w {
        ac = bit_and w.ac (0x7f - 0x06);
        sc = if alert then bit_or sc 0x10 else sc;
        dev_status = st.dev_status;
        sch_status = st.sch_status;
        addr = st.addr;
        count = st.rem % 2 ^ 16;
        f = st.f;
      }

  -- Behind `out:`, the interrupt is queued.
  pub finish : St → Handled
  unfolding end_scsw
  finish st =
      let vdev = record st.vdev { scsw = end_scsw st } in
      elim (queue_io_interrupt (set_vdev vdev st.sys) vdev.sch vdev.pmcw.interrupt_param 0
        vdev.pmcw.isc) [ none ↦ none | some sys ↦ some (success, sys) ]

  pub spool_exec : ℕ → Sys → Vdev → Handled
  unfolding begin finish
  spool_exec fuel sys vdev =
      if not host.grants_buffer
      then some (enomem, sys)
      else elim (run fuel (begin sys vdev)) [ none ↦ none | some st ↦ finish st ]
