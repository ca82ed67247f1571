-- ===== src/Guest/SpoolDev/Start.antt =====
-- SSCH to a spool device, from the start of the channel program to the interrupt at its end.
use hvf.Base.{
  sym, ℕ, ◌+◌, ◌*◌, ◌^◌, ◌<◌, ◌≡◌, refl, ap, ◌∙◌, ◌⊎◌, Bool, true, false, not, ◌||◌, List, [], ◌∷◌,
  ◌++◌, some, ◌==◌, if◌then◌else◌, Bytes, bit_and, bit_or, set, get_or, arith,
}
use mathlib.Core.Path.{subst}
use hvf.Errno.{success}
use hvf.Mm.Dat.{from_guest, memcpy_tofrom_guest}
use hvf.Guest.{has, VioInt, VdevType, Vdev, Sys, set_cc, set_vdev, find_vdev, replace_vdev}
use hvf.Guest.Layout.{decode_orb}
use hvf.Guest.Priv.{status_pending, in_progress, start_vdev, handle_ssch, queue_io_interrupt}
use hvf.Guest.Priv.Codes.{Names, with_vdev-Names, find-replace, find_vdev-sch}
use hvf.Guest.SpoolDev.{St, Host, begin, run, end_scsw, finish, spool_exec, normal_end}
use hvf.Guest.SpoolDev.Keeps.{Keeps, run-Keeps}

-- The interrupt that the end of the I/O of a device leaves in its subclass's queue.
abbrev pub io_int : Vdev → VioInt
io_int v = record {
  ssid = v.sch;
  param = v.pmcw.interrupt_param;
  intid = 0 * 2 ^ 31 + v.pmcw.isc * 2 ^ 27;
}

abbrev pub queued : List (List VioInt) → Vdev → List (List VioInt)
queued queues v = set queues v.pmcw.isc (get_or queues v.pmcw.isc [] ++ io_int v ∷ [])

-- How a subchannel stands once its I/O is over: the start function is kept, nothing is active, the
-- status is pending, and it is an alert unless the device and the channel ended normally.
pub record Ended (st : St) (w : Vdev) : Type 0 where
  pub fc : w.scsw.fc ≡ 0x4
  pub ac : w.scsw.ac ≡ 0
  pub pending : status_pending w ≡ true
  pub alert : has w.scsw.sc 0x10 ≡ (not (st.sch_status == 0) || not (st.dev_status == normal_end))
  pub dev_status : w.scsw.dev_status ≡ st.dev_status
  pub sch_status : w.scsw.sch_status ≡ st.sch_status

ended_sc :
    (b : Bool)
    → (has (if b then bit_or (bit_or 0 0x07) 0x10 else bit_or 0 0x07) 0x01 ≡ true)
      × (has (if b then bit_or (bit_or 0 0x07) 0x10 else bit_or 0 0x07) 0x10 ≡ b)
ended_sc true = (refl, refl)
ended_sc false = (refl, refl)

module _ (host : Host) (stack : Bytes) (fuel : ℕ) {sys : Sys} {addr : ℕ} {v : Vdev}
    (n : Names sys addr v) where
  -- The device as SSCH starts it.
  abbrev pub started : Vdev
  started =
      start_vdev
        (decode_orb (memcpy_tofrom_guest host.lra from_guest addr 0 32 sys.storage stack).buffer 0)
        v

  -- The state at the end.
  abbrev pub over : St → Vdev
  over st = record st.vdev { scsw = end_scsw host st }

  abbrev pub after : St → Sys
  after st = record st.sys {
    virt_devs = replace_vdev st.vdev.sch (over st) st.sys.virt_devs;
    cpu = record st.sys.cpu { int_io = queued st.sys.cpu.int_io st.vdev };
  }

  finish-after : (st : St) → st.vdev.pmcw.isc < 8 → finish host st ≡ some (success, after st)
  unfolding finish queue_io_interrupt
  finish-after st h = ground arith

  Ended-over : (st : St) → Keeps (begin host (set_vdev started sys) started) st → Ended st (over st)
  unfolding end_scsw begin start_vdev
  Ended-over st k =
      let failed = not (st.sch_status == 0) || not (st.dev_status == normal_end) in
      record {
        fc = ap (λ w. w.fc) k.scsw;
        ac = ap (λ w. bit_and w.ac 0x79) k.scsw;
        pending =
            ap (λ w. has (if failed then bit_or (bit_or w.sc 0x07) 0x10 else bit_or w.sc 0x07) 0x01)
              k.scsw
            ∙ (ended_sc failed).0;
        alert =
            ap (λ w. has (if failed then bit_or (bit_or w.sc 0x07) 0x10 else bit_or w.sc 0x07) 0x10)
              k.scsw
            ∙ (ended_sc failed).1;
        dev_status = refl;
        sch_status = refl;
      }

  found_over :
      (st : St)
      → Keeps (begin host (set_vdev started sys) started) st
      → find_vdev v.sch (after st).virt_devs ≡ some (over st)
  unfolding begin start_vdev
  found_over st k =
      let sch = find_vdev-sch _ sys.virt_devs v n.found in
      let at_v : find_vdev v.sch sys.virt_devs ≡ some v =
        subst (λ k. find_vdev k sys.virt_devs ≡ some v) (sym sch) n.found in
      let at_started = find-replace v.sch v.sch sys.virt_devs started v at_v refl refl in
      let at_begun =
        find-replace v.sch v.sch (set_vdev started sys).virt_devs
          (begin host (set_vdev started sys) started).vdev started at_started refl refl in
      find-replace st.vdev.sch v.sch st.sys.virt_devs (over st)
        (begin host (set_vdev started sys) started).vdev (rw k.devs at_begun) k.sch k.sch

  exec-after :
      (st : St)
      → host.grants_buffer ≡ true
      → v.pmcw.isc < 8
      → run host fuel (begin host (set_vdev started sys) started) ≡ some st
      → spool_exec host fuel (set_vdev started sys) started ≡ some (success, after st)
  unfolding spool_exec start_vdev
  exec-after st granted small ran =
      let k = run-Keeps host fuel _ st ran in
      simp (granted, ran) (finish-after st (rw (ap (λ p. p.isc) k.pmcw) small))

  after_cpu :
      (st : St)
      → Keeps (begin host (set_vdev started sys) started) st
      → (after st).cpu ≡ record sys.cpu { int_io = queued sys.cpu.int_io started }
  unfolding begin start_vdev
  after_cpu st k = ground (arith, k.cpu, k.pmcw, k.sch)

  -- SSCH to an idle console or spool device, once its channel program ends: condition code 0; the
  -- subchannel keeps the start function, has status pending, and is an alert exactly if the channel
  -- or the device did not end normally; and one I/O interrupt with the subchannel's number and the
  -- ORB's interruption parameter is put behind those of the subclass, with no other queue changed.
  pub ssch-Ended :
      (st : St)
      → (v.vtype ≡ VdevType.cons) ⊎ (v.vtype ≡ VdevType.spool)
      → (memcpy_tofrom_guest host.lra from_guest addr 0 32 sys.storage stack).fault ≡ false
      → status_pending v ≡ false
      → in_progress v ≡ false
      → host.grants_buffer ≡ true
      → v.pmcw.isc < 8
      → run host fuel (begin host (set_vdev started sys) started) ≡ some st
      → (handle_ssch host.lra stack (spool_exec host fuel) sys
          ≡ some (success, set_cc 0 (after st)))
        × (find_vdev v.sch (after st).virt_devs ≡ some (over st))
        × Ended st (over st)
        × ((after st).cpu ≡ record sys.cpu { int_io = queued sys.cpu.int_io started })
  unfolding handle_ssch spool_exec
  ssch-Ended st kind copied idle quiet granted small ran =
      let k = run-Keeps host fuel _ st ran in
      let ended = exec-after st granted small ran in
      (
        with_vdev-Names _ n ∙ ground (arith, ended),
        found_over st k,
        Ended-over st k,
        after_cpu st k,
      )
