-- ===== src/Examples/Channel.antt =====
-- The channel instructions on the console of a small machine.
use hvf.Base.{
  if◌then◌else◌, ◌==◌, ◌+◌, ◌≡◌, ◌≢◌, refl, ◌⊎◌, inl, true, false, [], ◌∷◌, none, some, arith,
}
use hvf.Errno.{success}
use hvf.Guest.{has, Vdev, Sys, set_cc, set_vdev, find_vdev}
use hvf.Guest.Layout.{decode_pmcw, decode_scsw, decode_orb}
use hvf.Guest.Layout.RoundTrip.{SamePmcw}
use hvf.Mm.Dat.{from_guest, memcpy_tofrom_guest, copy_loop, copy_round}
use hvf.Guest.Priv.{
  with_vdev, modify_pmcw, start_vdev, raw_s_1, guest_gpr, guest_addr, handle_msch, handle_ssch,
  handle_stsch,
}
use hvf.Guest.Priv.Codes.{Names}
use hvf.Guest.Priv.Modify.{SameFixed, msch-SameFixed}
use hvf.Guest.Priv.Store.{stsch-decode}
use hvf.Guest.SpoolDev.{
  Host, St, bug, round, run, begin, get_ccw, spool_exec, interpret, operate, after_execute, execute,
  cons_write, xfer_storage, invalid, cons_written, open_spoolfile, decode_ccw0, decode_ccw,
}
use hvf.Guest.SpoolDev.Keeps.{Keeps, run-Keeps}
use hvf.Guest.SpoolDev.Start.{started, over, after, queued, Ended, ssch-Ended}
use hvf.Guest.SpoolDev.Unchained.{ssch_unchained}
use hvf.Examples.Fixtures.{
  zeros, real, console, cpu, storage, machine, console_found, alert_scsw, alert_scsw-FitsScsw,
  zero_pmcw-FitsPmcw,
}

console-Names : Names machine 0x400 console
unfolding raw_s_1 guest_gpr guest_addr find_vdev
console-Names = record { operand = refl; aligned = refl; one = refl; found = refl }

-- The console with status pending.
abbrev ended : Vdev
ended = record console { scsw = alert_scsw }

abbrev ended_machine : Sys
ended_machine = record machine { virt_devs = ended ∷ [] }

ended-Names : Names ended_machine 0x400 ended
unfolding raw_s_1 guest_gpr guest_addr find_vdev
ended-Names = record { operand = refl; aligned = refl; one = refl; found = refl }

stsch-decode_example :
    (sys' : Sys) × (handle_stsch real zeros ended_machine ≡ some (success, set_cc 0 sys'))
    × (sys'.virt_devs ≡ ended_machine.virt_devs)
    × SamePmcw (decode_pmcw sys'.storage 0x400) ended.pmcw
    × (decode_scsw sys'.storage (0x400 + 28) ≡ ended.scsw)
stsch-decode_example =
    stsch-decode real zeros 0x400 ended-Names refl refl (omega arith) zero_pmcw-FitsPmcw
      alert_scsw-FitsScsw

-- MSCH with a SCHIB that enables the console.
abbrev schib_machine : Sys
schib_machine = record machine { storage = λ a. if a == 0x405 then 0x81 else 0 }

schib_machine-Names : Names schib_machine 0x400 console
unfolding raw_s_1 guest_gpr guest_addr find_vdev
schib_machine-Names = record { operand = refl; aligned = refl; one = refl; found = refl }

abbrev enabled_machine : Sys
enabled_machine = elim (handle_msch real zeros schib_machine) [
  | none ↦ schib_machine
  | some (r, sys) ↦ sys
]

modified : handle_msch real zeros schib_machine ≡ some (success, enabled_machine)
unfolding memcpy_tofrom_guest copy_loop copy_round decode_pmcw handle_msch with_vdev modify_pmcw
    raw_s_1 guest_gpr guest_addr find_vdev
modified = refl

msch-SameFixed_example :
    (w' : Vdev) × (find_vdev 0x1_0000 enabled_machine.virt_devs ≡ some w') × SameFixed console w'
msch-SameFixed_example =
    msch-SameFixed real zeros schib_machine success enabled_machine 0x1_0000 console modified
      console_found

-- A host that grants a buffer and no spool file: the write of the console ends in a unit check.
abbrev host : Host
host = record {
  lra = real;
  stack = zeros;
  fresh = zeros;
  avail = 0;
  grants_buffer = true;
  grants_file = false;
  iobuf = 0x2000;
}

abbrev begun : St
begun =
    begin host (set_vdev (started host zeros 1 console-Names) machine)
      (started host zeros 1 console-Names)

abbrev ending : St
ending = elim (run host 1 begun) [ none ↦ begun | some st ↦ st ]

begun_ends : run host 1 begun ≡ some ending
unfolding run round interpret operate after_execute execute cons_write xfer_storage get_ccw invalid
    cons_written open_spoolfile decode_ccw0 decode_ccw begin start_vdev decode_orb
    memcpy_tofrom_guest copy_loop copy_round
begun_ends = refl

run-Keeps_example : Keeps begun ending
run-Keeps_example = run-Keeps host 1 begun ending begun_ends

copied : (memcpy_tofrom_guest real from_guest 0x400 0 32 storage zeros).fault ≡ false
unfolding memcpy_tofrom_guest copy_loop copy_round
copied = refl

ssch-Ended_example :
    (handle_ssch real zeros (spool_exec host 1) machine
      ≡ some (success, set_cc 0 (after host zeros 1 console-Names ending)))
    × (find_vdev 0x1_0000 (after host zeros 1 console-Names ending).virt_devs
        ≡ some (over host zeros 1 console-Names ending))
    × Ended ending (over host zeros 1 console-Names ending)
    × ((after host zeros 1 console-Names ending).cpu
        ≡ record cpu { int_io = queued cpu.int_io (started host zeros 1 console-Names) })
ssch-Ended_example =
    ssch-Ended host zeros 1 console-Names ending (inl refl) copied refl refl refl (omega arith)
      begun_ends

no_tic : ((get_ccw host begun).1.cmd ≢ 0x08) × (has (get_ccw host begun).1.flags 0xc0 ≡ false)
unfolding get_ccw decode_ccw0 decode_ccw begin start_vdev decode_orb memcpy_tofrom_guest copy_loop
    copy_round
no_tic = (omega arith, refl)

ssch_unchained_example :
    (round host begun ≡ bug)
    ⊎ ((st : St) × (run host 1 begun ≡ some st)
        × (w : Vdev) × (sys' : Sys) × (handle_ssch real zeros (spool_exec host 1) machine
            ≡ some (success, set_cc 0 sys'))
        × (find_vdev 0x1_0000 sys'.virt_devs ≡ some w)
        × Ended st w)
ssch_unchained_example =
    ssch_unchained host zeros 0 console-Names (inl refl) copied refl refl refl (omega arith)
      no_tic.0 no_tic.1
