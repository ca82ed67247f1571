-- ===== src/Examples/Machine.antt =====
-- Attachments, resets, interceptions, interruptions and the layouts, on a small machine.
use hvf.Base.{
  inr, suc, get_or, ℕ, ◌+◌, ◌<◌, ◌≡◌, refl, true, false, [], ◌∷◌, none, some, arith, zero,
}
use hvf.Guest.{stopped, Psw, VioInt, Vdev, Sys, find_vdev}
use hvf.Guest.Layout.{be32}
use hvf.Guest.Reset.{zero_psw, Kind, reset, IsIdle, reset-IsIdle}
use hvf.Guest.Interrupt.{dequeue, decode_psw, io_int}
use hvf.Guest.Interrupt.Delivery.{IsFirst, FitsPsw, io_int-IsFirst}
use hvf.Guest.Attach.{RealDevice, guest_attach}
use hvf.Guest.Attach.Fresh.{Outcome, guest_attach-Outcome}
use hvf.Guest.{Handled}
use hvf.Examples.Fixtures.{real, console, cpu, machine, console_found}

abbrev disk : RealDevice
disk = record { ccuu = 0x191; type = 0x3390; model = 3; in_use = false; refcnt = 1 }

guest_attach-Outcome_example :
    Outcome none (console ∷ []) (guest_attach console 0x191 none (disk ∷ []) (console ∷ []))
guest_attach-Outcome_example = guest_attach-Outcome console 0x191 none (disk ∷ []) (console ∷ [])

abbrev no_exec : Sys → Vdev → Handled
no_exec sys v = none

-- A validity interception.
abbrev invalid_machine : Sys
invalid_machine = record machine { cpu = record cpu { icptcode = 0x20 } }

reset-IsIdle_example :
    ((reset Kind.load_clear machine).cpu.state ≡ stopped)
    × ((w : Vdev) × (find_vdev 0x1_0000 (reset Kind.load_clear machine).virt_devs ≡ some w)
        × IsIdle console w)
reset-IsIdle_example = reset-IsIdle Kind.load_clear machine 0x1_0000 console console_found

-- The machine, enabled for I/O interruptions of subclass 3, with one of them waiting.
abbrev waiting : VioInt
waiting = record { ssid = 0x1_0000; param = 5; intid = 0x1800_0000 }

abbrev old_psw : Psw
old_psw = record zero_psw { io = 1; ea = 1; ba = 1; ptr = 0x1000 }

abbrev interruptible : Sys
interruptible = record machine {
  cpu = record cpu {
    gpsw = old_psw;
    gcr = λ i. 0x1000_0000;
    int_io = [] ∷ [] ∷ [] ∷ (waiting ∷ []) ∷ [] ∷ [] ∷ [] ∷ [] ∷ [];
  };
}

-- No subclass before 3 has an interruption.
waiting-IsFirst : IsFirst 0x1000_0000 interruptible.cpu.int_io 0 3 waiting
waiting-IsFirst = record {
  from = omega arith;
  on = refl;
  waiting = [];
  oldest = refl;
  before = λ j h l. inr (silent j l);
}
  where
    silent : (j : ℕ) → j < 3 → get_or interruptible.cpu.int_io j [] ≡ []
    silent zero l = refl
    silent (suc zero) l = refl
    silent (suc (suc zero)) l = refl
    silent (suc (suc (suc j))) l = absurd (omega arith)

old_psw-FitsPsw : FitsPsw old_psw
old_psw-FitsPsw = record {
  r = omega arith;
  t = omega arith;
  io = omega arith;
  ex = omega arith;
  key = omega arith;
  fmt = omega arith;
  m = omega arith;
  w = omega arith;
  p_ = omega arith;
  asc = omega arith;
  cc = omega arith;
  prog_mask = omega arith;
  ea = omega arith;
  ba = omega arith;
  ptr31 = omega arith;
  ptr = omega arith;
}

io_int-IsFirst_example :
    (sys' : Sys) × (io_int real interruptible ≡ (true, sys'))
    × (sys'.cpu.int_io ≡ dequeue interruptible.cpu.int_io 3)
    × (sys'.cpu.gpsw ≡ decode_psw interruptible.storage (0 + 0x1f0))
    × (decode_psw sys'.storage (0 + 0x170) ≡ old_psw)
    × (be32 sys'.storage (0 + 184) ≡ waiting.ssid)
    × (be32 sys'.storage (0 + 188) ≡ waiting.param)
    × (be32 sys'.storage (0 + 192) ≡ waiting.intid)
io_int-IsFirst_example =
    io_int-IsFirst real interruptible 3 waiting 0 refl (omega arith) refl waiting-IsFirst
      (omega arith) old_psw-FitsPsw (omega arith, omega arith, omega arith)
