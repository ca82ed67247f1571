-- ===== src/Examples/Fixtures.antt =====
-- A small machine: one page of storage, one CPU, a spool device and a console.
use hvf.Base.{
  arith, ◌≡◌, refl, ℕ, ◌==◌, if◌then◌else◌, [], ◌∷◌, none, true, Option, some, get_or, Bytes,
}
use hvf.Guest.{operating, Cpu, Pmcw, zero_scsw, Scsw, Orb, VdevType, Vdev, Sys, find_vdev}
use hvf.Guest.Layout.RoundTrip.{FitsScsw, FitsPmcw}
use hvf.Guest.Reset.{zero_psw}

abbrev pub zeros : Bytes
zeros a = 0

abbrev pub real : ℕ → Option ℕ
real a = some a

abbrev pub zero_pmcw : Pmcw
zero_pmcw = record {
  interrupt_param = 0;
  isc = 0;
  e = 0;
  lm = 0;
  mm = 0;
  d = 0;
  t = 0;
  v = 1;
  dev_num = 9;
  lpm = 0x80;
  pnom = 0;
  lpum = 0;
  pim = 0x80;
  mbi = 0;
  pom = 0xff;
  pam = 0x80;
  chpid = zeros;
  f = 0;
  x = 0;
  s = 0;
}

abbrev pub zero_orb : Orb
zero_orb = record { param = 0; f = 0; lpm = 0; addr = 0; raw = [] }

abbrev pub console : Vdev
console = record {
  vtype = VdevType.cons;
  sch = 0x1_0000;
  type = 0x3215;
  model = 0;
  file = none;
  has_ops = true;
  sense = 0;
  pmcw = zero_pmcw;
  scsw = zero_scsw;
  orb = zero_orb;
}

-- General register 1 has the console's subchannel number.
abbrev pub gprs : ℕ → ℕ
gprs i = if i == 1 then 0x1_0000 else 7

-- The instruction's operand is address 0x400.
abbrev pub cpu : Cpu
cpu = record {
  cpuflags = 0x800;
  prefix = 0;
  icptcode = 0x10;
  ipa = 0xb234;
  ipb = 0x400_0000;
  gpsw = zero_psw;
  gcr = zeros;
  gpr = gprs;
  ar = zeros;
  fpr = zeros;
  fpcr = 0;
  state = operating;
  int_io = [] ∷ [] ∷ [] ∷ [] ∷ [] ∷ [] ∷ [] ∷ [] ∷ [];
}

-- At 0 a format-0 CCW that writes four bytes of 0x800.
abbrev pub storage : Bytes
storage a = get_or (0x01 ∷ 0x00 ∷ 0x08 ∷ 0x00 ∷ 0x20 ∷ 0x00 ∷ 0x00 ∷ 0x04 ∷ []) a 0

abbrev pub machine : Sys
machine = record {
  cpu = cpu;
  auth = 0;
  storage_size = 4096;
  guest_pages = 0 ∷ [];
  virt_devs = console ∷ [];
  storage = storage;
}

-- The status of a subchannel whose I/O ended with a unit check.
abbrev pub alert_scsw : Scsw
alert_scsw = record zero_scsw { fc = 4; sc = 0x17; addr = 8; dev_status = 0x0e; count = 4 }

pub alert_scsw-FitsScsw : FitsScsw alert_scsw
alert_scsw-FitsScsw = record {
  key = omega arith;
  s = omega arith;
  l = omega arith;
  cc = omega arith;
  f = omega arith;
  p = omega arith;
  i = omega arith;
  a = omega arith;
  u = omega arith;
  z = omega arith;
  e = omega arith;
  n = omega arith;
  fc = omega arith;
  ac = omega arith;
  sc = omega arith;
  addr = omega arith;
  dev_status = omega arith;
  sch_status = omega arith;
  count = omega arith;
}

pub zero_pmcw-FitsPmcw : FitsPmcw zero_pmcw
zero_pmcw-FitsPmcw = record {
  interrupt_param = omega arith;
  isc = omega arith;
  e = omega arith;
  lm = omega arith;
  mm = omega arith;
  d = omega arith;
  t = omega arith;
  v = omega arith;
  dev_num = omega arith;
  mbi = omega arith;
  f = omega arith;
  x = omega arith;
  s = omega arith;
}

pub console_found : find_vdev 0x1_0000 machine.virt_devs ≡ some console
unfolding find_vdev
console_found = refl
