-- ===== src/Guest/Reset.antt =====
-- The resets of a virtual machine, cp/guest/reset.c. Flags whose code is empty or only a FIXME
-- (CPU timer, clock comparator, TOD, keys, PLO locks, floating interruptions) change nothing.
use hvf.Base.{
  some, ◌||◌, ◌||◌, ℕ, ◌+◌, ◌<◌, ◌≡◌, refl, Bool, false, ◌&&◌, List, [], ◌∷◌, map, ltb, leb,
  if◌then◌else◌, Bytes, clear, put, arith,
}
use hvf.Guest.{has, stopped, Psw, zero_scsw, Vdev, Sys, find_vdev}

abbrev pub reset_cpu : ℕ
reset_cpu = 0x000001

abbrev pub reset_psw : ℕ
reset_psw = 0x000004

abbrev pub reset_prefix : ℕ
reset_prefix = 0x000008

abbrev pub reset_cr : ℕ
reset_cr = 0x000080

abbrev pub reset_fpcr : ℕ
reset_fpcr = 0x000200

abbrev pub reset_ar : ℕ
reset_ar = 0x000400

abbrev pub reset_gpr : ℕ
reset_gpr = 0x000800

abbrev pub reset_fpr : ℕ
reset_fpr = 0x001000

abbrev pub reset_storage : ℕ
reset_storage = 0x004000

abbrev pub reset_io : ℕ
reset_io = 0x100000

-- SUBSYSTEM_RESET_FLAGS, CPU_RESET_FLAGS, INIT_CPU_RESET_FLAGS, CLEAR_RESET_FLAGS and
-- POWER_ON_RESET_FLAGS
abbrev pub subsystem_reset_flags : ℕ
subsystem_reset_flags = 0x180000

abbrev pub cpu_reset_flags : ℕ
cpu_reset_flags = 0x000001

abbrev pub init_cpu_reset_flags : ℕ
init_cpu_reset_flags = 0x0003ff

abbrev pub clear_reset_flags : ℕ
clear_reset_flags = 0x38ffff

abbrev pub power_on_reset_flags : ℕ
power_on_reset_flags = 0x7f7fff

abbrev pub zero_psw : Psw
zero_psw = record {
  r = 0;
  t = 0;
  io = 0;
  ex = 0;
  key = 0;
  fmt = 0;
  m = 0;
  w = 0;
  p = 0;
  asc = 0;
  cc = 0;
  prog_mask = 0;
  ea = 0;
  ba = 0;
  ptr31 = 0;
  ptr = 0;
}

-- Each page of the guest is set to zero.
pub clear_pages : List ℕ → Bytes → Bytes
clear_pages [] m = m
clear_pages (page ∷ rest) m = clear_pages rest (clear m page 4096)

-- The initial control registers.
pub initial_crs : Bytes → Bytes
initial_crs gcr = put (put (clear gcr 0 16) 0 0xe0) 14 0xc200_0000

-- `__perform_cpu_reset`
pub perform_cpu_reset : ℕ → Sys → Sys
unfolding initial_crs
perform_cpu_reset flags sys = record sys {
  cpu = record sys.cpu {
    state = if has flags reset_cpu then stopped else sys.cpu.state;
    gpsw = if has flags reset_psw then zero_psw else sys.cpu.gpsw;
    prefix = if has flags reset_prefix then 0 else sys.cpu.prefix;
    gcr = if has flags reset_cr then initial_crs sys.cpu.gcr else sys.cpu.gcr;
    fpcr = if has flags reset_fpcr then 0 else sys.cpu.fpcr;
    ar = if has flags reset_ar then clear sys.cpu.ar 0 16 else sys.cpu.ar;
    gpr = if has flags reset_gpr then clear sys.cpu.gpr 0 16 else sys.cpu.gpr;
    fpr = if has flags reset_fpr then clear sys.cpu.fpr 0 16 else sys.cpu.fpr;
  };
  storage =
      if has flags reset_storage then clear_pages sys.guest_pages sys.storage else sys.storage;
}

-- The part of `__perform_noncpu_reset` for one device.
pub reset_vdev : Vdev → Vdev
reset_vdev v = record v {
  pmcw = record v.pmcw {
    interrupt_param = 0;
    isc = 0;
    e = 0;
    lm = 0;
    mm = 0;
    d = 0;
    pnom = 0;
    lpum = 0;
    mbi = 0;
    f = 0;
    x = 0;
    s = 0;
    pom = 0xff;
    t = 0;
    lpm = 0x80;
    pim = 0x80;
    pam = 0x80;
    chpid = clear v.pmcw.chpid 0 8;
  };
  scsw = zero_scsw;
}

pub perform_noncpu_reset : ℕ → Sys → Sys
unfolding reset_vdev
perform_noncpu_reset flags sys = record sys {
  virt_devs = if has flags reset_io then map reset_vdev sys.virt_devs else sys.virt_devs;
}

pub guest_power_on_reset : Sys → Sys
unfolding perform_cpu_reset perform_noncpu_reset
guest_power_on_reset sys =
    perform_noncpu_reset power_on_reset_flags (perform_cpu_reset power_on_reset_flags sys)

pub guest_system_reset_normal : Sys → Sys
unfolding perform_cpu_reset perform_noncpu_reset
guest_system_reset_normal sys =
    perform_noncpu_reset subsystem_reset_flags (perform_cpu_reset cpu_reset_flags sys)

pub guest_system_reset_clear : Sys → Sys
unfolding perform_cpu_reset perform_noncpu_reset
guest_system_reset_clear sys =
    perform_noncpu_reset clear_reset_flags (perform_cpu_reset clear_reset_flags sys)

pub guest_load_normal : Sys → Sys
unfolding perform_cpu_reset perform_noncpu_reset
guest_load_normal sys =
    perform_noncpu_reset subsystem_reset_flags (perform_cpu_reset init_cpu_reset_flags sys)

pub guest_load_clear : Sys → Sys
unfolding perform_cpu_reset perform_noncpu_reset
guest_load_clear sys =
    perform_noncpu_reset clear_reset_flags (perform_cpu_reset clear_reset_flags sys)

-- Does the byte at `a` lie in one of the pages?
abbrev pub in_pages : ℕ → List ℕ → Bool
in_pages a [] = false
in_pages a (page ∷ rest) = (leb page a && ltb a (page + 4096)) || in_pages a rest

clear_pages_lem :
    (pages : List ℕ) (m : Bytes) (a : ℕ)
    → clear_pages pages m a ≡ (if in_pages a pages then 0 else m a)
unfolding clear_pages
clear_pages_lem [] m a = refl
clear_pages_lem (page ∷ rest) m a = ground (arith, clear_pages_lem rest (clear m page 4096) a)

-- A clear reset (SYSTEM CLEAR) zeroes every byte of the guest's pages and no other byte of storage,
-- and general registers 0 to 15; a normal reset (SYSTEM RESET) keeps storage and the general
-- registers as they are. Both leave the CPU stopped.
pub clear_vs_normal :
    (sys : Sys) (a i : ℕ)
    → i < 16
    → let c = guest_system_reset_clear sys in
      let n = guest_system_reset_normal sys in
      (c.storage a ≡ (if in_pages a sys.guest_pages then 0 else sys.storage a))
      × (c.cpu.gpr i ≡ 0)
      × (c.cpu.state ≡ stopped)
      × (n.storage a ≡ sys.storage a)
      × (n.cpu.gpr i ≡ sys.cpu.gpr i)
      × (n.cpu.state ≡ stopped)
unfolding guest_system_reset_clear guest_system_reset_normal
clear_vs_normal sys a i h =
    (clear_pages_lem sys.guest_pages sys.storage a, ground arith, refl, refl, refl, refl)

-- The five resets of the machine.
pub data Kind : Type 0 where
  power_on system_normal system_clear load_normal load_clear : Kind

pub reset : Kind → Sys → Sys
reset Kind.power_on = guest_power_on_reset
reset Kind.system_normal = guest_system_reset_normal
reset Kind.system_clear = guest_system_reset_clear
reset Kind.load_normal = guest_load_normal
reset Kind.load_clear = guest_load_clear

-- A subchannel after a reset: no I/O, disabled, interruption parameter and subclass 0, the same
-- device and subchannel numbers.
pub record IsIdle (before after : Vdev) : Type 0 where
  pub scsw : after.scsw ≡ zero_scsw
  pub disabled : after.pmcw.e ≡ 0
  pub param : after.pmcw.interrupt_param ≡ 0
  pub isc : after.pmcw.isc ≡ 0
  pub dev_num : after.pmcw.dev_num ≡ before.pmcw.dev_num
  pub sch : after.sch ≡ before.sch

reset_vdev-IsIdle : (v : Vdev) → IsIdle v (reset_vdev v)
unfolding reset_vdev
reset_vdev-IsIdle v = record {
  scsw = refl;
  disabled = refl;
  param = refl;
  isc = refl;
  dev_num = refl;
  sch = refl;
}

find_vdev-map :
    (k : ℕ) (vs : List Vdev) (v : Vdev)
    → find_vdev k vs ≡ some v
    → find_vdev k (map reset_vdev vs) ≡ some (reset_vdev v)
unfolding reset_vdev find_vdev
find_vdev-map k [] v h = absurd (cc)
find_vdev-map k (w ∷ vs) v h = ground (arith, find_vdev-map k vs v)

virt_devs-reset :
    (kind : Kind) (sys : Sys) → (reset kind sys).virt_devs ≡ map reset_vdev sys.virt_devs
unfolding reset guest_power_on_reset guest_system_reset_normal guest_system_reset_clear
    guest_load_normal guest_load_clear
virt_devs-reset Kind.power_on sys = refl
virt_devs-reset _ sys = refl

state-reset : (kind : Kind) (sys : Sys) → (reset kind sys).cpu.state ≡ stopped
unfolding reset guest_power_on_reset guest_system_reset_normal guest_system_reset_clear
    guest_load_normal guest_load_clear
state-reset Kind.power_on sys = refl
state-reset _ sys = refl

-- Each of the five resets stops the CPU, and each subchannel of the machine is found again under
-- its number, idle and disabled, with its device number kept.
pub reset-IsIdle :
    (kind : Kind) (sys : Sys) (k : ℕ) (v : Vdev)
    → find_vdev k sys.virt_devs ≡ some v
    → ((reset kind sys).cpu.state ≡ stopped)
      × ((w : Vdev) × (find_vdev k (reset kind sys).virt_devs ≡ some w) × IsIdle v w)
reset-IsIdle kind sys k v h = (
  state-reset kind sys,
  (
    reset_vdev v,
    rw (virt_devs-reset kind sys) (find_vdev-map k sys.virt_devs v h),
    reset_vdev-IsIdle v,
  ),
)
