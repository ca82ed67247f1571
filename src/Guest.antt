-- ===== src/Guest.antt =====
-- The state of a virtual machine: `struct virt_sys`, `struct virt_cpu` (cp/include/vcpu.h), the
-- SIE control block (cp/include/sie.h), virtual devices (cp/include/vdevice.h) and the words of the
-- channel subsystem (include/channel.h). A bit field is a number below its width's power of two.
-- Locks are held throughout each handler and are left out; so is what is printed on the console.
pub mod Layout
pub mod Priv
pub mod SpoolDev
pub mod Intercept
pub mod Reset
pub mod Interrupt
pub mod Attach
pub mod Storage
use hvf.Base.{
  ℕ, ◌%◌, ◌^◌, not, Bool, true, false, List, [], ◌∷◌, Option, none, some, ◌==◌, if◌then◌else◌,
  Bytes, bit_and,
}
use hvf.Errno.{Errno}
use hvf.Fs.Spool.{SpoolFile}

-- `x & mask` as a condition
abbrev pub has : ℕ → ℕ → Bool
has x mask = not (bit_and x mask == 0)

-- `enum virt_cpustate`
pub data CpuState : Type 0 where
  stopped operating load checkstop : CpuState

-- `struct psw`; `asc` is its field `as`.
pub record Psw : Type 0 where
  pub r : ℕ
  pub t : ℕ
  pub io : ℕ
  pub ex : ℕ
  pub key : ℕ
  pub fmt : ℕ
  pub m : ℕ
  pub w : ℕ
  pub p : ℕ
  pub asc : ℕ
  pub cc : ℕ
  pub prog_mask : ℕ
  pub ea : ℕ
  pub ba : ℕ
  pub ptr31 : ℕ
  pub ptr : ℕ

-- `struct vio_int`
pub record VioInt : Type 0 where
  pub ssid : ℕ
  pub param : ℕ
  pub intid : ℕ

-- `struct virt_cpu` with the parts of `sie_cb` and `regs` that CP reads or writes.
pub record Cpu : Type 0 where
  pub cpuflags : ℕ
  pub prefix : ℕ
  pub icptcode : ℕ
  pub ipa : ℕ
  pub ipb : ℕ
  pub gpsw : Psw
  pub gcr : Bytes
  pub gpr : Bytes
  pub ar : Bytes
  pub fpr : Bytes
  pub fpcr : ℕ
  pub state : CpuState
  pub int_io : List (List VioInt)

-- `struct pmcw`
pub record Pmcw : Type 0 where
  pub interrupt_param : ℕ
  pub isc : ℕ
  pub e : ℕ
  pub lm : ℕ
  pub mm : ℕ
  pub d : ℕ
  pub t : ℕ
  pub v : ℕ
  pub dev_num : ℕ
  pub lpm : ℕ
  pub pnom : ℕ
  pub lpum : ℕ
  pub pim : ℕ
  pub mbi : ℕ
  pub pom : ℕ
  pub pam : ℕ
  pub chpid : Bytes
  pub f : ℕ
  pub x : ℕ
  pub s : ℕ

-- `struct scsw`
pub record Scsw : Type 0 where
  pub key : ℕ
  pub s : ℕ
  pub l : ℕ
  pub cc : ℕ
  pub f : ℕ
  pub p : ℕ
  pub i : ℕ
  pub a : ℕ
  pub u : ℕ
  pub z : ℕ
  pub e : ℕ
  pub n : ℕ
  pub fc : ℕ
  pub ac : ℕ
  pub sc : ℕ
  pub addr : ℕ
  pub dev_status : ℕ
  pub sch_status : ℕ
  pub count : ℕ

-- `memset(&scsw, 0, sizeof(struct scsw))`
abbrev pub zero_scsw : Scsw
zero_scsw = record {
  key = 0;
  s = 0;
  l = 0;
  cc = 0;
  f = 0;
  p = 0;
  i = 0;
  a = 0;
  u = 0;
  z = 0;
  e = 0;
  n = 0;
  fc = 0;
  ac = 0;
  sc = 0;
  addr = 0;
  dev_status = 0;
  sch_status = 0;
  count = 0;
}

-- The fields of `struct orb` that CP reads; the rest is copied along as its bytes.
pub record Orb : Type 0 where
  pub param : ℕ
  pub f : ℕ
  pub lpm : ℕ
  pub addr : ℕ
  pub raw : List ℕ

-- `enum directory_vdevtype`
pub data VdevType : Type 0 where
  inval cons ded spool mdisk link : VdevType

-- `struct virt_device`. `has_ops` says that `u.spool.ops` is `&spool_cons_ops` and not NULL.
pub record Vdev : Type 0 where
  pub vtype : VdevType
  pub sch : ℕ
  pub type : ℕ
  pub model : ℕ
  pub file : Option SpoolFile
  pub has_ops : Bool
  pub sense : ℕ
  pub pmcw : Pmcw
  pub scsw : Scsw
  pub orb : Orb

-- `struct virt_sys`, with the storage that its pages lie in.
pub record Sys : Type 0 where
  pub cpu : Cpu
  pub auth : ℕ
  pub storage_size : ℕ
  pub guest_pages : List ℕ
  pub virt_devs : List Vdev
  pub storage : Bytes

-- What a handler returns, with the state that it leaves; `none` is a BUG, which stops CP.
abbrev pub Handled : Type 0
Handled = Option (Errno × Sys)

abbrev pub set_state : CpuState → Sys → Sys
set_state st sys = record sys { cpu = record sys.cpu { state = st } }

abbrev pub set_cc : ℕ → Sys → Sys
set_cc cc sys = record sys { cpu = record sys.cpu { gpsw = record sys.cpu.gpsw { cc = cc } } }

-- The first device of the list with this subchannel number.
unfoldable pub find_vdev : ℕ → List Vdev → Option Vdev
find_vdev sch [] = none
find_vdev sch (v ∷ vs) = if v.sch == sch then some v else find_vdev sch vs

-- The list with that device's new state.
unfoldable pub replace_vdev : ℕ → Vdev → List Vdev → List Vdev
replace_vdev sch v' [] = []
replace_vdev sch v' (v ∷ vs) = if v.sch == sch then v' ∷ vs else v ∷ replace_vdev sch v' vs

abbrev pub set_vdev : Vdev → Sys → Sys
set_vdev v sys = record sys { virt_devs = replace_vdev v.sch v sys.virt_devs }
