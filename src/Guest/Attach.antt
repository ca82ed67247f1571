-- ===== src/Guest/Attach.antt =====
-- Attaching a real device to a guest: `guest_attach` of cp/guest/attach.c, `alloc_virt_dev` and
-- `__setup_vdev_ded` of cp/drivers/vdevice.c, `find_device_by_ccuu` of cp/drivers/device.c. The
-- allocation is taken to succeed; what it leaves in the fields that the code does not set is
-- `junk`. The locks, and the log of the CRW that is not queued, are left out.
pub mod Fresh
use hvf.Base.{
  ℕ, zero, suc, ◌+◌, ◌%◌, ◌^◌, Bool, true, false, List, [], ◌∷◌, ◌++◌, Option, none, some, ◌==◌,
  if◌then◌else◌,
}
use hvf.Errno.{Errno, success, ebusy, einval, enoent, failed}
use hvf.Guest.{VdevType, inval, cons, ded, spool, mdisk, link, Pmcw, Vdev}

-- `struct device`, as far as an attachment reads and writes it.
pub record RealDevice : Type 0 where
  pub ccuu : ℕ
  pub type : ℕ
  pub model : ℕ
  pub in_use : Bool
  pub refcnt : ℕ

-- `struct directory_vdev`: the type, the device number and the fields of the union that are read.
pub record DirectoryVdev : Type 0 where
  pub type : VdevType
  pub vdev : ℕ
  pub rdev : ℕ
  pub spool_type : ℕ
  pub spool_model : ℕ

-- `find_device_by_ccuu`: the first device with this number gets another reference. The result is
-- the devices before it, the device and those after it.
unfoldable pub find_device :
    ℕ → List RealDevice → Option (List RealDevice × RealDevice × List RealDevice)
find_device ccuu [] = none
find_device ccuu (r ∷ rs) =
    if r.ccuu == ccuu
    then some ([], record r { refcnt = r.refcnt + 1 }, rs)
    else elim (find_device ccuu rs) [
      | none ↦ none
      | some (before, found, after) ↦ some (r ∷ before, found, after)
    ]

-- `__setup_vdev_ded`: the error, the new state of the real devices, and of the virtual device.
pub setup_vdev_ded : ℕ → List RealDevice → Vdev → Errno × List RealDevice × Vdev
setup_vdev_ded ccuu rdevs v = elim (find_device ccuu rdevs) [
  | none ↦ (enoent, rdevs, v)
  | some (before, r, after) ↦ if r.in_use then (ebusy, before ++ (r ∷ after), v) else (
    success,
    before ++ (record r { in_use = true } ∷ after),
    record v { type = r.type; model = r.model },
  )
]

-- What `alloc_virt_dev` sets before its switch.
abbrev pub new_vdev : Vdev → DirectoryVdev → ℕ → Vdev
new_vdev junk dirdev sch = record junk {
  vtype = dirdev.type;
  sch = sch;
  pmcw = record junk.pmcw {
    v = 1;
    dev_num = dirdev.vdev % 2 ^ 16;
    lpm = 0x80;
    pim = 0x80;
    pom = 0xff;
    pam = 0x80;
  };
}

-- The switch of `alloc_virt_dev`.
pub setup_vdev : DirectoryVdev → List RealDevice → Vdev → Errno × List RealDevice × Vdev
setup_vdev dirdev rdevs v = elim dirdev.type [
  | inval ↦ (einval, rdevs, v)
  | cons ↦ (success, rdevs, record v { file = none; has_ops = true; type = 0x3215; model = 0 })
  | ded ↦ setup_vdev_ded dirdev.rdev rdevs v
  | spool ↦ (
    success,
    rdevs,
    record v { file = none; has_ops = false; type = dirdev.spool_type; model = dirdev.spool_model },
  )
  | mdisk ↦ (success, rdevs, record v { type = 0x3390; model = 3 })
  | link ↦ (einval, rdevs, v)
]

pub alloc_virt_dev :
    Vdev → DirectoryVdev → ℕ → List RealDevice → List Vdev → Errno × List RealDevice × List Vdev
alloc_virt_dev junk dirdev sch rdevs vdevs =
    let (err, rdevs', v) = setup_vdev dirdev rdevs (new_vdev junk dirdev sch) in
    (err, rdevs', if failed err then vdevs else vdevs ++ (v ∷ []))

-- Whether a device of the list has this device number, or this subchannel number.
unfoldable pub has_dev_num : ℕ → List Vdev → Bool
has_dev_num n [] = false
has_dev_num n (v ∷ vs) = if v.pmcw.dev_num == n then true else has_dev_num n vs

unfoldable pub has_sch : ℕ → List Vdev → Bool
has_sch n [] = false
has_sch n (v ∷ vs) = if v.sch == n then true else has_sch n vs

-- The two searches: the first of the `count` numbers from `from` on that the test does not find.
unfoldable pub first_free : (ℕ → Bool) → ℕ → ℕ → Option ℕ
first_free taken zero from = none
first_free taken (suc count) from =
    let rest = first_free taken count (from + 1) in if taken from then rest else some from

-- What `guest_attach` asks `alloc_virt_dev` for.
abbrev pub dedicated : ℕ → ℕ → DirectoryVdev
dedicated rdev n = record {
  type = ded;
  vdev = n;
  rdev = rdev % 2 ^ 16;
  spool_type = 0;
  spool_model = 0;
}

-- `guest_attach`; `vdev` is `none` for the caller's -1.
pub guest_attach :
    Vdev → ℕ → Option ℕ → List RealDevice → List Vdev → Errno × List RealDevice × List Vdev
guest_attach junk rdev vdev rdevs vdevs = elim number [
  | none ↦ (ebusy, rdevs, vdevs)
  | some n ↦ elim (first_free (λ s. has_sch s vdevs) 0x1_0000 0x1_0000) [
    | none ↦ (ebusy, rdevs, vdevs)
    | some sch ↦ alloc_virt_dev junk (dedicated rdev n) sch rdevs vdevs
  ]
]
  where
    number : Option ℕ
    number = elim vdev [ none ↦ first_free (λ n. has_dev_num n vdevs) 0x1_0000 0 | some n ↦ some n ]
