-- ===== src/Drivers/Registry.antt =====
-- cp/drivers/device.c: the types of devices, the devices, and the scan for them when CP starts. A
-- device and a type are named by their addresses; a device that the scan allocates has the
-- subchannel number at which it did so as its address. What the subchannels answer is a parameter.
-- `none` is a BUG, or a device that is put in the list when it is there.
pub mod Typed
pub mod Identified
pub mod Later
pub mod Scanned
use hvf.Base.{
  ℕ, zero, suc, ◌+◌, Bool, true, false, not, ◌&&◌, ◌||◌, List, [], ◌∷◌, ◌++◌, Option, none, some,
  ◌==◌, if◌then◌else◌,
}
use hvf.Errno.{Errno, success, enoent, eexist, failed}

-- `struct device`, without the queue of its operations and the geometry.
pub record Device : Type 0 where
  pub sch : ℕ
  pub type : ℕ
  pub model : ℕ
  pub ccuu : ℕ
  pub dev : Option ℕ
  pub attention : ℕ
  pub in_use : Bool
  pub refcnt : ℕ

-- `struct device_type`, at an address.
pub record DeviceType : Type 0 where
  pub address : ℕ
  pub type : ℕ
  pub model : ℕ
  pub all_models : Bool
  pub reg : Option (Device → Errno)

pub record Registry : Type 0 where
  pub types : List DeviceType
  pub devices : List ℕ
  pub device : ℕ → Device

abbrev pub with_device : ℕ → Device → Registry → Registry
with_device id d r = record r { device = λ j. if j == id then d else r.device j }

-- Whether a type is in the list, or one for the same type and model.
pub is_registered : DeviceType → List DeviceType → Bool
is_registered t [] = false
is_registered t (u ∷ us) =
    (t.address == u.address || t.type == u.type && t.model == u.model) || is_registered t us

pub register_device_type : DeviceType → Registry → Errno × Registry
unfolding is_registered
register_device_type t r =
    if is_registered t r.types
    then (eexist, r)
    else (success, record r { types = r.types ++ t ∷ [] })

-- `list_del`
pub unregister : ℕ → List DeviceType → List DeviceType
unregister a [] = []
unregister a (t ∷ ts) = if t.address == a then ts else t ∷ unregister a ts

pub unregister_device_type : DeviceType → Registry → Registry
unfolding unregister
unregister_device_type t r = record r { types = unregister t.address r.types }

-- The loops of the searches; the caller gets a reference.
pub find_where : (Device → Bool) → List ℕ → (ℕ → Device) → Option ℕ
find_where test [] device = none
find_where test (j ∷ js) device = if test (device j) then some j else find_where test js device

abbrev pub dev_get : ℕ → Registry → Registry
dev_get id r = with_device id (record (r.device id) { refcnt = (r.device id).refcnt + 1 }) r

-- `some none` is ENOENT.
abbrev pub found_device : Option ℕ → Registry → Option (Option (ℕ × Registry))
found_device none r = some none
found_device (some id) r =
    if (r.device id).refcnt == 0 then none else some (some (id, dev_get id r))

pub find_device_by_sch : ℕ → Registry → Option (Option (ℕ × Registry))
unfolding find_where
find_device_by_sch sch r = found_device (find_where (λ d. d.sch == sch) r.devices r.device) r

pub find_device_by_type : ℕ → ℕ → Registry → Option (Option (ℕ × Registry))
unfolding find_where
find_device_by_type type model r =
    found_device (find_where (λ d. d.type == type && d.model == model) r.devices r.device) r

pub find_type : Device → List DeviceType → Option DeviceType
find_type d [] = none
find_type d (t ∷ ts) =
    if t.type == d.type && (t.all_models || t.model == d.model) then some t else find_type d ts

-- What `__register_device` makes of the device, and its result.
pub set_type : List DeviceType → Device → Errno × Device
unfolding find_type
set_type types d =
    let d' : Device = record d { refcnt = 1; in_use = false; dev = none } in
    elim (find_type d types) [
      | none ↦ (enoent, d')
      | some t ↦
          let found : Device = record d' { dev = some t.address } in
          elim t.reg [
            | none ↦ (success, found)
            | some reg ↦ if failed (reg found) then (reg found, d') else (success, found)
          ]
    ]

pub list_del : ℕ → List ℕ → List ℕ
list_del id [] = []
list_del id (j ∷ js) = if j == id then js else j ∷ list_del id js

pub among : ℕ → List ℕ → Bool
among id [] = false
among id (j ∷ js) = j == id || among id js

-- `__register_device`
pub register_device : ℕ → Bool → Registry → Option (Errno × Registry)
unfolding set_type list_del among
register_device id remove r =
    let (err, d) = set_type r.types (r.device id) in
    let devices = if remove then list_del id r.devices else r.devices in
    if among id devices
    then none
    else some (err, with_device id d (record r { devices = devices ++ id ∷ [] }))

-- What a subchannel answers: STSCH with the valid bit, the device number, MSCH, and SENSE ID.
pub record Subchannel : Type 0 where
  pub there : Bool
  pub dev_num : ℕ
  pub modified : Errno
  pub sensed : Errno
  pub dev_type : ℕ
  pub dev_model : ℕ

-- `do_sense_id`, with the device at 0009 that does not answer.
unfoldable pub do_sense_id : Subchannel → Errno × ℕ × ℕ
do_sense_id s =
    if s.dev_num == 0x0009 then (success, 0x3215, 0) else (s.sensed, s.dev_type, s.dev_model)

-- `__fake_dev_type` at address 0.
abbrev pub fake_dev_type : DeviceType
fake_dev_type = record { address = 0; type = 0; model = 0; all_models = false; reg = none }

abbrev pub is_fake : Option ℕ → Bool
is_fake none = false
is_fake (some a) = a == 0

-- "alloc device struct", where the scan has none. What the code does not set is `junk`.
abbrev pub alloc_device : Device → ℕ → Option ℕ → Registry → ℕ × Registry
alloc_device junk sch none r =
    (sch, with_device sch (record junk { attention = 0; dev = some 0 }) r)
alloc_device junk sch (some id) r = (id, r)

-- From the first registration on, for a subchannel that is enabled.
pub identify : Subchannel → ℕ → ℕ → Registry → Option (Option ℕ × Registry)
unfolding do_sense_id register_device
identify s sch id r =
    elim (register_device id false (with_device id (record (r.device id) { sch = sch }) r)) [
      | none ↦ none
      | some (err, r') ↦
          let (ret, type, model) = do_sense_id s in
          let d : Device = record (r'.device id) { type = type; model = model; ccuu = s.dev_num } in
          let last = register_device id true (with_device id d r') in
          if failed err || not (is_fake (r'.device id).dev)
          then none
          else if failed ret
          then some (some id, r')
          else elim last [ none ↦ none | some (err', r'') ↦ some (none, r'') ]
    ]

-- One round of the loop: the device structure that is left over, and the registry.
pub scan_one : (ℕ → Subchannel) → Device → ℕ → Option ℕ → Registry → Option (Option ℕ × Registry)
unfolding identify
scan_one m junk sch left r =
    let (id, r') = alloc_device junk sch left r in
    if not (m sch).there
    then some (left, r)
    else if failed (m sch).modified
    then some (some id, r')
    else identify (m sch) sch id r'

pub scan_from :
    (ℕ → Subchannel) → Device → ℕ → ℕ → Option ℕ → Registry → Option (Option ℕ × Registry)
scan_from m junk zero sch left r = some (left, r)
scan_from m junk (suc more) sch left r = elim (scan_one m junk sch left r) [
  | none ↦ none
  | some (left', r') ↦ scan_from m junk more (sch + 1) left' r'
]

-- The scan of `count` subchannels from `first` on.
pub scan_range : (ℕ → Subchannel) → Device → ℕ → ℕ → Registry → Option Registry
unfolding scan_one scan_from register_device_type unregister_device_type
scan_range m junk count first r =
    let (err, r') = register_device_type fake_dev_type r in
    if failed err then none else elim (scan_from m junk count first none r') [
      | none ↦ none
      | some (left, r'') ↦ some (unregister_device_type fake_dev_type r'')
    ]

pub scan_devices : (ℕ → Subchannel) → Device → Registry → Option Registry
unfolding scan_range
scan_devices m junk r = scan_range m junk 0x1_0000 0x1_0000 r
