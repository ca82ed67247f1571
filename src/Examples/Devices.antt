-- ===== src/Examples/Devices.antt =====
-- A machine with the console at 0009, which does not answer SENSE ID, and a disk.
use hvf.Base.{
  ℕ, ◌≡◌, refl, [], ◌∷◌, none, some, ◌==◌, if◌then◌else◌, true, false, arith, Bool-cases, inl, inr,
}
use hvf.Errno.{success, eio}
use hvf.Drivers.Registry.{Device, DeviceType, Registry, Subchannel, do_sense_id, scan_devices}
use hvf.Drivers.Registry.Scanned.{scan_devices-Described, Scanned}

abbrev nothing : Subchannel
nothing = record {
  there = false;
  dev_num = 0;
  modified = success;
  sensed = success;
  dev_type = 0;
  dev_model = 0;
}

abbrev machine : ℕ → Subchannel
machine sch =
    if sch == 0x1_0000
    then record {
      there = true;
      dev_num = 9;
      modified = success;
      sensed = eio;
      dev_type = 0;
      dev_model = 0;
    }
    else if sch == 0x1_0003
    then record {
      there = true;
      dev_num = 0x190;
      modified = success;
      sensed = success;
      dev_type = 0x3390;
      dev_model = 10;
    }
    else nothing

abbrev blank_device : Device
blank_device = record {
  sch = 0;
  type = 0;
  model = 0;
  ccuu = 0;
  dev = none;
  attention = 0;
  in_use = false;
  refcnt = 0;
}

abbrev d3390 : DeviceType
d3390 = record {
  address = 0x3000;
  type = 0x3390;
  model = 0;
  all_models = true;
  reg = some (λ d. success);
}

abbrev drivers : Registry
drivers = record { types = d3390 ∷ []; devices = []; device = λ j. blank_device }

machine_answers : (sch : ℕ) → (do_sense_id (machine sch)).0 ≡ success
unfolding do_sense_id
machine_answers sch = elim (Bool-cases (sch == 0x1_0000)) [
  | inl y ↦ rw y refl
  | inr n ↦ elim (Bool-cases (sch == 0x1_0003)) [ inl y ↦ rw (n, y) refl | inr k ↦ rw (n, k) refl ]
]

scan_devices-Described_example :
    (r' : Registry) × (scan_devices machine blank_device drivers ≡ some r')
    × Scanned machine blank_device
        (refl, refl)
        (d3390 ∷ [])
        (((omega arith, omega arith), tt))
        machine_answers
        0x1_0000
        0x1_0000
        r'
scan_devices-Described_example =
    scan_devices-Described machine blank_device (refl, refl) (d3390 ∷ [])
      ((omega arith, omega arith), tt) machine_answers drivers refl refl
