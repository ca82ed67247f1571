-- ===== src/Examples/Disks.antt =====
-- A disk with two cylinders of fifteen tracks.
use hvf.Base.{◌-◌, ◌*◌, ◌+◌, ◌<◌, ◌≤◌, ℕ, ◌≡◌, refl, arith, [], ◌∷◌, some, get_or, Bytes}
use hvf.Errno.{success}
use hvf.Drivers.Dasd.{Eckd, Areas, read_program, d3390_recs_per_track, d3390_reg, d3390_read}
use hvf.Drivers.Dasd.Address.{d3390_read-IsPlace}

abbrev rdc : Bytes
rdc i = get_or (0 ∷ 2 ∷ 0 ∷ 15 ∷ 0 ∷ 0 ∷ 0 ∷ 0 ∷ 0 ∷ 0 ∷ 1 ∷ []) (i - 12) 0

abbrev unknown : Eckd
unknown = record {
  cyls = 0;
  tracks = 0;
  recs = 0;
  sectors = 0;
  len = 0;
  formula = 0;
  f1 = 0;
  f2 = 0;
  f3 = 0;
  f4 = 0;
  f5 = 0;
}

abbrev two_cylinders : Eckd
two_cylinders = record unknown { cyls = 2; tracks = 15; recs = 12; formula = 1 }

abbrev areas : Areas
areas = record { ccw_at = 0x1000; seek_at = 0x1040; search_at = 0x1050; buf_at = 0x2000 }

rdc-byte : (i : ℕ) → rdc i < 256
rdc-byte i = byte (i - 12)
  where
    byte : (k : ℕ) → get_or (0 ∷ 2 ∷ 0 ∷ 15 ∷ 0 ∷ 0 ∷ 0 ∷ 0 ∷ 0 ∷ 0 ∷ 1 ∷ []) k 0 < 256
    byte k = ground arith

d3390_read-IsPlace_example :
    (cc hh r : ℕ) × (d3390_read areas success two_cylinders 200
      ≡ some (success, some (read_program areas cc hh r)))
    × ((cc < 2) × (hh < 15) × (1 ≤ r) × (r ≤ 12) × ((cc * 15 + hh) * 12 + r ≡ 200))
unfolding d3390_reg d3390_recs_per_track
d3390_read-IsPlace_example =
    d3390_read-IsPlace 0x0a rdc unknown two_cylinders areas success 200 rdc-byte refl (omega arith)
      (omega arith) (omega arith)
