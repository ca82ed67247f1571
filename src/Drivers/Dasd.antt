-- ===== src/Drivers/Dasd.antt =====
-- cp/drivers/dasd.c: the geometry of a disk from its characteristics, and the channel program that
-- reads a block. Where the program, its arguments and the buffer lie in storage are parameters, and
-- so is what `submit_io` returns.
pub mod Address
use hvf.Base.{
  ℕ, ◌+◌, ◌-◌, ◌*◌, ◌/◌, ◌%◌, ◌^◌, Bool, true, false, not, ◌&&◌, ◌||◌, List, [], ◌∷◌, Option, none,
  some, ltb, leb, ◌==◌, if◌then◌else◌, Bytes,
}
use hvf.Errno.{Errno, success, einval, enoent, failed}

-- The part of `struct device` for count key data disks.
pub record Eckd : Type 0 where
  pub cyls : ℕ
  pub tracks : ℕ
  pub recs : ℕ
  pub sectors : ℕ
  pub len : ℕ
  pub formula : ℕ
  pub f1 : ℕ
  pub f2 : ℕ
  pub f3 : ℕ
  pub f4 : ℕ
  pub f5 : ℕ

abbrev pub ceil_quot : ℕ → ℕ → ℕ
ceil_quot d1 d2 = (d1 + (d2 - 1)) / d2

unfoldable pub d3390_recs_per_track : ℕ → ℕ → ℕ
d3390_recs_per_track kl dl =
    let dn = ceil_quot (dl + 6) 232 + 1 in
    let kn = ceil_quot (kl + 6) 232 + 1 in
    if kl == 0
    then 1729 / (10 + 9 + ceil_quot (dl + 6 * dn) 34)
    else 1729 / (10 + 9 + ceil_quot (kl + 6 * kn) 34 + (9 + ceil_quot (dl + 6 * dn) 34))

-- Two bytes
abbrev pub half : Bytes → ℕ → ℕ
half buf a = buf a * 256 + buf (a + 1)

-- What `d3390_reg` reads from the characteristics, for each formula.
abbrev pub characteristics : Bytes → Eckd → Eckd
characteristics buf g = record g {
  cyls = half buf 12;
  tracks = half buf 14;
  recs = d3390_recs_per_track 0 4096;
  sectors = buf 16;
  len = half buf 18;
  formula = buf 22;
}

unfoldable pub d3390_reg : ℕ → Errno → Bytes → Eckd → Errno × Eckd
d3390_reg model io buf g =
    let c = characteristics buf g in
    if not (model == 0x02 || model == 0x06 || model == 0x0a || model == 0x0c)
    then (enoent, g)
    else if failed io
    then (io, g)
    else if c.formula == 1
    then (success, record c { f1 = buf 23; f2 = half buf 24; f3 = half buf 26; f4 = 0; f5 = 0 })
    else if c.formula == 2
    then (success, record c { f1 = buf 23; f2 = buf 24; f3 = buf 25; f4 = buf 26; f5 = buf 27 })
    else (einval, c)

-- `struct ccw`
pub record Ccw : Type 0 where
  pub cmd : ℕ
  pub flags : ℕ
  pub count : ℕ
  pub addr : ℕ

-- What `d3390_read` submits.
pub record ReadProgram : Type 0 where
  pub ccw : List Ccw
  pub seek_data : List ℕ
  pub search_data : List ℕ

-- Where these are, and the buffer.
pub record Areas : Type 0 where
  pub ccw_at : ℕ
  pub seek_at : ℕ
  pub search_at : ℕ
  pub buf_at : ℕ

-- CCW_FLAG_CC | CCW_FLAG_SLI
abbrev pub chain : ℕ
chain = 0x60

abbrev pub read_program : Areas → ℕ → ℕ → ℕ → ReadProgram
read_program a cc hh r = record {
  ccw =
      record { cmd = 0x07; flags = chain; count = 6; addr = a.seek_at }
      ∷ record { cmd = 0x31; flags = chain; count = 5; addr = a.search_at }
      ∷ record { cmd = 0x08; flags = 0; count = 0; addr = a.ccw_at + 8 }
      ∷ record { cmd = 0x86; flags = 0; count = 4096; addr = a.buf_at }
      ∷ [];
  seek_data = 0 ∷ 0 ∷ (cc / 256) ∷ (cc % 256) ∷ (hh / 256) ∷ (hh % 256) ∷ [];
  search_data = (cc / 256) ∷ (cc % 256) ∷ (hh / 256) ∷ (hh % 256) ∷ (r % 256) ∷ [];
}

-- `lba` is the bits of an `int`, and `io` what `submit_io` returns, if it is called. The result is
-- that of the function and the program that is submitted; `none` is a division by 0.
unfoldable pub d3390_read : Areas → Errno → Eckd → ℕ → Option (Errno × Option ReadProgram)
d3390_read a io g lba =
    let rpc = g.tracks * g.recs in
    let at = lba - 1 in
    let cc = at / rpc % 2 ^ 16 in
    let hh = at % rpc / g.recs % 2 ^ 16 in
    let r = (at % rpc % g.recs + 1) % 2 ^ 16 in
    if lba == 0 || leb (2 ^ 31) lba
    then some (einval, none)
    else if rpc == 0
    then none
    else some (io, some (read_program a cc hh r))
