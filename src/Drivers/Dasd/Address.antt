-- ===== src/Drivers/Dasd/Address.antt =====
-- Each block of a disk has a place of its own.
use native.Mathlib.Nat.{div-add-mod, mod-lt, div-lt_iff_lt-mul}
use hvf.Base.{
  inr, inl, not, Bool-cases, ℕ, ◌+◌, ◌-◌, ◌*◌, ◌/◌, ◌%◌, ◌^◌, ◌≤◌, ◌<◌, ◌≡◌, refl, ap, sym, ◌∙◌,
  arith, false, ◌||◌, leb, ◌==◌, some, Bytes,
}
use hvf.Errno.{Errno, success}
use hvf.Drivers.Dasd.{d3390_recs_per_track, Eckd, Areas, read_program, d3390_read, d3390_reg, half}

-- The record `r` of track `hh` of cylinder `cc` is the block `lba`, and there is such a place on
-- the disk.
pub record IsPlace (g : Eckd) (lba cc hh r : ℕ) : Type 0 where
  pub cylinder : cc < g.cyls
  pub track : hh < g.tracks
  pub rec : (1 ≤ r) × (r ≤ g.recs)
  pub place : (cc * g.tracks + hh) * g.recs + r ≡ lba

module _ (g : Eckd) (lba : ℕ) (some_recs : 0 < g.recs) (some_tracks : 0 < g.tracks)
    (first : 1 ≤ lba) (last : lba ≤ g.cyls * (g.tracks * g.recs)) where
  abbrev rpc : ℕ
  rpc = g.tracks * g.recs

  rpc_pos : 0 < rpc
  rpc_pos = grind arith

  cylinder_fits : (lba - 1) / rpc < g.cyls
  cylinder_fits = (div-lt_iff_lt-mul rpc_pos).1 (omega (arith, last, first))

  track_fits : (lba - 1) % rpc / g.recs < g.tracks
  track_fits = (div-lt_iff_lt-mul some_recs).1 (mod-lt (lba - 1) rpc_pos)

  places :
      ((lba - 1) / rpc * g.tracks + (lba - 1) % rpc / g.recs) * g.recs
        + ((lba - 1) % rpc % g.recs + 1)
      ≡ lba
  places = grind (arith, div-add-mod (lba - 1) rpc, div-add-mod ((lba - 1) % rpc) g.recs)

  block-IsPlace :
      IsPlace g lba ((lba - 1) / rpc) ((lba - 1) % rpc / g.recs) ((lba - 1) % rpc % g.recs + 1)
  block-IsPlace = record {
    cylinder = cylinder_fits;
    track = track_fits;
    rec = (omega arith, omega (arith, mod-lt ((lba - 1) % rpc) some_recs));
    place = places;
  }

  read-IsPlace :
      (a : Areas) (io : Errno)
      → lba < 2 ^ 31
      → g.cyls < 2 ^ 16
      → g.tracks < 2 ^ 16
      → g.recs < 256
      → (cc hh r : ℕ) × (d3390_read a io g lba ≡ some (io, some (read_program a cc hh r)))
        × IsPlace g lba cc hh r
  unfolding d3390_read
  read-IsPlace a io positive cyls tracks recs =
      let p = block-IsPlace in
      let valid : (lba == 0 || leb (2 ^ 31) lba) ≡ false = ground arith in
      let nonzero : (rpc == 0) ≡ false = ground (arith, rpc_pos) in
      let c : (lba - 1) / rpc % 2 ^ 16 ≡ (lba - 1) / rpc = omega (arith, p.cylinder) in
      let t : (lba - 1) % rpc / g.recs % 2 ^ 16 ≡ (lba - 1) % rpc / g.recs =
        omega (arith, p.track) in
      let u : ((lba - 1) % rpc % g.recs + 1) % 2 ^ 16 ≡ (lba - 1) % rpc % g.recs + 1 =
        omega (arith, p.rec.1) in
      (
        (lba - 1) / rpc,
        (lba - 1) % rpc / g.recs,
        (lba - 1) % rpc % g.recs + 1,
        rw (d3390_read, valid, nonzero, c, t, u) refl,
        p,
      )

geometry :
    (model : ℕ) (buf : Bytes) (old g : Eckd)
    → d3390_reg model success buf old ≡ (success, g)
    → (g.cyls ≡ half buf 12) × (g.tracks ≡ half buf 14) × (g.recs ≡ 12)
unfolding d3390_reg d3390_recs_per_track
geometry model buf old g reg =
    elim (Bool-cases (not (model == 0x02 || model == 0x06 || model == 0x0a || model == 0x0c))) [
      | inl y ↦ absurd (ground (arith, y))
      | inr n ↦ elim (Bool-cases (buf 22 == 1)) [
        | inl y ↦
            let same = ap (λ p. p.1) (rw (d3390_reg, n, y) at reg) in
            (
              ap (λ x. x.cyls) (sym same),
              ap (λ x. x.tracks) (sym same),
              ap (λ x. x.recs) (sym same),
            )
        | inr m ↦ elim (Bool-cases (buf 22 == 2)) [
          | inl y ↦
              let same = ap (λ p. p.1) (rw (d3390_reg, n, m, y) at reg) in
              (
                ap (λ x. x.cyls) (sym same),
                ap (λ x. x.tracks) (sym same),
                ap (λ x. x.recs) (sym same),
              )
          | inr k ↦ absurd (ground (arith, n, m, k))
        ]
      ]
    ]

-- With the geometry that `d3390_reg` has read, each block number from 1 to the last of the disk
-- that is a positive `int` is read: the arguments of SEEK and SEARCH are those of a record on the
-- disk, and with 12 records in a track, the block's number tells which, so no two blocks share a
-- record.
pub d3390_read-IsPlace :
    (model : ℕ) (buf : Bytes) (old g : Eckd) (a : Areas) (io : Errno) (lba : ℕ)
    → ((i : ℕ) → buf i < 256)
    → d3390_reg model success buf old ≡ (success, g)
    → 1 ≤ lba
    → lba < 2 ^ 31
    → lba ≤ half buf 12 * (half buf 14 * 12)
    → (cc hh r : ℕ) × (d3390_read a io g lba ≡ some (io, some (read_program a cc hh r)))
      × ((cc < half buf 12)
          × (hh < half buf 14)
          × (1 ≤ r)
          × (r ≤ 12)
          × ((cc * half buf 14 + hh) * 12 + r ≡ lba))
d3390_read-IsPlace model buf old g a io lba bytes reg first positive last =
    let (c, t, u) = geometry model buf old g reg in
    let some_tracks : 0 < half buf 14 = grind (arith, first, last) in
    let last' : lba ≤ g.cyls * (g.tracks * g.recs) = rw (c, t, u) last in
    let (cc, hh, r, q, p) =
      read-IsPlace g lba (omega (arith, u)) (omega (arith, t, some_tracks)) first last' a io
        positive (omega (arith, c, bytes 12, bytes 13)) (omega (arith, t, bytes 14, bytes 15))
        (omega (arith, u)) in
    (
      cc,
      hh,
      r,
      q,
      (
        omega (arith, p.cylinder, c),
        omega (arith, p.track, t),
        p.rec.0,
        omega (arith, p.rec.1, u),
        ap (λ x. (cc * x + hh) * 12 + r) (sym t)
            ∙ ap (λ x. (cc * g.tracks + hh) * x + r) (sym u)
            ∙ p.place,
      ),
    )
