-- ===== src/Guest/Priv/Modify.antt =====
-- What MSCH can change.
use hvf.Base.{
  sym, ℕ, ◌%◌, ◌^◌, ◌≡◌, ◌≢◌, refl, ◌∙◌, ◌⊎◌, inl, inr, List, Option, none, some, Bytes, arith,
  Option-cases,
}
use mathlib.Core.Path.{subst}
use native.Mathlib.Decide.{ℕ_discrete}
use hvf.Errno.{Errno}
use hvf.Mm.Dat.{from_guest, memcpy_tofrom_guest}
use hvf.Guest.{Pmcw, Vdev, Sys, find_vdev, replace_vdev}
use hvf.Guest.Layout.{decode_pmcw}
use hvf.Guest.Priv.{guest_gpr, raw_s_1, modify_pmcw, handle_msch}
use hvf.Guest.Priv.Codes.{find_vdev-sch, find-replace, find-replace_ne}

-- What no MSCH changes of a subchannel: its numbers, its paths as installed, its status and the I/O
-- that it runs.
pub record SameFixed (v w : Vdev) : Type 0 where
  pub sch : w.sch ≡ v.sch
  pub vtype : w.vtype ≡ v.vtype
  pub dev_num : w.pmcw.dev_num ≡ v.pmcw.dev_num
  pub valid : w.pmcw.v ≡ v.pmcw.v
  pub timing : w.pmcw.t ≡ v.pmcw.t
  pub pnom : w.pmcw.pnom ≡ v.pmcw.pnom
  pub lpum : w.pmcw.lpum ≡ v.pmcw.lpum
  pub pim : w.pmcw.pim ≡ v.pmcw.pim
  pub pam : w.pmcw.pam ≡ v.pmcw.pam
  pub chpid : w.pmcw.chpid ≡ v.pmcw.chpid
  pub scsw : w.scsw ≡ v.scsw
  pub orb : w.orb ≡ v.orb

SameFixed-refl : (v : Vdev) → SameFixed v v
SameFixed-refl v = record {
  sch = refl;
  vtype = refl;
  dev_num = refl;
  valid = refl;
  timing = refl;
  pnom = refl;
  lpum = refl;
  pim = refl;
  pam = refl;
  chpid = refl;
  scsw = refl;
  orb = refl;
}

modify_pmcw-SameFixed :
    (v : Vdev) (g : Pmcw) → SameFixed v (record v { pmcw = modify_pmcw v.pmcw g })
unfolding modify_pmcw
modify_pmcw-SameFixed v g = record {
  sch = refl;
  vtype = refl;
  dev_num = refl;
  valid = refl;
  timing = refl;
  pnom = refl;
  lpum = refl;
  pim = refl;
  pam = refl;
  chpid = refl;
  scsw = refl;
  orb = refl;
}

module _ (lra : ℕ → Option ℕ) (stack : Bytes) (sys : Sys) where
  abbrev key : ℕ
  key = guest_gpr sys.cpu 1 % 2 ^ 32

  -- The devices after MSCH: as before, or with one PMCW modified.
  abbrev Modified : List Vdev → Vdev → Type 0
  Modified after v =
      (g : Pmcw) × (after
        ≡ replace_vdev v.sch (record v { pmcw = modify_pmcw v.pmcw g }) sys.virt_devs)

  msch_devs :
      (r : Errno) (sys' : Sys) (addr : ℕ) (v : Vdev)
      → raw_s_1 sys.cpu ≡ some addr
      → find_vdev key sys.virt_devs ≡ some v
      → handle_msch lra stack sys ≡ some (r, sys')
      → (sys'.virt_devs ≡ sys.virt_devs) ⊎ Modified sys'.virt_devs v
  unfolding handle_msch
  msch_devs r sys' addr v operand found h =
      let g =
        decode_pmcw (memcpy_tofrom_guest lra from_guest addr 0 52 sys.storage stack).buffer 0 in
      let split : (sys'.virt_devs ≡ sys.virt_devs)
          ⊎ (sys'.virt_devs
              ≡ replace_vdev v.sch (record v { pmcw = modify_pmcw v.pmcw g }) sys.virt_devs) =
        ground arith in
      elim split [ inl e ↦ inl e | inr e ↦ inr (g, e) ]

  msch_devs_none :
      (r : Errno) (sys' : Sys)
      → find_vdev key sys.virt_devs ≡ none
      → handle_msch lra stack sys ≡ some (r, sys')
      → sys'.virt_devs ≡ sys.virt_devs
  unfolding handle_msch
  msch_devs_none r sys' found h = ground arith

  msch_stuck :
      (r : Errno) (sys' : Sys) → raw_s_1 sys.cpu ≡ none → handle_msch lra stack sys ≢ some (r, sys')
  unfolding handle_msch
  msch_stuck r sys' n h = ground arith

  Modified-SameFixed :
      (k : ℕ) (v w : Vdev) (after : List Vdev)
      → find_vdev key sys.virt_devs ≡ some v
      → find_vdev k sys.virt_devs ≡ some w
      → Modified after v
      → (w' : Vdev) × (find_vdev k after ≡ some w') × SameFixed w w'
  Modified-SameFixed k v w after found at (g, e) = elim (ℕ_discrete k key) [
    | yes same ↦
        let v' = record v { pmcw = modify_pmcw v.pmcw g } in
        let vw : v ≡ w = ground arith in
        let sch : v.sch ≡ k = find_vdev-sch key sys.virt_devs v found ∙ sym same in
        (
          v',
          rw e (find-replace v.sch k sys.virt_devs v' w at sch sch),
          subst (λ u. SameFixed u v') vw (modify_pmcw-SameFixed v g),
        )
    | no other ↦
        let v' = record v { pmcw = modify_pmcw v.pmcw g } in
        let sch : v.sch ≡ key = find_vdev-sch key sys.virt_devs v found in
        (
          w,
          rw e (find-replace_ne k v.sch sys.virt_devs v' (λ p. other (p ∙ sch)) refl ∙ at),
          SameFixed-refl w,
        )
  ]

  -- Whatever SCHIB the guest passes and whatever condition code or exception MSCH ends in, each
  -- subchannel is found again under its number, with the same device number, type, installed and
  -- available paths, path masks kept by CP, channel paths, status and ORB.
  pub msch-SameFixed :
      (r : Errno) (sys' : Sys) (k : ℕ) (w : Vdev)
      → handle_msch lra stack sys ≡ some (r, sys')
      → find_vdev k sys.virt_devs ≡ some w
      → (w' : Vdev) × (find_vdev k sys'.virt_devs ≡ some w') × SameFixed w w'
  msch-SameFixed r sys' k w h at = elim (Option-cases (find_vdev key sys.virt_devs)) [
    | inl e ↦ (w, rw (msch_devs_none r sys' e h) at, SameFixed-refl w)
    | inr (v, e) ↦ elim (Option-cases (raw_s_1 sys.cpu)) [
      | inl n ↦ absurd (msch_stuck r sys' n h)
      | inr (addr, a) ↦ elim (msch_devs r sys' addr v a e h) [
        | inl same ↦ (w, rw same at, SameFixed-refl w)
        | inr m ↦ Modified-SameFixed k v w sys'.virt_devs e at m
      ]
    ]
  ]
