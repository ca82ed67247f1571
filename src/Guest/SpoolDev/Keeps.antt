-- ===== src/Guest/SpoolDev/Keeps.antt =====
-- What a channel program leaves alone of the system and of its device.
use hvf.Base.{
  ap, inl, inr, ◌⊎◌, inr, inl, ◌⊎◌, ℕ, zero, suc, ◌+◌, ◌%◌, ◌^◌, ◌≡◌, refl, ◌∙◌, Bool, true, false,
  not, ◌&&◌, ◌||◌, none, some, ◌==◌, if◌then◌else◌, arith, Option-cases,
}
use mathlib.Core.Path.{subst}
use hvf.Guest.{has}
use hvf.Guest.SpoolDev.{
  interpret, after_execute, normal_end, Ccw, St, Host, open_spoolfile, cons_written, cons_write,
  execute, xfer_storage, get_ccw, invalid, Round, done, next, bug, operate, round, run,
}

-- The CPU, the list of devices, and of the device its number, PMCW and subchannel status.
pub record Keeps (st st' : St) : Type 0 where
  pub cpu : st'.sys.cpu ≡ st.sys.cpu
  pub devs : st'.sys.virt_devs ≡ st.sys.virt_devs
  pub sch : st'.vdev.sch ≡ st.vdev.sch
  pub pmcw : st'.vdev.pmcw ≡ st.vdev.pmcw
  pub scsw : st'.vdev.scsw ≡ st.vdev.scsw
  pub vtype : st'.vdev.vtype ≡ st.vdev.vtype

Keeps-refl : (st : St) → Keeps st st
Keeps-refl st = record {
  cpu = refl;
  devs = refl;
  sch = refl;
  pmcw = refl;
  scsw = refl;
  vtype = refl;
}

Keeps-of : (st st' : St) → st'.sys ≡ st.sys → st'.vdev ≡ st.vdev → Keeps st st'
Keeps-of st st' p q = record {
  cpu = ap (λ s. s.cpu) p;
  devs = ap (λ s. s.virt_devs) p;
  sch = ap (λ v. v.sch) q;
  pmcw = ap (λ v. v.pmcw) q;
  scsw = ap (λ v. v.scsw) q;
  vtype = ap (λ v. v.vtype) q;
}

Keeps-trans : {a b c : St} → Keeps a b → Keeps b c → Keeps a c
Keeps-trans p q = record {
  cpu = q.cpu ∙ p.cpu;
  devs = q.devs ∙ p.devs;
  sch = q.sch ∙ p.sch;
  pmcw = q.pmcw ∙ p.pmcw;
  scsw = q.scsw ∙ p.scsw;
  vtype = q.vtype ∙ p.vtype;
}

-- The state that a round ends in, if it ends.
abbrev KeepsRound : St → Round → Type 0
KeepsRound st (done st') = Keeps st st'
KeepsRound st (next st') = Keeps st st'
KeepsRound st bug = Unit {0}

KeepsRound-if :
    (st : St) (a b : Round) (c : Bool)
    → KeepsRound st a
    → KeepsRound st b
    → KeepsRound st (if c then a else b)
KeepsRound-if st a b true p q = p
KeepsRound-if st a b false p q = q

KeepsRound-trans : {st st' : St} → Keeps st st' → (r : Round) → KeepsRound st' r → KeepsRound st r
KeepsRound-trans p (done st'') q = Keeps-trans p q
KeepsRound-trans p (next st'') q = Keeps-trans p q
KeepsRound-trans p bug q = tt

module _ (host : Host) where
  xfer_storage-Keeps :
      (write : Bool) (ccw : Ccw) (st : St) → Keeps st (xfer_storage host write ccw st)
  unfolding xfer_storage
  xfer_storage-Keeps write ccw st = ground arith

  get_ccw-Keeps : (st : St) → Keeps st (get_ccw host st).0
  unfolding get_ccw
  get_ccw-Keeps st = ground arith

  execute-Keeps : (ccw : Ccw) (st st' : St) → execute host ccw st ≡ some st' → Keeps st st'
  unfolding execute open_spoolfile cons_written cons_write
  execute-Keeps ccw st st' h = ground arith

  execute_cases :
      (ccw : Ccw) (st : St)
      → (execute host ccw st ≡ none)
        ⊎ ((st' : St) × (execute host ccw st ≡ some st') × Keeps st st')
  execute_cases ccw st = elim (Option-cases (execute host ccw st)) [
    | inl e ↦ inl e
    | inr (st', e) ↦ inr (st', e, execute-Keeps ccw st st' e)
  ]

  transfer-Keeps :
      (test write : Bool) (ccw : Ccw) (st : St)
      → Keeps st (if test then xfer_storage host write ccw st else st)
  transfer-Keeps true write ccw st = xfer_storage-Keeps write ccw st
  transfer-Keeps false write ccw st = Keeps-refl st

  after_execute-KeepsRound :
      (ccw : Ccw) (st : St) → KeepsRound st (after_execute host ccw (some st))
  unfolding after_execute
  after_execute-KeepsRound ccw st =
      let moved = transfer-Keeps (ccw.cmd % 4 == 0x2) false ccw st in
      KeepsRound-if _ _ _ (not (st.dev_status == normal_end)) (Keeps-refl st) (
        KeepsRound-if _ _ _ (not (has ccw.flags 0xc0)) moved
          (Keeps-trans moved (Keeps-of _ _ refl refl)))

  operate-KeepsRound : (ccw : Ccw) (st : St) → KeepsRound st (operate host ccw st)
  unfolding operate after_execute
  operate-KeepsRound ccw st =
      let loaded = if ccw.cmd % 4 == 0x1 then xfer_storage host true ccw st else st in
      elim (execute_cases ccw loaded) [
        | inl e ↦ rw e tt
        | inr (st', e, k) ↦ rw e (
            KeepsRound-trans (Keeps-trans (transfer-Keeps (ccw.cmd % 4 == 0x1) true ccw st) k)
              (after_execute host ccw (some st')) (after_execute-KeepsRound ccw st'))
      ]

  interpret-KeepsRound : (ccw : Ccw) (st : St) → KeepsRound st (interpret host ccw st)
  unfolding interpret
  interpret-KeepsRound ccw st =
      let checked = record st { sch_status = 0x20 } in
      let jumped = record st { addr = ccw.addr; tic2tic = true } in
      let refused = record st { tic2tic = false; sch_status = 0x20 } in
      let ready = record st { tic2tic = false } in
      let twice =
        st.tic2tic || (not (st.f == 0) && (not (ccw.flags == 0) || not (ccw.count == 0))) in
      KeepsRound-if st _ _ (not (st.sch_status == 0)) (Keeps-refl st) (
        KeepsRound-if st _ _ (ccw.cmd == 0x08)
          (KeepsRound-if st (done checked) (next jumped) twice (Keeps-of st checked refl refl)
            (Keeps-of st jumped refl refl))
          (KeepsRound-if st (done refused) (operate host ccw ready) (invalid host ccw st)
            (Keeps-of st refused refl refl)
            (KeepsRound-trans (Keeps-of st ready refl refl) _ (operate-KeepsRound ccw ready))))

  round-KeepsRound : (st : St) → KeepsRound st (round host st)
  unfolding round
  round-KeepsRound st =
      let (st', ccw) = get_ccw host st in
      let stepped = record st' { addr = (st'.addr + 8) % 2 ^ 32 } in
      KeepsRound-trans (Keeps-trans (get_ccw-Keeps st) (Keeps-of st' stepped refl refl)) _
        (interpret-KeepsRound ccw stepped)

  after_round :
      (fuel : ℕ) (st st' : St)
      → ((next_st : St) → run host fuel next_st ≡ some st' → Keeps next_st st')
      → (r : Round) → KeepsRound st r
      → elim r [ done st1 ↦ some st1 | next st1 ↦ run host fuel st1 | bug ↦ none ] ≡ some st'
      → Keeps st st'
  after_round fuel st st' ih (done st1) k h = let e : st1 ≡ st' = cc in subst (λ s. Keeps st s) e k
  after_round fuel st st' ih (next st1) k h = Keeps-trans k (ih st1 h)
  after_round fuel st st' ih bug k h = absurd (cc)

  -- A channel program that ends, however many rounds it takes, leaves the CPU and the list of
  -- devices as they were, and of its device the subchannel number, type, PMCW and subchannel
  -- status.
  pub run-Keeps : (fuel : ℕ) (st st' : St) → run host fuel st ≡ some st' → Keeps st st'
  unfolding run
  run-Keeps zero st st' h = absurd (cc)
  run-Keeps (suc fuel) st st' h =
      after_round fuel st st' (λ s e. run-Keeps fuel s st' e) (round host st) (round-KeepsRound st)
        h
