-- ===== src/Guest/SpoolDev/Ends.antt =====
-- When the loop over the CCWs of a channel program ends.
use hvf.Base.{
  ℕ, suc, ◌+◌, ◌%◌, ◌^◌, ◌≡◌, ◌≢◌, refl, ◌⊎◌, inl, inr, Bool, true, false, not, Option, none, some,
  ◌==◌, if◌then◌else◌, arith,
}
use hvf.Guest.{has}
use hvf.Guest.SpoolDev.{
  interpret, after_execute, normal_end, Ccw, St, Host, get_ccw, invalid, Round, done, next, bug,
  operate, round, run,
}

-- How a round ends.
abbrev goes_on : Round → Bool
goes_on (done st) = false
goes_on (next st) = true
goes_on bug = false

goes_on-if :
    (a b : Round) (c : Bool)
    → goes_on a ≡ false
    → goes_on b ≡ false
    → goes_on (if c then a else b) ≡ false
goes_on-if a b true p q = p
goes_on-if a b false p q = q

module _ (host : Host) where
  after_execute_ends :
      (ccw : Ccw) (r : Option St)
      → has ccw.flags 0xc0 ≡ false
      → goes_on (after_execute host ccw r) ≡ false
  unfolding after_execute
  after_execute_ends ccw none h = refl
  after_execute_ends ccw (some st) h =
      rw h (goes_on-if _ _ (not (st.dev_status == normal_end)) refl refl)

  interpret_ends :
      (ccw : Ccw) (st : St)
      → (ccw.cmd == 0x08) ≡ false
      → has ccw.flags 0xc0 ≡ false
      → goes_on (interpret host ccw st) ≡ false
  unfolding interpret operate
  interpret_ends ccw st t h = rw t (
      goes_on-if _ _ (not (st.sch_status == 0)) refl
        (goes_on-if _ _ (invalid host ccw st) refl (after_execute_ends ccw _ h)))

  run-round :
      (fuel : ℕ) (st : St) (r : Round)
      → round host st ≡ r
      → goes_on r ≡ false
      → (round host st ≡ bug) ⊎ ((end : St) × (run host (suc fuel) st ≡ some end))
  unfolding run
  run-round fuel st (done end) e g = inr (end, rw (run, e) refl)
  run-round fuel st (next st') e g = absurd (ground arith)
  run-round fuel st bug e g = inl e

  -- A CCW that is no TIC and asks for no chaining ends the channel program in the round that
  -- fetches it, whatever its command, its checks and its transfers come to, unless CP stops at a
  -- BUG.
  pub unchained_ends :
      (fuel : ℕ) (st : St)
      → (get_ccw host st).1.cmd ≢ 0x08
      → has (get_ccw host st).1.flags 0xc0 ≡ false
      → (round host st ≡ bug) ⊎ ((end : St) × (run host (suc fuel) st ≡ some end))
  unfolding round
  unchained_ends fuel st t h =
      let (st', ccw) = get_ccw host st in
      let test : (ccw.cmd == 0x08) ≡ false = ground arith in
      run-round fuel st _ refl
        (interpret_ends ccw (record st' { addr = (st'.addr + 8) % 2 ^ 32 }) test h)
