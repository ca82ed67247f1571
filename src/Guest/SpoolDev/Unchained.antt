-- ===== src/Guest/SpoolDev/Unchained.antt =====
-- SSCH with a channel program of one CCW, which always comes to an end.
use hvf.Base.{◌<◌, ℕ, suc, ◌≡◌, ◌≢◌, ◌⊎◌, inl, inr, true, false, some, Bytes}
use hvf.Errno.{success}
use hvf.Mm.Dat.{from_guest, memcpy_tofrom_guest}
use hvf.Guest.{has, VdevType, Vdev, Sys, set_cc, set_vdev, find_vdev}
use hvf.Guest.Priv.{status_pending, in_progress, handle_ssch}
use hvf.Guest.Priv.Codes.{Names}
use hvf.Guest.SpoolDev.{Host, St, bug, round, begin, run, get_ccw, spool_exec}
use hvf.Guest.SpoolDev.Start.{started, over, after, Ended, ssch-Ended}
use hvf.Guest.SpoolDev.Ends.{unchained_ends}

module _ (host : Host) (stack : Bytes) (fuel : ℕ) {sys : Sys} {addr : ℕ} {v : Vdev}
    (n : Names sys addr v) where
  abbrev begun : St
  begun =
      begin host (set_vdev (started host stack (suc fuel) n) sys) (started host stack (suc fuel) n)

  -- SSCH to an idle console or spool device whose first CCW is no TIC and asks for no chaining,
  -- where the ORB is copied and the allocator has a buffer to give, on any fuel but 0: unless CP
  -- stops at a BUG in the first round, the channel program runs from its first CCW to an end `st`,
  -- the condition code is 0, and the device is found with status pending for that state `st`.
  pub ssch_unchained :
      (v.vtype ≡ VdevType.cons) ⊎ (v.vtype ≡ VdevType.spool)
      → (memcpy_tofrom_guest host.lra from_guest addr 0 32 sys.storage stack).fault ≡ false
      → status_pending v ≡ false
      → in_progress v ≡ false
      → host.grants_buffer ≡ true
      → v.pmcw.isc < 8
      → (get_ccw host begun).1.cmd ≢ 0x08
      → has (get_ccw host begun).1.flags 0xc0 ≡ false
      → (round host begun ≡ bug)
        ⊎ ((st : St) × (run host (suc fuel) begun ≡ some st)
            × (w : Vdev) × (sys' : Sys) × (handle_ssch host.lra stack
                  (spool_exec host (suc fuel))
                  sys
                ≡ some (success, set_cc 0 sys'))
            × (find_vdev v.sch sys'.virt_devs ≡ some w)
            × Ended st w)
  ssch_unchained kind copied idle quiet granted small no_tic no_chain =
      elim (unchained_ends host fuel begun no_tic no_chain) [
        | inl b ↦ inl b
        | inr (st, ran) ↦
            let e =
              ssch-Ended host stack (suc fuel) n st kind copied idle quiet granted small ran in
            inr (
              st,
              ran,
              over host stack (suc fuel) n st,
              after host stack (suc fuel) n st,
              e.0,
              e.1,
              e.2,
            )
      ]
