-- ===== src/Guest/Priv/Store.antt =====
-- What STSCH stores.
use hvf.Base.{ℕ, ◌+◌, ◌%◌, ◌≤◌, ◌≡◌, refl, ◌∙◌, Option, some, Bytes, memcpy, arith}
use hvf.Errno.{success}
use hvf.Mm.Dat.{to_guest}
use hvf.Mm.Dat.Transfer.{within_page}
use hvf.Guest.{Vdev, Sys, set_cc}
use hvf.Guest.Layout.{decode_pmcw, encode_pmcw, decode_scsw, encode_scsw}
use hvf.Guest.Layout.RoundTrip.{
  FitsPmcw, FitsScsw, SamePmcw, decode-encode_pmcw, decode-encode_scsw,
}
use hvf.Guest.Priv.{handle_stsch}
use hvf.Guest.Priv.Codes.{Names, with_vdev-Names}

-- Guest storage with the device's PMCW and SCSW at `host`.
abbrev pub with_schib : Bytes → ℕ → Vdev → Bytes
with_schib m host v =
    memcpy (memcpy m host (encode_pmcw v.pmcw) 0 28) (host + 28) (encode_scsw v.scsw) 0 12

module _ (lra : ℕ → Option ℕ) (stack : Bytes) {sys : Sys} {addr : ℕ} {v : Vdev} (host : ℕ)
    (n : Names sys addr v) (first : lra addr ≡ some host)
    (second : lra (addr + 28) ≡ some (host + 28)) (fits : host % 4096 + 40 ≤ 4096) where
  stsch_runs :
      handle_stsch lra stack sys
      ≡ some (success, set_cc 0 (record sys { storage = with_schib sys.storage host v }))
  unfolding handle_stsch
  stsch_runs =
      with_vdev-Names _ n
      ∙ rw
          (
            within_page lra to_guest addr 0 28 host sys.storage (encode_pmcw v.pmcw) first
                (omega arith) (omega arith),
            within_page lra to_guest (addr + 28) 0 12 (host + 28) _ (encode_scsw v.scsw) second
                (omega arith) (omega arith),
          )
          refl

  -- STSCH on an existing subchannel, with a SCHIB that lies in one page of the guest, sets
  -- condition code 0, and the PMCW and SCSW read from the guest's SCHIB are those of the device.
  pub stsch-decode :
      FitsPmcw v.pmcw
      → FitsScsw v.scsw
      → (sys' : Sys) × (handle_stsch lra stack sys ≡ some (success, set_cc 0 sys'))
        × (sys'.virt_devs ≡ sys.virt_devs)
        × SamePmcw (decode_pmcw sys'.storage host) v.pmcw
        × (decode_scsw sys'.storage (host + 28) ≡ v.scsw)
  stsch-decode p s = (
    record sys { storage = with_schib sys.storage host v },
    stsch_runs,
    refl,
    decode-encode_pmcw v.pmcw _ host p (λ i h. ground arith),
    decode-encode_scsw v.scsw _ (host + 28) s (λ i h. ground arith),
  )
