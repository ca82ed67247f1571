-- ===== src/Drivers/Registry/Scanned.antt =====
-- The scan registers each subchannel that is there and can be enabled.
use mathlib.Core.Path.{subst}
use hvf.Base.{
  All, ℕ, zero, suc, ◌+◌, ◌<◌, ◌≡◌, inl, inr, refl, ap, ◌∙◌, arith, true, false, not, ◌&&◌, List,
  [], ◌∷◌, ◌++◌, Option, none, some, map, ◌==◌, if◌then◌else◌, Bool-cases,
}
use mathlib.Core.List.{append_assoc, append-nil}
use hvf.Errno.{success, failed}
use hvf.Drivers.Registry.{
  Device, DeviceType, Registry, is_registered, register_device_type, unregister,
  unregister_device_type, among, Subchannel, do_sense_id, fake_dev_type, alloc_device, identify,
  scan_one, scan_from, scan_range, scan_devices,
}
use hvf.Drivers.Registry.Later.{
  All-later, All-snoc-later, among-later, not_registered, unregister-snoc,
}
use hvf.Drivers.Registry.Typed.{Paired, Paired-snoc, IsReal, Described}
use hvf.Drivers.Registry.Identified.{
  scan_types, map-snoc, map-ne, identify_lem, identified, others_same, r4,
}

-- The subchannels of the `count` from `sch` on that are there and can be enabled.
unfoldable pub operational : (ℕ → Subchannel) → ℕ → ℕ → List ℕ
operational m zero sch = []
operational m (suc count) sch =
    (if (m sch).there && not (failed (m sch).modified) then sch ∷ [] else [])
    ++ operational m count (sch + 1)

module _ (m : ℕ → Subchannel) (junk : Device) (zeroed : (junk.type ≡ 0) × (junk.model ≡ 0))
    (real : List DeviceType) (reals : All IsReal real)
    (answers : (sch : ℕ) → (do_sense_id (m sch)).0 ≡ success) where
  -- A device structure that is ready for the next subchannel.
  abbrev Ready : ℕ → ℕ → Registry → Type 0
  Ready sch id r =
      (id < sch)
      × (among id r.devices ≡ false)
      × ((r.device id).type ≡ 0)
      × ((r.device id).model ≡ 0)

  abbrev Left : ℕ → Option ℕ → Registry → Type 0
  Left sch none r = Unit {0}
  Left sch (some id) r = Ready sch id r

  Left-later : (left : Option ℕ) (sch : ℕ) (r : Registry) → Left sch left r → Left (sch + 1) left r
  Left-later none sch r h = tt
  Left-later (some id) sch r h = (omega (arith, h.0), h.1, h.2, h.3)

  record Inv (done : List ℕ) (sch : ℕ) (left : Option ℕ) (r : Registry) : Type 0 where
    pub types : r.types ≡ scan_types m real reals answers
    pub earlier : All (λ j. j < sch) r.devices
    pub left_over : Left sch left r
    pub described :
        Paired (Described (scan_types m real reals answers) m) done (map r.device r.devices)

  -- After the allocation.
  alloc_device-Inv :
      (done : List ℕ) (sch : ℕ) (left : Option ℕ) (r : Registry)
      → Inv done sch left r
      → Ready (sch + 1) (alloc_device junk sch left r).0 (alloc_device junk sch left r).1
        × Inv done sch none (alloc_device junk sch left r).1
  alloc_device-Inv done sch none r i =
      let self : (sch == sch) ≡ true = ground arith in
      let new = among-later r.devices sch i.earlier in
      (
        (omega arith, new, rw self zeroed.0, rw self zeroed.1),
        record {
          types = i.types;
          earlier = i.earlier;
          left_over = tt;
          described =
              rw (map-ne sch (record junk { attention = 0; dev = some 0 }) r r.devices new)
                i.described;
        },
      )
  alloc_device-Inv done sch (some id) r i =
      let (a, b, c, d) = i.left_over in
      (
        (omega (arith, a), b, c, d),
        record { types = i.types; earlier = i.earlier; left_over = tt; described = i.described },
      )

  identify-Inv :
      (done : List ℕ) (sch id : ℕ) (r : Registry)
      → Ready (sch + 1) id r
      → Inv done sch none r
      → (r' : Registry) × (identify (m sch) sch id r ≡ some (none, r'))
        × Inv (done ++ sch ∷ []) (sch + 1) none r'
  identify-Inv done sch id r (a, b, c, d) i = (
    r4 m real reals answers sch id r i.types b (c, d),
    identify_lem m real reals answers sch id r i.types b (c, d),
    record {
      types = i.types;
      earlier = All-snoc-later r.devices id sch i.earlier a;
      left_over = tt;
      described =
          let r' = r4 m real reals answers sch id r i.types b (c, d) in
          let all : map r'.device (r.devices ++ id ∷ [])
              ≡ map r.device r.devices ++ r'.device id ∷ [] =
            map-snoc r'.device r.devices id
            ∙ ap (λ l. l ++ r'.device id ∷ [])
                (others_same m real reals answers sch id r i.types b (c, d)) in
          rw all (
            Paired-snoc (Described (scan_types m real reals answers) m) done
              (map r.device r.devices) sch (r'.device id) i.described
              (identified m real reals answers sch id r i.types b (c, d)));
    },
  )

  scan_one-Inv :
      (done : List ℕ) (sch : ℕ) (left : Option ℕ) (r : Registry)
      → Inv done sch left r
      → (left' : Option ℕ) × (r' : Registry) × (scan_one m junk sch left r ≡ some (left', r'))
        × Inv
            (done ++ (if (m sch).there && not (failed (m sch).modified) then sch ∷ [] else []))
            (sch + 1)
            left'
            r'
  unfolding scan_one
  scan_one-Inv done sch left r i = elim (Bool-cases (m sch).there) [
    | inr n ↦ (
      left,
      r,
      rw (scan_one, n) refl,
      rw (n, append-nil done)
          (record {
            types = i.types;
            earlier = All-later r.devices sch i.earlier;
            left_over = Left-later left sch r i.left_over;
            described = i.described;
          }),
    )
    | inl y ↦
        let (ready, j) = alloc_device-Inv done sch left r i in
        let a = alloc_device junk sch left r in
        elim (Bool-cases (failed (m sch).modified)) [
          | inl f ↦ (
            some a.0,
            a.1,
            rw (scan_one, y, f) refl,
            rw (y, f, append-nil done)
                (record {
                  types = j.types;
                  earlier = All-later a.1.devices sch j.earlier;
                  left_over = ready;
                  described = j.described;
                }),
          )
          | inr g ↦
              let (r', q, k) = identify-Inv done sch a.0 a.1 ready j in
              (none, r', rw (scan_one, y, g) q, rw (y, g) k)
        ]
  ]

  scan_from-Inv :
      (count : ℕ) (done : List ℕ) (sch : ℕ) (left : Option ℕ) (r : Registry)
      → Inv done sch left r
      → (left' : Option ℕ) × (r' : Registry) × (scan_from m junk count sch left r
          ≡ some (left', r'))
        × Inv (done ++ operational m count sch) (sch + count) left' r'
  unfolding scan_from operational
  scan_from-Inv zero done sch left r i =
      (left, r, refl, rw (append-nil done) (subst (λ k. Inv done k left r) (omega arith) i))
  scan_from-Inv (suc count) done sch left r i =
      let now = if (m sch).there && not (failed (m sch).modified) then sch ∷ [] else [] in
      let (left1, r1, q, j) = scan_one-Inv done sch left r i in
      let (left2, r2, p, k) = scan_from-Inv count (done ++ now) (sch + 1) left1 r1 j in
      (
        left2,
        r2,
        rw (scan_from, q) p,
        subst (λ d. Inv d (sch + suc count) left2 r2)
            (append_assoc done now (operational m count (sch + 1)))
            (subst (λ n. Inv ((done ++ now) ++ operational m count (sch + 1)) n left2 r2)
              (omega arith) k),
      )

  register_fake :
      (r : Registry)
      → r.types ≡ real
      → register_device_type fake_dev_type r
        ≡ (success, record r { types = scan_types m real reals answers })
  unfolding register_device_type
  register_fake r types =
      let new : is_registered fake_dev_type r.types ≡ false =
        ap (is_registered fake_dev_type) types ∙ not_registered real reals in
      rw (register_device_type, new)
        (ap (λ ts. (success, record r { types = ts ++ fake_dev_type ∷ [] })) types)

  abbrev pub Scanned : ℕ → ℕ → Registry → Type 0
  Scanned count first r' =
      (r'.types ≡ real)
      × Paired (Described (scan_types m real reals answers) m) (operational m count first)
          (map r'.device r'.devices)

  scan_range-Scanned :
      (count first : ℕ) (r : Registry)
      → r.types ≡ real
      → r.devices ≡ []
      → (r' : Registry) × (scan_range m junk count first r ≡ some r') × Scanned count first r'
  unfolding scan_range unregister_device_type
  scan_range-Scanned count first r types none_yet =
      let r0 : Registry = record r { types = scan_types m real reals answers } in
      let start : Inv [] first none r0 = record {
        types = refl;
        earlier = rw none_yet tt;
        left_over = tt;
        described = rw none_yet tt;
      } in
      let (left, r', q, i) = scan_from-Inv count [] first none r0 start in
      (
        unregister_device_type fake_dev_type r',
        rw (scan_range, register_fake r types, q) refl,
        (ap (unregister 0) i.types ∙ unregister-snoc real reals, i.described),
      )

  -- On a machine whose devices all answer SENSE ID, with storage from the allocator that is zero,
  -- no devices yet, and drivers' types that are not type 0, the scan ends and meets no BUG. The
  -- types are as before, and the list has one device for each of the subchannels 0x10000 to 0x1ffff
  -- that is there and lets itself be enabled, in their order: with its number, the device number,
  -- the type and model that SENSE ID gives or, for the device 0009, those of the table, and with no
  -- driver or that of a type in the list for it.
  pub scan_devices-Described :
      (r : Registry)
      → r.types ≡ real
      → r.devices ≡ []
      → (r' : Registry) × (scan_devices m junk r ≡ some r') × Scanned 0x1_0000 0x1_0000 r'
  unfolding scan_devices
  scan_devices-Described r types none_yet = scan_range-Scanned 0x1_0000 0x1_0000 r types none_yet
