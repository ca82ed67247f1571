-- ===== src/Drivers/Registry/Identified.antt =====
-- A subchannel that is identified has a device at the end of the list.
use mathlib.Core.Path.{subst}
use hvf.Base.{
  All, ℕ, ◌≡◌, ◌⊎◌, refl, ap, sym, ◌∙◌, arith, Bool, true, false, List, [], ◌∷◌, ◌++◌, none, some,
  map, ◌==◌, if◌then◌else◌,
}
use hvf.Errno.{success}
use hvf.Drivers.Registry.{
  Device, DeviceType, Registry, with_device, set_type, list_del, among, register_device, Subchannel,
  do_sense_id, fake_dev_type, is_fake, identify,
}
use hvf.Drivers.Registry.Typed.{Drives, IsReal, find_type-fake, Described, set_type-Typed}

list_del-snoc : (id : ℕ) (js : List ℕ) → among id js ≡ false → list_del id (js ++ id ∷ []) ≡ js
unfolding list_del among
list_del-snoc id [] h = ground arith
list_del-snoc id (j ∷ js) h = ground (arith, h, list_del-snoc id js)

pub map-ne :
    (id : ℕ) (d : Device) (r : Registry) (js : List ℕ)
    → among id js ≡ false
    → map (with_device id d r).device js ≡ map r.device js
unfolding among
map-ne id d r [] h = refl
map-ne id d r (j ∷ js) h =
    let other : (j == id) ≡ false = ground (arith, h) in
    let rest : among id js ≡ false = ground (arith, h) in
    rw other (ap (λ l. r.device j ∷ l) (map-ne id d r js rest))

pub map-snoc :
    (f : ℕ → Device) (js : List ℕ) (id : ℕ) → map f (js ++ id ∷ []) ≡ map f js ++ f id ∷ []
map-snoc f [] id = refl
map-snoc f (j ∷ js) id = ap (λ l. f j ∷ l) (map-snoc f js id)

-- `__register_device`, of a device that is not in the list or is removed from it.
register_device-added :
    (id : ℕ) (remove : Bool) (r : Registry) (js : List ℕ)
    → (if remove then list_del id r.devices else r.devices) ≡ js
    → among id js ≡ false
    → register_device id remove r
      ≡ some (
        (set_type r.types (r.device id)).0,
        with_device id (set_type r.types (r.device id)).1 (record r { devices = js ++ id ∷ [] }),
      )
unfolding register_device
register_device-added id remove r js e h = rw (register_device, e, h) refl

set_type-fake :
    (d : Device) (ts : List DeviceType)
    → d.type ≡ 0
    → d.model ≡ 0
    → All IsReal ts
    → set_type (ts ++ fake_dev_type ∷ []) d
      ≡ (success, record d { refcnt = 1; in_use = false; dev = some 0 })
unfolding set_type
set_type-fake d ts a b h = rw (set_type, find_type-fake d ts a b h) refl

module _ (m : ℕ → Subchannel) (real : List DeviceType) (reals : All IsReal real)
    (answers : (sch : ℕ) → (do_sense_id (m sch)).0 ≡ success) where
  abbrev pub scan_types : List DeviceType
  scan_types = real ++ fake_dev_type ∷ []

  module _ (sch id : ℕ) (r : Registry) (same : r.types ≡ scan_types)
      (new : among id r.devices ≡ false)
      (clear : ((r.device id).type ≡ 0) × ((r.device id).model ≡ 0)) where
    self : (id == id) ≡ true
    self = ground arith

    abbrev pub numbered : Device
    numbered = record (r.device id) { sch = sch }

    abbrev pub r1 : Registry
    r1 = with_device id numbered r

    abbrev pub faked : Device
    faked = record numbered { refcnt = 1; in_use = false; dev = some 0 }

    abbrev pub r2 : Registry
    r2 = with_device id faked (record r1 { devices = r.devices ++ id ∷ [] })

    first_time : register_device id false r1 ≡ some (success, r2)
    first_time =
        let at : r1.device id ≡ numbered = rw self refl in
        let typed : set_type r1.types (r1.device id) ≡ (success, faked) =
          ap (λ d. set_type r.types d) at
          ∙ ap (λ ts. set_type ts numbered) same
          ∙ set_type-fake numbered real clear.0 clear.1 reals in
        register_device-added id false r1 r.devices refl new
        ∙ ap (λ p. some (p.0, with_device id p.1 (record r1 { devices = r.devices ++ id ∷ [] })))
            typed

    abbrev pub sensed : Device
    sensed = record (r2.device id) {
      type = (do_sense_id (m sch)).1;
      model = (do_sense_id (m sch)).2;
      ccuu = (m sch).dev_num;
    }

    abbrev pub r3 : Registry
    r3 = with_device id sensed r2

    abbrev pub r4 : Registry
    r4 =
        with_device id (set_type r3.types (r3.device id)).1
          (record r3 { devices = r.devices ++ id ∷ [] })

    second_time : register_device id true r3 ≡ some ((set_type r3.types (r3.device id)).0, r4)
    second_time = register_device-added id true r3 r.devices (list_del-snoc id r.devices new) new

    pub identify_lem : identify (m sch) sch id r ≡ some (none, r4)
    unfolding identify
    identify_lem =
        let fake : is_fake (r2.device id).dev ≡ true = rw self refl in
        rw (identify, first_time, fake, answers sch, second_time) refl

    pub identified : Described scan_types m sch (r4.device id)
    identified =
        let t = set_type-Typed r3.types (r3.device id) in
        let at : r4.device id ≡ (set_type r3.types (r3.device id)).1 = rw self refl in
        let before : r3.device id ≡ sensed = rw self refl in
        let faked_at : r2.device id ≡ faked = rw self refl in
        subst (Described scan_types m sch) (sym at) (record {
          sch_num = t.sch_num ∙ ap (λ d. d.sch) before ∙ ap (λ d. d.sch) faked_at;
          ccuu = t.ccuu ∙ ap (λ d. d.ccuu) before;
          kind = (t.kind.0 ∙ ap (λ d. d.type) before, t.kind.1 ∙ ap (λ d. d.model) before);
          unused = t.unused;
          driver =
              subst
                (λ ts.
                  ((set_type r3.types (r3.device id)).1.dev ≡ none)
                  ⊎ Drives (set_type r3.types (r3.device id)).1 ts)
                same t.driver;
        })

    pub others_same : map r4.device r.devices ≡ map r.device r.devices
    others_same =
        map-ne id (set_type r3.types (r3.device id)).1
          (record r3 { devices = r.devices ++ id ∷ [] }) r.devices new
        ∙ map-ne id sensed r2 r.devices new
        ∙ map-ne id faked (record r1 { devices = r.devices ++ id ∷ [] }) r.devices new
        ∙ map-ne id numbered r r.devices new
