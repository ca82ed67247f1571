-- ===== src/Drivers/Registry/Typed.antt =====
-- The driver that a device gets.
use mathlib.Core.Option.{some-injective}
use hvf.Base.{
  All, ℕ, ◌≡◌, ◌≢◌, ◌⊎◌, inl, inr, refl, ap, sym, ◌∙◌, arith, true, false, ◌&&◌, ◌||◌, List, [],
  ◌∷◌, ◌++◌, none, some, ◌==◌, Bool-cases, Option-cases,
}
use hvf.Errno.{failed}
use hvf.Drivers.Registry.{
  Device, DeviceType, find_type, set_type, Subchannel, do_sense_id, fake_dev_type,
}

-- The two lists have elements that belong together, one by one.
abbrev pub Paired : {A B : Type 0} → (A → B → Type 0) → List A → List B → Type 0
Paired R [] [] = Unit {0}
Paired R [] (y ∷ ys) = ⊥
Paired R (x ∷ xs) [] = ⊥
Paired R (x ∷ xs) (y ∷ ys) = R x y × Paired R xs ys

pub Paired-snoc :
    {A B : Type 0} (R : A → B → Type 0) (xs : List A) (ys : List B) (x : A) (y : B)
    → Paired R xs ys
    → R x y
    → Paired R (xs ++ x ∷ []) (ys ++ y ∷ [])
Paired-snoc R [] [] x y h r = (r, tt)
Paired-snoc R [] (b ∷ ys) x y h r = absurd h
Paired-snoc R (a ∷ xs) [] x y h r = absurd h
Paired-snoc R (a ∷ xs) (b ∷ ys) x y h r = (h.0, Paired-snoc R xs ys x y h.1 r)

-- A type of a driver, not that of the scan.
abbrev pub IsReal : DeviceType → Type 0
IsReal t = (t.type ≢ 0) × (t.address ≢ 0)

pub find_type-fake :
    (d : Device) (ts : List DeviceType)
    → d.type ≡ 0
    → d.model ≡ 0
    → All IsReal ts
    → find_type d (ts ++ fake_dev_type ∷ []) ≡ some fake_dev_type
unfolding find_type
find_type-fake d [] a b h = ground arith
find_type-fake d (t ∷ ts) a b h =
    let test : (t.type == d.type && (t.all_models || t.model == d.model)) ≡ false =
      ground (arith, h.0.0) in
    rw test (find_type-fake d ts a b h.1)

-- The driver of a device: a type of the list that is for it.
pub data Drives (d : Device) : List DeviceType → Type 0 where
  first :
      (t : DeviceType) (ts : List DeviceType)
      → t.type ≡ d.type
      → (t.all_models || t.model == d.model) ≡ true
      → d.dev ≡ some t.address
      → Drives d (t ∷ ts)
  later : (t : DeviceType) (ts : List DeviceType) → Drives d ts → Drives d (t ∷ ts)

-- The subchannel's device has its number, type and model, one reference, no user, and no driver or
-- one of the types in the list for it.
pub record Described (types : List DeviceType) (m : ℕ → Subchannel) (sch : ℕ) (d : Device)
    : Type 0 where
  pub sch_num : d.sch ≡ sch
  pub ccuu : d.ccuu ≡ (m sch).dev_num
  pub kind : (d.type ≡ (do_sense_id (m sch)).1) × (d.model ≡ (do_sense_id (m sch)).2)
  pub unused : (d.refcnt ≡ 1) × (d.in_use ≡ false)
  pub driver : (d.dev ≡ none) ⊎ Drives d types

-- What `set_type` leaves of a device.
pub record Typed (types : List DeviceType) (d d' : Device) : Type 0 where
  pub sch_num : d'.sch ≡ d.sch
  pub ccuu : d'.ccuu ≡ d.ccuu
  pub kind : (d'.type ≡ d.type) × (d'.model ≡ d.model)
  pub unused : (d'.refcnt ≡ 1) × (d'.in_use ≡ false)
  pub driver : (d'.dev ≡ none) ⊎ Drives d' types

find_type-Drives :
    (d d' : Device) (ts : List DeviceType) (t : DeviceType)
    → find_type d ts ≡ some t
    → d'.type ≡ d.type
    → d'.model ≡ d.model
    → d'.dev ≡ some t.address
    → Drives d' ts
unfolding find_type
find_type-Drives d d' [] t h a b c = absurd (ground arith)
find_type-Drives d d' (u ∷ ts) t h a b c =
    elim (Bool-cases (u.type == d.type && (u.all_models || u.model == d.model))) [
      | inl y ↦
          let same : u ≡ t = some-injective u t (rw (find_type, y) at h) in
          first u ts (ground (arith, y, a)) (ground (arith, y, b))
            (c ∙ ap (λ x. some x.address) (sym same))
      | inr n ↦ later u ts (find_type-Drives d d' ts t (rw (find_type, n) at h) a b c)
    ]

pub set_type-Typed : (types : List DeviceType) (d : Device) → Typed types d (set_type types d).1
unfolding set_type
set_type-Typed types d = elim (Option-cases (find_type d types)) [
  | inl n ↦
      rw (set_type, n)
        (record {
          sch_num = refl;
          ccuu = refl;
          kind = (refl, refl);
          unused = (refl, refl);
          driver = inl refl;
        })
  | inr (t, q) ↦
      let found : Device = record d { refcnt = 1; in_use = false; dev = some t.address } in
      let driver = find_type-Drives d found types t q refl refl refl in
      elim (Option-cases t.reg) [
        | inl n ↦
            rw (set_type, q, n)
              (record {
                sch_num = refl;
                ccuu = refl;
                kind = (refl, refl);
                unused = (refl, refl);
                driver = inr driver;
              })
        | inr (reg, e) ↦ elim (Bool-cases (failed (reg found))) [
          | inl y ↦
              rw (set_type, q, e, y)
                (record {
                  sch_num = refl;
                  ccuu = refl;
                  kind = (refl, refl);
                  unused = (refl, refl);
                  driver = inl refl;
                })
          | inr n ↦
              rw (set_type, q, e, n)
                (record {
                  sch_num = refl;
                  ccuu = refl;
                  kind = (refl, refl);
                  unused = (refl, refl);
                  driver = inr driver;
                })
        ]
      ]
]
