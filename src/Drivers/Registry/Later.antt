-- ===== src/Drivers/Registry/Later.antt =====
-- Addresses of devices that were allocated before, and the scan's own type among those of drivers.
use hvf.Base.{All, ℕ, ◌+◌, ◌<◌, ◌≡◌, refl, arith, false, List, [], ◌∷◌, ◌++◌}
use hvf.Drivers.Registry.{DeviceType, is_registered, unregister, among, fake_dev_type}
use hvf.Drivers.Registry.Typed.{IsReal}

pub All-later : (js : List ℕ) (sch : ℕ) → All (λ j. j < sch) js → All (λ j. j < sch + 1) js
All-later [] sch h = tt
All-later (j ∷ js) sch h = (omega (arith, h.0), All-later js sch h.1)

pub All-snoc-later :
    (js : List ℕ) (id sch : ℕ)
    → All (λ j. j < sch) js
    → id < sch + 1
    → All (λ j. j < sch + 1) (js ++ id ∷ [])
All-snoc-later [] id sch h l = (l, tt)
All-snoc-later (j ∷ js) id sch h l = (omega (arith, h.0), All-snoc-later js id sch h.1 l)

pub among-later : (js : List ℕ) (sch : ℕ) → All (λ j. j < sch) js → among sch js ≡ false
unfolding among
among-later [] sch h = refl
among-later (j ∷ js) sch h = ground (arith, h.0, among-later js sch h.1)

pub not_registered : (ts : List DeviceType) → All IsReal ts → is_registered fake_dev_type ts ≡ false
unfolding is_registered
not_registered [] h = refl
not_registered (t ∷ ts) h = ground (arith, h.0.0, h.0.1, not_registered ts h.1)

pub unregister-snoc :
    (ts : List DeviceType) → All IsReal ts → unregister 0 (ts ++ fake_dev_type ∷ []) ≡ ts
unfolding unregister
unregister-snoc [] h = refl
unregister-snoc (t ∷ ts) h = ground (arith, h.0.1, unregister-snoc ts h.1)
