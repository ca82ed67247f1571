-- ===== src/Guest/Attach/Fresh.antt =====
-- What an attachment gives a guest: the numbers are the smallest free ones, and an error leaves the
-- guest's devices as they are.
use hvf.Base.{
  ap, sym, ◌⊎◌, inr, inl, ◌≢◌, ℕ, zero, suc, ◌+◌, ◌%◌, ◌^◌, ◌≤◌, ◌<◌, ◌≡◌, refl, Bool, true, false,
  List, [], ◌∷◌, ◌++◌, Option, none, some, if◌then◌else◌, arith, Bool-cases, Option-cases,
}
use native.Mathlib.Decide.{ℕ_discrete}
use mathlib.Core.Path.{subst}
use hvf.Guest.{Errno, ded, Vdev}
use hvf.Guest.Attach.{
  guest_attach, dedicated, new_vdev, failed, setup_vdev, alloc_virt_dev, RealDevice, find_device,
  setup_vdev_ded, has_dev_num, has_sch, first_free,
}

-- `n` is the first number from `from` on, below `from + count`, that is not taken.
pub record IsLeast (taken : ℕ → Bool) (from count n : ℕ) : Type 0 where
  pub low : from ≤ n
  pub high : n < from + count
  pub free : taken n ≡ false
  pub least : (j : ℕ) → from ≤ j → j < n → taken j ≡ true

IsLeast-step :
    (taken : ℕ → Bool) (count from n : ℕ) (rest : Option ℕ) (b : Bool)
    → taken from ≡ b
    → (rest ≡ some n → IsLeast taken (from + 1) count n)
    → (if b then rest else some from) ≡ some n
    → IsLeast taken from (suc count) n
IsLeast-step taken count from n rest true e ih h =
    let r = ih h in
    record {
      low = omega (arith, r.low);
      high = omega (arith, r.high);
      free = r.free;
      least = λ j a b. elim (ℕ_discrete from j) [
        | yes same ↦ subst (λ j. taken j ≡ true) same e
        | no ne ↦ r.least j (omega arith) b
      ];
    }
IsLeast-step taken count from n rest false e ih h =
    let same : from ≡ n = ground arith in
    record {
      low = omega arith;
      high = omega arith;
      free = subst (λ j. taken j ≡ false) same e;
      least = λ j a b. absurd (omega arith);
    }

pub first_free-IsLeast :
    (taken : ℕ → Bool) (count from n : ℕ)
    → first_free taken count from ≡ some n
    → IsLeast taken from count n
unfolding first_free
first_free-IsLeast taken zero from n h = absurd (ground arith)
first_free-IsLeast taken (suc count) from n h =
    IsLeast-step taken count from n (first_free taken count (from + 1)) _ refl
      (first_free-IsLeast taken count (from + 1) n) h

pub first_free_total :
    (taken : ℕ → Bool) (count from n : ℕ)
    → from ≤ n
    → n < from + count
    → taken n ≡ false
    → first_free taken count from ≢ none
unfolding first_free
first_free_total taken zero from n a b c h = absurd (omega arith)
first_free_total taken (suc count) from n a b c h = elim (Bool-cases (taken from)) [
  | inl e ↦ elim (ℕ_discrete from n) [
    | yes same ↦ absurd (ground (arith, subst (λ j. taken j ≡ true) same e, c))
    | no ne ↦ first_free_total taken count (from + 1) n (omega arith) (omega arith) c (ground arith)
  ]
  | inr e ↦ absurd (ground arith)
]

-- What the set-up of a dedicated device keeps of the virtual device.
abbrev Keeps : Vdev → Vdev → Type 0
Keeps v v' = (v'.sch ≡ v.sch) × (v'.pmcw ≡ v.pmcw) × (v'.vtype ≡ v.vtype)

setup_vdev_ded-Keeps :
    (ccuu : ℕ) (rdevs : List RealDevice) (v : Vdev) → Keeps v ((setup_vdev_ded ccuu rdevs v).2)
unfolding setup_vdev_ded
setup_vdev_ded-Keeps ccuu rdevs v = elim (Option-cases (find_device ccuu rdevs)) [
  | inl e ↦ rw (setup_vdev_ded, e) (refl, refl, refl)
  | inr ((before, r, after), e) ↦ elim (Bool-cases r.in_use) [
    | inl u ↦ rw (setup_vdev_ded, e, u) (refl, refl, refl)
    | inr u ↦ rw (setup_vdev_ded, e, u) (refl, refl, refl)
  ]
]

-- What the caller gave or the search picked.
abbrev pub Numbered : Option ℕ → List Vdev → ℕ → Type 0
Numbered none vdevs n = IsLeast (λ n. has_dev_num n vdevs) 0 0x1_0000 n
Numbered (some given) vdevs n = n ≡ given

-- The guest has one more device, at the end of its list, with a number as asked for, and on the
-- smallest subchannel number from 0x10000 on that was free.
pub record Attached (vdev : Option ℕ) (vdevs vdevs' : List Vdev) : Type 0 where
  pub v : Vdev
  pub last : vdevs' ≡ vdevs ++ (v ∷ [])
  pub dedicated : v.vtype ≡ ded
  pub sch : IsLeast (λ s. has_sch s vdevs) 0x1_0000 0x1_0000 v.sch
  pub number : ℕ
  pub numbered : Numbered vdev vdevs number
  pub dev_num : v.pmcw.dev_num ≡ number % 2 ^ 16

abbrev pub Outcome : Option ℕ → List Vdev → Errno × List RealDevice × List Vdev → Type 0
Outcome vdev vdevs r =
    ((failed r.0 ≡ false) × Attached vdev vdevs r.2) ⊎ ((failed r.0 ≡ true) × (r.2 ≡ vdevs))

alloc_virt_dev-Outcome :
    (junk : Vdev) (rdev n sch : ℕ) (rdevs : List RealDevice) (vdev : Option ℕ) (vdevs : List Vdev)
    → IsLeast (λ s. has_sch s vdevs) 0x1_0000 0x1_0000 sch
    → Numbered vdev vdevs n
    → Outcome vdev vdevs (alloc_virt_dev junk (dedicated rdev n) sch rdevs vdevs)
unfolding alloc_virt_dev setup_vdev
alloc_virt_dev-Outcome junk rdev n sch rdevs vdev vdevs least numbered =
    let v0 = new_vdev junk (dedicated rdev n) sch in
    let s = setup_vdev_ded (rdev % 2 ^ 16) rdevs v0 in
    let k = setup_vdev_ded-Keeps (rdev % 2 ^ 16) rdevs v0 in
    elim (Bool-cases (failed s.0)) [
      | inl e ↦ inr (e, rw e refl)
      | inr e ↦ inl (
        e,
        record {
          v = s.2;
          last = rw e refl;
          dedicated = k.2;
          sch = subst (λ c. IsLeast (λ s. has_sch s vdevs) 0x1_0000 0x1_0000 c) (sym k.0) least;
          number = n;
          numbered = numbered;
          dev_num = ap (λ p. p.dev_num) k.1;
        },
      )
    ]

-- An attachment that succeeds adds exactly one device, on the smallest free subchannel number of
-- 0x10000 to 0x1ffff, with the device number that was given, or if none was, with the smallest free
-- one; one that fails leaves the guest's devices as they are.
pub guest_attach-Outcome :
    (junk : Vdev) (rdev : ℕ) (vdev : Option ℕ) (rdevs : List RealDevice) (vdevs : List Vdev)
    → Outcome vdev vdevs (guest_attach junk rdev vdev rdevs vdevs)
unfolding guest_attach
guest_attach-Outcome junk rdev (some n) rdevs vdevs =
    elim (Option-cases (first_free (λ s. has_sch s vdevs) 0x1_0000 0x1_0000)) [
      | inl e ↦ rw (guest_attach, e) (inr (refl, refl))
      | inr (sch, e) ↦
          rw (guest_attach, e)
            (alloc_virt_dev-Outcome junk rdev n sch rdevs (some n) vdevs
              (first_free-IsLeast _ _ _ _ e) refl)
    ]
guest_attach-Outcome junk rdev none rdevs vdevs =
    elim (Option-cases (first_free (λ n. has_dev_num n vdevs) 0x1_0000 0)) [
      | inl e ↦ rw (guest_attach, e) (inr (refl, refl))
      | inr (n, d) ↦ elim (Option-cases (first_free (λ s. has_sch s vdevs) 0x1_0000 0x1_0000)) [
        | inl e ↦ rw (guest_attach, d, e) (inr (refl, refl))
        | inr (sch, e) ↦
            rw (guest_attach, d, e)
              (alloc_virt_dev-Outcome junk rdev n sch rdevs none vdevs
                (first_free-IsLeast _ _ _ _ e) (first_free-IsLeast _ _ _ _ d))
      ]
    ]
