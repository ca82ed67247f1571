-- ===== src/Mm/Slab/Bitmap.antt =====
-- The bitmap of a slab page: what setting and clearing a bit does to the others, and the tally of
-- the objects that are in use.
use hvf.Base.{
  ℕ, zero, suc, ◌+◌, ◌*◌, ◌/◌, ◌%◌, ◌-◌, ◌^◌, ◌≤◌, ◌<◌, ◌≡◌, ◌⊎◌, inl, inr, refl, ap, sym, ◌∙◌,
  arith, bit_and, bit_or, if◌then◌else◌, ◌==◌, ltb, Bool, true, false, not, ◌&&◌, Bool-cases,
  holds_from, holds_from-value,
}
use native.Mathlib.Decide.{ℕ_discrete}
use hvf.Mm.Slab.{mask}

-- A test of a byte and two bits of it, at each value of a number that packs the three.
abbrev packed : (ℕ → ℕ → ℕ → Bool) → ℕ → Bool
packed test v = test (v / 64) (v / 8 % 8) (v % 8)

packed-value :
    (test : ℕ → ℕ → ℕ → Bool) (b i j : ℕ)
    → b < 256
    → holds_from 0 16384 (packed test) ≡ true
    → test b (i % 8) (j % 8) ≡ true
packed-value test b i j h table =
    let v = b * 64 + i % 8 * 8 + j % 8 in
    let row = holds_from-value 0 16384 v (packed test) (omega arith) (omega arith) table in
    let byte : v / 64 ≡ b = omega arith in
    let first : v / 8 % 8 ≡ i % 8 = omega arith in
    let second : v % 8 ≡ j % 8 = omega arith in
    ap (λ k. test k (i % 8) (j % 8)) (sym byte)
    ∙ ap (λ k. test (v / 64) k (j % 8)) (sym first)
    ∙ ap (λ k. test (v / 64) (v / 8 % 8) k) (sym second)
    ∙ row

abbrev bit : ℕ → ℕ
bit k = 2 ^ (7 - k)

-- Setting a bit, seen at another, and clearing one.
unfoldable set_ok : ℕ → ℕ → ℕ → Bool
set_ok b i j =
    (bit_and (bit_or b (bit i)) (bit j) == (if i == j then bit j else bit_and b (bit j)))
    && ltb (bit_or b (bit i)) 256
    && not (bit j == 0)

unfoldable clear_ok : ℕ → ℕ → ℕ → Bool
clear_ok b i j =
    (bit_and (bit_and b (255 - bit i)) (bit j) == (if i == j then 0 else bit_and b (bit j)))
    && ltb (bit_and b (255 - bit i)) 256

set_table : holds_from 0 16384 (packed set_ok) ≡ true
unfolding holds_from set_ok
set_table = refl

clear_table : holds_from 0 16384 (packed clear_ok) ≡ true
unfolding holds_from clear_ok
clear_table = refl

abbrev pub has_bit : ℕ → ℕ → Bool
has_bit b i = not (bit_and b (mask i) == 0)

pub set_bit :
    (b i j : ℕ)
    → b < 256
    → (has_bit (bit_or b (mask i)) j ≡ (if i % 8 == j % 8 then true else has_bit b j))
      × (bit_or b (mask i) < 256)
unfolding set_ok
set_bit b i j h =
    let row = packed-value set_ok b i j h set_table in (ground (arith, row), ground (arith, row))

pub clear_bit :
    (b i j : ℕ)
    → b < 256
    → (has_bit (bit_and b (255 - mask i)) j ≡ (if i % 8 == j % 8 then false else has_bit b j))
      × (bit_and b (255 - mask i) < 256)
unfolding clear_ok
clear_bit b i j h =
    let row = packed-value clear_ok b i j h clear_table in
    (ground (arith, row), ground (arith, row))

-- The sum of the weights of the flags that are set, of the first `n`.
unfoldable pub tally : (ℕ → Bool) → (ℕ → ℕ) → ℕ → ℕ
tally f w zero = 0
tally f w (suc n) = (if f n then w n else 0) + tally f w n

module _ (f g : ℕ → Bool) (w : ℕ → ℕ) where
  pub tally-same : (n : ℕ) → ((k : ℕ) → k < n → g k ≡ f k) → tally g w n ≡ tally f w n
  unfolding tally
  tally-same zero same = refl
  tally-same (suc n) same =
      ground (arith, same n (omega arith), tally-same n (λ k h. same k (omega arith)))

  -- One flag more.
  pub tally-more :
      (n i : ℕ)
      → i < n
      → f i ≡ false
      → ((k : ℕ) → g k ≡ (if k == i then true else f k))
      → tally g w n ≡ w i + tally f w n
  unfolding tally
  tally-more zero i h off set = absurd (omega arith)
  tally-more (suc n) i h off set = elim (ℕ_discrete i n) [
    | yes e ↦
        let on : g n ≡ true = ground (arith, set n) in
        let was : f n ≡ false = ap f (sym e) ∙ off in
        let same : w i ≡ w n = ap w e in
        ground (arith, on, was, same, tally-same n (λ k l. set k ∙ ground arith))
    | no later ↦
        let same : g n ≡ f n = ground (arith, set n) in
        ground (arith, same, tally-more n i (omega arith) off set)
  ]

-- All flags set.
pub tally-full : (f : ℕ → Bool) (n : ℕ) → ((k : ℕ) → k < n → f k ≡ true) → tally f (λ k. 1) n ≡ n
unfolding tally
tally-full f zero all = refl
tally-full f (suc n) all =
    ground (arith, all n (omega arith), tally-full f n (λ k h. all k (omega arith)))

pub tally-zero :
    (f : ℕ → Bool) (w : ℕ → ℕ) (n : ℕ)
    → ((k : ℕ) → k < n → (f k ≡ false) ⊎ (w k ≡ 0))
    → tally f w n ≡ 0
unfolding tally
tally-zero f w zero none_of = refl
tally-zero f w (suc n) none_of =
    ground (arith, none_of n (omega arith), tally-zero f w n (λ k h. none_of k (omega arith)))

-- A sum that is not 0 has a flag that is set and a weight that is not 0.
pub tally-some :
    (f : ℕ → Bool) (w : ℕ → ℕ) (n : ℕ)
    → 1 ≤ tally f w n
    → (k : ℕ) × (k < n) × (f k ≡ true) × (1 ≤ w k)
unfolding tally
tally-some f w zero h = absurd (omega arith)
tally-some f w (suc n) h = elim (Bool-cases (f n)) [
  | inr off ↦ let r = tally-some f w n (ground (arith, off)) in (r.0, omega (arith, r.1), r.2, r.3)
  | inl on ↦ elim (ℕ_discrete (w n) 0) [
    | yes none_of ↦
        let r = tally-some f w n (ground (arith, on)) in (r.0, omega (arith, r.1), r.2, r.3)
    | no e ↦ (n, omega arith, on, omega arith)
  ]
]

pub tally_bound : (f : ℕ → Bool) (n : ℕ) → tally f (λ k. 1) n ≤ n
unfolding tally
tally_bound f zero = omega arith
tally_bound f (suc n) = ground (arith, tally_bound f n)
