-- ===== src/Mm/Slab/Taken.antt =====
-- What `alloc` does in one page of a cache: it takes an object that is not in use, if there is one.
use hvf.Base.{
  ℕ, zero, suc, ◌+◌, ◌*◌, ◌/◌, ◌%◌, ◌≤◌, ◌<◌, ◌≡◌, ◌≢◌, inl, inr, refl, ap, sym, ◌∙◌, arith, bit_or,
  if◌then◌else◌, ◌==◌, true, false, Bool-cases, Bytes, put, none, some, Option-cases,
}
use native.Mathlib.Nat.{mul-le-mul_left, eq_of_mul-eq-mul_left}
use native.Mathlib.Decide.{ℕ_discrete}
use hvf.Mm.Slab.{Slab, mask, bits, in_use, first_unused, alloc_in, obj_at}
use hvf.Mm.Slab.Bitmap.{set_bit, has_bit, tally, tally-same, tally-more, tally-full, tally-zero}

-- `used` is right, the bitmap and the objects lie in the page, and the page has an object.
pub record Sound (s : Slab) (bytes : Bytes) : Type 0 where
  pub counted : s.used ≡ tally (in_use bytes s) (λ i. 1) s.count
  pub some_object : 1 ≤ s.count
  pub bitmap_inside : 40 + (s.count + 7) / 8 ≤ 4096
  pub inside : s.startoff + s.count * s.objsize ≤ 4096
  pub sized : 1 ≤ s.objsize
  pub page : s.addr % 4096 ≡ 0

-- How many objects at `a` are in use.
abbrev pub live_in : Slab → Bytes → ℕ → ℕ
live_in s bytes a = tally (in_use bytes s) (λ i. if obj_at s i == a then 1 else 0) s.count

-- Two objects of a page have two addresses.
obj_at-injective : (s : Slab) (i j : ℕ) → 1 ≤ s.objsize → obj_at s i ≡ obj_at s j → i ≡ j
obj_at-injective s i j h e = eq_of_mul-eq-mul_left s.objsize h i j (omega (arith, e))

-- The objects lie in the page.
pub obj_at-page :
    (s : Slab) (bytes : Bytes) (i : ℕ)
    → Sound s bytes
    → i < s.count
    → obj_at s i / 4096 ≡ s.addr / 4096
obj_at-page s bytes i v h =
    let whole : s.objsize * (i + 1) ≤ s.objsize * s.count =
      mul-le-mul_left s.objsize (omega arith) in
    omega (arith, v.inside, v.page, v.sized)

first_unused-some :
    (bytes : Bytes) (s : Slab) (n from i : ℕ)
    → first_unused bytes s n from ≡ some i
    → (i < from + n) × (in_use bytes s i ≡ false)
unfolding first_unused
first_unused-some bytes s zero from i e = absurd (ground arith)
first_unused-some bytes s (suc n) from i e = elim (Bool-cases (in_use bytes s from)) [
  | inl u ↦
      let r = first_unused-some bytes s n (from + 1) i (ground (arith, u)) in
      (omega (arith, r.0), r.1)
  | inr u ↦ let same : i ≡ from = ground (arith, u) in (omega arith, ap (in_use bytes s) same ∙ u)
]

first_unused-none :
    (bytes : Bytes) (s : Slab) (n from k : ℕ)
    → first_unused bytes s n from ≡ none
    → from ≤ k
    → k < from + n
    → in_use bytes s k ≡ true
unfolding first_unused
first_unused-none bytes s zero from k e h l = absurd (omega arith)
first_unused-none bytes s (suc n) from k e h l = elim (Bool-cases (in_use bytes s from)) [
  | inr u ↦ absurd (ground (arith, u))
  | inl u ↦ elim (ℕ_discrete k from) [
    | yes here ↦ ap (in_use bytes s) here ∙ u
    | no later ↦
        first_unused-none bytes s n (from + 1) k (ground (arith, u)) (omega arith) (omega arith)
  ]
]

-- Setting the bit of an object marks it and no other.
abbrev marked : Bytes → Slab → ℕ → Bytes
marked bytes s i = put bytes (bits s i) (bit_or (bytes (bits s i)) (mask i))

in_use-marked :
    (bytes : Bytes) (s : Slab) (i j : ℕ)
    → bytes (bits s i) < 256
    → in_use (marked bytes s i) s j ≡ (if j == i then true else in_use bytes s j)
in_use-marked bytes s i j h = elim (ℕ_discrete (i / 8) (j / 8)) [
  | yes e ↦
      let byte : bits s j ≡ bits s i = omega (arith, e) in
      let new : marked bytes s i (bits s j) ≡ bit_or (bytes (bits s i)) (mask i) =
        ground (arith, byte) in
      let old : bytes (bits s j) ≡ bytes (bits s i) = ap bytes byte in
      ap (λ b. has_bit b j) new ∙ (set_bit (bytes (bits s i)) i j h).0 ∙ rw old (ground (arith, e))
  | no e ↦
      let old : marked bytes s i (bits s j) ≡ bytes (bits s j) = ground (arith, e) in
      ap (λ b. has_bit b j) old ∙ ground (arith, e)
]

-- The object `obj` of the page is taken: it was not in use, and nothing else changed.
pub record TakenIn (s : Slab) (bytes : Bytes) (obj : ℕ) (s' : Slab) (bytes' : Bytes) : Type 0 where
  pub index : ℕ
  pub in_range : index < s.count
  pub obj_lem : obj ≡ obj_at s index
  pub was : in_use bytes s index ≡ false
  pub slab_lem : s' ≡ record s { used = s.used + 1 }
  pub flags : (j : ℕ) → in_use bytes' s j ≡ (if j == index then true else in_use bytes s j)
  pub byte : ℕ
  pub stored : bytes' ≡ put bytes (bits s index) byte
  pub byte_bound : byte < 256

pub alloc_in-TakenIn :
    (s : Slab) (bytes : Bytes)
    → Sound s bytes
    → ((a : ℕ) → bytes a < 256)
    → s.used < s.count
    → let r = alloc_in s bytes in TakenIn s bytes r.0 r.1 r.2
unfolding alloc_in
alloc_in-TakenIn s bytes v b h = elim (Option-cases (first_unused bytes s s.count 0)) [
  | inl e ↦ absurd (
      omega (
        arith,
        v.counted,
        tally-full (in_use bytes s) s.count
            (λ k l. first_unused-none bytes s s.count 0 k e (omega arith) (omega arith)),
      ))
  | inr (i, e) ↦
      let found = first_unused-some bytes s s.count 0 i e in
      rw (alloc_in, e)
        (record {
          index = i;
          in_range = omega (arith, found.0);
          obj_lem = refl;
          was = found.1;
          slab_lem = ap (λ n. record s { used = n }) (omega (arith, v.bitmap_inside));
          flags = λ j. in_use-marked bytes s i j (b (bits s i));
          byte = bit_or (bytes (bits s i)) (mask i);
          stored = refl;
          byte_bound = (set_bit (bytes (bits s i)) i i (b (bits s i))).1;
        })
]

module _ (s s' : Slab) (bytes bytes' : Bytes) (obj : ℕ) (v : Sound s bytes)
    (t : TakenIn s bytes obj s' bytes') where
  taken-tally :
      (w : ℕ → ℕ) → tally (in_use bytes' s) w s.count ≡ w t.index + tally (in_use bytes s) w s.count
  taken-tally w =
      tally-more (in_use bytes s) (in_use bytes' s) w s.count t.index t.in_range t.was t.flags

  pub taken-Sound : Sound s' bytes'
  taken-Sound = rw (t.slab_lem) (record {
    counted = omega (arith, v.counted, taken-tally (λ i. 1));
    some_object = v.some_object;
    bitmap_inside = v.bitmap_inside;
    inside = v.inside;
    sized = v.sized;
    page = v.page;
  })

  -- One object more is in use at `obj`, and as many as before at each other address.
  pub taken-live : (a : ℕ) → live_in s' bytes' a ≡ (if obj == a then 1 else 0) + live_in s bytes a
  taken-live a = rw (t.slab_lem, t.obj_lem) (taken-tally (λ i. if obj_at s i == a then 1 else 0))

  pub taken-bound : ((a : ℕ) → bytes a < 256) → (a : ℕ) → bytes' a < 256
  taken-bound b a = rw (t.stored) (ground (arith, b a, t.byte_bound))

  -- Storage outside of the page is as before.
  pub taken-outside : (a : ℕ) → a / 4096 ≢ s.addr / 4096 → bytes' a ≡ bytes a
  taken-outside a h = rw (t.stored) (ground (arith, v.bitmap_inside, v.page, t.in_range, h))

  -- The object lies in the page.
  pub taken-page : obj / 4096 ≡ s.addr / 4096
  taken-page = ap (λ o. o / 4096) t.obj_lem ∙ obj_at-page s bytes t.index v t.in_range

  -- It was not in use.
  pub taken-free : live_in s bytes obj ≡ 0
  taken-free =
      tally-zero (in_use bytes s) (λ i. if obj_at s i == obj then 1 else 0) s.count
        (λ j h. elim (ℕ_discrete j t.index) [
          | yes e ↦ inl (ap (in_use bytes s) e ∙ t.was)
          | no e ↦ inr (ground (arith, t.obj_lem, obj_at-injective s j t.index v.sized))
        ])

module _ (s : Slab) (bytes bytes' : Bytes) (v : Sound s bytes)
    (same : (a : ℕ) → a / 4096 ≡ s.addr / 4096 → bytes' a ≡ bytes a) where
  frame-tally : (w : ℕ → ℕ) → tally (in_use bytes' s) w s.count ≡ tally (in_use bytes s) w s.count
  frame-tally w =
      tally-same (in_use bytes s) (in_use bytes' s) w s.count
        (λ k h. ap (λ b. has_bit b k) (same (bits s k) (omega (arith, v.bitmap_inside, v.page))))

  -- A page whose bytes are as before.
  pub frame-Sound : Sound s bytes'
  frame-Sound = record {
    counted = v.counted ∙ sym (frame-tally (λ i. 1));
    some_object = v.some_object;
    bitmap_inside = v.bitmap_inside;
    inside = v.inside;
    sized = v.sized;
    page = v.page;
  }

  pub frame-live : (a : ℕ) → live_in s bytes' a ≡ live_in s bytes a
  frame-live a = frame-tally (λ i. if obj_at s i == a then 1 else 0)

-- No object of a page is at an address of another page.
pub live_in-elsewhere :
    (s : Slab) (bytes : Bytes) (a : ℕ)
    → Sound s bytes
    → a / 4096 ≢ s.addr / 4096
    → live_in s bytes a ≡ 0
live_in-elsewhere s bytes a v h =
    tally-zero (in_use bytes s) (λ i. if obj_at s i == a then 1 else 0) s.count
      (λ j l. inr (ground (arith, obj_at-page s bytes j v l)))
