-- ===== src/Mm/Slab/Geometry.antt =====
-- Where the objects of a slab page stand.
use hvf.Base.{
  false, not, ◌&&◌, zero, suc, ◌↔◌, not, ◌↔◌, ℕ, ◌+◌, ◌*◌, ◌/◌, ◌%◌, ◌-◌, ◌≤◌, ◌<◌, ◌≡◌, ◌⊎◌, inl,
  inr, refl, arith, bit_and, bit_and_three, bit_and_seven, if◌then◌else◌, ◌==◌, ltb, Bool-cases,
}
use native.Mathlib.Nat.{div-mul-le_self, div-lt_iff_lt-mul, le-div_iff_mul-le}
use hvf.Mm.Slab.{Slab, lay_out, round_up, header_size}

-- All objects lie in the page, behind its header, and each is large enough; their sizes and
-- addresses have the alignment.
pub record Fits (size align : ℕ) (s : Slab) : Type 0 where
  pub large : size ≤ s.objsize
  pub aligned_size : s.objsize % align ≡ 0
  pub aligned : s.startoff % align ≡ 0
  pub behind : header_size ≤ s.startoff
  pub inside : s.startoff + s.count * s.objsize ≤ 4096

-- `r` is `v` rounded up to the alignment.
record Rounded (align v r : ℕ) : Type 0 where
  pub aligned : r % align ≡ 0
  pub least : v ≤ r
  pub less : r < v + align
  pub whole : 1 ≤ v → align ≤ r
  pub same : (bit_and v (align - 1) ≡ 0) ↔ (r ≡ v)

round_up-4 : (v : ℕ) → v < 65500 → Rounded 4 v (round_up v 3)
round_up-4 v h = record {
  aligned = ground (arith, bit_and_three v);
  least = ground (arith, bit_and_three v);
  less = ground (arith, bit_and_three v);
  whole = λ (p : 1 ≤ v). ground (arith, bit_and_three v);
  same = ground (arith, bit_and_three v);
}

round_up-8 : (v : ℕ) → v < 65500 → Rounded 8 v (round_up v 7)
round_up-8 v h = record {
  aligned = ground (arith, bit_and_seven v);
  least = ground (arith, bit_and_seven v);
  less = ground (arith, bit_and_seven v);
  whole = λ (p : 1 ≤ v). ground (arith, bit_and_seven v);
  same = ground (arith, bit_and_seven v);
}

-- The objects and the bitmap of a page, before the offset is aligned.
unaligned_inside : (o : ℕ) → 40 + (32448 / (8 * o + 1) + 4) / 8 + 32448 / (8 * o + 1) * o ≤ 4096
unaligned_inside o = let c = 32448 / (8 * o + 1) in omega (arith, div-mul-le_self 32448 (8 * o + 1))

-- The offset rounded up, and one object fewer where the objects then run past the page.
aligned_inside :
    (o c from start align b : ℕ)
    → from + c * o ≤ 4096
    → from ≤ 4000
    → start < from + align
    → align ≤ o
    → align ≤ 8
    → (b ≡ 0 → start ≡ from)
    → start + (if not (b == 0) && ltb 4096 ((start + c * o) % 65536) then c - 1 else c) * o ≤ 4096
aligned_inside o c from start align zero h room less big small same = omega (arith, same refl)
aligned_inside o zero from start align (suc b) h room less big small same = ground arith
aligned_inside o (suc c) from start align (suc b) h room less big small same =
    elim (Bool-cases (ltb 4096 ((start + suc c * o) % 65536))) [
      | inl e ↦
          let rounded : (suc b == 0) ≡ false = ground arith in
          let fewer : suc c - 1 ≡ c = omega arith in rw (e, rounded, fewer) (omega arith)
      | inr e ↦ rw e (ground (arith, e))
    ]

count_bound : (o : ℕ) → 1 ≤ o → 32448 / (8 * o + 1) ≤ 3605
count_bound zero h = absurd (omega arith)
count_bound (suc o) h = omega (arith, div-mul-le_self 32448 (8 * suc o + 1))

lay_out-Fits_align :
    (addr size align : ℕ)
    → 1 ≤ size
    → size < 65000
    → 1 ≤ align
    → align ≤ 8
    → ((v : ℕ) → v < 65500 → Rounded align v (round_up v (align - 1)))
    → Fits size align (lay_out addr size (align - 1))
unfolding lay_out
lay_out-Fits_align addr size align h big pos small up =
    let o = up size (omega arith) in
    let c = 32448 / (8 * round_up size (align - 1) + 1) in
    let within = unaligned_inside (round_up size (align - 1)) in
    let from = 40 + (c + 4) / 8 in
    let few : c ≤ 3605 = count_bound (round_up size (align - 1)) (omega (arith, o.least)) in
    let s = up from (omega arith) in
    record {
      large = o.least;
      aligned_size = o.aligned;
      aligned = s.aligned;
      behind = omega (arith, s.least);
      inside =
          aligned_inside (round_up size (align - 1)) c from (round_up from (align - 1)) align
            (bit_and from (align - 1)) within (omega arith) s.less (o.whole h) small s.same.0;
    }

-- A slab page for objects of 1 to 64,999 bytes at an alignment of 4 or 8, as `init_slab` asks for
-- them, has all its objects inside the page, behind the header, aligned, and large enough.
pub lay_out-Fits :
    (addr size align : ℕ)
    → 1 ≤ size
    → size < 65000
    → (align ≡ 4) ⊎ (align ≡ 8)
    → Fits size align (lay_out addr size (align - 1))
lay_out-Fits addr size align h big (inl e) =
    rw e (lay_out-Fits_align addr size 4 h big (omega arith) (omega arith) round_up-4)
lay_out-Fits addr size align h big (inr e) =
    rw e (lay_out-Fits_align addr size 8 h big (omega arith) (omega arith) round_up-8)

few_objects : (o : ℕ) → 1014 ≤ o → o ≤ 4055 → (1 ≤ 32448 / (8 * o + 1)) × (32448 / (8 * o + 1) ≤ 3)
few_objects o h big =
    let below =
      (div-lt_iff_lt-mul {k = 8 * o + 1} {x = 32448} {y = 4} (omega arith)).1 (omega arith) in
    (
      (le-div_iff_mul-le {k = 8 * o + 1} {x = 1} {y = 32448} (omega arith)).1 (omega arith),
      omega (arith, below),
    )

overlap_align :
    (addr size align : ℕ)
    → 1014 ≤ round_up size (align - 1)
    → round_up size (align - 1) ≤ 4055
    → bit_and header_size (align - 1) ≡ 0
    → let s = lay_out addr size (align - 1) in (s.startoff ≡ header_size) × (1 ≤ s.count)
unfolding lay_out
overlap_align addr size align h big even =
    let c = 32448 / (8 * round_up size (align - 1) + 1) in
    let few = few_objects (round_up size (align - 1)) h big in
    let from : header_size + (c + 4) / 8 ≡ header_size = omega (arith, few) in
    rw (from, even) (refl, few.0)

-- For objects of 1,014 to 4,048 bytes at an alignment of 4 or 8 a slab page has an object or more,
-- and the first starts right behind the header, where the bitmap stands. (A page holds one to three
-- of them, and `(count + 4) / 8` is 0.)
pub bitmap_overlap :
    (addr size align : ℕ)
    → 1014 ≤ size
    → size ≤ 4048
    → (align ≡ 4) ⊎ (align ≡ 8)
    → let s = lay_out addr size (align - 1) in (s.startoff ≡ header_size) × (1 ≤ s.count)
bitmap_overlap addr size align h big (inl e) =
    let o = round_up-4 size (omega arith) in
    rw e (overlap_align addr size 4 (omega (arith, o.least)) (omega (arith, o.less)) refl)
bitmap_overlap addr size align h big (inr e) =
    let o = round_up-8 size (omega arith) in
    rw e (overlap_align addr size 8 (omega (arith, o.least)) (omega (arith, o.less)) refl)
