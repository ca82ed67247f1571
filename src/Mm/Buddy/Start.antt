-- ===== src/Mm/Buddy/Start.antt =====
-- What `init_buddy_alloc` puts into the lists: each page from the first to the end of storage,
-- once.
use hvf.Base.{
  true, ◌⊎◌, ℕ, zero, suc, ◌+◌, ◌-◌, ◌*◌, ◌/◌, ◌%◌, ◌^◌, ◌≤◌, ◌<◌, ◌≡◌, ◌≢◌, refl, ltb, leb, ◌&&◌,
  ◌==◌, if◌then◌else◌, length, arith, Bool-cases, inl, inr, ◌∙◌, sym, ap,
}
use hvf.Mm.Buddy.{Zones, two_gb, int_range, init_orders, init_buddy_alloc}
use hvf.Mm.Buddy.Frames.{in_list, in_orders, Every}
use hvf.Mm.Buddy.Pages.{IsValid, InLow, InNormal, free}
use native.Mathlib.Nat.{two-pow-succ, pow-le-pow_right, div-div-eq-div-mul}

-- Whether `x` is one of the `n` pages from `base` on.
abbrev pub within : ℕ → ℕ → ℕ → ℕ
within base n x = if leb base x && ltb x (base + n) then 1 else 0

length-init_orders : (base pages order n : ℕ) → length (init_orders base pages order n) ≡ n
unfolding init_orders
length-init_orders base pages order zero = refl
length-init_orders base pages order (suc n) = elim (Bool-cases (pages / 2 ^ order % 2 == 0)) [
  | inl e ↦ rw e (omega (arith, length-init_orders base pages (order + 1) n))
  | inr e ↦
      rw e
        (omega (arith, length-init_orders ((base + int_range order) % 2 ^ 52) pages (order + 1) n))
]

pow_next : (order : ℕ) → 2 ^ (order + 1) ≡ 2 ^ order + 2 ^ order
pow_next order =
    let e : order + 1 ≡ suc order = omega arith in ap (λ n. 2 ^ n) e ∙ two-pow-succ order

halved : (pages order q : ℕ) → q ≡ pages / 2 ^ order → q / 2 ≡ pages / 2 ^ (order + 1)
halved pages order q e =
    let two_halves : 2 ^ order * 2 ≡ 2 ^ (order + 1) = omega (arith, pow_next order) in
    ap (λ q. q / 2) e ∙ div-div-eq-div-mul pages (2 ^ order) 2 ∙ ap (λ t. pages / t) two_halves

times_odd : (h t : ℕ) → (1 + 2 * h) * t ≡ t + h * (t + t)
times_odd h t = grind arith

times_even : (h t : ℕ) → 2 * h * t ≡ h * (t + t)
times_even h t = grind arith

even_pages : (q t u : ℕ) → q % 2 ≡ 0 → u ≡ t + t → q * t ≡ q / 2 * u
even_pages q t u e d =
    let split : q ≡ 2 * (q / 2) = omega arith in
    ap (λ q. q * t) split ∙ times_even (q / 2) t ∙ ap (λ u. q / 2 * u) (sym d)

odd_pages : (q t u : ℕ) → q % 2 ≢ 0 → u ≡ t + t → q * t ≡ t + q / 2 * u
odd_pages q t u e d =
    let split : q ≡ 1 + 2 * (q / 2) = omega arith in
    ap (λ q. q * t) split ∙ times_odd (q / 2) t ∙ ap (λ u. t + q / 2 * u) (sym d)

within_parts :
    (base a b x w : ℕ) → w ≡ a + b → within base a x + within (base + a) b x ≡ within base w x
within_parts base a b x w e = ground arith

-- The base of the next range, for ranges in storage.
next_base :
    (base order : ℕ)
    → order < 19
    → base + 2 ^ order < 2 ^ 52
    → (base + int_range order) % 2 ^ 52 ≡ base + 2 ^ order
unfolding int_range
next_base base order small fits =
    let test : ltb order 19 ≡ true = ground arith in rw test (omega (arith, fits))

twice : (r t : ℕ) → (2 + r) * t ≡ t + t + r * t
twice r t = grind arith

-- From order 19 on, a range that is in the first 2 ^ 20 pages is the last one.
last_range : (q order : ℕ) → 19 ≤ order → q * 2 ^ order < 2 ^ 20 → q / 2 ≡ 0
last_range zero order l h = refl
last_range (suc zero) order l h = refl
last_range (suc (suc r)) order l h =
    let big : 2 ^ 19 ≤ 2 ^ order = pow-le-pow_right (omega arith) l in
    let same : suc (suc r) ≡ 2 + r = omega arith in
    absurd (omega (arith, big, rw same at h, twice r (2 ^ order)))

init_orders-within :
    (base pages order n q w x : ℕ)
    → q ≡ pages / 2 ^ order
    → q < 2 ^ n
    → w ≡ q * 2 ^ order
    → w < 2 ^ 20
    → base + w < 2 ^ 52
    → in_orders order x (init_orders base pages order n) ≡ within base w x
unfolding init_orders in_orders in_list
init_orders-within base pages order zero q w x e l m small fits =
    let none_left : q ≡ 0 = omega arith in
    let nothing : w ≡ 0 = omega (arith, rw none_left at m) in ground arith
init_orders-within base pages order (suc n) q w x e l m small fits =
    let half = halved pages order q e in
    let fewer : q / 2 < 2 ^ n = omega (arith, two-pow-succ n) in
    elim (Bool-cases (pages / 2 ^ order % 2 == 0)) [
      | inl b ↦ rw b (
          let rest =
            init_orders-within base pages (order + 1) n (q / 2) w x half fewer
              (m ∙ even_pages q (2 ^ order) (2 ^ (order + 1)) (ground arith) (pow_next order)) small
              fits in
          omega (arith, rest))
      | inr b ↦ rw b (
          let split = odd_pages q (2 ^ order) (2 ^ (order + 1)) (ground arith) (pow_next order) in
          let base' = (base + int_range order) % 2 ^ 52 in
          let w' = q / 2 * 2 ^ (order + 1) in
          let total : w ≡ 2 ^ order + w' = m ∙ split in
          let parts = within_parts base (2 ^ order) w' x w total in
          elim (Bool-cases (ltb order 19)) [
            | inl y ↦
                let next = next_base base order (ground arith) (omega (arith, total, fits)) in
                let rest =
                  init_orders-within base' pages (order + 1) n (q / 2) w' x half fewer refl
                    (omega (arith, total, small)) (omega (arith, next, total, fits)) in
                omega (arith, rest, ap (λ b. within b w' x) next, parts)
            | inr y ↦
                let last = last_range q order (ground arith) (omega (arith, m, small)) in
                let none_left : w' ≡ 0 = ap (λ h. h * 2 ^ (order + 1)) last ∙ omega arith in
                let rest =
                  init_orders-within base' pages (order + 1) n (q / 2) w' x half fewer refl
                    (omega (arith, none_left)) (omega (arith, none_left)) in
                ground (arith, rest, parts, none_left)
          ])
    ]

init_orders-InLow :
    (base pages order n q : ℕ)
    → q ≡ pages / 2 ^ order
    → base + q * 2 ^ order ≤ two_gb
    → order + n ≤ 19
    → Every InLow order (init_orders base pages order n)
unfolding init_orders
init_orders-InLow base pages order zero q e h l = tt
init_orders-InLow base pages order (suc n) q e h l =
    let half = halved pages order q e in
    elim (Bool-cases (pages / 2 ^ order % 2 == 0)) [
      | inl b ↦ rw b (
        tt,
        init_orders-InLow base pages (order + 1) n (q / 2) half
            (omega (
              arith,
              h,
              even_pages q (2 ^ order) (2 ^ (order + 1)) (ground arith) (pow_next order),
            ))
            (omega arith),
      )
      | inr b ↦
          let split = odd_pages q (2 ^ order) (2 ^ (order + 1)) (ground arith) (pow_next order) in
          let next = next_base base order (omega arith) (omega (arith, h, split)) in
          rw b (
            ((omega (arith, h, split), omega arith), tt),
            init_orders-InLow ((base + int_range order) % 2 ^ 52) pages (order + 1) n (q / 2) half
                (omega (arith, h, split, next)) (omega arith),
          )
    ]

init_orders-InNormal :
    (base pages order n q : ℕ)
    → q ≡ pages / 2 ^ order
    → q * 2 ^ order < 2 ^ 20
    → ((two_gb ≤ base) × (base + q * 2 ^ order < 2 ^ 52)) ⊎ (q ≡ 0)
    → order + n ≤ 52
    → Every InNormal order (init_orders base pages order n)
unfolding init_orders
init_orders-InNormal base pages order zero q e small h l = tt
init_orders-InNormal base pages order (suc n) q e small h l =
    let half = halved pages order q e in
    elim (Bool-cases (pages / 2 ^ order % 2 == 0)) [
      | inl b ↦
          let split = even_pages q (2 ^ order) (2 ^ (order + 1)) (ground arith) (pow_next order) in
          rw b (
            tt,
            init_orders-InNormal base pages (order + 1) n (q / 2) half (omega (arith, small, split))
                (elim h [
                  | inl (above, fits) ↦ inl (above, omega (arith, fits, split))
                  | inr z ↦ inr (omega (arith, z))
                ])
                (omega arith),
          )
      | inr b ↦
          let split = odd_pages q (2 ^ order) (2 ^ (order + 1)) (ground arith) (pow_next order) in
          let odd : q % 2 ≢ 0 = ground arith in
          elim h [
            | inr z ↦ absurd (omega (arith, odd, z))
            | inl (above, fits) ↦ rw b (
              ((above, omega arith), tt),
              init_orders-InNormal ((base + int_range order) % 2 ^ 52) pages (order + 1) n (q / 2)
                  half (omega (arith, small, split))
                  (elim (Bool-cases (ltb order 19)) [
                    | inl y ↦
                        let next =
                          next_base base order (ground arith) (omega (arith, fits, split)) in
                        inl (omega (arith, above, next), omega (arith, fits, split, next))
                    | inr y ↦ inr (last_range q order (ground arith) small)
                  ])
                  (omega arith),
            )
          ]
    ]

-- Lists for `low_pages` under 2 GB and `normal_pages` above.
two_zones :
    (start low_pages normal_pages : ℕ)
    → start + low_pages ≤ two_gb
    → low_pages < 2 ^ 19
    → normal_pages < 2 ^ 20
    → let z : Zones = record {
      orders_low = init_orders start low_pages 0 19;
      orders_normal = init_orders two_gb normal_pages 0 52;
    } in
      IsValid z × ((x : ℕ) → free x z ≡ within start low_pages x + within two_gb normal_pages x)
two_zones start low_pages normal_pages fits l n = (
  record {
    low_lists = length-init_orders start low_pages 0 19;
    normal_lists = length-init_orders two_gb normal_pages 0 52;
    low_ranges =
        init_orders-InLow start low_pages 0 19 low_pages (omega arith) (omega arith) (omega arith);
    normal_ranges =
        init_orders-InNormal two_gb normal_pages 0 52 normal_pages (omega arith) (omega arith)
          (inl (omega arith, omega arith)) (omega arith);
  },
  λ x. omega (
    arith,
    init_orders-within start low_pages 0 19 low_pages low_pages x (omega arith) l (omega arith)
        (omega arith) (omega arith),
    init_orders-within two_gb normal_pages 0 52 normal_pages normal_pages x (omega arith)
        (omega arith) (omega arith) (omega arith) (omega arith),
  ),
)

-- With storage of less than 6 GB, the first free page under 2 GB and not page 0, the lists hold each
-- page from `start` to the end of storage once, and no other page.
pub init_buddy_alloc-within :
    (start memsize : ℕ)
    → 0 < start
    → start ≤ memsize
    → start < two_gb
    → memsize < 2 ^ 19 + 2 ^ 20
    → IsValid (init_buddy_alloc start memsize)
      × ((x : ℕ) → free x (init_buddy_alloc start memsize) ≡ within start (memsize - start) x)
unfolding init_buddy_alloc
init_buddy_alloc-within start memsize first l s m = elim (Bool-cases (ltb two_gb memsize)) [
  | inl e ↦
      let t =
        two_zones start (two_gb - start) (memsize - start - (two_gb - start)) (omega arith)
          (omega arith) (omega arith) in
      rw e (t.0, λ x. t.1 x ∙ ground arith)
  | inr e ↦
      let low_end : memsize ≤ two_gb = ground arith in
      let t = two_zones start (memsize - start) 0 (omega arith) (omega arith) (omega arith) in
      rw e (t.0, λ x. t.1 x ∙ ground arith)
]
