-- ===== src/Mm/Buddy/Pages.antt =====
-- No page is lost and none is handed out twice.
use hvf.Base.{
  ℕ, zero, suc, ◌+◌, ◌-◌, ◌^◌, ◌≤◌, ◌<◌, ◌≡◌, refl, true, false, ltb, length, arith, ◌⊎◌, inl, inr,
  ◌∙◌, sym,
}
use hvf.Mm.Buddy.{
  page, Zones, Zone, normal, low, two_gb, do_alloc_pages, give_back, try_low, try_alloc, chip_pages,
  search_larger, max_order, alloc_pages, free_pages,
}
use hvf.Mm.Buddy.Frames.{
  block, in_orders, in_orders-list_add, length-list_add, block_halves, Every, Every-list_add,
  do_alloc_pages-TakenFrom, Found-cases,
}
use mathlib.Core.Path.{subst}
use native.Mathlib.Nat.{two-pow-succ, one-le-pow}

-- How often `x` is free.
abbrev pub free : ℕ → Zones → ℕ
free x z = in_orders 0 x z.orders_low + in_orders 0 x z.orders_normal

-- A range that lies in the zone of its first page, of an order that the zone has.
abbrev pub InLow : ℕ → ℕ → Type 0
InLow p order = (p + 2 ^ order ≤ two_gb) × (order < 19)

abbrev pub InNormal : ℕ → ℕ → Type 0
InNormal p order = (two_gb ≤ p) × (order < 52)

abbrev pub InZone : ℕ → ℕ → Type 0
InZone p order = InLow p order ⊎ InNormal p order

-- The lists have the lengths of the arrays, and each range stands in its own zone's.
pub record IsValid (z : Zones) : Type 0 where
  pub low_lists : length z.orders_low ≡ 19
  pub normal_lists : length z.orders_normal ≡ 52
  pub low_ranges : Every InLow 0 z.orders_low
  pub normal_ranges : Every InNormal 0 z.orders_normal

-- `z` with a range of pages more is `z'`.
pub record Returned (p order : ℕ) (z z' : Zones) : Type 0 where
  pub valid : IsValid z'
  pub frames : (x : ℕ) → free x z' ≡ block p order x + free x z

low_base : (base order : ℕ) → InLow base order → ltb base two_gb ≡ true
low_base base order h = ground (arith, h.0, one-le-pow order 2 (omega arith))

normal_base : (base order : ℕ) → InNormal base order → ltb base two_gb ≡ false
normal_base base order h = ground (arith, h.0)

give_back-low :
    (base p order : ℕ) (z : Zones)
    → IsValid z
    → ltb base two_gb ≡ true
    → InLow p order
    → Returned p order z (give_back base p order z)
unfolding give_back
give_back-low base p order z v e h = rw e (record {
  valid = record {
    low_lists = length-list_add order p z.orders_low ∙ v.low_lists;
    normal_lists = v.normal_lists;
    low_ranges = Every-list_add InLow 0 order order p z.orders_low (omega arith) h v.low_ranges;
    normal_ranges = v.normal_ranges;
  };
  frames = λ x. omega (
    arith,
    in_orders-list_add 0 order order x p z.orders_low (omega (arith, h.1, v.low_lists))
        (omega arith),
  );
})

give_back-normal :
    (base p order : ℕ) (z : Zones)
    → IsValid z
    → ltb base two_gb ≡ false
    → InNormal p order
    → Returned p order z (give_back base p order z)
unfolding give_back
give_back-normal base p order z v e h = rw e (record {
  valid = record {
    low_lists = v.low_lists;
    normal_lists = length-list_add order p z.orders_normal ∙ v.normal_lists;
    low_ranges = v.low_ranges;
    normal_ranges =
        Every-list_add InNormal 0 order order p z.orders_normal (omega arith) h v.normal_ranges;
  };
  frames = λ x. omega (
    arith,
    in_orders-list_add 0 order order x p z.orders_normal (omega (arith, h.1, v.normal_lists))
        (omega arith),
  );
})

-- With valid lists, freeing a range that lies in one zone keeps them valid and makes its pages free
-- once more, and nothing else.
pub free_pages-Returned :
    (base order : ℕ) (z : Zones)
    → IsValid z
    → InZone base order
    → Returned base order z (free_pages base order z)
free_pages-Returned base order z v (inl h) =
    give_back-low base base order z v (low_base base order h) h
free_pages-Returned base order z v (inr h) =
    give_back-normal base base order z v (normal_base base order h) h

-- The upper half of a range goes back to the lists of the range's zone.
give_back_half :
    (base order : ℕ) (z : Zones)
    → IsValid z
    → InZone base (suc order)
    → Returned (base + 2 ^ order) order z (give_back base (base + 2 ^ order) order z)
give_back_half base order z v (inl h) =
    give_back-low base (base + 2 ^ order) order z v (low_base base (suc order) h)
      (omega (arith, two-pow-succ order, h.0), omega (arith, h.1))
give_back_half base order z v (inr h) =
    give_back-normal base (base + 2 ^ order) order z v (normal_base base (suc order) h)
      (omega (arith, h.0), omega (arith, h.1))

lower_half : (base order : ℕ) → InZone base (suc order) → InZone base order
lower_half base order (inl h) = inl (omega (arith, two-pow-succ order, h.0), omega (arith, h.1))
lower_half base order (inr h) = inr (h.0, omega (arith, h.1))

-- Splitting keeps the pages: those of the range are those of its first part and the ones given
-- back.
record Chipped (base actual wanted : ℕ) (z z' : Zones) : Type 0 where
  pub valid : IsValid z'
  pub in_zone : InZone base wanted
  pub frames : (x : ℕ) → block base wanted x + free x z' ≡ block base actual x + free x z

chip_pages-Chipped :
    (base extra wanted actual : ℕ) (z : Zones)
    → actual ≡ wanted + extra
    → IsValid z
    → InZone base actual
    → Chipped base actual wanted z (chip_pages base extra wanted z)
unfolding chip_pages
chip_pages-Chipped base zero wanted actual z e v h =
    let same : actual ≡ wanted = omega arith in
    subst (λ a. Chipped base a wanted z z) (sym same)
      (record { valid = v; in_zone = subst (λ a. InZone base a) same h; frames = λ x. refl })
chip_pages-Chipped base (suc extra) wanted actual z e v h =
    let same : actual ≡ suc (wanted + extra) = omega arith in
    let h' = subst (λ a. InZone base a) same h in
    let r = give_back_half base (wanted + extra) z v h' in
    let c =
      chip_pages-Chipped base extra wanted (wanted + extra)
        (give_back base (base + 2 ^ (wanted + extra)) (wanted + extra) z) refl r.valid
        (lower_half base (wanted + extra) h') in
    record {
      valid = c.valid;
      in_zone = c.in_zone;
      frames = λ x.
          subst
            (λ a.
              block base wanted x
                + free x (
                    chip_pages base extra wanted
                      (give_back base (base + 2 ^ (wanted + extra)) (wanted + extra) z))
              ≡ block base a x + free x z)
            (sym same)
            (omega (arith, c.frames x, r.frames x, block_halves base (wanted + extra) x));
    }

-- `z'` is `z` without a range that lies in one zone, in the low one if the caller asked for it.
pub record Handed (type : Zone) (p order : ℕ) (z z' : Zones) : Type 0 where
  pub valid : IsValid z'
  pub in_zone : InZone p order
  pub as_asked : type ≡ low → p < two_gb
  pub frames : (x : ℕ) → free x z ≡ block p order x + free x z'

try_low-Handed :
    (type : Zone) (z z' : Zones) (order p : ℕ)
    → IsValid z
    → try_low z order ≡ page p z'
    → Handed type p order z z'
unfolding try_low
try_low-Handed type z z' order p v h = elim (Found-cases (do_alloc_pages order z.orders_low)) [
  | inl (q, os, e) ↦
      let same : q ≡ p = ground (arith, e) in
      let left : record z { orders_low = os } ≡ z' = ground (arith, e) in
      let t = do_alloc_pages-TakenFrom InLow order q z.orders_low os v.low_ranges e in
      subst (λ y. Handed type p order z y) left
        (subst (λ r. Handed type r order z (record z { orders_low = os })) same
          (record {
            valid = record {
              low_lists = t.same_length ∙ v.low_lists;
              normal_lists = v.normal_lists;
              low_ranges = t.rest;
              normal_ranges = v.normal_ranges;
            };
            in_zone = inl t.holds;
            as_asked = λ a. omega (arith, t.holds.0, one-le-pow order 2 (omega arith));
            frames = λ x. omega (arith, t.frames x);
          }))
  | inr (inl e) ↦ absurd (ground (arith, e))
  | inr (inr e) ↦ absurd (ground (arith, e))
]

try_alloc-Handed :
    (type : Zone) (z z' : Zones) (order p : ℕ)
    → IsValid z
    → try_alloc z order type ≡ page p z'
    → Handed type p order z z'
unfolding try_alloc
try_alloc-Handed low z z' order p v h = try_low-Handed low z z' order p v h
try_alloc-Handed normal z z' order p v h =
    elim (Found-cases (do_alloc_pages order z.orders_normal)) [
      | inl (q, os, e) ↦
          let same : q ≡ p = ground (arith, e) in
          let left : record z { orders_normal = os } ≡ z' = ground (arith, e) in
          let t = do_alloc_pages-TakenFrom InNormal order q z.orders_normal os v.normal_ranges e in
          subst (λ y. Handed normal p order z y) left
            (subst (λ r. Handed normal r order z (record z { orders_normal = os })) same
              (record {
                valid = record {
                  low_lists = v.low_lists;
                  normal_lists = t.same_length ∙ v.normal_lists;
                  low_ranges = v.low_ranges;
                  normal_ranges = t.rest;
                };
                in_zone = inr t.holds;
                as_asked = λ a. absurd (ground (arith, a));
                frames = λ x. omega (arith, t.frames x);
              }))
      | inr (inl e) ↦ try_low-Handed normal z z' order p v (ground (arith, e))
      | inr (inr e) ↦ absurd (ground (arith, e))
    ]

search_larger-Handed :
    (n extra order : ℕ) (type : Zone) (z z' : Zones) (p : ℕ)
    → IsValid z
    → search_larger n extra order type z ≡ page p z'
    → Handed type p order z z'
unfolding search_larger
search_larger-Handed zero extra order type z z' p v h = absurd (ground arith)
search_larger-Handed (suc n) extra order type z z' p v h =
    elim (Found-cases (try_alloc z (order + extra) type)) [
      | inl (q, z1, e) ↦
          let same : q ≡ p = ground (arith, e) in
          let left : chip_pages q extra order z1 ≡ z' = ground (arith, e) in
          let t = try_alloc-Handed type z z1 (order + extra) q v e in
          let c = chip_pages-Chipped q extra order (order + extra) z1 refl t.valid t.in_zone in
          subst (λ y. Handed type p order z y) left
            (subst (λ r. Handed type r order z (chip_pages q extra order z1)) same
              (record {
                valid = c.valid;
                in_zone = c.in_zone;
                as_asked = t.as_asked;
                frames = λ x. omega (arith, t.frames x, c.frames x);
              }))
      | inr (inl e) ↦ search_larger-Handed n (extra + 1) order type z z' p v (ground (arith, e))
      | inr (inr e) ↦ absurd (ground (arith, e))
    ]

-- With valid lists, an allocation that succeeds leaves them valid and takes the pages of its range
-- out of the free ones, each once, and no other page; the range lies in one zone, and under 2 GB if
-- `ZONE_LOW` was asked for.
pub alloc_pages-Handed :
    (order : ℕ) (type : Zone) (z z' : Zones) (p : ℕ)
    → IsValid z
    → alloc_pages order type z ≡ page p z'
    → Handed type p order z z'
unfolding alloc_pages
alloc_pages-Handed order type z z' p v h = elim (Found-cases (try_alloc z order type)) [
  | inl (q, z1, e) ↦ try_alloc-Handed type z z' order p v (ground (arith, e))
  | inr (inl e) ↦
      search_larger-Handed (max_order type - (order + 1)) 1 order type z z' p v (ground (arith, e))
  | inr (inr e) ↦ absurd (ground (arith, e))
]
