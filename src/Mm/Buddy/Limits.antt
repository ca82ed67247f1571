-- ===== src/Mm/Buddy/Limits.antt =====
-- When an allocation finds nothing, and when it looks past the end of an array of lists.
use mathlib.Core.Path.{subst}
use native.Mathlib.Decide.{ℕ_discrete}
use hvf.Base.{
  ℕ, zero, suc, ◌+◌, ◌-◌, ◌≤◌, ◌<◌, ◌≡◌, ◌≢◌, refl, List, [], ◌∷◌, length, get_or, arith, inl, inr,
}
use hvf.Mm.Buddy.{
  nothing, out_of_array, Zones, normal, low, do_alloc_pages, try_low, try_alloc, search_larger,
  alloc_pages,
}
use hvf.Mm.Buddy.Frames.{Found-cases}
use hvf.Mm.Buddy.Pages.{IsValid}

do_alloc_pages_inside :
    (k : ℕ) (os : List (List ℕ)) → k < length os → do_alloc_pages k os ≢ out_of_array
unfolding do_alloc_pages
do_alloc_pages_inside k [] l h = absurd (omega arith)
do_alloc_pages_inside zero ([] ∷ os) l h = absurd (ground arith)
do_alloc_pages_inside zero ((p ∷ ps) ∷ os) l h = absurd (ground arith)
do_alloc_pages_inside (suc k) (ps ∷ os) l h = elim (Found-cases (do_alloc_pages k os)) [
  | inl (q, os1, e) ↦ absurd (ground (arith, e))
  | inr (inl e) ↦ absurd (ground (arith, e))
  | inr (inr e) ↦ do_alloc_pages_inside k os (omega arith) e
]

do_alloc_pages_outside :
    (k : ℕ) (os : List (List ℕ)) → length os ≤ k → do_alloc_pages k os ≡ out_of_array
unfolding do_alloc_pages
do_alloc_pages_outside k [] l = refl
do_alloc_pages_outside zero (ps ∷ os) l = absurd (omega arith)
do_alloc_pages_outside (suc k) (ps ∷ os) l = rw (do_alloc_pages_outside k os (omega arith)) refl

do_alloc_pages_empty :
    (k : ℕ) (os : List (List ℕ)) → do_alloc_pages k os ≡ nothing → get_or os k [] ≡ []
unfolding do_alloc_pages
do_alloc_pages_empty k [] h = absurd (ground arith)
do_alloc_pages_empty zero ([] ∷ os) h = refl
do_alloc_pages_empty zero ((p ∷ ps) ∷ os) h = absurd (ground arith)
do_alloc_pages_empty (suc k) (ps ∷ os) h = elim (Found-cases (do_alloc_pages k os)) [
  | inl (q, os1, e) ↦ absurd (ground (arith, e))
  | inr (inl e) ↦ do_alloc_pages_empty k os e
  | inr (inr e) ↦ absurd (ground (arith, e))
]

try_low_inside : (z : Zones) (order : ℕ) → IsValid z → order < 19 → try_low z order ≢ out_of_array
unfolding try_low
try_low_inside z order v l h = elim (Found-cases (do_alloc_pages order z.orders_low)) [
  | inl (q, os, e) ↦ absurd (ground (arith, e))
  | inr (inl e) ↦ absurd (ground (arith, e))
  | inr (inr e) ↦ do_alloc_pages_inside order z.orders_low (omega (arith, v.low_lists)) e
]

try_low_empty :
    (z : Zones) (order : ℕ) → try_low z order ≡ nothing → get_or z.orders_low order [] ≡ []
unfolding try_low
try_low_empty z order h = elim (Found-cases (do_alloc_pages order z.orders_low)) [
  | inl (q, os, e) ↦ absurd (ground (arith, e))
  | inr (inl e) ↦ do_alloc_pages_empty order z.orders_low e
  | inr (inr e) ↦ absurd (ground (arith, e))
]

search_low_inside :
    (n extra order : ℕ) (z : Zones)
    → IsValid z
    → order + extra + n ≤ 19
    → search_larger n extra order low z ≢ out_of_array
unfolding search_larger try_alloc
search_low_inside zero extra order z v l h = absurd (ground arith)
search_low_inside (suc n) extra order z v l h = elim (Found-cases (try_low z (order + extra))) [
  | inl (q, z1, e) ↦ absurd (ground (arith, e))
  | inr (inl e) ↦ search_low_inside n (extra + 1) order z v (omega arith) (ground (arith, e))
  | inr (inr e) ↦ try_low_inside z (order + extra) v (omega arith) e
]

search_low_empty :
    (n extra order k : ℕ) (z : Zones)
    → search_larger n extra order low z ≡ nothing
    → order + extra ≤ k
    → k < order + extra + n
    → get_or z.orders_low k [] ≡ []
unfolding search_larger try_alloc
search_low_empty zero extra order k z h a b = absurd (omega arith)
search_low_empty (suc n) extra order k z h a b = elim (Found-cases (try_low z (order + extra))) [
  | inl (q, z1, e) ↦ absurd (ground (arith, e))
  | inr (inl e) ↦ elim (ℕ_discrete (order + extra) k) [
    | yes same ↦ subst (λ k. get_or z.orders_low k [] ≡ []) same (try_low_empty z (order + extra) e)
    | no ne ↦
        search_low_empty n (extra + 1) order k z (ground (arith, e)) (omega arith) (omega arith)
  ]
  | inr (inr e) ↦ absurd (ground (arith, e))
]

-- With valid lists, an allocation below 2 GB, of an order that the zone has, stays inside the array
-- of lists.
pub alloc_low_inside :
    (order : ℕ) (z : Zones) → IsValid z → order < 19 → alloc_pages order low z ≢ out_of_array
unfolding alloc_pages try_alloc
alloc_low_inside order z v l h = elim (Found-cases (try_low z order)) [
  | inl (q, z1, e) ↦ absurd (ground (arith, e))
  | inr (inl e) ↦ search_low_inside (19 - (order + 1)) 1 order z v (omega arith) (ground (arith, e))
  | inr (inr e) ↦ try_low_inside z order v l e
]

-- An allocation below 2 GB returns NULL only if no list from its order on has a range: a list `k`
-- of the zone that is at least of that order is empty.
pub alloc_low_complete :
    (order k : ℕ) (z : Zones)
    → alloc_pages order low z ≡ nothing
    → order ≤ k
    → k < 19
    → get_or z.orders_low k [] ≡ []
unfolding alloc_pages try_alloc
alloc_low_complete order k z h a b = elim (Found-cases (try_low z order)) [
  | inl (q, z1, e) ↦ absurd (ground (arith, e))
  | inr (inl e) ↦ elim (ℕ_discrete order k) [
    | yes same ↦ subst (λ k. get_or z.orders_low k [] ≡ []) same (try_low_empty z order e)
    | no ne ↦
        search_low_empty (19 - (order + 1)) 1 order k z (ground (arith, e)) (omega arith)
          (omega arith)
  ]
  | inr (inr e) ↦ absurd (ground (arith, e))
]

try_normal_outside :
    (z : Zones) (order : ℕ) → IsValid z → 19 ≤ order → try_alloc z order normal ≢ nothing
unfolding try_alloc try_low
try_normal_outside z order v l h = elim (Found-cases (do_alloc_pages order z.orders_normal)) [
  | inl (q, os, e) ↦ absurd (ground (arith, e))
  | inr (inl e) ↦
      absurd
        (ground (arith, e, do_alloc_pages_outside order z.orders_low (omega (arith, v.low_lists))))
  | inr (inr e) ↦ absurd (ground (arith, e))
]

search_normal :
    (n extra order : ℕ) (z : Zones)
    → IsValid z
    → 19 < order + extra + n
    → 0 < n
    → search_larger n extra order normal z ≢ nothing
unfolding search_larger
search_normal zero extra order z v l p h = absurd (omega arith)
search_normal (suc n) extra order z v l p h =
    elim (Found-cases (try_alloc z (order + extra) normal)) [
      | inl (q, z1, e) ↦ absurd (ground (arith, e))
      | inr (inl e) ↦ elim (ℕ_discrete n 0) [
        | yes last ↦ try_normal_outside z (order + extra) v (omega arith) e
        | no ne ↦
            search_normal n (extra + 1) order z v (omega arith) (omega arith) (ground (arith, e))
      ]
      | inr (inr e) ↦ absurd (ground (arith, e))
    ]

-- With valid lists, an allocation from any zone, of an order under 51, never returns NULL: where
-- there is no range left, the search has gone past the end of the lists of the low zone.
pub alloc_normal_overruns :
    (order : ℕ) (z : Zones) → IsValid z → order < 51 → alloc_pages order normal z ≢ nothing
unfolding alloc_pages
alloc_normal_overruns order z v l h = elim (Found-cases (try_alloc z order normal)) [
  | inl (q, z1, e) ↦ absurd (ground (arith, e))
  | inr (inl e) ↦
      search_normal (52 - (order + 1)) 1 order z v (omega arith) (omega arith) (ground (arith, e))
  | inr (inr e) ↦ absurd (ground (arith, e))
]
