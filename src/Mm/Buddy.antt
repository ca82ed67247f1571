-- ===== src/Mm/Buddy.antt =====
-- The page allocator, cp/mm/buddy.c, with the zones of cp/include/page.h. A page is its number; a
-- list of free ranges holds the numbers of their first pages. The lock is left out: each operation
-- holds it from start to end.
pub mod Frames
pub mod Pages
pub mod Limits
pub mod Start
pub mod Trace
use hvf.Base.{
  ℕ, zero, suc, ◌+◌, ◌-◌, ◌*◌, ◌/◌, ◌%◌, ◌^◌, Bool, true, false, List, [], ◌∷◌, Option, none, some,
  ltb, ◌==◌, if◌then◌else◌, set, get_or, length,
}

-- `ZONE_NORMAL` and `ZONE_LOW`
pub data Zone : Type 0 where
  normal low : Zone

abbrev pub zone_normal_max_order : ℕ
zone_normal_max_order = 52

abbrev pub zone_low_max_order : ℕ
zone_low_max_order = 19

abbrev pub two_gb : ℕ
two_gb = 2 ^ 19

-- `orders_normal` and `orders_low`
pub record Zones : Type 0 where
  pub orders_normal : List (List ℕ)
  pub orders_low : List (List ℕ)

-- `IS_LOW_ZONE`
abbrev pub is_low_zone : ℕ → Bool
is_low_zone page = ltb page two_gb

-- `list_add` to the list of one order.
abbrev pub list_add : ℕ → ℕ → List (List ℕ) → List (List ℕ)
list_add page order orders = set orders order (page ∷ get_or orders order [])

-- `list_add` to the lists of the zone that the page is in.
unfoldable pub give_back : ℕ → ℕ → ℕ → Zones → Zones
give_back base page order z =
    if is_low_zone base
    then record z { orders_low = list_add page order z.orders_low }
    else record z { orders_normal = list_add page order z.orders_normal }

-- `PAGE_SIZE << order` as it is added to a `u64`, in pages: the shift is one of an `int`, which is
-- negative for order 19 and 0 for the orders above.
unfoldable pub int_range : ℕ → ℕ
int_range order = if ltb order 19 then 2 ^ order else if order == 19 then 2 ^ 52 - 2 ^ 19 else 0

-- `__init_buddy_alloc` for the `n` orders from `order` on: the lists. `pages` is an `int` there: it
-- is below 2 ^ 31 here, and no bit is set where the shift `1 << order` is not defined.
unfoldable pub init_orders : ℕ → ℕ → ℕ → ℕ → List (List ℕ)
unfolding int_range
init_orders base pages order zero = []
init_orders base pages order (suc n) =
    if pages / 2 ^ order % 2 == 0
    then [] ∷ init_orders base pages (order + 1) n
    else (base ∷ []) ∷ init_orders ((base + int_range order) % 2 ^ 52) pages (order + 1) n

-- `init_buddy_alloc`, with both of its arguments in pages.
pub init_buddy_alloc : ℕ → ℕ → Zones
init_buddy_alloc start memsize = record {
  orders_low = init_orders start low_pages 0 zone_low_max_order;
  orders_normal = init_orders two_gb normal_pages 0 zone_normal_max_order;
}
  where
    low_pages : ℕ
    low_pages = if ltb two_gb memsize then two_gb - start else memsize - start

    normal_pages : ℕ
    normal_pages = if ltb two_gb memsize then memsize - start - low_pages else 0

-- What an attempt to take a range finds: a range and the lists without it, nothing, or no such
-- list, since the order is past the end of the array.
pub data Found (A : Type 0) : Type 0 where
  page : ℕ → A → Found A
  nothing : Found A
  out_of_array : Found A

-- `__do_alloc_pages`
unfoldable pub do_alloc_pages : ℕ → List (List ℕ) → Found (List (List ℕ))
do_alloc_pages order [] = out_of_array
do_alloc_pages zero ([] ∷ os) = nothing
do_alloc_pages zero ((p ∷ ps) ∷ os) = page p (ps ∷ os)
do_alloc_pages (suc order) (ps ∷ os) = elim (do_alloc_pages order os) [
  | page p os' ↦ page p (ps ∷ os')
  | nothing ↦ nothing
  | out_of_array ↦ out_of_array
]

-- `__alloc_pages`
unfoldable pub try_low : Zones → ℕ → Found Zones
try_low z order = elim (do_alloc_pages order z.orders_low) [
  | page p os ↦ page p (record z { orders_low = os })
  | nothing ↦ nothing
  | out_of_array ↦ out_of_array
]

unfoldable pub try_alloc : Zones → ℕ → Zone → Found Zones
try_alloc z order low = try_low z order
try_alloc z order normal = elim (do_alloc_pages order z.orders_normal) [
  | page p os ↦ page p (record z { orders_normal = os })
  | nothing ↦ try_low z order
  | out_of_array ↦ out_of_array
]

-- `__chip_pages` from the order `wanted + extra` down to `wanted`. The shift of an `int` there is
-- only defined for orders below 31; here it has no bound.
unfoldable pub chip_pages : ℕ → ℕ → ℕ → Zones → Zones
chip_pages base zero wanted z = z
chip_pages base (suc extra) wanted z =
    chip_pages base extra wanted (give_back base (base + 2 ^ (wanted + extra)) (wanted + extra) z)

-- The loop of `alloc_pages` over the `n` orders from `order + extra` on.
unfoldable pub search_larger : ℕ → ℕ → ℕ → Zone → Zones → Found Zones
search_larger zero extra order type z = nothing
search_larger (suc n) extra order type z = elim (try_alloc z (order + extra) type) [
  | page p z' ↦ page p (chip_pages p extra order z')
  | nothing ↦ search_larger n (extra + 1) order type z
  | out_of_array ↦ out_of_array
]

abbrev pub max_order : Zone → ℕ
max_order low = zone_low_max_order
max_order normal = zone_normal_max_order

unfoldable pub alloc_pages : ℕ → Zone → Zones → Found Zones
alloc_pages order type z = elim (try_alloc z order type) [
  | page p z' ↦ page p z'
  | nothing ↦ search_larger (max_order type - (order + 1)) 1 order type z
  | out_of_array ↦ out_of_array
]

abbrev pub free_pages : ℕ → ℕ → Zones → Zones
free_pages base order z = give_back base base order z
