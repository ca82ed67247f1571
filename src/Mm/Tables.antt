-- ===== src/Mm/Tables.antt =====
-- Address spaces: the tables of cp/mm/dat.c and cp/include/dat.h. Storage is a function from
-- addresses to doublewords, and a table entry is one doubleword with the fields that the source
-- gives it.
pub mod Uses
pub mod Walk
pub mod Opened
pub mod Named
pub mod Entry
pub mod Insert
use hvf.Base.{
  ℕ, zero, suc, ◌+◌, ◌*◌, ◌/◌, ◌%◌, ◌^◌, true, false, Option, none, some, ltb, leb, ◌==◌, ◌&&◌,
  if◌then◌else◌, put,
}
use hvf.Mm.Buddy.{Zones, page, nothing, out_of_array, normal, alloc_pages}

-- `struct address_space`: the addresses of its tables, 0 for NULL.
pub record AddressSpace : Type 0 where
  pub region_table : ℕ
  pub segment_table : ℕ

-- The free pages and the contents of storage.
pub record Memory : Type 0 where
  pub zones : Zones
  pub dwords : ℕ → ℕ

-- A doubleword of 0xff bytes.
abbrev pub ones : ℕ
ones = 18446744073709551615

-- `memset(a, 0xff, n)`
abbrev pub fill : (ℕ → ℕ) → ℕ → ℕ → ℕ → ℕ
fill d from n a = if leb from a && ltb a (from + n) then ones else d a

-- `DAT_RX`, `DAT_SX` and `DAT_PX`
abbrev pub dat_rx : ℕ → ℕ
dat_rx virt = virt / 2147483648

abbrev pub dat_sx : ℕ → ℕ
dat_sx virt = virt / 1048576 % 2048

abbrev pub dat_px : ℕ → ℕ
dat_px virt = virt / 4096 % 256

-- The fields `origin` and `i` of a `struct dat_rte`, a `struct dat_ste` and a `struct dat_pte`.
abbrev pub rte_origin : ℕ → ℕ
rte_origin v = v / 4096

abbrev pub ste_origin : ℕ → ℕ
ste_origin v = v / 2048

abbrev pub ste_i : ℕ → ℕ
ste_i v = v / 32 % 2

abbrev pub pte_i : ℕ → ℕ
pte_i v = v / 1024 % 2

-- The entries that `dat_insert_page` writes: it gives each field a value, and the fields not named
-- here are 0.
abbrev pub new_rte : ℕ → ℕ
new_rte ptr = ptr / 4096 % 4503599627370496 * 4096 + 1 * 4 + 3

abbrev pub new_ste : ℕ → ℕ
new_ste ptr = ptr / 2048 % 9007199254740992 * 2048

abbrev pub new_pte : ℕ → ℕ
new_pte phy = phy / 4096 % 4503599627370496 * 4096

-- `alloc_table`: the address of the table, and storage with it. `none` is BUG, and an allocation
-- that leaves the arrays of the allocator.
unfoldable pub alloc_table : ℕ → Memory → Option (ℕ × Memory)
alloc_table order m = elim (alloc_pages order normal m.zones) [
  | page p z ↦
      some (p * 4096, record { zones = z; dwords = fill m.dwords (p * 4096) (4096 * 2 ^ order) })
  | nothing ↦ none
  | out_of_array ↦ none
]

-- The segment table of an address space without a region table.
unfoldable pub own_segment_table : AddressSpace → Memory → Option (AddressSpace × Memory)
own_segment_table space m =
    if space.segment_table == 0
    then elim (alloc_table 2 m) [
      | none ↦ none
      | some (ptr, m') ↦ some (record space { segment_table = ptr }, m')
    ]
    else some (space, m)

-- The segment table that the first entry of the region table names.
unfoldable pub region_segment_table : ℕ → Memory → Option (ℕ × Memory)
region_segment_table region m =
    if rte_origin (m.dwords region) == 4503599627370495
    then elim (alloc_table 2 m) [
      | none ↦ none
      | some (ptr, m') ↦ some (
        rte_origin (new_rte ptr) * 4096,
        record m' { dwords = put m'.dwords region (new_rte ptr) },
      )
    ]
    else some (rte_origin (m.dwords region) * 4096, m)

-- From the label `walk_segment` to the test of the segment entry: the page table.
unfoldable pub page_table : ℕ → Memory → Option (ℕ × Memory)
page_table entry m =
    if ste_origin (m.dwords entry) == 9007199254740991
    then elim (alloc_table 0 m) [
      | none ↦ none
      | some (ptr, m') ↦ some (
        ste_origin (new_ste ptr) * 2048,
        record m' { dwords = put m'.dwords entry (new_ste ptr) },
      )
    ]
    else some (ste_origin (m.dwords entry) * 2048, m)

unfoldable pub walk_segment : ℕ → ℕ → ℕ → Memory → Option Memory
walk_segment segment phy virt m = elim (page_table (segment + 8 * dat_sx virt) m) [
  | none ↦ none
  | some (table, m') ↦
      some (record m' { dwords = put m'.dwords (table + 8 * dat_px virt) (new_pte phy) })
]

unfoldable pub dat_insert_page : AddressSpace → ℕ → ℕ → Memory → Option (AddressSpace × Memory)
dat_insert_page space phy virt m =
    if space.region_table == 0
    then elim (own_segment_table space m) [
      | none ↦ none
      | some (space', m1) ↦ elim (walk_segment space'.segment_table phy virt m1) [
        | none ↦ none
        | some m2 ↦ some (space', m2)
      ]
    ]
    else if dat_rx virt == 0
    then elim (region_segment_table space.region_table m) [
      | none ↦ none
      | some (segment, m1) ↦ elim (walk_segment segment phy virt m1) [
        | none ↦ none
        | some m2 ↦ some (space, m2)
      ]
    ]
    else none
