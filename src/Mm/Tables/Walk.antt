-- ===== src/Mm/Tables/Walk.antt =====
-- What the tables of an address space translate an address to, and the account of the pages that
-- they stand in.
use mathlib.Core.Path.{subst}
use mathlib.Core.Logic.{inl, inr}
use hvf.Base.{
  ap, ◌≢◌, sym, false, ℕ, ◌+◌, ◌*◌, ◌/◌, ◌%◌, ◌^◌, ◌≤◌, ◌<◌, ◌≡◌, ◌⊎◌, refl, Option, none, some,
  ltb, ◌==◌, if◌then◌else◌, arith,
}
use hvf.Mm.Buddy.{normal, alloc_pages}
use hvf.Mm.Buddy.Frames.{block, Found-cases}
use hvf.Mm.Buddy.Pages.{IsValid, free, Handed, alloc_pages-Handed}
use hvf.Mm.Tables.{
  AddressSpace, Memory, ones, fill, dat_sx, dat_px, ste_origin, ste_i, pte_i, alloc_table,
}
use hvf.Mm.Tables.Uses.{entry_use-bound, entry_use, uses_from}

-- The segment entry for `v`: that of a fresh table, where there is none.
abbrev pub entry_of : AddressSpace → (ℕ → ℕ) → ℕ → ℕ
entry_of space d v =
    if space.segment_table == 0 then ones else d (space.segment_table + 8 * dat_sx v)

-- Where the page entry for `v` stands, by its segment entry.
abbrev pub pte_at : ℕ → ℕ → ℕ
pte_at e v = ste_origin e * 2048 + 8 * dat_px v

-- The real address for `v`, by its segment entry and its page entry.
abbrev pub by_entries : ℕ → ℕ → ℕ → Option ℕ
by_entries e p v =
    if ltb v 2147483648
    then if ste_i e == 0
      then if pte_i p == 0 then some (p / 4096 * 4096 + v % 4096) else none
      else none
    else none

-- Translation of a virtual address: `none` where it is past the 2 GB of the segment table, or an
-- entry is invalid.
unfoldable pub walk : AddressSpace → Memory → ℕ → Option ℕ
walk space m v = let e = entry_of space m.dwords v in by_entries e (m.dwords (pte_at e v)) v

-- How often the page `x` has a table of the address space in it.
abbrev pub table_uses : AddressSpace → (ℕ → ℕ) → ℕ → ℕ
table_uses space d x =
    if space.segment_table == 0
    then 0
    else block (space.segment_table / 4096) 2 x + uses_from d space.segment_table 2048 x

-- A segment entry as `alloc_table` leaves it, or one that names a page table.
abbrev pub Tidy : ℕ → Type 0
Tidy e = (e ≡ ones) ⊎ (ste_i e ≡ 0) × (ste_origin e % 2 ≡ 0)

-- No page is counted twice among the free ones, those with tables in them, and those that are
-- `held` for something else; free pages have an address of 64 bits, which is not 0.
pub record Accounts (held : ℕ → ℕ) (space : AddressSpace) (m : Memory) : Type 0 where
  pub valid : IsValid m.zones
  pub once : (x : ℕ) → free x m.zones + table_uses space m.dwords x + held x ≤ 1
  pub real : (x : ℕ) → (free x m.zones ≡ 0) ⊎ (1 ≤ x) × (x < 4503599627370496)
  pub aligned : space.segment_table % 4096 ≡ 0
  pub tidy : (v : ℕ) → Tidy (entry_of space m.dwords v)
  pub no_regions : space.region_table ≡ 0

-- A table of 2 ^ `order` pages from the allocator.
pub record Fresh (order ptr : ℕ) (m m' : Memory) : Type 0 where
  pub first : ℕ
  pub address : ptr ≡ first * 4096
  pub filled : m'.dwords ≡ fill m.dwords (first * 4096) (4096 * 2 ^ order)
  pub handed : Handed normal first order m.zones m'.zones

pub alloc_table-Fresh :
    (order ptr : ℕ) (m m' : Memory)
    → IsValid m.zones
    → alloc_table order m ≡ some (ptr, m')
    → Fresh order ptr m m'
unfolding alloc_table
alloc_table-Fresh order ptr m m' v h = elim (Found-cases (alloc_pages order normal m.zones)) [
  | inl (p, z, e) ↦
      let made : Memory = record {
        zones = z;
        dwords = fill m.dwords (p * 4096) (4096 * 2 ^ order);
      } in
      let done : some (p * 4096, made) ≡ some (ptr, m') = rw (alloc_table, e) at h in
      record {
        first = p;
        address = ground (arith, done);
        filled = ground (arith, done);
        handed =
            subst (λ z'. Handed normal p order m.zones z') (ground (arith, done))
              (alloc_pages-Handed order normal m.zones z p v e);
      }
  | inr (inl e) ↦ absurd (ground (arith, e))
  | inr (inr e) ↦ absurd (ground (arith, e))
]

-- A page entry of a tidy segment entry stands in the page that the segment entry uses.
pub pte-page : (e v : ℕ) → ste_origin e % 2 ≡ 0 → pte_at e v / 4096 ≡ ste_origin e / 2
pte-page e v h = omega arith

pub Tidy-uses : (e : ℕ) → ste_origin e % 2 ≡ 0 → entry_use e (ste_origin e / 2) ≡ 1
unfolding entry_use
Tidy-uses e h = ground arith

pub walk-same :
    (space space' : AddressSpace) (m m' : Memory) (v e : ℕ)
    → entry_of space m.dwords v ≡ e
    → entry_of space' m'.dwords v ≡ e
    → m'.dwords (pte_at e v) ≡ m.dwords (pte_at e v)
    → walk space' m' v ≡ walk space m v
unfolding walk
walk-same space space' m m' v e h h' s = rw (h, h', s) refl

-- An unset segment entry translates nothing.
pub walk-ones :
    (space : AddressSpace) (m : Memory) (v : ℕ)
    → entry_of space m.dwords v ≡ ones
    → walk space m v ≡ none
unfolding walk
walk-ones space m v h = rw h (ground arith)

-- The segment table has no entry past 2 GB.
pub walk-past :
    (space : AddressSpace) (m : Memory) (v : ℕ) → ltb v 2147483648 ≡ false → walk space m v ≡ none
unfolding walk
walk-past space m v h = rw h refl

pub entry_use-ones : (x : ℕ) → entry_use ones x ≡ 0
unfolding entry_use
entry_use-ones x = ground arith

pub table_uses-present :
    (space : AddressSpace) (d : ℕ → ℕ) (x : ℕ)
    → space.segment_table ≢ 0
    → table_uses space d x
      ≡ block (space.segment_table / 4096) 2 x + uses_from d space.segment_table 2048 x
table_uses-present space d x n = ground (arith)

-- The page table of a valid segment entry stands in a page that is not free, apart from the segment
-- table.
pub page_table-taken :
    {held : ℕ → ℕ} {space : AddressSpace} (m : Memory) (v : ℕ)
    → Accounts held space m
    → space.segment_table ≢ 0
    → ste_origin (entry_of space m.dwords v) % 2 ≡ 0
    → (q : ℕ) × (q ≡ pte_at (entry_of space m.dwords v) v / 4096)
      × (free q m.zones ≡ 0)
      × (block (space.segment_table / 4096) 2 q ≡ 0)
page_table-taken {held} {space} m v a n even =
    let q = ste_origin (entry_of space m.dwords v) / 2 in
    let same : entry_of space m.dwords v ≡ m.dwords (space.segment_table + 8 * dat_sx v) =
      ground arith in
    let facts : (free q m.zones ≡ 0) × (block (space.segment_table / 4096) 2 q ≡ 0) = ground (
      arith,
      a.once q,
      table_uses-present space m.dwords q n,
      entry_use-bound m.dwords space.segment_table 2048 (dat_sx v) q (omega arith),
      Tidy-uses (entry_of space m.dwords v) even,
      ap (λ e. entry_use e q) same,
    ) in
    (q, sym (pte-page (entry_of space m.dwords v) v even), facts.0, facts.1)
