-- ===== src/Mm/Tables/Insert.antt =====
-- `dat_insert_page` adds one page to what an address space translates, and changes nothing else of
-- it.
use native.Mathlib.Decide.{ℕ_discrete}
use hvf.Mm.Tables.Walk.{pte_at}
use hvf.Base.{ℕ, ◌+◌, ◌*◌, ◌<◌, ◌≡◌, ◌≢◌, refl, ◌∙◌, some, put, arith, inl, inr, Option-cases}
use hvf.Mm.Tables.{
  AddressSpace, Memory, dat_sx, dat_px, alloc_table, own_segment_table, page_table, walk_segment,
  dat_insert_page,
}
use hvf.Mm.Tables.Walk.{Accounts, entry_of, alloc_table-Fresh}
use hvf.Mm.Tables.Named.{page_table-Named}
use hvf.Mm.Tables.Opened.{Opened, first_segment_table-Opened}
use hvf.Mm.Tables.{new_pte}
use hvf.Mm.Tables.Entry.{Maps, pte-Maps}

own_segment_table-Opened :
    {held : ℕ → ℕ} (space space' : AddressSpace) (m m' : Memory)
    → Accounts held space m
    → own_segment_table space m ≡ some (space', m')
    → Opened held space space' m m'
unfolding own_segment_table
own_segment_table-Opened {held} space space' m m' a h = elim (ℕ_discrete space.segment_table 0) [
  | yes e ↦ elim (Option-cases (alloc_table 2 m)) [
    | inl fail ↦ absurd (ground (arith, fail, e))
    | inr ((ptr, mid), made) ↦
        let left : m' ≡ mid = ground (arith, made, e) in
        let same : space' ≡ record space { segment_table = ptr } = ground (arith, made, e) in
        rw (left, same)
          (first_segment_table-Opened m mid ptr a (alloc_table-Fresh 2 ptr m mid a.valid made) e)
  ]
  | no n ↦
      let left : m' ≡ m = ground (arith, n) in
      let same : space' ≡ space = ground (arith, n) in
      rw (left, same) (record { accounts = a; present = n; walks = λ v. refl })
]

walk_segment-Maps :
    {held : ℕ → ℕ} (space : AddressSpace) (m m' : Memory) (phy virt : ℕ)
    → virt < 2147483648
    → phy < 18446744073709551616
    → Accounts held space m
    → space.segment_table ≢ 0
    → walk_segment space.segment_table phy virt m ≡ some m'
    → Maps held phy virt space space m m'
unfolding walk_segment
walk_segment-Maps {held} space m m' phy virt hv hp a n h =
    elim (Option-cases (page_table (space.segment_table + 8 * dat_sx virt) m)) [
      | inl fail ↦ absurd (ground (arith, fail))
      | inr ((table, mid), e) ↦
          let t = page_table-Named m mid virt table a n e in
          let maps = pte-Maps mid phy virt t.accounts n t.valid t.even hv hp in
          let same : m' ≡ record mid {
            dwords = put mid.dwords (pte_at (entry_of space mid.dwords virt) virt) (new_pte phy);
          } =
            ground (arith, e, t.table_lem) in
          rw same (record {
            accounts = maps.accounts;
            walks = λ v. maps.walks v ∙ ground (arith, t.walks v);
          })
    ]

-- With the accounts right and no region table, for addresses below 2 GB and of 64 bits, a
-- `dat_insert_page` that returns leaves the accounts right: tables come out of the free pages, each
-- page at most once. Then the page of `virt` is translated to that of `phy`, each byte of it to the
-- same byte there, and every other address to what it was translated to before.
pub dat_insert_page-Maps :
    {held : ℕ → ℕ} (space space' : AddressSpace) (m m' : Memory) (phy virt : ℕ)
    → virt < 2147483648
    → phy < 18446744073709551616
    → Accounts held space m
    → dat_insert_page space phy virt m ≡ some (space', m')
    → Maps held phy virt space space' m m'
unfolding dat_insert_page
dat_insert_page-Maps {held} space space' m m' phy virt hv hp a h =
    elim (Option-cases (own_segment_table space m)) [
      | inl fail ↦ absurd (ground (arith, fail, a.no_regions))
      | inr ((space1, m1), e) ↦
          elim (Option-cases (walk_segment space1.segment_table phy virt m1)) [
            | inl fail ↦ absurd (ground (arith, fail, e, a.no_regions))
            | inr (m2, done) ↦
                let o = own_segment_table-Opened space space1 m m1 a e in
                let w = walk_segment-Maps space1 m1 m2 phy virt hv hp o.accounts o.present done in
                let left : m' ≡ m2 = ground (arith, done, e, a.no_regions) in
                let same : space' ≡ space1 = ground (arith, done, e, a.no_regions) in
                rw (left, same)
                  (record {
                    accounts = w.accounts;
                    walks = λ v. w.walks v ∙ ground (arith, o.walks v);
                  })
          ]
    ]

walk_segment-past :
    (segment phy virt : ℕ) (m : Memory)
    → walk_segment segment phy (virt + 2147483648) m ≡ walk_segment segment phy virt m
unfolding walk_segment
walk_segment-past segment phy virt m =
    let entry : dat_sx (virt + 2147483648) ≡ dat_sx virt = omega arith in
    let place : dat_px (virt + 2147483648) ≡ dat_px virt = omega arith in
    elim (Option-cases (page_table (segment + 8 * dat_sx virt) m)) [
      | inl fail ↦ rw (walk_segment, entry, fail) refl
      | inr ((table, m'), e) ↦ rw (walk_segment, entry, e) (ground (arith, place))
    ]

-- Without a region table an address is not checked against the 2 GB of the segment table: one past
-- them is inserted in the place of the address 2 GB below it.
pub insert_past_2gb :
    (space : AddressSpace) (phy virt : ℕ) (m : Memory)
    → space.region_table ≡ 0
    → dat_insert_page space phy (virt + 2147483648) m ≡ dat_insert_page space phy virt m
unfolding dat_insert_page
insert_past_2gb space phy virt m e = elim (Option-cases (own_segment_table space m)) [
  | inl fail ↦ ground (arith, e, fail)
  | inr ((space1, m1), g) ↦ ground (arith, e, g, walk_segment-past space1.segment_table phy virt m1)
]
