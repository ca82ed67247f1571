-- ===== src/Mm/Tables/Named.antt =====
-- The page table that `dat_insert_page` allocates translates nothing.
use mathlib.Core.Path.{subst}
use native.Mathlib.Decide.{ℕ_discrete}
use hvf.Mm.Tables.Walk.{pte_at, walk-ones, walk-same}
use hvf.Mm.Tables.Walk.{entry_use-ones, table_uses-present, page_table-taken}
use hvf.Base.{
  false, ℕ, ◌+◌, ◌*◌, ◌/◌, ◌%◌, ◌<◌, ◌≡◌, ◌≢◌, refl, ap, sym, ◌∙◌, Option, none, some, ◌==◌,
  if◌then◌else◌, put, arith, inl, inr, Option-cases,
}
use hvf.Mm.Buddy.Frames.{block}
use hvf.Mm.Tables.{
  AddressSpace, Memory, ones, dat_sx, dat_px, ste_origin, ste_i, new_ste, alloc_table, page_table,
}
use hvf.Mm.Tables.Uses.{uses_from-fill_else, uses_from-put, entry_use, uses_from}
use hvf.Mm.Tables.Walk.{Accounts, walk, entry_of, Fresh, alloc_table-Fresh, table_uses}
use hvf.Mm.Tables.Opened.{Fresh-bounds}

-- The segment entry for `virt` names the page table at `table`, and the translation is as before.
pub record Named (held : ℕ → ℕ) (space : AddressSpace) (virt table : ℕ) (m m' : Memory)
    : Type 0 where
  pub accounts : Accounts held space m'
  pub valid : ste_i (entry_of space m'.dwords virt) ≡ 0
  pub even : ste_origin (entry_of space m'.dwords virt) % 2 ≡ 0
  pub table_lem : table ≡ ste_origin (entry_of space m'.dwords virt) * 2048
  pub walks : (v : ℕ) → walk space m' v ≡ walk space m v

module _ {held : ℕ → ℕ} {space : AddressSpace} (m mid : Memory) (ptr virt : ℕ)
    (a : Accounts held space m) (f : Fresh 0 ptr m mid) (n : space.segment_table ≢ 0)
    (unset : entry_of space m.dwords virt ≡ ones) where
  abbrev entry : ℕ
  entry = space.segment_table + 8 * dat_sx virt

  abbrev named : ℕ → ℕ
  named = put mid.dwords entry (new_ste ptr)

  -- The new page table lies apart from the segment table.
  page_table-apart :
      (j : ℕ)
      → j < 2048
      → mid.dwords (space.segment_table + 8 * j) ≡ m.dwords (space.segment_table + 8 * j)
  page_table-apart j h =
      rw (f.filled) (ground (arith, a.once f.first, (Fresh-bounds 0 ptr m mid a f).2, a.aligned))

  page_table-here : mid.dwords entry ≡ ones
  page_table-here = page_table-apart (dat_sx virt) (omega arith) ∙ ground (arith, unset, n)

  page_table-else :
      (x : ℕ)
      → uses_from mid.dwords space.segment_table 2048 x
        ≡ uses_from m.dwords space.segment_table 2048 x
  page_table-else x = rw (f.filled) (
      uses_from-fill_else m.dwords space.segment_table 2048 (f.first * 4096) 4096 x
        (λ j h. sym (ap (λ d. d (space.segment_table + 8 * j)) f.filled) ∙ page_table-apart j h))

  page_table-use : (x : ℕ) → entry_use (new_ste ptr) x ≡ block f.first 0 x
  unfolding entry_use
  page_table-use x = ground (arith, Fresh-bounds 0 ptr m mid a f, f.address)

  page_table-uses :
      (x : ℕ) → table_uses space named x ≡ table_uses space m.dwords x + block f.first 0 x
  page_table-uses x = ground (
    arith,
    table_uses-present space named x n,
    table_uses-present space m.dwords x n,
    entry_use-ones x,
    uses_from-put mid.dwords space.segment_table 2048 (dat_sx virt) entry (new_ste ptr) x
        (omega arith) refl,
    page_table-else x,
    page_table-use x,
    ap (λ e. entry_use e x) page_table-here,
  )

  page_table-entries :
      (v : ℕ)
      → entry_of space named v
        ≡ (if dat_sx v == dat_sx virt then new_ste ptr else entry_of space m.dwords v)
  page_table-entries v = ground (arith, page_table-apart (dat_sx v) (omega arith))

  page_table-Accounts : Accounts held space (record mid { dwords = named })
  page_table-Accounts = record {
    valid = f.handed.valid;
    once = λ x. omega (arith, page_table-uses x, f.handed.frames x, a.once x);
    real = λ x. ground (arith, a.real x, f.handed.frames x);
    aligned = a.aligned;
    tidy = λ v.
        ground (arith, page_table-entries v, a.tidy v, Fresh-bounds 0 ptr m mid a f, f.address);
    no_regions = a.no_regions;
  }

  page_table-fresh :
      (v : ℕ) → dat_sx v ≡ dat_sx virt → walk space (record mid { dwords = named }) v ≡ none
  unfolding walk
  page_table-fresh v e =
      let b = Fresh-bounds 0 ptr m mid a f in
      let taken : block (space.segment_table / 4096) 2 f.first ≡ 0 =
        ground (arith, table_uses-present space m.dwords f.first n, a.once f.first) in
      let named_entry : entry_of space named v ≡ new_ste ptr =
        ground (arith, page_table-entries v) in
      let at : pte_at (new_ste ptr) v ≡ f.first * 4096 + 8 * dat_px v = omega (arith, f.address) in
      let unset_page : named (f.first * 4096 + 8 * dat_px v) ≡ ones =
        rw (f.filled) (ground (arith, a.aligned)) in
      rw (named_entry, at, unset_page) (ground arith)

  page_table-apart_page :
      (v : ℕ)
      → ste_origin (entry_of space m.dwords v) % 2 ≡ 0
      → named (pte_at (entry_of space m.dwords v) v)
        ≡ m.dwords (pte_at (entry_of space m.dwords v) v)
  page_table-apart_page v even =
      let t = page_table-taken m v a n even in
      rw (f.filled) (ground (arith, t, (Fresh-bounds 0 ptr m mid a f).2, a.aligned))

  page_table-walks : (v : ℕ) → walk space (record mid { dwords = named }) v ≡ walk space m v
  page_table-walks v = elim (ℕ_discrete (dat_sx v) (dat_sx virt)) [
    | yes e ↦ page_table-fresh v e ∙ sym (walk-ones space m v (ground (arith, e, unset)))
    | no other ↦ elim (a.tidy v) [
      | inl o ↦
          walk-ones space (record mid { dwords = named }) v (ground (arith, page_table-entries v))
          ∙ sym (walk-ones space m v o)
      | inr t ↦
          walk-same space space m (record mid { dwords = named }) v (entry_of space m.dwords v) refl
            (ground (arith, page_table-entries v)) (page_table-apart_page v t.1)
    ]
  ]

  page_table-New :
      Named held space virt (ste_origin (new_ste ptr) * 2048) m (record mid { dwords = named })
  page_table-New =
      let here : entry_of space named virt ≡ new_ste ptr =
        ground (arith, page_table-entries virt) in
      record {
        accounts = page_table-Accounts;
        valid = rw here (omega arith);
        even = rw here (omega (arith, f.address, Fresh-bounds 0 ptr m mid a f));
        table_lem = rw here refl;
        walks = page_table-walks;
      }

Named-subst :
    {held : ℕ → ℕ} {space : AddressSpace} (m m1 m2 : Memory) (virt t1 t2 : ℕ)
    → ◌≡◌ {A = Option (ℕ × Memory)} (some (t1, m1)) (some (t2, m2))
    → Named held space virt t1 m m1
    → Named held space virt t2 m m2
Named-subst {held} {space} m m1 m2 virt t1 t2 e n =
    let same : t1 ≡ t2 = ground (arith, e) in
    let left : m1 ≡ m2 = ground (arith, e) in
    subst (λ t. Named held space virt t m m2) same
      (subst (λ l. Named held space virt t1 m l) left n)

pub page_table-Named :
    {held : ℕ → ℕ} {space : AddressSpace} (m m' : Memory) (virt table : ℕ)
    → Accounts held space m
    → space.segment_table ≢ 0
    → page_table (space.segment_table + 8 * dat_sx virt) m ≡ some (table, m')
    → Named held space virt table m m'
unfolding page_table
page_table-Named {held} {space} m m' virt table a n h =
    let same : entry_of space m.dwords virt ≡ m.dwords (space.segment_table + 8 * dat_sx virt) =
      ground arith in
    elim (a.tidy virt) [
      | inl o ↦ elim (Option-cases (alloc_table 0 m)) [
        | inl e ↦ absurd (ground (arith, e, o, same))
        | inr ((ptr, mid), e) ↦
            let old : ste_origin (m.dwords (space.segment_table + 8 * dat_sx virt))
                ≡ 9007199254740991 =
              ground (arith, o, same) in
            let made : Memory = record mid {
              dwords = put mid.dwords (space.segment_table + 8 * dat_sx virt) (new_ste ptr);
            } in
            let done : ◌≡◌ {A = Option (ℕ × Memory)} (some (ste_origin (new_ste ptr) * 2048, made))
                (some (table, m')) =
              rw (page_table, old, e) at h in
            Named-subst m made m' virt (ste_origin (new_ste ptr) * 2048) table done
              (page_table-New m mid ptr virt a (alloc_table-Fresh 0 ptr m mid a.valid e) n o)
      ]
      | inr t ↦
          let old : (ste_origin (m.dwords (space.segment_table + 8 * dat_sx virt))
                == 9007199254740991)
              ≡ false =
            ground (arith, t, same) in
          let done : ◌≡◌ {A = Option (ℕ × Memory)}
              (some (ste_origin (m.dwords (space.segment_table + 8 * dat_sx virt)) * 2048, m))
              (some (table, m')) =
            rw (page_table, old) at h in
          Named-subst m m m' virt
            (ste_origin (m.dwords (space.segment_table + 8 * dat_sx virt)) * 2048) table done
            (record {
              accounts = a;
              valid = t.0;
              even = t.1;
              table_lem = rw same refl;
              walks = λ v. refl;
            })
    ]
