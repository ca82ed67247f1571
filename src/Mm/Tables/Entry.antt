-- ===== src/Mm/Tables/Entry.antt =====
-- The page entry that `dat_insert_page` writes.
use native.Mathlib.Decide.{ℕ_discrete}
use hvf.Mm.Tables.Walk.{pte_at, walk-ones, walk-same, Tidy-uses}
use hvf.Mm.Tables.Walk.{walk-past}
use hvf.Base.{
  ltb→lt, true, ℕ, ◌+◌, ◌*◌, ◌/◌, ◌%◌, ◌<◌, ◌≡◌, ◌≢◌, refl, ap, sym, ◌∙◌, some, ltb, ◌==◌,
  if◌then◌else◌, put, arith, inl, inr, Bool-cases,
}
use hvf.Mm.Tables.{AddressSpace, Memory, dat_sx, ste_origin, ste_i}
use hvf.Mm.Tables.Uses.{uses_from-put_else, entry_uses-bound, entry_use}
use hvf.Mm.Tables.Walk.{Accounts, walk, entry_of, table_uses}
use hvf.Mm.Tables.Walk.{page_table-taken, table_uses-present}
use hvf.Mm.Tables.{new_pte}

-- The accounts are right, and the page of `virt` is translated to that of `phy`; all other
-- addresses are translated as before.
pub record Maps (held : ℕ → ℕ) (phy virt : ℕ) (space space' : AddressSpace) (m m' : Memory)
    : Type 0 where
  pub accounts : Accounts held space' m'
  pub walks :
      (v : ℕ)
      → walk space' m' v
        ≡ (if v / 4096 == virt / 4096 then some (phy / 4096 * 4096 + v % 4096) else walk space m v)

module _ {held : ℕ → ℕ} {space : AddressSpace} (m : Memory) (phy virt : ℕ)
    (a : Accounts held space m) (n : space.segment_table ≢ 0)
    (valid : ste_i (entry_of space m.dwords virt) ≡ 0)
    (even : ste_origin (entry_of space m.dwords virt) % 2 ≡ 0) where
  abbrev at : ℕ
  at = pte_at (entry_of space m.dwords virt) virt

  abbrev mapped : ℕ → ℕ
  mapped = put m.dwords at (new_pte phy)

  -- The page entry lies apart from the segment table.
  pte-apart : (j : ℕ) → j < 2048 → space.segment_table + 8 * j ≢ at
  pte-apart j h e =
      let t = page_table-taken m virt a n even in absurd (ground (arith, t, a.aligned))

  pte-entries : (v : ℕ) → entry_of space mapped v ≡ entry_of space m.dwords v
  pte-entries v = ground (arith, pte-apart (dat_sx v) (omega arith))

  pte-uses : (x : ℕ) → table_uses space mapped x ≡ table_uses space m.dwords x
  pte-uses x = omega (
    arith,
    table_uses-present space mapped x n,
    table_uses-present space m.dwords x n,
    uses_from-put_else m.dwords space.segment_table 2048 at (new_pte phy) x pte-apart,
  )

  pte-Accounts : Accounts held space (record m { dwords = mapped })
  pte-Accounts = record {
    valid = a.valid;
    once = λ x. rw (pte-uses x) (a.once x);
    real = a.real;
    aligned = a.aligned;
    tidy = λ v. rw (pte-entries v) (a.tidy v);
    no_regions = a.no_regions;
  }

  -- Two pages have two page entries.
  pte-ne :
      (v : ℕ)
      → ltb v 2147483648 ≡ true
      → virt < 2147483648
      → v / 4096 ≢ virt / 4096
      → ste_origin (entry_of space m.dwords v) % 2 ≡ 0
      → pte_at (entry_of space m.dwords v) v ≢ at
  pte-ne v h h' ne even_v e = elim (ℕ_discrete (dat_sx v) (dat_sx virt)) [
    | yes same ↦
        let one : entry_of space m.dwords v ≡ entry_of space m.dwords virt = ground (arith, same) in
        absurd (omega (arith, ltb→lt v 2147483648 h, one))
    | no other ↦
        let q = ste_origin (entry_of space m.dwords virt) / 2 in
        let page_v : ste_origin (entry_of space m.dwords v) / 2 ≡ q = omega arith in
        let own_v : entry_of space m.dwords v ≡ m.dwords (space.segment_table + 8 * dat_sx v) =
          ground arith in
        let own : entry_of space m.dwords virt ≡ m.dwords (space.segment_table + 8 * dat_sx virt) =
          ground arith in
        absurd (
          omega (
            arith,
            a.once q,
            table_uses-present space m.dwords q n,
            entry_uses-bound m.dwords space.segment_table 2048 (dat_sx v) (dat_sx virt) q
                (omega arith) (omega arith) other,
            Tidy-uses (entry_of space m.dwords v) even_v,
            Tidy-uses (entry_of space m.dwords virt) even,
            ap (λ k. entry_use (entry_of space m.dwords v) k) page_v,
            ap (λ e. entry_use e q) own_v,
            ap (λ e. entry_use e q) own,
          ))
  ]

  pte-here :
      (v : ℕ)
      → virt < 2147483648
      → phy < 18446744073709551616
      → v / 4096 ≡ virt / 4096
      → walk space (record m { dwords = mapped }) v ≡ some (phy / 4096 * 4096 + v % 4096)
  unfolding walk
  pte-here v h hp e =
      let one : entry_of space mapped v ≡ entry_of space m.dwords virt =
        pte-entries v ∙ ground (arith, e) in
      let there : pte_at (entry_of space m.dwords virt) v ≡ at = omega (arith, e) in
      let new : mapped at ≡ new_pte phy = ground arith in
      rw (one, there, new) (ground (arith, valid, e))

  pte-else :
      (v : ℕ)
      → virt < 2147483648
      → v / 4096 ≢ virt / 4096
      → walk space (record m { dwords = mapped }) v ≡ walk space m v
  pte-else v h ne = elim (a.tidy v) [
    | inl o ↦
        walk-ones space (record m { dwords = mapped }) v (pte-entries v ∙ o)
        ∙ sym (walk-ones space m v o)
    | inr t ↦ elim (Bool-cases (ltb v 2147483648)) [
      | inl low ↦
          walk-same space space m (record m { dwords = mapped }) v (entry_of space m.dwords v) refl
            (pte-entries v) (ground (arith, pte-ne v low h ne t.1))
      | inr past ↦
          walk-past space (record m { dwords = mapped }) v past ∙ sym (walk-past space m v past)
    ]
  ]

  pub pte-Maps :
      virt < 2147483648
      → phy < 18446744073709551616
      → Maps held phy virt space space m (record m { dwords = mapped })
  pte-Maps h hp = record {
    accounts = pte-Accounts;
    walks = λ v. elim (ℕ_discrete (v / 4096) (virt / 4096)) [
      | yes e ↦ pte-here v h hp e ∙ ground (arith, e)
      | no e ↦ pte-else v h e ∙ ground (arith, e)
    ];
  }
