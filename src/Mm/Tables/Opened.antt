-- ===== src/Mm/Tables/Opened.antt =====
-- The segment table that `dat_insert_page` allocates translates nothing.
use native.Mathlib.Nat.{one-le-pow}
use hvf.Base.{ℕ, ◌≤◌, ◌<◌, ◌≡◌, ◌≢◌, sym, arith, inl, inr}
use hvf.Mm.Buddy.Frames.{block}
use hvf.Mm.Buddy.Pages.{free}
use hvf.Mm.Tables.{AddressSpace, Memory, ones}
use hvf.Mm.Tables.Uses.{uses_from-fill, uses_from}
use hvf.Mm.Tables.Walk.{Accounts, walk, entry_of, Fresh}

-- `space'` and `m'` have a segment table and translate as `space` and `m` do.
pub record Opened (held : ℕ → ℕ) (space space' : AddressSpace) (m m' : Memory) : Type 0 where
  pub accounts : Accounts held space' m'
  pub present : space'.segment_table ≢ 0
  pub walks : (v : ℕ) → walk space' m' v ≡ walk space m v

-- The first page of a fresh table was free, and has an address.
pub Fresh-bounds :
    {held : ℕ → ℕ} {space : AddressSpace} (order ptr : ℕ) (m m' : Memory)
    → Accounts held space m
    → (f : Fresh order ptr m m')
    → (1 ≤ f.first) × (f.first < 4503599627370496) × (1 ≤ free f.first m.zones)
Fresh-bounds order ptr m m' a f =
    let own : block f.first order f.first ≡ 1 = ground (arith, one-le-pow order 2 (omega arith)) in
    let was : 1 ≤ free f.first m.zones = omega (arith, f.handed.frames f.first, own) in
    elim (a.real f.first) [ inl e ↦ absurd (omega arith) | inr b ↦ (b.0, b.1, was) ]

module _ {held : ℕ → ℕ} {space : AddressSpace} (m m' : Memory) (ptr : ℕ) (a : Accounts held space m)
    (f : Fresh 2 ptr m m') (e : space.segment_table ≡ 0) where
  first_segment_table-empty : (x : ℕ) → uses_from m'.dwords ptr 2048 x ≡ 0
  first_segment_table-empty x =
      rw (f.filled, sym f.address) (uses_from-fill m.dwords ptr 2048 16384 x (omega arith))

  first_segment_table-ones :
      (v : ℕ) → entry_of (record space { segment_table = ptr }) m'.dwords v ≡ ones
  first_segment_table-ones v = rw (f.filled) (ground (arith, f.address))

  first_segment_table-Accounts : Accounts held (record space { segment_table = ptr }) m'
  first_segment_table-Accounts = record {
    valid = f.handed.valid;
    once =
        λ x. ground (arith, first_segment_table-empty x, f.address, f.handed.frames x, a.once x, e);
    real = λ x. ground (arith, a.real x, f.handed.frames x);
    aligned = omega (arith, f.address);
    tidy = λ v. inl (first_segment_table-ones v);
    no_regions = a.no_regions;
  }

  pub first_segment_table-Opened : Opened held space (record space { segment_table = ptr }) m m'
  unfolding walk
  first_segment_table-Opened = record {
    accounts = first_segment_table-Accounts;
    present = λ z. absurd (omega (arith, z, f.address, (Fresh-bounds 2 ptr m m' a f).0));
    walks = λ v. ground (arith, first_segment_table-ones v, e);
  }
