-- ===== src/Mm/Tables/Uses.antt =====
-- The pages that the tables of an address space stand in, counted as the free pages are.
use native.Mathlib.Decide.{ℕ_discrete}
use hvf.Base.{
  ap, ℕ, zero, suc, ◌+◌, ◌*◌, ◌/◌, ◌≤◌, ◌<◌, ◌≡◌, ◌≢◌, refl, ◌==◌, if◌then◌else◌, put, arith,
}
use hvf.Mm.Buddy.Frames.{block}
use hvf.Mm.Tables.{fill, ste_origin}

-- How often the page table that the segment entry `v` names has the page `x`.
unfoldable pub entry_use : ℕ → ℕ → ℕ
entry_use v x = if ste_origin v == 9007199254740991 then 0 else block (ste_origin v / 2) 0 x

-- The same for the first `n` entries of the segment table at `s`.
unfoldable pub uses_from : (ℕ → ℕ) → ℕ → ℕ → ℕ → ℕ
uses_from d s zero x = 0
uses_from d s (suc n) x = entry_use (d (s + 8 * n)) x + uses_from d s n x

module _ (d : ℕ → ℕ) (s : ℕ) where
  pub entry_use-bound : (n k x : ℕ) → k < n → entry_use (d (s + 8 * k)) x ≤ uses_from d s n x
  unfolding uses_from
  entry_use-bound zero k x h = absurd (omega arith)
  entry_use-bound (suc n) k x h = elim (ℕ_discrete k n) [
    | yes e ↦ rw e (omega arith)
    | no later ↦ omega (arith, entry_use-bound n k x (omega arith))
  ]

  pub entry_uses-bound :
      (n j k x : ℕ)
      → j < n
      → k < n
      → j ≢ k
      → entry_use (d (s + 8 * j)) x + entry_use (d (s + 8 * k)) x ≤ uses_from d s n x
  unfolding uses_from
  entry_uses-bound zero j k x hj hk ne = absurd (omega arith)
  entry_uses-bound (suc n) j k x hj hk ne = elim (ℕ_discrete j n) [
    | yes e ↦ rw e (omega (arith, entry_use-bound n k x (omega arith)))
    | no later ↦ elim (ℕ_discrete k n) [
      | yes e ↦ rw e (omega (arith, entry_use-bound n j x (omega arith)))
      | no sooner ↦ omega (arith, entry_uses-bound n j k x (omega arith) (omega arith) ne)
    ]
  ]

  -- A write elsewhere.
  pub uses_from-put_else :
      (n a v x : ℕ)
      → ((k : ℕ) → k < n → s + 8 * k ≢ a)
      → uses_from (put d a v) s n x ≡ uses_from d s n x
  unfolding uses_from
  uses_from-put_else zero a v x h = refl
  uses_from-put_else (suc n) a v x h =
      ground (arith, h n (omega arith), uses_from-put_else n a v x (λ k l. h k (omega arith)))

  -- A write to one of the entries.
  pub uses_from-put :
      (n k a v x : ℕ)
      → k < n
      → a ≡ s + 8 * k
      → uses_from (put d a v) s n x + entry_use (d a) x ≡ uses_from d s n x + entry_use v x
  unfolding uses_from
  uses_from-put zero k a v x h e = absurd (omega arith)
  uses_from-put (suc n) k a v x h e = elim (ℕ_discrete k n) [
    | yes last ↦
        let same : a ≡ s + 8 * n = omega arith in
        let here : put d a v (s + 8 * n) ≡ v = ground arith in
        omega (
          arith,
          uses_from-put_else n a v x (λ j l. omega arith),
          ap (λ t. entry_use t x) here,
          ap (λ t. entry_use (d t) x) same,
        )
    | no later ↦ ground (arith, uses_from-put n k a v x (omega arith) e)
  ]

  -- A table of 0xff bytes elsewhere.
  pub uses_from-fill_else :
      (n a len x : ℕ)
      → ((k : ℕ) → k < n → fill d a len (s + 8 * k) ≡ d (s + 8 * k))
      → uses_from (fill d a len) s n x ≡ uses_from d s n x
  unfolding uses_from
  uses_from-fill_else zero a len x h = refl
  uses_from-fill_else (suc n) a len x h =
      ground (arith, h n (omega arith), uses_from-fill_else n a len x (λ k l. h k (omega arith)))

  -- A fresh segment table names no page table.
  pub uses_from-fill : (n len x : ℕ) → 8 * n ≤ len → uses_from (fill d s len) s n x ≡ 0
  unfolding uses_from entry_use
  uses_from-fill zero len x h = refl
  uses_from-fill (suc n) len x h = ground (arith, uses_from-fill n len x (omega arith))
