-- ===== src/Base/Bits.antt =====
-- Facts about `&` with a mask, at variables: a test of a small field, run at each value it can
-- have.
use Prim.Native.Nat.{
  ℕ, zero, suc, ◌+◌, ◌*◌, ◌/◌, ◌%◌, ◌≤◌, ◌<◌, min, bit_and, digits, bit_and-bitwise,
}
use mathlib.Core.Path.{◌≡◌, refl, subst}
use mathlib.Core.Bool.{Bool, true, ◌&&◌}
use native.Mathlib.Decide.{ℕ_discrete}
use native.Mathlib.Omega.{arith}

-- Whether the test holds at the `count` values from `from` on.
unfoldable pub holds_from : ℕ → ℕ → (ℕ → Bool) → Bool
holds_from from zero test = true
holds_from from (suc count) test = holds_from (from + 1) count test && test from

pub holds_from-value :
    (from count v : ℕ) (test : ℕ → Bool)
    → from ≤ v
    → v < from + count
    → holds_from from count test ≡ true
    → test v ≡ true
unfolding holds_from
holds_from-value from zero v test low high run = absurd (omega arith)
holds_from-value from (suc count) v test low high run = elim (ℕ_discrete from v) [
  | yes here ↦ subst (λ k. test k ≡ true) here (ground arith)
  | no later ↦ holds_from-value (from + 1) count v test (omega arith) (omega arith) (ground arith)
]

-- `bit_and` by its lowest digit. The first lemma: more fuel than the number changes nothing.
fuel_enough :
    (n m a b : ℕ) → a ≤ n → a ≤ m → digits (λ c. zero) min n a b ≡ digits (λ c. zero) min m a b
fuel_enough zero zero a b h k = refl
fuel_enough zero (suc m) zero b h k = refl
fuel_enough zero (suc m) (suc a) b h k = absurd (omega arith)
fuel_enough (suc n) zero zero b h k = refl
fuel_enough (suc n) zero (suc a) b h k = absurd (omega arith)
fuel_enough (suc n) (suc m) zero b h k = refl
fuel_enough (suc n) (suc m) (suc a) b h k =
    omega (arith, fuel_enough n m (suc a / 2) (b / 2) (omega arith) (omega arith))

bit_and-halves : (a b : ℕ) → bit_and a b ≡ bit_and (a / 2) (b / 2) * 2 + min (a % 2) (b % 2)
bit_and-halves zero b = omega (arith, bit_and-bitwise 0 b, bit_and-bitwise 0 (b / 2))
bit_and-halves (suc a) b =
    let half : suc a / 2 ≤ a = omega arith in
    let whole = bit_and-bitwise (suc a) b in
    let part = bit_and-bitwise (suc a / 2) (b / 2) in
    omega (arith, whole, part, fuel_enough a (suc a / 2) (suc a / 2) (b / 2) half (omega arith))

bit_and-zero : (n a : ℕ) → a ≤ n → bit_and a 0 ≡ 0
bit_and-zero n zero h = refl
bit_and-zero zero (suc a) h = absurd (omega arith)
bit_and-zero (suc n) (suc a) h =
    omega (arith, bit_and-halves (suc a) 0, bit_and-zero n (suc a / 2) (omega arith))

pub bit_and_three : (a : ℕ) → bit_and a 3 ≡ a % 4
bit_and_three a = omega (
  arith,
  bit_and-halves a 3,
  bit_and-halves (a / 2) 1,
  bit_and-zero (a / 2 / 2) (a / 2 / 2) (omega arith),
)

pub bit_and_seven : (a : ℕ) → bit_and a 7 ≡ a % 8
bit_and_seven a = omega (arith, bit_and-halves a 7, bit_and_three (a / 2))

pub zero-bit_and : (b : ℕ) → bit_and 0 b ≡ 0
zero-bit_and b = bit_and-bitwise 0 b
