-- ===== src/Base/Buffers.antt =====
-- Storage as a function from addresses to bytes, and the compiler's `memcpy`.
use Prim.Native.Nat.{ℕ, zero, suc, ◌+◌, ◌-◌}
use mathlib.Core.Bool.{◌&&◌}
use mathlib.Core.List.{List, [], ◌∷◌}
use hvf.Base.Tests.{ltb, leb, ◌==◌, if◌then◌else◌}

abbrev pub Bytes : Type 0
Bytes = ℕ → ℕ

-- `memcpy(d, s, n)` from the bytes `src` into the bytes `dst`
abbrev pub memcpy : Bytes → ℕ → Bytes → ℕ → ℕ → Bytes
memcpy dst d src s n a = if leb d a && ltb a (d + n) then src (s + (a - d)) else dst a

-- The `n` bytes from address `a` on.
abbrev pub bytes_at : Bytes → ℕ → ℕ → List ℕ
bytes_at m a zero = []
bytes_at m a (suc n) = m a ∷ bytes_at m (a + 1) n

-- `*a = v`
abbrev pub put : Bytes → ℕ → ℕ → Bytes
put m a v b = if b == a then v else m b

-- `memset(d, 0, n)`
abbrev pub clear : Bytes → ℕ → ℕ → Bytes
clear m d n a = if leb d a && ltb a (d + n) then 0 else m a
