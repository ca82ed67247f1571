-- ===== src/Str/Move.antt =====
-- `memmove` and `strncpy` of lib/string.c against the storage that they should leave.
use hvf.Base.{
  inr, inl, ℕ, zero, suc, ◌+◌, ◌-◌, ◌≤◌, ◌<◌, ◌≡◌, refl, ◌&&◌, List, [], ◌∷◌, ltb, leb, ◌==◌,
  if◌then◌else◌, Bytes, put, memcpy, get_or, arith, Bool-cases,
}
use hvf.Str.{move_up, move_down, memmove, strncpy}

move_up_lem :
    (count : ℕ) (m : Bytes) (d s a : ℕ) → d ≤ s → move_up m d s count a ≡ memcpy m d m s count a
unfolding move_up
move_up_lem zero m d s a h = ground arith
move_up_lem (suc count) m d s a h =
    ground (arith, move_up_lem count (put m d (m s)) (d + 1) (s + 1) a)

move_down_lem :
    (count : ℕ) (m : Bytes) (d s a : ℕ) → s < d → move_down m d s count a ≡ memcpy m d m s count a
unfolding move_down
move_down_lem zero m d s a h = ground arith
move_down_lem (suc count) m d s a h =
    ground (arith, move_down_lem count (put m (d + count) (m (s + count))) d s a)

-- Whether the two areas overlap or not, and in either order, `memmove` leaves in the `count` bytes
-- from `dest` on what stood in the `count` bytes from `src` on before the call, and changes no
-- other byte.
pub memmove-memcpy :
    (m : Bytes) (dest src count a : ℕ)
    → memmove m dest src count a
      ≡ (if leb dest a && ltb a (dest + count) then m (src + (a - dest)) else m a)
unfolding memmove
memmove-memcpy m dest src count a = elim (Bool-cases (leb dest src)) [
  | inl up ↦ rw up (move_up_lem count m dest src a (ground arith))
  | inr down ↦ rw down (move_down_lem count m dest src a (ground arith))
]

get_or-cons :
    (c : ℕ) (src : List ℕ) (i : ℕ)
    → get_or (c ∷ src) i 0 ≡ (if i == 0 then c else get_or src (i - 1) 0)
get_or-cons c src zero = refl
get_or-cons c src (suc i) = ground arith

-- `strncpy` writes exactly the `count` bytes from `dest` on: the bytes of the string, then NULs.
-- A string of `count` bytes or more is cut off, with no NUL behind it.
pub strncpy_lem :
    (src : List ℕ) (count : ℕ) (m : Bytes) (dest a : ℕ)
    → strncpy m dest src count a
      ≡ (if leb dest a && ltb a (dest + count) then get_or src (a - dest) 0 else m a)
unfolding strncpy
strncpy_lem src zero m dest a = ground arith
strncpy_lem [] (suc count) m dest a =
    ground (arith, strncpy_lem [] count (put m dest 0) (dest + 1) a)
strncpy_lem (c ∷ src) (suc count) m dest a =
    ground (arith, strncpy_lem src count (put m dest c) (dest + 1) a, get_or-cons c src (a - dest))
