-- ===== src/Str.antt =====
-- lib/string.c and the character helpers of include/string.h. A NUL-terminated string is the list
-- of its bytes before the NUL; `char` is unsigned on this machine, so a byte is below 256.
-- `memmove` and `strncpy` write into storage, a function from addresses to bytes.
pub mod Compare
pub mod Move
pub mod Split
use hvf.Base.{
  ◌^◌, ℕ, zero, suc, ◌+◌, ◌-◌, ◌%◌, Bool, true, false, not, ◌&&◌, ◌||◌, List, [], ◌∷◌, Option, none,
  some, ltb, leb, ◌==◌, if◌then◌else◌, Bytes, put, length,
}

-- `tolower` of include/string.h
pub tolower : ℕ → ℕ
tolower c = if leb b'A' c && leb c b'Z' then c + 32 else c

-- `toupper` of include/string.h
pub toupper : ℕ → ℕ
toupper c = if leb b'a' c && leb c b'z' then c - 32 else c

-- At most `count` bytes are looked at.
pub strnlen : List ℕ → ℕ → ℕ
strnlen s zero = 0
strnlen [] (suc count) = 0
strnlen (c ∷ s) (suc count) = strnlen s count + 1

-- The difference of two characters, stored in a `signed char`: its bit pattern.
abbrev pub char_diff : ℕ → ℕ → ℕ
char_diff a b = (a + 256 - b) % 256

-- The `int` that `strcmp` returns is the `signed char` with this pattern.
pub strcmp : List ℕ → List ℕ → ℕ
strcmp [] [] = 0
strcmp [] (t ∷ ct) = char_diff 0 t
strcmp (c ∷ cs) [] = char_diff c 0
strcmp (c ∷ cs) (t ∷ ct) =
    let rest = strcmp cs ct in if char_diff c t == 0 then rest else char_diff c t

-- `len` is the bit pattern of the `int`; `len--` reads it and leaves one less.
pub strncmp : List ℕ → List ℕ → ℕ → ℕ
strncmp [] [] len = 0
strncmp [] (t ∷ ct) len = char_diff 0 t
strncmp (c ∷ cs) [] len = char_diff c 0
strncmp (c ∷ cs) (t ∷ ct) len =
    let rest = strncmp cs ct ((len + 2 ^ 32 - 1) % 2 ^ 32) in
    if not (char_diff c t == 0) || not (len == 0) then char_diff c t else rest

-- `c1` and `c2` where the loop of `strcasecmp` ends; its result is `c1 - c2`.
pub strcasecmp : List ℕ → List ℕ → ℕ × ℕ
strcasecmp [] [] = (0, 0)
strcasecmp [] (t ∷ s2) = (0, tolower t)
strcasecmp (c ∷ s1) [] = (tolower c, 0)
strcasecmp (c ∷ s1) (t ∷ s2) =
    let rest = strcasecmp s1 s2 in if tolower c == tolower t then rest else (tolower c, tolower t)

-- `strcasecmp` as the condition of an `if`
abbrev pub case_equal : List ℕ → List ℕ → Bool
case_equal s1 s2 = let (c1, c2) = strcasecmp s1 s2 in c1 == c2

-- From a NUL on the source pointer stays, so NULs follow.
pub strncpy : Bytes → ℕ → List ℕ → ℕ → Bytes
strncpy m tmp src zero = m
strncpy m tmp [] (suc count) = strncpy (put m tmp 0) (tmp + 1) [] count
strncpy m tmp (c ∷ src) (suc count) = strncpy (put m tmp c) (tmp + 1) src count

-- `while (count--) *tmp++ = *s++;`
pub move_up : Bytes → ℕ → ℕ → ℕ → Bytes
move_up m tmp s zero = m
move_up m tmp s (suc count) = move_up (put m tmp (m s)) (tmp + 1) (s + 1) count

-- `while (count--) *--tmp = *--s;` from `tmp + count` and `s + count`
pub move_down : Bytes → ℕ → ℕ → ℕ → Bytes
move_down m tmp s zero = m
move_down m tmp s (suc count) = move_down (put m (tmp + count) (m (s + count))) tmp s count

pub memmove : Bytes → ℕ → ℕ → ℕ → Bytes
memmove m dest src count =
    if leb dest src then move_up m dest src count else move_down m dest src count

-- The inner loops of `strpbrk` and `strspn`: is `c` one of the characters?
pub among : ℕ → List ℕ → Bool
among c [] = false
among c (a ∷ accept) = c == a || among c accept

-- The offset of the first character of `cs` that is one of `ct`; `none` is NULL.
pub strpbrk : List ℕ → List ℕ → Option ℕ
strpbrk [] ct = none
strpbrk (c ∷ cs) ct =
    if among c ct then some 0 else elim (strpbrk cs ct) [ none ↦ none | some n ↦ some (suc n) ]

pub strspn : List ℕ → List ℕ → ℕ
strspn [] accept = 0
strspn (c ∷ s) accept = if among c accept then suc (strspn s accept) else 0

-- What `strsep` returns and what it leaves in `*s`.
pub record Token : Type 0 where
  pub token : Option (List ℕ)
  pub rest : Option (List ℕ)

abbrev pub cons_token : ℕ → Token → Token
cons_token c t = record {
  token = elim t.token [ none ↦ none | some w ↦ some (c ∷ w) ];
  rest = t.rest;
}

-- The NUL that is written over the separator ends the token, and `*s` goes on behind it.
pub split_at : List ℕ → ℕ → Token
split_at s zero = elim s [
  | [] ↦ record { token = some []; rest = some [] }
  | c ∷ s' ↦ record { token = some []; rest = some s' }
]
split_at [] (suc n) = record { token = some []; rest = some [] }
split_at (c ∷ s) (suc n) = cons_token c (split_at s n)

pub strsep : Option (List ℕ) → List ℕ → Token
unfolding split_at
strsep none ct = record { token = none; rest = none }
strsep (some s) ct = elim (strpbrk s ct) [
  | none ↦ record { token = some s; rest = none }
  | some n ↦ split_at s n
]

-- The string from offset `n` on.
pub advance : List ℕ → ℕ → List ℕ
advance s zero = s
advance [] (suc n) = []
advance (c ∷ s) (suc n) = advance s n

pub strmsep : Option (List ℕ) → List ℕ → Token
strmsep none ct = record { token = none; rest = none }
strmsep (some s) ct = strsep (some (advance s (strspn s ct))) ct
