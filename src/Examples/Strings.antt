-- ===== src/Examples/Strings.antt =====
-- The string functions on short strings.
use hvf.Base.{take, ℕ, ◌+◌, ◌-◌, ◌≡◌, ◌&&◌, ltb, leb, if◌then◌else◌, List, [], ◌∷◌, Bytes}
use hvf.Str.{strcmp, strncmp, memmove}
use hvf.Str.Compare.{strncmp-strcmp}
use hvf.Str.Move.{memmove-memcpy}

-- "ab", "Ab" and "  ab c"
abbrev ab : List ℕ
ab = 97 ∷ 98 ∷ []

abbrev capital_ab : List ℕ
capital_ab = 65 ∷ 98 ∷ []

abbrev padded : List ℕ
padded = 32 ∷ 32 ∷ 97 ∷ 98 ∷ 32 ∷ 99 ∷ []

abbrev space : List ℕ
space = 32 ∷ []

abbrev counting : Bytes
counting a = a

strncmp-strcmp_example :
    strncmp (97 ∷ 98 ∷ []) (97 ∷ 99 ∷ []) 2 ≡ strcmp (take 1 (97 ∷ 98 ∷ [])) (take 1 (97 ∷ 99 ∷ []))
strncmp-strcmp_example = strncmp-strcmp (97 ∷ 98 ∷ []) (97 ∷ 99 ∷ []) 2

memmove-memcpy_example :
    memmove counting 10 12 4 11
    ≡ (if leb 10 11 && ltb 11 (10 + 4) then counting (12 + (11 - 10)) else counting 11)
memmove-memcpy_example = memmove-memcpy counting 10 12 4 11
