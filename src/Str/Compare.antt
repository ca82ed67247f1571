-- ===== src/Str/Compare.antt =====
-- Comparison of strings, lib/string.c.
use hvf.Base.{
  ◌-◌, ◌^◌, take, zero, suc, map, ◌≢◌, true, ℕ, ◌<◌, ◌≡◌, ◌↔◌, refl, List, [], ◌∷◌, arith,
}
use hvf.Str.{tolower, case_equal, strcasecmp, strncmp, strcmp}

-- A C string: bytes, none of them NUL.
abbrev pub IsString : List ℕ → Type 0
IsString [] = Unit {0}
IsString (c ∷ s) = (0 < c) × (c < 256) × IsString s

strcmp-zero : (cs ct : List ℕ) → IsString cs → IsString ct → strcmp cs ct ≡ 0 → cs ≡ ct
unfolding strcmp
strcmp-zero [] [] p q h = refl
strcmp-zero [] (t ∷ ct) p q h = absurd (omega arith)
strcmp-zero (c ∷ cs) [] p q h = absurd (omega arith)
strcmp-zero (c ∷ cs) (t ∷ ct) p q h = ground (arith, strcmp-zero cs ct)

strcmp_self : (cs : List ℕ) → IsString cs → strcmp cs cs ≡ 0
unfolding strcmp
strcmp_self [] p = refl
strcmp_self (c ∷ cs) p = ground (arith, strcmp_self cs)

-- On C strings `strcmp` returns 0 exactly when the strings are equal, although the difference of
-- two characters is cut to a `signed char`.
pub strcmp-zero_iff : (cs ct : List ℕ) → IsString cs → IsString ct → (strcmp cs ct ≡ 0) ↔ (cs ≡ ct)
strcmp-zero_iff cs ct p q = (strcmp-zero cs ct p q, λ e. rw (← e) (strcmp_self cs p))

strcasecmp-tolower :
    (s1 s2 : List ℕ)
    → IsString s1
    → IsString s2
    → (case_equal s1 s2 ≡ true) ↔ (map tolower s1 ≡ map tolower s2)
unfolding strcasecmp tolower
strcasecmp-tolower [] [] p q = ((λ e. refl), (λ e. refl))
strcasecmp-tolower [] (t ∷ s2) p q = (λ e. ground arith, λ e. cc)
strcasecmp-tolower (c ∷ s1) [] p q = (λ e. ground arith, λ e. cc)
strcasecmp-tolower (c ∷ s1) (t ∷ s2) p q = (
  λ e. ground (arith, (strcasecmp-tolower s1 s2 p.2 q.2).0),
  λ e. ground (arith, (strcasecmp-tolower s1 s2 p.2 q.2).1),
)

-- `strcasecmp` finds two C strings equal exactly when they agree after `tolower` at every
-- character.
pub strcasecmp-zero_iff :
    (s1 s2 : List ℕ)
    → IsString s1
    → IsString s2
    → (case_equal s1 s2 ≡ true) ↔ (map tolower s1 ≡ map tolower s2)
strcasecmp-zero_iff s1 s2 p q = strcasecmp-tolower s1 s2 p q

strncmp-one :
    (cs ct : List ℕ) (len : ℕ) → len ≢ 0 → strncmp cs ct len ≡ strcmp (take 1 cs) (take 1 ct)
unfolding strncmp strcmp
strncmp-one [] [] len h = refl
strncmp-one [] (t ∷ ct) len h = ground arith
strncmp-one (c ∷ cs) [] len h = ground arith
strncmp-one (c ∷ cs) (t ∷ ct) len h = ground arith

-- How many characters of a string the loop of `strncmp` reaches.
abbrev pub looked_at : ℕ → ℕ
looked_at zero = 2
looked_at (suc len) = 1

-- Whatever its length says, `strncmp` compares the strings cut to the first character as `strcmp`
-- does, and for the length 0 the strings cut to the first two.
pub strncmp-strcmp :
    (cs ct : List ℕ) (len : ℕ)
    → strncmp cs ct len ≡ strcmp (take (looked_at len) cs) (take (looked_at len) ct)
unfolding strncmp strcmp
strncmp-strcmp cs ct (suc len) = strncmp-one cs ct (suc len) (omega arith)
strncmp-strcmp [] [] zero = refl
strncmp-strcmp [] (t ∷ ct) zero = ground arith
strncmp-strcmp (c ∷ cs) [] zero = ground arith
strncmp-strcmp (c ∷ cs) (t ∷ ct) zero =
    let second = strncmp-one cs ct (2 ^ 32 - 1) (omega arith) in ground (arith, second)
