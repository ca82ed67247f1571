-- ===== src/Str/Split.antt =====
-- `strsep` and `strmsep` of lib/string.c cut a string at its separators.
use hvf.Base.{
  ◌⊎◌, ℕ, zero, suc, ◌≡◌, ◌≢◌, refl, ap, inl, inr, true, false, List, [], ◌∷◌, ◌++◌, none, some,
  arith, Bool-cases, Option-cases,
}
use hvf.Str.{cons_token, among, strpbrk, strspn, Token, split_at, strsep, advance, strmsep}

-- No character of `s` is one of `ct`; every one is.
abbrev pub NoneAmong : List ℕ → List ℕ → Type 0
NoneAmong ct [] = Unit {0}
NoneAmong ct (c ∷ s) = (among c ct ≡ false) × NoneAmong ct s

abbrev pub AllAmong : List ℕ → List ℕ → Type 0
AllAmong ct [] = Unit {0}
AllAmong ct (c ∷ s) = (among c ct ≡ true) × AllAmong ct s

-- `t` is what `s` splits into at its first separator, if it has one.
pub data SplitsOff (ct : List ℕ) : List ℕ → Token → Type 0 where
  whole : (w : List ℕ) → NoneAmong ct w → SplitsOff ct w (record { token = some w; rest = none })
  cut :
      (w : List ℕ) (c : ℕ) (r s : List ℕ)
      → NoneAmong ct w
      → among c ct ≡ true
      → s ≡ w ++ c ∷ r
      → SplitsOff ct s (record { token = some w; rest = some r })

strpbrk-none : (s ct : List ℕ) → strpbrk s ct ≡ none → NoneAmong ct s
unfolding strpbrk
strpbrk-none [] ct h = tt
strpbrk-none (c ∷ s) ct h = ground (arith, strpbrk-none s ct)

SplitsOff-cons :
    {ct s : List ℕ} {t : Token} (c : ℕ)
    → among c ct ≡ false
    → SplitsOff ct s t
    → SplitsOff ct (c ∷ s) (cons_token c t)
SplitsOff-cons c h (whole w p) = whole (c ∷ w) (h, p)
SplitsOff-cons c h (cut w d r s p q e) = cut (c ∷ w) d r _ (h, p) q (ap (λ s. c ∷ s) e)

split_at-SplitsOff : (s ct : List ℕ) (n : ℕ) → strpbrk s ct ≡ some n → SplitsOff ct s (split_at s n)
unfolding strpbrk split_at
split_at-SplitsOff [] ct n h = absurd (cc)
split_at-SplitsOff (c ∷ s) ct zero h = cut [] c s _ tt (ground arith) refl
split_at-SplitsOff (c ∷ s) ct (suc n) h =
    SplitsOff-cons c (ground arith) (split_at-SplitsOff s ct n (ground arith))

-- `strsep` returns the characters before the first separator, none of which is a separator, and
-- goes on behind that one; where there is none it returns the whole string and leaves NULL.
pub strsep-SplitsOff : (s ct : List ℕ) → SplitsOff ct s (strsep (some s) ct)
unfolding strsep
strsep-SplitsOff s ct = elim (Option-cases (strpbrk s ct)) [
  | inl e ↦ rw (e, strsep) (whole s (strpbrk-none s ct e))
  | inr (n, e) ↦ rw (e, strsep) (split_at-SplitsOff s ct n e)
]

advance-strspn :
    (s ct : List ℕ) → (lead : List ℕ) × (s ≡ lead ++ advance s (strspn s ct)) × AllAmong ct lead
unfolding advance strspn
advance-strspn [] ct = ([], refl, tt)
advance-strspn (c ∷ s) ct = elim (Bool-cases (among c ct)) [
  | inl e ↦ let (lead, p, q) = advance-strspn s ct in rw e (c ∷ lead, ap (λ s. c ∷ s) p, (e, q))
  | inr e ↦ rw e ([], refl, tt)
]

-- What `strspn` stops at is no separator.
abbrev FirstNotAmong : List ℕ → List ℕ → Type 0
FirstNotAmong ct [] = Unit {0}
FirstNotAmong ct (c ∷ s) = among c ct ≡ false

advance-first : (s ct : List ℕ) → FirstNotAmong ct (advance s (strspn s ct))
unfolding advance strspn
advance-first [] ct = tt
advance-first (c ∷ s) ct = elim (Bool-cases (among c ct)) [
  | inl e ↦ rw e (advance-first s ct)
  | inr e ↦ rw e e
]

cut_empty :
    (ct w : List ℕ) (c : ℕ) (r : List ℕ)
    → among c ct ≡ true
    → FirstNotAmong ct (w ++ c ∷ r)
    → some w ≢ some []
cut_empty ct [] c r q f h = cc
cut_empty ct (d ∷ w) c r q f h = cc

token_empty :
    {ct s : List ℕ} {t : Token}
    → SplitsOff ct s t
    → FirstNotAmong ct s
    → (t.token ≢ some []) ⊎ (s ≡ [])
token_empty (whole [] p) f = inr refl
token_empty (whole (c ∷ w) p) f = inl (λ h. absurd (ground arith))
token_empty {ct} (cut w c r s p q e) f = inl (λ h. cut_empty ct w c r q (rw (← e) f) h)

-- `strmsep` skips the separators in front, then cuts as `strsep` does: what it returns is empty
-- only where the string holds nothing but separators.
pub strmsep-SplitsOff :
    (s ct : List ℕ)
    → (lead s' : List ℕ) × (s ≡ lead ++ s')
      × AllAmong ct lead
      × SplitsOff ct s' (strmsep (some s) ct)
      × (((strmsep (some s) ct).token ≢ some []) ⊎ (s' ≡ []))
unfolding strmsep
strmsep-SplitsOff s ct =
    let (lead, p, q) = advance-strspn s ct in
    (
      lead,
      advance s (strspn s ct),
      p,
      q,
      strsep-SplitsOff _ ct,
      token_empty (strsep-SplitsOff _ ct) (advance-first s ct),
    )
