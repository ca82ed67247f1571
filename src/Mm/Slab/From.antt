-- ===== src/Mm/Slab/From.antt =====
-- An object taken from the pages of a cache.
use hvf.Base.{
  ℕ, ◌+◌, ◌/◌, ◌≤◌, ◌<◌, ◌≡◌, ◌≢◌, ◌⊎◌, inl, inr, refl, ap, ◌∙◌, arith, if◌then◌else◌, List, [],
  ◌∷◌, ◌==◌, Bool-cases, Bytes, Option, some, Option-cases,
}
use mathlib.Core.Path.{subst}
use mathlib.Core.Option.{some-injective}
use native.Mathlib.Decide.{ℕ_discrete}
use hvf.Mm.Buddy.{Zone}
use hvf.Mm.Slab.{Slab, usable, alloc_usable, alloc_in}
use hvf.Mm.Slab.Taken.{
  Sound, live_in, TakenIn, alloc_in-TakenIn, taken-Sound, taken-live, taken-bound, taken-outside,
  taken-page, taken-free, frame-Sound, frame-live, live_in-elsewhere,
}

-- How often the page `x` is a page of the cache.
abbrev pub page_uses : List Slab → ℕ → ℕ
page_uses [] x = 0
page_uses (s ∷ slabs) x = (if s.addr / 4096 == x then 1 else 0) + page_uses slabs x

-- How many objects of the cache at `a` are in use.
abbrev pub live : List Slab → Bytes → ℕ → ℕ
live [] bytes a = 0
live (s ∷ slabs) bytes a = live_in s bytes a + live slabs bytes a

abbrev pub AllSound : List Slab → Bytes → Type 0
AllSound [] bytes = Unit
AllSound (s ∷ slabs) bytes = Sound s bytes × AllSound slabs bytes

-- `obj` of the cache is taken: it was not in use, and is in use once. All else is in use as before,
-- and storage outside of the cache's pages is as it was.
pub record TakenFrom (slabs : List Slab) (bytes : Bytes) (obj : ℕ) (slabs' : List Slab)
    (bytes' : Bytes) : Type 0 where
  pub sound : AllSound slabs' bytes'
  pub bound : (a : ℕ) → bytes' a < 256
  pub pages : (x : ℕ) → page_uses slabs' x ≡ page_uses slabs x
  pub unused : live slabs bytes obj ≡ 0
  pub lives : (a : ℕ) → live slabs' bytes' a ≡ (if obj == a then 1 else 0) + live slabs bytes a
  pub place : 1 ≤ page_uses slabs (obj / 4096)
  pub outside : (a : ℕ) → (1 ≤ page_uses slabs (a / 4096)) ⊎ (bytes' a ≡ bytes a)

module _ (bytes bytes' : Bytes) where
  -- Pages whose bytes are as before.
  pub frame-AllSound :
      (slabs : List Slab)
      → AllSound slabs bytes
      → ((a : ℕ) → 1 ≤ page_uses slabs (a / 4096) → bytes' a ≡ bytes a)
      → AllSound slabs bytes'
  frame-AllSound [] v same = tt
  frame-AllSound (s ∷ slabs) v same = (
    frame-Sound s bytes bytes' v.0 (λ a h. same a (ground arith)),
    frame-AllSound slabs v.1 (λ a h. same a (ground arith)),
  )

  pub frame-lives :
      (slabs : List Slab) (a : ℕ)
      → AllSound slabs bytes
      → ((b : ℕ) → 1 ≤ page_uses slabs (b / 4096) → bytes' b ≡ bytes b)
      → live slabs bytes' a ≡ live slabs bytes a
  frame-lives [] a v same = refl
  frame-lives (s ∷ slabs) a v same = omega (
    arith,
    frame-live s bytes bytes' v.0 (λ b h. same b (ground arith)) a,
    frame-lives slabs a v.1 (λ b h. same b (ground arith)),
  )

pub live-elsewhere :
    (slabs : List Slab) (bytes : Bytes) (a : ℕ)
    → AllSound slabs bytes
    → page_uses slabs (a / 4096) ≡ 0
    → live slabs bytes a ≡ 0
live-elsewhere [] bytes a v h = refl
live-elsewhere (s ∷ slabs) bytes a v h = omega (
  arith,
  live_in-elsewhere s bytes a v.0 (ground arith),
  live-elsewhere slabs bytes a v.1 (ground arith),
)

-- The object comes from the first page of the list.
pub taken_here :
    (s : Slab) (slabs : List Slab) (bytes : Bytes) (obj : ℕ) (s' : Slab) (bytes' : Bytes)
    → AllSound (s ∷ slabs) bytes
    → ((a : ℕ) → bytes a < 256)
    → ((x : ℕ) → page_uses (s ∷ slabs) x ≤ 1)
    → TakenIn s bytes obj s' bytes'
    → TakenFrom (s ∷ slabs) bytes obj (s' ∷ slabs) bytes'
taken_here s slabs bytes obj s' bytes' v b once t =
    let here = taken-page s s' bytes bytes' obj v.0 t in
    let apart : page_uses slabs (s.addr / 4096) ≡ 0 = ground (arith, once (s.addr / 4096)) in
    let kept : (a : ℕ) → 1 ≤ page_uses slabs (a / 4096) → bytes' a ≡ bytes a = λ a h.
      taken-outside s s' bytes bytes' obj v.0 t a
        (λ e. absurd (omega (arith, apart, ap (page_uses slabs) e))) in
    let addr : s'.addr ≡ s.addr = ap (λ k. k.addr) t.slab_lem in
    record {
      sound = (taken-Sound s s' bytes bytes' obj v.0 t, frame-AllSound bytes bytes' slabs v.1 kept);
      bound = taken-bound s s' bytes bytes' obj v.0 t b;
      pages = λ x. rw addr refl;
      unused = omega (
        arith,
        taken-free s s' bytes bytes' obj v.0 t,
        live-elsewhere slabs bytes obj v.1 (ap (page_uses slabs) here ∙ apart),
      );
      lives = λ a. omega (
        arith,
        taken-live s s' bytes bytes' obj v.0 t a,
        frame-lives bytes bytes' slabs a v.1 kept,
      );
      place = ground (arith, here);
      outside = λ a. elim (ℕ_discrete (a / 4096) (s.addr / 4096)) [
        | yes e ↦ inl (ground (arith, e))
        | no e ↦ inr (taken-outside s s' bytes bytes' obj v.0 t a e)
      ];
    }

-- It comes from a later page.
taken_later :
    (s : Slab) (slabs slabs' : List Slab) (bytes : Bytes) (obj : ℕ) (bytes' : Bytes)
    → AllSound (s ∷ slabs) bytes
    → ((x : ℕ) → page_uses (s ∷ slabs) x ≤ 1)
    → TakenFrom slabs bytes obj slabs' bytes'
    → TakenFrom (s ∷ slabs) bytes obj (s ∷ slabs') bytes'
taken_later s slabs slabs' bytes obj bytes' v once t =
    let kept : (a : ℕ) → a / 4096 ≡ s.addr / 4096 → bytes' a ≡ bytes a =
      λ a h. ground (arith, t.outside a, once (a / 4096), h) in
    let elsewhere : obj / 4096 ≢ s.addr / 4096 =
      λ e. absurd (ground (arith, t.place, once (obj / 4096), e)) in
    record {
      sound = (frame-Sound s bytes bytes' v.0 kept, t.sound);
      bound = t.bound;
      pages = λ x. omega (arith, t.pages x);
      unused = omega (arith, t.unused, live_in-elsewhere s bytes obj v.0 elsewhere);
      lives = λ a. omega (arith, t.lives a, frame-live s bytes bytes' v.0 kept a);
      place = omega (arith, t.place);
      outside = λ a. ground (arith, t.outside a);
    }

abbrev pub Result : Type 0
Result = ℕ × List Slab × Bytes

pub TakenFrom-same :
    (slabs : List Slab) (bytes : Bytes) (r r' : Result)
    → ◌≡◌ {A = Option Result} (some r) (some r')
    → TakenFrom slabs bytes r.0 r.1 r.2
    → TakenFrom slabs bytes r'.0 r'.1 r'.2
TakenFrom-same slabs bytes r r' e t =
    let same : r ≡ r' = some-injective r r' e in
    subst (λ q. TakenFrom slabs bytes q.0 q.1 q.2) same t

abbrev here_result : Slab → List Slab → Bytes → Result
here_result s slabs bytes = let r = alloc_in s bytes in (r.0, r.1 ∷ slabs, r.2)

pub alloc_usable-TakenFrom :
    (type : Zone) (slabs slabs' : List Slab) (bytes bytes' : Bytes) (obj : ℕ)
    → AllSound slabs bytes
    → ((a : ℕ) → bytes a < 256)
    → ((x : ℕ) → page_uses slabs x ≤ 1)
    → alloc_usable type slabs bytes ≡ some (obj, slabs', bytes')
    → TakenFrom slabs bytes obj slabs' bytes'
unfolding alloc_usable
alloc_usable-TakenFrom type [] slabs' bytes bytes' obj v b once e = absurd (ground arith)
alloc_usable-TakenFrom type (s ∷ slabs) slabs' bytes bytes' obj v b once e =
    elim (Bool-cases (usable type s)) [
      | inl u ↦
          let here =
            taken_here s slabs bytes (alloc_in s bytes).0 (alloc_in s bytes).1 (alloc_in s bytes).2
              v b once (alloc_in-TakenIn s bytes v.0 b (ground (arith, u))) in
          TakenFrom-same (s ∷ slabs) bytes (here_result s slabs bytes) (obj, slabs', bytes')
            (rw (alloc_usable, u) at e) here
      | inr u ↦ elim (Option-cases (alloc_usable type slabs bytes)) [
        | inl f ↦ absurd (ground (arith, u, f))
        | inr ((o, later, left), f) ↦
            let rest =
              alloc_usable-TakenFrom type slabs later bytes left o v.1 b
                (λ x. ground (arith, once x)) f in
            TakenFrom-same (s ∷ slabs) bytes (o, s ∷ later, left) (obj, slabs', bytes')
              (rw (alloc_usable, u, f) at e) (taken_later s slabs later bytes o left v once rest)
      ]
    ]
