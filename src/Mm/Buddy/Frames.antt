-- ===== src/Mm/Buddy/Frames.antt =====
-- The frames that the allocator's lists hold: how often each page is free, and what the operations
-- on the lists do to that.
use hvf.Base.{
  inr, inl, ◌⊎◌, length-set, ℕ, zero, suc, ◌+◌, ◌^◌, ◌<◌, ◌≡◌, refl, List, [], ◌∷◌, ltb, leb, ◌&&◌,
  if◌then◌else◌, get_or, length, arith,
}
use mathlib.Core.Path.{subst}
use native.Mathlib.Nat.{two-pow-succ}
use hvf.Mm.Buddy.{Found, page, nothing, out_of_array, do_alloc_pages, list_add}

-- How often (once or never) the range of 2 ^ `order` pages at `p` has the page `x`.
abbrev pub block : ℕ → ℕ → ℕ → ℕ
block p order x = if leb p x && ltb x (p + 2 ^ order) then 1 else 0

-- How often `x` is in the ranges of one list, and in those of the lists from `order` on.
unfoldable pub in_list : ℕ → ℕ → List ℕ → ℕ
in_list order x [] = 0
in_list order x (p ∷ ps) = block p order x + in_list order x ps

unfoldable pub in_orders : ℕ → ℕ → List (List ℕ) → ℕ
in_orders order x [] = 0
in_orders order x (ps ∷ os) = in_list order x ps + in_orders (order + 1) x os

pub in_orders-list_add :
    (order k m x p : ℕ) (os : List (List ℕ))
    → k < length os
    → m ≡ order + k
    → in_orders order x (list_add p k os) ≡ block p m x + in_orders order x os
unfolding in_orders in_list
in_orders-list_add order k m x p [] h e = absurd (omega arith)
in_orders-list_add order zero m x p (ps ∷ os) h e =
    let same : m ≡ order = omega arith in rw same (omega arith)
in_orders-list_add order (suc k) m x p (ps ∷ os) h e =
    omega (arith, in_orders-list_add (order + 1) k m x p os (omega arith) (omega arith))

pub length-list_add : (k p : ℕ) (os : List (List ℕ)) → length (list_add p k os) ≡ length os
length-list_add k p os = length-set os k (p ∷ get_or os k [])

-- The range of 2 ^ (`k` + 1) pages is its two halves.
pub block_halves : (base k x : ℕ) → block base (suc k) x ≡ block base k x + block (base + 2 ^ k) k x
block_halves base k x = ground (arith, two-pow-succ k)

-- Every range of the lists from `order` on satisfies `P`.
abbrev pub EveryIn : (ℕ → Type 0) → List ℕ → Type 0
EveryIn P [] = Unit
EveryIn P (p ∷ ps) = P p × EveryIn P ps

abbrev pub Every : (ℕ → ℕ → Type 0) → ℕ → List (List ℕ) → Type 0
Every P order [] = Unit
Every P order (ps ∷ os) = EveryIn (λ p. P p order) ps × Every P (order + 1) os

pub Every-list_add :
    (P : ℕ → ℕ → Type 0) (order k m p : ℕ) (os : List (List ℕ))
    → m ≡ order + k
    → P p m
    → Every P order os
    → Every P order (list_add p k os)
Every-list_add P order k m p [] e h all = tt
Every-list_add P order zero m p (ps ∷ os) e h all =
    let same : m ≡ order = omega arith in ((subst (λ o. P p o) same h, all.0), all.1)
Every-list_add P order (suc k) m p (ps ∷ os) e h all =
    (all.0, Every-list_add P (order + 1) k m p os (omega arith) h all.1)

-- A range that was taken: its order is that of a list, what it satisfied, and what is left.
record Taken (P : ℕ → ℕ → Type 0) (order k p : ℕ) (os os' : List (List ℕ)) : Type 0 where
  pub known : k < length os
  pub holds : P p (order + k)
  pub rest : Every P order os'
  pub same_length : length os' ≡ length os
  pub frames : (x : ℕ) → in_orders order x os ≡ block p (order + k) x + in_orders order x os'

Taken-shift :
    (P : ℕ → ℕ → Type 0) (order k p : ℕ) (ps : List ℕ) (os os' : List (List ℕ))
    → EveryIn (λ p. P p order) ps
    → Taken P (order + 1) k p os os'
    → Taken P order (suc k) p (ps ∷ os) (ps ∷ os')
unfolding in_orders
Taken-shift P order k p ps os os' all t =
    let e : order + 1 + k ≡ order + suc k = omega arith in
    record {
      known = omega (arith, t.known);
      holds = subst (λ o. P p o) e t.holds;
      rest = (all, t.rest);
      same_length = omega (arith, t.same_length);
      frames = λ x.
          subst
            (λ o.
              in_list order x ps + in_orders (order + 1) x os
              ≡ block p o x + (in_list order x ps + in_orders (order + 1) x os'))
            e (omega (arith, t.frames x));
    }

pub Found-cases :
    {A : Type 0} (r : Found A)
    → ((p : ℕ) × (a : A) × (r ≡ page p a)) ⊎ (r ≡ nothing) ⊎ (r ≡ out_of_array)
Found-cases (page p a) = inl (p, a, refl)
Found-cases nothing = inr (inl refl)
Found-cases out_of_array = inr (inr refl)

Taken-first :
    (P : ℕ → ℕ → Type 0) (order p : ℕ) (ps : List ℕ) (os : List (List ℕ))
    → Every P order ((p ∷ ps) ∷ os)
    → Taken P order 0 p ((p ∷ ps) ∷ os) (ps ∷ os)
unfolding in_orders in_list
Taken-first P order p ps os all =
    let e : order ≡ order + 0 = omega arith in
    record {
      known = omega arith;
      holds = subst (λ o. P p o) e all.0.0;
      rest = (all.0.1, all.1);
      same_length = refl;
      frames = λ x.
          subst
            (λ o.
              block p order x + in_list order x ps + in_orders (order + 1) x os
              ≡ block p o x + (in_list order x ps + in_orders (order + 1) x os))
            e (omega arith);
    }

do_alloc_pages-Taken :
    (P : ℕ → ℕ → Type 0) (order k p : ℕ) (os os' : List (List ℕ))
    → Every P order os
    → do_alloc_pages k os ≡ page p os'
    → Taken P order k p os os'
unfolding do_alloc_pages
do_alloc_pages-Taken P order k p [] os' all h = absurd (ground arith)
do_alloc_pages-Taken P order zero p ([] ∷ os) os' all h = absurd (ground arith)
do_alloc_pages-Taken P order zero p ((q ∷ qs) ∷ os) os' all h =
    let same : q ≡ p = cc in
    let left : (qs ∷ os) ≡ os' = cc in
    subst (λ l. Taken P order 0 p ((q ∷ qs) ∷ os) l) left
      (subst (λ r. Taken P order 0 r ((q ∷ qs) ∷ os) (qs ∷ os)) same
        (Taken-first P order q qs os all))
do_alloc_pages-Taken P order (suc k) p (ps ∷ os) os' all h =
    elim (Found-cases (do_alloc_pages k os)) [
      | inl (q, os1, e) ↦
          let same : q ≡ p = cc in
          let left : (ps ∷ os1) ≡ os' = cc in
          let t = do_alloc_pages-Taken P (order + 1) k q os os1 all.1 e in
          subst (λ l. Taken P order (suc k) p (ps ∷ os) l) left
            (subst (λ r. Taken P order (suc k) r (ps ∷ os) (ps ∷ os1)) same
              (Taken-shift P order k q ps os os1 all.0 t))
      | inr (inl e) ↦ absurd (ground (arith, e))
      | inr (inr e) ↦ absurd (ground (arith, e))
    ]

-- The same for the lists from order 0 on.
pub record TakenFrom (P : ℕ → ℕ → Type 0) (k p : ℕ) (os os' : List (List ℕ)) : Type 0 where
  pub holds : P p k
  pub rest : Every P 0 os'
  pub same_length : length os' ≡ length os
  pub frames : (x : ℕ) → in_orders 0 x os ≡ block p k x + in_orders 0 x os'

pub do_alloc_pages-TakenFrom :
    (P : ℕ → ℕ → Type 0) (k p : ℕ) (os os' : List (List ℕ))
    → Every P 0 os
    → do_alloc_pages k os ≡ page p os'
    → TakenFrom P k p os os'
do_alloc_pages-TakenFrom P k p os os' all h =
    let t = do_alloc_pages-Taken P 0 k p os os' all h in
    let e : 0 + k ≡ k = omega arith in
    record {
      holds = subst (λ o. P p o) e t.holds;
      rest = t.rest;
      same_length = t.same_length;
      frames = λ x. subst (λ o. in_orders 0 x os ≡ block p o x + in_orders 0 x os') e (t.frames x);
    }
