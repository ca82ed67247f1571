-- ===== src/Mm/Buddy/Trace.antt =====
-- Any sequence of allocations and of releases of what was allocated.
use hvf.Base.{ℕ, ◌+◌, ◌≡◌, refl, List, [], ◌∷◌, ◌++◌, arith}
use hvf.Mm.Buddy.{page, Zones, Zone, alloc_pages, free_pages}
use hvf.Mm.Buddy.Frames.{block}
use hvf.Mm.Buddy.Pages.{IsValid, InZone, free, alloc_pages-Handed, free_pages-Returned}

-- The allocator, and the ranges that its callers hold: first page and order.
pub record State : Type 0 where
  pub zones : Zones
  pub held : List (ℕ × ℕ)

pub data Step : State → State → Type 0 where
  alloc :
      {z z' : Zones} {held : List (ℕ × ℕ)} {p : ℕ} (order : ℕ) (type : Zone)
      → alloc_pages order type z ≡ page p z'
      → Step (record { zones = z; held = held }) (record { zones = z'; held = (p, order) ∷ held })
  release :
      {z : Zones} (before after : List (ℕ × ℕ)) (order p : ℕ)
      → Step
          (record { zones = z; held = before ++ ((p, order) ∷ after) })
          (record { zones = free_pages p order z; held = before ++ after })

pub data Run : State → State → Type 0 where
  start : {s : State} → Run s s
  more : {r s t : State} → Run r s → Step s t → Run r t

-- How often `x` is in a held range.
unfoldable pub in_held : ℕ → List (ℕ × ℕ) → ℕ
in_held x [] = 0
in_held x (r ∷ rs) = block r.0 r.1 x + in_held x rs

abbrev pub InZones : List (ℕ × ℕ) → Type 0
InZones [] = Unit
InZones (r ∷ rs) = InZone r.0 r.1 × InZones rs

-- Each page `x` is free or held `total x` times in all.
pub record Accounts (total : ℕ → ℕ) (s : State) : Type 0 where
  pub valid : IsValid s.zones
  pub in_zones : InZones s.held
  pub frames : (x : ℕ) → free x s.zones + in_held x s.held ≡ total x

in_held-append :
    (x : ℕ) (before after : List (ℕ × ℕ)) (p order : ℕ)
    → in_held x (before ++ ((p, order) ∷ after)) ≡ block p order x + in_held x (before ++ after)
unfolding in_held
in_held-append x [] after p order = refl
in_held-append x (r ∷ before) after p order = omega (arith, in_held-append x before after p order)

InZones-append :
    (before after : List (ℕ × ℕ)) (p order : ℕ)
    → InZones (before ++ ((p, order) ∷ after))
    → InZone p order × InZones (before ++ after)
InZones-append [] after p order h = h
InZones-append (r ∷ before) after p order h =
    let i = InZones-append before after p order h.1 in (i.0, (h.0, i.1))

Step-Accounts : (total : ℕ → ℕ) {s t : State} → Step s t → Accounts total s → Accounts total t
unfolding in_held
Step-Accounts total (alloc {z} {z'} {held} {p} order type e) a =
    let h = alloc_pages-Handed order type z z' p a.valid e in
    record {
      valid = h.valid;
      in_zones = (h.in_zone, a.in_zones);
      frames = λ x. omega (arith, a.frames x, h.frames x);
    }
Step-Accounts total (release {z} before after order p) a =
    let i = InZones-append before after p order a.in_zones in
    let r = free_pages-Returned p order z a.valid i.0 in
    record {
      valid = r.valid;
      in_zones = i.1;
      frames = λ x. omega (arith, a.frames x, r.frames x, in_held-append x before after p order);
    }

-- However callers allocate ranges and release what they hold, each page stays accounted for as
-- often as at the start: free or held, and if that was once, then never in two ranges at a time.
pub Run-Accounts : (total : ℕ → ℕ) {s t : State} → Run s t → Accounts total s → Accounts total t
Run-Accounts total start a = a
Run-Accounts total (more run step) a = Step-Accounts total step (Run-Accounts total run a)
