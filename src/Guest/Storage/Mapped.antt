-- ===== src/Guest/Storage/Mapped.antt =====
-- The storage of a guest is mapped, each page to a page of its own.
use native.Mathlib.Decide.{ℕ_discrete}
use hvf.Mm.Buddy.{Zones}
use hvf.Base.{
  ◌^◌, Option, ◌∙◌, ℕ, zero, suc, ◌+◌, ◌*◌, ◌/◌, ◌%◌, ◌≤◌, ◌<◌, ◌≡◌, inl, inr, refl, some, List, [],
  ◌∷◌, length, get_or, ltb, ◌==◌, if◌then◌else◌, arith, Option-cases,
}
use hvf.Mm.Buddy.{normal, alloc_pages}
use hvf.Mm.Buddy.Frames.{Found-cases}
use hvf.Mm.Buddy.Pages.{alloc_pages-Handed, Handed}
use hvf.Mm.Tables.{Memory, dat_insert_page, AddressSpace}
use hvf.Mm.Tables.Walk.{Accounts, walk}
use hvf.Mm.Tables.Insert.{dat_insert_page-Maps}
use hvf.Guest.Storage.{Storage, done, alloc_guest_pages, alloc_guest_storage}

-- How often a page is in a list of pages.
unfoldable pub occurrences : List ℕ → ℕ → ℕ
occurrences [] x = 0
occurrences (p ∷ ps) x = (if p == x then 1 else 0) + occurrences ps x

-- From `s` to `t`, `pages` more pages at the head of the list, which the address space maps in
-- order from address 0 on. `held` counts the pages that others hold.
record Added (held : ℕ → ℕ) (pages : ℕ) (s t : Storage) : Type 0 where
  accounts : Accounts (λ x. held x + occurrences t.guest_pages x) t.space t.memory
  more : length t.guest_pages ≡ pages + length s.guest_pages
  others : (i : ℕ) → get_or t.guest_pages (pages + i) 0 ≡ get_or s.guest_pages i 0
  walks :
      (v : ℕ)
      → walk t.space t.memory v ≡ (
          if ltb (v / 4096) pages
          then some (get_or t.guest_pages (v / 4096) 0 * 4096 + v % 4096)
          else walk s.space s.memory v)

-- A page off the free ones is held.
take-Accounts :
    {space : AddressSpace} (held : ℕ → ℕ) (m m' : Memory) (p : ℕ) (l : List ℕ)
    → Accounts (λ x. held x + occurrences l x) space m
    → m'.dwords ≡ m.dwords
    → Handed normal p 0 m.zones m'.zones
    → Accounts (λ x. held x + occurrences (p ∷ l) x) space m'
unfolding occurrences
take-Accounts {space} held m m' p l a e h = record {
  valid = h.valid;
  once = λ x. rw e (ground (arith, a.once x, h.frames x));
  real = λ x. ground (arith, a.real x, h.frames x);
  aligned = a.aligned;
  tidy = λ v. rw e (a.tidy v);
  no_regions = a.no_regions;
}

-- The address of a page that was free has 64 bits.
take-bound :
    {held : ℕ → ℕ} {space : AddressSpace} (m : Memory) (z' : Zones) (p : ℕ)
    → Accounts held space m
    → Handed normal p 0 m.zones z'
    → p * 4096 < 18446744073709551616
take-bound m z' p a h = ground (arith, a.real p, h.frames p)

-- The free pages have no part in the translation.
walk-zones :
    (space : AddressSpace) (m : Memory) (z : Zones) (v : ℕ)
    → walk space (record m { zones = z }) v ≡ walk space m v
unfolding walk
walk-zones space m z v = refl

round_walk :
    (p n v : ℕ) (w w' : Option ℕ)
    → w ≡ w'
    → (if v / 4096 == n * 4096 / 4096 then some (p * 4096 / 4096 * 4096 + v % 4096) else w)
      ≡ (if v / 4096 == n then some (p * 4096 + v % 4096) else w')
round_walk p n v w w' e =
    let first : n * 4096 / 4096 ≡ n = omega arith in
    let second : p * 4096 / 4096 ≡ p = omega arith in rw (first, second, e) refl

-- One round of the loop and the rest.
Added-round :
    {held : ℕ → ℕ} (pages p : ℕ) (s s1 t : Storage)
    → s1.guest_pages ≡ p ∷ s.guest_pages
    → ((v : ℕ)
        → walk s1.space s1.memory v
          ≡ (if v / 4096 == pages then some (p * 4096 + v % 4096) else walk s.space s.memory v))
    → Added held pages s1 t
    → Added held (suc pages) s t
Added-round pages p s s1 t e w m =
    let here : get_or t.guest_pages pages 0 ≡ p = ground (arith, m.others 0, e) in
    record {
      accounts = m.accounts;
      more = ground (arith, m.more, e);
      others = λ i. ground (arith, m.others (suc i), e);
      walks = λ v. elim (ℕ_discrete (v / 4096) pages) [
        | yes same ↦ m.walks v ∙ ground (arith, w v, here, same)
        | no other ↦ m.walks v ∙ ground (arith, w v, other)
      ];
    }

alloc_guest_pages-Added :
    (held : ℕ → ℕ) (pages : ℕ) (s t : Storage)
    → pages ≤ 524288
    → Accounts (λ x. held x + occurrences s.guest_pages x) s.space s.memory
    → alloc_guest_pages pages s ≡ done t
    → Added held pages s t
unfolding alloc_guest_pages
alloc_guest_pages-Added held zero s t h a e =
    let same : t ≡ s = ground (arith, e) in
    rw same (record {
      accounts = a;
      more = ground arith;
      others = λ i. ground arith;
      walks = λ v. ground arith;
    })
alloc_guest_pages-Added held (suc pages) s t h a e =
    elim (Found-cases (alloc_pages 0 normal s.memory.zones)) [
      | inr (inl f) ↦ absurd (ground (arith, f))
      | inr (inr f) ↦ absurd (ground (arith, f))
      | inl (p, z, f) ↦
          let m0 : Memory = record { zones = z; dwords = s.memory.dwords } in
          let handed = alloc_pages-Handed 0 normal s.memory.zones z p a.valid f in
          let a0 = take-Accounts held s.memory m0 p s.guest_pages a refl handed in
          elim (Option-cases (dat_insert_page s.space (p * 4096) (pages * 4096) m0)) [
            | inl none_left ↦ absurd (ground (arith, f, none_left))
            | inr ((space, m), g) ↦
                let maps =
                  dat_insert_page-Maps s.space space m0 m (p * 4096) (pages * 4096) (omega arith)
                    (take-bound s.memory z p a handed) a0 g in
                let s1 : Storage = record {
                  space = space;
                  memory = m;
                  guest_pages = p ∷ s.guest_pages;
                } in
                Added-round pages p s s1 t refl
                  (λ v.
                    maps.walks v
                    ∙ round_walk p pages v (walk s.space m0 v) (walk s.space s.memory v)
                        (walk-zones s.space s.memory z v))
                  (alloc_guest_pages-Added held pages s1 t (omega arith) maps.accounts
                    (ground (arith, f, g)))
          ]
    ]

-- From `s` to `t`, the list is that of the storage's pages, in the order of guest addresses.
pub record Mapped (held : ℕ → ℕ) (storage_size : ℕ) (s t : Storage) : Type 0 where
  pub accounts : Accounts (λ x. held x + occurrences t.guest_pages x) t.space t.memory
  pub pages : length t.guest_pages ≡ storage_size / 4096
  pub walks :
      (v : ℕ)
      → walk t.space t.memory v ≡ (
          if ltb (v / 4096) (storage_size / 4096)
          then some (get_or t.guest_pages (v / 4096) 0 * 4096 + v % 4096)
          else walk s.space s.memory v)

no_pages-Accounts :
    {held : ℕ → ℕ} {space : AddressSpace} {m : Memory}
    → Accounts held space m
    → Accounts (λ x. held x + occurrences [] x) space m
unfolding occurrences
no_pages-Accounts a = record {
  valid = a.valid;
  once = λ x. omega (arith, a.once x);
  real = λ x. ground (arith, a.real x);
  aligned = a.aligned;
  tidy = a.tidy;
  no_regions = a.no_regions;
}

-- With the accounts right for the pages that others hold, no region table and at most 2 GB, an
-- allocation that is done leaves the accounts right, with the guest's pages held too: no page is a
-- guest's page twice, or also free, or held by others, or also has a table in it. The list, whatever
-- it was before, has one page for each 4096 bytes of the storage size, in the order of guest
-- addresses; the address space translates each address below those pages to its place in the page
-- of the list, and the others as before.
pub alloc_guest_storage-Mapped :
    (held : ℕ → ℕ) (storage_size : ℕ) (s t : Storage)
    → storage_size ≤ 2 ^ 31
    → Accounts held s.space s.memory
    → alloc_guest_storage storage_size s ≡ done t
    → Mapped held storage_size s t
unfolding alloc_guest_storage
alloc_guest_storage-Mapped held storage_size s t h a e =
    let emptied : Storage = record s { guest_pages = [] } in
    let r =
      alloc_guest_pages-Added held (storage_size / 4096) emptied t (omega arith)
        (no_pages-Accounts a) e in
    record { accounts = r.accounts; pages = omega (arith, r.more); walks = r.walks }
