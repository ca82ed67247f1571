-- ===== src/Examples/Memory.antt =====
-- Guest storage access and the page allocator on small inputs.
use hvf.Base.{
  zero, suc, ◌^◌, ◌%◌, ℕ, ◌+◌, ◌-◌, ◌≡◌, ◌≢◌, refl, false, List, [], ◌∷◌, Option, some, Bytes,
  arith,
}
use hvf.Mm.Dat.{from_guest, memcpy_tofrom_guest}
use hvf.Mm.Dat.Transfer.{rest_of_page, spread, memcpy_from_guest_lem}
use hvf.Mm.Buddy.Frames.{Every}
use hvf.Mm.Buddy.{
  Zones, try_alloc, try_low, do_alloc_pages, search_larger, chip_pages, give_back, normal, low,
  page, nothing, init_buddy_alloc, alloc_pages, free_pages,
}
use hvf.Mm.Buddy.Pages.{IsValid, InLow, InNormal, Handed, free, alloc_pages-Handed}
use hvf.Mm.Buddy.Start.{within, init_buddy_alloc-within}
use hvf.Mm.Buddy.Limits.{alloc_normal_overruns}
use hvf.Mm.Buddy.Trace.{State, in_held, alloc, release, Run, start, more, Accounts, Run-Accounts}

abbrev counting : Bytes
counting a = a % 256

abbrev same_page : ℕ → Option ℕ
same_page a = some a

memcpy_from_guest_lem_example :
    let c = memcpy_tofrom_guest same_page from_guest 4090 0 10 counting counting in
    (c.fault ≡ false)
    × (c.copied ≡ 10)
    × (c.guest ≡ counting)
    × (c.buffer 7 ≡ spread counting counting 0 (rest_of_page 4090) 4090 10 7)
memcpy_from_guest_lem_example =
    memcpy_from_guest_lem same_page 4090 0 10 4090 7 counting counting refl

init_buddy_alloc-within_example :
    IsValid (init_buddy_alloc 5 10)
    × ((x : ℕ) → free x (init_buddy_alloc 5 10) ≡ within 5 (10 - 5) x)
init_buddy_alloc-within_example =
    init_buddy_alloc-within 5 10 (omega arith) (omega arith) (omega arith) (omega arith)

-- Page 5 and the pages 6 to 9 are free, and so are pages 2 ^ 19 and 2 ^ 19 + 1.
abbrev empties : ℕ → List (List ℕ)
empties zero = []
empties (suc n) = [] ∷ empties n

abbrev few : Zones
few = record {
  orders_low = (5 ∷ []) ∷ [] ∷ (6 ∷ []) ∷ empties 16;
  orders_normal = [] ∷ (2 ^ 19 ∷ []) ∷ empties 50;
}

Every-empties : (P : ℕ → ℕ → Type 0) (order n : ℕ) → Every P order (empties n)
Every-empties P order zero = tt
Every-empties P order (suc n) = (tt, Every-empties P (order + 1) n)

few-IsValid : IsValid few
few-IsValid = record {
  low_lists = refl;
  normal_lists = refl;
  low_ranges = (
    ((omega arith, omega arith), tt),
    (tt, (((omega arith, omega arith), tt), Every-empties InLow 3 16)),
  );
  normal_ranges = (tt, (((omega arith, omega arith), tt), Every-empties InNormal 2 50));
}

-- What is left when two pages of the four from 6 on are taken.
abbrev fewer : Zones
fewer = record few { orders_low = (5 ∷ []) ∷ (8 ∷ []) ∷ [] ∷ empties 16 }

takes : alloc_pages 1 low few ≡ page 6 fewer
unfolding alloc_pages try_alloc try_low do_alloc_pages search_larger chip_pages give_back
takes = refl

alloc_pages-Handed_example : Handed low 6 1 few fewer
alloc_pages-Handed_example = alloc_pages-Handed 1 low few fewer 6 few-IsValid takes

too_large : alloc_pages 3 low few ≡ nothing
unfolding alloc_pages try_alloc try_low do_alloc_pages search_larger chip_pages give_back
too_large = refl

alloc_normal_overruns_example : alloc_pages 3 normal few ≢ nothing
alloc_normal_overruns_example = alloc_normal_overruns 3 few few-IsValid (omega arith)

-- An allocation of those two pages, and their release.
abbrev first : State
first = record { zones = few; held = [] }

abbrev last : State
last = record { zones = free_pages 6 1 fewer; held = [] }

there_and_back : Run first last
there_and_back = more (more start (alloc 1 low takes)) (release [] [] 1 6)

few-Accounts : Accounts (λ x. free x few) first
unfolding in_held
few-Accounts = record { valid = few-IsValid; in_zones = tt; frames = λ x. omega arith }

Run-Accounts_example : Accounts (λ x. free x few) last
Run-Accounts_example = Run-Accounts (λ x. free x few) there_and_back few-Accounts
