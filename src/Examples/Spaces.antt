-- ===== src/Examples/Spaces.antt =====
-- Address spaces and the storage of a guest, with seven pages free.
use hvf.Base.{ℕ, zero, suc, ◌+◌, ◌*◌, ◌≡◌, refl, List, [], ◌∷◌, put, arith, inl}
use hvf.Mm.Buddy.{Zones, alloc_pages, try_alloc, try_low, do_alloc_pages, search_larger}
use hvf.Mm.Buddy.Frames.{Every, in_orders, in_list}
use hvf.Mm.Buddy.Pages.{InLow, InNormal, free}
use hvf.Mm.Tables.{
  AddressSpace, Memory, fill, new_ste, new_pte, dat_insert_page, own_segment_table, walk_segment,
  page_table, alloc_table,
}
use hvf.Mm.Tables.Walk.{Accounts}
use hvf.Mm.Tables.Entry.{Maps}
use hvf.Mm.Tables.Insert.{dat_insert_page-Maps}
use hvf.Guest.Storage.{alloc_guest_pages, Storage, alloc_guest_storage}
use hvf.Guest.Storage.Mapped.{occurrences, Mapped, alloc_guest_storage-Mapped}

abbrev pub none_free : ℕ → List (List ℕ)
none_free zero = []
none_free (suc n) = [] ∷ none_free n

Every-none_free : (P : ℕ → ℕ → Type 0) (order n : ℕ) → Every P order (none_free n)
Every-none_free P order zero = tt
Every-none_free P order (suc n) = (tt, Every-none_free P (order + 1) n)

in_orders-none_free : (order n x : ℕ) → in_orders order x (none_free n) ≡ 0
unfolding in_orders in_list
in_orders-none_free order zero x = refl
in_orders-none_free order (suc n) x = omega (arith, in_orders-none_free (order + 1) n x)

-- Pages 4 to 7 in one range, and pages 9 and 10.
abbrev pub seven : Zones
seven = record {
  orders_low = (9 ∷ 10 ∷ []) ∷ [] ∷ (4 ∷ []) ∷ none_free 16;
  orders_normal = none_free 52;
}

abbrev pub blank : Memory
blank = record { zones = seven; dwords = λ a. 0 }

abbrev pub no_space : AddressSpace
no_space = record { region_table = 0; segment_table = 0 }

pub seven-free : (x : ℕ) → free x seven ≡ in_list 0 x (9 ∷ 10 ∷ []) + in_list 2 x (4 ∷ [])
unfolding in_orders in_list
seven-free x = ground (arith, in_orders-none_free 0 52 x, in_orders-none_free 3 16 x)

pub no_space-Accounts : Accounts (occurrences []) no_space blank
unfolding in_list occurrences
no_space-Accounts = record {
  valid = record {
    low_lists = refl;
    normal_lists = refl;
    low_ranges = (
      ((omega arith, omega arith), ((omega arith, omega arith), tt)),
      (tt, (((omega arith, omega arith), tt), Every-none_free InLow 3 16)),
    );
    normal_ranges = Every-none_free InNormal 0 52;
  };
  once = λ x. ground (arith, seven-free x);
  real = λ x. ground (arith, seven-free x);
  aligned = refl;
  tidy = λ v. inl refl;
  no_regions = refl;
}

-- The guest's one page is page 9, and the tables stand in pages 4 to 7 and 10.
abbrev one_page : Storage
one_page = record {
  space = record { region_table = 0; segment_table = 16384 };
  memory = record {
    zones = record { orders_low = [] ∷ [] ∷ [] ∷ none_free 16; orders_normal = none_free 52 };
    dwords =
        put (put (fill (fill (λ a. 0) 16384 16384) 40960 4096) 16384 (new_ste 40960)) 40960
          (new_pte 36864);
  };
  guest_pages = 9 ∷ [];
}

abbrev bare : Storage
bare = record { space = no_space; memory = blank; guest_pages = 77 ∷ [] }

alloc_guest_storage-Mapped_example : Mapped (occurrences []) 4096 bare one_page
unfolding alloc_guest_storage alloc_guest_pages alloc_pages try_alloc try_low do_alloc_pages
    search_larger dat_insert_page own_segment_table walk_segment page_table alloc_table
alloc_guest_storage-Mapped_example =
    alloc_guest_storage-Mapped (occurrences []) 4096 bare one_page (omega arith) no_space-Accounts
      refl

-- Page 10 is the first that is free after the segment table.
abbrev inserted : Memory
inserted = record {
  zones = record { orders_low = (10 ∷ []) ∷ [] ∷ [] ∷ none_free 16; orders_normal = none_free 52 };
  dwords =
      put (put (fill (fill (λ a. 0) 16384 16384) 36864 4096) 16384 (new_ste 36864)) (36864 + 8 * 3)
        (new_pte 81920);
}

abbrev opened : AddressSpace
opened = record { region_table = 0; segment_table = 16384 }

dat_insert_page-Maps_example : Maps (occurrences []) 81920 12288 no_space opened blank inserted
unfolding alloc_pages try_alloc try_low do_alloc_pages search_larger dat_insert_page
    own_segment_table walk_segment page_table alloc_table
dat_insert_page-Maps_example =
    dat_insert_page-Maps no_space opened blank inserted 81920 12288 (omega arith) (omega arith)
      no_space-Accounts refl
