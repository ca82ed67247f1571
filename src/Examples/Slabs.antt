-- ===== src/Examples/Slabs.antt =====
-- A slab cache with one page, of seven objects of 512 bytes.
use hvf.Base.{◌-◌, ℕ, ◌≡◌, ◌≤◌, ◌⊎◌, refl, List, [], ◌∷◌, some, put, arith, inl, inr, Bytes}
use hvf.Mm.Buddy.{low}
use hvf.Mm.Buddy.Frames.{in_list}
use hvf.Mm.Slab.{
  Slab, Heap, slab_magic, header_size, lay_out, alloc_slab_obj, alloc_usable, alloc_in,
  first_unused, free_slab_obj,
}
use hvf.Mm.Slab.Bitmap.{tally}
use hvf.Mm.Slab.Geometry.{Fits, lay_out-Fits, bitmap_overlap}
use hvf.Mm.Slab.Taken.{Sound}
use hvf.Mm.Slab.Alloc.{IsValid, Taken, Refused, alloc_slab_obj-Taken}
use hvf.Mm.Slab.Free.{Given, free_slab_obj-Given}
use hvf.Examples.Spaces.{seven, seven-free, no_space-Accounts}

lay_out-Fits_example : Fits 100 4 (lay_out 45056 100 (4 - 1))
lay_out-Fits_example = lay_out-Fits 45056 100 4 (omega arith) (omega arith) (inl refl)

bitmap_overlap_example :
    ((lay_out 45056 1024 (8 - 1)).startoff ≡ header_size) × (1 ≤ (lay_out 45056 1024 (8 - 1)).count)
bitmap_overlap_example = bitmap_overlap 45056 1024 8 (omega arith) (omega arith) (inr refl)

abbrev pub page_of_512 : ℕ → Slab
page_of_512 used = record {
  addr = 45056;
  magic = slab_magic;
  objsize = 512;
  startoff = 48;
  count = 7;
  used = used;
}

abbrev pub unused : Bytes
unused a = 0

-- The first object is in use.
abbrev pub first_used : Bytes
first_used = put unused 45096 128

abbrev pub slab_heap : Bytes → Heap
slab_heap bytes = record { zones = seven; bytes = bytes }

unused-Sound : Sound (page_of_512 0) unused
unfolding tally
unused-Sound = record {
  counted = refl;
  some_object = omega arith;
  bitmap_inside = omega arith;
  inside = omega arith;
  sized = omega arith;
  page = refl;
}

first_used-Sound : Sound (page_of_512 1) first_used
unfolding tally
first_used-Sound = record {
  counted = refl;
  some_object = omega arith;
  bitmap_inside = omega arith;
  inside = omega arith;
  sized = omega arith;
  page = refl;
}

cache-IsValid : IsValid (page_of_512 0 ∷ []) (slab_heap unused)
unfolding in_list
cache-IsValid = record {
  zones = no_space-Accounts.valid;
  bound = λ a. omega arith;
  sound = (unused-Sound, tt);
  once = λ x. ground (arith, seven-free x);
}

alloc_slab_obj-Taken_example :
    Refused
      (page_of_512 0 ∷ [])
      (slab_heap unused)
      (45104, page_of_512 1 ∷ [], slab_heap first_used)
    ⊎ Taken
        (page_of_512 0 ∷ [])
        (slab_heap unused)
        45104
        (page_of_512 1 ∷ [])
        (slab_heap first_used)
unfolding alloc_slab_obj alloc_usable alloc_in first_unused
alloc_slab_obj-Taken_example =
    alloc_slab_obj-Taken low (page_of_512 0 ∷ []) (page_of_512 1 ∷ []) (slab_heap unused)
      (slab_heap first_used) 45104 cache-IsValid refl

free_slab_obj-Given_example :
    (r : List Slab × Bytes) × (free_slab_obj 45104 (page_of_512 1 ∷ []) first_used ≡ some r)
    × Given (page_of_512 1 ∷ []) first_used 45104 r.0 r.1
unfolding tally
free_slab_obj-Given_example =
    free_slab_obj-Given 45104 (page_of_512 1 ∷ []) first_used (first_used-Sound, tt)
      (λ a. ground arith) (λ x. ground arith) (omega arith)
