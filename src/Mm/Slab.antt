-- ===== src/Mm/Slab.antt =====
-- The slab allocator, cp/mm/slab.c and cp/include/slab.h. A cache is the list of its pages: the one
-- that `create_slab` made, then those of `slab_pages` in order; the empty list is NULL. The header
-- of a page is a record and its bitmap stands in storage. A pointer is an address, 0 for NULL.
-- `none` is a BUG, a page search that leaves the allocator's arrays, or a pointer into no page of
-- the cache.
pub mod Geometry
pub mod Bitmap
pub mod Taken
pub mod From
pub mod Alloc
pub mod Free
use hvf.Base.{
  ℕ, zero, suc, ◌+◌, ◌-◌, ◌*◌, ◌/◌, ◌%◌, ◌^◌, Bool, true, false, not, ◌&&◌, List, [], ◌∷◌, ◌++◌,
  Option, none, some, ltb, leb, ◌==◌, if◌then◌else◌, bit_and, bit_or, Bytes, put, clear,
}
use hvf.Mm.Buddy.{
  Zone, Zones, normal, low, page, nothing, out_of_array, is_low_zone, alloc_pages, free_pages,
}

-- `sizeof(struct slab)`, which is packed.
abbrev pub header_size : ℕ
header_size = 40

abbrev pub slab_magic : ℕ
slab_magic = 0xe2d3_c1c2

abbrev pub slab_cont_magic : ℕ
slab_cont_magic = 0xe2d3_c1c3

-- `struct slab`, and where it stands.
pub record Slab : Type 0 where
  pub addr : ℕ
  pub magic : ℕ
  pub objsize : ℕ
  pub startoff : ℕ
  pub count : ℕ
  pub used : ℕ

-- The free pages, and the contents of storage.
pub record Heap : Type 0 where
  pub zones : Zones
  pub bytes : Bytes

-- `if (v & align) v += align + 1 - (v & align)`, on a `u16`.
abbrev pub round_up : ℕ → ℕ → ℕ
round_up v align = if bit_and v align == 0 then v else (v + (align + 1 - bit_and v align)) % 65536

-- The fields that `create_slab` computes; `align` is the mask.
unfoldable pub lay_out : ℕ → ℕ → ℕ → Slab
lay_out addr size align =
    let objsize = round_up size align in
    let count = 8 * (4096 - header_size) / (8 * objsize + 1) in
    let from = header_size + (count + 4) / 8 in
    let startoff = round_up from align in
    let past = ltb 4096 ((startoff + count * objsize) % 65536) in
    record {
      addr = addr;
      magic = slab_magic;
      objsize = objsize;
      startoff = startoff;
      count = if not (bit_and from align == 0) && past then count - 1 else count;
      used = 0;
    }

-- A cache, or NULL, and the heap.
unfoldable pub create_slab : ℕ → ℕ → Heap → Option (List Slab × Heap)
create_slab objsize align h =
    if objsize == 0
    then some ([], h)
    else if align == 0
    then some ([], h)
    else elim (alloc_pages 0 normal h.zones) [
      | page p z ↦ some (
        lay_out (p * 4096) objsize (align - 1) ∷ [],
        record { zones = z; bytes = clear h.bytes (p * 4096) 4096 },
      )
      | nothing ↦ some ([], h)
      | out_of_array ↦ none
    ]

-- The pages of `slab_pages`, in `free_slab`.
unfoldable pub free_slab_pages : List Slab → Heap → Option Heap
free_slab_pages [] h = some h
free_slab_pages (s ∷ slabs) h =
    let rest = free_slab_pages slabs (record h { zones = free_pages (s.addr / 4096) 0 h.zones }) in
    if s.magic == slab_cont_magic then if s.used == 0 then rest else none else none

unfoldable pub free_slab : List Slab → Heap → Option Heap
free_slab [] h = some h
free_slab (s ∷ slabs) h =
    if s.magic == slab_magic
    then if s.used == 0
      then elim (free_slab_pages slabs h) [
        | none ↦ none
        | some h' ↦ some (record h' { zones = free_pages (s.addr / 4096) 0 h'.zones })
      ]
      else none
    else none

-- `1 << (7 - (objidx % 8))`, and the byte of the bitmap.
abbrev pub mask : ℕ → ℕ
mask objidx = 2 ^ (7 - objidx % 8)

abbrev pub bits : Slab → ℕ → ℕ
bits s objidx = s.addr + header_size + objidx / 8

-- `*bits & mask` as a condition
abbrev pub in_use : Bytes → Slab → ℕ → Bool
in_use bytes s objidx = not (bit_and (bytes (bits s objidx)) (mask objidx) == 0)

-- The loop behind `alloc` for the `n` objects from `objidx` on: the first that is not in use.
unfoldable pub first_unused : Bytes → Slab → ℕ → ℕ → Option ℕ
first_unused bytes s zero objidx = none
first_unused bytes s (suc n) objidx = elim (in_use bytes s objidx) [
  | true ↦ first_unused bytes s n (objidx + 1)
  | false ↦ some objidx
]

-- `((u8*) slab) + slab->startoff + slab->objsize * objidx`
abbrev pub obj_at : Slab → ℕ → ℕ
obj_at s objidx = s.addr + s.startoff + s.objsize * objidx

-- From the label `alloc`: the object or NULL, the page, and storage.
unfoldable pub alloc_in : Slab → Bytes → ℕ × Slab × Bytes
alloc_in s bytes = elim (first_unused bytes s s.count 0) [
  | none ↦ (0, s, bytes)
  | some i ↦ (
    obj_at s i,
    record s { used = (s.used + 1) % 65536 },
    put bytes (bits s i) (bit_or (bytes (bits s i)) (mask i)),
  )
]

-- `ZONE_TYPE(addr_to_page(slab)) == type`
abbrev pub zone_is : Zone → ℕ → Bool
zone_is low addr = is_low_zone (addr / 4096)
zone_is normal addr = not (is_low_zone (addr / 4096))

abbrev pub usable : Zone → Slab → Bool
usable type s = ltb s.used s.count && zone_is type s.addr

-- The object comes from the first usable page; `none` if there is none.
unfoldable pub alloc_usable : Zone → List Slab → Bytes → Option (ℕ × List Slab × Bytes)
alloc_usable type [] bytes = none
alloc_usable type (s ∷ slabs) bytes = elim (usable type s) [
  | true ↦ let r = alloc_in s bytes in some (r.0, r.1 ∷ slabs, r.2)
  | false ↦ elim (alloc_usable type slabs bytes) [
    | none ↦ none
    | some (obj, slabs', bytes') ↦ some (obj, s ∷ slabs', bytes')
  ]
]

-- `__alloc_slab_obj_newpage`
abbrev pub new_slab : Slab → ℕ → Slab
new_slab first addr = record first { addr = addr; magic = slab_cont_magic; used = 0 }

unfoldable pub alloc_slab_obj : Zone → List Slab → Heap → Option (ℕ × List Slab × Heap)
alloc_slab_obj type [] h = some (0, [], h)
alloc_slab_obj type (s ∷ slabs) h =
    if s.magic == slab_magic
    then elim (alloc_usable type (s ∷ slabs) h.bytes) [
      | some (obj, slabs', bytes') ↦ some (obj, slabs', record h { bytes = bytes' })
      | none ↦ elim (alloc_pages 0 type h.zones) [
        | nothing ↦ some (0, s ∷ slabs, h)
        | out_of_array ↦ none
        | page p z ↦
            let r = alloc_in (new_slab s (p * 4096)) (clear h.bytes (p * 4096) 4096) in
            some (r.0, s ∷ slabs ++ r.1 ∷ [], record { zones = z; bytes = r.2 })
      ]
    ]
    else none

-- `free_slab_obj`, in the page at `ptr & ~0xfff`.
unfoldable pub free_slab_obj : ℕ → List Slab → Bytes → Option (List Slab × Bytes)
free_slab_obj ptr [] bytes = none
free_slab_obj ptr (s ∷ slabs) bytes = elim (s.addr == ptr / 4096 * 4096) [
  | true ↦
      let objidx = (ptr - s.addr - s.startoff) / s.objsize in
      some (
        record s { used = (s.used + 65535) % 65536 } ∷ slabs,
        put bytes (bits s objidx) (bit_and (bytes (bits s objidx)) (255 - mask objidx)),
      )
  | false ↦ elim (free_slab_obj ptr slabs bytes) [
    | none ↦ none
    | some (slabs', bytes') ↦ some (s ∷ slabs', bytes')
  ]
]

unfoldable pub allocsize : ℕ → List Slab → Option ℕ
allocsize ptr [] = none
allocsize ptr (s ∷ slabs) =
    if s.addr == ptr / 4096 * 4096 then some s.objsize else allocsize ptr slabs

-- The caches of `generic`: which one `malloc` takes an object of the size from.
unfoldable pub size_class : ℕ → Option ℕ
size_class size =
    if size == 0
    then none
    else if leb size 16
    then some 0
    else if leb size 32
    then some 1
    else if leb size 64
    then some 2
    else if leb size 128
    then some 3
    else if leb size 256
    then some 4
    else if leb size 512
    then some 5
    else if leb size 1024
    then some 6
    else none

-- `generic[]`
abbrev pub Generic : Type 0
Generic = ℕ → List Slab

unfoldable pub malloc : ℕ → Zone → Generic → Heap → Option (ℕ × Generic × Heap)
malloc size type generic h = elim (size_class size) [
  | none ↦ some (0, generic, h)
  | some k ↦ elim (alloc_slab_obj type (generic k) h) [
    | none ↦ none
    | some (obj, slabs, h') ↦ some (obj, (λ j. if j == k then slabs else generic j), h')
  ]
]

-- The sizes and alignments of `init_slab`.
abbrev pub generic_sizes : List (ℕ × ℕ)
generic_sizes = (16, 4) ∷ (32, 4) ∷ (64, 4) ∷ (128, 4) ∷ (256, 8) ∷ (512, 8) ∷ (1024, 8) ∷ []

-- The calls of `free_slab` at `out_err`.
unfoldable pub free_slabs : List (List Slab) → Heap → Option Heap
free_slabs [] h = some h
free_slabs (slabs ∷ more) h = elim (free_slab slabs h) [
  | none ↦ none
  | some h' ↦ free_slabs more h'
]

-- `init_slab` from a list of sizes on: the caches, or no caches for -ENOMEM.
unfoldable pub init_slab : List (ℕ × ℕ) → List (List Slab) → Heap → Option (List (List Slab) × Heap)
init_slab [] made h = some (made, h)
init_slab ((size, align) ∷ sizes) made h = elim (create_slab size align h) [
  | none ↦ none
  | some ([], h') ↦ elim (free_slabs made h') [ none ↦ none | some h2 ↦ some ([], h2) ]
  | some (s ∷ slabs, h') ↦ init_slab sizes (made ++ (s ∷ slabs) ∷ []) h'
]

-- `free`: the cache is the one that has the page of the pointer.
unfoldable pub free_in : ℕ → ℕ → Generic → Bytes → Option (Generic × Bytes)
free_in ptr zero generic bytes = none
free_in ptr (suc k) generic bytes = elim (free_slab_obj ptr (generic k) bytes) [
  | some (slabs, bytes') ↦ some ((λ j. if j == k then slabs else generic j), bytes')
  | none ↦ free_in ptr k generic bytes
]

unfoldable pub free : ℕ → Generic → Bytes → Option (Generic × Bytes)
free ptr generic bytes = if ptr == 0 then some (generic, bytes) else free_in ptr 7 generic bytes
