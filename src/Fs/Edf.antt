-- ===== src/Fs/Edf.antt =====
-- The EDF file system, cp/fs/edf.c: mounting a volume and looking files up; Fs.Edf.Record reads a
-- record. A file is named by the number of the request that allocated it. The translation of a
-- character to EBCDIC is the parameter `ebcdic`. `none` is a BUG, or a read behind the page of a
-- block.
pub mod Record
pub mod Lookup
pub mod Mount
use hvf.Base.{
  ℕ, zero, suc, ◌+◌, ◌-◌, ◌*◌, ◌≡◌, Bool, true, false, not, ◌&&◌, ◌||◌, List, [], ◌∷◌, ◌++◌, Option,
  none, some, map, ltb, ◌==◌, if◌then◌else◌, Bytes, bytes_at, refl,
}
use hvf.Errno.{Errno, enomem, einval, enoent, ecorrupt, failed}
use hvf.Fs.Volume.{
  Adt, ident, dbsiz, dop, fstsz, nfst, offst, Fst, fst_size, fname, ftype, recfm, adbc, Result, ok,
  err, Device, Store, asked, bdev_read_block,
}
use hvf.Fs.Bcache.{File, Done, bcache_add, bcache_read}

-- `struct fs`, with the files that its list and the callers' pointers name.
pub record FileSystem : Type 0 where
  pub adt : Adt
  pub files : List ℕ
  pub dir : ℕ
  pub file : ℕ → File

abbrev pub with_file : ℕ → File → FileSystem → FileSystem
with_file id f fs = record fs { file = λ j. if j == id then f else fs.file j }

-- What an operation on a file system leaves.
pub record Made {ℓ} (A : Type ℓ) : Type ℓ where
  pub result : Result A
  pub fs : FileSystem
  pub store : Store

-- The file system with a new file.
abbrev pub with_new : Fst → FileSystem → Store → FileSystem
with_new fst fs s =
    with_file s.requests (record { fst = fst; bcache = [] })
      (record fs { files = fs.files ++ s.requests ∷ [] })

-- `__alloc_file`
unfoldable pub alloc_file : Device → Fst → FileSystem → Store → Made ℕ
alloc_file dev fst fs s =
    if dev.grants s.requests
    then record {
      result = ok s.requests;
      fs = with_new fst fs s;
      store = record (asked s) { structs = s.structs + 1 };
    }
    else record { result = err enomem; fs = fs; store = asked s }

pub alloc_file-granted :
    (dev : Device) (fst : Fst) (fs : FileSystem) (s : Store)
    → dev.grants s.requests ≡ true
    → alloc_file dev fst fs s ≡ record {
      result = ok s.requests;
      fs = with_new fst fs s;
      store = record (asked s) { structs = s.structs + 1 };
    }
unfolding alloc_file
alloc_file-granted dev fst fs s y = rw y refl

pub alloc_file-refused :
    (dev : Device) (fst : Fst) (fs : FileSystem) (s : Store)
    → dev.grants s.requests ≡ false
    → alloc_file dev fst fs s ≡ record { result = err enomem; fs = fs; store = asked s }
unfolding alloc_file
alloc_file-refused dev fst fs s n = rw n refl

-- `list_del`
pub list_del : ℕ → List ℕ → List ℕ
list_del id [] = []
list_del id (j ∷ js) = if j == id then js else j ∷ list_del id js

-- `__free_file`. The entries of the file's cache are not freed.
abbrev pub free_file : ℕ → FileSystem → FileSystem
free_file id fs = record fs { files = list_del id fs.files }

abbrev pub freed : Store → Store
freed s = record s { structs = s.structs - 1 }

-- `edf_file_free`
pub edf_file_free : ℕ → FileSystem → Store → FileSystem × Store
unfolding list_del
edf_file_free id fs s = (free_file id fs, freed s)

-- `!memcmp(a, b, 8)`
unfoldable pub same_bytes : List ℕ → List ℕ → Bool
same_bytes [] [] = true
same_bytes (a ∷ as') (b ∷ bs) = a == b && same_bytes as' bs
same_bytes _ _ = false

abbrev pub is_named : List ℕ → List ℕ → Fst → Bool
is_named fn ft f = same_bytes (fname f) fn && same_bytes (ftype f) ft

-- "first, check the cache"
pub find_cached : List ℕ → List ℕ → (ℕ → File) → List ℕ → Option ℕ
find_cached fn ft file [] = none
find_cached fn ft file (id ∷ ids) =
    if is_named fn ft (file id).fst then some id else find_cached fn ft file ids

-- `fst[i]`
abbrev pub fst_at : Bytes → ℕ → Fst
fst_at block i a = block (i * fst_size + a)

-- The loop over the `left` entries of a block from `i` on.
pub find_fst : ℕ → ℕ → List ℕ → List ℕ → Bytes → Option (Option Fst)
find_fst zero i fn ft block = some none
find_fst (suc left) i fn ft block =
    let rest = find_fst left (i + 1) fn ft block in
    if ltb 4096 (i * fst_size + fst_size)
    then none
    else if is_named fn ft (fst_at block i)
    then some (some (fst_at block i))
    else rest

-- The loop over the `left` blocks of the directory from `blk` on.
pub scan_dir : Device → Adt → List ℕ → List ℕ → ℕ → ℕ → File → Store → Option (Done (Option Fst))
scan_dir dev adt fn ft zero blk dir s = some (record { result = ok none; file = dir; store = s })
scan_dir dev adt fn ft (suc left) blk dir s = elim (bcache_read dev (dbsiz adt) 0 blk dir s) [
  | none ↦ none
  | some d ↦ elim d.result [
    | err e ↦ some (record { result = err e; file = d.file; store = d.store })
    | ok block ↦ elim (find_fst (nfst adt) 0 fn ft block) [
      | none ↦ none
      | some (some f) ↦ some (record { result = ok (some f); file = d.file; store = d.store })
      | some none ↦ scan_dir dev adt fn ft left (blk + 1) d.file d.store
    ]
  ]
]

-- How the slow path ends: the new file `id` gets its entry, or is freed.
pub end_lookup : ℕ → FileSystem → Done (Option Fst) → Made ℕ
end_lookup id fs d =
    let fs' = with_file fs.dir d.file fs in
    elim d.result [
      | ok (some f) ↦ record {
        result = ok id;
        fs = with_file id (record (fs'.file id) { fst = f }) fs';
        store = d.store;
      }
      | ok none ↦ record { result = err enoent; fs = free_file id fs'; store = freed d.store }
      | err e ↦ record { result = err e; fs = free_file id fs'; store = freed d.store }
    ]

abbrev pub zero_fst : Fst
zero_fst a = 0

-- The slow path with the new file, if there is one.
pub search_dir : Device → List ℕ → List ℕ → Made ℕ → Option (Made ℕ)
unfolding find_fst scan_dir end_lookup list_del
search_dir dev fn ft a = elim a.result [
  | err e ↦ some a
  | ok id ↦
      let dir = a.fs.file a.fs.dir in
      elim (scan_dir dev a.fs.adt fn ft (adbc dir.fst) 0 dir a.store) [
        | none ↦ none
        | some d ↦ some (end_lookup id a.fs d)
      ]
]

-- "the slow path"
pub lookup_slow : Device → List ℕ → List ℕ → FileSystem → Store → Option (Made ℕ)
unfolding alloc_file search_dir
lookup_slow dev fn ft fs s = search_dir dev fn ft (alloc_file dev zero_fst fs s)

-- `edf_lookup`, where `fn` and `ft` are the storage at the two pointers.
pub edf_lookup : (ℕ → ℕ) → Device → Bytes → Bytes → FileSystem → Store → Option (Made ℕ)
unfolding same_bytes find_cached lookup_slow
edf_lookup ebcdic dev fn ft fs s =
    let fn' = map ebcdic (bytes_at fn 0 8) in
    let ft' = map ebcdic (bytes_at ft 0 8) in
    elim (find_cached fn' ft' fs.file fs.files) [
      | some id ↦ some (record { result = ok id; fs = fs; store = s })
      | none ↦ lookup_slow dev fn' ft' fs s
    ]

-- DIRECTOR_FN, DIRECTOR_FT, ALLOCMAP_FN, ALLOCMAP_FT
abbrev pub director_fn : List ℕ
director_fn = 0 ∷ 0 ∷ 0 ∷ 1 ∷ 0 ∷ 0 ∷ 0 ∷ 0 ∷ []

abbrev pub director_ft : List ℕ
director_ft = 0xc4 ∷ 0xc9 ∷ 0xd9 ∷ 0xc5 ∷ 0xc3 ∷ 0xe3 ∷ 0xd6 ∷ 0xd9 ∷ []

abbrev pub allocmap_fn : List ℕ
allocmap_fn = 0 ∷ 0 ∷ 0 ∷ 2 ∷ 0 ∷ 0 ∷ 0 ∷ 0 ∷ []

abbrev pub allocmap_ft : List ℕ
allocmap_ft = 0xc1 ∷ 0xd3 ∷ 0xd3 ∷ 0xd6 ∷ 0xc3 ∷ 0xd4 ∷ 0xc1 ∷ 0xd7 ∷ []

-- FSTDFIX
abbrev pub fixed : ℕ
fixed = 0xc6

abbrev pub is_director : Bytes → Bool
is_director block =
    is_named director_fn director_ft (fst_at block 0)
    && recfm (fst_at block 0) == fixed
    && is_named allocmap_fn allocmap_ft (fst_at block 1)
    && recfm (fst_at block 1) == fixed

-- With the first block in the cache of the directory's file, or not.
unfoldable pub end_dir : ℕ → FileSystem → Errno × File × Store → Made FileSystem
unfolding list_del
end_dir id fs (ret, f, s) =
    let fs' = record (with_file id f fs) { dir = id } in
    if failed ret
    then record { result = err ret; fs = free_file id fs; store = freed s }
    else record { result = ok fs'; fs = fs'; store = s }

unfoldable pub add_first : Device → Made ℕ → Made FileSystem
unfolding end_dir
add_first dev a = elim a.result [
  | err e ↦ record { result = err e; fs = a.fs; store = a.store }
  | ok id ↦ end_dir id a.fs (bcache_add dev 0 0 (dop a.fs.adt) (a.fs.file id) a.store)
]

-- The file of the directory, behind the checks.
unfoldable pub open_dir : Device → Bytes → FileSystem → Store → Made FileSystem
unfolding alloc_file add_first
open_dir dev block fs s = add_first dev (alloc_file dev (fst_at block 0) fs s)

-- `__init_dir`
unfoldable pub init_dir : Device → FileSystem → Store → Made FileSystem
unfolding open_dir
init_dir dev fs s = elim (bdev_read_block dev (dop fs.adt) s) [
  | err e ↦ record { result = err e; fs = fs; store = asked s }
  | ok block ↦
      if is_director block
      then open_dir dev block fs (asked s)
      else record { result = err ecorrupt; fs = fs; store = asked s }
]

-- __ADTIDENT
abbrev pub adt_ident : ℕ
adt_ident = 0xC3D4E2F1

-- EDF_SUPPORTED_BLOCK_SIZE
abbrev pub block_size : ℕ
block_size = 4096

abbrev pub is_supported : Adt → Bool
is_supported adt =
    ident adt == adt_ident && dbsiz adt == block_size && offst adt == 0 && fstsz adt == fst_size

-- "First, read & verify the label": with the structure allocated. What is not set in it is `junk`.
unfoldable pub mount_label : Device → FileSystem → Store → Result FileSystem × Store
unfolding init_dir
mount_label dev junk s = elim (bdev_read_block dev 3 s) [
  | err e ↦ (err e, freed (asked s))
  | ok label ↦
      let d = init_dir dev (record junk { adt = label; files = [] }) (asked s) in
      if is_supported label
      then elim d.result [ ok fs ↦ (ok fs, d.store) | err e ↦ (err e, freed d.store) ]
      else (err einval, freed (asked s))
]

abbrev pub page_freed : Store → Store
page_freed s = record s { pages = s.pages - 1 }

-- `edf_mount`
unfoldable pub edf_mount : Device → FileSystem → Store → Result FileSystem × Store
unfolding mount_label
edf_mount dev junk s =
    let s1 = record (asked s) { pages = s.pages + 1 } in
    let s2 = record (asked s1) { structs = s.structs + 1 } in
    let m = mount_label dev junk s2 in
    if dev.grants s.requests
    then if dev.grants (s.requests + 1)
      then (m.0, page_freed m.1)
      else (err enomem, page_freed (asked s1))
    else (err enomem, asked s)
