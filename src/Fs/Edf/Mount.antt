-- ===== src/Fs/Edf/Mount.antt =====
-- What `edf_mount` asks of a volume, and the file that it makes for the directory.
pub mod Ready
use mathlib.Core.Path.{subst}
use hvf.Base.{
  All, ℕ, zero, suc, ◌+◌, ◌-◌, ◌*◌, ◌≤◌, ◌<◌, ◌≡◌, ◌⊎◌, inl, inr, refl, ap, sym, ◌∙◌, arith, Bool,
  true, false, ◌&&◌, List, [], ◌∷◌, ◌++◌, Option, none, some, ◌==◌, if◌then◌else◌, Bytes,
  Bool-cases,
}
use hvf.Errno.{Errno, success, enomem, einval, ecorrupt, failed}
use hvf.Fs.Volume.{
  Adt, ident, dbsiz, dop, fstsz, offst, Fst, fst_size, recfm, nlvl, Result, ok, err, Device, Store,
  asked, Refused, no_memory, bdev_read_block, bdev_read_block_lem,
}
use hvf.Fs.Bcache.{File, Done, new_entry, add_entry, bcache_add}
use hvf.Fs.Bcache.Cached.{lba_at, Cached, Good}
use hvf.Fs.Edf.{
  FileSystem, Made, with_new, alloc_file-granted, alloc_file-refused, end_dir, add_first, freed,
  fst_at, fixed, director_fn, director_ft, allocmap_fn, allocmap_ft, is_director, open_dir,
  init_dir, adt_ident, block_size, is_supported, mount_label, page_freed, edf_mount,
}
use hvf.Fs.Edf.Lookup.{Named, is_named-cases}
use hvf.Fs.Edf.Lookup.Found.{Mounted, Earlier}

-- The label is that of a CMS volume with blocks of 4096 bytes.
abbrev pub IsLabel : Adt → Type 0
IsLabel t = (ident t ≡ adt_ident) × (dbsiz t ≡ block_size) × (offst t ≡ 0) × (fstsz t ≡ fst_size)

-- The block begins with the entries of the directory and of the allocation map.
abbrev pub IsDirectory : Bytes → Type 0
IsDirectory b =
    Named director_fn director_ft (fst_at b 0)
    × (recfm (fst_at b 0) ≡ fixed)
    × Named allocmap_fn allocmap_ft (fst_at b 1)
    × (recfm (fst_at b 1) ≡ fixed)

pub label-cases :
    (t : Adt) → ((is_supported t ≡ true) × IsLabel t) ⊎ ((is_supported t ≡ false) × (¬ IsLabel t))
label-cases t = elim (Bool-cases (is_supported t)) [
  | inl y ↦ inl (y, (ground (arith, y), ground (arith, y), ground (arith, y), ground (arith, y)))
  | inr n ↦ inr (n, λ h. ground (arith, n, h.0, h.1, h.2, h.3))
]

pub directory-cases :
    (b : Bytes)
    → ((is_director b ≡ true) × IsDirectory b) ⊎ ((is_director b ≡ false) × (¬ IsDirectory b))
directory-cases b =
    let f0 = fst_at b 0 in
    let f1 = fst_at b 1 in
    elim (is_named-cases director_fn director_ft f0) [
      | inr (n, h) ↦ inr (rw n refl, λ g. h g.0)
      | inl (y, h) ↦ elim (Bool-cases (recfm f0 == fixed)) [
        | inr n ↦ inr (rw (y, n) refl, λ g. ground (arith, n, g.1))
        | inl z ↦ elim (is_named-cases allocmap_fn allocmap_ft f1) [
          | inr (n, k) ↦ inr (rw (y, z, n) refl, λ g. k g.2)
          | inl (v, k) ↦ elim (Bool-cases (recfm f1 == fixed)) [
            | inr n ↦ inr (rw (y, z, v, n) refl, λ g. ground (arith, n, g.3))
            | inl w ↦ inl (rw (y, z, v, w) refl, (h, ground (arith, z), k, ground (arith, w)))
          ]
        ]
      ]
    ]

module _ (dev : Device) where
  abbrev pub label : Adt
  label = dev.disk 3

  abbrev pub first_block : Bytes
  first_block = dev.disk (dop label)

  -- A failure has a reason.
  abbrev pub Reason : Errno → Type 0
  Reason e =
      Refused dev e
      ⊎ (((e ≡ einval) × (¬ IsLabel label)) ⊎ ((e ≡ ecorrupt) × (¬ IsDirectory first_block)))

  pub record Opened (fs : FileSystem) (s : Store) (fs' : FileSystem) (s' : Store) : Type 0 where
    pub adt : fs'.adt ≡ fs.adt
    pub files : fs'.files ≡ fs.files ++ fs'.dir ∷ []
    pub fst : (fs'.file fs'.dir).fst ≡ fst_at first_block 0
    pub bcache : (fs'.file fs'.dir).bcache ≡ new_entry 0 0 (dop fs.adt) ∷ []
    pub earlier : fs'.dir < s'.requests
    pub structs : s'.structs ≡ s.structs + 2
    pub pages : s'.pages ≡ s.pages

  bcache_add-granted :
      (lba : ℕ) (f : File) (s : Store)
      → dev.grants s.requests ≡ true
      → bcache_add dev 0 0 lba f s ≡ (
        success,
        record f { bcache = f.bcache ++ new_entry 0 0 lba ∷ [] },
        record (asked s) { structs = s.structs + 1 },
      )
  unfolding bcache_add add_entry
  bcache_add-granted lba f s y = rw (bcache_add, y, add_entry, y) refl

  bcache_add-refused :
      (lba : ℕ) (f : File) (s : Store)
      → dev.grants s.requests ≡ false
      → bcache_add dev 0 0 lba f s ≡ (enomem, f, asked s)
  unfolding bcache_add add_entry
  bcache_add-refused lba f s n = rw (bcache_add, n, add_entry, n) refl

  module _ (fs : FileSystem) (s : Store) where
    abbrev new_fs : FileSystem
    new_fs = with_new (fst_at first_block 0) fs s

    abbrev one_struct : Store
    one_struct = record (asked s) { structs = s.structs + 1 }

    abbrev pub OpenDir : Made FileSystem → Type 0
    OpenDir r =
        ((fs' : FileSystem) × (r.result ≡ ok fs') × Opened fs s fs' r.store)
        ⊎ ((e : Errno) × (r.result ≡ err e)
            × Refused dev e
            × (r.store.structs ≡ s.structs)
            × (r.store.pages ≡ s.pages))

    add_first-OpenDir :
        OpenDir (add_first dev (record { result = ok s.requests; fs = new_fs; store = one_struct }))
    unfolding add_first end_dir
    add_first-OpenDir =
        let self : (s.requests == s.requests) ≡ true = ground arith in
        let f : File = new_fs.file s.requests in
        elim (Bool-cases (dev.grants one_struct.requests)) [
          | inr n ↦
              subst (λ r. OpenDir (end_dir s.requests new_fs r))
                (sym (bcache_add-refused (dop fs.adt) f one_struct n))
                (inr (enomem, refl, no_memory one_struct.requests n, omega arith, refl))
          | inl y ↦
              subst (λ r. OpenDir (end_dir s.requests new_fs r))
                (sym (bcache_add-granted (dop fs.adt) f one_struct y))
                (inl (
                  _,
                  refl,
                  record {
                    adt = refl;
                    files = refl;
                    fst = rw self refl;
                    bcache = rw self refl;
                    earlier = omega arith;
                    structs = omega arith;
                    pages = refl;
                  },
                ))
        ]

    pub open_dir-OpenDir : OpenDir (open_dir dev first_block fs s)
    unfolding open_dir add_first
    open_dir-OpenDir = elim (Bool-cases (dev.grants s.requests)) [
      | inr n ↦
          subst (λ a. OpenDir (add_first dev a))
            (sym (alloc_file-refused dev (fst_at first_block 0) fs s n))
            (inr (enomem, refl, no_memory s.requests n, refl, refl))
      | inl y ↦
          subst (λ a. OpenDir (add_first dev a))
            (sym (alloc_file-granted dev (fst_at first_block 0) fs s y)) add_first-OpenDir
    ]
