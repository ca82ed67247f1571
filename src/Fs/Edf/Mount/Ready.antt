-- ===== src/Fs/Edf/Mount/Ready.antt =====
-- `edf_mount` mounts a volume that `edf_lookup` can search, or frees what it has allocated.
use mathlib.Core.Path.{subst}
use hvf.Base.{
  All, ◌+◌, ◌-◌, ◌<◌, ◌≡◌, ◌⊎◌, inl, inr, refl, ap, sym, ◌∙◌, arith, true, [], ◌∷◌, Bool-cases,
}
use hvf.Errno.{Errno, enomem, einval, ecorrupt}
use hvf.Fs.Volume.{
  dbsiz, dop, nlvl, Result, ok, err, Device, Store, asked, no_memory, bdev_read_block_lem,
}
use hvf.Fs.Bcache.{new_entry}
use hvf.Fs.Bcache.Cached.{lba_at, Cached, Good}
use hvf.Fs.Edf.{Made, FileSystem, fst_at, init_dir, block_size, mount_label, page_freed, edf_mount}
use hvf.Fs.Edf.Lookup.Found.{Mounted, Earlier}
use hvf.Fs.Edf.Mount.{
  IsLabel, IsDirectory, label-cases, directory-cases, label, first_block, Reason, open_dir-OpenDir,
}

ok-injective : {A : Type 0} {x y : A} → ok x ≡ ok y → x ≡ y
ok-injective h = cc

module _ (dev : Device) where
  -- What a mounted volume is like, and what it takes.
  pub record Ready (s : Store) (fs : FileSystem) (s' : Store) : Type 0 where
    pub label : IsLabel (dev.disk 3) × IsDirectory (first_block dev)
    pub adt : fs.adt ≡ dev.disk 3
    pub files : fs.files ≡ fs.dir ∷ []
    pub fst : (fs.file fs.dir).fst ≡ fst_at (first_block dev) 0
    pub bcache : (fs.file fs.dir).bcache ≡ new_entry 0 0 (dop (dev.disk 3)) ∷ []
    pub earlier : fs.dir < s'.requests
    pub structs : s'.structs ≡ s.structs + 3
    pub pages : s'.pages ≡ s.pages

  abbrev pub Failed : Store → Result FileSystem × Store → Type 0
  Failed s r =
      (e : Errno) × (r.0 ≡ err e) × Reason dev e × (r.1.structs ≡ s.structs) × (r.1.pages ≡ s.pages)

  abbrev pub Mounting : Store → Result FileSystem × Store → Type 0
  Mounting s r = ((fs : FileSystem) × (r.0 ≡ ok fs) × Ready s fs r.1) ⊎ Failed s r

  module _ (junk : FileSystem) (s : Store) where
    abbrev labelled : FileSystem
    labelled = record junk { adt = dev.disk 3; files = [] }

    -- How `__init_dir` ends, with the structure of the volume allocated.
    abbrev InitDir : Made FileSystem → Type 0
    InitDir r =
        ((fs : FileSystem) × (r.result ≡ ok fs) × Ready s fs r.store)
        ⊎ ((e : Errno) × (r.result ≡ err e)
            × Reason dev e
            × (r.store.structs ≡ s.structs + 1)
            × (r.store.pages ≡ s.pages))

    init_dir-InitDir :
        IsLabel (label dev)
        → (st : Store) → st.structs ≡ s.structs + 1
        → st.pages ≡ s.pages
        → InitDir (init_dir dev labelled st)
    unfolding init_dir
    init_dir-InitDir good st a b = elim (bdev_read_block_lem dev (dop (label dev)) st) [
      | inr (e, q, why) ↦
          inr (e, rw (init_dir, q) refl, inl why, rw (init_dir, q) a, rw (init_dir, q) b)
      | inl q ↦ elim (directory-cases (first_block dev)) [
        | inr (n, bad) ↦ inr (
          ecorrupt,
          rw (init_dir, q, n) refl,
          inr (inr (refl, bad)),
          rw (init_dir, q, n) a,
          rw (init_dir, q, n) b,
        )
        | inl (y, dir) ↦ elim (open_dir-OpenDir dev labelled (asked st)) [
          | inr (e, p, why, c, d) ↦ inr (
            e,
            rw (init_dir, q, y) p,
            inl why,
            rw (init_dir, q, y) (c ∙ a),
            rw (init_dir, q, y) (d ∙ b),
          )
          | inl (fs, p, o) ↦ inl (
            fs,
            rw (init_dir, q, y) p,
            rw (init_dir, q, y)
                (record {
                  label = (good, dir);
                  adt = o.adt;
                  files = o.files;
                  fst = o.fst;
                  bcache = o.bcache;
                  earlier = o.earlier;
                  structs = omega (arith, o.structs, a);
                  pages = o.pages ∙ b;
                }),
          )
        ]
      ]
    ]

    mount_label-Mounting :
        (st : Store)
        → st.structs ≡ s.structs + 1
        → st.pages ≡ s.pages
        → Mounting s (mount_label dev junk st)
    unfolding mount_label
    mount_label-Mounting st a b = elim (bdev_read_block_lem dev 3 st) [
      | inr (e, q, why) ↦ rw (mount_label, q) (inr (e, refl, inl why, omega (arith, a), b))
      | inl q ↦ elim (label-cases (label dev)) [
        | inr (n, bad) ↦
            rw (mount_label, q, n) (inr (einval, refl, inr (inl (refl, bad)), omega (arith, a), b))
        | inl (y, good) ↦ elim (init_dir-InitDir good (asked st) a b) [
          | inl (fs, p, ready) ↦ rw (mount_label, q, y, p) (inl (fs, refl, ready))
          | inr (e, p, why, c, d) ↦
              rw (mount_label, q, y, p) (inr (e, refl, why, omega (arith, c), d))
        ]
      ]
    ]

  abbrev twice : Store → Store
  twice s = record { requests = s.requests + 1 + 1; structs = s.structs + 1; pages = s.pages + 1 }

  edf_mount-granted :
      (junk : FileSystem) (s : Store)
      → dev.grants s.requests ≡ true
      → dev.grants (s.requests + 1) ≡ true
      → ((mount_label dev junk (twice s)).0, page_freed (mount_label dev junk (twice s)).1)
        ≡ edf_mount dev junk s
  unfolding edf_mount
  edf_mount-granted junk s y z = rw (edf_mount, y, z) refl

  -- A mount ends in one of two ways. The volume is mounted: its (label dev) and the first block of
  -- its directory are what the code supports, the directory is its only file, with the entry on the
  -- disk and the first block in its cache, and three structures and no page have been allocated. Or
  -- there is an error that has a reason, which is a request that was refused, a (label dev) or a
  -- directory that is not as it should be, and all that was allocated has been freed.
  pub edf_mount-Mounting : (junk : FileSystem) (s : Store) → Mounting s (edf_mount dev junk s)
  unfolding edf_mount
  edf_mount-Mounting junk s =
      let s1 : Store = record (asked s) { pages = s.pages + 1 } in
      let s2 : Store = record (asked s1) { structs = s.structs + 1 } in
      elim (Bool-cases (dev.grants s.requests)) [
        | inr n ↦ rw (edf_mount, n) (inr (enomem, refl, inl (no_memory s.requests n), refl, refl))
        | inl y ↦ elim (Bool-cases (dev.grants (s.requests + 1))) [
          | inr n ↦
              rw (edf_mount, y, n)
                (inr (enomem, refl, inl (no_memory (s.requests + 1) n), refl, omega arith))
          | inl z ↦
              subst (Mounting s) (edf_mount-granted junk s y z)
                (elim (mount_label-Mounting junk s1 s2 refl refl) [
                  | inr (e, q, why, c, d) ↦ inr (e, q, why, c, omega (arith, d))
                  | inl (fs, q, r) ↦ inl (
                    fs,
                    q,
                    record {
                      label = r.label;
                      adt = r.adt;
                      files = r.files;
                      fst = r.fst;
                      bcache = r.bcache;
                      earlier = r.earlier;
                      structs = r.structs;
                      pages = omega (arith, r.pages);
                    },
                  )
                ])
        ]
      ]

  -- If the directory's entry places its first block where the (label dev) does, a volume that
  -- `edf_mount` has mounted meets what `edf_lookup` needs: the cache agrees with the disk.
  pub edf_mount-Mounted :
      (junk fs : FileSystem) (s : Store)
      → lba_at dev block_size (fst_at (first_block dev) 0) (nlvl (fst_at (first_block dev) 0)) 0
        ≡ dop (label dev)
      → (edf_mount dev junk s).0 ≡ ok fs
      → Mounted dev fs (edf_mount dev junk s).1
  edf_mount-Mounted junk fs s origin h = elim (edf_mount-Mounting junk s) [
    | inr (e, q, why, c, d) ↦ absurd (cc)
    | inl (fs', q, r) ↦
        let same : fs' ≡ fs = ok-injective (sym q ∙ h) in
        subst (λ x. Mounted dev x (edf_mount dev junk s).1) same
          (let f = fs'.file fs'.dir in
            let size : dbsiz fs'.adt ≡ block_size = ap dbsiz r.adt ∙ r.label.0.1 in
            let top : lba_at dev (dbsiz fs'.adt) f.fst (nlvl f.fst - 0) 0 ≡ dop (label dev) =
              ap (λ u. lba_at dev u f.fst (nlvl f.fst - 0) 0) size
              ∙ ap (λ x. lba_at dev block_size x (nlvl x - 0) 0) r.fst
              ∙ ap (λ u. lba_at dev block_size (fst_at (first_block dev) 0) u 0) (omega arith)
              ∙ origin in
            let good : Good dev (dbsiz fs'.adt) f.fst (new_entry 0 0 (dop (label dev))) = record {
              in_file = omega arith;
              at = sym top;
              holds = inl refl;
            } in
            let cached : Cached dev (dbsiz fs'.adt) f =
              subst (All (Good dev (dbsiz fs'.adt) f.fst)) (sym r.bcache) (good, tt) in
            record {
              dir_earlier = (r.earlier, cached);
              files_earlier =
                  subst (All (Earlier dev fs' (edf_mount dev junk s).1)) (sym r.files)
                    ((r.earlier, cached), tt);
            })
  ]
