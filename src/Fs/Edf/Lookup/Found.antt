-- ===== src/Fs/Edf/Lookup/Found.antt =====
-- `edf_lookup` finds the file that the volume has under a name.
use mathlib.Core.Path.{subst}
use hvf.Base.{
  All, All-map, All-snoc, ℕ, ◌+◌, ◌≤◌, ◌<◌, ◌≡◌, ◌≢◌, ◌⊎◌, inl, inr, refl, ap, sym, ◌∙◌, arith,
  true, false, List, [], ◌∷◌, ◌++◌, Option, some, map, ◌==◌, Bytes, bytes_at, Bool-cases,
  Option-cases,
}
use hvf.Errno.{Errno, enomem, enoent}
use hvf.Fs.Volume.{dbsiz, nfst, Fst, adbc, ok, err, Device, Store, asked, Refused, no_memory}
use hvf.Fs.Bcache.{Done}
use hvf.Fs.Bcache.Cached.{Cached, Kept}
use hvf.Fs.Edf.{
  FileSystem, Made, with_file, alloc_file-granted, alloc_file-refused, with_new, list_del,
  free_file, freed, find_cached, scan_dir, end_lookup, zero_fst, search_dir, lookup_slow,
  edf_lookup,
}
use hvf.Fs.Edf.Lookup.{
  First, Search, Named, find_cached-Search, dir_entries, Scanned, scan_dir-Scanned,
}

list_del-snoc :
    (P : ℕ → Type 0) (id : ℕ) (js : List ℕ)
    → ((j : ℕ) → P j → j < id)
    → All P js
    → list_del id (js ++ id ∷ []) ≡ js
unfolding list_del
list_del-snoc P id [] f h = ground arith
list_del-snoc P id (j ∷ js) f h = ground (arith, f j h.0, list_del-snoc P id js f h.1)

module _ (dev : Device) where
  -- Files are named by earlier requests, and what their caches hold agrees with the disk.
  abbrev pub Earlier : FileSystem → Store → ℕ → Type 0
  Earlier fs s j = (j < s.requests) × Cached dev (dbsiz fs.adt) (fs.file j)

  pub record Mounted (fs : FileSystem) (s : Store) : Type 0 where
    pub dir_earlier : Earlier fs s fs.dir
    pub files_earlier : All (Earlier fs s) fs.files

  -- What the search of the directory ends with, for the new file `s.requests`.
  abbrev pub Found : List ℕ → List ℕ → FileSystem → Store → Made ℕ → Fst → Type 0
  Found fn ft fs s r f =
      (r.result ≡ ok s.requests)
      × (r.fs.files ≡ fs.files ++ s.requests ∷ [])
      × ((r.fs.file s.requests).fst ≡ f)

  pub record Looked (fn ft : List ℕ) (fs : FileSystem) (s : Store) (r : Made ℕ) : Type 0 where
    pub result :
        ((f : Fst) × Found fn ft fs s r f
          × First
              (Named fn ft)
              (dir_entries fn ft dev fs.adt (adbc (fs.file fs.dir).fst) 0 (fs.file fs.dir).fst)
              f)
        ⊎ ((r.fs.files ≡ fs.files)
            × (((r.result ≡ err enoent)
                  × All
                      (λ f. ¬ Named fn ft f)
                      (dir_entries fn ft dev fs.adt
                        (adbc (fs.file fs.dir).fst)
                        0
                        (fs.file fs.dir).fst))
                ⊎ ((e : Errno) × (r.result ≡ err e) × Refused dev e)))
    pub same_volume : (r.fs.adt ≡ fs.adt) × (r.fs.dir ≡ fs.dir)
    pub others : (j : ℕ) → j ≢ s.requests → (r.fs.file j).fst ≡ (fs.file j).fst
    pub mounted : Mounted r.fs r.store

  module _ (fs : FileSystem) (s : Store) (m : Mounted fs s) where
    abbrev opened : FileSystem
    opened = with_new zero_fst fs s

    opened-dir : opened.file fs.dir ≡ fs.file fs.dir
    opened-dir = ground (arith, m.dir_earlier.0)

    -- The files after the directory's cache has been read into.
    module _ (d : Done (Option Fst)) (st : Store)
        (kept : Kept dev (dbsiz fs.adt) (fs.file fs.dir) st d.file d.store)
        (later : s.requests + 1 ≤ st.requests) where
      abbrev scanned : FileSystem
      scanned = with_file fs.dir d.file opened

      abbrev Later : ℕ → Type 0
      Later j = (j < d.store.requests) × Cached dev (dbsiz fs.adt) (scanned.file j)

      scanned-Later : (j : ℕ) → Earlier fs s j → Later j
      scanned-Later j h = (
        omega (arith, h.0, kept.later),
        elim (Bool-cases (j == fs.dir)) [
          | inl y ↦ rw y kept.cached
          | inr n ↦ let other : (j == s.requests) ≡ false = ground (arith, h.0) in rw (n, other) h.1
        ],
      )

      scanned-others : (j : ℕ) → j ≢ s.requests → (scanned.file j).fst ≡ (fs.file j).fst
      scanned-others j ne = elim (Bool-cases (j == fs.dir)) [
        | inl y ↦
            let same : j ≡ fs.dir = ground (arith, y) in
            rw y (kept.same_fst ∙ ap (λ i. (fs.file i).fst) (sym same))
        | inr n ↦ let other : (j == s.requests) ≡ false = ground (arith, ne) in rw (n, other) refl
      ]

      scanned-dir : scanned.file fs.dir ≡ d.file
      scanned-dir = ground arith

      -- The new file is freed.
      dropped-Mounted : Mounted (free_file s.requests scanned) (freed d.store)
      dropped-Mounted = record {
        dir_earlier = scanned-Later fs.dir m.dir_earlier;
        files_earlier =
            rw (list_del-snoc (Earlier fs s) s.requests fs.files (λ j h. h.0) m.files_earlier)
              (All-map (Earlier fs s) Later fs.files scanned-Later m.files_earlier);
      }

      abbrev taken : Fst → FileSystem
      taken f = with_file s.requests (record (scanned.file s.requests) { fst = f }) scanned

      taken_new : (f : Fst) → (taken f).file s.requests ≡ record { fst = f; bcache = [] }
      taken_new f =
          let test : (s.requests == s.requests) ≡ true = ground arith in
          let not_dir : (s.requests == fs.dir) ≡ false = ground (arith, m.dir_earlier.0) in
          rw (test, not_dir) refl

      taken_other : (f : Fst) (j : ℕ) → j ≢ s.requests → (taken f).file j ≡ scanned.file j
      taken_other f j ne = let test : (j == s.requests) ≡ false = ground (arith, ne) in rw test refl

      taken-Later :
          (f : Fst) (j : ℕ)
          → Earlier fs s j
          → (j < d.store.requests) × Cached dev (dbsiz fs.adt) ((taken f).file j)
      taken-Later f j h =
          let l = scanned-Later j h in
          (l.0, subst (Cached dev (dbsiz fs.adt)) (sym (taken_other f j (ground (arith, h.0)))) l.1)

      taken-Mounted : (f : Fst) → Mounted (taken f) d.store
      taken-Mounted f = record {
        dir_earlier = taken-Later f fs.dir m.dir_earlier;
        files_earlier =
            All-snoc (Earlier (taken f) d.store) fs.files s.requests
              (All-map (Earlier fs s) (Earlier (taken f) d.store) fs.files (taken-Later f)
                m.files_earlier)
              (omega (arith, kept.later), subst (Cached dev (dbsiz fs.adt)) (sym (taken_new f)) tt);
      }

    abbrev dir_list : List ℕ → List ℕ → List Fst
    dir_list fn ft = dir_entries fn ft dev fs.adt (adbc (fs.file fs.dir).fst) 0 (fs.file fs.dir).fst

    end_lookup-Looked :
        (fn ft : List ℕ) (d : Done (Option Fst)) (st : Store)
        → s.requests + 1 ≤ st.requests
        → Scanned fn ft dev fs.adt (dir_list fn ft) (fs.file fs.dir) st d
        → Looked fn ft fs s (end_lookup s.requests opened d)
    unfolding end_lookup
    end_lookup-Looked fn ft d st later h =
        let dropped = dropped-Mounted d st h.kept later in
        let files = list_del-snoc (Earlier fs s) s.requests fs.files (λ j g. g.0) m.files_earlier in
        elim h.answer [
          | inr (e, a, why) ↦
              rw (end_lookup, a)
                (record {
                  result = inr (files, inr (e, refl, why));
                  same_volume = (refl, refl);
                  others = scanned-others d st h.kept later;
                  mounted = dropped;
                })
          | inl (o, a, found) ↦ elim (Option-cases o) [
            | inl c ↦
                rw (end_lookup, a, c)
                  (record {
                    result =
                        inr (
                          files,
                          inl (refl, subst (Search (Named fn ft) (dir_list fn ft)) c found),
                        );
                    same_volume = (refl, refl);
                    others = scanned-others d st h.kept later;
                    mounted = dropped;
                  })
            | inr (f, c) ↦
                rw (end_lookup, a, c)
                  (record {
                    result = inl (
                      f,
                      (refl, refl, ap (λ x. x.fst) (taken_new d st h.kept later f)),
                      subst (Search (Named fn ft) (dir_list fn ft)) c found,
                    );
                    same_volume = (refl, refl);
                    others = λ j ne.
                        ap (λ x. x.fst) (taken_other d st h.kept later f j ne)
                        ∙ scanned-others d st h.kept later j ne;
                    mounted = taken-Mounted d st h.kept later f;
                  })
          ]
        ]

    search_dir-opened :
        (fn ft : List ℕ) (st : Store) (d : Done (Option Fst))
        → scan_dir dev fs.adt fn ft (adbc (fs.file fs.dir).fst) 0 (fs.file fs.dir) st ≡ some d
        → search_dir dev fn ft (record { result = ok s.requests; fs = opened; store = st })
          ≡ some (end_lookup s.requests opened d)
    unfolding search_dir
    search_dir-opened fn ft st d q =
        let q' =
          subst (λ f. scan_dir dev fs.adt fn ft (adbc f.fst) 0 f st ≡ some d) (sym opened-dir) q in
        rw (search_dir, q') refl

    lookup_slow-Looked :
        (fn ft : List ℕ)
        → nfst fs.adt ≤ 64
        → (r : Made ℕ) × (lookup_slow dev fn ft fs s ≡ some r) × Looked fn ft fs s r
    unfolding lookup_slow search_dir
    lookup_slow-Looked fn ft few = elim (Bool-cases (dev.grants s.requests)) [
      | inr n ↦ (
        record { result = err enomem; fs = fs; store = asked s },
        ap (search_dir dev fn ft) (alloc_file-refused dev zero_fst fs s n),
        record {
          result = inr (refl, inr (enomem, refl, no_memory s.requests n));
          same_volume = (refl, refl);
          others = λ j ne. refl;
          mounted = record {
            dir_earlier = (omega (arith, m.dir_earlier.0), m.dir_earlier.1);
            files_earlier =
                All-map (Earlier fs s) (Earlier fs (asked s)) fs.files
                  (λ j h. (omega (arith, h.0), h.1)) m.files_earlier;
          };
        },
      )
      | inl y ↦
          let st = record (asked s) { structs = s.structs + 1 } in
          let dir = fs.file fs.dir in
          let (d, q, t) =
            scan_dir-Scanned fn ft dev fs.adt (adbc dir.fst) 0 dir st few m.dir_earlier.1 in
          (
            end_lookup s.requests opened d,
            ap (search_dir dev fn ft) (alloc_file-granted dev zero_fst fs s y)
                ∙ search_dir-opened fn ft st d q,
            end_lookup-Looked fn ft d st (omega arith) t,
          )
    ]

    -- On a mounted volume with at most 64 entries in a block of the directory a lookup returns: it
    -- meets no BUG and reads inside the blocks. If a file of the list has the name, in EBCDIC, the
    -- result is the first of them and nothing changes. Otherwise the directory on the disk decides:
    -- with an entry of that name the result is a new file in the list with the first such entry,
    -- without one it is ENOENT, or a request was refused and it is its error; and the list is as
    -- before. The directory entries of all other files stay, and the volume is again mounted: every
    -- cache agrees with the disk.
    pub edf_lookup-Looked :
        (ebcdic : ℕ → ℕ) (fn ft : Bytes)
        → nfst fs.adt ≤ 64
        → (r : Made ℕ) × (edf_lookup ebcdic dev fn ft fs s ≡ some r)
          × (((id : ℕ) × (r ≡ record { result = ok id; fs = fs; store = s })
                × First
                    (λ j.
                      Named
                        (map ebcdic (bytes_at fn 0 8))
                        (map ebcdic (bytes_at ft 0 8))
                        (fs.file j).fst)
                    fs.files
                    id)
              ⊎ (All
                    (λ j.
                      ¬ Named
                        (map ebcdic (bytes_at fn 0 8))
                        (map ebcdic (bytes_at ft 0 8))
                        (fs.file j).fst)
                    fs.files
                  × Looked (map ebcdic (bytes_at fn 0 8)) (map ebcdic (bytes_at ft 0 8)) fs s r))
    unfolding edf_lookup
    edf_lookup-Looked ebcdic fn ft few =
        let fn' = map ebcdic (bytes_at fn 0 8) in
        let ft' = map ebcdic (bytes_at ft 0 8) in
        let (r, q, l) = lookup_slow-Looked fn' ft' few in
        let search = find_cached-Search fn' ft' fs.file fs.files in
        let P : ℕ → Type 0 = λ j. Named fn' ft' (fs.file j).fst in
        elim (Option-cases (find_cached fn' ft' fs.file fs.files)) [
          | inr (id, c) ↦ (
            record { result = ok id; fs = fs; store = s },
            rw (edf_lookup, c) refl,
            inl (id, refl, subst (Search P fs.files) c search),
          )
          | inl c ↦ (r, rw (edf_lookup, c) q, inr (subst (Search P fs.files) c search, l))
        ]
