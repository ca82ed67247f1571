-- ===== src/Fs/Edf/Lookup.antt =====
-- The search of a directory, for the first entry that has a name.
use hvf.Base.{
  All, ◌↔◌, ℕ, zero, suc, ◌+◌, ◌*◌, ◌-◌, ◌≤◌, ◌<◌, ◌≡◌, ◌⊎◌, inl, inr, refl, ap, sym, ◌∙◌, arith,
  Bool, true, false, ◌&&◌, List, [], ◌∷◌, ◌++◌, Option, none, some, ltb, ◌==◌, if◌then◌else◌, Bytes,
  Bool-cases, Option-cases, ◌↔◌,
}
pub mod Found
use mathlib.Core.Path.{subst}
use mathlib.Core.List.{append_assoc}
use hvf.Errno.{Errno}
use hvf.Fs.Volume.{
  Adt, dbsiz, nfst, Fst, fst_size, fname, ftype, nlvl, adbc, ok, err, Device, Store, Refused,
}
use hvf.Fs.Bcache.{File, Done, bcache_read}
use hvf.Fs.Bcache.Cached.{lba_at, Cached, Kept, Kept-trans, Kept-refl, Answers}
use hvf.Fs.Bcache.Read.{bcache_read_lem}
use hvf.Fs.Edf.{same_bytes, is_named, find_cached, fst_at, find_fst, scan_dir}

-- `x` is the first in the list of which `P` holds.
pub record First {A : Type 0} (P : A → Type 0) (xs : List A) (x : A) : Type 0 where
  pub before : List A
  pub after : List A
  pub place : xs ≡ before ++ (x ∷ after)
  pub unlike : All (λ y. ¬ P y) before
  pub here : P x

-- What a search of the list may answer.
abbrev pub Search : {A : Type 0} → (A → Type 0) → List A → Option A → Type 0
Search P xs none = All (λ y. ¬ P y) xs
Search P xs (some x) = First P xs x

Search-cons :
    {A : Type 0} (P : A → Type 0) (x : A) (xs : List A) (o : Option A)
    → ¬ P x
    → Search P xs o
    → Search P (x ∷ xs) o
Search-cons P x xs none h s = (h, s)
Search-cons P x xs (some y) h s = record {
  before = x ∷ s.before;
  after = s.after;
  place = ap (λ l. x ∷ l) s.place;
  unlike = (h, s.unlike);
  here = s.here;
}

Search-here : {A : Type 0} (P : A → Type 0) (x : A) (xs : List A) → P x → First P (x ∷ xs) x
Search-here P x xs h = record { before = []; after = xs; place = refl; unlike = tt; here = h }

-- A search of two lists, one behind the other.
Search-append :
    {A : Type 0} (P : A → Type 0) (xs ys : List A) (o : Option A)
    → All (λ y. ¬ P y) xs
    → Search P ys o
    → Search P (xs ++ ys) o
Search-append P [] ys o h s = s
Search-append P (x ∷ xs) ys o h s = Search-cons P x (xs ++ ys) o h.0 (Search-append P xs ys o h.1 s)

First-append :
    {A : Type 0} (P : A → Type 0) (xs ys : List A) (x : A) → First P xs x → First P (xs ++ ys) x
First-append P xs ys x s = record {
  before = s.before;
  after = s.after ++ ys;
  place = ap (λ l. l ++ ys) s.place ∙ append_assoc s.before (x ∷ s.after) ys;
  unlike = s.unlike;
  here = s.here;
}

same_bytes_iff : (as' bs : List ℕ) → (same_bytes as' bs ≡ true) ↔ (as' ≡ bs)
unfolding same_bytes
same_bytes_iff [] [] = (λ h. refl, λ h. refl)
same_bytes_iff [] (b ∷ bs) = (λ h. absurd (cc), λ h. absurd (cc))
same_bytes_iff (a ∷ as') [] = (λ h. absurd (cc), λ h. absurd (cc))
same_bytes_iff (a ∷ as') (b ∷ bs) =
    let ih = same_bytes_iff as' bs in (λ h. ground (arith, ih.0), λ h. ground (arith, ih.1))

-- The entry has this name and type.
abbrev pub Named : List ℕ → List ℕ → Fst → Type 0
Named fn ft f = (fname f ≡ fn) × (ftype f ≡ ft)

pub is_named-cases :
    (fn ft : List ℕ) (f : Fst)
    → ((is_named fn ft f ≡ true) × Named fn ft f) ⊎ ((is_named fn ft f ≡ false) × (¬ Named fn ft f))
is_named-cases fn ft f =
    let a = same_bytes_iff (fname f) fn in
    let b = same_bytes_iff (ftype f) ft in
    elim (Bool-cases (same_bytes (fname f) fn)) [
      | inr n ↦ inr (rw n refl, λ h. absurd (cc (n, a.1 h.0)))
      | inl y ↦ elim (Bool-cases (same_bytes (ftype f) ft)) [
        | inr n ↦ inr (rw (y, n) refl, λ h. absurd (cc (n, b.1 h.1)))
        | inl z ↦ inl (rw (y, z) refl, (a.0 y, b.0 z))
      ]
    ]

module _ (fn ft : List ℕ) where
  pub find_cached-Search :
      (file : ℕ → File) (ids : List ℕ)
      → Search (λ id. Named fn ft (file id).fst) ids (find_cached fn ft file ids)
  unfolding find_cached
  find_cached-Search file [] = tt
  find_cached-Search file (id ∷ ids) = elim (is_named-cases fn ft (file id).fst) [
    | inl (y, h) ↦ rw (find_cached, y) (Search-here (λ j. Named fn ft (file j).fst) id ids h)
    | inr (n, h) ↦
        rw (find_cached, n)
          (Search-cons (λ j. Named fn ft (file j).fst) id ids (find_cached fn ft file ids) h
            (find_cached-Search file ids))
  ]

  -- The `left` entries of a block from entry `i` on.
  unfoldable pub entries : ℕ → ℕ → Bytes → List Fst
  entries zero i block = []
  entries (suc left) i block = fst_at block i ∷ entries left (i + 1) block

  pub find_fst-Search :
      (left i : ℕ) (block : Bytes)
      → i + left ≤ 64
      → (o : Option Fst) × (find_fst left i fn ft block ≡ some o)
        × Search (Named fn ft) (entries left i block) o
  unfolding find_fst entries
  find_fst-Search zero i block h = (none, refl, tt)
  find_fst-Search (suc left) i block h =
      let inside : ltb 4096 (i * fst_size + fst_size) ≡ false = ground arith in
      let (o, q, t) = find_fst-Search left (i + 1) block (omega arith) in
      elim (is_named-cases fn ft (fst_at block i)) [
        | inl (y, g) ↦ (
          some (fst_at block i),
          rw (find_fst, inside, y) refl,
          Search-here (Named fn ft) (fst_at block i) (entries left (i + 1) block) g,
        )
        | inr (n, g) ↦ (
          o,
          rw (find_fst, inside, n) q,
          Search-cons (Named fn ft) (fst_at block i) (entries left (i + 1) block) o g t,
        )
      ]

  module _ (dev : Device) (adt : Adt) where
    -- The entries of the `left` blocks of the directory from `blk` on, as they stand on the disk.
    unfoldable pub dir_entries : ℕ → ℕ → Fst → List Fst
    dir_entries zero blk dir = []
    dir_entries (suc left) blk dir =
        entries (nfst adt) 0 (dev.disk (lba_at dev (dbsiz adt) dir (nlvl dir) blk))
        ++ dir_entries left (blk + 1) dir

    -- The search ends with an answer, or with a request that is refused.
    pub record Scanned (xs : List Fst) (dir : File) (s : Store) (d : Done (Option Fst))
        : Type 0 where
      pub answer :
          ((o : Option Fst) × (d.result ≡ ok o) × Search (Named fn ft) xs o)
          ⊎ ((e : Errno) × (d.result ≡ err e) × Refused dev e)
      pub kept : Kept dev (dbsiz adt) dir s d.file d.store

    pub scan_dir-Scanned :
        (left blk : ℕ) (dir : File) (s : Store)
        → nfst adt ≤ 64
        → Cached dev (dbsiz adt) dir
        → (d : Done (Option Fst)) × (scan_dir dev adt fn ft left blk dir s ≡ some d)
          × Scanned (dir_entries left blk dir.fst) dir s d
    unfolding scan_dir dir_entries
    scan_dir-Scanned zero blk dir s few h = (
      record { result = ok none; file = dir; store = s },
      refl,
      record {
        answer = inl (none, refl, tt);
        kept = Kept-refl dev (dbsiz adt) dir s s refl refl (omega arith) h;
      },
    )
    scan_dir-Scanned (suc left) blk dir s few h =
        let block = dev.disk (lba_at dev (dbsiz adt) dir.fst (nlvl dir.fst) blk) in
        let (d, q, t) = bcache_read_lem dev (dbsiz adt) 0 blk dir s h (omega arith) in
        let (o, p, u) = find_fst-Search (nfst adt) 0 block (omega (arith, few)) in
        let rest = dir_entries left (blk + 1) dir.fst in
        let all_up : nlvl dir.fst - 0 ≡ nlvl dir.fst = omega arith in
        let answer =
          subst
            (λ u.
              Answers dev (dbsiz adt) (dev.disk (lba_at dev (dbsiz adt) dir.fst u blk)) d.result)
            all_up t.answer in
        elim answer [
          | inr (e, a, why) ↦ (
            record { result = err e; file = d.file; store = d.store },
            rw (scan_dir, q, a) refl,
            record { answer = inr (e, refl, why); kept = t.kept },
          )
          | inl a ↦ elim (Option-cases o) [
            | inr (f, c) ↦ (
              record { result = ok (some f); file = d.file; store = d.store },
              rw (scan_dir, q, a, p, c) refl,
              record {
                answer = inl (
                  some f,
                  refl,
                  First-append (Named fn ft) (entries (nfst adt) 0 block) rest f
                      (subst (Search (Named fn ft) (entries (nfst adt) 0 block)) c u),
                );
                kept = t.kept;
              },
            )
            | inl c ↦
                let (d', q', t') =
                  scan_dir-Scanned left (blk + 1) d.file d.store few t.kept.cached in
                let kept =
                  Kept-trans dev (dbsiz adt) dir d.file d'.file s d.store d'.store t.kept t'.kept in
                let unlike = subst (Search (Named fn ft) (entries (nfst adt) 0 block)) c u in
                (
                  d',
                  rw (scan_dir, q, a, p, c) q',
                  record {
                    kept = kept;
                    answer = elim t'.answer [
                      | inr z ↦ inr z
                      | inl (o', r', v') ↦ inl (
                        o',
                        r',
                        Search-append (Named fn ft) (entries (nfst adt) 0 block) rest o' unlike (
                            subst (λ x. Search (Named fn ft) (dir_entries left (blk + 1) x) o')
                              t.kept.same_fst v'),
                      )
                    ];
                  },
                )
          ]
        ]
