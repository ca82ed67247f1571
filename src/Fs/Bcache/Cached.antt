-- ===== src/Fs/Bcache/Cached.antt =====
-- What is in the cache of a file is what stands on the disk, by way of the file's pointer blocks.
use hvf.Base.{
  All, All-get_or, All-set, ℕ, zero, suc, ◌+◌, ◌-◌, ◌*◌, ◌/◌, ◌%◌, ◌≤◌, ◌<◌, ◌≡◌, ◌⊎◌, inl, inr,
  refl, ap, ◌∙◌, arith, List, [], ◌∷◌, ◌++◌, Option, none, some, Bytes, length, set, Bool-cases,
  length-set,
}
use hvf.Errno.{Errno, enomem}
use hvf.Fs.Volume.{
  word, Fst, fop, nlvl, Result, ok, err, Device, Store, asked, Refused, no_memory,
  bdev_read_block_lem,
}
use hvf.Fs.Bcache.{Entry, File, Done, entry_at, fill_entry, found}

-- The block number on the disk of a file's block, `up` levels below the top: the file origin
-- pointer, or the pointer in the pointer block one level up. At the top there is one block, and
-- `blk` does not matter: a number that is too large for the pointers is taken as one of theirs.
unfoldable pub lba_at : Device → ℕ → Fst → ℕ → ℕ → ℕ
lba_at dev size f zero blk = fop f
lba_at dev size f (suc up) blk =
    word (dev.disk (lba_at dev size f up (blk / (size / 4)))) (blk % (size / 4) * 4)

-- How many entries have a block in storage.
abbrev pub has_block : Option Bytes → ℕ
has_block none = 0
has_block (some buf) = 1

abbrev pub filled : List Entry → ℕ
filled [] = 0
filled (e ∷ es) = has_block e.contents + filled es

pub filled-snoc :
    (es : List Entry) (e : Entry) → filled (es ++ e ∷ []) ≡ filled es + has_block e.contents
filled-snoc [] e = omega arith
filled-snoc (x ∷ xs) e = omega (arith, filled-snoc xs e)

filled-set :
    (es : List Entry) (i : ℕ) (e : Entry)
    → i < length es
    → filled (set es i e) + has_block (entry_at es i).contents ≡ filled es + has_block e.contents
filled-set [] i e h = absurd (omega arith)
filled-set (x ∷ xs) zero e h = omega arith
filled-set (x ∷ xs) (suc i) e h = omega (arith, filled-set xs i e (omega arith))

pub entry_at-snoc : (es : List Entry) (e : Entry) → entry_at (es ++ e ∷ []) (length es) ≡ e
entry_at-snoc [] e = refl
entry_at-snoc (x ∷ xs) e = entry_at-snoc xs e

module _ (dev : Device) (size : ℕ) where
  -- An entry of the file's cache has the block number of its block, and holds that block or
  -- nothing.
  pub record Good (f : Fst) (e : Entry) : Type 0 where
    pub in_file : e.level ≤ nlvl f
    pub at : e.lba ≡ lba_at dev size f (nlvl f - e.level) e.blk
    pub holds : (e.contents ≡ none) ⊎ (e.contents ≡ some (dev.disk e.lba))

  abbrev pub Cached : File → Type 0
  Cached f = All (Good f.fst) f.bcache

  -- The file after an operation is the same file, with a cache that agrees with the disk, and each
  -- structure and page that was allocated is in the cache.
  pub record Kept (f : File) (s : Store) (f' : File) (s' : Store) : Type 0 where
    pub same_fst : f'.fst ≡ f.fst
    pub later : s.requests ≤ s'.requests
    pub cached : Cached f'
    pub structs : s'.structs + length f.bcache ≡ s.structs + length f'.bcache
    pub pages : s'.pages + filled f.bcache ≡ s.pages + filled f'.bcache

  abbrev pub Answers {ℓ} : {A : Type ℓ} → A → Result A → Type ℓ
  Answers want r = (r ≡ ok want) ⊎ ((e : Errno) × (r ≡ err e) × Refused dev e)

  pub record Reads {ℓ} {A : Type ℓ} (want : A) (f : File) (s : Store) (d : Done A) : Type ℓ where
    pub answer : Answers want d.result
    pub kept : Kept f s d.file d.store

  pub Kept-refl :
      (f : File) (s s' : Store)
      → s'.structs ≡ s.structs
      → s'.pages ≡ s.pages
      → s.requests ≤ s'.requests
      → Cached f
      → Kept f s f s'
  Kept-refl f s s' a b l h = record {
    same_fst = refl;
    later = l;
    cached = h;
    structs = omega (arith, a);
    pages = omega (arith, b);
  }

  pub Kept-trans :
      (f f' f'' : File) (s s' s'' : Store) → Kept f s f' s' → Kept f' s' f'' s'' → Kept f s f'' s''
  Kept-trans f f' f'' s s' s'' p q = record {
    same_fst = q.same_fst ∙ p.same_fst;
    later = omega (arith, p.later, q.later);
    cached = q.cached;
    structs = omega (arith, p.structs, q.structs);
    pages = omega (arith, p.pages, q.pages);
  }

  fill_entry-Reads :
      (cur : ℕ) (f : File) (s : Store)
      → Cached f
      → cur < length f.bcache
      → (entry_at f.bcache cur).contents ≡ none
      → Reads
          (dev.disk (entry_at f.bcache cur).lba)
          f
          s
          (fill_entry dev cur (entry_at f.bcache cur) f s)
  unfolding fill_entry
  fill_entry-Reads cur f s h l empty =
      let e = entry_at f.bcache cur in
      let good : Good f.fst e = All-get_or (Good f.fst) f.bcache cur _ h l in
      elim (bdev_read_block_lem dev e.lba s) [
        | inr (x, b, why) ↦
            rw (fill_entry, b)
              (record {
                answer = inr (x, refl, why);
                kept = Kept-refl f s (asked s) refl refl (omega arith) h;
              })
        | inl b ↦
            rw (fill_entry, b)
              (record {
                answer = inl refl;
                kept = record {
                  same_fst = refl;
                  later = omega arith;
                  cached =
                      All-set (Good f.fst) f.bcache cur _ h
                        (record { in_file = good.in_file; at = good.at; holds = inr refl });
                  structs = omega (
                    arith,
                    length-set f.bcache cur (record e { contents = some (dev.disk e.lba) }),
                  );
                  pages = omega (
                    arith,
                    filled-set f.bcache cur (record e { contents = some (dev.disk e.lba) }) l,
                    ap has_block empty,
                  );
                };
              })
      ]

  pub found-Reads :
      (cur : ℕ) (f : File) (s : Store)
      → Cached f
      → cur < length f.bcache
      → Reads (dev.disk (entry_at f.bcache cur).lba) f s (found dev cur f s)
  unfolding found
  found-Reads cur f s h l = elim (All-get_or (Good f.fst) f.bcache cur _ h l).holds [
    | inr full ↦
        rw (found, full)
          (record { answer = inl refl; kept = Kept-refl f s s refl refl (omega arith) h })
    | inl empty ↦ elim (Bool-cases (dev.grants s.requests)) [
      | inl y ↦
          let r = fill_entry-Reads cur f (asked s) h l empty in
          rw (found, empty, y)
            (record {
              answer = r.answer;
              kept =
                  Kept-trans f f _ s (asked s) _ (Kept-refl f s (asked s) refl refl (omega arith) h)
                    r.kept;
            })
      | inr n ↦
          rw (found, empty, n)
            (record {
              answer = inr (enomem, refl, no_memory s.requests n);
              kept = Kept-refl f s (asked s) refl refl (omega arith) h;
            })
    ]
  ]
