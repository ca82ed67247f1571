-- ===== src/Fs/Bcache/Keeps.antt =====
-- What an operation on one entry of the cache leaves to the search, and what it puts there.
use mathlib.Core.Path.{subst}
use hvf.Base.{
  ℕ, zero, suc, ◌+◌, ◌<◌, ◌≡◌, ◌≢◌, inl, inr, refl, ap, sym, ◌∙◌, arith, true, false, ◌&&◌, List,
  [], ◌∷◌, ◌++◌, Option, none, some, ◌==◌, if◌then◌else◌, Bytes, length, set, Bool-cases,
  Option-cases, get_or-set_self,
}
use hvf.Errno.{enomem}
use hvf.Fs.Volume.{ok, err, Device, Store, asked, bdev_read_block, Result-cases}
use hvf.Fs.Bcache.{
  Entry, File, new_entry, add_entry, find_entry, entry_at, fill_entry, found, add_and_read,
}
use hvf.Fs.Bcache.Added.{find_entry_lem}

-- An entry's contents do not matter to the search.
find_entry-set :
    (l k : ℕ) (es : List Entry) (i : ℕ) (c : Option Bytes)
    → find_entry l k (set es i (record (entry_at es i) { contents = c })) ≡ find_entry l k es
unfolding find_entry
find_entry-set l k [] i c = refl
find_entry-set l k (e ∷ es) zero c = refl
find_entry-set l k (e ∷ es) (suc i) c = ground (arith, find_entry-set l k es i c)

find_entry-snoc :
    (l k : ℕ) (es : List Entry) (e : Entry)
    → find_entry l k es ≡ none
    → find_entry l k (es ++ e ∷ [])
      ≡ (if e.level == l && e.blk == k then some (length es) else none)
unfolding find_entry
find_entry-snoc l k [] e h = ground arith
find_entry-snoc l k (x ∷ es) e h = elim (Bool-cases (x.level == l && x.blk == k)) [
  | inl y ↦ absurd (ground (arith, y))
  | inr n ↦ elim (Option-cases (find_entry l k es)) [
    | inr (i, q) ↦ absurd (ground (arith, n, q))
    | inl q ↦ ground (arith, n, q, find_entry-snoc l k es e q)
  ]
]

module _ (dev : Device) where
  fill_entry-keeps :
      (l k i : ℕ) (f : File) (s : Store)
      → find_entry l k (fill_entry dev i (entry_at f.bcache i) f s).file.bcache
        ≡ find_entry l k f.bcache
  unfolding fill_entry
  fill_entry-keeps l k i f s =
      elim (Result-cases (bdev_read_block dev (entry_at f.bcache i).lba s)) [
        | inl (b, q) ↦ rw (fill_entry, q) (find_entry-set l k f.bcache i (some b))
        | inr (e, q) ↦ rw (fill_entry, q) refl
      ]

  pub found-keeps :
      (l k i : ℕ) (f : File) (s : Store)
      → find_entry l k (found dev i f s).file.bcache ≡ find_entry l k f.bcache
  unfolding found
  found-keeps l k i f s = elim (Option-cases (entry_at f.bcache i).contents) [
    | inr (b, q) ↦ rw (found, q) refl
    | inl q ↦ elim (Bool-cases (dev.grants s.requests)) [
      | inr n ↦ rw (found, q, n) refl
      | inl y ↦ rw (found, q, y) (fill_entry-keeps l k i f (asked s))
    ]
  ]

  found-holds :
      (i : ℕ) (f : File) (s : Store) (b : Bytes)
      → i < length f.bcache
      → (found dev i f s).result ≡ ok b
      → (entry_at (found dev i f s).file.bcache i).contents ≡ some b
  unfolding found fill_entry
  found-holds i f s b l h = elim (Option-cases (entry_at f.bcache i).contents) [
    | inr (c, q) ↦ let same : ok c ≡ ok b = rw (found, q) at h in rw (found, q) (q ∙ cc)
    | inl q ↦ elim (Bool-cases (dev.grants s.requests)) [
      | inr n ↦ absurd (ground (arith, q, n))
      | inl y ↦ elim (Result-cases (bdev_read_block dev (entry_at f.bcache i).lba (asked s))) [
        | inr (e, r) ↦ absurd (ground (arith, q, y, r))
        | inl (c, r) ↦
            let same : ok c ≡ ok b = rw (found, q, y, fill_entry, r) at h in
            rw (found, q, y, fill_entry, r)
              (ap (λ e. e.contents)
                  (get_or-set_self f.bcache i (record (entry_at f.bcache i) { contents = some c })
                    (new_entry 0 0 0) l)
                ∙ cc)
      ]
    ]
  ]

  -- The cache has the block, under the first entry for it.
  abbrev pub Has : ℕ → ℕ → Bytes → File → Type 0
  Has level blk b f =
      (i : ℕ) × (find_entry level blk f.bcache ≡ some i) × ((entry_at f.bcache i).contents ≡ some b)

  pub found-Has :
      (level blk i : ℕ) (f : File) (s : Store) (b : Bytes)
      → find_entry level blk f.bcache ≡ some i
      → (found dev i f s).result ≡ ok b
      → Has level blk b (found dev i f s).file
  found-Has level blk i f s b q h = (
    i,
    found-keeps level blk i f s ∙ q,
    found-holds i f s b (find_entry_lem level blk f.bcache i q).0 h,
  )

  abbrev pub added : ℕ → ℕ → ℕ → File → File
  added level blk lba f = record f { bcache = f.bcache ++ new_entry level blk lba ∷ [] }

  add_and_read-found :
      (level blk lba : ℕ) (f : File) (s : Store)
      → dev.grants s.requests ≡ true
      → add_and_read dev level blk lba f s
        ≡ found dev
            (length f.bcache)
            (added level blk lba f)
            (record (asked s) { structs = s.structs + 1 })
  unfolding add_and_read add_entry
  add_and_read-found level blk lba f s y = rw (add_and_read, add_entry, y, add_entry, y) refl

  add_and_read-refused :
      (level blk lba : ℕ) (f : File) (s : Store)
      → dev.grants s.requests ≡ false
      → add_and_read dev level blk lba f s
        ≡ record { result = err enomem; file = f; store = asked s }
  unfolding add_and_read add_entry
  add_and_read-refused level blk lba f s n = rw (add_and_read, add_entry, n, add_entry, n) refl

  pub add_and_read-Has :
      (level blk lba : ℕ) (f : File) (s : Store) (b : Bytes)
      → find_entry level blk f.bcache ≡ none
      → (add_and_read dev level blk lba f s).result ≡ ok b
      → Has level blk b (add_and_read dev level blk lba f s).file
  add_and_read-Has level blk lba f s b none_yet h = elim (Bool-cases (dev.grants s.requests)) [
    | inr n ↦ absurd (cc (h, add_and_read-refused level blk lba f s n))
    | inl y ↦
        let st : Store = record (asked s) { structs = s.structs + 1 } in
        let e = add_and_read-found level blk lba f s y in
        let here : find_entry level blk (added level blk lba f).bcache ≡ some (length f.bcache) =
          find_entry-snoc level blk f.bcache (new_entry level blk lba) none_yet ∙ ground arith in
        subst (λ d. Has level blk b d.file) (sym e)
          (found-Has level blk (length f.bcache) (added level blk lba f) st b here
            (ap (λ d. d.result) (sym e) ∙ h))
  ]

  -- A read of another level does not enter the block.
  pub add_and_read-keeps :
      (l k level blk lba : ℕ) (f : File) (s : Store)
      → level ≢ l
      → find_entry l k f.bcache ≡ none
      → find_entry l k (add_and_read dev level blk lba f s).file.bcache ≡ none
  add_and_read-keeps l k level blk lba f s ne h = elim (Bool-cases (dev.grants s.requests)) [
    | inr n ↦ ap (λ d. find_entry l k d.file.bcache) (add_and_read-refused level blk lba f s n) ∙ h
    | inl y ↦
        ap (λ d. find_entry l k d.file.bcache) (add_and_read-found level blk lba f s y)
        ∙ found-keeps l k (length f.bcache) (added level blk lba f)
            (record (asked s) { structs = s.structs + 1 })
        ∙ find_entry-snoc l k f.bcache (new_entry level blk lba) h
        ∙ ground (arith, ne)
  ]
