-- ===== src/Fs/Bcache/Added.antt =====
-- Entries that are added to the cache of a file or found there.
use hvf.Base.{
  All-get_or, All-snoc, ℕ, suc, ◌+◌, ◌-◌, ◌<◌, ◌≡◌, inl, inr, refl, ap, ◌∙◌, arith, ◌&&◌, List, [],
  ◌∷◌, some, ◌==◌, length, Bool-cases, Option-cases, length-append,
}
use mathlib.Core.Path.{subst}
use mathlib.Core.Option.{some-injective}
use hvf.Errno.{enomem}
use hvf.Fs.Volume.{nlvl, ok, Device, Store, asked, no_memory, Result-cases}
use hvf.Fs.Bcache.{Entry, File, new_entry, add_entry, find_entry, entry_at, found, add_and_read}
use hvf.Fs.Bcache.Cached.{
  lba_at, filled-snoc, entry_at-snoc, Good, Cached, Kept-refl, Kept-trans, Answers, Reads,
  found-Reads,
}

-- What the search finds.
pub find_entry_lem :
    (level blk : ℕ) (es : List Entry) (i : ℕ)
    → find_entry level blk es ≡ some i
    → (i < length es) × ((entry_at es i).level ≡ level) × ((entry_at es i).blk ≡ blk)
unfolding find_entry
find_entry_lem level blk [] i h = absurd (ground arith)
find_entry_lem level blk (e ∷ es) i h = elim (Bool-cases (e.level == level && e.blk == blk)) [
  | inl y ↦
      let z : 0 ≡ i = some-injective 0 i (rw (find_entry, y) at h) in
      rw (← z) (omega arith, ground arith, ground arith)
  | inr n ↦ elim (Option-cases (find_entry level blk es)) [
    | inl none_left ↦ absurd (ground (arith, n, none_left))
    | inr (j, q) ↦
        let z : suc j ≡ i = some-injective (suc j) i (rw (find_entry, n, q) at h) in
        let (a, b, c) = find_entry_lem level blk es j q in rw (← z) (omega (arith, a), b, c)
  ]
]

module _ (dev : Device) (size : ℕ) where
  pub add_entry-Reads :
      (level blk lba : ℕ) (f : File) (s : Store)
      → Cached dev size f
      → Good dev size f.fst (new_entry level blk lba)
      → Reads dev size (length f.bcache) f s (add_entry dev level blk lba f s)
  unfolding add_entry
  add_entry-Reads level blk lba f s h g = elim (Bool-cases (dev.grants s.requests)) [
    | inr n ↦
        rw (add_entry, n)
          (record {
            answer = inr (enomem, refl, no_memory s.requests n);
            kept = Kept-refl dev size f s (asked s) refl refl (omega arith) h;
          })
    | inl y ↦
        rw (add_entry, y)
          (record {
            answer = inl refl;
            kept = record {
              same_fst = refl;
              later = omega arith;
              cached = All-snoc (Good dev size f.fst) f.bcache _ h g;
              structs = omega (arith, length-append f.bcache (new_entry level blk lba ∷ []));
              pages = omega (arith, filled-snoc f.bcache (new_entry level blk lba));
            };
          })
  ]

  add_entry-at :
      (level blk lba : ℕ) (f : File) (s : Store) (i : ℕ)
      → (add_entry dev level blk lba f s).result ≡ ok i
      → (entry_at (add_entry dev level blk lba f s).file.bcache i ≡ new_entry level blk lba)
        × (i < length (add_entry dev level blk lba f s).file.bcache)
  unfolding add_entry
  add_entry-at level blk lba f s i h = elim (Bool-cases (dev.grants s.requests)) [
    | inr n ↦ absurd (ground (arith, n))
    | inl y ↦
        let same : length f.bcache ≡ i = ground (arith, y) in
        rw (← same, add_entry, y)
          (
            entry_at-snoc f.bcache (new_entry level blk lba),
            omega (arith, length-append f.bcache (new_entry level blk lba ∷ [])),
          )
  ]

  pub add_and_read-Reads :
      (level blk lba : ℕ) (f : File) (s : Store)
      → Cached dev size f
      → Good dev size f.fst (new_entry level blk lba)
      → Reads dev size (dev.disk lba) f s (add_and_read dev level blk lba f s)
  unfolding add_and_read
  add_and_read-Reads level blk lba f s h g =
      let d = add_entry dev level blk lba f s in
      let r = add_entry-Reads level blk lba f s h g in
      elim (Result-cases d.result) [
        | inr (e, b) ↦ elim r.answer [
          | inl q ↦ absurd (cc)
          | inr (x, q, why) ↦
              rw (add_and_read, q) (record { answer = inr (x, refl, why); kept = r.kept })
        ]
        | inl (i, b) ↦
            let (here, there) = add_entry-at level blk lba f s i b in
            let t = found-Reads dev size i d.file d.store r.kept.cached there in
            rw (add_and_read, b)
              (record {
                answer =
                    subst (λ x. Answers dev size (dev.disk x) (found dev i d.file d.store).result)
                      (ap (λ x. x.lba) here) t.answer;
                kept = Kept-trans dev size f d.file _ s d.store _ r.kept t.kept;
              })
      ]

  -- A block that is in the cache.
  pub hit-Reads :
      (up level blk i : ℕ) (f : File) (s : Store)
      → Cached dev size f
      → level + up ≡ nlvl f.fst
      → find_entry level blk f.bcache ≡ some i
      → Reads dev size (dev.disk (lba_at dev size f.fst up blk)) f s (found dev i f s)
  hit-Reads up level blk i f s h l q =
      let (a, b, c) = find_entry_lem level blk f.bcache i q in
      let good = All-get_or (Good dev size f.fst) f.bcache i (new_entry 0 0 0) h a in
      let up_eq : nlvl f.fst - (entry_at f.bcache i).level ≡ up = omega (arith, b) in
      let t = found-Reads dev size i f s h a in
      record {
        answer =
            subst (λ x. Answers dev size (dev.disk x) (found dev i f s).result)
              (good.at
                ∙ ap (λ u. lba_at dev size f.fst u (entry_at f.bcache i).blk) up_eq
                ∙ ap (λ x. lba_at dev size f.fst up x) c)
              t.answer;
        kept = t.kept;
      }
