-- ===== src/Fs/Bcache/Again.antt =====
-- A block that has been read stays in the cache: to read it again takes no request.
use mathlib.Core.Path.{subst}
use mathlib.Core.Option.{some-injective}
use hvf.Base.{
  ℕ, zero, suc, ◌-◌, ◌*◌, ◌/◌, ◌%◌, ◌≤◌, ◌<◌, ◌≡◌, ◌⊎◌, inl, inr, refl, ap, sym, ◌∙◌, arith, false,
  none, some, ltb, Bytes, Option-cases,
}
use hvf.Fs.Volume.{word, fop, nlvl, ok, Device, Store, Result-cases}
use hvf.Fs.Bcache.{File, Done, find_entry, entry_at, found, add_and_read, read_level, bcache_read}
use hvf.Fs.Bcache.Cached.{Cached}
use hvf.Fs.Bcache.Read.{bcache_read_lem}
use hvf.Fs.Bcache.Keeps.{found-keeps, Has, found-Has, add_and_read-Has, add_and_read-keeps}

module _ (dev : Device) (size : ℕ) where
  read_level-keeps :
      (up l k level blk : ℕ) (f : File) (s : Store)
      → l < level
      → find_entry l k f.bcache ≡ none
      → find_entry l k (read_level dev size up level blk f s).file.bcache ≡ none
  unfolding read_level
  read_level-keeps zero l k level blk f s lt h =
      elim (Option-cases (find_entry level blk f.bcache)) [
        | inr (i, q) ↦ rw (read_level, q) (found-keeps dev l k i f s ∙ h)
        | inl q ↦
            rw (read_level, q) (add_and_read-keeps dev l k level 0 (fop f.fst) f s (omega arith) h)
      ]
  read_level-keeps (suc up) l k level blk f s lt h =
      elim (Option-cases (find_entry level blk f.bcache)) [
        | inr (i, q) ↦ rw (read_level, q) (found-keeps dev l k i f s ∙ h)
        | inl q ↦
            let d = read_level dev size up (suc level) (blk / (size / 4)) f s in
            let below =
              read_level-keeps up l k (suc level) (blk / (size / 4)) f s (omega arith) h in
            elim (Result-cases d.result) [
              | inr (e, r) ↦ rw (read_level, q, r) below
              | inl (ptrs, r) ↦
                  rw (read_level, q, r)
                    (add_and_read-keeps dev l k level blk (word ptrs (blk % (size / 4) * 4)) d.file
                      d.store (omega arith) below)
            ]
      ]

  read_level-Has :
      (up level blk : ℕ) (f : File) (s : Store) (b : Bytes)
      → (0 < up) ⊎ (blk ≡ 0)
      → (read_level dev size up level blk f s).result ≡ ok b
      → Has dev level blk b (read_level dev size up level blk f s).file
  unfolding read_level
  read_level-Has zero level blk f s b top h = elim (Option-cases (find_entry level blk f.bcache)) [
    | inr (i, q) ↦ rw (read_level, q) (found-Has dev level blk i f s b q (rw (read_level, q) at h))
    | inl q ↦
        let first : 0 ≡ blk = ground (arith, top) in
        rw (read_level, q)
          (subst (λ k. Has dev level k b (add_and_read dev level 0 (fop f.fst) f s).file) first
            (add_and_read-Has dev level 0 (fop f.fst) f s b
              (ap (λ k. find_entry level k f.bcache) first ∙ q) (rw (read_level, q) at h)))
  ]
  read_level-Has (suc up) level blk f s b top h =
      elim (Option-cases (find_entry level blk f.bcache)) [
        | inr (i, q) ↦
            rw (read_level, q) (found-Has dev level blk i f s b q (rw (read_level, q) at h))
        | inl q ↦
            let d = read_level dev size up (suc level) (blk / (size / 4)) f s in
            let below =
              read_level-keeps up level blk (suc level) (blk / (size / 4)) f s (omega arith) q in
            elim (Result-cases d.result) [
              | inr (e, r) ↦ absurd (ground (arith, q, r))
              | inl (ptrs, r) ↦
                  rw (read_level, q, r)
                    (add_and_read-Has dev level blk (word ptrs (blk % (size / 4) * 4)) d.file
                      d.store b below (rw (read_level, q, r) at h))
            ]
      ]

  found_again :
      (level blk : ℕ) (b : Bytes) (f : File) (s : Store) (i : ℕ)
      → (entry_at f.bcache i).contents ≡ some b
      → found dev i f s ≡ record { result = ok b; file = f; store = s }
  unfolding found
  found_again level blk b f s i c = rw (found, c) refl

  read_level_again :
      (up level blk : ℕ) (b : Bytes) (f : File) (s : Store)
      → Has dev level blk b f
      → read_level dev size up level blk f s ≡ record { result = ok b; file = f; store = s }
  unfolding read_level
  read_level_again zero level blk b f s (i, q, c) =
      rw (read_level, q) (found_again level blk b f s i c)
  read_level_again (suc up) level blk b f s (i, q, c) =
      rw (read_level, q) (found_again level blk b f s i c)

  -- A block that has been read is read again, later, with the same result, without a request and
  -- without a change to the file or to what is allocated. This excludes, at the level of the file
  -- origin pointer, the blocks but the first.
  pub bcache_read_again :
      (level blk : ℕ) (f : File) (s s' : Store) (d : Done Bytes) (b : Bytes)
      → Cached dev size f
      → level ≤ nlvl f.fst
      → (level < nlvl f.fst) ⊎ (blk ≡ 0)
      → bcache_read dev size level blk f s ≡ some d
      → d.result ≡ ok b
      → bcache_read dev size level blk d.file s'
        ≡ some (record { result = ok b; file = d.file; store = s' })
  unfolding bcache_read
  bcache_read_again level blk f s s' d b h l top q good =
      let up = nlvl f.fst - level in
      let test : ltb (nlvl f.fst) level ≡ false = ground arith in
      let same : read_level dev size up level blk f s ≡ d =
        some-injective _ d (rw (bcache_read, test) at q) in
      let (d', q', t) = bcache_read_lem dev size level blk f s h l in
      let dd : d' ≡ d = some-injective d' d (sym q' ∙ q) in
      let fst : d.file.fst ≡ f.fst = subst (λ x. x.file.fst ≡ f.fst) dd t.kept.same_fst in
      let has =
        subst (λ x. Has dev level blk b x.file) same
          (read_level-Has up level blk f s b (ground (arith, top))
            (ap (λ x. x.result) same ∙ good)) in
      let test' : ltb (nlvl d.file.fst) level ≡ false = ap (λ x. ltb (nlvl x) level) fst ∙ test in
      rw (bcache_read, test')
        (ap (λ r. some r) (read_level_again (nlvl d.file.fst - level) level blk b d.file s' has))
