-- ===== src/Fs/Bcache/Read.antt =====
-- A read through the block cache gives the block of the disk.
use mathlib.Core.Path.{subst}
use hvf.Base.{
  false, ℕ, zero, suc, ◌+◌, ◌-◌, ◌*◌, ◌/◌, ◌%◌, ◌≤◌, ◌≡◌, inl, inr, refl, ap, sym, arith, some, ltb,
  Bytes, Option-cases,
}
use hvf.Fs.Volume.{word, fop, nlvl, Device, Store}
use hvf.Fs.Bcache.{File, Done, new_entry, find_entry, read_level, bcache_read}
use hvf.Fs.Bcache.Added.{add_and_read-Reads, hit-Reads}
use hvf.Fs.Bcache.Cached.{lba_at, Good, Cached, Kept-trans, Reads}

module _ (dev : Device) (size : ℕ) where
  abbrev wanted : ℕ → ℕ → File → Bytes
  wanted up blk f = dev.disk (lba_at dev size f.fst up blk)

  -- A block that is added has a good entry.
  new_entry-Good :
      (up level blk : ℕ) (f : File)
      → level + up ≡ nlvl f.fst
      → Good dev size f.fst (new_entry level blk (lba_at dev size f.fst up blk))
  new_entry-Good up level blk f l =
      let up_eq : nlvl f.fst - level ≡ up = omega arith in
      record {
        in_file = omega (arith, l);
        at = ap (λ u. lba_at dev size f.fst u blk) (sym up_eq);
        holds = inl refl;
      }

  read_level-Reads :
      (up level blk : ℕ) (f : File) (s : Store)
      → Cached dev size f
      → level + up ≡ nlvl f.fst
      → Reads dev size (wanted up blk f) f s (read_level dev size up level blk f s)
  unfolding read_level lba_at
  read_level-Reads zero level blk f s h l = elim (Option-cases (find_entry level blk f.bcache)) [
    | inr (i, q) ↦ rw (read_level, q) (hit-Reads dev size zero level blk i f s h l q)
    | inl q ↦
        rw (read_level, q)
          (add_and_read-Reads dev size level 0 (fop f.fst) f s h (new_entry-Good zero level 0 f l))
  ]
  read_level-Reads (suc up) level blk f s h l =
      elim (Option-cases (find_entry level blk f.bcache)) [
        | inr (i, q) ↦ rw (read_level, q) (hit-Reads dev size (suc up) level blk i f s h l q)
        | inl q ↦
            let above = blk / (size / 4) in
            let d = read_level dev size up (suc level) above f s in
            let r = read_level-Reads up (suc level) above f s h (omega (arith, l)) in
            elim r.answer [
              | inr (e, a, why) ↦
                  rw (read_level, q, a) (record { answer = inr (e, a, why); kept = r.kept })
              | inl a ↦
                  let lba = word (wanted up above f) (blk % (size / 4) * 4) in
                  let good : Good dev size d.file.fst (new_entry level blk lba) =
                    subst (λ t. Good dev size t (new_entry level blk lba)) (sym r.kept.same_fst)
                      (new_entry-Good (suc up) level blk f l) in
                  let t =
                    add_and_read-Reads dev size level blk lba d.file d.store r.kept.cached good in
                  rw (read_level, q, a)
                    (record {
                      answer = t.answer;
                      kept = Kept-trans dev size f d.file _ s d.store _ r.kept t.kept;
                    })
            ]
      ]

  pub bcache_read_lem :
      (level blk : ℕ) (f : File) (s : Store)
      → Cached dev size f
      → level ≤ nlvl f.fst
      → (d : Done Bytes) × (bcache_read dev size level blk f s ≡ some d)
        × Reads dev size (wanted (nlvl f.fst - level) blk f) f s d
  unfolding bcache_read
  bcache_read_lem level blk f s h l =
      let test : ltb (nlvl f.fst) level ≡ false = ground arith in
      (
        read_level dev size (nlvl f.fst - level) level blk f s,
        rw (bcache_read, test) refl,
        read_level-Reads (nlvl f.fst - level) level blk f s h (omega arith),
      )

  -- On a volume with blocks of 4 to 4096 bytes, a read of a block at a level of the file that the
  -- cache is for returns, and meets no BUG. The result is the block that the file's pointer blocks
  -- name on the disk, or the error of a request that the allocator or the driver has refused. (At
  -- the level of the file origin pointer that is the block it points to, whichever is asked for,
  -- also on the way to a block whose number is too large for the pointer blocks.)
  -- The cache agrees with the disk again, also after an error, and holds each structure and page
  -- that was allocated.
  pub bcache_read-Reads :
      (level blk : ℕ) (f : File) (s : Store)
      → 4 ≤ size
      → size ≤ 4096
      → Cached dev size f
      → level ≤ nlvl f.fst
      → (d : Done Bytes) × (bcache_read dev size level blk f s ≡ some d)
        × Reads dev size (wanted (nlvl f.fst - level) blk f) f s d
  bcache_read-Reads level blk f s pointers fits h l = bcache_read_lem level blk f s h l
