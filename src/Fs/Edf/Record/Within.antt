-- ===== src/Fs/Edf/Record/Within.antt =====
-- The bytes of a record that `edf_read_rec` reads.
use hvf.Base.{
  ℕ, ◌+◌, ◌-◌, ◌*◌, ◌%◌, ◌/◌, ◌^◌, ◌≤◌, ◌<◌, ◌≡◌, ◌⊎◌, inl, inr, refl, ap, sym, ◌∙◌, arith, true,
  false, some, ltb, leb, Bytes, memcpy, Bool-cases,
}
use mathlib.Core.Path.{subst}
use native.Mathlib.Decide.{dec_lt}
use hvf.Errno.{Errno, success, failed}
use hvf.Fs.Volume.{fop, nlvl, lrecl, aic, Device, Store, Refused, no_memory, no_read, read_failed}
use hvf.Fs.Bcache.{File}
use hvf.Fs.Bcache.Cached.{lba_at, Cached, Kept, Kept-trans, Answers}
use hvf.Fs.Bcache.Read.{bcache_read_lem}
use hvf.Fs.Edf.{block_size}
use hvf.Fs.Edf.Record.{RecRead, copy_part, copy_both, unsupported, edf_read_rec}

Refused-failed : {dev : Device} {e : Errno} → Refused dev e → failed e ≡ true
Refused-failed (no_memory n h) = refl
Refused-failed (no_read h) = refl
Refused-failed (read_failed n lba h) = h

-- Byte `i` of the record comes from offset `recno * len + i` of the block, modulo its size; what is
-- outside of the record's place is as before.
pub record RecordAt (block : Bytes) (recno len buf : ℕ) (out out' : Bytes) : Type 0 where
  pub bytes : (i : ℕ) → i < len → out' (buf + i) ≡ block ((recno * len + i) % block_size)
  pub outside : (a : ℕ) → (a < buf) ⊎ (buf + len ≤ a) → out' a ≡ out a

memcpy-bytes :
    (dst src : Bytes) (d at n i : ℕ) → i < n → memcpy dst d src at n (d + i) ≡ src (at + i)
memcpy-bytes dst src d at n i l = ground arith

memcpy-outside :
    (dst src : Bytes) (d at n a : ℕ) → (a < d) ⊎ (d + n ≤ a) → memcpy dst d src at n a ≡ dst a
memcpy-outside dst src d at n a l = ground arith

-- `off` in the code
abbrev offset : ℕ → ℕ → ℕ
offset recno len = recno * len % 2 ^ 32 % block_size

module _ (block out : Bytes) (recno len buf : ℕ) where
  whole-RecordAt :
      offset recno len + len ≤ block_size
      → RecordAt block recno len buf out (memcpy out buf block (offset recno len) len)
  whole-RecordAt h = record {
    bytes = λ i l.
        let at : offset recno len + i ≡ (recno * len + i) % block_size = omega arith in
        memcpy-bytes out block buf (offset recno len) len i l ∙ ap block at;
    outside = λ a l. memcpy-outside out block buf (offset recno len) len a l;
  }

  both-RecordAt :
      block_size < offset recno len + len
      → len ≤ block_size
      → RecordAt block recno len buf out (
          memcpy
            (memcpy out buf block (offset recno len) (block_size - offset recno len))
            (buf + (block_size - offset recno len))
            block
            0
            (len - (block_size - offset recno len)))
  both-RecordAt h short = record {
    bytes = λ i l.
        let off = offset recno len in
        let flen = block_size - off in
        let first = memcpy out buf block off flen in
        elim (dec_lt i flen) [
          | yes here ↦
              let at : off + i ≡ (recno * len + i) % block_size = omega arith in
              memcpy-outside first block (buf + flen) 0 (len - flen) (buf + i) (inl (omega arith))
              ∙ memcpy-bytes out block buf off flen i here
              ∙ ap block at
          | no later ↦
              let at : 0 + (i - flen) ≡ (recno * len + i) % block_size = omega arith in
              let place : buf + i ≡ buf + flen + (i - flen) = omega arith in
              ap (memcpy first (buf + flen) block 0 (len - flen)) place
              ∙ memcpy-bytes first block (buf + flen) 0 (len - flen) (i - flen) (omega arith)
              ∙ ap block at
        ];
    outside = λ a l.
        let off = offset recno len in
        let flen = block_size - off in
        let first = memcpy out buf block off flen in
        memcpy-outside first block (buf + flen) 0 (len - flen) a (ground arith)
        ∙ memcpy-outside out block buf off flen a (ground arith);
  }

module _ (dev : Device) where
  -- A part of the record is copied, or a request is refused and nothing is.
  record Copied (block : Bytes) (off n at : ℕ) (out : Bytes) (f : File) (s : Store) (r : RecRead)
      : Type 0 where
    pub result : ((r.ret ≡ success) × (r.out ≡ memcpy out at block off n)) ⊎ Refused dev r.ret
    pub kept : Kept dev block_size f s r.file r.store

  copy_part-Copied :
      (blk off n at : ℕ) (out : Bytes) (f : File) (s : Store)
      → Cached dev block_size f
      → nlvl f.fst ≡ 0
      → (r : RecRead) × (copy_part dev block_size blk off n at out f s ≡ some r)
        × Copied (dev.disk (fop f.fst)) off n at out f s r
  unfolding copy_part lba_at
  copy_part-Copied blk off n at out f s h flat =
      let (d, q, t) = bcache_read_lem dev block_size 0 blk f s h (omega arith) in
      let top : lba_at dev block_size f.fst (nlvl f.fst - 0) blk ≡ fop f.fst =
        ap (λ u. lba_at dev block_size f.fst (u - 0) blk) flat in
      elim (subst (λ x. Answers dev block_size (dev.disk x) d.result) top t.answer) [
        | inl a ↦ (
          record {
            ret = success;
            out = memcpy out at (dev.disk (fop f.fst)) off n;
            file = d.file;
            store = d.store;
          },
          rw (copy_part, q, a) refl,
          record { result = inl (refl, refl); kept = t.kept },
        )
        | inr (e, a, why) ↦ (
          record { ret = e; out = out; file = d.file; store = d.store },
          rw (copy_part, q, a) refl,
          record { result = inr why; kept = t.kept },
        )
      ]

  pub record Outcome (recno buf : ℕ) (out : Bytes) (f : File) (s : Store) (r : RecRead)
      : Type 0 where
    pub result :
        ((r.ret ≡ success) × RecordAt (dev.disk (fop f.fst)) recno (lrecl f.fst) buf out r.out)
        ⊎ Refused dev r.ret
    pub kept : Kept dev block_size f s r.file r.store

  -- The two copies of a record that goes on in the next block.
  copy_both-Copied :
      (blk buf : ℕ) (out : Bytes) (recno : ℕ) (f : File) (s : Store)
      → Cached dev block_size f
      → nlvl f.fst ≡ 0
      → lrecl f.fst ≤ block_size
      → block_size < offset recno (lrecl f.fst) + lrecl f.fst
      → (r : RecRead) × (copy_both dev block_size blk (offset recno (lrecl f.fst)) buf out f s
          ≡ some r)
        × Outcome recno buf out f s r
  unfolding copy_both
  copy_both-Copied blk buf out recno f s h flat short over =
      let off = offset recno (lrecl f.fst) in
      let flen = block_size - off in
      let a : ltb flen (lrecl f.fst) ≡ true = ground arith in
      let b : ltb (lrecl f.fst - flen) (lrecl f.fst) ≡ true = ground arith in
      let (r, q, c) = copy_part-Copied blk off flen buf out f s h flat in
      elim c.result [
        | inr why ↦ (
          r,
          rw (copy_both, a, b, q, Refused-failed why) refl,
          record { result = inr why; kept = c.kept },
        )
        | inl (good, copied) ↦
            let flat' : nlvl r.file.fst ≡ 0 = ap nlvl c.kept.same_fst ∙ flat in
            let (t, p, k) =
              copy_part-Copied ((blk + 1) % 2 ^ 32) 0 (lrecl f.fst - flen) (buf + flen) r.out r.file
                r.store c.kept.cached flat' in
            let fine : failed r.ret ≡ false = ap failed good in
            let kept = Kept-trans dev block_size f r.file t.file s r.store t.store c.kept k.kept in
            elim k.result [
              | inr why ↦
                  (t, rw (copy_both, a, b, q, fine) p, record { result = inr why; kept = kept })
              | inl (good', copied') ↦ (
                t,
                rw (copy_both, a, b, q, fine) p,
                record {
                  result = inl (
                    good',
                    subst (RecordAt (dev.disk (fop f.fst)) recno (lrecl f.fst) buf out)
                        (sym (
                          copied'
                          ∙ ap
                              (λ o.
                                memcpy o (buf + flen) (dev.disk (fop r.file.fst)) 0
                                  (lrecl f.fst - flen))
                              copied
                          ∙ ap
                              (λ x.
                                memcpy (memcpy out buf (dev.disk (fop f.fst)) off flen) (buf + flen)
                                  (dev.disk (fop x)) 0 (lrecl f.fst - flen))
                              c.kept.same_fst))
                        (both-RecordAt (dev.disk (fop f.fst)) out recno (lrecl f.fst) buf over
                          short),
                  );
                  kept = kept;
                },
              )
            ]
      ]

  -- On a file that the code supports, with a cache that agrees with the disk, a read of a record
  -- that the file has returns and meets no BUG. Either a request was refused, with this error, or
  -- the record is in the buffer and nothing else has changed in storage. Byte i of record n is that
  -- at n * lrecl + i, modulo the size of a block, in the file's first block, also for a record that
  -- lies in two blocks or behind the first. In both cases the cache agrees with the disk.
  pub edf_read_rec-Reads :
      (recno buf : ℕ) (out : Bytes) (f : File) (s : Store)
      → Cached dev block_size f
      → unsupported block_size f.fst ≡ false
      → recno < aic f.fst
      → (r : RecRead) × (edf_read_rec dev block_size recno buf out f s ≡ some r)
        × Outcome recno buf out f s r
  unfolding edf_read_rec
  edf_read_rec-Reads recno buf out f s h good l =
      let off = offset recno (lrecl f.fst) in
      let blk = recno * lrecl f.fst % 2 ^ 32 / block_size in
      let flat : nlvl f.fst ≡ 0 = ground (arith, good) in
      let short : lrecl f.fst ≤ block_size = ground (arith, good) in
      let in_file : leb (aic f.fst) recno ≡ false = ground arith in
      elim (Bool-cases (ltb block_size ((off + lrecl f.fst) % 2 ^ 32))) [
        | inl over ↦
            let (r, q, o) =
              copy_both-Copied blk buf out recno f s h flat short (ground (arith, over)) in
            (r, rw (edf_read_rec, good, in_file, over) q, o)
        | inr fits ↦
            let (r, q, c) = copy_part-Copied blk off (lrecl f.fst) buf out f s h flat in
            (
              r,
              rw (edf_read_rec, good, in_file, fits) q,
              record {
                kept = c.kept;
                result = elim c.result [
                  | inr why ↦ inr why
                  | inl (fine, copied) ↦ inl (
                    fine,
                    subst (RecordAt (dev.disk (fop f.fst)) recno (lrecl f.fst) buf out) (sym copied)
                        (whole-RecordAt (dev.disk (fop f.fst)) out recno (lrecl f.fst) buf
                          (ground (arith, fits))),
                  )
                ];
              },
            )
      ]
