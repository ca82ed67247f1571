-- ===== src/Fs/Spool/Append.antt =====
-- Appending a record that fits the last page, or the first page of an empty file.
use hvf.Base.{
  ℕ, zero, suc, ◌+◌, ◌-◌, ◌%◌, ◌^◌, ◌≤◌, ◌<◌, ◌≡◌, ◌≢◌, refl, ◌∙◌, ap, true, false, [], ◌∷◌, some,
  min, ltb, leb, ◌==◌, Bytes, memcpy, arith,
}
use hvf.Errno.{success}
use hvf.Fs.Spool.{
  data_size, SpoolFile, put_len, align2, fill_last, Build, add_page, add_pages, close_rec,
  spool_append_rec,
}

-- A page with a record of `len` bytes of `mem` at `off`.
abbrev pub with_record : Bytes → ℕ → Bytes → ℕ → ℕ → Bytes
with_record page off mem buf len = memcpy (put_len page off len) (off + 2) mem buf len

add_pages_done :
    (fuel : ℕ) (fresh mem : Bytes) (buf len : ℕ) (b : Build)
    → b.copied ≡ len + 2
    → add_pages fuel fresh mem buf len b ≡ b
unfolding add_pages
add_pages_done zero fresh mem buf len b e = refl
add_pages_done (suc fuel) fresh mem buf len b e =
    let test : (b.copied == len + 2) ≡ true = ground arith in rw (add_pages, test) refl

module _ (fresh : Bytes) (avail : ℕ) (f : SpoolFile) (mem : Bytes) (buf len : ℕ) (there : buf ≢ 0)
    (some_bytes : 0 < len) (even : f.lrecoff % 2 ≡ 0) where
  -- What is left of the file when the record has been put in its last page.
  abbrev pub filled : Bytes → SpoolFile
  filled page = record f {
    list = with_record page f.lrecoff mem buf len ∷ [];
    pages = (f.pages + 0) % 2 ^ 64;
    recs = (f.recs + 1) % 2 ^ 64;
    lrecoff = align2 (f.lrecoff + (2 + len));
  }

  filled_last :
      (page : Bytes)
      → f.pages ≢ 0
      → f.lrecoff + 2 + len ≤ data_size
      → fill_last (record f { list = page ∷ [] }) mem buf len ≡ record {
        file = record f { list = with_record page f.lrecoff mem buf len ∷ [] };
        copied = 2 + len;
        loff = f.lrecoff + (2 + len);
      }
  unfolding fill_last
  filled_last page pages fits =
      let left : (4080 + 2 ^ 32 - f.lrecoff) % 2 ^ 32 ≡ 4080 - f.lrecoff = omega arith in
      let a : (f.pages == 0) ≡ false = ground arith in
      let b : leb 2 (4080 - f.lrecoff) ≡ true = ground arith in
      let c : (4080 - f.lrecoff == 2) ≡ false = ground arith in
      let d : min len (4080 - f.lrecoff - 2) ≡ len = omega arith in rw (left, a, b, c, d) refl

  pub append_last :
      (page : Bytes)
      → f.pages ≢ 0
      → f.lrecoff + 2 + len ≤ data_size
      → spool_append_rec fresh avail (record f { list = page ∷ [] }) mem buf len
        ≡ some (record { ret = success; file = filled page; avail = avail })
  unfolding spool_append_rec close_rec
  append_last page pages fits =
      let a : (buf == 0) ≡ false = ground arith in
      let b : (len == 0) ≡ false = ground arith in
      let c : (f.lrecoff % 2 == 0) ≡ true = ground arith in
      let d : ltb (len + 2) (2 + len) ≡ false = ground arith in
      let done =
        add_pages_done (len + 2) fresh mem buf len
          (record {
            oom = false;
            built = [];
            copied = 2 + len;
            loff = f.lrecoff + (2 + len);
            avail = avail;
          })
          (omega arith) in
      rw (a, b, c, spool_append_rec, filled_last page pages fits, d, done) refl

  -- The file with its first page.
  abbrev pub started_file : SpoolFile
  started_file = record f {
    list = with_record fresh 0 mem buf len ∷ [];
    pages = (f.pages + 1) % 2 ^ 64;
    recs = (f.recs + 1) % 2 ^ 64;
    lrecoff = align2 (2 + len);
  }

  not_filled :
      f.pages ≡ 0
      → fill_last (record f { list = [] }) mem buf len
        ≡ record { file = record f { list = [] }; copied = 0; loff = 0 }
  unfolding fill_last
  not_filled pages = let a : (f.pages == 0) ≡ true = ground arith in rw a refl

  one_page :
      0 < avail
      → 2 + len ≤ data_size
      → add_pages
          (len + 2)
          fresh
          mem
          buf
          len
          (record { oom = false; built = []; copied = 0; loff = 0; avail = avail })
        ≡ record {
          oom = false;
          built = with_record fresh 0 mem buf len ∷ [];
          copied = 2 + len;
          loff = 2 + len;
          avail = avail - 1;
        }
  unfolding add_pages add_page
  one_page granted fits =
      let fuel : len + 2 ≡ suc (len + 1) = omega arith in
      let a : (0 == suc (len + 1)) ≡ false = ground arith in
      let a' : (0 == len + 2) ≡ false = ground arith in
      let b : (avail == 0) ≡ false = ground arith in
      let c : min len (data_size - 2) ≡ len = omega arith in
      let done =
        add_pages_done (len + 1) fresh mem buf len
          (record {
            oom = false;
            built = with_record fresh 0 mem buf len ∷ [];
            copied = 2 + len;
            loff = 2 + len;
            avail = avail - 1;
          })
          (omega arith) in
      let step : add_pages (suc (len + 1)) fresh mem buf len
            (record { oom = false; built = []; copied = 0; loff = 0; avail = avail })
          ≡ _ =
        rw (add_pages, a', b, c) done in
      ap
        (λ n.
          add_pages n fresh mem buf len
            (record { oom = false; built = []; copied = 0; loff = 0; avail = avail }))
        fuel
      ∙ step

  pub append_new :
      f.pages ≡ 0
      → 0 < avail
      → 2 + len ≤ data_size
      → spool_append_rec fresh avail (record f { list = [] }) mem buf len
        ≡ some (record { ret = success; file = started_file; avail = avail - 1 })
  unfolding spool_append_rec close_rec
  append_new pages granted fits =
      let a : (buf == 0) ≡ false = ground arith in
      let b : (len == 0) ≡ false = ground arith in
      let c : (f.lrecoff % 2 == 0) ≡ true = ground arith in
      let d : ltb (len + 2) 0 ≡ false = ground arith in
      rw (a, b, c, spool_append_rec, not_filled pages, d, one_page granted fits) refl
