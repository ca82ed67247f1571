-- ===== src/Fs/Spool/Fifo.antt =====
-- A spool file as a queue of records, for files whose records are in one page.
use hvf.Base.{
  ℕ, suc, ◌+◌, ◌-◌, ◌%◌, ◌^◌, ◌≤◌, ◌<◌, ◌≡◌, ◌≢◌, refl, sym, ap, Bool, true, false, List, [], ◌∷◌,
  ◌++◌, some, min, ◌==◌, if◌then◌else◌, Bytes, arith, length, get_or,
}
use mathlib.Core.Path.{subst}
use hvf.Errno.{success}
use hvf.Fs.Spool.{
  data_size, SpoolFile, align2, Appended, spool_append_rec, Grabbed, close_grab, spool_grab_rec,
}
use hvf.Fs.Spool.Append.{with_record, filled, started_file, append_last, append_new}
use hvf.Fs.Spool.Within.{last_grab, spool_grab_within}
use hvf.Fs.Spool.Holds.{
  Holds, Holds-order, Holds-agree, Holds-append, length-snoc, InMemory, with_record-RecordAt,
  with_record-agree, Holds-count, Holds-nothing,
}

-- The file is the queue of the records `rs`: it has no page and no record, or one page that holds
-- them.
pub data Queue : SpoolFile → List (List ℕ) → Type 0 where
  no_page :
      (lrecoff : ℕ)
      → lrecoff % 2 ≡ 0
      → Queue (record { list = []; recs = 0; pages = 0; frecoff = 0; lrecoff = lrecoff }) []
  one_page :
      (page : Bytes) (frecoff lrecoff : ℕ) (rs : List (List ℕ))
      → lrecoff % 2 ≡ 0
      → lrecoff ≤ data_size
      → Holds page frecoff rs lrecoff
      → Queue
          (record {
            list = page ∷ [];
            recs = length rs;
            pages = 1;
            frecoff = frecoff;
            lrecoff = lrecoff;
          })
          rs

-- Where the next record would begin.
abbrev pub next_record : SpoolFile → ℕ
next_record f = if f.pages == 0 then 0 else f.lrecoff

-- An append that worked: the file is the longer queue.
pub record Enqueued (a : Appended) (rs : List (List ℕ)) : Type 0 where
  pub ret : a.ret ≡ success
  pub file : Queue a.file rs

align2-even : (n : ℕ) → align2 n % 2 ≡ 0
align2-even n = omega arith

Queue-filled :
    (page : Bytes) (frecoff lrecoff : ℕ) (rs : List (List ℕ)) (mem : Bytes) (buf : ℕ) (r : List ℕ)
    → lrecoff % 2 ≡ 0
    → lrecoff + 2 + length r ≤ data_size
    → Holds page frecoff rs lrecoff
    → 0 < length r
    → InMemory mem buf r
    → Queue
        (record {
          list = with_record page lrecoff mem buf (length r) ∷ [];
          recs = (length rs + 1) % 2 ^ 64;
          pages = (1 + 0) % 2 ^ 64;
          frecoff = frecoff;
          lrecoff = align2 (lrecoff + (2 + length r));
        })
        (rs ++ r ∷ [])
Queue-filled page frecoff lrecoff rs mem buf r even fits h full at =
    let end = align2 (lrecoff + (2 + length r)) in
    let page' = with_record page lrecoff mem buf (length r) in
    let kept =
      Holds-agree page page' frecoff rs lrecoff
        (λ a l. with_record-agree page lrecoff mem buf (length r) a l) h in
    let held =
      Holds-append page' frecoff rs lrecoff r end kept
        (with_record-RecordAt page lrecoff mem buf r full (omega arith) at)
        (ap (λ n. align2 n) (omega arith)) in
    let count : length (rs ++ r ∷ []) ≡ (length rs + 1) % 2 ^ 64 =
      omega (arith, length-snoc rs r, Holds-count page frecoff rs lrecoff h) in
    subst
      (λ c.
        Queue (record { list = page' ∷ []; recs = c; pages = 1; frecoff = frecoff; lrecoff = end })
          (rs ++ r ∷ []))
      count (one_page page' frecoff end (rs ++ r ∷ []) (align2-even _) (omega arith) held)

Queue-started :
    (fresh mem : Bytes) (buf : ℕ) (r : List ℕ)
    → 2 + length r ≤ data_size
    → 0 < length r
    → InMemory mem buf r
    → Queue
        (record {
          list = with_record fresh 0 mem buf (length r) ∷ [];
          recs = 1;
          pages = 1;
          frecoff = 0;
          lrecoff = align2 (2 + length r);
        })
        (r ∷ [])
Queue-started fresh mem buf r fits full at =
    one_page (with_record fresh 0 mem buf (length r)) 0 (align2 (2 + length r)) (r ∷ [])
      (align2-even _) (omega arith)
      (with_record-RecordAt fresh 0 mem buf r full (omega arith) at, refl)

-- Appending a record that is not empty, from a buffer that is not NULL, where the file's only page
-- has room for it, or where the file has no page yet, the record fits one and the allocator has one
-- to give: it succeeds, and the file is the queue with the record at its end.
pub spool_append-Queue :
    (fresh : Bytes) (avail : ℕ) (f : SpoolFile) (rs : List (List ℕ)) (mem : Bytes) (buf : ℕ)
    (r : List ℕ)
    → Queue f rs
    → buf ≢ 0
    → 0 < length r
    → (f.pages ≡ 0 → 0 < avail)
    → next_record f + 2 + length r ≤ data_size
    → InMemory mem buf r
    → (a : Appended) × (spool_append_rec fresh avail f mem buf (length r) ≡ some a)
      × Enqueued a (rs ++ r ∷ [])
spool_append-Queue fresh avail _ _ mem buf r (no_page lrecoff even) there full granted fits at = (
  record {
    ret = success;
    file =
        started_file fresh avail
          (record { list = []; recs = 0; pages = 0; frecoff = 0; lrecoff = lrecoff }) mem buf
          (length r) there full even;
    avail = avail - 1;
  },
  append_new fresh avail (record { list = []; recs = 0; pages = 0; frecoff = 0; lrecoff = lrecoff })
      mem buf (length r) there full even refl (granted refl) (omega arith),
  record { ret = refl; file = Queue-started fresh mem buf r (omega arith) full at },
)
spool_append-Queue fresh avail _ _ mem buf r (one_page page frecoff lrecoff rs even low h) there
      full granted fits at =
    (
      record {
        ret = success;
        file =
            filled fresh avail
              (record {
                list = page ∷ [];
                recs = length rs;
                pages = 1;
                frecoff = frecoff;
                lrecoff = lrecoff;
              })
              mem buf (length r) there full even page;
        avail = avail;
      },
      append_last fresh avail
          (record {
            list = page ∷ [];
            recs = length rs;
            pages = 1;
            frecoff = frecoff;
            lrecoff = lrecoff;
          })
          mem buf (length r) there full even page (omega arith) fits,
      record {
        ret = refl;
        file = Queue-filled page frecoff lrecoff rs mem buf r even fits h full at;
      },
    )

-- A grab that worked: its length, its bytes, and the file is the shorter queue.
pub record Dequeued (g : Grabbed) (buf len : ℕ) (r : List ℕ) (rs : List (List ℕ)) : Type 0 where
  pub ret : g.ret ≡ success
  pub got : g.len ≡ min len (length r)
  pub bytes : (i : ℕ) → i < min len (length r) → g.out (buf + i) ≡ get_or r i 0
  pub file : Queue g.file rs

-- The file after a grab, by whether its page is used up.
abbrev closed : Bool → Bytes → ℕ → ℕ → ℕ → SpoolFile
closed used page n next lrecoff = record {
  list = if used then [] else page ∷ [];
  recs = n;
  pages = if used then 0 else 1;
  frecoff = if used then 0 else next;
  lrecoff = lrecoff;
}

Queue-closed :
    (page : Bytes) (next lrecoff : ℕ) (rs : List (List ℕ)) (used : Bool)
    → (next == data_size) ≡ used
    → lrecoff % 2 ≡ 0
    → lrecoff ≤ data_size
    → Holds page next rs lrecoff
    → Queue (closed used page (length rs) next lrecoff) rs
Queue-closed page next lrecoff rs false e even low h = one_page page next lrecoff rs even low h
Queue-closed page next lrecoff rs true e even low h =
    let none_left = Holds-nothing page rs next lrecoff (ground arith) low h in
    subst (λ l. Queue (closed true page (length l) next lrecoff) l) (sym none_left)
      (no_page lrecoff even)

close_grab-closed :
    (page out : Bytes) (frecoff lrecoff buf n : ℕ) (r : List ℕ) (rs : List (List ℕ)) (next : ℕ)
    → n ≤ length r
    → length rs < 2 ^ 32
    → next ≡ align2 (frecoff + 2 + length r)
    → let f : SpoolFile = record {
      list = page ∷ [];
      recs = length (r ∷ rs);
      pages = 1;
      frecoff = frecoff;
      lrecoff = lrecoff;
    } in
      (close_grab f (last_grab f out buf page [] n (length r))).file
      ≡ closed (next == data_size) page (length rs) next lrecoff
unfolding close_grab
close_grab-closed page out frecoff lrecoff buf n r rs next l small e =
    let offset : frecoff + 2 + n + (length r - n) ≡ frecoff + 2 + length r = omega arith in
    let recs : (suc (length rs) + 2 ^ 64 - 1) % 2 ^ 64 ≡ length rs = omega arith in
    rw (offset, ← e, recs) refl

-- Grabbing from a file that is a queue with a first record `r`: it succeeds, the buffer gets the
-- bytes of `r` as far as it has room, and the file is the queue without `r`.
pub spool_grab-Queue :
    (f : SpoolFile) (out : Bytes) (buf len : ℕ) (r : List ℕ) (rs : List (List ℕ))
    → Queue f (r ∷ rs)
    → buf ≢ 0
    → 0 < len
    → (g : Grabbed) × (spool_grab_rec f out buf len ≡ some g) × Dequeued g buf len r rs
unfolding close_grab
spool_grab-Queue _ out buf len r rs (one_page page frecoff lrecoff _ even low h) there asked =
    let f : SpoolFile = record {
      list = page ∷ [];
      recs = length (r ∷ rs);
      pages = 1;
      frecoff = frecoff;
      lrecoff = lrecoff;
    } in
    let reclen = length r in
    let next = align2 (frecoff + 2 + reclen) in
    let tail = Holds-order page next rs lrecoff h.1 in
    let count = Holds-count page next rs lrecoff h.1 in
    let got =
      spool_grab_within f out buf len page [] reclen (omega arith) h.0.some_bytes asked h.0.is_len
        (omega arith) even there in
    let file =
      close_grab-closed page out frecoff lrecoff buf (min len reclen) r rs next (omega arith)
        (omega arith) refl in
    (
      close_grab f (last_grab f out buf page [] (min len reclen) reclen),
      got,
      record {
        ret = refl;
        got = omega arith;
        bytes = λ i l. ground (arith, h.0.bytes i (omega arith));
        file =
            subst (λ y. Queue y rs) (sym file)
              (Queue-closed page next lrecoff rs _ refl even low h.1);
      },
    )
