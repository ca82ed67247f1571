-- ===== src/Fs/Spool.antt =====
-- Spool files, cp/fs/spool.c: records in a list of pages. A record is its length in two bytes, most
-- significant first, and its bytes; it begins at an even offset and may run over several pages. The
-- mutex of the file is held throughout each operation, so an operation is one step. The page
-- allocator comes in as the number of requests for a page that it will still grant, and `fresh` is
-- what an allocated page holds. `none` is a BUG_ON or a read of a page that is not there.
pub mod Within
pub mod Append
pub mod Holds
pub mod Fifo
use hvf.Base.{
  ℕ, zero, suc, ◌+◌, ◌-◌, ◌*◌, ◌/◌, ◌%◌, ◌^◌, Bool, true, false, not, ◌&&◌, ◌||◌, List, [], ◌∷◌,
  ◌++◌, Option, none, some, min, ltb, leb, ◌==◌, if◌then◌else◌, Bytes, put, memcpy, length,
}
use hvf.Errno.{Errno, success, enomem, einval, enoent}

-- SPOOL_DATA_SIZE
abbrev pub data_size : ℕ
data_size = 4080

pub record SpoolFile : Type 0 where
  pub list : List Bytes
  pub recs : ℕ
  pub pages : ℕ
  pub frecoff : ℕ
  pub lrecoff : ℕ

-- What `alloc_spool` fills in.
abbrev pub alloc_spool : SpoolFile
alloc_spool = record { list = []; recs = 0; pages = 0; frecoff = 0; lrecoff = 0 }

pub spool_nrecs : SpoolFile → ℕ
spool_nrecs f = f.recs

-- `rec->len` at an offset of a page
abbrev pub get_len : Bytes → ℕ → ℕ
get_len page off = page off * 256 + page (off + 1)

abbrev pub put_len : Bytes → ℕ → ℕ → Bytes
put_len page off len = put (put page off (len / 256)) (off + 1) (len % 256)

abbrev pub set_last : List Bytes → (Bytes → Bytes) → List Bytes
set_last [] g = []
set_last (page ∷ []) g = g page ∷ []
set_last (page ∷ next ∷ rest) g = page ∷ set_last (next ∷ rest) g

-- The file, how much of the record is in place, and `loff`.
pub record Filled : Type 0 where
  pub file : SpoolFile
  pub copied : ℕ
  pub loff : ℕ

-- "try to fill up the last page"
pub fill_last : SpoolFile → Bytes → ℕ → ℕ → Filled
fill_last f mem buf len =
    let left = (data_size + 2 ^ 32 - f.lrecoff) % 2 ^ 32 in
    let n = if left == 2 then 0 else min len (left - 2) in
    if not (f.pages == 0) && leb 2 left
    then record {
      file = record f {
        list =
            set_last f.list (λ page. memcpy (put_len page f.lrecoff len) (f.lrecoff + 2) mem buf n);
      };
      copied = 2 + n;
      loff = f.lrecoff + (2 + n);
    }
    else record { file = f; copied = 0; loff = 0 }

pub record Build : Type 0 where
  pub oom : Bool
  pub built : List Bytes
  pub copied : ℕ
  pub loff : ℕ
  pub avail : ℕ

-- One more page. What follows the first part is taken from `buf-copied+2` on.
abbrev pub source_of_rest : ℕ → ℕ → ℕ
source_of_rest buf copied = (buf + 2 ^ 64 - copied + 2) % 2 ^ 64

pub add_page : Bytes → Bytes → ℕ → ℕ → Build → Build
add_page fresh mem buf len b =
    let first = min len (data_size - 2) in
    let more = min (len + 2 - b.copied) data_size in
    if b.copied == 0
    then record b {
      built = b.built ++ memcpy (put_len fresh 0 len) 2 mem buf first ∷ [];
      copied = 2 + first;
      loff = 2 + first;
      avail = b.avail - 1;
    }
    else record b {
      built = b.built ++ memcpy fresh 0 mem (source_of_rest buf b.copied) more ∷ [];
      copied = b.copied + more;
      loff = more;
      avail = b.avail - 1;
    }

-- "we need to allocate space": until `rlen` bytes are in place
pub add_pages : ℕ → Bytes → Bytes → ℕ → ℕ → Build → Build
add_pages zero fresh mem buf len b = b
add_pages (suc fuel) fresh mem buf len b = elim (b.copied == len + 2) [
  | true ↦ b
  | false ↦ elim (b.avail == 0) [
    | true ↦ record b { oom = true }
    | false ↦ add_pages fuel fresh mem buf len (add_page fresh mem buf len b)
  ]
]

abbrev pub align2 : ℕ → ℕ
align2 n = n + n % 2

pub record Appended : Type 0 where
  pub ret : Errno
  pub file : SpoolFile
  pub avail : ℕ

-- `list_splice_tail` and the updates behind it.
pub close_rec : SpoolFile → Build → Appended
close_rec f b = record {
  ret = success;
  file = record f {
    list = f.list ++ b.built;
    pages = (f.pages + length b.built) % 2 ^ 64;
    recs = (f.recs + 1) % 2 ^ 64;
    lrecoff = align2 b.loff;
  };
  avail = b.avail;
}

-- Each page takes two bytes of the record or more, so its length bounds the pages. Where a page is
-- refused the new ones are freed.
pub spool_append_rec : Bytes → ℕ → SpoolFile → Bytes → ℕ → ℕ → Option Appended
unfolding fill_last add_page add_pages close_rec
spool_append_rec fresh avail f mem buf len =
    let p = fill_last f mem buf len in
    let b =
      add_pages (len + 2) fresh mem buf len
        (record { oom = false; built = []; copied = p.copied; loff = p.loff; avail = avail }) in
    if buf == 0 || len == 0
    then some (record { ret = einval; file = f; avail = avail })
    else if not (f.lrecoff % 2 == 0)
    then none
    else if ltb (len + 2) p.copied
    then none
    else if b.oom
    then some (record { ret = enomem; file = p.file; avail = avail })
    else some (close_rec p.file b)

-- The variables of the loop of `spool_grab_rec`; `spage` is always the first page of the list.
pub record Grab : Type 0 where
  pub list : List Bytes
  pub pages : ℕ
  pub freed : ℕ
  pub out : Bytes
  pub copied : ℕ
  pub processed : ℕ
  pub offset : ℕ
  pub left : ℕ

abbrev pub drop_page : List Bytes → List Bytes
drop_page [] = []
drop_page (page ∷ rest) = rest

-- "free page" and "grab the next page"
pub turn_page : Grab → Grab
turn_page g = record g {
  list = drop_page g.list;
  pages = (g.pages + 2 ^ 64 - 1) % 2 ^ 64;
  freed = g.freed + 1;
  offset = 0;
  left = data_size;
}

-- One round behind the page turn: into the user's buffer while that has room, then out of the way.
pub take_bytes : ℕ → ℕ → ℕ → Grab → Bytes → Grab
take_bytes buf rlen reclen g page =
    let n = min g.left (rlen - g.copied) in
    let k = min g.left (reclen + 2 - g.processed) in
    if g.copied == rlen
    then record g { processed = g.processed + k; left = g.left - k; offset = g.offset + k }
    else record g {
      out = memcpy g.out (buf + g.copied - 2) page g.offset n;
      processed = g.processed + n;
      copied = g.copied + n;
      left = g.left - n;
      offset = g.offset + n;
    }

pub grab_loop : ℕ → ℕ → ℕ → ℕ → Grab → Option Grab
grab_loop zero buf rlen reclen g = some g
grab_loop (suc fuel) buf rlen reclen g = elim (reclen + 2 == g.processed) [
  | true ↦ some g
  | false ↦
      let h = if g.left == 0 then turn_page g else g in
      elim h.list [
        | [] ↦ none
        | page ∷ rest ↦ grab_loop fuel buf rlen reclen (take_bytes buf rlen reclen h page)
      ]
]

pub record Grabbed : Type 0 where
  pub ret : Errno
  pub file : SpoolFile
  pub out : Bytes
  pub len : ℕ
  pub freed : ℕ

-- The end of `spool_grab_rec`: align, free a page that is used up, count the record out.
pub close_grab : SpoolFile → Grab → Grabbed
close_grab f g =
    let offset = align2 g.offset in
    let full = offset == data_size in
    record {
      ret = success;
      file = record f {
        list = if full then drop_page g.list else g.list;
        pages = if full then (g.pages + 2 ^ 64 - 1) % 2 ^ 64 else g.pages;
        recs = (f.recs + 2 ^ 64 - 1) % 2 ^ 64;
        frecoff = if full then 0 else offset;
      };
      out = g.out;
      len = g.copied - 2;
      freed = if full then g.freed + 1 else g.freed;
    }

-- Each round takes a byte or more, so the record's length bounds the rounds.
pub grab_first : SpoolFile → Bytes → ℕ → ℕ → Bytes → Option Grabbed
unfolding turn_page take_bytes grab_loop close_grab
grab_first f out buf len spage =
    let reclen = get_len spage f.frecoff in
    let rlen = min len reclen + 2 in
    elim (grab_loop (reclen + 1) buf rlen reclen (record {
      list = f.list;
      pages = f.pages;
      freed = 0;
      out = out;
      copied = 2;
      processed = 2;
      offset = f.frecoff + 2;
      left = data_size - f.frecoff - 2;
    })) [ none ↦ none | some g ↦ some (close_grab f g) ]

pub spool_grab_rec : SpoolFile → Bytes → ℕ → ℕ → Option Grabbed
unfolding grab_first
spool_grab_rec f out buf len =
    if len == 0 || buf == 0
    then some (record { ret = einval; file = f; out = out; len = len; freed = 0 })
    else if f.recs == 0
    then some (record { ret = enoent; file = f; out = out; len = len; freed = 0 })
    else if not (f.lrecoff % 2 == 0)
    then none
    else elim f.list [ [] ↦ none | spage ∷ rest ↦ grab_first f out buf len spage ]
