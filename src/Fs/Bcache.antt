-- ===== src/Fs/Bcache.antt =====
-- The block cache of a file, cp/fs/bcache.c. An entry's `data` is the block in the page that it
-- points to; an entry is named by its place in the list. `none` is the BUG_ON. The size of a block is
-- 4096 on a mounted volume; a size below 4, by which the code would divide by 0, or above 4096,
-- behind which a pointer may stand outside the page, is not one of the program's.
pub mod Cached
pub mod Added
pub mod Read
pub mod Keeps
pub mod Again
use hvf.Base.{
  ℕ, zero, suc, ◌+◌, ◌-◌, ◌*◌, ◌/◌, ◌%◌, true, false, ◌&&◌, List, [], ◌∷◌, ◌++◌, Option, none, some,
  ltb, ◌==◌, if◌then◌else◌, Bytes, length, get_or, set,
}
use hvf.Errno.{Errno, success, enomem}
use hvf.Fs.Volume.{word, Fst, fop, nlvl, Result, ok, err, Device, Store, asked, bdev_read_block}

-- `struct bcache_entry`
pub record Entry : Type 0 where
  pub level : ℕ
  pub blk : ℕ
  pub lba : ℕ
  pub contents : Option Bytes

-- `struct file`
pub record File : Type 0 where
  pub fst : Fst
  pub bcache : List Entry

-- What an operation on a file leaves.
pub record Done {ℓ} (A : Type ℓ) : Type ℓ where
  pub result : Result A
  pub file : File
  pub store : Store

abbrev pub new_entry : ℕ → ℕ → ℕ → Entry
new_entry level blk lba = record { level = level; blk = blk; lba = lba; contents = none }

-- `__bcache_add`: the result is the new entry, the last of the list.
unfoldable pub add_entry : Device → ℕ → ℕ → ℕ → File → Store → Done ℕ
add_entry dev level blk lba f s =
    if dev.grants s.requests
    then record {
      result = ok (length f.bcache);
      file = record f { bcache = f.bcache ++ new_entry level blk lba ∷ [] };
      store = record (asked s) { structs = s.structs + 1 };
    }
    else record { result = err enomem; file = f; store = asked s }

unfoldable pub bcache_add : Device → ℕ → ℕ → ℕ → File → Store → Errno × File × Store
bcache_add dev level blk lba f s =
    let d = add_entry dev level blk lba f s in
    elim d.result [ ok cur ↦ (success, d.file, d.store) | err e ↦ (e, d.file, d.store) ]

-- The loop over the entries.
unfoldable pub find_entry : ℕ → ℕ → List Entry → Option ℕ
find_entry level blk [] = none
find_entry level blk (e ∷ es) =
    if e.level == level && e.blk == blk
    then some 0
    else elim (find_entry level blk es) [ none ↦ none | some i ↦ some (suc i) ]

-- The entry at a place of the list; no other place is asked for.
abbrev pub entry_at : List Entry → ℕ → Entry
entry_at es i = get_or es i (new_entry 0 0 0)

-- The buffer of an entry, from a page that has been granted.
unfoldable pub fill_entry : Device → ℕ → Entry → File → Store → Done Bytes
fill_entry dev cur e f s = elim (bdev_read_block dev e.lba s) [
  | err x ↦ record { result = err x; file = f; store = asked s }
  | ok buf ↦ record {
    result = ok buf;
    file = record f { bcache = set f.bcache cur (record e { contents = some buf }) };
    store = record (asked s) { pages = s.pages + 1 };
  }
]

-- "found"
unfoldable pub found : Device → ℕ → File → Store → Done Bytes
unfolding fill_entry
found dev cur f s = elim (entry_at f.bcache cur).contents [
  | some buf ↦ record { result = ok buf; file = f; store = s }
  | none ↦
      if dev.grants s.requests
      then fill_entry dev cur (entry_at f.bcache cur) f (asked s)
      else record { result = err enomem; file = f; store = asked s }
]

-- A new entry, and its block.
unfoldable pub add_and_read : Device → ℕ → ℕ → ℕ → File → Store → Done Bytes
unfolding add_entry found
add_and_read dev level blk lba f s =
    let d = add_entry dev level blk lba f s in
    elim d.result [
      | ok cur ↦ found dev cur d.file d.store
      | err e ↦ record { result = err e; file = d.file; store = d.store }
    ]

-- `bcache_read` where `up` levels are above this one, in blocks of `size` bytes. For the top level
-- the entry that is added is that of block 0, whichever block is asked for.
unfoldable pub read_level : Device → ℕ → ℕ → ℕ → ℕ → File → Store → Done Bytes
unfolding find_entry found add_and_read
read_level dev size zero level blk f s = elim (find_entry level blk f.bcache) [
  | some cur ↦ found dev cur f s
  | none ↦ add_and_read dev level 0 (fop f.fst) f s
]
read_level dev size (suc up) level blk f s = elim (find_entry level blk f.bcache) [
  | some cur ↦ found dev cur f s
  | none ↦
      let d = read_level dev size up (suc level) (blk / (size / 4)) f s in
      elim d.result [
        | ok ptrs ↦ add_and_read dev level blk (word ptrs (blk % (size / 4) * 4)) d.file d.store
        | err e ↦ d
      ]
]

unfoldable pub bcache_read : Device → ℕ → ℕ → ℕ → File → Store → Option (Done Bytes)
unfolding read_level
bcache_read dev size level blk f s =
    if ltb (nlvl f.fst) level
    then none
    else some (read_level dev size (nlvl f.fst - level) level blk f s)
