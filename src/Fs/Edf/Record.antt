-- ===== src/Fs/Edf/Record.antt =====
-- `edf_read_rec` of cp/fs/edf.c, on a file of a volume with blocks of `size` bytes, into the
-- storage `out` at `buf`. An assertion that fails is `none`.
pub mod Within
use hvf.Base.{
  ℕ, ◌+◌, ◌-◌, ◌*◌, ◌/◌, ◌%◌, ◌^◌, Bool, not, ◌||◌, Option, none, some, ltb, leb, ◌==◌,
  if◌then◌else◌, Bytes, memcpy,
}
use hvf.Errno.{Errno, success, einval, failed}
use hvf.Fs.Volume.{Fst, recfm, lrecl, aic, nlvl, ptrsz, ok, err, Device, Store}
use hvf.Fs.Bcache.{File, bcache_read}
use hvf.Fs.Edf.{fixed}

pub record RecRead : Type 0 where
  pub ret : Errno
  pub out : Bytes
  pub file : File
  pub store : Store

-- `bcache_read` of a data block, and `memcpy(at, dbuf + off, n)`
pub copy_part : Device → ℕ → ℕ → ℕ → ℕ → ℕ → Bytes → File → Store → Option RecRead
copy_part dev size blk off n at out f s = elim (bcache_read dev size 0 blk f s) [
  | none ↦ none
  | some d ↦ elim d.result [
    | err e ↦ some (record { ret = e; out = out; file = d.file; store = d.store })
    | ok dbuf ↦
        some
          (record { ret = success; out = memcpy out at dbuf off n; file = d.file; store = d.store })
  ]
]

-- The two parts of a record that goes on in the next block.
pub copy_both : Device → ℕ → ℕ → ℕ → ℕ → Bytes → File → Store → Option RecRead
unfolding copy_part
copy_both dev size blk off buf out f s =
    let flen = size - off in
    let slen = lrecl f.fst - flen in
    if not (ltb flen (lrecl f.fst)) || not (ltb slen (lrecl f.fst))
    then none
    else elim (copy_part dev size blk off flen buf out f s) [
      | none ↦ none
      | some r ↦
          if failed r.ret
          then some r
          else copy_part dev size ((blk + 1) % 2 ^ 32) 0 slen (buf + flen) r.out r.file r.store
    ]

-- "unsupported geometry"
abbrev pub unsupported : ℕ → Fst → Bool
unsupported size f =
    not (nlvl f == 0) || not (ptrsz f == 4) || ltb size (lrecl f) || not (recfm f == fixed)

pub edf_read_rec : Device → ℕ → ℕ → ℕ → Bytes → File → Store → Option RecRead
unfolding copy_both
edf_read_rec dev size recno buf out f s =
    let blk = recno * lrecl f.fst % 2 ^ 32 / size in
    let off = recno * lrecl f.fst % 2 ^ 32 % size in
    if unsupported size f.fst || leb (aic f.fst) recno
    then some (record { ret = einval; out = out; file = f; store = s })
    else if ltb size ((off + lrecl f.fst) % 2 ^ 32)
    then copy_both dev size blk off buf out f s
    else copy_part dev size blk off (lrecl f.fst) buf out f s
