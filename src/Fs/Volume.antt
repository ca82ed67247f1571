-- ===== src/Fs/Volume.antt =====
-- What the EDF file system works on: cp/include/edf.h, and `bdev_read_block` of cp/fs/bdev.c. The
-- label (ADT) and a directory entry (FST) are their bytes, as they stand on the disk.
-- `Device` is what the code asks: by the number of the request, whether the allocator grants it and
-- what the driver's `read` returns. `Store` counts the requests, and what is allocated. Messages
-- and the mutexes, which each operation holds throughout, are left out.
use hvf.Base.{
  inr, Bool-cases, inl, ℕ, ◌+◌, ◌*◌, ◌≡◌, ◌⊎◌, inl, inr, refl, Bool-cases, Bool, true, false, List,
  if◌then◌else◌, Bytes, bytes_at,
}
use hvf.Errno.{Errno, enomem, einval, failed}

-- A big-endian `u32`
unfoldable pub word : Bytes → ℕ → ℕ
word m a = ((m a * 256 + m (a + 1)) * 256 + m (a + 2)) * 256 + m (a + 3)

-- `struct ADT`
abbrev pub Adt : Type 0
Adt = Bytes

unfoldable pub ident : Adt → ℕ
ident t = word t 0

unfoldable pub dbsiz : Adt → ℕ
dbsiz t = word t 12

unfoldable pub dop : Adt → ℕ
dop t = word t 16

unfoldable pub fstsz : Adt → ℕ
fstsz t = word t 36

unfoldable pub nfst : Adt → ℕ
nfst t = word t 40

unfoldable pub offst : Adt → ℕ
offst t = word t 52

-- `struct FST`, 64 bytes
abbrev pub Fst : Type 0
Fst = Bytes

abbrev pub fst_size : ℕ
fst_size = 64

unfoldable pub fname : Fst → List ℕ
fname f = bytes_at f 0 8

unfoldable pub ftype : Fst → List ℕ
ftype f = bytes_at f 8 8

unfoldable pub recfm : Fst → ℕ
recfm f = f 30

unfoldable pub lrecl : Fst → ℕ
lrecl f = word f 32

-- The file origin pointer.
unfoldable pub fop : Fst → ℕ
fop f = word f 40

-- How many data blocks, and how many records.
unfoldable pub adbc : Fst → ℕ
adbc f = word f 44

unfoldable pub aic : Fst → ℕ
aic f = word f 48

-- How many levels of pointer blocks.
unfoldable pub nlvl : Fst → ℕ
nlvl f = f 52

unfoldable pub ptrsz : Fst → ℕ
ptrsz f = f 53

-- A result that is a pointer: a valid one, or ERR_PTR of an error.
pub data Result {ℓ} (A : Type ℓ) : Type ℓ where
  ok : A → Result A
  err : Errno → Result A

pub Result-cases {ℓ} :
    {A : Type ℓ} (r : Result A) → ((a : A) × (r ≡ ok a)) ⊎ ((e : Errno) × (r ≡ err e))
Result-cases (ok a) = inl (a, refl)
Result-cases (err e) = inr (e, refl)

pub record Device : Type 0 where
  pub has_read : Bool
  -- the answer of the driver to the n-th request, which is a read of a block
  pub answer : ℕ → ℕ → Errno
  pub disk : ℕ → Bytes
  -- whether the allocator grants the n-th request
  pub grants : ℕ → Bool

pub record Store : Type 0 where
  pub requests : ℕ
  pub structs : ℕ
  pub pages : ℕ

abbrev pub asked : Store → Store
asked s = record s { requests = s.requests + 1 }

-- The block that is read into the buffer, or the error.
unfoldable pub bdev_read_block : Device → ℕ → Store → Result Bytes
bdev_read_block dev lba s =
    if dev.has_read
    then if failed (dev.answer s.requests lba)
      then err (dev.answer s.requests lba)
      else ok (dev.disk lba)
    else err einval

-- `error` is that of a request of the kinds above that is refused.
pub data Refused (dev : Device) : Errno → Type 0 where
  no_memory : (n : ℕ) → dev.grants n ≡ false → Refused dev enomem
  no_read : dev.has_read ≡ false → Refused dev einval
  read_failed : (n lba : ℕ) → failed (dev.answer n lba) ≡ true → Refused dev (dev.answer n lba)

-- A read gives the block, or the driver has refused it.
pub bdev_read_block_lem :
    (dev : Device) (lba : ℕ) (s : Store)
    → (bdev_read_block dev lba s ≡ ok (dev.disk lba))
      ⊎ ((e : Errno) × (bdev_read_block dev lba s ≡ err e) × Refused dev e)
unfolding bdev_read_block
bdev_read_block_lem dev lba s = elim (Bool-cases dev.has_read) [
  | inr h ↦ inr (einval, rw h refl, no_read h)
  | inl h ↦ elim (Bool-cases (failed (dev.answer s.requests lba))) [
    | inl f ↦ inr (dev.answer s.requests lba, rw (h, f) refl, read_failed s.requests lba f)
    | inr f ↦ inl (rw (h, f) refl)
  ]
]
