-- ===== src/Examples/Volumes.antt =====
-- A volume with a directory in block 5, a file of three records of two bytes in block 7, and a file
-- with a pointer block, 9.
use hvf.Base.{
  ◌-◌, ◌+◌, ℕ, ◌≡◌, refl, inl, arith, true, List, [], ◌∷◌, some, ◌==◌, if◌then◌else◌, Bytes, ◌⊎◌,
}
use hvf.Errno.{success}
use hvf.Fs.Volume.{
  word, nfst, Fst, fop, nlvl, ok, Device, Store, lrecl, aic, recfm, ptrsz, bdev_read_block,
}
use hvf.Fs.Bcache.{
  File, Done, bcache_read, read_level, found, fill_entry, find_entry, new_entry, add_and_read,
  add_entry,
}
use hvf.Fs.Bcache.Cached.{Reads, lba_at}
use hvf.Fs.Bcache.Read.{bcache_read-Reads}
use hvf.Fs.Bcache.Again.{bcache_read_again}
use hvf.Fs.Edf.{FileSystem, Made, block_size, fst_at, edf_lookup, edf_mount}
use hvf.Fs.Edf.Record.{RecRead, edf_read_rec}
use hvf.Fs.Edf.Record.Within.{edf_read_rec-Reads, Outcome}
use hvf.Fs.Edf.Lookup.{First, Named}
use hvf.Fs.Edf.Lookup.Found.{Looked, edf_lookup-Looked}
use hvf.Fs.Edf.Mount.Ready.{Mounting, edf_mount-Mounting}
use hvf.Examples.Fixtures.{zeros}

-- Storage that is zero but at these addresses.
abbrev sparse : List (ℕ × ℕ) → Bytes
sparse [] a = 0
sparse ((k, v) ∷ rest) a = if a == k then v else sparse rest a

abbrev label_block : Bytes
label_block =
    sparse
      ((0, 0xc3) ∷ (1, 0xd4) ∷ (2, 0xe2) ∷ (3, 0xf1) ∷ (14, 16) ∷ (19, 5) ∷ (39, 64) ∷ (43, 3) ∷ [])

abbrev director : List (ℕ × ℕ)
director =
    (3, 1)
    ∷ (8, 0xc4)
    ∷ (9, 0xc9)
    ∷ (10, 0xd9)
    ∷ (11, 0xc5)
    ∷ (12, 0xc3)
    ∷ (13, 0xe3)
    ∷ (14, 0xd6)
    ∷ (15, 0xd9)
    ∷ (30, 0xc6)
    ∷ (43, 5)
    ∷ (47, 1)
    ∷ []

abbrev allocmap : List (ℕ × ℕ)
allocmap =
    (67, 2)
    ∷ (72, 0xc1)
    ∷ (73, 0xd3)
    ∷ (74, 0xd3)
    ∷ (75, 0xd6)
    ∷ (76, 0xc3)
    ∷ (77, 0xd4)
    ∷ (78, 0xc1)
    ∷ (79, 0xd7)
    ∷ (94, 0xc6)
    ∷ []

-- The entry of a file with three records in block 7.
abbrev small_file : Fst
small_file =
    sparse ((0, 65) ∷ (8, 66) ∷ (30, 0xc6) ∷ (35, 2) ∷ (43, 7) ∷ (47, 1) ∷ (51, 3) ∷ (53, 4) ∷ [])

abbrev dir_block : Bytes
dir_block a =
    if a == 128 then 65 else if a == 136 then 66 else sparse director a + sparse allocmap a

abbrev disk : ℕ → Bytes
disk lba =
    if lba == 3
    then label_block
    else if lba == 5
    then dir_block
    else if lba == 9
    then sparse ((7, 7) ∷ [])
    else sparse ((0, 1) ∷ (1, 2) ∷ (2, 3) ∷ (3, 4) ∷ (4, 5) ∷ (5, 6) ∷ [])

abbrev dasd : Device
dasd = record { has_read = true; answer = λ n lba. success; disk = disk; grants = λ n. true }

-- A file whose second block is block 7, by the pointer block 9.
abbrev large_file : File
large_file = record { fst = sparse ((43, 9) ∷ (52, 1) ∷ []); bcache = [] }

abbrev fresh_store : Store
fresh_store = record { requests = 0; structs = 0; pages = 0 }

bcache_read-Reads_example :
    (d : Done Bytes) × (bcache_read dasd 4096 0 1 large_file fresh_store ≡ some d)
    × Reads dasd 4096
        (disk (lba_at dasd 4096 large_file.fst (nlvl large_file.fst - 0) 1))
        large_file
        fresh_store
        d
bcache_read-Reads_example =
    bcache_read-Reads dasd 4096 0 1 large_file fresh_store (omega arith) (omega arith) tt
      (omega arith)

abbrev after_read : Done Bytes
after_read = record {
  result = ok (disk 7);
  file = record large_file {
    bcache =
        record (new_entry 1 0 9) { contents = some (disk 9) }
        ∷ record (new_entry 0 1 7) { contents = some (disk 7) }
        ∷ [];
  };
  store = record { requests = 6; structs = 2; pages = 2 };
}

bcache_read_again_example :
    bcache_read dasd 4096 0 1 after_read.file fresh_store
    ≡ some (record { result = ok (disk 7); file = after_read.file; store = fresh_store })
unfolding bcache_read read_level found fill_entry find_entry add_and_read add_entry bdev_read_block
    word fop nlvl
bcache_read_again_example =
    bcache_read_again dasd 4096 0 1 large_file fresh_store fresh_store after_read (disk 7) tt
      (omega arith) (inl (omega arith)) refl refl

abbrev records : File
records = record { fst = small_file; bcache = [] }

-- The last record, to address 100.
edf_read_rec-Reads_example :
    (r : RecRead) × (edf_read_rec dasd block_size 2 100 zeros records fresh_store ≡ some r)
    × Outcome dasd 2 100 zeros records fresh_store r
unfolding aic nlvl ptrsz lrecl recfm word
edf_read_rec-Reads_example =
    edf_read_rec-Reads dasd 2 100 zeros records fresh_store tt refl (omega arith)

abbrev dir_file : File
dir_file = record { fst = fst_at dir_block 0; bcache = [] }

abbrev volume : FileSystem
volume = record { adt = label_block; files = 0 ∷ []; dir = 0; file = λ j. dir_file }

abbrev used_store : Store
used_store = record { requests = 1; structs = 3; pages = 1 }

abbrev same : ℕ → ℕ
same c = c

edf_lookup-Looked_example :
    (r : Made ℕ) × (edf_lookup same dasd
        (sparse ((0, 65) ∷ []))
        (sparse ((0, 66) ∷ []))
        volume
        used_store
      ≡ some r)
    × (((id : ℕ) × (r ≡ record { result = ok id; fs = volume; store = used_store })
          × First
              (λ j.
                Named
                  (65 ∷ 0 ∷ 0 ∷ 0 ∷ 0 ∷ 0 ∷ 0 ∷ 0 ∷ [])
                  (66 ∷ 0 ∷ 0 ∷ 0 ∷ 0 ∷ 0 ∷ 0 ∷ 0 ∷ [])
                  (volume.file j).fst)
              volume.files
              id)
        ⊎ (((¬ Named
                (65 ∷ 0 ∷ 0 ∷ 0 ∷ 0 ∷ 0 ∷ 0 ∷ 0 ∷ [])
                (66 ∷ 0 ∷ 0 ∷ 0 ∷ 0 ∷ 0 ∷ 0 ∷ 0 ∷ [])
                dir_file.fst)
              × Unit {0})
            × Looked dasd
                (65 ∷ 0 ∷ 0 ∷ 0 ∷ 0 ∷ 0 ∷ 0 ∷ 0 ∷ [])
                (66 ∷ 0 ∷ 0 ∷ 0 ∷ 0 ∷ 0 ∷ 0 ∷ 0 ∷ [])
                volume
                used_store
                r))
unfolding nfst word
edf_lookup-Looked_example =
    edf_lookup-Looked dasd volume used_store
      (record { dir_earlier = (omega arith, tt); files_earlier = ((omega arith, tt), tt) }) same
      (sparse ((0, 65) ∷ [])) (sparse ((0, 66) ∷ [])) (omega arith)

edf_mount-Mounting_example : Mounting dasd fresh_store (edf_mount dasd volume fresh_store)
edf_mount-Mounting_example = edf_mount-Mounting dasd volume fresh_store
