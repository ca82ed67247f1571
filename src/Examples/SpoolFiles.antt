-- ===== src/Examples/SpoolFiles.antt =====
-- A record of two characters goes into a new spool file, and comes out of one.
use hvf.Base.{◌-◌, ℕ, ◌≡◌, refl, List, [], ◌∷◌, ◌++◌, some, Bytes, get_or, arith}
use hvf.Fs.Spool.{SpoolFile, alloc_spool, Appended, spool_append_rec, Grabbed, spool_grab_rec}
use hvf.Fs.Spool.Fifo.{
  Queue, no_page, one_page, Enqueued, Dequeued, spool_append-Queue, spool_grab-Queue,
}
use hvf.Examples.Fixtures.{zeros}

abbrev hi : List ℕ
hi = 72 ∷ 73 ∷ []

-- "HI" at address 100.
abbrev memory : Bytes
memory a = get_or hi (a - 100) 0

spool_append-Queue_example :
    (a : Appended) × (spool_append_rec zeros 5 alloc_spool memory 100 2 ≡ some a)
    × Enqueued a ([] ++ hi ∷ [])
spool_append-Queue_example =
    spool_append-Queue zeros 5 alloc_spool [] memory 100 hi (no_page 0 refl) (omega arith)
      (omega arith) (λ e. omega arith) (omega arith) (λ i l. ground arith)

-- A page with that record at its start.
abbrev first_page : Bytes
first_page a = get_or (0 ∷ 2 ∷ hi) a 0

abbrev one_record : SpoolFile
one_record = record { list = first_page ∷ []; recs = 1; pages = 1; frecoff = 0; lrecoff = 4 }

one_record-Queue : Queue one_record (hi ∷ [])
one_record-Queue =
    one_page first_page 0 4 (hi ∷ []) refl (omega arith)
      (record { is_len = refl; some_bytes = omega arith; bytes = λ i l. ground arith }, refl)

spool_grab-Queue_example :
    (g : Grabbed) × (spool_grab_rec one_record zeros 200 80 ≡ some g) × Dequeued g 200 80 hi []
spool_grab-Queue_example =
    spool_grab-Queue one_record zeros 200 80 hi [] one_record-Queue (omega arith) (omega arith)
