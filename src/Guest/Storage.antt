-- ===== src/Guest/Storage.antt =====
-- The storage of a guest, `alloc_guest_storage` of cp/guest/init.c.
pub mod Mapped
use hvf.Base.{[], ◌/◌, ℕ, zero, suc, ◌*◌, List, ◌∷◌, none, some}
use hvf.Mm.Buddy.{page, nothing, out_of_array, normal, alloc_pages}
use hvf.Mm.Tables.{AddressSpace, Memory, dat_insert_page}

-- `sys->as`, the free pages with storage, and `sys->guest_pages`.
pub record Storage : Type 0 where
  pub space : AddressSpace
  pub memory : Memory
  pub guest_pages : List ℕ

-- `return 0`, `return -ENOMEM`, and BUG.
pub data Outcome : Type 0 where
  done : Storage → Outcome
  enomem : Storage → Outcome
  bug : Outcome

-- The loop, on the pages that are left.
unfoldable pub alloc_guest_pages : ℕ → Storage → Outcome
alloc_guest_pages zero s = done s
alloc_guest_pages (suc pages) s = elim (alloc_pages 0 normal s.memory.zones) [
  | nothing ↦ enomem s
  | out_of_array ↦ bug
  | page p z ↦
      elim (dat_insert_page s.space (p * 4096) (pages * 4096)
        (record { zones = z; dwords = s.memory.dwords })) [
          | none ↦ bug
          | some (space, m) ↦
              alloc_guest_pages pages
                (record { space = space; memory = m; guest_pages = p ∷ s.guest_pages })
        ]
]

-- `INIT_LIST_HEAD(&sys->guest_pages)` forgets the pages that were in the list.
unfoldable pub alloc_guest_storage : ℕ → Storage → Outcome
unfolding alloc_guest_pages
alloc_guest_storage storage_size s =
    alloc_guest_pages (storage_size / 4096) (record s { guest_pages = [] })
