-- ===== src/Mm/Dat.antt =====
-- `__memcpy_tofrom_guest` of cp/mm/dat.c: copy between a buffer of CP and guest storage.
-- `virt2phy_current` is the LRA instruction, a parameter: `none` is its condition code other than
-- 0. Guest storage is indexed by host real addresses, and no CP buffer lies in it.
pub mod Transfer
use hvf.Base.{
  ℕ, zero, suc, ◌+◌, ◌-◌, ◌%◌, Bool, true, false, Option, none, some, ◌==◌, if◌then◌else◌, Bytes,
  memcpy, min,
}

abbrev pub page_size : ℕ
page_size = 4096

-- Which way `from` says: `memcpy_from_guest` or `memcpy_to_guest`.
pub data Direction : Type 0 where
  to_guest from_guest : Direction

-- `ret`, `*len` counting down, `copied`, guest storage and the storage of the buffer.
pub record Copy : Type 0 where
  pub fault : Bool
  pub left : ℕ
  pub copied : ℕ
  pub guest : Bytes
  pub buffer : Bytes

-- One round: the bytes up to the end of the page at `host`, or what is left.
unfoldable pub copy_round : Direction → ℕ → ℕ → Copy → Copy
copy_round way base host c =
    let n = min (page_size - host % page_size) c.left in
    let c' = record c { left = c.left - n; copied = c.copied + n } in
    elim way [
      | to_guest ↦ record c' { guest = memcpy c.guest host c.buffer (base + c.copied) n }
      | from_guest ↦ record c' { buffer = memcpy c.buffer (base + c.copied) c.guest host n }
    ]

abbrev pub started : ℕ → Bytes → Bytes → Copy
started len guest buffer = record {
  fault = false;
  left = len;
  copied = 0;
  guest = guest;
  buffer = buffer;
}

module _ (lra : ℕ → Option ℕ) where
  -- The loop, on fuel; `guest_addr` is the same in each round.
  unfoldable pub copy_loop : Direction → ℕ → ℕ → ℕ → Copy → Copy
  copy_loop way zero guest_addr base c = c
  copy_loop way (suc fuel) guest_addr base c = elim (c.left == 0) [
    | true ↦ c
    | false ↦ elim (lra guest_addr) [
      | none ↦ record c { fault = true }
      | some host ↦ copy_loop way fuel guest_addr base (copy_round way base host c)
    ]
  ]

  -- The length bounds the rounds, since each round copies a byte or more.
  unfoldable pub memcpy_tofrom_guest : Direction → ℕ → ℕ → ℕ → Bytes → Bytes → Copy
  memcpy_tofrom_guest way guest_addr base len guest buffer =
      copy_loop way len guest_addr base (started len guest buffer)
