-- ===== src/Guest/Interrupt.antt =====
-- I/O interruption of the guest and the entry of `run_guest`, cp/guest/run.c. The SIE instruction
-- itself is not modelled. `lra` translates guest addresses.
pub mod Delivery
use hvf.Base.{
  ℕ, zero, suc, ◌+◌, ◌-◌, ◌*◌, ◌/◌, ◌%◌, ◌^◌, ◌≤◌, ◌<◌, ◌≡◌, ◌≢◌, refl, ap, Bool, true, false, not,
  ◌&&◌, ◌||◌, List, [], ◌∷◌, Option, none, some, ltb, leb, ◌==◌, if◌then◌else◌, Bytes, put, memcpy,
  bit_and, set, get_or, arith, Bool-cases,
}
use hvf.Guest.{has, CpuState, stopped, Psw, VioInt, Cpu, Sys, set_state}
use hvf.Guest.Layout.{be32}
use hvf.Guest.Priv.{zarch}

-- The 16 bytes of a `struct psw` (include/arch.h), and the PSW that stands at an address.
pub encode_psw : Psw → Bytes
encode_psw p i = get_or bytes i 0
  where
    bytes : List ℕ
    bytes =
        (p.r * 64 + p.t * 4 + p.io * 2 + p.ex)
        ∷ (p.key * 16 + p.fmt * 8 + p.m * 4 + p.w * 2 + p.p)
        ∷ (p.asc * 64 + p.cc * 16 + p.prog_mask)
        ∷ p.ea
        ∷ (p.ba * 128 + p.ptr31 / 2 ^ 24)
        ∷ (p.ptr31 / 2 ^ 16 % 256)
        ∷ (p.ptr31 / 2 ^ 8 % 256)
        ∷ (p.ptr31 % 256)
        ∷ (p.ptr / 2 ^ 56)
        ∷ (p.ptr / 2 ^ 48 % 256)
        ∷ (p.ptr / 2 ^ 40 % 256)
        ∷ (p.ptr / 2 ^ 32 % 256)
        ∷ (p.ptr / 2 ^ 24 % 256)
        ∷ (p.ptr / 2 ^ 16 % 256)
        ∷ (p.ptr / 2 ^ 8 % 256)
        ∷ (p.ptr % 256)
        ∷ []

pub decode_psw : Bytes → ℕ → Psw
decode_psw m a = record {
  r = m a / 64 % 2;
  t = m a / 4 % 2;
  io = m a / 2 % 2;
  ex = m a % 2;
  key = m (a + 1) / 16;
  fmt = m (a + 1) / 8 % 2;
  m = m (a + 1) / 4 % 2;
  w = m (a + 1) / 2 % 2;
  p = m (a + 1) % 2;
  asc = m (a + 2) / 64;
  cc = m (a + 2) / 16 % 4;
  prog_mask = m (a + 2) % 16;
  ea = m (a + 3) % 2;
  ba = m (a + 4) / 128;
  ptr31 = be32 m (a + 4) % 2 ^ 31;
  ptr = be32 m (a + 8) * 2 ^ 32 + be32 m (a + 12);
}

-- `__do_psw_swap` on the guest's first page at `gpsa`, `len` bytes of the PSW.
pub do_psw_swap : ℕ → ℕ → ℕ → ℕ → Sys → Sys
unfolding encode_psw decode_psw
do_psw_swap gpsa old new len sys =
    let saved = memcpy sys.storage (gpsa + old) (encode_psw sys.cpu.gpsw) 0 len in
    let loaded = memcpy (encode_psw sys.cpu.gpsw) 0 saved (gpsa + new) len in
    record sys { storage = saved; cpu = record sys.cpu { gpsw = decode_psw loaded 0 } }

-- `*((u32*) a) = v`
abbrev pub put32 : Bytes → ℕ → ℕ → Bytes
put32 m a v =
    put
      (put (put (put m a (v / 2 ^ 24 % 256)) (a + 1) (v / 2 ^ 16 % 256)) (a + 2) (v / 2 ^ 8 % 256))
      (a + 3) (v % 256)

-- The loop over the subclasses from `i` on, `n` of them: the first that control register 6 enables
-- and that has an interruption.
unfoldable pub first_enabled : ℕ → ℕ → ℕ → List (List VioInt) → Option (ℕ × VioInt)
first_enabled zero i cr6 queues = none
first_enabled (suc n) i cr6 queues =
    let rest = first_enabled n (i + 1) cr6 queues in
    if not (has cr6 (0x8000_0000 / 2 ^ i))
    then rest
    else elim (get_or queues i []) [ [] ↦ rest | ioint ∷ waiting ↦ some (i, ioint) ]

-- `list_del` of the first interruption of a subclass.
abbrev pub dequeue : List (List VioInt) → ℕ → List (List VioInt)
dequeue queues i = set queues i (elim (get_or queues i []) [ [] ↦ [] | ioint ∷ waiting ↦ waiting ])

-- The PSW swap and the interruption's three words in the guest's first page at `phy`.
pub deliver : ℕ → VioInt → Sys → Sys
unfolding do_psw_swap
deliver phy ioint sys =
    let swapped =
      if zarch sys.cpu then do_psw_swap phy 0x170 0x1f0 16 sys else do_psw_swap phy 56 120 8 sys in
    record swapped {
      storage =
          put32 (put32 (put32 swapped.storage (phy + 184) ioint.ssid) (phy + 188) ioint.param)
            (phy + 192) ioint.intid;
    }

module _ (lra : ℕ → Option ℕ) where
  -- `__io_int`: whether an interruption was delivered. If the guest's first page does not
  -- translate, the CPU is stopped and the interruption is lost.
  pub io_int : Sys → Bool × Sys
  unfolding first_enabled deliver
  io_int sys =
      if sys.cpu.gpsw.io == 0
      then (false, sys)
      else elim (first_enabled 8 0 (sys.cpu.gcr 6) sys.cpu.int_io) [
        | none ↦ (false, sys)
        | some (i, ioint) ↦
            let taken = record sys { cpu = record sys.cpu { int_io = dequeue sys.cpu.int_io i } } in
            elim (lra 0) [
              | none ↦ (false, set_state stopped taken)
              | some phy ↦ (true, deliver phy ioint taken)
            ]
      ]

  -- What `run_guest` does next: enter SIE, give up the CPU, or return to the shell.
  pub data Entry : Type 0 where
    sie schedule return : Entry

  pub run_guest : Sys → Entry × Sys
  unfolding io_int
  run_guest sys =
      let (delivered, sys') = io_int sys in
      let psw = sys'.cpu.gpsw in
      if delivered
      then (sie, sys')
      else if not (psw.w == 0)
      then (if psw.io == 0 && (psw.ex == 0) && (psw.m == 0)
          then (return, set_state stopped sys')
          else (schedule, sys'))
      else (sie, sys')
