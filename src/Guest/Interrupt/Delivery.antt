-- ===== src/Guest/Interrupt/Delivery.antt =====
-- Which interruption is delivered, and what its delivery leaves in the guest.
use hvf.Base.{
  ℕ, zero, suc, ◌+◌, ◌/◌, ◌^◌, ◌∙◌, ◌≤◌, ◌<◌, ◌≡◌, ◌≢◌, refl, ap, ◌⊎◌, inl, inr, Bool, true, false,
  List, [], ◌∷◌, Option, some, ◌==◌, Bytes, memcpy, get_or, arith, Bool-cases,
}
use native.Mathlib.Decide.{ℕ_discrete}
use hvf.Guest.{has, Psw, VioInt, Sys}
use hvf.Guest.Layout.{be32}
use native.Mathlib.Nat.{add-zero}
use hvf.Guest.Layout.RoundTrip.{Stored}
use hvf.Guest.Priv.{zarch}
use hvf.Guest.Interrupt.{
  encode_psw, decode_psw, do_psw_swap, put32, first_enabled, dequeue, deliver, io_int,
}

-- Control register 6 enables subclass `i`.
abbrev pub enabled : ℕ → ℕ → Bool
enabled cr6 i = has cr6 (0x8000_0000 / 2 ^ i)

-- Nothing to deliver of a subclass.
abbrev pub Silent : ℕ → List (List VioInt) → ℕ → Type 0
Silent cr6 queues i = (enabled cr6 i ≡ false) ⊎ (get_or queues i [] ≡ [])

-- The subclass `k` is the first of those from `i` on that is enabled and not empty, and `ioint` is
-- its oldest interruption.
pub record IsFirst (cr6 : ℕ) (queues : List (List VioInt)) (i k : ℕ) (ioint : VioInt) : Type 0 where
  pub from : i ≤ k
  pub on : enabled cr6 k ≡ true
  pub waiting : List VioInt
  pub oldest : get_or queues k [] ≡ ioint ∷ waiting
  pub before : (j : ℕ) → i ≤ j → j < k → Silent cr6 queues j

-- The search goes on behind a subclass with nothing to deliver.
first_enabled-Silent :
    (n i cr6 : ℕ) (queues : List (List VioInt))
    → Silent cr6 queues i
    → first_enabled (suc n) i cr6 queues ≡ first_enabled n (i + 1) cr6 queues
unfolding first_enabled
first_enabled-Silent n i cr6 queues (inl off) = rw off refl
first_enabled-Silent n i cr6 queues (inr empty) = elim (Bool-cases (enabled cr6 i)) [
  | inl e ↦ rw (e, empty) refl
  | inr e ↦ rw e refl
]

first_enabled-on :
    (n i cr6 : ℕ) (queues : List (List VioInt)) (ioint : VioInt) (waiting : List VioInt)
    → enabled cr6 i ≡ true
    → get_or queues i [] ≡ ioint ∷ waiting
    → first_enabled (suc n) i cr6 queues ≡ some (i, ioint)
unfolding first_enabled
first_enabled-on n i cr6 queues ioint waiting on oldest = rw (on, oldest) refl

first_enabled-first :
    (n i cr6 : ℕ) (queues : List (List VioInt)) (k : ℕ) (ioint : VioInt)
    → IsFirst cr6 queues i k ioint
    → k < i + n
    → first_enabled n i cr6 queues ≡ some (k, ioint)
first_enabled-first zero i cr6 queues k ioint f l = absurd (omega (arith, f.from))
first_enabled-first (suc n) i cr6 queues k ioint f l = elim (ℕ_discrete k i) [
  | yes e ↦ rw e (first_enabled-on n i cr6 queues ioint f.waiting (rw e at f.on) (rw e at f.oldest))
  | no ne ↦
      let further : IsFirst cr6 queues (i + 1) k ioint = record {
        from = omega (arith, f.from);
        on = f.on;
        waiting = f.waiting;
        oldest = f.oldest;
        before = λ j h l. f.before j (omega arith) l;
      } in
      first_enabled-Silent n i cr6 queues (f.before i (omega arith) (omega (arith, f.from)))
      ∙ first_enabled-first n (i + 1) cr6 queues k ioint further (omega arith)
]

-- Each bit field of the PSW is below its width's power of two.
pub record FitsPsw (p : Psw) : Type 0 where
  pub r : p.r < 2
  pub t : p.t < 2
  pub io : p.io < 2
  pub ex : p.ex < 2
  pub key : p.key < 16
  pub fmt : p.fmt < 2
  pub m : p.m < 2
  pub w : p.w < 2
  pub p_ : p.p < 2
  pub asc : p.asc < 4
  pub cc : p.cc < 4
  pub prog_mask : p.prog_mask < 16
  pub ea : p.ea < 2
  pub ba : p.ba < 2
  pub ptr31 : p.ptr31 < 2 ^ 31
  pub ptr : p.ptr < 2 ^ 64

decode-encode_psw :
    (p : Psw) (m : Bytes) (a : ℕ) → FitsPsw p → Stored m a 16 (encode_psw p) → decode_psw m a ≡ p
unfolding decode_psw encode_psw
decode-encode_psw p m a fits at = ground (
  arith,
  add-zero a,
  at 0 (omega arith),
  at 1 (omega arith),
  at 2 (omega arith),
  at 3 (omega arith),
  at 4 (omega arith),
  at 5 (omega arith),
  at 6 (omega arith),
  at 7 (omega arith),
  at 8 (omega arith),
  at 9 (omega arith),
  at 10 (omega arith),
  at 11 (omega arith),
  at 12 (omega arith),
  at 13 (omega arith),
  at 14 (omega arith),
  at 15 (omega arith),
)

-- The new PSW of a z/Architecture guest comes from offset 0x1f0 of its first page.
decode_swapped :
    (p : Psw) (m : Bytes) (a : ℕ) → decode_psw (memcpy (encode_psw p) 0 m a 16) 0 ≡ decode_psw m a
unfolding decode_psw
decode_swapped p m a = ground (arith, add-zero a)

-- Storage with the old PSW and the three words of an interruption in the page at `phy`.
abbrev pub interrupted : Bytes → ℕ → Psw → VioInt → Bytes
interrupted m phy p ioint =
    put32
      (put32 (put32 (memcpy m (phy + 0x170) (encode_psw p) 0 16) (phy + 184) ioint.ssid) (phy + 188)
        ioint.param)
      (phy + 192) ioint.intid

interrupted-Stored :
    (m : Bytes) (phy : ℕ) (p : Psw) (ioint : VioInt)
    → Stored (interrupted m phy p ioint) (phy + 0x170) 16 (encode_psw p)
interrupted-Stored m phy p ioint i h = ground arith

interrupted_words :
    (m : Bytes) (phy : ℕ) (p : Psw) (ioint : VioInt)
    → (ioint.ssid < 2 ^ 32) × (ioint.param < 2 ^ 32) × (ioint.intid < 2 ^ 32)
    → (be32 (interrupted m phy p ioint) (phy + 184) ≡ ioint.ssid)
      × (be32 (interrupted m phy p ioint) (phy + 188) ≡ ioint.param)
      × (be32 (interrupted m phy p ioint) (phy + 192) ≡ ioint.intid)
interrupted_words m phy p ioint fits = (ground arith, ground arith, ground arith)

new_psw_kept :
    (m : Bytes) (phy : ℕ) (p : Bytes)
    → decode_psw (memcpy m (phy + 0x170) p 0 16) (phy + 0x1f0) ≡ decode_psw m (phy + 0x1f0)
unfolding decode_psw
new_psw_kept m phy p = ground arith

deliver-interrupted :
    (phy : ℕ) (ioint : VioInt) (sys : Sys)
    → zarch sys.cpu ≡ true
    → deliver phy ioint sys ≡ record sys {
      storage = interrupted sys.storage phy sys.cpu.gpsw ioint;
      cpu = record sys.cpu { gpsw = decode_psw sys.storage (phy + 0x1f0) };
    }
unfolding deliver do_psw_swap
deliver-interrupted phy ioint sys arch =
    let p = sys.cpu.gpsw in
    let new =
      decode_swapped p (memcpy sys.storage (phy + 0x170) (encode_psw p) 0 16) (phy + 0x1f0)
      ∙ new_psw_kept sys.storage phy (encode_psw p) in
    rw arch (
      ap
        (λ q. record sys {
          storage = interrupted sys.storage phy sys.cpu.gpsw ioint;
          cpu = record sys.cpu { gpsw = q };
        })
        new)

is_zero : (n : ℕ) → (n == 0) ≡ true → n ≡ 0
is_zero n h = ground arith

module _ (lra : ℕ → Option ℕ) (sys : Sys) (k : ℕ) (ioint : VioInt) (phy : ℕ) where
  abbrev after : Sys
  after = record sys {
    storage = interrupted sys.storage phy sys.cpu.gpsw ioint;
    cpu = record sys.cpu {
      gpsw = decode_psw sys.storage (phy + 0x1f0);
      int_io = dequeue sys.cpu.int_io k;
    };
  }

  runs :
      zarch sys.cpu ≡ true
      → sys.cpu.gpsw.io ≢ 0
      → lra 0 ≡ some phy
      → first_enabled 8 0 (sys.cpu.gcr 6) sys.cpu.int_io ≡ some (k, ioint)
      → io_int lra sys ≡ (true, after)
  unfolding io_int
  runs arch open_ page first =
      let taken = record sys { cpu = record sys.cpu { int_io = dequeue sys.cpu.int_io k } } in
      let d = deliver-interrupted phy ioint taken arch in
      elim (Bool-cases (sys.cpu.gpsw.io == 0)) [
        | inl e ↦ absurd (open_ (is_zero _ e))
        | inr e ↦ rw (e, first, page) (ap (λ s. (true, s)) d)
      ]

  -- Let a z/Architecture guest be enabled for I/O interruptions, with its first page at `phy`, a PSW
  -- whose fields fit, and `k` the lowest-numbered subclass that control register 6 enables and that
  -- has an interruption. It gets the oldest one of that subclass, `ioint`, of three 32-bit words.
  -- It leaves its queue; the guest goes on at the new PSW of offset 0x1f0, its old PSW stands at
  -- 0x170, and the interruption's three words at 184, 188 and 192.
  pub io_int-IsFirst :
      zarch sys.cpu ≡ true
      → sys.cpu.gpsw.io ≢ 0
      → lra 0 ≡ some phy
      → IsFirst (sys.cpu.gcr 6) sys.cpu.int_io 0 k ioint
      → k < 8
      → FitsPsw sys.cpu.gpsw
      → (ioint.ssid < 2 ^ 32) × (ioint.param < 2 ^ 32) × (ioint.intid < 2 ^ 32)
      → (sys' : Sys) × (io_int lra sys ≡ (true, sys'))
        × (sys'.cpu.int_io ≡ dequeue sys.cpu.int_io k)
        × (sys'.cpu.gpsw ≡ decode_psw sys.storage (phy + 0x1f0))
        × (decode_psw sys'.storage (phy + 0x170) ≡ sys.cpu.gpsw)
        × (be32 sys'.storage (phy + 184) ≡ ioint.ssid)
        × (be32 sys'.storage (phy + 188) ≡ ioint.param)
        × (be32 sys'.storage (phy + 192) ≡ ioint.intid)
  io_int-IsFirst arch open_ page first small fits words =
      let found = first_enabled-first 8 0 (sys.cpu.gcr 6) sys.cpu.int_io k ioint first small in
      let w = interrupted_words sys.storage phy sys.cpu.gpsw ioint words in
      (
        after,
        runs arch open_ page found,
        refl,
        refl,
        decode-encode_psw sys.cpu.gpsw _ (phy + 0x170) fits
            (interrupted-Stored sys.storage phy sys.cpu.gpsw ioint),
        w.0,
        w.1,
        w.2,
      )
