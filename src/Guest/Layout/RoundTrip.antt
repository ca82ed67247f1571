-- ===== src/Guest/Layout/RoundTrip.antt =====
-- Reading back a `struct scsw` or a `struct pmcw` that was stored.
use hvf.Base.{ℕ, ◌+◌, ◌^◌, ◌<◌, ◌≡◌, Bytes, arith}
use native.Mathlib.Nat.{add-zero}
use hvf.Guest.{Pmcw, Scsw}
use hvf.Guest.Layout.{decode_pmcw, encode_pmcw, decode_scsw, encode_scsw}

-- The bytes `e` stand at `a`, `n` of them.
abbrev pub Stored : Bytes → ℕ → ℕ → Bytes → Type 0
Stored m a n e = (i : ℕ) → i < n → m (a + i) ≡ e i

-- Each bit field is below its width's power of two.
pub record FitsScsw (w : Scsw) : Type 0 where
  pub key : w.key < 16
  pub s : w.s < 2
  pub l : w.l < 2
  pub cc : w.cc < 4
  pub f : w.f < 2
  pub p : w.p < 2
  pub i : w.i < 2
  pub a : w.a < 2
  pub u : w.u < 2
  pub z : w.z < 2
  pub e : w.e < 2
  pub n : w.n < 2
  pub fc : w.fc < 8
  pub ac : w.ac < 128
  pub sc : w.sc < 32
  pub addr : w.addr < 2 ^ 32
  pub dev_status : w.dev_status < 256
  pub sch_status : w.sch_status < 256
  pub count : w.count < 65536

-- Reading a `struct scsw` back from where its bytes were stored gives the same fields.
pub decode-encode_scsw :
    (w : Scsw) (m : Bytes) (a : ℕ)
    → FitsScsw w
    → Stored m a 12 (encode_scsw w)
    → decode_scsw m a ≡ w
unfolding decode_scsw encode_scsw
decode-encode_scsw w m a fits at = ground (
  arith,
  add-zero a,
  at 0 (omega arith),
  at 1 (omega arith),
  at 2 (omega arith),
  at 3 (omega arith),
  at 4 (omega arith),
  at 5 (omega arith),
  at 6 (omega arith),
  at 7 (omega arith),
  at 8 (omega arith),
  at 9 (omega arith),
  at 10 (omega arith),
  at 11 (omega arith),
)

pub record FitsPmcw (p : Pmcw) : Type 0 where
  pub interrupt_param : p.interrupt_param < 2 ^ 32
  pub isc : p.isc < 8
  pub e : p.e < 2
  pub lm : p.lm < 4
  pub mm : p.mm < 4
  pub d : p.d < 2
  pub t : p.t < 2
  pub v : p.v < 2
  pub dev_num : p.dev_num < 65536
  pub mbi : p.mbi < 65536
  pub f : p.f < 2
  pub x : p.x < 2
  pub s : p.s < 2

-- The same fields, the eight channel-path identifiers included.
pub record SamePmcw (p q : Pmcw) : Type 0 where
  pub rest : record p { chpid = q.chpid } ≡ q
  pub chpid : (i : ℕ) → i < 8 → p.chpid i ≡ q.chpid i

-- Reading a `struct pmcw` back from where its bytes were stored gives the same fields.
pub decode-encode_pmcw :
    (p : Pmcw) (m : Bytes) (a : ℕ)
    → FitsPmcw p
    → Stored m a 28 (encode_pmcw p)
    → SamePmcw (decode_pmcw m a) p
unfolding decode_pmcw encode_pmcw
decode-encode_pmcw p m a fits at = record {
  rest = ground (
    arith,
    add-zero a,
    at 0 (omega arith),
    at 1 (omega arith),
    at 2 (omega arith),
    at 3 (omega arith),
    at 4 (omega arith),
    at 5 (omega arith),
    at 6 (omega arith),
    at 7 (omega arith),
    at 8 (omega arith),
    at 9 (omega arith),
    at 10 (omega arith),
    at 11 (omega arith),
    at 12 (omega arith),
    at 13 (omega arith),
    at 14 (omega arith),
    at 15 (omega arith),
    at 27 (omega arith),
  );
  chpid = λ i h. ground (arith, at (16 + i) (omega arith));
}
