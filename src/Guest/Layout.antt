-- ===== src/Guest/Layout.antt =====
-- The bytes of `struct pmcw`, `struct scsw` and `struct orb` in guest storage (include/channel.h):
-- packed, big-endian, the first bit field in the most significant bits.
pub mod RoundTrip
use hvf.Base.{
  ℕ, ◌+◌, ◌-◌, ◌*◌, ◌/◌, ◌%◌, ◌^◌, ◌<◌, ◌≤◌, ◌≡◌, refl, List, [], ◌∷◌, get_or, bytes_at, Bytes,
  arith, ltb, leb, ◌&&◌, if◌then◌else◌,
}
use hvf.Guest.{Pmcw, Scsw, Orb}

-- Big-endian numbers of two and four bytes.
abbrev pub be16 : Bytes → ℕ → ℕ
be16 m a = m a * 256 + m (a + 1)

abbrev pub be32 : Bytes → ℕ → ℕ
be32 m a = be16 m a * 65536 + be16 m (a + 2)

-- `struct pmcw` as it stands at an address.
unfoldable pub decode_pmcw : Bytes → ℕ → Pmcw
decode_pmcw m a = record {
  interrupt_param = be32 m a;
  isc = m (a + 4) / 8 % 8;
  e = m (a + 5) / 128 % 2;
  lm = m (a + 5) / 32 % 4;
  mm = m (a + 5) / 8 % 4;
  d = m (a + 5) / 4 % 2;
  t = m (a + 5) / 2 % 2;
  v = m (a + 5) % 2;
  dev_num = be16 m (a + 6);
  lpm = m (a + 8);
  pnom = m (a + 9);
  lpum = m (a + 10);
  pim = m (a + 11);
  mbi = be16 m (a + 12);
  pom = m (a + 14);
  pam = m (a + 15);
  chpid = λ i. m (a + 16 + i);
  f = m (a + 27) / 4 % 2;
  x = m (a + 27) / 2 % 2;
  s = m (a + 27) % 2;
}

-- The byte of a `struct pmcw` at an offset; unnamed fields are 0.
pub encode_pmcw : Pmcw → Bytes
encode_pmcw p i = if leb 16 i && ltb i 24 then p.chpid (i - 16) else get_or bytes i 0
  where
    bytes : List ℕ
    bytes =
        p.interrupt_param / 2 ^ 24
        ∷ (p.interrupt_param / 2 ^ 16 % 256)
        ∷ (p.interrupt_param / 2 ^ 8 % 256)
        ∷ (p.interrupt_param % 256)
        ∷ (p.isc * 8)
        ∷ (p.e * 128 + p.lm * 32 + p.mm * 8 + p.d * 4 + p.t * 2 + p.v)
        ∷ (p.dev_num / 256)
        ∷ (p.dev_num % 256)
        ∷ p.lpm
        ∷ p.pnom
        ∷ p.lpum
        ∷ p.pim
        ∷ (p.mbi / 256)
        ∷ (p.mbi % 256)
        ∷ p.pom
        ∷ p.pam
        ∷ 0
        ∷ 0
        ∷ 0
        ∷ 0
        ∷ 0
        ∷ 0
        ∷ 0
        ∷ 0
        ∷ 0
        ∷ 0
        ∷ 0
        ∷ (p.f * 4 + p.x * 2 + p.s)
        ∷ []

-- `struct scsw` as it stands at an address, and its byte at an offset.
pub decode_scsw : Bytes → ℕ → Scsw
decode_scsw m a = record {
  key = m a / 16;
  s = m a / 8 % 2;
  l = m a / 4 % 2;
  cc = m a % 4;
  f = m (a + 1) / 128;
  p = m (a + 1) / 64 % 2;
  i = m (a + 1) / 32 % 2;
  a = m (a + 1) / 16 % 2;
  u = m (a + 1) / 8 % 2;
  z = m (a + 1) / 4 % 2;
  e = m (a + 1) / 2 % 2;
  n = m (a + 1) % 2;
  fc = be16 m (a + 2) / 4096 % 8;
  ac = be16 m (a + 2) / 32 % 128;
  sc = be16 m (a + 2) % 32;
  addr = be32 m (a + 4);
  dev_status = m (a + 8);
  sch_status = m (a + 9);
  count = be16 m (a + 10);
}

pub encode_scsw : Scsw → Bytes
encode_scsw s i = get_or bytes i 0
  where
    bytes : List ℕ
    bytes =
        (s.key * 16 + s.s * 8 + s.l * 4 + s.cc)
        ∷ (s.f * 128 + s.p * 64 + s.i * 32 + s.a * 16 + s.u * 8 + s.z * 4 + s.e * 2 + s.n)
        ∷ (s.fc * 16 + s.ac / 8)
        ∷ (s.ac % 8 * 32 + s.sc)
        ∷ (s.addr / 2 ^ 24)
        ∷ (s.addr / 2 ^ 16 % 256)
        ∷ (s.addr / 2 ^ 8 % 256)
        ∷ (s.addr % 256)
        ∷ s.dev_status
        ∷ s.sch_status
        ∷ (s.count / 256)
        ∷ (s.count % 256)
        ∷ []

-- `struct orb`, 32 bytes.
unfoldable pub decode_orb : Bytes → ℕ → Orb
decode_orb m a = record {
  param = be32 m a;
  f = m (a + 5) / 128;
  lpm = m (a + 6);
  addr = be32 m (a + 8);
  raw = bytes_at m a 32;
}
