-- ===== src/Digest.antt =====
-- lib/digest.c: SHA-1 over data that comes in pieces. What the instructions make of the hash values
-- is the parameters `kimd` and `klmd`; each is run until it is done. The data are the bytes at the
-- pointer, and `buf` the bytes of the buffer that are in use, so `buflen` is its length.
pub mod Streamed
pub mod Pieces
use hvf.Base.{
  ℕ, ◌+◌, ◌-◌, ◌*◌, ◌%◌, ◌^◌, Bool, true, false, not, ◌&&◌, ◌||◌, List, [], ◌∷◌, ◌++◌, min, ltb,
  leb, ◌==◌, if◌then◌else◌, length, take, drop, Option, none, some,
}
use hvf.Errno.{Errno, success, einval}

-- DIGEST_QUERY, DIGEST_SHA1
abbrev pub digest_query : ℕ
digest_query = 0

abbrev pub digest_sha1 : ℕ
digest_sha1 = 1

-- `struct digest_ctx`; `h` is the five words of H.
pub record Ctx : Type 0 where
  pub type : ℕ
  pub h : List ℕ
  pub mbl : ℕ
  pub buf : List ℕ

abbrev pub initial : List ℕ
initial = 0x67452301 ∷ 0xEFCDAB89 ∷ 0x98BADCFE ∷ 0x10325476 ∷ 0xC3D2E1F0 ∷ []

unfoldable pub sha1_init : Ctx → Ctx
sha1_init c = record c { h = initial; mbl = 0; buf = [] }

module _ (kimd : List ℕ → List ℕ → List ℕ) (klmd : List ℕ → ℕ → List ℕ → List ℕ) where
  abbrev pub add_bits : ℕ → ℕ → ℕ
  add_bits mbl len = (mbl + len * 8) % 2 ^ 64

  -- "we have something in the context buffer": the context, and the data that are left.
  pub with_buffer : Bool → Ctx → List ℕ → Ctx × List ℕ
  with_buffer final c dat =
      let copy = min (64 - length c.buf) (length dat) in
      let full = c.buf ++ take copy dat in
      if length full == 64
      then (record c { h = kimd c.h full; mbl = add_bits c.mbl 64; buf = [] }, drop copy dat)
      else if final
      then (record c { buf = full }, full)
      else (record c { buf = full }, drop copy dat)

  -- From the tail on.
  pub rest : Bool → Ctx → List ℕ → Ctx
  rest final c dat =
      let whole = length dat - length dat % 64 in
      if final
      then record c {
        h = klmd c.h (add_bits c.mbl (length dat)) dat;
        mbl = add_bits c.mbl (length dat);
      }
      else if length dat % 64 == 0
      then record c { h = kimd c.h dat; mbl = add_bits c.mbl (length dat) }
      else record c {
        h = kimd c.h (take whole dat);
        mbl = add_bits c.mbl whole;
        buf = drop whole dat;
      }

  -- `__sha1_update`
  pub sha1_step : Bool → Ctx → List ℕ → Ctx
  unfolding with_buffer rest
  sha1_step final c dat =
      let (c', dat') = with_buffer final c dat in
      if length c.buf == 0 then rest final c dat else rest final c' dat'

  -- A digest of another type has no functions to call.
  pub digest_update_ctx : Ctx → List ℕ → Option Ctx
  unfolding sha1_step
  digest_update_ctx c dat = if c.type == digest_sha1 then some (sha1_step false c dat) else none

  pub digest_finalize_ctx : Ctx → List ℕ → Option Ctx
  unfolding sha1_step
  digest_finalize_ctx c dat = if c.type == digest_sha1 then some (sha1_step true c dat) else none

unfoldable pub digest_init_ctx : ℕ → Ctx → Errno × Ctx
unfolding sha1_init
digest_init_ctx dt c =
    if leb dt digest_query || ltb digest_sha1 dt
    then (einval, c)
    else (success, sha1_init (record c { type = dt }))
