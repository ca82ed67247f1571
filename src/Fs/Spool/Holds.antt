-- ===== src/Fs/Spool/Holds.antt =====
-- The records that stand in a page of a spool file, one behind the other.
use hvf.Base.{
  ℕ, ◌+◌, ◌*◌, ◌≤◌, ◌<◌, ◌≡◌, refl, sym, ◌∙◌, ap, List, [], ◌∷◌, ◌++◌, Bytes, arith, length, get_or,
}
use mathlib.Core.Path.{subst}
use hvf.Fs.Spool.{data_size, get_len, align2}
use hvf.Fs.Spool.Append.{with_record}

-- The record `r` stands at `off` of the page.
pub record RecordAt (page : Bytes) (off : ℕ) (r : List ℕ) : Type 0 where
  pub is_len : get_len page off ≡ length r
  pub some_bytes : 0 < length r
  pub bytes : (i : ℕ) → i < length r → page (off + 2 + i) ≡ get_or r i 0

-- The records `rs` stand one behind the other from `off` on, up to `end`.
abbrev pub Holds : Bytes → ℕ → List (List ℕ) → ℕ → Type 0
Holds page off [] end = off ≡ end
Holds page off (r ∷ rs) end = RecordAt page off r × Holds page (align2 (off + 2 + length r)) rs end

pub Holds-order :
    (page : Bytes) (off : ℕ) (rs : List (List ℕ)) (end : ℕ) → Holds page off rs end → off ≤ end
Holds-order page off [] end h = omega (arith, h)
Holds-order page off (r ∷ rs) end h =
    omega (arith, Holds-order page (align2 (off + 2 + length r)) rs end h.1)

-- A page that agrees up to `end` holds the same records.
pub Holds-agree :
    (page page' : Bytes) (off : ℕ) (rs : List (List ℕ)) (end : ℕ)
    → ((a : ℕ) → a < end → page' a ≡ page a)
    → Holds page off rs end
    → Holds page' off rs end
Holds-agree page page' off [] end same h = h
Holds-agree page page' off (r ∷ rs) end same h =
    let below = Holds-order page (align2 (off + 2 + length r)) rs end h.1 in
    (
      record {
        is_len = omega (arith, same off (omega arith), same (off + 1) (omega arith), h.0.is_len);
        some_bytes = h.0.some_bytes;
        bytes = λ i l. same (off + 2 + i) (omega arith) ∙ h.0.bytes i l;
      },
      Holds-agree page page' (align2 (off + 2 + length r)) rs end same h.1,
    )

pub Holds-append :
    (page : Bytes) (off : ℕ) (rs : List (List ℕ)) (mid : ℕ) (r : List ℕ) (end : ℕ)
    → Holds page off rs mid
    → RecordAt page mid r
    → end ≡ align2 (mid + 2 + length r)
    → Holds page off (rs ++ r ∷ []) end
Holds-append page off [] mid r end h at e =
    (subst (λ o. RecordAt page o r) (sym h) at, ap (λ o. align2 (o + 2 + length r)) h ∙ sym e)
Holds-append page off (q ∷ rs) mid r end h at e =
    (h.0, Holds-append page (align2 (off + 2 + length q)) rs mid r end h.1 at e)

pub length-snoc : (rs : List (List ℕ)) (r : List ℕ) → length (rs ++ r ∷ []) ≡ length rs + 1
length-snoc [] r = refl
length-snoc (q ∷ rs) r = omega (arith, length-snoc rs r)

-- The caller's record in `mem` at `buf`.
abbrev pub InMemory : Bytes → ℕ → List ℕ → Type 0
InMemory mem buf r = (i : ℕ) → i < length r → mem (buf + i) ≡ get_or r i 0

pub with_record-RecordAt :
    (page : Bytes) (off : ℕ) (mem : Bytes) (buf : ℕ) (r : List ℕ)
    → 0 < length r
    → length r < 65536
    → InMemory mem buf r
    → RecordAt (with_record page off mem buf (length r)) off r
with_record-RecordAt page off mem buf r full short at = record {
  is_len = ground arith;
  some_bytes = full;
  bytes = λ i l. ground (arith, at i l);
}

pub with_record-agree :
    (page : Bytes) (off : ℕ) (mem : Bytes) (buf len a : ℕ)
    → a < off
    → with_record page off mem buf len a ≡ page a
with_record-agree page off mem buf len a l = ground arith

pub Holds-count :
    (page : Bytes) (off : ℕ) (rs : List (List ℕ)) (end : ℕ)
    → Holds page off rs end
    → off + 2 * length rs ≤ end
Holds-count page off [] end h = omega (arith, h)
Holds-count page off (r ∷ rs) end h =
    omega (arith, Holds-count page (align2 (off + 2 + length r)) rs end h.1)

-- What is behind the end of the page: nothing.
pub Holds-nothing :
    (page : Bytes) (rs : List (List ℕ)) (off lrecoff : ℕ)
    → off ≡ data_size
    → lrecoff ≤ data_size
    → Holds page off rs lrecoff
    → rs ≡ []
Holds-nothing page [] off lrecoff e l h = refl
Holds-nothing page (r ∷ rs) off lrecoff e l h =
    absurd (omega (arith, Holds-count page off (r ∷ rs) lrecoff h))
