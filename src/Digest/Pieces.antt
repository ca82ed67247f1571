-- ===== src/Digest/Pieces.antt =====
-- The digest of data in pieces is that of the data as a whole.
use mathlib.Core.Path.{subst}
use mathlib.Core.List.{append_assoc}
use hvf.Base.{
  ℕ, ◌*◌, ◌%◌, ◌^◌, ◌≡◌, refl, ap, sym, ◌∙◌, arith, true, false, List, [], ◌∷◌, ◌++◌, ◌==◌, length,
  Option, none, some,
}
use hvf.Errno.{success}
use hvf.Digest.{
  sha1_init, digest_init_ctx, Ctx, initial, sha1_step, digest_sha1, digest_update_ctx,
  digest_finalize_ctx,
}
use hvf.Digest.Streamed.{ByBlocks, Streamed, step-Streamed, step_final}

-- The pieces, one behind the other.
abbrev pub joined : List (List ℕ) → List ℕ → List ℕ
joined [] end = end
joined (p ∷ ps) end = p ++ joined ps end

module _ (kimd : List ℕ → List ℕ → List ℕ) (klmd : List ℕ → ℕ → List ℕ → List ℕ) where
  -- The pieces are taken in, then the digest is finished with the last.
  unfoldable pub digest_pieces : List (List ℕ) → List ℕ → Ctx → Option Ctx
  digest_pieces [] end c = digest_finalize_ctx kimd klmd c end
  digest_pieces (p ∷ ps) end c = elim (digest_update_ctx kimd klmd c p) [
    | none ↦ none
    | some c' ↦ digest_pieces ps end c'
  ]

module _ (kimd : List ℕ → List ℕ → List ℕ) (klmd : List ℕ → ℕ → List ℕ → List ℕ)
    (law : ByBlocks kimd klmd) where
  pieces-whole :
      (ps : List (List ℕ)) (end xs : List ℕ) (c : Ctx)
      → Streamed kimd klmd law c xs
      → (r : Ctx) × (digest_pieces kimd klmd ps end c ≡ some r)
        × (r.h ≡ klmd initial (length (xs ++ joined ps end) * 8 % 2 ^ 64) (xs ++ joined ps end))
  unfolding digest_pieces digest_finalize_ctx digest_update_ctx
  pieces-whole [] end xs c s =
      let is_sha1 : (c.type == digest_sha1) ≡ true = ground (arith, s.type) in
      (
        sha1_step kimd klmd true c end,
        rw (digest_pieces, digest_finalize_ctx, is_sha1) refl,
        step_final kimd klmd law c xs end s,
      )
  pieces-whole (p ∷ ps) end xs c s =
      let is_sha1 : (c.type == digest_sha1) ≡ true = ground (arith, s.type) in
      let (r, q, e) =
        pieces-whole ps end (xs ++ p) (sha1_step kimd klmd false c p)
          (step-Streamed kimd klmd law c xs p s) in
      (
        r,
        rw (digest_pieces, digest_update_ctx, is_sha1) q,
        e ∙ ap (λ b. klmd initial (length b * 8 % 2 ^ 64) b) (append_assoc xs p (joined ps end)),
      )

  -- However the data are cut into pieces, some of them empty or longer than the buffer, a context
  -- that has been set up for SHA-1 takes them all, and the hash values at the end are those that
  -- KLMD makes of the whole data, and of its length in bits modulo 2 ^ 64, from the initial values.
  pub digest_in_pieces :
      (ps : List (List ℕ)) (end : List ℕ) (junk c : Ctx)
      → digest_init_ctx digest_sha1 junk ≡ (success, c)
      → (r : Ctx) × (digest_pieces kimd klmd ps end c ≡ some r)
        × (r.h ≡ klmd initial (length (joined ps end) * 8 % 2 ^ 64) (joined ps end))
  unfolding digest_init_ctx sha1_init
  digest_in_pieces ps end junk c h =
      let same : sha1_init (record junk { type = digest_sha1 }) ≡ c = ap (λ p. p.1) h in
      subst
        (λ x.
          (r : Ctx) × (digest_pieces kimd klmd ps end x ≡ some r)
          × (r.h ≡ klmd initial (length (joined ps end) * 8 % 2 ^ 64) (joined ps end)))
        same
        (pieces-whole ps end [] (sha1_init (record junk { type = digest_sha1 })) (record {
          blocks = [];
          all = refl;
          even = omega arith;
          short = omega arith;
          hash = sym (law.nothing initial);
          bits = omega arith;
          type = refl;
        }))
