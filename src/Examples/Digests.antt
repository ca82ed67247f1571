-- ===== src/Examples/Digests.antt =====
-- Instructions that write the blocks down show that the laws of the digest can hold.
use mathlib.Core.List.{append_assoc, append-nil}
use hvf.Base.{ℕ, ◌≡◌, refl, sym, ap, List, [], ◌∷◌, ◌++◌, some}
use hvf.Digest.{Ctx, initial}
use hvf.Digest.Streamed.{ByBlocks}
use hvf.Digest.Pieces.{digest_pieces, digest_in_pieces}
use hvf.Digest.{digest_init_ctx, sha1_init}

abbrev kimd : List ℕ → List ℕ → List ℕ
kimd h xs = h ++ xs

abbrev klmd : List ℕ → ℕ → List ℕ → List ℕ
klmd h mbl xs = (h ++ xs) ++ mbl ∷ []

written-ByBlocks : ByBlocks kimd klmd
written-ByBlocks = record {
  nothing = λ h. append-nil h;
  kimd_blocks = λ h xs ys e. sym (append_assoc h xs ys);
  klmd_blocks = λ h mbl xs ys e. ap (λ b. b ++ mbl ∷ []) (sym (append_assoc h xs ys));
}

abbrev set_up : Ctx
set_up = record { type = 1; h = initial; mbl = 0; buf = [] }

digest_in_pieces_example :
    (r : Ctx) × (digest_pieces kimd klmd ((1 ∷ 2 ∷ []) ∷ (3 ∷ []) ∷ []) (4 ∷ []) set_up ≡ some r)
    × (r.h ≡ (initial ++ 1 ∷ 2 ∷ 3 ∷ 4 ∷ []) ++ 32 ∷ [])
unfolding digest_init_ctx sha1_init
digest_in_pieces_example =
    digest_in_pieces kimd klmd written-ByBlocks ((1 ∷ 2 ∷ []) ∷ (3 ∷ []) ∷ []) (4 ∷ []) set_up
      set_up refl
