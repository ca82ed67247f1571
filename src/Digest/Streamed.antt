-- ===== src/Digest/Streamed.antt =====
-- What a context holds of the data that it has taken in.
use mathlib.Core.Path.{subst}
use mathlib.Core.List.{append_assoc, append-nil}
use hvf.Base.{
  ℕ, ◌+◌, ◌-◌, ◌*◌, ◌%◌, ◌^◌, ◌<◌, ◌≡◌, ◌≢◌, inl, inr, refl, ap, sym, ◌∙◌, arith, true, false, List,
  [], ◌∷◌, ◌++◌, min, ◌==◌, length, take, drop, Bool-cases, length-append, length-take, length-drop,
  take-append-drop,
}
use hvf.Digest.{Ctx, initial, add_bits, with_buffer, rest, sha1_step, digest_sha1}

empty_of_length : (l : List ℕ) → length l ≡ 0 → l ≡ []
empty_of_length [] h = refl
empty_of_length (x ∷ xs) h = absurd (omega (arith, h))

-- What the instructions do on several blocks: KIMD takes them in turn, and so does KLMD, with
-- the length of the message from the parameter block.
pub record ByBlocks (kimd : List ℕ → List ℕ → List ℕ) (klmd : List ℕ → ℕ → List ℕ → List ℕ)
    : Type 0 where
  pub nothing : (h : List ℕ) → kimd h [] ≡ h
  pub kimd_blocks :
      (h xs ys : List ℕ) → length xs % 64 ≡ 0 → kimd h (xs ++ ys) ≡ kimd (kimd h xs) ys
  pub klmd_blocks :
      (h : List ℕ) (mbl : ℕ) (xs ys : List ℕ)
      → length xs % 64 ≡ 0
      → klmd h mbl (xs ++ ys) ≡ klmd (kimd h xs) mbl ys

module _ (kimd : List ℕ → List ℕ → List ℕ) (klmd : List ℕ → ℕ → List ℕ → List ℕ)
    (law : ByBlocks kimd klmd) where
  -- The context has taken in `xs`: whole blocks are hashed and counted, and the buffer has the
  -- rest.
  pub record Streamed (c : Ctx) (xs : List ℕ) : Type 0 where
    pub blocks : List ℕ
    pub all : xs ≡ blocks ++ c.buf
    pub even : length blocks % 64 ≡ 0
    pub short : length c.buf < 64
    pub hash : c.h ≡ kimd initial blocks
    pub bits : c.mbl ≡ length blocks * 8 % 2 ^ 64
    pub type : c.type ≡ digest_sha1

  -- Without a buffer.
  rest-Streamed :
      (c : Ctx) (xs dat : List ℕ)
      → Streamed c xs
      → c.buf ≡ []
      → Streamed (rest kimd klmd false c dat) (xs ++ dat)
  unfolding rest
  rest-Streamed c xs dat s empty =
      let before : xs ≡ s.blocks = s.all ∙ ap (λ b. s.blocks ++ b) empty ∙ append-nil s.blocks in
      elim (Bool-cases (length dat % 64 == 0)) [
        | inl y ↦
            rw (rest, y)
              (record {
                blocks = s.blocks ++ dat;
                all =
                    ap (λ b. b ++ dat) before
                    ∙ sym (append-nil (s.blocks ++ dat))
                    ∙ ap (λ b. (s.blocks ++ dat) ++ b) (sym empty);
                even = ground (arith, length-append s.blocks dat, s.even, y);
                short = s.short;
                hash =
                    ap (λ h. kimd h dat) s.hash ∙ sym (law.kimd_blocks initial s.blocks dat s.even);
                bits = omega (arith, s.bits, length-append s.blocks dat);
                type = s.type;
              })
        | inr n ↦
            let whole = length dat - length dat % 64 in
            let part = take whole dat in
            let size : length part ≡ whole = omega (arith, length-take whole dat) in
            rw (rest, n)
              (record {
                blocks = s.blocks ++ part;
                all =
                    ap (λ b. b ++ dat) before
                    ∙ ap (λ d. s.blocks ++ d) (sym (take-append-drop whole dat))
                    ∙ sym (append_assoc s.blocks part (drop whole dat));
                even = omega (arith, length-append s.blocks part, s.even, size);
                short = omega (arith, length-drop whole dat);
                hash =
                    ap (λ h. kimd h part) s.hash
                    ∙ sym (law.kimd_blocks initial s.blocks part s.even);
                bits = omega (arith, s.bits, length-append s.blocks part, size);
                type = s.type;
              })
      ]

  rest_final :
      (c : Ctx) (xs dat : List ℕ)
      → Streamed c xs
      → c.buf ≡ []
      → (rest kimd klmd true c dat).h ≡ klmd initial (length (xs ++ dat) * 8 % 2 ^ 64) (xs ++ dat)
  unfolding rest
  rest_final c xs dat s empty =
      let before : xs ≡ s.blocks = s.all ∙ ap (λ b. s.blocks ++ b) empty ∙ append-nil s.blocks in
      let bits : add_bits kimd klmd c.mbl (length dat) ≡ length (s.blocks ++ dat) * 8 % 2 ^ 64 =
        omega (arith, s.bits, length-append s.blocks dat) in
      ap (λ h. klmd h (add_bits kimd klmd c.mbl (length dat)) dat) s.hash
      ∙ ap (λ m. klmd (kimd initial s.blocks) m dat) bits
      ∙ sym (law.klmd_blocks initial (length (s.blocks ++ dat) * 8 % 2 ^ 64) s.blocks dat s.even)
      ∙ ap (λ b. klmd initial (length (b ++ dat) * 8 % 2 ^ 64) (b ++ dat)) (sym before)

  module _ (c : Ctx) (xs dat : List ℕ) (s : Streamed c xs) where
    abbrev copy : ℕ
    copy = min (64 - length c.buf) (length dat)

    abbrev full : List ℕ
    full = c.buf ++ take copy dat

    length-full : length full ≡ length c.buf + copy
    length-full = omega (arith, length-append c.buf (take copy dat), length-take copy dat)

    all-full : xs ++ take copy dat ≡ s.blocks ++ full
    all-full = ap (λ b. b ++ take copy dat) s.all ∙ append_assoc s.blocks c.buf (take copy dat)

    -- The buffer is full: it is a block like the others.
    abbrev emptied : Ctx
    emptied = record c { h = kimd c.h full; mbl = add_bits kimd klmd c.mbl 64; buf = [] }

    emptied-Streamed : length full ≡ 64 → Streamed emptied (xs ++ take copy dat)
    emptied-Streamed is_full = record {
      blocks = s.blocks ++ full;
      all = all-full ∙ sym (append-nil (s.blocks ++ full));
      even = omega (arith, length-append s.blocks full, s.even, is_full);
      short = omega arith;
      hash = ap (λ h. kimd h full) s.hash ∙ sym (law.kimd_blocks initial s.blocks full s.even);
      bits = omega (arith, s.bits, length-append s.blocks full, is_full);
      type = s.type;
    }

    two_parts : (xs ++ take copy dat) ++ drop copy dat ≡ xs ++ dat
    two_parts =
        append_assoc xs (take copy dat) (drop copy dat)
        ∙ ap (λ d. xs ++ d) (take-append-drop copy dat)

    -- It is not: then nothing is left of the data.
    not_full : length full ≢ 64 → (drop copy dat ≡ []) × (take copy dat ≡ dat)
    not_full ne =
        let none_left : drop copy dat ≡ [] =
          empty_of_length (drop copy dat)
            (omega (arith, length-drop copy dat, length-full, s.short)) in
        (
          none_left,
          sym (append-nil (take copy dat))
              ∙ ap (λ d. take copy dat ++ d) (sym none_left)
              ∙ take-append-drop copy dat,
        )

    abbrev buffered : Ctx
    buffered = record c { buf = full }

    buffered-Streamed : length full ≢ 64 → Streamed (rest kimd klmd false buffered []) (xs ++ dat)
    unfolding rest
    buffered-Streamed ne = record {
      blocks = s.blocks;
      all = ap (λ d. xs ++ d) (sym (not_full ne).1) ∙ all-full;
      even = s.even;
      short = omega (arith, length-full, ne);
      hash = law.nothing c.h ∙ s.hash;
      bits = omega (arith, s.bits);
      type = s.type;
    }

    pub step-Streamed : Streamed (sha1_step kimd klmd false c dat) (xs ++ dat)
    unfolding sha1_step with_buffer rest
    step-Streamed = elim (Bool-cases (length c.buf == 0)) [
      | inl y ↦
          rw (sha1_step, y) (rest-Streamed c xs dat s (empty_of_length c.buf (ground (arith, y))))
      | inr n ↦ elim (Bool-cases (length full == 64)) [
        | inl y ↦
            rw (sha1_step, n, with_buffer, y)
              (subst (Streamed (rest kimd klmd false emptied (drop copy dat))) two_parts (
                rest-Streamed emptied (xs ++ take copy dat) (drop copy dat)
                  (emptied-Streamed (ground (arith, y))) refl))
        | inr m ↦
            let left = not_full (ground (arith, m)) in
            rw (sha1_step, n, with_buffer, m)
              (subst (λ d. Streamed (rest kimd klmd false buffered d) (xs ++ dat)) (sym left.0)
                (buffered-Streamed (ground (arith, m))))
      ]
    ]

    pub step_final :
        (sha1_step kimd klmd true c dat).h
        ≡ klmd initial (length (xs ++ dat) * 8 % 2 ^ 64) (xs ++ dat)
    unfolding sha1_step with_buffer rest
    step_final = elim (Bool-cases (length c.buf == 0)) [
      | inl y ↦
          rw (sha1_step, y) (rest_final c xs dat s (empty_of_length c.buf (ground (arith, y))))
      | inr n ↦ elim (Bool-cases (length full == 64)) [
        | inl y ↦
            rw (sha1_step, n, with_buffer, y)
              (rest_final emptied (xs ++ take copy dat) (drop copy dat)
                  (emptied-Streamed (ground (arith, y))) refl
                ∙ ap (λ b. klmd initial (length b * 8 % 2 ^ 64) b) two_parts)
        | inr m ↦
            let left = not_full (ground (arith, m)) in
            let bits : add_bits kimd klmd c.mbl (length full)
                ≡ length (s.blocks ++ full) * 8 % 2 ^ 64 =
              omega (arith, s.bits, length-append s.blocks full) in
            rw (sha1_step, n, with_buffer, m)
              (ap (λ b. klmd c.h b full) bits
                ∙ ap (λ h. klmd h (length (s.blocks ++ full) * 8 % 2 ^ 64) full) s.hash
                ∙ sym (
                    law.klmd_blocks initial (length (s.blocks ++ full) * 8 % 2 ^ 64) s.blocks full
                      s.even)
                ∙ ap (λ b. klmd initial (length b * 8 % 2 ^ 64) b)
                    (sym all-full ∙ ap (λ d. xs ++ d) left.1))
      ]
    ]
