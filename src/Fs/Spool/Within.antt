-- ===== src/Fs/Spool/Within.antt =====
-- Records that lie in one page of a spool file.
use hvf.Base.{
  ℕ, zero, suc, ◌+◌, ◌-◌, ◌%◌, ◌≤◌, ◌<◌, ◌≡◌, ◌≢◌, refl, ◌∙◌, ap, true, false, List, ◌∷◌, some, min,
  ◌==◌, Bytes, memcpy, arith,
}
use native.Mathlib.Decide.{ℕ_discrete}
use hvf.Fs.Spool.{
  data_size, SpoolFile, get_len, Grab, take_bytes, grab_loop, close_grab, grab_first,
  spool_grab_rec,
}

grab_loop_stop :
    (fuel buf rlen reclen : ℕ) (g : Grab)
    → reclen + 2 ≡ g.processed
    → grab_loop fuel buf rlen reclen g ≡ some g
unfolding grab_loop
grab_loop_stop zero buf rlen reclen g e = refl
grab_loop_stop (suc fuel) buf rlen reclen g e =
    let test : (reclen + 2 == g.processed) ≡ true = ground arith in rw (grab_loop, test) refl

grab_loop_round :
    (fuel buf rlen reclen : ℕ) (g : Grab) (page : Bytes) (rest : List Bytes)
    → reclen + 2 ≢ g.processed
    → g.left ≢ 0
    → grab_loop (suc fuel) buf rlen reclen (record g { list = page ∷ rest })
      ≡ grab_loop fuel buf rlen reclen
          (take_bytes buf rlen reclen (record g { list = page ∷ rest }) page)
unfolding grab_loop
grab_loop_round fuel buf rlen reclen g page rest ne some_left =
    let test : (reclen + 2 == g.processed) ≡ false = ground arith in
    let room : (g.left == 0) ≡ false = ground arith in rw (grab_loop, test, room, room) refl

-- How the loop begins on a page, and how it ends when the record ends in that page.
abbrev first_grab : SpoolFile → Bytes → Bytes → List Bytes → Grab
first_grab f out page rest = record {
  list = page ∷ rest;
  pages = f.pages;
  freed = 0;
  out = out;
  copied = 2;
  processed = 2;
  offset = f.frecoff + 2;
  left = data_size - f.frecoff - 2;
}

abbrev pub last_grab : SpoolFile → Bytes → ℕ → Bytes → List Bytes → ℕ → ℕ → Grab
last_grab f out buf page rest n reclen = record {
  list = page ∷ rest;
  pages = f.pages;
  freed = 0;
  out = memcpy out (buf + 2 - 2) page (f.frecoff + 2) n;
  copied = 2 + n;
  processed = 2 + n + (reclen - n);
  offset = f.frecoff + 2 + n + (reclen - n);
  left = data_size - f.frecoff - 2 - n - (reclen - n);
}

module _ (f : SpoolFile) (out : Bytes) (buf len : ℕ) (page : Bytes) (rest : List Bytes) (reclen : ℕ)
    (fits : f.frecoff + 2 + reclen ≤ data_size) (full : 0 < reclen) (asked : 0 < len) where
  abbrev n : ℕ
  n = min len reclen

  abbrev middle : Grab
  middle = record {
    list = page ∷ rest;
    pages = f.pages;
    freed = 0;
    out = memcpy out (buf + 2 - 2) page (f.frecoff + 2) n;
    copied = 2 + n;
    processed = 2 + n;
    offset = f.frecoff + 2 + n;
    left = data_size - f.frecoff - 2 - n;
  }

  first_round : take_bytes buf (n + 2) reclen (first_grab f out page rest) page ≡ middle
  unfolding take_bytes
  first_round =
      let test : (2 == n + 2) ≡ false = ground arith in
      let amount : min (data_size - f.frecoff - 2) (n + 2 - 2) ≡ n = omega arith in
      rw (test, amount) refl

  second_round : take_bytes buf (n + 2) reclen middle page ≡ last_grab f out buf page rest n reclen
  unfolding take_bytes
  second_round =
      let test : (2 + n == n + 2) ≡ true = ground arith in
      let amount : min (data_size - f.frecoff - 2 - n) (reclen + 2 - (2 + n)) ≡ reclen - n =
        omega arith in
      rw (test, amount) refl

  both_rounds :
      grab_loop (reclen + 1) buf (n + 2) reclen (first_grab f out page rest)
      ≡ some (last_grab f out buf page rest n reclen)
  both_rounds =
      let fuel : reclen + 1 ≡ suc (suc (reclen - 1)) = omega arith in
      let first =
        grab_loop_round (suc (reclen - 1)) buf (n + 2) reclen (first_grab f out page rest) page rest
          (omega arith) (omega arith) in
      elim (ℕ_discrete n reclen) [
        | yes all ↦
            let same : middle ≡ last_grab f out buf page rest n reclen = ground (arith, all) in
            rw fuel (
              first
              ∙ ap (λ g. grab_loop (suc (reclen - 1)) buf (n + 2) reclen g) first_round
              ∙ grab_loop_stop _ _ _ _ middle (omega arith)
              ∙ ap (λ g. some g) same)
        | no ne ↦
            let second =
              grab_loop_round (reclen - 1) buf (n + 2) reclen middle page rest (omega arith)
                (omega arith) in
            rw fuel (
              first
              ∙ ap (λ g. grab_loop (suc (reclen - 1)) buf (n + 2) reclen g) first_round
              ∙ second
              ∙ ap (λ g. grab_loop (reclen - 1) buf (n + 2) reclen g) second_round
              ∙ grab_loop_stop _ _ _ _ (last_grab f out buf page rest n reclen) (omega arith))
      ]

  -- A grab from a file whose first record is `reclen` bytes long and ends in the first page.
  pub spool_grab_within :
      get_len page f.frecoff ≡ reclen
      → f.recs ≢ 0
      → f.lrecoff % 2 ≡ 0
      → buf ≢ 0
      → spool_grab_rec (record f { list = page ∷ rest }) out buf len
        ≡ some
            (close_grab (record f { list = page ∷ rest }) (last_grab f out buf page rest n reclen))
  unfolding spool_grab_rec grab_first
  spool_grab_within is_len recs even there =
      let a : (len == 0) ≡ false = ground arith in
      let b : (buf == 0) ≡ false = ground arith in
      let c : (f.recs == 0) ≡ false = ground arith in
      let d : (f.lrecoff % 2 == 0) ≡ true = ground arith in
      rw (a, b, c, d, grab_first, is_len, both_rounds) refl
