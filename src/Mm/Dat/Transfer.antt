-- ===== src/Mm/Dat/Transfer.antt =====
-- What `__memcpy_tofrom_guest` copies.
use hvf.Base.{
  Option-cases, ◌∙◌, inl, inr, ℕ, zero, suc, ◌+◌, ◌-◌, ◌%◌, ◌≤◌, ◌<◌, ◌≡◌, refl, true, false,
  Option, none, some, ltb, leb, ◌==◌, ◌&&◌, if◌then◌else◌, Bytes, memcpy, min, arith, Bool-cases,
}
use native.Mathlib.Nat.{add-zero, zero-add, sub_self, mod-eq_of_lt, mod-eq-sub-mod}
use hvf.Mm.Dat.{
  page_size, Direction, to_guest, from_guest, Copy, started, copy_round, copy_loop,
  memcpy_tofrom_guest,
}

-- What is left of the page that `host` lies in.
abbrev pub rest_of_page : ℕ → ℕ
rest_of_page host = page_size - host % page_size

-- The `n` bytes from `s` on are those from `host` on, again from the start after each `p` of them.
abbrev pub spread : Bytes → Bytes → ℕ → ℕ → ℕ → ℕ → Bytes
spread g b s p host n x = if leb s x && ltb x (s + n) then g (host + (x - s) % p) else b x

spread-round :
    (g b : Bytes) (s s' p host n x : ℕ)
    → 0 < p
    → s' ≡ s + min p n
    → spread g (memcpy b s g host (min p n)) s' p host (n - min p n) x ≡ spread g b s p host n x
spread-round g b s s' p host n x h e =
    ground (arith, mod-eq_of_lt {n = x - s} {m = p}, mod-eq-sub-mod {n = x - s} {m = p})

-- One `memcpy` of `len` bytes.
abbrev pub moved : Direction → ℕ → ℕ → ℕ → Bytes → Bytes → Copy
moved to_guest host base len guest buffer = record {
  fault = false;
  left = 0;
  copied = len;
  guest = memcpy guest host buffer base len;
  buffer = buffer;
}
moved from_guest host base len guest buffer = record {
  fault = false;
  left = 0;
  copied = len;
  guest = guest;
  buffer = memcpy buffer base guest host len;
}

round_left :
    (way : Direction) (base len host : ℕ) (guest buffer : Bytes)
    → len ≤ rest_of_page host
    → (copy_round way base host (started len guest buffer)).left ≡ 0
unfolding copy_round
round_left to_guest base len host guest buffer h = omega arith
round_left from_guest base len host guest buffer h = omega arith

round-moved :
    (way : Direction) (base len host : ℕ) (guest buffer : Bytes)
    → len ≤ rest_of_page host
    → copy_round way base host (started len guest buffer) ≡ moved way host base len guest buffer
unfolding copy_round
round-moved to_guest base len host guest buffer h =
    let n : min (rest_of_page host) len ≡ len = omega arith in
    simp (n, sub_self, zero-add, add-zero)
round-moved from_guest base len host guest buffer h =
    let n : min (rest_of_page host) len ≡ len = omega arith in
    simp (n, sub_self, zero-add, add-zero)

module _ (lra : ℕ → Option ℕ) where
  copy_loop_total :
      (way : Direction) (fuel a d host : ℕ) (c : Copy)
      → c.left ≤ fuel
      → lra a ≡ some host
      → ((copy_loop lra way fuel a d c).fault ≡ c.fault)
        × ((copy_loop lra way fuel a d c).left ≡ 0)
        × ((copy_loop lra way fuel a d c).copied ≡ c.copied + c.left)
  unfolding copy_loop copy_round
  copy_loop_total way zero a d host c h e = ground arith
  copy_loop_total to_guest (suc fuel) a d host c h e =
      ground (arith, copy_loop_total to_guest fuel a d host (copy_round to_guest d host c))
  copy_loop_total from_guest (suc fuel) a d host c h e =
      ground (arith, copy_loop_total from_guest fuel a d host (copy_round from_guest d host c))

  -- The pages of the guest are never walked past the first: round after round starts at `host`.
  from_guest_loop :
      (fuel a base host x : ℕ) (c : Copy)
      → c.left ≤ fuel
      → lra a ≡ some host
      → (copy_loop lra from_guest fuel a base c).buffer x
        ≡ spread c.guest c.buffer (base + c.copied) (rest_of_page host) host c.left x
  unfolding copy_loop copy_round
  from_guest_loop zero a base host x c h e = ground arith
  from_guest_loop (suc fuel) a base host x c h e = elim (Bool-cases (c.left == 0)) [
    | inl done ↦ rw (done, copy_loop) (ground arith)
    | inr more ↦
        rw (more, e, copy_loop)
          (from_guest_loop fuel a base host x (copy_round from_guest base host c) (ground arith) e
            ∙ spread-round c.guest c.buffer (base + c.copied) _ (rest_of_page host) host c.left x
                (omega arith) (omega arith))
  ]

  copy_loop_done :
      (way : Direction) (fuel a base : ℕ) (c : Copy)
      → c.left ≡ 0
      → copy_loop lra way fuel a base c ≡ c
  unfolding copy_loop
  copy_loop_done way zero a base c h = refl
  copy_loop_done way (suc fuel) a base c h = ground arith

  one_round :
      (way : Direction) (len a base host : ℕ) (guest buffer : Bytes)
      → lra a ≡ some host
      → 0 < len
      → len ≤ rest_of_page host
      → copy_loop lra way len a base (started len guest buffer)
        ≡ copy_round way base host (started len guest buffer)
  unfolding copy_loop
  one_round way zero a base host guest buffer e h fits = absurd (omega arith)
  one_round way (suc k) a base host guest buffer e h fits = ground (
    arith,
    copy_loop_done way k a base (copy_round way base host (started (suc k) guest buffer))
        (round_left way base (suc k) host guest buffer fits),
  )

  guest_of_from :
      (fuel a base : ℕ) (c : Copy) → (copy_loop lra from_guest fuel a base c).guest ≡ c.guest
  unfolding copy_loop copy_round
  guest_of_from zero a base c = refl
  guest_of_from (suc fuel) a base c = elim (Option-cases (lra a)) [
    | inl e ↦ ground arith
    | inr (host, e) ↦ ground (arith, guest_of_from fuel a base (copy_round from_guest base host c))
  ]

  -- Where the guest address translates to `host`, `memcpy_from_guest` succeeds, copies all `len`
  -- bytes and leaves guest storage alone. Byte `i` of the buffer comes from the page of `host`
  -- alone: past the end of that page the copy begins again at `host`, not on the next guest page.
  pub memcpy_from_guest_lem :
      (a base len host x : ℕ) (guest buffer : Bytes)
      → lra a ≡ some host
      → let c = memcpy_tofrom_guest lra from_guest a base len guest buffer in
        (c.fault ≡ false)
        × (c.copied ≡ len)
        × (c.guest ≡ guest)
        × (c.buffer x ≡ spread guest buffer base (rest_of_page host) host len x)
  unfolding memcpy_tofrom_guest
  memcpy_from_guest_lem a base len host x guest buffer e =
      let c = started len guest buffer in
      let (f, l, n) = copy_loop_total from_guest len a base host c (omega arith) e in
      (
        f,
        omega (arith, n),
        guest_of_from len a base c,
        from_guest_loop len a base host x c (omega arith) e ∙ rw add-zero,
      )

  -- A transfer of one byte or more that stays within the page of `host` is one `memcpy`, in either
  -- direction, and reports the full length.
  pub within_page :
      (way : Direction) (a base len host : ℕ) (guest buffer : Bytes)
      → lra a ≡ some host
      → 0 < len
      → len ≤ rest_of_page host
      → memcpy_tofrom_guest lra way a base len guest buffer ≡ moved way host base len guest buffer
  unfolding memcpy_tofrom_guest
  within_page to_guest a base len host guest buffer e h fits =
      one_round to_guest len a base host guest buffer e h fits
      ∙ round-moved to_guest base len host guest buffer fits
  within_page from_guest a base len host guest buffer e h fits =
      one_round from_guest len a base host guest buffer e h fits
      ∙ round-moved from_guest base len host guest buffer fits

  -- Where the guest address does not translate, a transfer of one byte or more faults, reports no
  -- byte copied and changes neither side.
  pub not_mapped :
      (way : Direction) (a base len : ℕ) (guest buffer : Bytes)
      → lra a ≡ none
      → 0 < len
      → memcpy_tofrom_guest lra way a base len guest buffer
        ≡ record (started len guest buffer) { fault = true }
  unfolding memcpy_tofrom_guest copy_loop
  not_mapped way a base zero guest buffer e h = absurd (omega arith)
  not_mapped way a base (suc k) guest buffer e h = ground arith
