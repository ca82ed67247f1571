-- ===== src/Mm/Slab/Free.antt =====
-- `free_slab_obj` gives back an object that is in use, and no other object of the cache changes.
use native.Mathlib.Nat.{mul-div_cancel_left}
use native.Mathlib.Decide.{ℕ_discrete}
use hvf.Base.{
  ℕ, ◌+◌, ◌*◌, ◌/◌, ◌%◌, ◌-◌, ◌≤◌, ◌<◌, ◌≡◌, ◌≢◌, ◌⊎◌, inl, inr, refl, ap, ◌∙◌, arith, bit_and,
  if◌then◌else◌, ◌==◌, true, false, Bytes, put, some, List, [], ◌∷◌,
}
use hvf.Mm.Slab.{Slab, mask, bits, in_use, obj_at, free_slab_obj}
use hvf.Mm.Slab.Bitmap.{clear_bit, has_bit, tally, tally-more, tally-some, tally_bound}
use hvf.Mm.Slab.Taken.{Sound, live_in, obj_at-page, frame-Sound, frame-live, live_in-elsewhere}
use hvf.Mm.Slab.From.{page_uses, live, AllSound, frame-AllSound, frame-lives, live-elsewhere}

-- Clearing the bit of an object.
abbrev cleared : Bytes → Slab → ℕ → Bytes
cleared bytes s i = put bytes (bits s i) (bit_and (bytes (bits s i)) (255 - mask i))

in_use-cleared :
    (bytes : Bytes) (s : Slab) (i j : ℕ)
    → bytes (bits s i) < 256
    → in_use (cleared bytes s i) s j ≡ (if j == i then false else in_use bytes s j)
in_use-cleared bytes s i j h = elim (ℕ_discrete (i / 8) (j / 8)) [
  | yes e ↦
      let byte : bits s j ≡ bits s i = omega (arith, e) in
      let new : cleared bytes s i (bits s j) ≡ bit_and (bytes (bits s i)) (255 - mask i) =
        ground (arith, byte) in
      let old : bytes (bits s j) ≡ bytes (bits s i) = ap bytes byte in
      ap (λ b. has_bit b j) new
      ∙ (clear_bit (bytes (bits s i)) i j h).0
      ∙ rw old (ground (arith, e))
  | no e ↦
      let old : cleared bytes s i (bits s j) ≡ bytes (bits s j) = ground (arith, e) in
      ap (λ b. has_bit b j) old ∙ ground (arith, e)
]

-- The object of a page that stands at an address in use there.
record Found (s : Slab) (bytes : Bytes) (ptr : ℕ) : Type 0 where
  pub index : ℕ
  pub in_range : index < s.count
  pub used : in_use bytes s index ≡ true
  pub ptr_lem : ptr ≡ obj_at s index
  pub objidx : (ptr - s.addr - s.startoff) / s.objsize ≡ index
  pub page : s.addr ≡ ptr / 4096 * 4096

live_in-Found :
    (s : Slab) (bytes : Bytes) (ptr : ℕ)
    → Sound s bytes
    → 1 ≤ live_in s bytes ptr
    → Found s bytes ptr
live_in-Found s bytes ptr v h =
    let r = tally-some (in_use bytes s) (λ i. if obj_at s i == ptr then 1 else 0) s.count h in
    let at : ptr ≡ obj_at s r.0 = ground (arith, r.3) in
    let offset : ptr - s.addr - s.startoff ≡ s.objsize * r.0 = omega (arith, at) in
    record {
      index = r.0;
      in_range = r.1;
      used = r.2;
      ptr_lem = at;
      objidx = ap (λ k. k / s.objsize) offset ∙ mul-div_cancel_left r.0 v.sized;
      page = omega (arith, v.page, obj_at-page s bytes r.0 v r.1, ap (λ a. a / 4096) at);
    }

abbrev emptied : Slab → Slab
emptied s = record s { used = (s.used + 65535) % 65536 }

module _ (s : Slab) (bytes : Bytes) (ptr : ℕ) (v : Sound s bytes) (b : (a : ℕ) → bytes a < 256)
    (f : Found s bytes ptr) where
  cleared-tally :
      (w : ℕ → ℕ)
      → tally (in_use bytes s) w s.count
        ≡ w f.index + tally (in_use (cleared bytes s f.index) s) w s.count
  cleared-tally w =
      tally-more (in_use (cleared bytes s f.index) s) (in_use bytes s) w s.count f.index f.in_range
        (in_use-cleared bytes s f.index f.index (b (bits s f.index)) ∙ ground arith)
        (λ k. elim (ℕ_discrete k f.index) [
          | yes e ↦ ap (in_use bytes s) e ∙ f.used ∙ ground (arith, e)
          | no e ↦ ground (arith, in_use-cleared bytes s f.index k (b (bits s f.index)), e)
        ])

  cleared-Sound : Sound (emptied s) (cleared bytes s f.index)
  cleared-Sound = record {
    counted = omega (
      arith,
      v.counted,
      v.bitmap_inside,
      cleared-tally (λ i. 1),
      tally_bound (in_use bytes s) s.count,
    );
    some_object = v.some_object;
    bitmap_inside = v.bitmap_inside;
    inside = v.inside;
    sized = v.sized;
    page = v.page;
  }

  cleared-live :
      (a : ℕ)
      → live_in s bytes a
        ≡ (if ptr == a then 1 else 0) + live_in (emptied s) (cleared bytes s f.index) a
  cleared-live a = rw (f.ptr_lem) (cleared-tally (λ i. if obj_at s i == a then 1 else 0))

  cleared-bound : (a : ℕ) → cleared bytes s f.index a < 256
  cleared-bound a =
      ground
        (arith, b a, (clear_bit (bytes (bits s f.index)) f.index f.index (b (bits s f.index))).1)

  cleared-outside : (a : ℕ) → a / 4096 ≢ s.addr / 4096 → cleared bytes s f.index a ≡ bytes a
  cleared-outside a h = ground (arith, v.bitmap_inside, v.page, f.in_range, h)

-- `ptr` of the cache is given back: it is in use once less, and all else is in use as before.
-- Storage outside of the cache's pages is as it was.
pub record Given (slabs : List Slab) (bytes : Bytes) (ptr : ℕ) (slabs' : List Slab) (bytes' : Bytes)
    : Type 0 where
  pub sound : AllSound slabs' bytes'
  pub bound : (a : ℕ) → bytes' a < 256
  pub pages : (x : ℕ) → page_uses slabs' x ≡ page_uses slabs x
  pub lives : (a : ℕ) → live slabs bytes a ≡ (if ptr == a then 1 else 0) + live slabs' bytes' a
  pub outside : (a : ℕ) → (1 ≤ page_uses slabs (a / 4096)) ⊎ (bytes' a ≡ bytes a)

freed_here :
    (s : Slab) (slabs : List Slab) (bytes : Bytes) (ptr : ℕ)
    → AllSound (s ∷ slabs) bytes
    → ((a : ℕ) → bytes a < 256)
    → ((x : ℕ) → page_uses (s ∷ slabs) x ≤ 1)
    → (f : Found s bytes ptr)
    → Given (s ∷ slabs) bytes ptr (emptied s ∷ slabs) (cleared bytes s f.index)
freed_here s slabs bytes ptr v b once f =
    let apart : page_uses slabs (s.addr / 4096) ≡ 0 = ground (arith, once (s.addr / 4096)) in
    let kept : (a : ℕ) → 1 ≤ page_uses slabs (a / 4096) → cleared bytes s f.index a ≡ bytes a =
      λ a h.
        cleared-outside s bytes ptr v.0 b f a
          (λ e. absurd (omega (arith, apart, ap (page_uses slabs) e))) in
    record {
      sound = (
        cleared-Sound s bytes ptr v.0 b f,
        frame-AllSound bytes (cleared bytes s f.index) slabs v.1 kept,
      );
      bound = cleared-bound s bytes ptr v.0 b f;
      pages = λ x. refl;
      lives = λ a. omega (
        arith,
        cleared-live s bytes ptr v.0 b f a,
        frame-lives bytes (cleared bytes s f.index) slabs a v.1 kept,
      );
      outside = λ a. elim (ℕ_discrete (a / 4096) (s.addr / 4096)) [
        | yes e ↦ inl (ground (arith, e))
        | no e ↦ inr (cleared-outside s bytes ptr v.0 b f a e)
      ];
    }

freed_later :
    (s : Slab) (slabs slabs' : List Slab) (bytes bytes' : Bytes) (ptr : ℕ)
    → AllSound (s ∷ slabs) bytes
    → ((x : ℕ) → page_uses (s ∷ slabs) x ≤ 1)
    → ptr / 4096 ≢ s.addr / 4096
    → Given slabs bytes ptr slabs' bytes'
    → Given (s ∷ slabs) bytes ptr (s ∷ slabs') bytes'
freed_later s slabs slabs' bytes bytes' ptr v once apart g =
    let kept : (a : ℕ) → a / 4096 ≡ s.addr / 4096 → bytes' a ≡ bytes a =
      λ a h. ground (arith, g.outside a, once (a / 4096), h) in
    record {
      sound = (frame-Sound s bytes bytes' v.0 kept, g.sound);
      bound = g.bound;
      pages = λ x. omega (arith, g.pages x);
      lives = λ a. omega (arith, g.lives a, frame-live s bytes bytes' v.0 kept a);
      outside = λ a. ground (arith, g.outside a);
    }

-- With sound pages, no page twice, and an object of the cache in use at `ptr`, `free_slab_obj`
-- returns: the object is in use once less and all other objects are as before, the pages are sound
-- and the same, and no storage outside of them is written.
pub free_slab_obj-Given :
    (ptr : ℕ) (slabs : List Slab) (bytes : Bytes)
    → AllSound slabs bytes
    → ((a : ℕ) → bytes a < 256)
    → ((x : ℕ) → page_uses slabs x ≤ 1)
    → 1 ≤ live slabs bytes ptr
    → (r : List Slab × Bytes) × (free_slab_obj ptr slabs bytes ≡ some r)
      × Given slabs bytes ptr r.0 r.1
unfolding free_slab_obj
free_slab_obj-Given ptr [] bytes v b once h = absurd (omega arith)
free_slab_obj-Given ptr (s ∷ slabs) bytes v b once h =
    elim (ℕ_discrete (ptr / 4096) (s.addr / 4096)) [
      | yes e ↦
          let alone : live slabs bytes ptr ≡ 0 =
            live-elsewhere slabs bytes ptr v.1 (ground (arith, once (ptr / 4096), e)) in
          let f = live_in-Found s bytes ptr v.0 (omega (arith, alone)) in
          let page : (s.addr == ptr / 4096 * 4096) ≡ true = ground (arith, f.page) in
          (
            (emptied s ∷ slabs, cleared bytes s f.index),
            rw (free_slab_obj, page, f.objidx) refl,
            freed_here s slabs bytes ptr v b once f,
          )
      | no e ↦
          let other : live_in s bytes ptr ≡ 0 = live_in-elsewhere s bytes ptr v.0 e in
          let rest =
            free_slab_obj-Given ptr slabs bytes v.1 b (λ x. ground (arith, once x))
              (omega (arith, other)) in
          let page : (s.addr == ptr / 4096 * 4096) ≡ false = ground (arith, e) in
          (
            (s ∷ rest.0.0, rest.0.1),
            rw (free_slab_obj, page, rest.1) refl,
            freed_later s slabs rest.0.0 bytes rest.0.1 ptr v once e rest.2,
          )
    ]
