-- ===== src/Mm/Slab/Alloc.antt =====
-- `alloc_slab_obj` hands out an object that is not in use, and no other object of the cache
-- changes.
use hvf.Base.{
  ℕ, ◌+◌, ◌*◌, ◌/◌, ◌≤◌, ◌<◌, ◌≡◌, ◌⊎◌, inl, inr, refl, ap, sym, ◌∙◌, arith, if◌then◌else◌, List,
  [], ◌∷◌, ◌++◌, ◌==◌, false, Bool-cases, Bytes, clear, Option, some, Option-cases,
}
use mathlib.Core.Path.{subst}
use mathlib.Core.Option.{some-injective}
use hvf.Mm.Buddy.{Zones, Zone, alloc_pages}
use hvf.Mm.Buddy.Frames.{Found-cases}
use hvf.Mm.Buddy.Pages
use hvf.Mm.Buddy.Pages.{free, alloc_pages-Handed, Handed}
use hvf.Mm.Slab.{Slab, Heap, mask, bits, in_use, alloc_usable, alloc_in, new_slab, alloc_slab_obj}
use hvf.Base.{zero-bit_and}
use hvf.Mm.Slab.{obj_at, slab_magic}
use hvf.Mm.Slab.Bitmap.{has_bit, tally-zero}
use hvf.Mm.Slab.From.{
  page_uses, live, AllSound, alloc_usable-TakenFrom, taken_here, frame-AllSound, frame-lives,
  live-elsewhere,
}
use hvf.Mm.Slab.Taken.{Sound, live_in, alloc_in-TakenIn}

-- The pages of the cache and the free pages are no page twice, and the pages are sound.
pub record IsValid (slabs : List Slab) (h : Heap) : Type 0 where
  pub zones : Pages.IsValid h.zones
  pub bound : (a : ℕ) → h.bytes a < 256
  pub sound : AllSound slabs h.bytes
  pub once : (x : ℕ) → free x h.zones + page_uses slabs x ≤ 1

-- `obj` is an object of the cache that was not in use, and is in use once; all else is in use as
-- before. Storage outside of the cache's pages is as it was, and so are all free pages but those
-- that the cache took.
pub record Taken (slabs : List Slab) (h : Heap) (obj : ℕ) (slabs' : List Slab) (h' : Heap)
    : Type 0 where
  pub valid : IsValid slabs' h'
  pub unused : live slabs h.bytes obj ≡ 0
  pub lives : (a : ℕ) → live slabs' h'.bytes a ≡ (if obj == a then 1 else 0) + live slabs h.bytes a
  pub place : 1 ≤ page_uses slabs' (obj / 4096)
  pub pages : (x : ℕ) → free x h.zones + page_uses slabs x ≡ free x h'.zones + page_uses slabs' x
  pub outside : (a : ℕ) → (1 ≤ page_uses slabs' (a / 4096)) ⊎ (h'.bytes a ≡ h.bytes a)

module _ (t : Slab) where
  page_uses-append :
      (slabs : List Slab) (x : ℕ)
      → page_uses (slabs ++ t ∷ []) x ≡ page_uses slabs x + page_uses (t ∷ []) x
  page_uses-append [] x = omega arith
  page_uses-append (s ∷ slabs) x = omega (arith, page_uses-append slabs x)

  live-append :
      (slabs : List Slab) (bytes : Bytes) (a : ℕ)
      → live (slabs ++ t ∷ []) bytes a ≡ live slabs bytes a + live (t ∷ []) bytes a
  live-append [] bytes a = omega arith
  live-append (s ∷ slabs) bytes a = omega (arith, live-append slabs bytes a)

  AllSound-append :
      (slabs : List Slab) (bytes : Bytes)
      → AllSound slabs bytes
      → Sound t bytes
      → AllSound (slabs ++ t ∷ []) bytes
  AllSound-append [] bytes v w = (w, tt)
  AllSound-append (s ∷ slabs) bytes v w = (v.0, AllSound-append slabs bytes v.1 w)

-- A page that is added to the cache has no object in use.
new_slab-unused :
    (s : Slab) (bytes : Bytes) (p i : ℕ)
    → Sound s bytes
    → i < s.count
    → in_use (clear bytes (p * 4096) 4096) (new_slab s (p * 4096)) i ≡ false
new_slab-unused s bytes p i v h =
    let gone : clear bytes (p * 4096) 4096 (bits (new_slab s (p * 4096)) i) ≡ 0 =
      ground (arith, v.bitmap_inside) in
    ap (λ b. has_bit b i) gone ∙ ground (arith, zero-bit_and (mask i))

new_slab-Sound :
    (s : Slab) (bytes : Bytes) (p : ℕ)
    → Sound s bytes
    → Sound (new_slab s (p * 4096)) (clear bytes (p * 4096) 4096)
new_slab-Sound s bytes p v = record {
  counted = sym (
      tally-zero (in_use (clear bytes (p * 4096) 4096) (new_slab s (p * 4096))) (λ i. 1) s.count
        (λ k h. inl (new_slab-unused s bytes p k v h)));
  some_object = v.some_object;
  bitmap_inside = v.bitmap_inside;
  inside = v.inside;
  sized = v.sized;
  page = omega arith;
}

new_slab-live :
    (s : Slab) (bytes : Bytes) (p a : ℕ)
    → Sound s bytes
    → live_in (new_slab s (p * 4096)) (clear bytes (p * 4096) 4096) a ≡ 0
new_slab-live s bytes p a v =
    tally-zero (in_use (clear bytes (p * 4096) 4096) (new_slab s (p * 4096)))
      (λ i. if obj_at (new_slab s (p * 4096)) i == a then 1 else 0) s.count
      (λ k h. inl (new_slab-unused s bytes p k v h))

-- The object comes from a page that is added to the cache.
new_page-Taken :
    (type : Zone) (s : Slab) (slabs : List Slab) (h : Heap) (p : ℕ) (z : Zones)
    → IsValid (s ∷ slabs) h
    → Handed type p 0 h.zones z
    → let r = alloc_in (new_slab s (p * 4096)) (clear h.bytes (p * 4096) 4096) in
      Taken (s ∷ slabs) h r.0 ((s ∷ slabs) ++ r.1 ∷ []) (record { zones = z; bytes = r.2 })
new_page-Taken type s slabs h p z v f =
    let r = alloc_in (new_slab s (p * 4096)) (clear h.bytes (p * 4096) 4096) in
    let sound = new_slab-Sound s h.bytes p v.sound.0 in
    let bound : (a : ℕ) → clear h.bytes (p * 4096) 4096 a < 256 = λ a. ground (arith, v.bound a) in
    let t =
      taken_here (new_slab s (p * 4096)) [] (clear h.bytes (p * 4096) 4096) r.0 r.1 r.2 (sound, tt)
        bound (λ x. ground arith)
        (alloc_in-TakenIn (new_slab s (p * 4096)) (clear h.bytes (p * 4096) 4096) sound bound
          (omega (arith, v.sound.0.some_object))) in
    let own : (x : ℕ) → page_uses (r.1 ∷ []) x ≡ (if p == x then 1 else 0) =
      λ x. t.pages x ∙ ground arith in
    let kept : (a : ℕ) → 1 ≤ page_uses (s ∷ slabs) (a / 4096) → r.2 a ≡ h.bytes a =
      λ a q. ground (arith, t.outside a, v.once (a / 4096), f.frames (a / 4096), q) in
    let gone : live (s ∷ slabs) h.bytes r.0 ≡ 0 =
      live-elsewhere (s ∷ slabs) h.bytes r.0 v.sound
        (ground (arith, t.place, v.once p, f.frames p)) in
    let sum : (x : ℕ)
        → free x h.zones + page_uses (s ∷ slabs) x
          ≡ free x z + page_uses ((s ∷ slabs) ++ r.1 ∷ []) x =
      λ x. ground (arith, own x, f.frames x, page_uses-append r.1 (s ∷ slabs) x) in
    record {
      valid = record {
        zones = f.valid;
        bound = t.bound;
        sound =
            AllSound-append r.1 (s ∷ slabs) r.2
              (frame-AllSound h.bytes r.2 (s ∷ slabs) v.sound kept) t.sound.0;
        once = λ x. omega (arith, sum x, v.once x);
      };
      unused = gone;
      lives = λ a. omega (
        arith,
        live-append r.1 (s ∷ slabs) r.2 a,
        t.lives a,
        new_slab-live s h.bytes p a v.sound.0,
        frame-lives h.bytes r.2 (s ∷ slabs) a v.sound kept,
      );
      place =
          omega
            (arith, page_uses-append r.1 (s ∷ slabs) (r.0 / 4096), t.place, t.pages (r.0 / 4096));
      pages = sum;
      outside = λ a.
          ground (arith, t.outside a, own (a / 4096), page_uses-append r.1 (s ∷ slabs) (a / 4096));
    }

Taken-same :
    (slabs : List Slab) (h : Heap) (r r' : ℕ × List Slab × Heap)
    → ◌≡◌ {A = Option (ℕ × List Slab × Heap)} (some r) (some r')
    → Taken slabs h r.0 r.1 r.2
    → Taken slabs h r'.0 r'.1 r'.2
Taken-same slabs h r r' e t =
    let same : r ≡ r' = some-injective r r' e in subst (λ q. Taken slabs h q.0 q.1 q.2) same t

-- NULL, and nothing changed.
abbrev pub Refused : List Slab → Heap → ℕ × List Slab × Heap → Type 0
Refused slabs h r = (r.0 ≡ 0) × (r.1 ≡ slabs) × (r.2 ≡ h)

Refused-same :
    (slabs : List Slab) (h : Heap) (r : ℕ × List Slab × Heap)
    → ◌≡◌ {A = Option (ℕ × List Slab × Heap)} (some (0, slabs, h)) (some r)
    → Refused slabs h r
Refused-same slabs h r e =
    let same : (0, slabs, h) ≡ r = some-injective (0, slabs, h) r e in
    subst (λ q. Refused slabs h q) same (refl, refl, refl)

-- With the cache and the free pages valid, an allocation that returns gives NULL and changes
-- nothing, or it hands out an object that was not in use: then that object is in use once and all
-- other objects are as before, no page is in the cache and free, or in the cache twice, no other
-- pages are gained or lost, and no storage outside of the pages of the cache is written.
pub alloc_slab_obj-Taken :
    (type : Zone) (slabs slabs' : List Slab) (h h' : Heap) (obj : ℕ)
    → IsValid slabs h
    → alloc_slab_obj type slabs h ≡ some (obj, slabs', h')
    → Refused slabs h (obj, slabs', h') ⊎ Taken slabs h obj slabs' h'
unfolding alloc_slab_obj
alloc_slab_obj-Taken type [] slabs' h h' obj v e = inl (Refused-same [] h (obj, slabs', h') e)
alloc_slab_obj-Taken type (s ∷ slabs) slabs' h h' obj v e =
    elim (Bool-cases (s.magic == slab_magic)) [
      | inr bad ↦ absurd (ground (arith, bad))
      | inl good ↦ elim (Option-cases (alloc_usable type (s ∷ slabs) h.bytes)) [
        | inr ((o, later, left), f) ↦
            let t =
              alloc_usable-TakenFrom type (s ∷ slabs) later h.bytes left o v.sound v.bound
                (λ x. omega (arith, v.once x)) f in
            inr (
              Taken-same (s ∷ slabs) h (o, later, record h { bytes = left }) (obj, slabs', h')
                (rw (alloc_slab_obj, good, f) at e)
                (record {
                  valid = record {
                    zones = v.zones;
                    bound = t.bound;
                    sound = t.sound;
                    once = λ x. omega (arith, t.pages x, v.once x);
                  };
                  unused = t.unused;
                  lives = t.lives;
                  place = omega (arith, t.place, t.pages (o / 4096));
                  pages = λ x. omega (arith, t.pages x);
                  outside = λ a. ground (arith, t.outside a, t.pages (a / 4096));
                }))
        | inl f ↦ elim (Found-cases (alloc_pages 0 type h.zones)) [
          | inr (inl g) ↦
              inl (
                Refused-same (s ∷ slabs) h (obj, slabs', h') (rw (alloc_slab_obj, good, f, g) at e))
          | inr (inr g) ↦ absurd (ground (arith, good, f, g))
          | inl (p, z, g) ↦
              let r = alloc_in (new_slab s (p * 4096)) (clear h.bytes (p * 4096) 4096) in
              inr (
                Taken-same (s ∷ slabs) h
                  (r.0, (s ∷ slabs) ++ r.1 ∷ [], record { zones = z; bytes = r.2 })
                  (obj, slabs', h') (rw (alloc_slab_obj, good, f, g) at e)
                  (new_page-Taken type s slabs h p z v
                    (alloc_pages-Handed 0 type h.zones z p v.zones g)))
        ]
      ]
    ]
