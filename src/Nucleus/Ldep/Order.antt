-- ===== src/Nucleus/Ldep/Order.antt =====
-- What the tracker records of the locks that a task holds.
use hvf.Base.{
  ℕ, zero, suc, ◌+◌, ◌-◌, ◌≤◌, ◌<◌, ◌≡◌, inl, inr, refl, ap, sym, ◌∙◌, arith, true, false, List,
  none, some, ◌==◌, length, get_or, set, get_or-set_self, get_or-set_ne, Bool-cases,
}
use native.Mathlib.Decide.{ℕ_discrete}
use hvf.Nucleus.Ldep.{
  push_lock, HeldLock, Ldep, no_lock, class_held, ldep_lock, find_lock, mix, copy_slot, drop_lock,
  ldep_unlock,
}

-- The lock in slot `i`, and its class.
abbrev pub lock_at : Ldep → ℕ → ℕ
lock_at s i = (get_or s.lock_stack i no_lock).lock

abbrev pub class_at : Ldep → ℕ → ℕ
class_at s i = (get_or s.lock_stack i no_lock).lclass

-- No bytes of a pointer, of 64 bits, are copied.
mix_none :
    (new old : ℕ) → new < 18446744073709551616 → old < 18446744073709551616 → mix 0 new old ≡ old
mix_none new old h h' = ground arith

copy_slot-keeps :
    (n : ℕ) (new old : HeldLock)
    → n ≤ 8
    → new.lock < 18446744073709551616
    → old.lock < 18446744073709551616
    → new.lclass < 18446744073709551616
    → old.lclass < 18446744073709551616
    → ((copy_slot n new old).lock ≡ old.lock) × ((copy_slot n new old).lclass ≡ old.lclass)
copy_slot-keeps n new old h a b c d =
    let first : n - 8 ≡ 0 = omega arith in
    let last : n - 24 ≡ 0 = omega arith in
    (rw first (mix_none new.lock old.lock a b), rw last (mix_none new.lclass old.lclass c d))

count_lem : (i : ℕ) (s : Ldep) → (drop_lock i s).nr_locks ≡ s.nr_locks - 1
unfolding drop_lock
count_lem i s = refl

-- Pointers of 64 bits, in ten slots.
pub record IsStack (s : Ldep) : Type 0 where
  pub slots : length s.lock_stack ≡ 10
  pub lock_bits : (k : ℕ) → lock_at s k < 18446744073709551616
  pub class_bits : (k : ℕ) → class_at s k < 18446744073709551616

drop_lock-slots :
    (i j : ℕ) (s : Ldep)
    → IsStack s
    → s.nr_locks ≤ 9
    → i < s.nr_locks
    → (lock_at (drop_lock i s) j ≡ lock_at s j) × (class_at (drop_lock i s) j ≡ class_at s j)
unfolding drop_lock
drop_lock-slots i j s v h l = elim (Bool-cases (i == (s.nr_locks - 1))) [
  | inl e ↦ rw e (refl, refl)
  | inr e ↦
      let n = s.nr_locks - i - 1 in
      let new = get_or s.lock_stack (i + 1) no_lock in
      let old = get_or s.lock_stack i no_lock in
      let kept =
        copy_slot-keeps n new old (omega arith) (v.lock_bits (i + 1)) (v.lock_bits i)
          (v.class_bits (i + 1)) (v.class_bits i) in
      rw e (elim (ℕ_discrete i j) [
        | yes q ↦
            let here =
              get_or-set_self s.lock_stack i (copy_slot n new old) no_lock
                (omega (arith, v.slots)) in
            let there =
              ap (λ k. get_or (set s.lock_stack i (copy_slot n new old)) k no_lock) (sym q) in
            (
              ap (λ o. o.lock) (there ∙ here) ∙ kept.0 ∙ ap (lock_at s) q,
              ap (λ o. o.lclass) (there ∙ here) ∙ kept.1 ∙ ap (class_at s) q,
            )
        | no q ↦
            let other = get_or-set_ne s.lock_stack i j (copy_slot n new old) no_lock q in
            (ap (λ o. o.lock) other, ap (λ o. o.lclass) other)
      ])
]

find_lock-bound :
    (lock : ℕ) (slots : List HeldLock) (n from i : ℕ)
    → find_lock lock slots n from ≡ some i
    → i < from + n
unfolding find_lock
find_lock-bound lock slots zero from i e = absurd (ground arith)
find_lock-bound lock slots (suc n) from i e =
    elim (Bool-cases ((get_or slots from no_lock).lock == lock)) [
      | inl here ↦ ground (arith, here)
      | inr later ↦ omega (arith, find_lock-bound lock slots n (from + 1) i (ground (arith, later)))
    ]

-- With tracking on, up to nine locks held and pointers of 64 bits, releasing a lock that the task
-- holds leaves one lock less, and every slot keeps its lock and its class: whichever lock is
-- released, it is the last one that the tracker forgets. (`memcpy` moves down as many bytes as it
-- should move slots.)
pub unlock_forgets_last :
    (lock i j : ℕ) (s : Ldep)
    → IsStack s
    → s.enabled ≡ true
    → s.nr_locks ≤ 9
    → find_lock lock s.lock_stack s.nr_locks 0 ≡ some i
    → ((ldep_unlock lock s).nr_locks ≡ s.nr_locks - 1)
      × (lock_at (ldep_unlock lock s) j ≡ lock_at s j)
      × (class_at (ldep_unlock lock s) j ≡ class_at s j)
unfolding ldep_unlock
unlock_forgets_last lock i j s v on h e =
    let slots =
      drop_lock-slots i j s v h
        (omega (arith, find_lock-bound lock s.lock_stack s.nr_locks 0 i e)) in
    let same : ldep_unlock lock s ≡ drop_lock i s = ground (arith, on, e) in
    rw same (count_lem i s, slots.0, slots.1)

-- With tracking on and nine locks held, two more locks of classes that are not held: the first is
-- counted and not recorded, and for the second the tracker, still on, writes past the end of its
-- ten slots.
pub lock_overruns :
    (h h' : HeldLock) (s : Ldep)
    → s.enabled ≡ true
    → s.nr_locks ≡ 9
    → class_held h.lclass s.lock_stack 9 0 ≡ false
    → class_held h'.lclass s.lock_stack 10 0 ≡ false
    → let s' = record s { nr_locks = 10 } in (ldep_lock h s ≡ some s') × (ldep_lock h' s' ≡ none)
unfolding ldep_lock push_lock
lock_overruns h h' s on nine first second =
    (rw (ldep_lock, on, nine, first) refl, rw (ldep_lock, on, second) refl)
