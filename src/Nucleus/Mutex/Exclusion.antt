-- ===== src/Nucleus/Mutex/Exclusion.antt =====
-- One task at a time owns the lock, and no task is blocked in the queue of a free lock.
use hvf.Base.{
  ℕ, ◌≡◌, inl, inr, ◌⊎◌, ◌≢◌, refl, false, sym, ◌∙◌, ap, true, Option, none, some, arith,
}
use hvf.Nucleus.Mutex.{Place, queued, blocked, Mutex, mutex_init, Run}
use hvf.Nucleus.Mutex.Sound.{owns, waits, is_task, owned, mutex_init-Sound, is_task-some}
use hvf.Nucleus.Mutex.Handed.{Run-Sound}

-- However the tasks interleave from a new mutex on, two tasks that own it are the same task: those
-- behind the lock, on their way out before they hand it over, or taken off the queue.
pub mutual_exclusion :
    {m : Mutex} (t u : ℕ)
    → Run mutex_init m
    → owns (m.place t) ≡ true
    → owns (m.place u) ≡ true
    → t ≡ u
mutual_exclusion {m} t u run a b =
    let s = Run-Sound run mutex_init-Sound in
    let mine = is_task-some s.owner t (sym (s.owners t) ∙ a) in
    let test : is_task (some t) u ≡ true =
      ap (λ o. is_task o u) (sym mine) ∙ sym (s.owners u) ∙ b in
    ground (arith, test)

owner_there :
    (o : Option ℕ) (place : ℕ → Place)
    → ((u : ℕ) → owns (place u) ≡ is_task o u)
    → 0 ≡ owned o
    → (t : ℕ) × (owns (place t) ≡ true)
owner_there none place all h = absurd (omega (arith, h))
owner_there (some t) place all h =
    let self : is_task (some t) t ≡ true = ground arith in (t, all t ∙ self)

-- A task that is blocked in the queue, or about to block there, never waits for a free mutex: a
-- task other than it owns the mutex. That task may be behind the lock, on its way out, off the queue
-- before it runs again, or `asleep`: made runnable before it blocked, and blocked after that.
pub blocked_has_owner :
    {m : Mutex} (u : ℕ)
    → Run mutex_init m
    → (m.place u ≡ queued) ⊎ (m.place u ≡ blocked)
    → (t : ℕ) × (owns (m.place t) ≡ true) × (t ≢ u)
blocked_has_owner {m} u run at =
    let s = Run-Sound run mutex_init-Sound in
    let waiting : waits (m.place u) ≡ 1 = elim at [ inl e ↦ rw e refl | inr e ↦ rw e refl ] in
    let no_owner : owns (m.place u) ≡ false = elim at [ inl e ↦ rw e refl | inr e ↦ rw e refl ] in
    elim s.no_free_wait [
      | inl empty ↦ absurd (ground (arith, s.queued u, empty, waiting))
      | inr held ↦
          let (t, own) = owner_there s.owner m.place s.owners (sym held ∙ s.state) in
          (t, own, λ e. absurd (cc (own, no_owner, ap (λ t. owns (m.place t)) e)))
    ]
