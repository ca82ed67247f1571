-- ===== src/Nucleus/Sched/RoundRobin.antt =====
-- A task that waits in the run queue runs in its turn.
use hvf.Base.{
  ℕ, zero, suc, ◌+◌, ◌*◌, ◌≤◌, ◌<◌, ◌≡◌, ◌⊎◌, inl, inr, refl, ap, sym, ◌∙◌, arith, Bool, true,
  false, List, [], ◌∷◌, ◌++◌, length, Option, none, some, ◌==◌, if◌then◌else◌, Option-cases,
  Bool-cases,
}
use mathlib.Core.List.{append_assoc}
use mathlib.Core.Option.{some-injective}
use mathlib.Core.Path.{subst}
use hvf.Mm.Slab.{free}
use hvf.Nucleus.Sched.{
  Cp, TaskState, Call, sched, requeue, schedule, idle_until, with_regs, with_state,
}

module _ (idle : ℕ) where
  -- A sequence of calls of `__schedule`: each one is made by the task that the one before it
  -- switched to.
  unfoldable pub run : List Call → Cp → Option Cp
  run [] s = some s
  run (c ∷ cs) s = elim (schedule idle c s) [ none ↦ none | some s' ↦ run cs s' ]

  -- Whether `t` is current after one of them.
  unfoldable pub runs : ℕ → List Call → Cp → Bool
  runs t [] s = false
  runs t (c ∷ cs) s = elim (schedule idle c s) [
    | none ↦ false
    | some s' ↦ elim (s'.current == t) [ true ↦ true | false ↦ runs t cs s' ]
  ]

  -- A bound on the calls until the task runs that has the tasks `before` ahead of it.
  abbrev turns : List ℕ → Cp → ℕ
  turns before s = (if s.current == idle then 1 else 2) + 2 * length before

  -- `t` runs, or still waits and has fewer than `n` calls to wait for.
  record Waits (t n : ℕ) (s : Cp) : Type 0 where
    pub before : List ℕ
    pub after : List ℕ
    pub waiting : s.runnable ≡ before ++ t ∷ after
    pub fewer : turns before s < n

  Waits-same : (t n : ℕ) (s s' : Cp) (m : ℕ) → s ≡ s' → n ≤ m → Waits t n s → Waits t m s'
  Waits-same t n s s' m e h w =
      subst (λ o. Waits t m o) e
        (record {
          before = w.before;
          after = w.after;
          waiting = w.waiting;
          fewer = omega (arith, w.fewer);
        })

  -- Without a forced idle the head of the queue runs.
  sched-next :
      (t : ℕ) (s : Cp) (before after : List ℕ)
      → s.runnable ≡ before ++ t ∷ after
      → ((sched idle 0 s).current ≡ t) ⊎ Waits t (1 + 2 * length before) (sched idle 0 s)
  unfolding sched
  sched-next t s [] after e = inl (rw (sched, e) refl)
  sched-next t s (x ∷ before) after e = inr (
      rw (sched, e)
        (record { before = before; after = after; waiting = refl; fewer = ground arith }))

  sched-turn :
      (force t : ℕ) (s : Cp) (before after : List ℕ)
      → s.runnable ≡ before ++ t ∷ after
      → ((sched idle force s).current ≡ t) ⊎ Waits t (2 + 2 * length before) (sched idle force s)
  unfolding sched
  sched-turn zero t s before after e = elim (sched-next t s before after e) [
    | inl r ↦ inl r
    | inr w ↦ inr (record {
      before = w.before;
      after = w.after;
      waiting = w.waiting;
      fewer = omega (arith, w.fewer);
    })
  ]
  sched-turn (suc force) t s before after e =
      let forced : (suc force == 0) ≡ false = ground arith in
      inr (
        rw (sched, forced)
          (record { before = before; after = after; waiting = e; fewer = ground arith }))

  abbrev behind : ℕ → Cp → Cp
  behind prev s = record s { runnable = s.runnable ++ prev ∷ [] }

  -- The task that calls may go behind the others.
  requeue-waiting :
      (newstate : TaskState) (prev t : ℕ) (s s' : Cp) (before after : List ℕ)
      → s.runnable ≡ before ++ t ∷ after
      → requeue newstate prev s ≡ some s'
      → (after' : List ℕ) × (s'.runnable ≡ before ++ t ∷ after')
  unfolding requeue
  requeue-waiting TaskState.zombie prev t s s' before after e h =
      elim (Option-cases (free prev s.generic s.heap.bytes)) [
        | inl f ↦ absurd (ground (arith, f))
        | inr ((g, b), f) ↦
            (after, ap (λ o. o.runnable) (sym (some-injective _ s' (rw (requeue, f) at h))) ∙ e)
      ]
  requeue-waiting TaskState.locked prev t s s' before after e h =
      (after, ap (λ o. o.runnable) (sym (some-injective s s' h)) ∙ e)
  requeue-waiting TaskState.running prev t s s' before after e h = (
    after ++ prev ∷ [],
    ap (λ o. o.runnable) (sym (some-injective (behind prev s) s' h))
        ∙ ap (λ l. l ++ prev ∷ []) e
        ∙ append_assoc before (t ∷ after) (prev ∷ []),
  )
  requeue-waiting TaskState.sleeping prev t s s' before after e h = (
    after ++ prev ∷ [],
    ap (λ o. o.runnable) (sym (some-injective (behind prev s) s' h))
        ∙ ap (λ l. l ++ prev ∷ []) e
        ∙ append_assoc before (t ∷ after) (prev ∷ []),
  )

  schedule-turn :
      (c : Call) (t : ℕ) (s s' : Cp) (before after : List ℕ)
      → s.runnable ≡ before ++ t ∷ after
      → schedule idle c s ≡ some s'
      → (s'.current ≡ t) ⊎ Waits t (turns before s) s'
  unfolding schedule
  schedule-turn c t s s' before after e h = elim (Bool-cases (s.current == idle)) [
    | inl i ↦
        let same : sched idle 0 (with_regs c s) ≡ s' =
          some-injective (sched idle 0 (with_regs c s)) s' (rw (schedule, i) at h) in
        elim (sched-next t (with_regs c s) before after e) [
          | inl r ↦ inl (ap (λ o. o.current) (sym same) ∙ r)
          | inr w ↦ inr (
              Waits-same t (1 + 2 * length before) (sched idle 0 (with_regs c s)) s'
                (turns before s) same (ground (arith, i)) w)
        ]
    | inr i ↦ elim (Option-cases (requeue c.newstate s.current (with_state c s))) [
      | inl f ↦ absurd (ground (arith, i, f))
      | inr (s3, f) ↦
          let force = idle_until (s.tasks s.current).slice_end_time c.now in
          let q = requeue-waiting c.newstate s.current t (with_state c s) s3 before after e f in
          let same : sched idle force s3 ≡ s' =
            some-injective (sched idle force s3) s' (rw (schedule, i, f) at h) in
          elim (sched-turn force t s3 before q.0 q.1) [
            | inl r ↦ inl (ap (λ o. o.current) (sym same) ∙ r)
            | inr w ↦ inr (
                Waits-same t (2 + 2 * length before) (sched idle force s3) s' (turns before s) same
                  (ground (arith, i)) w)
          ]
    ]
  ]

  -- Waiting for fewer calls than there are.
  runs-waiting :
      (cs : List Call) (t : ℕ) (s s' : Cp) (before after : List ℕ)
      → s.runnable ≡ before ++ t ∷ after
      → turns before s ≤ length cs
      → run cs s ≡ some s'
      → runs t cs s ≡ true
  unfolding run runs
  runs-waiting [] t s s' before after e h r = absurd (ground arith)
  runs-waiting (c ∷ cs) t s s' before after e h r = elim (Option-cases (schedule idle c s)) [
    | inl f ↦ absurd (ground (arith, f))
    | inr (s1, f) ↦ elim (schedule-turn c t s s1 before after e f) [
      | inl now ↦ ground (arith, f, now)
      | inr w ↦
          let later =
            runs-waiting cs t s1 s' w.before w.after w.waiting (omega (arith, w.fewer))
              (ground (arith, f)) in
          ground (arith, f, later)
    ]
  ]

  -- A task that is in the run queue behind `n` others is current after one of the next 2 * (n + 1)
  -- calls of `__schedule`, if none of these ends in a BUG: whatever states the tasks ahead of it
  -- ask for, and however often the idle task is forced.
  pub runs_in_turn :
      (cs : List Call) (t : ℕ) (s s' : Cp) (before after : List ℕ)
      → s.runnable ≡ before ++ t ∷ after
      → 2 * (length before + 1) ≤ length cs
      → run cs s ≡ some s'
      → runs t cs s ≡ true
  runs_in_turn cs t s s' before after e h r = runs-waiting cs t s s' before after e (ground arith) r
