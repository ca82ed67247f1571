-- ===== src/Nucleus/Sched/Places.antt =====
-- Where the tasks are: each process is current, or once in the run queue, or blocked.
use mathlib.Core.Path.{subst}
use mathlib.Core.Option.{some-injective}
use native.Mathlib.Decide.{ℕ_discrete}
use hvf.Base.{
  List-cases, inl, inr, inr, inl, ℕ, zero, suc, ◌+◌, ◌≤◌, ◌≡◌, ◌≢◌, refl, ap, sym, ◌∙◌, arith, Bool,
  true, false, List, [], ◌∷◌, ◌++◌, some, ◌==◌, if◌then◌else◌, Option-cases, Bool-cases,
}
use hvf.Mm.Slab.{free}
use hvf.Nucleus.Sched.{
  Cp, Task, TaskState, running, locked, Call, sched, switch_to, requeue, schedule, idle_until,
  with_regs, with_state, saved_task, with_task, list_del, make_runnable,
}

unfoldable pub occurs : ℕ → List ℕ → ℕ
occurs t [] = 0
occurs t (u ∷ us) = (if u == t then 1 else 0) + occurs t us

abbrev pub is_locked : TaskState → Bool
is_locked TaskState.locked = true
is_locked TaskState.running = false
is_locked TaskState.sleeping = false
is_locked TaskState.zombie = false

pub occurs-append :
    (t u : ℕ) (us : List ℕ) → occurs t (us ++ u ∷ []) ≡ occurs t us + (if u == t then 1 else 0)
unfolding occurs
occurs-append t u [] = omega arith
occurs-append t u (v ∷ us) = omega (arith, occurs-append t u us)

occurs-list_del :
    (t u : ℕ) (us : List ℕ)
    → 1 ≤ occurs u us
    → occurs t us ≡ (if u == t then 1 else 0) + occurs t (list_del u us)
unfolding occurs list_del
occurs-list_del t u [] h = absurd (omega arith)
occurs-list_del t u (v ∷ us) h = elim (Bool-cases (u == v)) [
  | inl e ↦ ground (arith, e)
  | inr e ↦ ground (arith, e, occurs-list_del t u us (ground (arith, e)))
]

module _ (idle : ℕ) where
  -- How often a task is current or in the run queue.
  abbrev pub ready : ℕ → Cp → ℕ
  ready t s = occurs t s.runnable + (if s.current == t then if idle == t then 0 else 1 else 0)

  -- A process is current or in the run queue once, or it is blocked and neither; other tasks are
  -- neither. The idle task is no process.
  pub record Placed (s : Cp) : Type 0 where
    pub once : (t : ℕ) → occurs t s.processes ≤ 1
    pub places :
        (t : ℕ) → ready t s ≡ (if is_locked (s.tasks t).state then 0 else occurs t s.processes)
    pub idle_task : occurs idle s.processes ≡ 0

  -- The state between `switch` and `__sched`: nothing is current.
  record Between (s : Cp) : Type 0 where
    pub once : (t : ℕ) → occurs t s.processes ≤ 1
    pub places :
        (t : ℕ)
        → occurs t s.runnable ≡ (if is_locked (s.tasks t).state then 0 else occurs t s.processes)
    pub idle_task : occurs idle s.processes ≡ 0

  sched-idle-Placed :
      (force : ℕ) (s : Cp) → Between s → Placed (switch_to force idle (s.tasks idle) s)
  sched-idle-Placed force s b = record {
    once = b.once;
    places = λ t. ground (arith, b.places t);
    idle_task = b.idle_task;
  }

  sched-next-Placed :
      (force next : ℕ) (rest : List ℕ) (s : Cp)
      → Between s
      → s.runnable ≡ next ∷ rest
      → Placed (
          switch_to force next
            (record (s.tasks next) { state = running })
            (record s { runnable = rest }))
  unfolding occurs
  sched-next-Placed force next rest s b e =
      let sum : (t : ℕ) → occurs t s.runnable ≡ (if next == t then 1 else 0) + occurs t rest =
        λ t. ap (occurs t) e in
      let process : occurs next s.processes ≡ 1 =
        ground (arith, b.places next, sum next, b.once next) in
      let other : next ≢ idle =
        λ q. absurd (omega (arith, process, b.idle_task, ap (λ u. occurs u s.processes) q)) in
      record {
        once = b.once;
        places = λ t. elim (ℕ_discrete next t) [
          | yes q ↦
              let alone : occurs t rest ≡ 0 = ground (arith, b.places t, sum t, b.once t, q) in
              let here : occurs t s.processes ≡ 1 =
                ap (λ u. occurs u s.processes) (sym q) ∙ process in
              ground (arith, alone, here, q, other)
          | no q ↦ ground (arith, b.places t, sum t, q)
        ];
        idle_task = b.idle_task;
      }

  sched-Placed : (force : ℕ) (s : Cp) → Between s → Placed (sched idle force s)
  unfolding sched
  sched-Placed (suc force) s b =
      let forced : (suc force == 0) ≡ false = ground arith in
      rw (sched, forced) (rw forced at (sched-idle-Placed (suc force) s b))
  sched-Placed zero s b = elim (List-cases s.runnable) [
    | inl e ↦ rw (sched, e) (sched-idle-Placed 0 s b)
    | inr (next, rest, e) ↦ rw (sched, e) (sched-next-Placed 0 next rest s b e)
  ]

  -- The task that calls, off the processor.
  abbrev left : Task → ℕ → Cp → Cp
  left saved now s = record s { ticks = now; tasks = with_task s.current saved s.tasks }

  module _ (s : Cp) (saved : Task) (now : ℕ) (p : Placed s) (n : s.current ≢ idle) where
    was_process : (occurs s.current s.processes ≡ 1) × (occurs s.current s.runnable ≡ 0)
    was_process = ground (arith, p.places s.current, p.once s.current, n)

    left-others :
        (t : ℕ)
        → s.current ≢ t
        → occurs t s.runnable ≡ (if is_locked (s.tasks t).state then 0 else occurs t s.processes)
    left-others t h = ground (arith, p.places t, h)

    locked-Between : saved.state ≡ locked → Between (left saved now s)
    locked-Between e = record {
      once = p.once;
      places = λ t. elim (ℕ_discrete s.current t) [
        | yes q ↦ ap (λ u. occurs u s.runnable) (sym q) ∙ was_process.1 ∙ ground (arith, q, e)
        | no q ↦ left-others t q ∙ ground (arith, q)
      ];
      idle_task = p.idle_task;
    }

    behind-Between :
        is_locked saved.state ≡ false
        → Between (record (left saved now s) { runnable = s.runnable ++ s.current ∷ [] })
    behind-Between e = record {
      once = p.once;
      places = λ t. elim (ℕ_discrete s.current t) [
        | yes q ↦
            let here : occurs t s.processes ≡ 1 =
              ap (λ u. occurs u s.processes) (sym q) ∙ was_process.0 in
            let alone : occurs t s.runnable ≡ 0 =
              ap (λ u. occurs u s.runnable) (sym q) ∙ was_process.1 in
            occurs-append t s.current s.runnable ∙ ground (arith, q, e, here, alone)
        | no q ↦ occurs-append t s.current s.runnable ∙ ground (arith, left-others t q, q)
      ];
      idle_task = p.idle_task;
    }

    zombie-Between :
        (s' : Cp)
        → is_locked saved.state ≡ false
        → s'.tasks ≡ with_task s.current saved s.tasks
        → s'.runnable ≡ s.runnable
        → s'.processes ≡ list_del s.current s.processes
        → Between s'
    zombie-Between s' e tasks runnable processes =
        let gone : (t : ℕ)
            → occurs t s.processes ≡ (if s.current == t then 1 else 0) + occurs t s'.processes =
          λ t.
            occurs-list_del t s.current s.processes (omega (arith, was_process.0))
            ∙ ap (λ l. (if s.current == t then 1 else 0) + occurs t l) (sym processes) in
        record {
          once = λ t. omega (arith, gone t, p.once t);
          places = λ t. ap (occurs t) runnable ∙ elim (ℕ_discrete s.current t) [
            | yes q ↦
                let here : occurs t s.processes ≡ 1 =
                  ap (λ u. occurs u s.processes) (sym q) ∙ was_process.0 in
                let alone : occurs t s.runnable ≡ 0 =
                  ap (λ u. occurs u s.runnable) (sym q) ∙ was_process.1 in
                rw tasks (ground (arith, gone t, q, e, here, alone))
            | no q ↦ rw tasks (ground (arith, left-others t q, gone t, q))
          ];
          idle_task = omega (arith, gone idle, p.idle_task);
        }

    requeue-Between :
        (newstate : TaskState) (s' : Cp)
        → saved.state ≡ newstate
        → requeue newstate s.current (left saved now s) ≡ some s'
        → Between s'
    unfolding requeue
    requeue-Between TaskState.locked s' e h =
        subst (λ r. Between r) (some-injective (left saved now s) s' h) (locked-Between e)
    requeue-Between TaskState.running s' e h =
        subst (λ r. Between r) (some-injective _ s' h) (behind-Between (ap is_locked e))
    requeue-Between TaskState.sleeping s' e h =
        subst (λ r. Between r) (some-injective _ s' h) (behind-Between (ap is_locked e))
    requeue-Between TaskState.zombie s' e h =
        elim (Option-cases (free s.current s.generic s.heap.bytes)) [
          | inl f ↦ absurd (ground (arith, f))
          | inr ((g, b), f) ↦
              let same = some-injective _ s' (rw (requeue, f) at h) in
              zombie-Between s' (ap is_locked e) (sym (ap (λ r. r.tasks) same))
                (sym (ap (λ r. r.runnable) same)) (sym (ap (λ r. r.processes) same))
        ]

  -- If each process is current or in the run queue, once, or blocked and neither, other tasks are
  -- neither, and the idle task is no process, then so it is after a `__schedule` that returns,
  -- whatever state the task that calls asks for.
  pub schedule-Placed : (c : Call) (s s' : Cp) → Placed s → schedule idle c s ≡ some s' → Placed s'
  unfolding schedule
  schedule-Placed c s s' p h = elim (ℕ_discrete s.current idle) [
    | yes i ↦
        let calm : Between (with_regs c s) = record {
          once = p.once;
          places = λ t. ground (arith, p.places t, i);
          idle_task = p.idle_task;
        } in
        let test : (s.current == idle) ≡ true = ground (arith, i) in
        subst (λ r. Placed r)
          (some-injective (sched idle 0 (with_regs c s)) s' (rw (schedule, test) at h))
          (sched-Placed 0 (with_regs c s) calm)
    | no i ↦ elim (Option-cases (requeue c.newstate s.current (with_state c s))) [
      | inl f ↦ absurd (ground (arith, i, f))
      | inr (s3, f) ↦
          let force = idle_until (s.tasks s.current).slice_end_time c.now in
          let test : (s.current == idle) ≡ false = ground (arith, i) in
          subst (λ r. Placed r)
            (some-injective (sched idle force s3) s' (rw (schedule, test, f) at h))
            (sched-Placed force s3
              (requeue-Between s (saved_task c s) c.now p i c.newstate s3 refl f))
    ]
  ]

  -- The same holds after a process that is blocked is made runnable.
  pub make_runnable-Placed :
      (t : ℕ) (s : Cp)
      → Placed s
      → (s.tasks t).state ≡ locked
      → occurs t s.processes ≡ 1
      → Placed (make_runnable t s)
  unfolding make_runnable
  make_runnable-Placed t s p e h = record {
    once = p.once;
    places = λ u. elim (ℕ_discrete t u) [
      | yes q ↦
          let here : occurs u s.processes ≡ 1 = ap (λ v. occurs v s.processes) (sym q) ∙ h in
          let blocked : is_locked (s.tasks u).state ≡ true =
            ap (λ v. is_locked (s.tasks v).state) (sym q) ∙ ap is_locked e in
          ground (arith, occurs-append u t s.runnable, p.places u, here, blocked, q)
      | no q ↦ ground (arith, occurs-append u t s.runnable, p.places u, q)
    ];
    idle_task = p.idle_task;
  }
