-- ===== src/Nucleus/Sched/Created.antt =====
-- A task that is created is a process in the run queue.
use mathlib.Core.Path.{subst}
use mathlib.Core.Option.{some-injective}
use native.Mathlib.Decide.{ℕ_discrete}
use hvf.Base.{
  ◌*◌, take, inl, inr, inr, inl, ◌*◌, ℕ, ◌≡◌, ◌≢◌, refl, ap, sym, ◌∙◌, arith, true, false, List,
  Option, none, some, ◌==◌, Option-cases,
}
use hvf.Mm.Slab.{Heap, Generic, free, malloc}
use hvf.Mm.Buddy.{normal}
use hvf.Nucleus.Sched.{
  Cp, Task, sleeping, add_task, finish_create, create_task, undo_create, alloc_stack, init_task,
  task_name_len,
}
use hvf.Nucleus.Sched.Places.{occurs, occurs-append, Placed}

-- The parts of the state that the invariant is about.
record SameLists (s s' : Cp) : Type 0 where
  pub tasks : s'.tasks ≡ s.tasks
  pub runnable : s'.runnable ≡ s.runnable
  pub processes : s'.processes ≡ s.processes
  pub current : s'.current ≡ s.current

undo_create-SameLists :
    (stack : Option ℕ) (t : ℕ) (s s' : Cp) → undo_create stack t s ≡ some s' → SameLists s s'
unfolding undo_create
undo_create-SameLists stack t s s' h = elim (Option-cases (free t s.generic s.heap.bytes)) [
  | inl f ↦ absurd (ground (arith, f))
  | inr ((g, b), f) ↦
      let same = some-injective _ s' (rw (undo_create, f) at h) in
      record {
        tasks = sym (ap (λ r. r.tasks) same);
        runnable = sym (ap (λ r. r.runnable) same);
        processes = sym (ap (λ r. r.processes) same);
        current = sym (ap (λ r. r.current) same);
      }
]

ready_state : (start f data_ptr stack : ℕ) → (init_task start f data_ptr stack).state ≡ sleeping
unfolding init_task
ready_state start f data_ptr stack = refl

module _ (idle : ℕ) where
  SameLists-Placed : (s s' : Cp) → SameLists s s' → Placed idle s → Placed idle s'
  SameLists-Placed s s' l p = record {
    once = λ t. rw (l.processes) (p.once t);
    places = λ t. rw (l.tasks, l.runnable, l.processes, l.current) (p.places t);
    idle_task = rw (l.processes) p.idle_task;
  }

  add_task-Placed :
      (t : ℕ) (task : Task) (s : Cp)
      → Placed idle s
      → occurs t s.processes ≡ 0
      → t ≢ idle
      → task.state ≡ sleeping
      → Placed idle (add_task t task s)
  add_task-Placed t task s p h n e = record {
    once = λ u. elim (ℕ_discrete t u) [
      | yes q ↦
          let here : occurs u s.processes ≡ 0 = ap (λ v. occurs v s.processes) (sym q) ∙ h in
          ground (arith, occurs-append u t s.processes, here)
      | no q ↦ ground (arith, occurs-append u t s.processes, p.once u, q)
    ];
    places = λ u. elim (ℕ_discrete t u) [
      | yes q ↦
          let here : occurs u s.processes ≡ 0 = ap (λ v. occurs v s.processes) (sym q) ∙ h in
          ground (
            arith,
            occurs-append u t s.runnable,
            occurs-append u t s.processes,
            p.places u,
            here,
            q,
            e,
          )
      | no q ↦
          ground (arith, occurs-append u t s.runnable, occurs-append u t s.processes, p.places u, q)
    ];
    idle_task = ground (arith, occurs-append idle t s.processes, p.idle_task, n);
  }

  failed-Placed :
      (stack : Option ℕ) (t r : ℕ) (s s' : Cp)
      → Placed idle s
      → (o : Option Cp) → undo_create stack t s ≡ o
      → ◌≡◌ {A = Option (ℕ × Cp)} (elim o [ none ↦ none | some u ↦ some (0, u) ]) (some (r, s'))
      → Placed idle s'
  failed-Placed stack t r s s' p none e h = absurd (ground arith)
  failed-Placed stack t r s s' p (some u) e h =
      let same : (0, u) ≡ (r, s') = some-injective (0, u) (r, s') h in
      subst (λ q. Placed idle q.1) same
        (SameLists-Placed s u (undo_create-SameLists stack t s u e) p)

  finish_create-Placed :
      (stack : Option ℕ) (t start : ℕ) (name : List ℕ) (f data_ptr r : ℕ) (s s' : Cp)
      → Placed idle s
      → occurs t s.processes ≡ 0
      → t ≢ idle
      → finish_create stack t start name f data_ptr s ≡ some (r, s')
      → Placed idle s'
  unfolding finish_create
  finish_create-Placed none t start name f data_ptr r s s' p h n e =
      failed-Placed none t r s s' p (undo_create none t s) refl e
  finish_create-Placed (some q) t start name f data_ptr r s s' p h n e = elim (ℕ_discrete t 0) [
    | yes z ↦
        let test : (t == 0) ≡ true = ground (arith, z) in
        failed-Placed (some q) t r s s' p (undo_create (some q) t s) refl
          (rw (finish_create, test) at e)
    | no z ↦
        let test : (t == 0) ≡ false = ground (arith, z) in
        let task = record (init_task start f data_ptr (q * 4096)) {
          name = take task_name_len name;
        } in
        let made : (t, add_task t task s) ≡ (r, s') =
          some-injective (t, add_task t task s) (r, s') (rw (finish_create, test) at e) in
        subst (λ o. Placed idle o.1) made
          (add_task-Placed t task s p h n (ready_state start f data_ptr (q * 4096)))
  ]

  -- With the processes in their places, allocations that return, and a `malloc` that gives neither
  -- the idle task nor a process, `create_task` leaves the processes in their places, whether it
  -- adds a task or fails for want of memory.
  pub create_task-Placed :
      (size start : ℕ) (name : List ℕ) (f data_ptr r t : ℕ) (stack : Option ℕ) (g : Generic)
      (h1 h2 : Heap) (s s' : Cp)
      → Placed idle s
      → alloc_stack s.heap ≡ some (stack, h1)
      → malloc size normal s.generic h1 ≡ some (t, g, h2)
      → occurs t s.processes ≡ 0
      → t ≢ idle
      → create_task size start name f data_ptr s ≡ some (r, s')
      → Placed idle s'
  unfolding create_task
  create_task-Placed size start name f data_ptr r t stack g h1 h2 s s' p a m new other e =
      finish_create-Placed stack t start name f data_ptr r (record s { generic = g; heap = h2 }) s'
        (SameLists-Placed s (record s { generic = g; heap = h2 })
          (record { tasks = refl; runnable = refl; processes = refl; current = refl }) p)
        new other (rw (create_task, a, m) at e)
