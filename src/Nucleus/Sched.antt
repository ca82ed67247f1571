-- ===== src/Nucleus/Sched.antt =====
-- The scheduler, cp/nucleus/sched.c and cp/include/sched.h. A task is known by the address of its
-- `struct task`; `idle` is that of `idle_task`. `none` is a BUG, or memory of no cache given back.
pub mod RoundRobin
pub mod Places
pub mod Created
use hvf.Base.{
  ℕ, zero, suc, ◌+◌, ◌-◌, ◌*◌, ◌%◌, ◌/◌, Bool, true, false, not, ◌||◌, List, [], ◌∷◌, ◌++◌, Option,
  none, some, ltb, leb, ◌==◌, if◌then◌else◌, take,
}
use hvf.Mm.Buddy
use hvf.Mm.Buddy.{Found, page, nothing, out_of_array, normal, alloc_pages, free_pages}
use hvf.Mm.Slab.{Heap, Generic, malloc, free}
use hvf.Guest.{Psw}
use hvf.Guest.Reset.{zero_psw}

-- `TASK_RUNNING`, `TASK_SLEEPING`, `TASK_LOCKED` and `TASK_ZOMBIE`
pub data TaskState : Type 0 where
  running sleeping locked zombie : TaskState

-- `struct regs`
pub record Regs : Type 0 where
  pub psw : Psw
  pub gpr : ℕ → ℕ
  pub cr1 : ℕ

-- `struct task`, less its places in lists.
pub record Task : Type 0 where
  pub regs : Regs
  pub slice_end_time : ℕ
  pub state : TaskState
  pub stack : ℕ
  pub name : List ℕ
  pub nr_locks : ℕ

-- The lists of the scheduler, `current`, the clock, and the memory that tasks stand in.
pub record Cp : Type 0 where
  pub tasks : ℕ → Task
  pub runnable : List ℕ
  pub processes : List ℕ
  pub current : ℕ
  pub ticks : ℕ
  pub generic : Generic
  pub heap : Heap

-- `SCHED_TICKS_PER_SLICE`
abbrev pub ticks_per_slice : ℕ
ticks_per_slice = 100 / 30

abbrev pub task_name_len : ℕ
task_name_len = 16

abbrev pub with_task : ℕ → Task → (ℕ → Task) → ℕ → Task
with_task t task tasks u = if t == u then task else tasks u

-- `list_del`
unfoldable pub list_del : ℕ → List ℕ → List ℕ
list_del t [] = []
list_del t (u ∷ us) = if t == u then us else u ∷ list_del t us

-- `__init_task`; `start` is the address of `start_task`.
unfoldable pub init_task : ℕ → ℕ → ℕ → ℕ → Task
init_task start f data_ptr stack = record {
  regs = record {
    psw = record zero_psw { io = 1; ex = 1; m = 1; ea = 1; ba = 1; ptr = start };
    gpr = λ r.
        if r == 2
        then f
        else if r == 3
        then data_ptr
        else if r == 15
        then stack + (4096 - 160)
        else 0;
    cr1 = 0;
  };
  slice_end_time = 0;
  state = TaskState.sleeping;
  stack = stack;
  name = [];
  nr_locks = 0;
}

-- `page_to_addr(NULL)`, as a page number.
abbrev pub null_page : ℕ
null_page = 4503599627108352

-- The stack that `create_task` allocates: a page number or NULL.
unfoldable pub alloc_stack : Heap → Option (Option ℕ × Heap)
alloc_stack h = elim (alloc_pages 0 normal h.zones) [
  | page p z ↦ some (some p, record h { zones = z })
  | nothing ↦ some (none, h)
  | out_of_array ↦ none
]

-- The label `out` of `create_task`.
unfoldable pub undo_create : Option ℕ → ℕ → Cp → Option Cp
undo_create stack task s = elim (free task s.generic s.heap.bytes) [
  | none ↦ none
  | some (generic, bytes) ↦
      let p : ℕ = elim stack [ none ↦ null_page | some q ↦ q ] in
      some (record s {
        generic = generic;
        heap = record { zones = free_pages p 0 s.heap.zones; bytes = bytes };
      })
]

-- The task is set up and added to both lists.
abbrev pub add_task : ℕ → Task → Cp → Cp
add_task t task s = record s {
  tasks = with_task t task s.tasks;
  processes = s.processes ++ t ∷ [];
  runnable = s.runnable ++ t ∷ [];
}

-- `create_task` behind the allocations, with the stack's page or NULL and the task or NULL.
unfoldable pub finish_create : Option ℕ → ℕ → ℕ → List ℕ → ℕ → ℕ → Cp → Option (ℕ × Cp)
finish_create none t start name f data_ptr s = elim (undo_create none t s) [
  | none ↦ none
  | some u ↦ some (0, u)
]
finish_create (some p) t start name f data_ptr s =
    if t == 0
    then elim (undo_create (some p) t s) [ none ↦ none | some u ↦ some (0, u) ]
    else some (
      t,
      add_task t (record (init_task start f data_ptr (p * 4096)) { name = take task_name_len name })
          s,
    )

-- `create_task`: the task, or 0 for -ENOMEM. `size` is that of `struct task`.
unfoldable pub create_task : ℕ → ℕ → List ℕ → ℕ → ℕ → Cp → Option (ℕ × Cp)
create_task size start name f data_ptr s = elim (alloc_stack s.heap) [
  | none ↦ none
  | some (stack, h1) ↦ elim (malloc size normal s.generic h1) [
    | none ↦ none
    | some (t, generic, h2) ↦
        finish_create stack t start name f data_ptr (record s { generic = generic; heap = h2 })
  ]
]

-- A `u64` that an `int` holds, as a `u64` again.
abbrev pub through_int : ℕ → ℕ
through_int v = let w = v % 4294967296 in if ltb w 2147483648 then w else w + 18446744069414584320

-- From the label `run` of `__sched`, as far as the task is made current.
abbrev pub switch_to : ℕ → ℕ → Task → Cp → Cp
switch_to force_idle next task s =
    let until = if force_idle == 0 then s.ticks + ticks_per_slice else force_idle in
    record s {
      tasks = with_task next (record task { slice_end_time = until }) s.tasks;
      current = next;
    }

-- The switch on `newstate`, of the task `prev`.
unfoldable pub requeue : TaskState → ℕ → Cp → Option Cp
requeue TaskState.zombie prev s = elim (free prev s.generic s.heap.bytes) [
  | none ↦ none
  | some (generic, bytes) ↦ some (record s {
    processes = list_del prev s.processes;
    generic = generic;
    heap = record {
      zones = free_pages ((s.tasks prev).stack / 4096) 0 s.heap.zones;
      bytes = bytes;
    };
  })
]
requeue TaskState.locked prev s = some s
requeue TaskState.running prev s = some (record s { runnable = s.runnable ++ prev ∷ [] })
requeue TaskState.sleeping prev s = some (record s { runnable = s.runnable ++ prev ∷ [] })

-- What `__schedule` is called with: the state, the old PSW, the registers at the interruption and
-- `ticks`.
pub record Call : Type 0 where
  pub newstate : TaskState
  pub old_psw : Psw
  pub int_gpr : ℕ → ℕ
  pub int_cr1 : ℕ
  pub now : ℕ

-- `force_idle`
abbrev pub idle_until : ℕ → ℕ → ℕ
idle_until slice_end now =
    if leb (now + ticks_per_slice) slice_end then through_int slice_end else 0

-- The registers of the task that calls are saved; then, if that is not the idle task, also `cr1`
-- and its state.
abbrev pub with_regs : Call → Cp → Cp
with_regs c s =
    let prev = s.tasks s.current in
    let regs = record prev.regs { psw = c.old_psw; gpr = c.int_gpr } in
    record s { ticks = c.now; tasks = with_task s.current (record prev { regs = regs }) s.tasks }

abbrev pub saved_task : Call → Cp → Task
saved_task c s =
    let prev = s.tasks s.current in
    record prev {
      regs = record prev.regs { psw = c.old_psw; gpr = c.int_gpr; cr1 = c.int_cr1 };
      state = c.newstate;
    }

abbrev pub with_state : Call → Cp → Cp
with_state c s = record s { ticks = c.now; tasks = with_task s.current (saved_task c s) s.tasks }

module _ (idle : ℕ) where
  -- `__sched`
  unfoldable pub sched : ℕ → Cp → Cp
  sched force_idle s =
      if not (force_idle == 0)
      then switch_to force_idle idle (s.tasks idle) s
      else elim s.runnable [
        | [] ↦ switch_to force_idle idle (s.tasks idle) s
        | next ∷ rest ↦
            switch_to force_idle next (record (s.tasks next) { state = TaskState.running })
              (record s { runnable = rest })
      ]

  -- `__schedule`
  unfoldable pub schedule : Call → Cp → Option Cp
  schedule c s =
      if s.current == idle
      then some (sched 0 (with_regs c s))
      else elim (requeue c.newstate s.current (with_state c s)) [
        | none ↦ none
        | some s' ↦ some (sched (idle_until (s.tasks s.current).slice_end_time c.now) s')
      ]

-- `make_runnable`
unfoldable pub make_runnable : ℕ → Cp → Cp
make_runnable t s = record s {
  tasks = with_task t (record (s.tasks t) { state = TaskState.sleeping }) s.tasks;
  runnable = s.runnable ++ t ∷ [];
}
