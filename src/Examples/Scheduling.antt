-- ===== src/Examples/Scheduling.antt =====
-- Two processes, 5 which is current and 6 which waits, and 7 which is blocked. The idle task is 1.
use hvf.Base.{ℕ, ◌≡◌, refl, [], ◌∷◌, Option, true, some, none, arith}
use hvf.Mm.Buddy.{normal, alloc_pages, try_alloc, try_low, do_alloc_pages, search_larger}
use hvf.Mm.Slab.{
  Generic, Heap, malloc, size_class, alloc_slab_obj, alloc_usable, alloc_in, first_unused,
}
use hvf.Guest.Reset.{zero_psw}
use hvf.Nucleus.Sched.{
  Cp, sleeping, locked, Call, with_task, schedule, sched, requeue, alloc_stack, finish_create,
  create_task, init_task,
}
use hvf.Nucleus.Sched.RoundRobin.{run, runs, runs_in_turn}
use hvf.Nucleus.Sched.Places.{occurs, Placed, schedule-Placed}
use hvf.Nucleus.Sched.Created.{create_task-Placed}
use hvf.Examples.Slabs.{slab_heap, page_of_512, unused}

abbrev cp : Cp
cp = record {
  tasks =
      with_task 7 (record (init_task 0 0 0 32768) { state = locked }) (λ t. init_task 0 0 0 32768);
  runnable = 6 ∷ [];
  processes = 5 ∷ 6 ∷ 7 ∷ [];
  current = 5;
  ticks = 9;
  generic = λ k. page_of_512 0 ∷ [];
  heap = slab_heap unused;
}

cp-Placed : Placed 1 cp
unfolding occurs init_task
cp-Placed = record { once = λ t. ground arith; places = λ t. ground arith; idle_task = refl }

abbrev yields : Call
yields = record { newstate = sleeping; old_psw = zero_psw; int_gpr = λ r. 0; int_cr1 = 0; now = 10 }

abbrev state_of : Option Cp → Cp
state_of none = cp
state_of (some s) = s

runs_in_turn_example : runs 1 6 (yields ∷ yields ∷ []) cp ≡ true
unfolding run schedule sched requeue init_task
runs_in_turn_example =
    runs_in_turn 1 (yields ∷ yields ∷ []) 6 cp (state_of (run 1 (yields ∷ yields ∷ []) cp)) [] []
      refl (omega arith) refl

schedule-Placed_example : Placed 1 (state_of (schedule 1 yields cp))
unfolding schedule sched requeue init_task
schedule-Placed_example =
    schedule-Placed 1 yields cp (state_of (schedule 1 yields cp)) cp-Placed refl

-- A task is created in a new page of the cache for 512 bytes: the one that the cache has lies below
-- 2 GB.
abbrev stack_of : Option (Option ℕ × Heap) → Heap
stack_of none = cp.heap
stack_of (some (p, h)) = h

abbrev malloc_of : Option (ℕ × Generic × Heap) → ℕ × Generic × Heap
malloc_of none = (0, cp.generic, cp.heap)
malloc_of (some r) = r

abbrev created_of : Option (ℕ × Cp) → Cp
created_of none = cp
created_of (some r) = r.1

abbrev grown : ℕ × Generic × Heap
grown = malloc_of (malloc 300 normal cp.generic (stack_of (alloc_stack cp.heap)))

create_task-Placed_example : Placed 1 (created_of (create_task 300 0 (97 ∷ []) 0 0 cp))
unfolding alloc_stack malloc size_class alloc_slab_obj alloc_usable alloc_in first_unused
    alloc_pages try_alloc try_low do_alloc_pages search_larger create_task finish_create occurs
create_task-Placed_example =
    create_task-Placed 1 300 0 (97 ∷ []) 0 0 41008 41008 (some 9) grown.1
      (stack_of (alloc_stack cp.heap)) grown.2 cp (created_of (create_task 300 0 (97 ∷ []) 0 0 cp))
      cp-Placed refl refl refl (omega arith) refl
