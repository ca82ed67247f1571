-- ===== src/Examples/Tasks.antt =====
-- Task 1 takes a mutex and task 2 queues for it.
use hvf.Base.{ℕ, inl, ◌≢◌, ◌≡◌, refl, true, [], ◌∷◌, none, some, arith}
use hvf.Nucleus.Mutex.{
  Mutex, mutex_init, fast, contended, slow_lock, slow_failed, enqueue, Run, start, more, go,
  holding, slow, slow_locked, queueing, queued,
}
use hvf.Nucleus.Mutex.Sound.{owns}
use hvf.Nucleus.Mutex.Exclusion.{mutual_exclusion, blocked_has_owner}

abbrev got : Mutex
got = record mutex_init { state = 0; place = go 1 holding mutex_init.place }

abbrev tried : Mutex
tried = record got { place = go 2 slow got.place }

abbrev locked : Mutex
locked = record tried { queue_lock = some 2; place = go 2 slow_locked tried.place }

abbrev failed_again : Mutex
failed_again = record locked { place = go 2 queueing locked.place }

abbrev waiting : Mutex
waiting = record failed_again {
  queue_lock = none;
  queue = 2 ∷ [];
  place = go 2 queued failed_again.place;
}

interleaved : Run mutex_init waiting
interleaved =
    more
      (more
        (more (more (more start (fast mutex_init 1 refl (omega arith))) (contended got 2 refl refl))
          (slow_lock tried 2 refl refl))
        (slow_failed locked 2 refl refl))
      (enqueue failed_again 2 refl)

abbrev holder : ℕ
holder = 1

mutual_exclusion_example : holder ≡ 1
mutual_exclusion_example = mutual_exclusion holder 1 interleaved refl refl

blocked_has_owner_example : (t : ℕ) × (owns (waiting.place t) ≡ true) × (t ≢ 2)
blocked_has_owner_example = blocked_has_owner 2 interleaved (inl refl)
