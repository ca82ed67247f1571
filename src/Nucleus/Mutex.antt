-- ===== src/Nucleus/Mutex.antt =====
-- The mutex of cp/include/mutex.h and cp/nucleus/mutex.c, as steps of tasks that may interleave.
-- Each step is one atomic operation on `state`, one action on the queue under `queue_lock`, or one
-- call of the scheduler. The lock dependency tracker and the run queue are left out.
pub mod Sound
pub mod Handed
pub mod Exclusion
use hvf.Base.{
  ℕ, zero, suc, ◌+◌, ◌-◌, ◌≡◌, ◌≢◌, Bool, true, false, List, [], ◌∷◌, ◌++◌, Option, none, some,
  ◌==◌, if◌then◌else◌,
}

-- Where a task stands: outside; in the slow path before `queue_lock`, under it, and under it and
-- about to queue itself; queued and about to call `schedule_blocked`; blocked; taken off the queue,
-- but not yet made runnable, in either of these two places; made runnable before it has called
-- `schedule_blocked`, and blocked by that call; behind the lock; under `queue_lock` in
-- `__mutex_unlock`, and about to make a task runnable there.
pub data Place : Type 0 where
  outside slow slow_locked queueing queued blocked : Place
  taken taken_blocked woken asleep : Place
  holding unlocking : Place
  waking : ℕ → Place

-- Its place after a task is taken off the queue.
abbrev pub dequeued : Place → Place
dequeued queued = taken
dequeued blocked = taken_blocked
dequeued p = p

-- Its place after `make_runnable` of a task.
abbrev pub made_runnable : Place → Place
made_runnable taken = woken
made_runnable taken_blocked = holding
made_runnable p = p

-- `mutex_t`: `state`, the holder of `queue_lock`, and `queue`; with the place of each task.
pub record Mutex : Type 0 where
  pub state : ℕ
  pub queue_lock : Option ℕ
  pub queue : List ℕ
  pub place : ℕ → Place

-- `mutex_init`
abbrev pub mutex_init : Mutex
mutex_init = record { state = 1; queue_lock = none; queue = []; place = λ t. outside }

abbrev pub go : ℕ → Place → (ℕ → Place) → ℕ → Place
go t p place u = if t == u then p else place u

pub data Step : Mutex → Mutex → Type 0 where
  -- `atomic_add_unless(&lock->state, -1, 0)` of `__mutex_lock`
  fast :
      (m : Mutex) (t : ℕ)
      → m.place t ≡ outside
      → m.state ≢ 0
      → Step m (record m { state = m.state - 1; place = go t holding m.place })
  contended :
      (m : Mutex) (t : ℕ)
      → m.place t ≡ outside
      → m.state ≡ 0
      → Step m (record m { place = go t slow m.place })
  -- `__mutex_lock_slow`
  slow_lock :
      (m : Mutex) (t : ℕ)
      → m.place t ≡ slow
      → m.queue_lock ≡ none
      → Step m (record m { queue_lock = some t; place = go t slow_locked m.place })
  slow_got :
      (m : Mutex) (t : ℕ)
      → m.place t ≡ slow_locked
      → m.state ≢ 0
      → Step m (record m { state = m.state - 1; queue_lock = none; place = go t holding m.place })
  slow_failed :
      (m : Mutex) (t : ℕ)
      → m.place t ≡ slow_locked
      → m.state ≡ 0
      → Step m (record m { place = go t queueing m.place })
  enqueue :
      (m : Mutex) (t : ℕ)
      → m.place t ≡ queueing
      → Step m
          (record m { queue_lock = none; queue = m.queue ++ t ∷ []; place = go t queued m.place })
  -- `schedule_blocked()`; a task that has been made runnable before is blocked all the same.
  block :
      (m : Mutex) (t : ℕ) → m.place t ≡ queued → Step m (record m { place = go t blocked m.place })
  block_taken :
      (m : Mutex) (t : ℕ)
      → m.place t ≡ taken
      → Step m (record m { place = go t taken_blocked m.place })
  block_woken :
      (m : Mutex) (t : ℕ) → m.place t ≡ woken → Step m (record m { place = go t asleep m.place })
  -- `__mutex_unlock`
  unlock_begin :
      (m : Mutex) (t : ℕ)
      → m.place t ≡ holding
      → m.queue_lock ≡ none
      → Step m (record m { queue_lock = some t; place = go t unlocking m.place })
  unlock_free :
      (m : Mutex) (t : ℕ)
      → m.place t ≡ unlocking
      → m.queue ≡ []
      → Step m (record m { state = m.state + 1; queue_lock = none; place = go t outside m.place })
  hand_over :
      (m : Mutex) (t next : ℕ) (rest : List ℕ)
      → m.place t ≡ unlocking
      → m.queue ≡ next ∷ rest
      → Step m (record m {
        queue_lock = none;
        queue = rest;
        place = go t (waking next) (go next (dequeued (m.place next)) m.place);
      })
  wake :
      (m : Mutex) (t next : ℕ)
      → m.place t ≡ waking next
      → Step m (record m { place = go t outside (go next (made_runnable (m.place next)) m.place) })

pub data Run : Mutex → Mutex → Type 0 where
  start : {m : Mutex} → Run m m
  more : {l m n : Mutex} → Run l m → Step m n → Run l n
