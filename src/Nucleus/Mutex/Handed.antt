-- ===== src/Nucleus/Mutex/Handed.antt =====
-- The steps that release the mutex or hand it over, and every run.
use mathlib.Core.Path.{subst}
use hvf.Base.{
  ◌<◌, Bool-cases, ℕ, ◌+◌, ◌≡◌, ◌≢◌, inl, inr, refl, sym, ◌∙◌, ap, true, false, List, [], ◌∷◌, none,
  some, ◌==◌, arith,
}
use hvf.Nucleus.Mutex.{
  Place, outside, slow, slow_locked, queueing, blocked, holding, unlocking, Mutex, go, Step, fast,
  contended, slow_lock, slow_got, slow_failed, enqueue, unlock_begin, unlock_free, hand_over, block,
  block_taken, block_woken, wake, queued, taken, taken_blocked, woken, asleep, waking, dequeued,
  made_runnable, Run, start, more,
}
use hvf.Nucleus.Mutex.Sound.{
  owns, spins, waits, times, owned, Sound, owner_of, locker_of, fast-Sound, contended-Sound,
  slow_lock-Sound, slow_got-Sound, slow_failed-Sound, enqueue-Sound,
}

unlock_begin-Sound :
    (m : Mutex) (t : ℕ)
    → m.place t ≡ holding
    → m.queue_lock ≡ none
    → Sound m
    → Sound (record m { queue_lock = some t; place = go t unlocking m.place })
unlock_begin-Sound m t at open_ s = record {
  owner = s.owner;
  state = s.state;
  owners = λ u. ground (arith, s.owners u);
  locker = λ u. ground (arith, s.locker u, open_);
  queued = λ u. ground (arith, s.queued u);
  no_free_wait = s.no_free_wait;
  no_free_queueing = λ u h. ground (arith, s.locker u, open_, s.no_free_queueing u);
}

unlock_free-Sound :
    (m : Mutex) (t : ℕ)
    → m.place t ≡ unlocking
    → m.queue ≡ []
    → Sound m
    → Sound (record m { state = m.state + 1; queue_lock = none; place = go t outside m.place })
unlock_free-Sound m t at empty s =
    let mine = locker_of m t s unlocking at refl in
    let own = owner_of m t s unlocking at refl in
    record {
      owner = none;
      state = ground (arith, s.state, own);
      owners = λ u. ground (arith, s.owners u, own);
      locker = λ u. ground (arith, s.locker u, mine);
      queued = λ u. ground (arith, s.queued u);
      no_free_wait = inl empty;
      no_free_queueing = λ u h. absurd (ground (arith, s.locker u, mine));
    }

waits_once : (p : Place) → 0 < waits p → waits p ≡ 1
waits_once queued h = refl
waits_once blocked h = refl
waits_once _ h = absurd (omega arith)

-- A task that was queued owns the mutex when it is off the queue.
dequeued_lem :
    (p : Place)
    → waits p ≡ 1
    → (owns (dequeued p) ≡ true)
      × (spins (dequeued p) ≡ spins p)
      × (waits (dequeued p) ≡ 0)
      × (owns p ≡ false)
      × (spins p ≡ false)
      × (p ≢ queueing)
      × (dequeued p ≢ queueing)
dequeued_lem outside h = absurd (omega arith)
dequeued_lem slow h = absurd (omega arith)
dequeued_lem slow_locked h = absurd (omega arith)
dequeued_lem queueing h = absurd (omega arith)
dequeued_lem queued h = (refl, refl, refl, refl, refl, (λ e. cc), λ e. cc)
dequeued_lem blocked h = (refl, refl, refl, refl, refl, (λ e. cc), λ e. cc)
dequeued_lem taken h = absurd (omega arith)
dequeued_lem taken_blocked h = absurd (omega arith)
dequeued_lem woken h = absurd (omega arith)
dequeued_lem asleep h = absurd (omega arith)
dequeued_lem holding h = absurd (omega arith)
dequeued_lem unlocking h = absurd (omega arith)
dequeued_lem (waking n) h = absurd (omega arith)

-- `make_runnable` changes nothing that the mutex knows of the task.
made_runnable_lem :
    (p : Place)
    → (owns (made_runnable p) ≡ owns p)
      × (spins (made_runnable p) ≡ spins p)
      × (waits (made_runnable p) ≡ waits p)
      × (made_runnable p ≡ queueing → p ≡ queueing)
made_runnable_lem outside = (refl, refl, refl, λ e. e)
made_runnable_lem slow = (refl, refl, refl, λ e. e)
made_runnable_lem slow_locked = (refl, refl, refl, λ e. e)
made_runnable_lem queueing = (refl, refl, refl, λ e. e)
made_runnable_lem queued = (refl, refl, refl, λ e. e)
made_runnable_lem blocked = (refl, refl, refl, λ e. e)
made_runnable_lem taken = (refl, refl, refl, λ e. cc)
made_runnable_lem taken_blocked = (refl, refl, refl, λ e. cc)
made_runnable_lem woken = (refl, refl, refl, λ e. e)
made_runnable_lem asleep = (refl, refl, refl, λ e. e)
made_runnable_lem holding = (refl, refl, refl, λ e. e)
made_runnable_lem unlocking = (refl, refl, refl, λ e. e)
made_runnable_lem (waking n) = (refl, refl, refl, λ e. e)

hand_over-Sound :
    (m : Mutex) (t next : ℕ) (rest : List ℕ)
    → m.place t ≡ unlocking
    → m.queue ≡ next ∷ rest
    → Sound m
    → Sound (record m {
      queue_lock = none;
      queue = rest;
      place = go t (waking next) (go next (dequeued (m.place next)) m.place);
    })
hand_over-Sound m t next rest at first s =
    let mine = locker_of m t s unlocking at refl in
    let own = owner_of m t s unlocking at refl in
    let held : m.state ≡ 0 = s.state ∙ ap (λ o. owned o) own in
    let count : (u : ℕ) → times u (next ∷ rest) ≡ waits (m.place u) =
      λ u. ap (λ q. times u q) (sym first) ∙ s.queued u in
    let waiting : 0 < waits (m.place next) = ground (arith, count next) in
    let one : waits (m.place next) ≡ 1 = waits_once (m.place next) waiting in
    let off = dequeued_lem (m.place next) one in
    let apart : t ≢ next = λ e. absurd (ground (arith, one, at, e)) in
    record {
      owner = some next;
      state = held;
      owners = λ u. ground (arith, s.owners u, own, off.0, apart);
      locker = λ u. ground (arith, s.locker u, mine, off.1, apart);
      queued = λ u. ground (arith, count u, off, at, apart);
      no_free_wait = inr held;
      no_free_queueing = λ u h. held;
    }

-- A step of one task to a place that is the same to the mutex.
same-Sound :
    (m : Mutex) (t : ℕ) (p : Place)
    → owns p ≡ owns (m.place t)
    → spins p ≡ spins (m.place t)
    → waits p ≡ waits (m.place t)
    → (p ≡ queueing → m.place t ≡ queueing)
    → Sound m
    → Sound (record m { place = go t p m.place })
same-Sound m t p o l w q s = record {
  owner = s.owner;
  state = s.state;
  owners = λ u. ground (arith, s.owners u, o);
  locker = λ u. ground (arith, s.locker u, l);
  queued = λ u. ground (arith, s.queued u, w);
  no_free_wait = s.no_free_wait;
  no_free_queueing = λ u h. queueing_free u h;
}
  where
    queueing_free : (u : ℕ) → go t p m.place u ≡ queueing → m.state ≡ 0
    queueing_free u h = elim (Bool-cases (t == u)) [
      | inl e ↦ s.no_free_queueing t (q (rw e at h))
      | inr e ↦ s.no_free_queueing u (rw e at h)
    ]

moved-Sound :
    (m : Mutex) (t : ℕ) (p p' : Place)
    → m.place t ≡ p
    → (owns p' ≡ owns p)
      × (spins p' ≡ spins p)
      × (waits p' ≡ waits p)
      × (p' ≡ queueing → p ≡ queueing)
    → Sound m
    → Sound (record m { place = go t p' m.place })
moved-Sound m t p p' at same s =
    let same' =
      subst
        (λ p.
          (owns p' ≡ owns p)
          × (spins p' ≡ spins p)
          × (waits p' ≡ waits p)
          × (p' ≡ queueing → p ≡ queueing))
        (sym at) same in
    same-Sound m t p' same'.0 same'.1 same'.2 same'.3 s

wake-Sound :
    (m : Mutex) (t next : ℕ)
    → m.place t ≡ waking next
    → Sound m
    → Sound (record m { place = go t outside (go next (made_runnable (m.place next)) m.place) })
wake-Sound m t next at s =
    let m' : Mutex = record m { place = go next (made_runnable (m.place next)) m.place } in
    let s' =
      moved-Sound m next (m.place next) (made_runnable (m.place next)) refl
        (made_runnable_lem (m.place next)) s in
    let at' : m'.place t ≡ waking next = ground (arith, at) in
    moved-Sound m' t (waking next) outside at' (refl, refl, refl, λ e. absurd cc) s'

Step-Sound : {m n : Mutex} → Step m n → Sound m → Sound n
Step-Sound (fast m t at ne) s = fast-Sound m t at ne s
Step-Sound (contended m t at z) s = contended-Sound m t at z s
Step-Sound (slow_lock m t at open_) s = slow_lock-Sound m t at open_ s
Step-Sound (slow_got m t at ne) s = slow_got-Sound m t at ne s
Step-Sound (slow_failed m t at z) s = slow_failed-Sound m t at z s
Step-Sound (enqueue m t at) s = enqueue-Sound m t at s
Step-Sound (block m t at) s = moved-Sound m t queued blocked at (refl, refl, refl, λ e. absurd cc) s
Step-Sound (block_taken m t at) s =
    moved-Sound m t taken taken_blocked at (refl, refl, refl, λ e. absurd cc) s
Step-Sound (block_woken m t at) s =
    moved-Sound m t woken asleep at (refl, refl, refl, λ e. absurd cc) s
Step-Sound (unlock_begin m t at open_) s = unlock_begin-Sound m t at open_ s
Step-Sound (unlock_free m t at empty) s = unlock_free-Sound m t at empty s
Step-Sound (hand_over m t next rest at first) s = hand_over-Sound m t next rest at first s
Step-Sound (wake m t next at) s = wake-Sound m t next at s

pub Run-Sound : {m n : Mutex} → Run m n → Sound m → Sound n
Run-Sound start s = s
Run-Sound (more run step) s = Step-Sound step (Run-Sound run s)
