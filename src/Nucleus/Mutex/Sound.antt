-- ===== src/Nucleus/Mutex/Sound.antt =====
-- What every interleaving keeps: who owns the mutex, who has its queue lock, and who is queued.
use hvf.Base.{
  ℕ, ◌+◌, ◌-◌, ◌≡◌, ◌≢◌, ◌⊎◌, inl, inr, refl, sym, ◌∙◌, ap, Bool, true, false, List, [], ◌∷◌, ◌++◌,
  Option, none, some, ◌==◌, if◌then◌else◌, arith,
}
use hvf.Nucleus.Mutex.{
  Place, outside, slow, slow_locked, queueing, blocked, holding, unlocking, Mutex, mutex_init, go,
  queued, taken, taken_blocked, woken, asleep,
}

-- Whether a task at this place owns the mutex, also when it has been taken off the queue and does
-- not run yet or never again, and whether it holds `queue_lock`.
abbrev pub owns : Place → Bool
owns holding = true
owns unlocking = true
owns taken = true
owns taken_blocked = true
owns woken = true
owns asleep = true
owns _ = false

abbrev pub spins : Place → Bool
spins slow_locked = true
spins queueing = true
spins unlocking = true
spins _ = false

abbrev pub waits : Place → ℕ
waits queued = 1
waits blocked = 1
waits _ = 0

abbrev pub is_task : Option ℕ → ℕ → Bool
is_task none u = false
is_task (some t) u = t == u

abbrev pub times : ℕ → List ℕ → ℕ
times u [] = 0
times u (t ∷ ts) = (if t == u then 1 else 0) + times u ts

abbrev pub owned : Option ℕ → ℕ
owned none = 1
owned (some t) = 0

pub record Sound (m : Mutex) : Type 0 where
  pub owner : Option ℕ
  pub state : m.state ≡ owned owner
  pub owners : (u : ℕ) → owns (m.place u) ≡ is_task owner u
  pub locker : (u : ℕ) → spins (m.place u) ≡ is_task m.queue_lock u
  pub queued : (u : ℕ) → times u m.queue ≡ waits (m.place u)
  pub no_free_wait : (m.queue ≡ []) ⊎ (m.state ≡ 0)
  pub no_free_queueing : (u : ℕ) → m.place u ≡ queueing → m.state ≡ 0

pub mutex_init-Sound : Sound mutex_init
mutex_init-Sound = record {
  owner = none;
  state = refl;
  owners = λ u. refl;
  locker = λ u. refl;
  queued = λ u. refl;
  no_free_wait = inl refl;
  no_free_queueing = λ u h. absurd (ground arith);
}

times-append :
    (u : ℕ) (q : List ℕ) (t : ℕ) → times u (q ++ t ∷ []) ≡ times u q + (if t == u then 1 else 0)
times-append u [] t = omega arith
times-append u (x ∷ q) t = omega (arith, times-append u q t)

pub free_owner : (o : Option ℕ) (n : ℕ) → n ≡ owned o → n ≢ 0 → o ≡ none
free_owner none n e ne = refl
free_owner (some t) n e ne = absurd (ne e)

pub fast-Sound :
    (m : Mutex) (t : ℕ)
    → m.place t ≡ outside
    → m.state ≢ 0
    → Sound m
    → Sound (record m { state = m.state - 1; place = go t holding m.place })
fast-Sound m t at ne s =
    let free = free_owner s.owner m.state s.state ne in
    record {
      owner = some t;
      state = ground (arith, s.state, free);
      owners = λ u. ground (arith, s.owners u, free);
      locker = λ u. ground (arith, s.locker u);
      queued = λ u. ground (arith, s.queued u);
      no_free_wait = inr (ground (arith, s.state, free));
      no_free_queueing = λ u h. ground (arith, s.state, free);
    }

pub contended-Sound :
    (m : Mutex) (t : ℕ)
    → m.place t ≡ outside
    → m.state ≡ 0
    → Sound m
    → Sound (record m { place = go t slow m.place })
contended-Sound m t at z s = record {
  owner = s.owner;
  state = s.state;
  owners = λ u. ground (arith, s.owners u);
  locker = λ u. ground (arith, s.locker u);
  queued = λ u. ground (arith, s.queued u);
  no_free_wait = s.no_free_wait;
  no_free_queueing = λ u h. z;
}

pub is_task-some : (o : Option ℕ) (t : ℕ) → is_task o t ≡ true → o ≡ some t
is_task-some none t h = absurd (ground arith)
is_task-some (some s) t h = let same : s ≡ t = ground arith in ap (λ x. some x) same

pub owner_of :
    (m : Mutex) (t : ℕ) (s : Sound m) (p : Place) → m.place t ≡ p → owns p ≡ true → s.owner ≡ some t
owner_of m t s p at own = is_task-some s.owner t (sym (s.owners t) ∙ ap (λ p. owns p) at ∙ own)

pub locker_of :
    (m : Mutex) (t : ℕ) (s : Sound m) (p : Place)
    → m.place t ≡ p
    → spins p ≡ true
    → m.queue_lock ≡ some t
locker_of m t s p at spin =
    is_task-some m.queue_lock t (sym (s.locker t) ∙ ap (λ p. spins p) at ∙ spin)

pub slow_lock-Sound :
    (m : Mutex) (t : ℕ)
    → m.place t ≡ slow
    → m.queue_lock ≡ none
    → Sound m
    → Sound (record m { queue_lock = some t; place = go t slow_locked m.place })
slow_lock-Sound m t at open_ s = record {
  owner = s.owner;
  state = s.state;
  owners = λ u. ground (arith, s.owners u);
  locker = λ u. ground (arith, s.locker u, open_);
  queued = λ u. ground (arith, s.queued u);
  no_free_wait = s.no_free_wait;
  no_free_queueing = λ u h. ground (arith, s.locker u, open_, s.no_free_queueing u);
}

pub slow_got-Sound :
    (m : Mutex) (t : ℕ)
    → m.place t ≡ slow_locked
    → m.state ≢ 0
    → Sound m
    → Sound (record m { state = m.state - 1; queue_lock = none; place = go t holding m.place })
slow_got-Sound m t at ne s =
    let free = free_owner s.owner m.state s.state ne in
    let mine = locker_of m t s slow_locked at refl in
    record {
      owner = some t;
      state = ground (arith, s.state, free);
      owners = λ u. ground (arith, s.owners u, free);
      locker = λ u. ground (arith, s.locker u, mine);
      queued = λ u. ground (arith, s.queued u);
      no_free_wait = inr (ground (arith, s.state, free));
      no_free_queueing = λ u h. ground (arith, s.state, free);
    }

pub slow_failed-Sound :
    (m : Mutex) (t : ℕ)
    → m.place t ≡ slow_locked
    → m.state ≡ 0
    → Sound m
    → Sound (record m { place = go t queueing m.place })
slow_failed-Sound m t at z s = record {
  owner = s.owner;
  state = s.state;
  owners = λ u. ground (arith, s.owners u);
  locker = λ u. ground (arith, s.locker u);
  queued = λ u. ground (arith, s.queued u);
  no_free_wait = s.no_free_wait;
  no_free_queueing = λ u h. z;
}

pub enqueue-Sound :
    (m : Mutex) (t : ℕ)
    → m.place t ≡ queueing
    → Sound m
    → Sound (record m { queue_lock = none; queue = m.queue ++ t ∷ []; place = go t queued m.place })
enqueue-Sound m t at s =
    let mine = locker_of m t s queueing at refl in
    record {
      owner = s.owner;
      state = s.state;
      owners = λ u. ground (arith, s.owners u);
      locker = λ u. ground (arith, s.locker u, mine);
      queued = λ u. ground (arith, s.queued u, times-append u m.queue t);
      no_free_wait = inr (s.no_free_queueing t at);
      no_free_queueing = λ u h. s.no_free_queueing t at;
    }
