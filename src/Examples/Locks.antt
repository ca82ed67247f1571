-- ===== src/Examples/Locks.antt =====
-- The lock dependency tracker with two and with nine locks held.
use hvf.Base.{◌<◌, ℕ, zero, suc, ◌-◌, ◌≡◌, refl, List, [], ◌∷◌, true, some, none, arith}
use hvf.Nucleus.Ldep.{HeldLock, Ldep, no_lock, class_held, find_lock, ldep_lock, ldep_unlock}
use hvf.Nucleus.Ldep.Order.{IsStack, lock_at, class_at, unlock_forgets_last, lock_overruns}

abbrev held : ℕ → HeldLock
held k = record { ra = 0; lock = k; lockname = k; lclass = k }

abbrev slots : ℕ → List HeldLock
slots zero = []
slots (suc n) = no_lock ∷ slots n

abbrev two_held : Ldep
two_held = record { enabled = true; nr_locks = 2; lock_stack = held 11 ∷ held 12 ∷ slots 8 }

two_held-lock : (k : ℕ) → lock_at two_held k < 18446744073709551616
two_held-lock k = ground arith

two_held-IsStack : IsStack two_held
two_held-IsStack = record {
  slots = refl;
  lock_bits = two_held-lock;
  class_bits = λ k. ground arith;
}

unlock_forgets_last_example :
    ((ldep_unlock 11 two_held).nr_locks ≡ 2 - 1)
    × (lock_at (ldep_unlock 11 two_held) 0 ≡ lock_at two_held 0)
    × (class_at (ldep_unlock 11 two_held) 0 ≡ class_at two_held 0)
unfolding find_lock
unlock_forgets_last_example =
    unlock_forgets_last 11 0 0 two_held two_held-IsStack refl (omega arith) refl

abbrev nine_held : Ldep
nine_held = record { enabled = true; nr_locks = 9; lock_stack = slots 10 }

lock_overruns_example :
    (ldep_lock (held 11) nine_held ≡ some (record nine_held { nr_locks = 10 }))
    × (ldep_lock (held 12) (record nine_held { nr_locks = 10 }) ≡ none)
unfolding class_held
lock_overruns_example = lock_overruns (held 11) (held 12) nine_held refl refl refl refl
