-- ===== src/Nucleus.antt =====
-- cp/nucleus: the mutex, the scheduler, the I/O queue and the lock dependency tracker.
pub mod Mutex
pub mod Sched
pub mod Ldep
pub mod Io
