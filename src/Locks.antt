-- ===== src/Locks.antt =====
-- The synchronisers of raw-examples/cpp11: `RwLock` (rwlock/rwlock.h).
pub mod RwLock
