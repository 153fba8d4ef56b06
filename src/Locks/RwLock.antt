-- ===== src/Locks/RwLock.antt =====
-- `class RWLock`, `ReadGuard` and `WriteGuard` of raw-examples/cpp11/rwlock/rwlock.h.
mod Defs
pub mod Exclusion
mod Tests
