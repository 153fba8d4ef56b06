-- ===== src/Random.antt =====
-- `Uint32` and `Uint64` (pqnet/util/random.h, pqnet/util/random.cpp): numbers of a range, from a
-- draw of the engine, which is an argument.
mod Defs
pub mod Laws
