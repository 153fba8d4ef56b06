-- ===== src/Functors.antt =====
-- The functors of `class EventLoop` (pqnet/core/eventloop.h, pqnet/core/eventloop.cpp): work that other
-- threads, and functors themselves, hand to a loop.
mod Defs
pub mod Laws
mod Tests
