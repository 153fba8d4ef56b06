-- ===== src/Wheels/Levels.antt =====
-- The wheels of several levels, after the kernel's (raw-examples/cpp11/timingwheel/2/timermanager.h,
-- raw-examples/cpp11/timingwheel/2/timermanager.cpp, raw-examples/cpp11/timingwheel/2/list.h).
mod Defs
mod Placing
mod Counting
mod Balance
mod Cascading
mod Chain
mod Serving
mod Ticking
pub mod Handling
pub mod Deleting
mod Tests
