-- ===== src/Wheels.antt =====
-- The timing wheels of raw-examples/cpp11/timingwheel.
mod Levels
