-- ===== src/Logging.antt =====
-- `class Logger` (pqnet/util/logger.h, pqnet/util/logger.cpp) and `class AsyncLog`
-- (pqnet/util/asynclog.h, pqnet/util/asynclog.cpp): where a line is written, and the queue of lines.
mod Files
mod Logger
mod AsyncLog
pub mod Printing
pub mod Waking
mod Tests
