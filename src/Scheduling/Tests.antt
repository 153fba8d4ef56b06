-- ===== src/Scheduling/Tests.antt =====
-- A timer 2.5 seconds ahead, the clock being read again 10 microseconds later.
use pqnet.Common.{[]}
use pqnet.TimeStamp.{TimeStamp}
use pqnet.Timers.{TimerQueue}

abbrev no_timers : TimerQueue
no_timers = record { rh_timer_id = 0; tmqueue = [] }

abbrev ahead : TimeStamp
ahead = record { sec = 1565000002; usec = 623456 }
